-- ===== src/Qa/Screen.antt =====
-- What the QA page shows, and its controls (app/dashboard/app/qa/page.tsx). `lower` is `toLowerCase`,
-- `write` prints a number, `fixed` a quotient with one digit after the point.
use apifor_dev.Common.{
  ℕ, ◌*◌, String, ◌==◌, Bool, ◌||◌, Option, none, some, List, [], ◌∷◌, map, ltb, nat_eq,
  if◌then◌else◌, default, length, filter,
}
use apifor_dev.Common.Text
use apifor_dev.Qa.{
  sum_of, fail_count, Qa, fmt_duration, found_by, passed, repos, pages, Report, total, match_state,
}
use apifor_dev.Interventions.{short}
use apifor_dev.Queue.{lit, pager, Pager}
use apifor_dev.Paging.{total_pages, next_page, prev_page}
use apifor_dev.Paging.{rows}

-- A report with its coverage in hundredths of a percent; `none` is a coverage that is no number.
pub record Covered : Type 0 where
  pub report : Report
  pub coverage : Option ℕ

pub data Event : Type 0 where
  set_q set_state set_repo : String → Event
  prev next : Event

abbrev pub reports : List Covered → List Report
reports xs = map (λ (x : Covered). x.report) xs

unfoldable pub step : (String → String) → List Report → Event → Qa → Qa
unfolding pages prev_page next_page
step lower list (set_q v) s = record s { q = v; page = 0 }
step lower list (set_state v) s = record s { state = v; page = 0 }
step lower list (set_repo v) s = record s { repo = v; page = 0 }
step lower list prev s = record s { page = prev_page s.page }
step lower list next s = record s { page = next_page (pages lower list s) s.page }

unfoldable pub steps : (String → String) → List Report → List Event → Qa → Qa
unfolding step
steps lower list [] s = s
steps lower list (e ∷ es) s = steps lower list es (step lower list e s)

-- `covVals`: the coverages above 0.
unfoldable pub cov_vals : List Covered → List ℕ
cov_vals xs = filter (λ n. ltb 0 n) (map (λ (x : Covered). default 0 x.coverage) xs)

abbrev pub status_tone : String → String
status_tone s = if s == "passed" then "merged" else if s == "failed" then "failed" else "queued"

-- `taskId.replace(/^tsk_/, "")`
abbrev pub bare_task : String → String
bare_task id = if Text.starts_with id "tsk_" then Text.drop 4 id else id

pub record Row : Type 0 where
  pub head : String
  pub code : String
  pub repo : String
  pub tests : String
  pub coverage : String
  pub tone : String
  pub status : String
  pub time : String

pub record Screen : Type 0 where
  pub kpis : List (String × String)
  pub options : List String
  pub pills : List (String × Bool)
  pub rows : List Row
  pub empty : Bool
  pub label : String
  pub pager : Option Pager

module _ (write : ℕ → String) (fixed : ℕ → ℕ → String) where
  abbrev pub fmt_cov : Option ℕ → String
  fmt_cov none = "—"
  fmt_cov (some n) = Text.append (fixed n 100) "%"

  -- The four numbers: the share of the tests that passed, the average coverage, the failures, the tests.
  unfoldable pub kpis : List Covered → List (String × String)
  unfolding total passed fail_count cov_vals
  kpis xs =
      let list = reports xs in
      let vals = cov_vals xs in
      (
        "Taxa de aprovação",
        if nat_eq (total list) 0
            then "—"
            else Text.append (fixed (100 * passed list) (total list)) "%",
      )
      ∷ (
        "Cobertura média",
        if nat_eq (length vals) 0
            then "—"
            else Text.append (fixed (sum_of (λ n. n) vals) (100 * length vals)) "%",
      )
      ∷ ("Falhas", write (fail_count list))
      ∷ ("Total de testes", write (total list))
      ∷ []

  unfoldable pub row : (ℕ → String) → Covered → Row
  unfolding short fmt_duration
  row tenths x =
      let r = x.report in
      let code = Text.append "#" (short 6 (bare_task r.task_id)) in
      record {
        head = if r.branch == "" then code else short 18 r.branch;
        code = code;
        repo = if r.repo_id == "" then "—" else short 24 r.repo_id;
        tests = Text.append (write r.tests_passed) (Text.append "/" (write r.tests_total));
        coverage = fmt_cov x.coverage;
        tone = status_tone r.status;
        status = r.status;
        time = fmt_duration write tenths r.duration_ms;
      }

module _ (lower : String → String) where
  -- What the filters leave, with the coverages.
  unfoldable pub found : Qa → List Covered → List Covered
  unfolding match_state found_by
  found s xs =
      filter (λ x. found_by lower s.q x.report)
        (filter (λ x. (s.repo == "todos") || (x.report.repo_id == s.repo))
          (filter (λ x. match_state s.state x.report.status) xs))

module _ (write : ℕ → String) (fixed : ℕ → ℕ → String) (lower : String → String) where
  unfoldable pub screen : (ℕ → String) → List Covered → Qa → Screen
  unfolding kpis repos found rows row pager total_pages
  screen tenths xs s =
      let left = found lower s xs in
      let shown = rows 20 s.page left in
      record {
        kpis = kpis write fixed xs;
        options = "todos" ∷ repos (reports xs);
        pills = lit s.state (
            ("todos", "Todos")
            ∷ ("pass", "Aprovado")
            ∷ ("fail", "Falhou")
            ∷ ("flaky", "Flaky")
            ∷ []);
        rows = map (row write fixed tenths) shown;
        empty = nat_eq (length shown) 0;
        label = Text.append (write (length left)) " execuções";
        pager = pager (total_pages 20 (length left)) s.page;
      }
