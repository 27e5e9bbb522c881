-- ===== src/Pipeline.antt =====
-- What the task lists share (app/dashboard/app/queue/page.tsx): tasks, the five buckets of the
-- pipeline, the state filter and the search. A status is a text, as the server sends it.
pub mod Partition
use apifor_dev.Common.Text
use apifor_dev.Common.{
  ℕ, ◌+◌, String, ◌==◌, Bool, true, ◌&&◌, ◌||◌, Option, List, [], ◌∷◌, map, if◌then◌else◌, default,
  filter, count, contains,
}

pub record Task : Type 0 where
  pub id : String
  pub title : String
  pub status : String
  pub repo_id : Option String

pub record Bucket : Type 0 where
  pub label : String
  pub tone : String
  pub st : List String

unfoldable pub buckets : List Bucket
buckets =
    record { label = "Na fila"; tone = "orange"; st = "queued" ∷ "planning" ∷ "assigned" ∷ [] }
    ∷ record { label = "Em execução"; tone = "blue"; st = "running" ∷ [] }
    ∷ record { label = "Em revisão"; tone = "accent"; st = "in_review" ∷ "blocked" ∷ [] }
    ∷ record { label = "Concluídas"; tone = "green"; st = "merged" ∷ [] }
    ∷ record { label = "Falhas"; tone = "red"; st = "failed" ∷ [] }
    ∷ []

-- One segment of the state bar.
pub record Segment : Type 0 where
  pub label : String
  pub tone : String
  pub n : ℕ

unfoldable pub bucket_count : List Task → Bucket → Segment
bucket_count tasks b = record {
  label = b.label;
  tone = b.tone;
  n = count (λ t. contains b.st t.status) tasks;
}

unfoldable pub bucket_counts : List Task → List Segment
unfolding buckets bucket_count
bucket_counts tasks = map (bucket_count tasks) buckets

-- The total that the state bar shows: `counts.reduce((a, c) => a + c.n, 0)`.
unfoldable pub bar_total : List Segment → ℕ
bar_total [] = 0
bar_total (c ∷ cs) = c.n + bar_total cs

unfoldable pub match_state : String → String → Bool
match_state f s =
    if f == "todos"
    then true
    else if f == "andamento"
    then contains ("running" ∷ "in_review" ∷ "blocked" ∷ []) s
    else if f == "fila"
    then contains ("queued" ∷ "planning" ∷ "assigned" ∷ []) s
    else if f == "encerrado"
    then contains ("merged" ∷ "failed" ∷ []) s
    else true

-- `toLowerCase` follows the Unicode tables of the JavaScript engine: a parameter.
module _ (lower : String → String) where
  unfoldable pub matches_query : String → Task → Bool
  matches_query q t =
      q == ""
      || Text.includes (lower (Text.append (Text.append t.title t.id) (default "" t.repo_id)))
          (lower q)

  unfoldable pub filtered : String → String → List Task → List Task
  filtered state q tasks = filter (λ t. match_state state t.status && matches_query q t) tasks
