-- ===== src/Shell/Counts.antt =====
-- The badges of the sidebar (`useCounts`, `useUnread` and `countBadge` in app/dashboard/app/ui.tsx).
-- A row of a list is known by its status.
pub mod Laws
use apifor_dev.Common.{
  ℕ, String, ◌==◌, Bool, false, not, Option, none, some, List, [], ◌∷◌, nat_eq, if◌then◌else◌,
  default, length, count, contains,
}
use apifor_dev.Async.{returned, thrown, Outcome}
use apifor_dev.Poll.{or_empty, Maybe}

-- The rows of the four lists that a load asks for, each as the call comes out.
pub record Answers : Type 0 where
  pub workers : Outcome (Maybe (List String))
  pub tasks : Outcome (Maybe (List String))
  pub prs : Outcome (Maybe (List String))
  pub interventions : Outcome (Maybe (List String))

pub record Counts : Type 0 where
  pub workers : ℕ
  pub queue : ℕ
  pub prs : ℕ
  pub interv : ℕ

-- `n(path, f)`: a call that fails counts as 0, an answer without data as an empty list.
abbrev pub n_of : (List String → ℕ) → Outcome (Maybe (List String)) → ℕ
n_of f (thrown e) = 0
n_of f (returned d) = f (or_empty d)

unfoldable pub counts_of : Answers → Counts
counts_of a = record {
  workers = n_of length a.workers;
  queue = n_of (count (λ s. contains ("queued" ∷ "planning" ∷ "assigned" ∷ []) s)) a.tasks;
  prs = n_of (count (λ s. not (s == "merged"))) a.prs;
  interv = n_of length a.interventions;
}

-- The component: whether it is mounted, and the counts, `none` before the first load.
pub record Counted : Type 0 where
  pub on : Bool
  pub c : Option Counts

-- The four calls of a load have settled, or the component is taken away.
pub data Event : Type 0 where
  settled : Answers → Event
  unmount : Event

unfoldable pub step : Event → Counted → Counted
unfolding counts_of
step (settled a) s = if s.on then record s { c = some (counts_of a) } else s
step unmount s = record s { on = false }

unfoldable pub steps : List Event → Counted → Counted
unfolding step
steps [] s = s
steps (e ∷ es) s = steps es (step e s)

-- `counts[key || ""]`
unfoldable pub count_at : Option Counts → Option String → Option ℕ
count_at (some c) (some k) =
    if k == "workers"
    then some c.workers
    else if k == "queue"
    then some c.queue
    else if k == "prs"
    then some c.prs
    else if k == "interv"
    then some c.interv
    else none
count_at _ _ = none

-- The badge of an entry: none for a missing count and for 0.
unfoldable pub badge : Option ℕ → String → Option (ℕ × String)
badge none tone = none
badge (some n) tone = if nat_eq n 0 then none else some (n, tone)

-- `counts.workers || 0`
unfoldable pub n_workers : Option Counts → ℕ
n_workers none = 0
n_workers (some c) = c.workers

-- The unread messages of the stream, whose message is `none` where it is no JSON, and without a
-- number where it has no `unread`.
unfoldable pub unread_step : Option (Option ℕ) → ℕ → ℕ
unread_step none n = n
unread_step (some m) n = default 0 m
