-- ===== src/Pipeline/Partition.antt =====
-- The buckets and the state filters each split the tasks of the pipeline.
use apifor_dev.Common.{
  ℕ, ◌+◌, String, ◌≡◌, refl, ap, Bool, true, List, [], ◌∷◌, arith, if◌then◌else◌, length, filter,
  count, contains, contains-ind, count-cons,
}
use apifor_dev.Pipeline.{Task, bucket_counts, bar_total, match_state}

-- The statuses that the server gives a task.
abbrev pub statuses : List String
statuses =
    "queued" ∷ "planning" ∷ "assigned" ∷ "running" ∷ "in_review" ∷ "blocked" ∷ "merged" ∷ "failed"
    ∷ []

-- Every task of the list has one of those statuses.
abbrev pub AllKnown : List Task → Type 0
AllKnown [] = Unit {0}
AllKnown (t ∷ ts) = (contains statuses t.status ≡ true) × AllKnown ts

abbrev ind : Bool → ℕ
ind b = if b then 1 else 0

abbrev InOneBucket : String → Type 0
InOneBucket s =
    ind (contains ("queued" ∷ "planning" ∷ "assigned" ∷ []) s)
      + ind (contains ("running" ∷ []) s)
      + ind (contains ("in_review" ∷ "blocked" ∷ []) s)
      + ind (contains ("merged" ∷ []) s)
      + ind (contains ("failed" ∷ []) s)
    ≡ 1

one_bucket : (s : String) → contains statuses s ≡ true → InOneBucket s
one_bucket =
    contains-ind InOneBucket statuses
      (refl, (refl, (refl, (refl, (refl, (refl, (refl, (refl, tt))))))))

abbrev InOneFilter : String → Type 0
InOneFilter s =
    ind (match_state "andamento" s) + ind (match_state "fila" s) + ind (match_state "encerrado" s)
    ≡ 1

one_filter : (s : String) → contains statuses s ≡ true → InOneFilter s
unfolding match_state
one_filter =
    contains-ind InOneFilter statuses
      (refl, (refl, (refl, (refl, (refl, (refl, (refl, (refl, tt))))))))

count_status :
    (p : String → Bool) (t : Task) (ts : List Task)
    → count (λ u. p u.status) (t ∷ ts) ≡ ind (p t.status) + count (λ u. p u.status) ts
count_status p t ts = count-cons (λ (u : Task). p u.status) t ts

-- Of the tasks with a known status, each is in exactly one bucket: the total of the state bar is
-- the number of tasks.
pub bar_total-bucket_counts :
    (ts : List Task) → AllKnown ts → bar_total (bucket_counts ts) ≡ length ts
unfolding bar_total bucket_counts
bar_total-bucket_counts [] h = refl
bar_total-bucket_counts (t ∷ ts) h = omega (
  arith,
  one_bucket t.status h.0,
  bar_total-bucket_counts ts h.1,
  count_status (contains ("queued" ∷ "planning" ∷ "assigned" ∷ [])) t ts,
  count_status (contains ("running" ∷ [])) t ts,
  count_status (contains ("in_review" ∷ "blocked" ∷ [])) t ts,
  count_status (contains ("merged" ∷ [])) t ts,
  count_status (contains ("failed" ∷ [])) t ts,
)

-- The three state filters split the tasks with a known status, and "todos" shows them all.
pub match_state-split :
    (ts : List Task)
    → AllKnown ts
    → (count (λ t. match_state "andamento" t.status) ts
          + count (λ t. match_state "fila" t.status) ts
          + count (λ t. match_state "encerrado" t.status) ts
        ≡ length ts)
      × (filter (λ t. match_state "todos" t.status) ts ≡ ts)
unfolding match_state
match_state-split [] h = (refl, refl)
match_state-split (t ∷ ts) h =
    let (split, same) = match_state-split ts h.1 in
    (
      omega (
        arith,
        split,
        one_filter t.status h.0,
        count_status (match_state "andamento") t ts,
        count_status (match_state "fila") t ts,
        count_status (match_state "encerrado") t ts,
      ),
      ap (λ r. t ∷ r) same,
    )
