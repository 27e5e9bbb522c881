-- ===== src/Logs/Laws.antt =====
-- The levels of the logs page, and what its selects lead to.
use apifor_dev.Common.{
  ℕ, ◌+◌, ◌<◌, String, ◌==◌, ◌≡◌, refl, inl, inr, true, false, List, [], ◌∷◌, map, arith, eq_comm,
  contains-false, if◌then◌else◌, Bool-cases, length, count, contains, All, contains-ind,
}
use apifor_dev.Logs.{lvl, match_level, Log, rows, workers}
use apifor_dev.Choices.Laws.{contains-choices}

abbrev named : List String
named =
    "failed" ∷ "changes" ∷ "done" ∷ "passed" ∷ "approved" ∷ "merged" ∷ "running" ∷ "active"
    ∷ "pending" ∷ "planning" ∷ []

abbrev IsAgreed : String → Type 0
IsAgreed s =
    (match_level "err" s ≡ ((lvl s).0 == "ERRO")) × (match_level "warn" s ≡ ((lvl s).0 == "AVISO"))

abbrev level_count : String → ℕ
level_count s =
    (if match_level "err" s then 1 else 0)
    + (if match_level "warn" s then 1 else 0)
    + (if match_level "info" s then 1 else 0)

named-IsAgreed : All IsAgreed named
unfolding match_level lvl
named-IsAgreed = (
  (refl, refl),
  (
    (refl, refl),
    (
      (refl, refl),
      (
        (refl, refl),
        (
          (refl, refl),
          ((refl, refl), ((refl, refl), ((refl, refl), ((refl, refl), ((refl, refl), tt))))),
        ),
      ),
    ),
  ),
)

other-IsAgreed : (s : String) → contains named s ≡ false → IsAgreed s
unfolding match_level lvl
other-IsAgreed s h =
    let (a, (b, (c, (d, (e, (f, (g, (i, (j, (k, z)))))))))) = contains-false named s h in
    rw (a, b, c, d, e, f, g, i, j, k) (refl, refl)

one_level : (s : String) → level_count s ≡ 1
unfolding match_level
one_level s = elim (Bool-cases (contains named s)) [
  | inl e ↦
      contains-ind (λ t. level_count t ≡ 1) named
        (refl, (refl, (refl, (refl, (refl, (refl, (refl, (refl, (refl, (refl, tt)))))))))) s e
  | inr e ↦
      let (a, (b, (c, (d, (e, (f, (g, (i, (j, (k, z)))))))))) = contains-false named s e in
      let l : contains ("failed" ∷ "changes" ∷ "pending" ∷ "planning" ∷ []) s ≡ false = ground (
        arith,
        eq_comm s "failed",
        eq_comm s "changes",
        eq_comm s "pending",
        eq_comm s "planning",
      ) in
      rw (a, b, j, k, l) refl
]

-- The level filters "Erro" and "Aviso" leave the lines whose word is "ERRO" and "AVISO".
pub match_level-lvl :
    (s : String)
    → (match_level "err" s ≡ ((lvl s).0 == "ERRO"))
      × (match_level "warn" s ≡ ((lvl s).0 == "AVISO"))
match_level-lvl s = elim (Bool-cases (contains named s)) [
  | inl e ↦ contains-ind IsAgreed named named-IsAgreed s e
  | inr e ↦ other-IsAgreed s e
]

-- The three levels split the logs.
pub match_level-split :
    (ls : List Log)
    → count (λ l. match_level "err" l.status) ls
        + count (λ l. match_level "warn" l.status) ls
        + count (λ l. match_level "info" l.status) ls
      ≡ length ls
unfolding match_level
match_level-split [] = refl
match_level-split (l ∷ ls) = ground (arith, one_level l.status, match_level-split ls)

worker-kept :
    (ls : List Log) (w : String)
    → contains (map (λ (l : Log). l.task_id) ls) w ≡ true
    → 0 < length (rows (record { level = "todos"; who = w; agent = "todos" }) ls)
unfolding rows match_level
worker-kept [] w h = cc
worker-kept (l ∷ ls) w h = elim (Bool-cases (l.task_id == w)) [
  | inl e ↦ ground arith
  | inr e ↦ ground (arith, worker-kept ls w (ground arith))
]

-- Every worker that the select offers has a line: choosing it, with no other filter, leaves one.
pub workers-shown :
    (ls : List Log) (w : String)
    → contains (workers ls) w ≡ true
    → 0 < length (rows (record { level = "todos"; who = w; agent = "todos" }) ls)
unfolding workers
workers-shown ls w h =
    worker-kept ls w (ground (arith, contains-choices (map (λ (l : Log). l.task_id) ls) w))
