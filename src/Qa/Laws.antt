-- ===== src/Qa/Laws.antt =====
-- The durations and the totals of the quality reports.
use apifor_dev.Common.{
  ℕ, ◌+◌, ◌*◌, ◌/◌, ◌%◌, ◌≤◌, ◌≡◌, ◌∙◌, ◌↔◌, false, List, [], ◌∷◌, arith, ltb, nat_eq, if-false,
  All,
}
use apifor_dev.Qa.{Report, minutes, total, sum_of, passed, duration_of}

-- A duration of a minute or more is shown as whole minutes and rounded seconds, which together differ
-- from it by half a second at most. The seconds go up to 60, not 59: they are 60 exactly where the
-- rest of the minutes is 59.5 seconds or more.
pub duration_of-minutes :
    (ms : ℕ)
    → 60000 ≤ ms
    → let m = ms / 60000 in
      let s = (ms % 60000 + 500) / 1000 in
      (duration_of ms ≡ minutes m s)
      × (1000 * (60 * m + s) ≤ ms + 500)
      × (ms ≤ 1000 * (60 * m + s) + 500)
      × (s ≤ 60)
      × ((s ≡ 60) ↔ (59500 ≤ ms % 60000))
unfolding duration_of
duration_of-minutes ms h =
    let a : nat_eq ms 0 ≡ false = ground arith in
    let b : ltb ms 1000 ≡ false = ground arith in
    let c : ltb ms 60000 ≡ false = ground arith in
    (
      if-false _ _ a ∙ if-false _ _ b ∙ if-false _ _ c,
      omega arith,
      omega arith,
      omega arith,
      (λ e. omega arith, λ e. omega arith),
    )

sum_of-le {ℓ} :
    {A : Type ℓ} (f g : A → ℕ) (xs : List A) → All (λ x. f x ≤ g x) xs → sum_of f xs ≤ sum_of g xs
sum_of-le f g [] h = omega arith
sum_of-le f g (x ∷ xs) h = omega (arith, h.0, sum_of-le f g xs h.1)

-- Reports none of which passes more tests than it has pass no more in all than there are, so that the
-- rate shown is one hundred percent at most.
pub passed-le-total :
    (list : List Report) → All (λ x. x.tests_passed ≤ x.tests_total) list → passed list ≤ total list
unfolding passed total
passed-le-total list h = sum_of-le (λ x. x.tests_passed) (λ x. x.tests_total) list h
