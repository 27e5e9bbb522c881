-- ===== src/Choices/Laws.antt =====
-- Which options a select offers.
use apifor_dev.Common.{
  ℕ, ◌≤◌, String, ◌==◌, eq_iff, eq_refl, ◌≡◌, refl, sym, subst, ◌∙◌, inl, inr, Bool, ◌&&◌, not,
  List, [], ◌∷◌, arith, Bool-cases, filter, count, contains,
}
use apifor_dev.Choices.{distinct, choices}

contains-filter :
    (p : String → Bool) (xs : List String) (s : String)
    → contains (filter p xs) s ≡ (p s && contains xs s)
contains-filter p [] s = ground arith
contains-filter p (x ∷ xs) s = elim (Bool-cases (x == s)) [
  | inl e ↦ rw ((eq_iff x s).0 e, eq_refl s) (ground (arith, contains-filter p xs s, eq_refl s))
  | inr e ↦ ground (arith, contains-filter p xs s)
]

contains-distinct : (xs : List String) (s : String) → contains (distinct xs) s ≡ contains xs s
unfolding distinct
contains-distinct [] s = refl
contains-distinct (x ∷ xs) s = elim (Bool-cases (x == s)) [
  | inl e ↦ rw e refl
  | inr e ↦
      rw (e, contains-filter (λ y. not (y == x)) (distinct xs) s, contains-distinct xs s)
        (ground (arith, e, eq_iff x s, eq_iff s x))
]

-- A select offers the texts of the data that are not empty, and no others.
pub contains-choices :
    (xs : List String) (s : String) → contains (choices xs) s ≡ (not (s == "") && contains xs s)
unfolding choices
contains-choices xs s =
    contains-distinct (filter (λ t. not (t == "")) xs) s ∙ contains-filter (λ t. not (t == "")) xs s

-- How often a text is offered.
abbrev pub times : String → List String → ℕ
times s xs = count (λ x. x == s) xs

times-filter :
    (p : String → Bool) (xs : List String) (s : String) → times s (filter p xs) ≤ times s xs
times-filter p [] s = omega arith
times-filter p (x ∷ xs) s = ground (arith, times-filter p xs s)

times-removed : (xs : List String) (s : String) → times s (filter (λ y. not (y == s)) xs) ≡ 0
times-removed [] s = refl
times-removed (x ∷ xs) s = ground (arith, times-removed xs s)

times-same : (xs : List String) (x s : String) → x ≡ s → times s (filter (λ y. not (y == x)) xs) ≡ 0
times-same xs x s e =
    subst (λ z. times s (filter (λ y. not (y == z)) xs) ≡ 0) (sym e) (times-removed xs s)

-- No option is offered twice.
pub times-distinct : (xs : List String) (s : String) → times s (distinct xs) ≤ 1
unfolding distinct
times-distinct [] s = omega arith
times-distinct (x ∷ xs) s = elim (Bool-cases (x == s)) [
  | inl e ↦ rw (e, times-same (distinct xs) x s ((eq_iff x s).0 e)) (omega arith)
  | inr e ↦ ground (arith, times-filter (λ y. not (y == x)) (distinct xs) s, times-distinct xs s)
]
