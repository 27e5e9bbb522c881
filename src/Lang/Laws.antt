-- ===== src/Lang/Laws.antt =====
-- Translating a translated text again changes nothing.
use apifor_dev.Lang.{tr, lookup, dictionary}
use apifor_dev.Common.{
  String, ◌==◌, eq_iff, ◌≡◌, refl, ap, ◌⊎◌, inl, inr, Bool, true, false, some, List, [], ◌∷◌, arith,
  Bool-cases, Option-cases, all,
}

stable : String × String → Bool
unfolding tr
stable e = tr "en" e.1 == e.1

lookup-All :
    (p : String × String → Bool) (k : String) (m : List (String × String)) (v : String)
    → all p m ≡ true
    → lookup k m ≡ some v
    → (j : String) × (p (j, v) ≡ true)
unfolding lookup
lookup-All p k [] v h e = cc
lookup-All p k ((j, w) ∷ m) v h e = elim (Bool-cases (j == k)) [
  | inl q ↦ (j, ground arith)
  | inr q ↦ lookup-All p k m v (ground arith) (ground arith)
]

dictionary-stable : all stable dictionary ≡ true
unfolding stable tr dictionary
dictionary-stable = refl

-- A text is left alone, or it is replaced by its entry.
tr-cases : (s : String) → (tr "en" s ≡ s) ⊎ (lookup s dictionary ≡ some (tr "en" s))
unfolding tr
tr-cases s = elim (Bool-cases (s == "")) [
  | inl e ↦ inl (rw e refl)
  | inr e ↦ elim (Option-cases (lookup s dictionary)) [
    | inl n ↦ inl (rw (e, n) refl)
    | inr (v, f) ↦ elim (Bool-cases (v == "")) [
      | inl z ↦ inl (rw (e, f, z) refl)
      | inr z ↦ inr (rw (e, f, z) refl)
    ]
  ]
]

tr-en : (s : String) → tr "en" (tr "en" s) ≡ tr "en" s
unfolding stable
tr-en s = elim (tr-cases s) [
  | inl e ↦ ap (tr "en") e
  | inr e ↦ (eq_iff _ _).0 (lookup-All stable s dictionary (tr "en" s) dictionary-stable e).1
]

tr-other : (lang s : String) → (lang == "en") ≡ false → tr lang s ≡ s
unfolding tr
tr-other lang s e = rw e refl

-- The page heads translate texts that the pages have translated already: a second translation of a
-- text that the dictionary translated, or left alone, changes nothing, in every language.
pub tr_idempotent : (lang s : String) → tr lang (tr lang s) ≡ tr lang s
tr_idempotent lang s = elim (Bool-cases (lang == "en")) [
  | inl e ↦ rw ((eq_iff lang "en").0 e) (tr-en s)
  | inr e ↦ ap (tr lang) (tr-other lang s e)
]
