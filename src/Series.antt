-- ===== src/Series.antt =====
-- The rolling window behind the small graphs (`useSeries` in app/dashboard/app/ui.tsx).
use apifor_dev.Common.{
  drop-drop, length-drop, length-append, drop-nil, ℕ, zero, suc, ◌+◌, ◌-◌, ◌≤◌, ◌≡◌, refl, sym, ap,
  ◌∙◌, inl, inr, Bool, true, false, Option, none, some, List, [], ◌∷◌, ◌++◌, append_assoc,
  append-nil, arith, nat_eq, if◌then◌else◌, Bool-cases, length, drop, take_last,
}

-- The samples, and the value and window of the last render, on which the effect depends.
pub record Series : Type 0 where
  pub samples : List ℕ
  pub last : Option ℕ

unfoldable pub empty : Series
empty = record { samples = []; last = none }

abbrev pub same : Option ℕ → ℕ → Bool
same none v = false
same (some u) v = nat_eq u v

-- A render with a value: the effect appends it if it differs from the last render's.
unfoldable pub use_series : ℕ → ℕ → Series → Series
use_series n v s =
    if same s.last v
    then s
    else record { samples = take_last n (s.samples ++ v ∷ []); last = some v }

unfoldable pub renders : ℕ → List ℕ → Series → Series
renders n [] s = s
renders n (v ∷ vs) s = renders n vs (use_series n v s)

-- The values that differ from the one before.
abbrev pub changes : Option ℕ → List ℕ → List ℕ
changes l [] = []
changes l (v ∷ vs) = if same l v then changes l vs else v ∷ changes (some v) vs

drop-append-le {ℓ} :
    {A : Type ℓ} (k : ℕ) (xs ys : List A) → k ≤ length xs → drop k (xs ++ ys) ≡ drop k xs ++ ys
drop-append-le zero xs ys h = refl
drop-append-le (suc k) [] ys h = absurd (omega arith)
drop-append-le (suc k) (x ∷ xs) ys h = drop-append-le k xs ys (omega arith)

drop-take_last {ℓ} :
    {A : Type ℓ} (n : ℕ) (xs ys : List A)
    → let last : List A → List A = λ zs. drop (length zs - n) zs in
      last (last xs ++ ys) ≡ last (xs ++ ys)
drop-take_last n xs ys =
    let k : ℕ = length xs - n in
    let room : k ≤ length xs = omega arith in
    let a : ℕ = length (drop k xs ++ ys) - n in
    let e : k + a ≡ length (xs ++ ys) - n =
      omega (arith, length-append (drop k xs) ys, length-append xs ys, length-drop k xs) in
    ap (drop a) (sym (drop-append-le k xs ys room))
    ∙ drop-drop a k (xs ++ ys)
    ∙ ap (λ m. drop m (xs ++ ys)) e

take_last-take_last {ℓ} :
    {A : Type ℓ} (n : ℕ) (xs ys : List A)
    → take_last n (take_last n xs ++ ys) ≡ take_last n (xs ++ ys)
take_last-take_last n xs ys = elim (Bool-cases (nat_eq n 0)) [
  | inl e ↦ rw e refl
  | inr e ↦ rw e (drop-take_last n xs ys)
]

take_last-nil {ℓ} : {A : Type ℓ} (n : ℕ) → take_last {A = A} n [] ≡ []
take_last-nil n = elim (Bool-cases (nat_eq n 0)) [
  | inl e ↦ rw e refl
  | inr e ↦ rw e (drop-nil (0 - n))
]

use_series-same : (n v : ℕ) (s : Series) → same s.last v ≡ true → use_series n v s ≡ s
unfolding use_series
use_series-same n v s e = rw e refl

use_series-new :
    (n v : ℕ) (past : List ℕ) (l : Option ℕ)
    → same l v ≡ false
    → use_series n v (record { samples = take_last n past; last = l })
      ≡ record { samples = take_last n (past ++ v ∷ []); last = some v }
unfolding use_series
use_series-new n v past l e = rw (e, take_last-take_last) refl

renders_from :
    (n : ℕ) (past vs : List ℕ) (l : Option ℕ)
    → (renders n vs (record { samples = take_last n past; last = l })).samples
      ≡ take_last n (past ++ changes l vs)
unfolding renders
renders_from n past [] l = ap (take_last n) (sym (append-nil past))
renders_from n past (v ∷ vs) l =
    let now : Series = record { samples = take_last n past; last = l } in
    elim (Bool-cases (same l v)) [
      | inl e ↦ rw e (
          ap (λ s. (renders n vs s).samples) (use_series-same n v now e) ∙ renders_from n past vs l)
      | inr e ↦ rw e (
          ap (λ s. (renders n vs s).samples) (use_series-new n v past l e)
          ∙ renders_from n (past ++ v ∷ []) vs (some v)
          ∙ ap (take_last n) (append_assoc past (v ∷ []) (changes (some v) vs)))
    ]

-- After any renders the series is the last n values that differ from their predecessors: a value
-- that stays the same adds no sample.
pub renders-changes :
    (n : ℕ) (vs : List ℕ) → (renders n vs empty).samples ≡ take_last n (changes none vs)
unfolding empty
renders-changes n vs =
    let start : take_last {A = ℕ} n [] ≡ [] = take_last-nil n in
    rw start at (renders_from n [] vs none)
