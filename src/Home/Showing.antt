-- ===== src/Home/Showing.antt =====
-- The counts that the home page shows in several places agree.
use apifor_dev.Common.{
  ℕ, zero, suc, ◌+◌, ◌-◌, ◌≤◌, ◌<◌, min, max, String, ◌≡◌, refl, ap, ◌∙◌, inl, inr, Bool, false,
  Option, List, [], ◌∷◌, arith, ltb, if◌then◌else◌, Bool-cases, if-false, ltb→lt, length, count,
  All, count-cons,
}
use apifor_dev.Home.Screen.{slots_of, Home, Plan, hero, bars_from}
use apifor_dev.Home.Spark.{spots-IsSpot, spots, IsSpot}
use apifor_dev.Home.{Pr, Task, Worker}
use apifor_dev.Home.Cards.{curve_data}

lit_from : (k n i : ℕ) → count (λ b. b) (bars_from k n i) ≡ min (k - i) n
lit_from k zero i = omega arith
lit_from k (suc n) i =
    let ih = lit_from k n (i + 1) in
    let c = count-cons (λ (b : Bool). b) (ltb i k) (bars_from k n (i + 1)) in
    elim (Bool-cases (ltb i k)) [
      | inl e ↦
          let l : i < k = ltb→lt i k e in
          let o : count (λ (b : Bool). b) (bars_from k (suc n) i)
              ≡ 1 + count (λ (b : Bool). b) (bars_from k n (i + 1)) =
            c
            ∙ ap (λ t. (if t then 1 else 0) + count (λ (b : Bool). b) (bars_from k n (i + 1))) e in
          omega (arith, ih, o, l)
      | inr e ↦
          let l : k ≤ i = ground (arith, e) in
          let o : count (λ (b : Bool). b) (bars_from k (suc n) i)
              ≡ 0 + count (λ (b : Bool). b) (bars_from k n (i + 1)) =
            c
            ∙ ap (λ t. (if t then 1 else 0) + count (λ (b : Bool). b) (bars_from k n (i + 1))) e in
          omega (arith, ih, o, l)
    ]

length-bars_from : (k n i : ℕ) → length (bars_from k n i) ≡ n
length-bars_from k zero i = refl
length-bars_from k (suc n) i = ap suc (length-bars_from k n (i + 1))

-- The hero has a small bar for each slot of the plan, eight at least, and lights one for each worker
-- as far as the bars go.
pub hero-bars :
    (upper : String → String) (ws : List Worker) (tasks : List Task) (prs : List Pr) (repos : ℕ)
    (u : Option Plan) (s : Home)
    → let bars = (hero upper ws tasks prs repos u s).bars in
      (length bars ≡ max (slots_of u) 8)
      × (count (λ b. b) bars ≡ min (length ws) (max (slots_of u) 8))
unfolding hero
hero-bars upper ws tasks prs repos u s = (
  length-bars_from (length ws) (max (slots_of u) 8) 0,
  omega (arith, lit_from (length ws) (max (slots_of u) 8) 0),
)

-- The curves of the six numbers lie inside their drawings, and those of the telemetry too, whatever
-- the samples are; a curve without two samples runs from 0 to the number itself.
pub curve_data-IsSpot :
    (series : List ℕ) (v : ℕ)
    → All (IsSpot 120 30) (spots 120 30 (curve_data series v))
      × All (IsSpot 150 30) (spots 150 30 (curve_data series v))
      × (ltb 1 (length series) ≡ false → curve_data series v ≡ 0 ∷ v ∷ [])
curve_data-IsSpot series v = (
  (spots-IsSpot 120 30 (curve_data series v) (omega arith)).1,
  (spots-IsSpot 150 30 (curve_data series v) (omega arith)).1,
  λ e. if-false _ _ e,
)
