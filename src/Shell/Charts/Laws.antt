-- ===== src/Shell/Charts/Laws.antt =====
-- The small graph stays inside its drawing, and the state bar draws what it counts.
use apifor_dev.Common.{
  ℕ, ◌+◌, ◌-◌, ◌*◌, ◌≤◌, ◌<◌, String, ◌≡◌, refl, true, not, List, [], ◌∷◌, arith, All-filter,
  nat_eq, length, filter, All,
}
use apifor_dev.Shell.Charts.{top_of, padded, sparkline, state_bar, Point, points_from}
use apifor_dev.Pipeline.{Segment, bar_total}

-- A point inside a drawing of width w and height h, with the margin of the code above and below.
abbrev pub IsInside : ℕ → ℕ → Point → Type 0
IsInside w h p =
    (p.x ≤ w * p.x_den) × (4 * p.y_den ≤ p.y) × (p.y ≤ (h - 2) * p.y_den) × (0 < p.y_den)

height_lem :
    (h v span : ℕ)
    → 6 ≤ h
    → v ≤ span
    → (4 * span ≤ (h - 2) * span - v * (h - 6)) × ((h - 2) * span - v * (h - 6) ≤ (h - 2) * span)
height_lem h v span hh hv =
    let k : ℕ = h - 6 in
    let a : h - 2 ≡ k + 4 = omega arith in
    let b : (h - 2) * span ≡ k * span + 4 * span = rw a (omega arith) in
    let c : v * k ≤ k * span = grind arith in (omega (arith, b, c), omega arith)

points-IsInside :
    (w h n span i : ℕ) (vs : List ℕ)
    → 6 ≤ h
    → i + length vs ≤ n + 1
    → 0 < span
    → All (λ v. v ≤ span) vs
    → All (IsInside w h) (points_from w h n span i vs)
points-IsInside w h n span i [] hh hi hs hv = tt
points-IsInside w h n span i (v ∷ vs) hh hi hs hv =
    let (l, u) = height_lem h v span hh hv.0 in
    let x : i * w ≤ w * n = grind arith in
    ((x, l, u, hs), points-IsInside w h n span (i + 1) vs hh (omega arith) hs hv.1)

All-le : (m n : ℕ) (vs : List ℕ) → m ≤ n → All (λ v. v ≤ m) vs → All (λ v. v ≤ n) vs
All-le m n [] h a = tt
All-le m n (v ∷ vs) h a = (omega (arith, a.0), All-le m n vs h a.1)

pub top_of-le : (vs : List ℕ) → All (λ v. v ≤ top_of vs) vs
top_of-le [] = tt
top_of-le (v ∷ vs) =
    (omega arith, All-le (top_of vs) (top_of (v ∷ vs)) vs (omega arith) (top_of-le vs))

pub one-le-top_of : (vs : List ℕ) → 1 ≤ top_of vs
one-le-top_of [] = omega arith
one-le-top_of (v ∷ vs) = omega (arith, one-le-top_of vs)

two-le-padded : (vs : List ℕ) → 2 ≤ length (padded vs)
two-le-padded [] = omega arith
two-le-padded (v ∷ []) = omega arith
two-le-padded (v ∷ u ∷ vs) = omega arith

-- Whatever the counts are, and also for one sample or none, every point of a graph that is at least 6
-- high lies inside the drawing: from its left edge to its right one, at least 4 below its upper edge and 2 above its
-- lower one, with no division by 0.
pub sparkline-IsInside :
    (w h : ℕ) (vs : List ℕ)
    → 6 ≤ h
    → (1 ≤ length (padded vs) - 1) × All (IsInside w h) (sparkline w h vs)
unfolding sparkline
sparkline-IsInside w h vs hh =
    let d = padded vs in
    let two = two-le-padded vs in
    (
      omega (arith, two),
      points-IsInside w h (length d - 1) (top_of d) 0 d hh (omega (arith, two)) (one-le-top_of d)
          (top_of-le d),
    )

segments_total :
    (cs : List Segment) → bar_total (filter (λ c. not (nat_eq c.n 0)) cs) ≡ bar_total cs
unfolding bar_total
segments_total [] = refl
segments_total (c ∷ cs) = ground (arith, segments_total cs)

-- The segments that are drawn make up the total that the state bar prints, and none of them is empty.
pub state_bar-total :
    (lang title : String) (cs : List Segment)
    → (bar_total (state_bar lang title cs).segments ≡ (state_bar lang title cs).total)
      × All (λ c. not (nat_eq c.n 0) ≡ true) (state_bar lang title cs).segments
unfolding state_bar
state_bar-total lang title cs = (segments_total cs, All-filter (λ c. not (nat_eq c.n 0)) cs)
