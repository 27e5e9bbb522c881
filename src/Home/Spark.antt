-- ===== src/Home/Spark.antt =====
-- The curves of the home page (`sparkPath` in app/dashboard/app/page.tsx): the points of the samples
-- and the texts of the two paths. `fixed` writes a quotient with one digit after the point.
use apifor_dev.Common.{ℕ, ◌+◌, ◌-◌, ◌*◌, ◌≤◌, ◌<◌, String, ◌≡◌, List, [], ◌∷◌, arith, length, All}
use apifor_dev.Common.Text
use apifor_dev.Shell.Charts.{Point, top_of}
use apifor_dev.Shell.Charts.Laws.{top_of-le, one-le-top_of}

-- `data.length < 2 ? [0, data[0] ?? 0] : data`
abbrev pub padded : List ℕ → List ℕ
padded [] = 0 ∷ 0 ∷ []
padded (v ∷ []) = 0 ∷ v ∷ []
padded (v ∷ u ∷ vs) = v ∷ u ∷ vs

-- The points from the i-th on: `(i / n) * w` and `(h - 4) - (v / span) * (h - 8) + 2`.
abbrev pub spots_from : ℕ → ℕ → ℕ → ℕ → ℕ → List ℕ → List Point
spots_from w h n span i [] = []
spots_from w h n span i (v ∷ vs) =
    record { x = i * w; x_den = n; y = (h - 2) * span - v * (h - 8); y_den = span }
    ∷ spots_from w h n span (i + 1) vs

unfoldable pub spots : ℕ → ℕ → List ℕ → List Point
spots w h data' = let d = padded data' in spots_from w h (length d - 1) (top_of d) 0 d

module _ (fixed : ℕ → ℕ → String) (write : ℕ → String) where
  abbrev pub place : Point → String
  place p = Text.append (fixed p.x p.x_den) (Text.append "," (fixed p.y p.y_den))

  abbrev pub rest_of : List Point → String
  rest_of [] = ""
  rest_of (p ∷ ps) = Text.append " L" (Text.append (place p) (rest_of ps))

  abbrev pub line_of : List Point → String
  line_of [] = ""
  line_of (p ∷ ps) = Text.append "M" (Text.append (place p) (rest_of ps))

  -- The path of the line, and that of the area below it.
  unfoldable pub spark_path : ℕ → ℕ → List ℕ → String × String
  unfolding spots
  spark_path w h data' =
      let line = line_of (spots w h data') in
      (
        line,
        Text.append line (
            Text.append " L" (
              Text.append (write w) (
                Text.append ","
                  (Text.append (write h) (Text.append " L0," (Text.append (write h) " Z")))))),
      )

spot_lem :
    (h v span : ℕ)
    → 8 ≤ h
    → v ≤ span
    → (6 * span ≤ (h - 2) * span - v * (h - 8)) × ((h - 2) * span - v * (h - 8) ≤ (h - 2) * span)
spot_lem h v span hh hv =
    let k : ℕ = h - 8 in
    let a : h - 2 ≡ k + 6 = omega arith in
    let b : (h - 2) * span ≡ k * span + 6 * span = rw a (omega arith) in
    let c : v * k ≤ k * span = grind arith in (omega (arith, b, c), omega arith)

abbrev pub IsSpot : ℕ → ℕ → Point → Type 0
IsSpot w h p = (p.x ≤ w * p.x_den) × (6 * p.y_den ≤ p.y) × (p.y ≤ (h - 2) * p.y_den) × (0 < p.y_den)

spots_from-IsSpot :
    (w h n span i : ℕ) (vs : List ℕ)
    → 8 ≤ h
    → i + length vs ≤ n + 1
    → 0 < span
    → All (λ v. v ≤ span) vs
    → All (IsSpot w h) (spots_from w h n span i vs)
spots_from-IsSpot w h n span i [] hh hi hs hv = tt
spots_from-IsSpot w h n span i (v ∷ vs) hh hi hs hv =
    let (l, u) = spot_lem h v span hh hv.0 in
    let x : i * w ≤ w * n = grind arith in
    ((x, l, u, hs), spots_from-IsSpot w h n span (i + 1) vs hh (omega arith) hs hv.1)

two-le-padded : (vs : List ℕ) → 2 ≤ length (padded vs)
two-le-padded [] = omega arith
two-le-padded (v ∷ []) = omega arith
two-le-padded (v ∷ u ∷ vs) = omega arith

-- For any counts, none and one included, the points of a curve lie inside its drawing, with no
-- division by 0: at least 6 below the upper edge and 2 above the lower one.
pub spots-IsSpot :
    (w h : ℕ) (vs : List ℕ) → 8 ≤ h → (1 ≤ length (padded vs) - 1) × All (IsSpot w h) (spots w h vs)
unfolding spots
spots-IsSpot w h vs hh =
    let d = padded vs in
    let two = two-le-padded vs in
    (
      omega (arith, two),
      spots_from-IsSpot w h (length d - 1) (top_of d) 0 d hh (omega (arith, two)) (one-le-top_of d)
          (top_of-le d),
    )
