-- ===== src/Shell/Charts.antt =====
-- What the pages share for drawing (app/dashboard/app/ui.tsx): the colours of a status (`TONE` and
-- `badge`), the state bar, and the points of the small graph (`Sparkline`).
pub mod Laws
use apifor_dev.Lang.{tr}
use apifor_dev.Common.{
  ℕ, ◌+◌, ◌-◌, ◌*◌, max, String, ◌==◌, not, List, [], ◌∷◌, map, nat_eq, if◌then◌else◌, length,
  filter,
}
use apifor_dev.Pipeline.{bar_total, Segment}

abbrev pub tones : List (String × (String × String))
tones =
    ("merged", ("--green", "--green-tint"))
    ∷ ("open", ("--green", "--green-tint"))
    ∷ ("in_review", ("--accent", "--accent-tint"))
    ∷ ("running", ("--blue", "--blue-tint"))
    ∷ ("planning", ("--blue", "--blue-tint"))
    ∷ ("queued", ("--orange", "--orange-tint"))
    ∷ ("assigned", ("--orange", "--orange-tint"))
    ∷ ("idle", ("--dim", "--border"))
    ∷ ("failed", ("--red", "--red-tint"))
    ∷ ("blocked", ("--red", "--red-tint"))
    ∷ []

abbrev pub tone_in : String → List (String × (String × String)) → String × String
tone_in s [] = ("--dim", "--border")
tone_in s ((k, c) ∷ m) = if k == s then c else tone_in s m

-- The text's and the background's colour of a status.
unfoldable pub badge : String → String × String
badge s = tone_in s tones

-- The state bar: the title, the total with its words, a segment for each count but 0, and the legend.
pub record StateBar : Type 0 where
  pub title : String
  pub total : ℕ
  pub words : String
  pub segments : List Segment
  pub legend : List (String × ℕ)

unfoldable pub state_bar : String → String → List Segment → StateBar
unfolding tr bar_total
state_bar lang title counts = record {
  title = tr lang title;
  total = bar_total counts;
  words = if lang == "en" then "in pipeline" else "no pipeline";
  segments = filter (λ c. not (nat_eq c.n 0)) counts;
  legend = map (λ c. (tr lang c.label, c.n)) counts;
}

-- A point of the graph: both coordinates are quotients, the first by the steps, the second by the
-- span of the values.
pub record Point : Type 0 where
  pub x : ℕ
  pub x_den : ℕ
  pub y : ℕ
  pub y_den : ℕ

-- `Math.max(...d, 1)`: the values are counts, so that the least of them and 0 is 0.
abbrev pub top_of : List ℕ → ℕ
top_of [] = 1
top_of (v ∷ vs) = max v (top_of vs)

-- `data.length < 2 ? [data[0] || 0, data[0] || 0] : data`
abbrev pub padded : List ℕ → List ℕ
padded [] = 0 ∷ 0 ∷ []
padded (v ∷ []) = v ∷ v ∷ []
padded (v ∷ u ∷ vs) = v ∷ u ∷ vs

-- The points from the i-th on: `(i / n) * w` and `(h - 3) - (v / span) * (h - 6) + 1`.
abbrev pub points_from : ℕ → ℕ → ℕ → ℕ → ℕ → List ℕ → List Point
points_from w h n span i [] = []
points_from w h n span i (v ∷ vs) =
    record { x = i * w; x_den = n; y = (h - 2) * span - v * (h - 6); y_den = span }
    ∷ points_from w h n span (i + 1) vs

unfoldable pub sparkline : ℕ → ℕ → List ℕ → List Point
sparkline w h data' = let d = padded data' in points_from w h (length d - 1) (top_of d) 0 d
