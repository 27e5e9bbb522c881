-- ===== src/Pinned/Turning.antt =====
-- The buttons over the list of the pinned workers.
use apifor_dev.Common.{
  lt→ltb, suc, ◌<◌, ◌≡◌, refl, ap, ◌∙◌, Bool, true, false, not, some, List, [], ◌∷◌, map, arith,
  ltb, if◌then◌else◌, if-true, length,
}
use apifor_dev.Pinned.{Pinned, open_pw_create, PinnedW}
use apifor_dev.Pinned.Screen.{can_add, all_on, all_button, press_add}

-- What the server's list becomes when all workers are turned on or off.
abbrev pub turned_all : Bool → List PinnedW → List PinnedW
turned_all b ws = map (λ (p : PinnedW). record p { enabled = some b }) ws

all_on-turned_all : (b : Bool) (ws : List PinnedW) → 0 < length ws → all_on (turned_all b ws) ≡ b
all_on-turned_all b [] h = absurd (omega arith)
all_on-turned_all true (p ∷ []) h = refl
all_on-turned_all false (p ∷ ws) h = refl
all_on-turned_all true (p ∷ q ∷ ws) h = all_on-turned_all true (q ∷ ws) (omega arith)

length-turned_all : (b : Bool) (ws : List PinnedW) → length (turned_all b ws) ≡ length ws
length-turned_all b [] = refl
length-turned_all b (p ∷ ws) = ap suc (length-turned_all b ws)

-- The button over the list turns back what it did: once the server has turned all workers to what the
-- press asked for, the button offers the opposite; and the press asked for off exactly if every
-- worker was on.
pub all_button-turned_all :
    (ws : List PinnedW)
    → 0 < length ws
    → let b = not (all_on ws) in
      all_button (turned_all b ws) ≡ some (if b then "Desligar todos" else "Ligar todos", not b)
unfolding all_button
all_button-turned_all ws h =
    let b = not (all_on ws) in
    let z : ltb 0 (length (turned_all b ws)) ≡ true =
      lt→ltb 0 (length (turned_all b ws)) (omega (arith, h, length-turned_all b ws)) in
    if-true _ _ z
    ∙ ap (λ t. some (if t then "Desligar todos" else "Ligar todos", not t))
        (all_on-turned_all b ws h)

-- However often the button that adds is pressed, the dialog of a new worker opens only below the
-- limit.
pub press_add-can_add :
    (ws : List PinnedW) (s : Pinned) → s.open? ≡ false → (press_add ws s).open? ≡ ltb (length ws) 8
unfolding press_add can_add open_pw_create
press_add-can_add ws s h = ground arith
