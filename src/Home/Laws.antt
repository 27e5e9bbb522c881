-- ===== src/Home/Laws.antt =====
-- What the cards of the home page show.
use apifor_dev.Common.{
  length-drop, length-take, ℕ, ◌+◌, ◌-◌, ◌*◌, ◌≤◌, ◌<◌, min, String, ◌==◌, ◌≡◌, refl, ap, ◌∙◌, ◌↔◌,
  ◌⊎◌, inl, inr, true, false, ◌||◌, List, [], ◌∷◌, arith, eq_comm, contains-false, ltb, Bool-cases,
  is_some, length, drop, contains, All, contains-ind, nat_eq_iff,
}
use apifor_dev.Home.Feed.{log_level, admits}
use apifor_dev.Home.Attention.{
  following, previous, forth, back, click, clicks, blocked, Blocked, Click, blocked_slice,
  Intervention, card,
}
use apifor_dev.Home.{Task}

length-blocked_slice :
    (page : ℕ) (xs : List Blocked) → length (blocked_slice page xs) ≡ min 2 (length xs - page * 2)
unfolding blocked_slice
length-blocked_slice page xs =
    let size : (page + 1) * 2 - page * 2 ≡ 2 = omega arith in
    length-take _ (drop (page * 2) xs)
    ∙ ap (λ k. min k (length (drop (page * 2) xs))) size
    ∙ ap (λ k. min 2 k) (length-drop (page * 2) xs)

pager_shown : (page : ℕ) (xs : List Blocked) → is_some (card xs page).pager ≡ ltb 2 (length xs)
unfolding card
pager_shown page xs = elim (Bool-cases (ltb 2 (length xs))) [
  | inl e ↦ rw e refl
  | inr e ↦ rw e refl
]

-- The card of what needs attention says that all is well exactly when the page asked for lies past
-- the end of the list: with something blocked too, if the list has shrunk since the page was chosen.
-- It has buttons to leave that page only where more than two items are left.
pub all_clear-past :
    (xs : List Blocked) (page : ℕ)
    → (((card xs page).all_clear ≡ true) ↔ (length xs ≤ page * 2))
      × (is_some (card xs page).pager ≡ ltb 2 (length xs))
unfolding card blocked_slice
all_clear-past xs page = (
  (
    λ h.
        let e = (nat_eq_iff (length (blocked_slice page xs)) 0).0 h in
        let l = length-blocked_slice page xs in omega arith,
    λ h.
        let l = length-blocked_slice page xs in
        let e : length (blocked_slice page xs) ≡ 0 = omega arith in (nat_eq_iff _ 0).1 e,
  ),
  pager_shown page xs,
)

-- The first page, or a page that starts before the end of the list.
IsWithin : List Blocked → ℕ → Type 0
IsWithin xs p = (p ≡ 0) ⊎ (p * 2 < length xs)

IsWithin-first : (xs : List Blocked) → IsWithin xs 0
unfolding IsWithin
IsWithin-first xs = inl refl

click-IsWithin :
    (xs : List Blocked) (c : Click) (p : ℕ) → IsWithin xs p → IsWithin xs (click xs c p)
unfolding click back forth IsWithin
click-IsWithin xs previous p h = ground arith
click-IsWithin xs following p h = ground arith

clicks-IsWithin :
    (xs : List Blocked) (cs : List Click) (p : ℕ) → IsWithin xs p → IsWithin xs (clicks xs cs p)
unfolding clicks
clicks-IsWithin xs [] p h = h
clicks-IsWithin xs (c ∷ cs) p h = clicks-IsWithin xs cs (click xs c p) (click-IsWithin xs c p h)

within-clear :
    (xs : List Blocked) (p : ℕ) → IsWithin xs p → ((card xs p).all_clear ≡ true) ↔ (length xs ≡ 0)
unfolding IsWithin
within-clear xs p w =
    let (clear_iff, pager) = all_clear-past xs p in
    (
      λ h. let l = clear_iff.0 h in elim w [ inl e ↦ omega arith | inr e ↦ absurd (omega arith) ],
      λ h. clear_iff.1 (omega arith),
    )

-- While the list stays as it is, the buttons, from the first page on, never lead past its end: after
-- any clicks the card says that all is well only where nothing is blocked.
pub clicks-all_clear :
    (iv : List Intervention) (tasks : List Task) (cs : List Click)
    → let xs = blocked iv tasks in ((card xs (clicks xs cs 0)).all_clear ≡ true) ↔ (length xs ≡ 0)
clicks-all_clear iv tasks cs =
    let xs = blocked iv tasks in
    let start : IsWithin xs 0 = IsWithin-first xs in
    within-clear xs (clicks xs cs 0) (clicks-IsWithin xs cs 0 start)

abbrev known : List String
known = "failed" ∷ "changes" ∷ "error" ∷ "warn" ∷ "done" ∷ "passed" ∷ "approved" ∷ "merged" ∷ []

abbrev IsShown : String → Type 0
IsShown s =
    let shown = (log_level s).0 in
    (admits "error" s ≡ (shown == "ERRO"))
    × (admits "warn" s ≡ (shown == "AVISO"))
    × (admits "info" s ≡ (shown == "OK") || (shown == "INFO"))
    × (admits "all" s ≡ true)

known-IsShown : All IsShown known
unfolding admits log_level
known-IsShown = (
  (refl, refl, refl, refl),
  (
    (refl, refl, refl, refl),
    (
      (refl, refl, refl, refl),
      (
        (refl, refl, refl, refl),
        (
          (refl, refl, refl, refl),
          ((refl, refl, refl, refl), ((refl, refl, refl, refl), ((refl, refl, refl, refl), tt))),
        ),
      ),
    ),
  ),
)

unknown-IsShown : (s : String) → contains known s ≡ false → IsShown s
unfolding admits log_level
unknown-IsShown s h =
    let f = contains-false known s h in
    let g = λ (x : String) (e : (s == x) ≡ false). eq_comm x s ∙ e in
    rw
      (
        g "failed" f.0,
        g "changes" f.1.0,
        g "error" f.1.1.0,
        f.1.1.1.0,
        g "warn" f.1.1.1.0,
        g "done" f.1.1.1.1.0,
        g "passed" f.1.1.1.1.1.0,
        g "approved" f.1.1.1.1.1.1.0,
        g "merged" f.1.1.1.1.1.1.1.0,
      )
      (refl, refl, refl, refl)

-- The level that a line shows is the filter that finds the line: "ERRO" under the errors and nowhere
-- else but under all, "AVISO" under the warnings, and "OK" and "INFO" under the informations.
pub admits-level :
    (status : String)
    → let shown = (log_level status).0 in
      (admits "error" status ≡ (shown == "ERRO"))
      × (admits "warn" status ≡ (shown == "AVISO"))
      × (admits "info" status ≡ (shown == "OK") || (shown == "INFO"))
      × (admits "all" status ≡ true)
admits-level s = elim (Bool-cases (contains known s)) [
  | inl e ↦ contains-ind IsShown known known-IsShown s e
  | inr e ↦ unknown-IsShown s e
]
