-- ===== src/Interventions/Answering.antt =====
-- Which tasks the buttons of the intervention page answer.
use apifor_dev.Common.{
  All-filtered, All-drop, All-take, All-append, All-map, All-imp, ℕ, String, eq_refl, ◌≡◌, refl,
  Bool, true, false, Option, none, some, List, [], ◌∷◌, map, arith, All-filter, filter, All,
}
use apifor_dev.Interventions.Screen.{line, screen, Browsing, Line}
use apifor_dev.Interventions.{
  all_items, decision, blocked, has_id, is_stuck, filtered, Intervention, Item, Call, post_answer,
  post_pool,
}
use apifor_dev.Paging.{rows}
use apifor_dev.Pipeline.{Task}

-- Whether a button is one for these interventions: it makes no call, or answers one of them.
abbrev pub answers : List Intervention → Option Call → Bool
answers ints none = true
answers ints (some (post_answer id d)) = has_id ints id
answers ints (some (post_pool p)) = false

-- A row whose buttons are all for these interventions.
abbrev pub IsAnswering : List Intervention → Line → Type 0
IsAnswering ints l = All (λ b. answers ints b.1 ≡ true) l.buttons

has_id_self : (ints : List Intervention) → All (λ i. has_id ints i.task_id ≡ true) ints
has_id_self [] = tt
has_id_self (i ∷ is) =
    (ground (arith, eq_refl i.task_id), All-imp (λ j h. ground arith) is (has_id_self is))

module _ (minutes : String → ℕ) (print : ℕ → String) where
  all_items-IsAnswering :
      (ints : List Intervention) (tasks : List Task)
      → All (λ i. IsAnswering ints (line i)) (all_items minutes print ints tasks)
  unfolding all_items decision blocked line
  all_items-IsAnswering ints tasks =
      All-append (λ i. IsAnswering ints (line i)) (map (decision minutes print) ints)
        (map blocked (filter (is_stuck ints) tasks))
        (All-map (λ i. IsAnswering ints (line i)) (decision minutes print) ints
          (All-imp (λ i h. (h, (h, (refl, tt)))) ints (has_id_self ints)))
        (All-map (λ i. IsAnswering ints (line i)) blocked (filter (is_stuck ints) tasks)
          (All-imp (λ i h. (refl, (refl, (refl, tt)))) (filter (is_stuck ints) tasks)
            (All-filter (is_stuck ints) tasks)))

  -- Whatever is searched and chosen and on every page, a button of a row either makes no call or
  -- answers an intervention of the list: no answer is sent for a task that is only blocked.
  pub screen-IsAnswering :
      (lower : String → String) (ints : List Intervention) (tasks : List Task) (s : Browsing)
      → All (IsAnswering ints) (screen lower (all_items minutes print ints tasks) s).lines
  unfolding screen filtered rows
  screen-IsAnswering lower ints tasks s =
      let P : Item → Type 0 = λ i. IsAnswering ints (line i) in
      let all = all_items minutes print ints tasks in
      let left = filtered lower s.filter s.q all in
      All-map (IsAnswering ints) line (rows 20 s.page left) (
        All-take P 20 _ (
          All-drop P _ left
            (All-filtered P _ _ (All-filtered P _ all (all_items-IsAnswering ints tasks)))))
