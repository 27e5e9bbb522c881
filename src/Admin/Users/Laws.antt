-- ===== src/Admin/Users/Laws.antt =====
-- What the actions on the users come to.
use apifor_dev.Common.{
  length-filter-le, ◌+◌, ◌≤◌, String, ◌==◌, ◌≡◌, refl, ap, ◌∙◌, ◌⊎◌, inl, inr, Bool, true, false,
  ◌||◌, not, List, [], ◌∷◌, arith, if◌then◌else◌, Bool-cases, default, length, filter, count, All,
}
use apifor_dev.Async.{returned, run, thrown, Outcome}
use apifor_dev.Admin.{post, get, Call}
use apifor_dev.Admin.Users.{
  toggle_url, is_self, User, found_by, row, toggle, suspended, click, Users, active, Answer,
  filtered,
}

-- The page after the calls of an action: an action that failed leaves the list as it was, and so does
-- a list that could not be read; in every case no user stays busy.
abbrev pub settled : Outcome Answer → Outcome Answer → Users → Users
settled (thrown e) b s = record s { busy = "" }
settled (returned a) (thrown e) s = record s { loading = false; busy = "" }
settled (returned a) (returned body) s = record s {
  users = default [] body;
  loading = false;
  busy = "";
}

abbrev pub tried : Outcome Answer → List Call
tried (thrown e) = []
tried (returned a) = get "/v1/admin/users" ∷ []

module _ (lower : String → String) (env : Call → Outcome Answer) where
  run-toggle :
      (a b : Outcome Answer) (u : User) (s : Users)
      → env (post (toggle_url u) []) ≡ a
      → env (get "/v1/admin/users") ≡ b
      → run env (toggle u) s ≡ (settled a b s, post (toggle_url u) [] ∷ tried a)
  unfolding run toggle
  run-toggle (thrown e) b u s h k = rw h refl
  run-toggle (returned a) (thrown e) u s h k = rw (h, k) refl
  run-toggle (returned a) (returned body) u s h k = rw (h, k) refl

  -- A click on the button of a user does nothing for one's own account, whatever the letters' case,
  -- nor while that user's action is under way. Otherwise it asks for the action opposite to the status
  -- shown, reads the list again if that succeeds, and ends with no user busy; the list changes only
  -- where both calls succeed.
  pub run-click :
      (mine : String) (u : User) (s : Users)
      → run env (click lower mine u s) s ≡ (
          if is_self lower mine u || (s.busy == u.id) then (s, []) else (
            settled (env (post (toggle_url u) [])) (env (get "/v1/admin/users")) s,
            post (toggle_url u) [] ∷ tried (env (post (toggle_url u) [])),
          ))
  unfolding click row run
  run-click mine u s = elim (Bool-cases (is_self lower mine u || (s.busy == u.id))) [
    | inl e ↦ rw (e) refl
    | inr e ↦ rw (e) (run-toggle _ _ u s refl refl)
  ]

filter_of_all {ℓ} :
    {A : Type ℓ} (p : A → Bool) → ((x : A) → p x ≡ true) → (xs : List A) → filter p xs ≡ xs
filter_of_all p h [] = refl
filter_of_all p h (x ∷ xs) = rw (h x) (ap (λ r. x ∷ r) (filter_of_all p h xs))

found_by-blank :
    (lower : String → String) (q : String) (u : User) → q ≡ "" → found_by lower q u ≡ true
unfolding found_by
found_by-blank lower q u h = rw h refl

abbrev pub IsKnown : User → Type 0
IsKnown u = (u.status ≡ "active") ⊎ (u.status ≡ "suspended")

one_status : (u : User) → IsKnown u → (u.status == "suspended") ≡ not (u.status == "active")
one_status u (inl h) = rw h refl
one_status u (inr h) = rw h refl

count-others :
    (us : List User)
    → All IsKnown us
    → count (λ u. u.status == "active") us + count (λ u. u.status == "suspended") us ≡ length us
count-others [] k = refl
count-others (u ∷ us) k = let o = one_status u k.0 in let ih = count-others us k.1 in ground arith

-- The three numbers of the subtitle: the active and the others make up the total; and where every
-- user is active or suspended, each is the number of rows that its filter shows without a search.
pub counts-filtered :
    (lower : String → String) (s : Users)
    → s.q ≡ ""
    → All IsKnown s.users
    → (active s.users + suspended s.users ≡ length s.users)
      × (length (filtered lower (record s { status_filter = "active" })) ≡ active s.users)
      × (length (filtered lower (record s { status_filter = "suspended" })) ≡ suspended s.users)
unfolding filtered active suspended found_by
counts-filtered lower s h k =
    let all_found = filter_of_all (found_by lower s.q) (λ u. found_by-blank lower s.q u h) in
    let act = filter (λ (u : User). u.status == "active") s.users in
    let sus = filter (λ (u : User). u.status == "suspended") s.users in
    let le : length act ≤ length s.users = length-filter-le _ s.users in
    let sum : length act + length sus ≡ length s.users = count-others s.users k in
    (omega arith, ap length (all_found act), ap length (all_found sus) ∙ omega arith)
