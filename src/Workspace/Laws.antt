-- ===== src/Workspace/Laws.antt =====
-- The workspace that the menu shows and the one that the requests name.
use apifor_dev.Common.{
  All-map, ℕ, String, ◌==◌, eq_iff, ◌≡◌, refl, sym, ap, subst, ◌∙◌, inl, inr, Bool, true, false,
  Option, none, some, List, [], ◌∷◌, ◌++◌, if◌then◌else◌, Bool-cases, default, if-true, if-false,
  All,
}
use apifor_dev.Common.Text
use apifor_dev.Workspace.{
  named, name_of, load_role, write, title, Handler, close_modal, close_menu, toggle_menu, found_or,
  head_of, open_modal, switch_wsp, create_wsp, listed, after_create, load_list, Answer, store, find,
  lines, choose, cur, mounted, Menu, Wsp, Call, saved,
}
use apifor_dev.Async.{done, reply, begin, set, Running, thrown, returned, Outcome, text_or}
use apifor_dev.Session.{truthy, get_token, auth_headers, Browser, header_if}
use apifor_dev.Async.Interleave.{step-IsKept, IsKept, EventKeeps, Keeps}
use apifor_dev.Async.{Event, step}

-- What the user and the page do to the menu.
pub data Action : Type 0 where
  load_wsps load_me create new_wsp toggle outside dismiss : Action
  switch type_name : String → Action

-- The handler of each, in the state of the render in which it is started.
unfoldable pub handler : Action → Menu → Handler
handler load_wsps s = load_list
handler load_me s = load_role
handler create s = create_wsp s
handler new_wsp s = set open_modal done
handler toggle s = set toggle_menu done
handler outside s = set close_menu done
handler dismiss s = set close_modal done
handler (switch id) s = set (switch_wsp id) done
handler (type_name v) s = set (λ t. record t { name = v }) done

-- An action begun, or the n-th call under way answered.
pub data Happening : Type 0 where
  act : Action → Happening
  answered : ℕ → Outcome Answer → Happening

abbrev pub event : Happening → Menu → Event Menu Call Answer
event (act a) s = begin (handler a s)
event (answered n o) s = reply n o

unfoldable pub happen : List Happening → Running Menu Call Answer → Running Menu Call Answer
happen [] p = p
happen (h ∷ hs) p = happen hs (step p (event h p.state))

-- A page that has just mounted, in a browser whose storage accepts writes or not.
abbrev pub page : Bool → Browser → Running Menu Call Answer
page w b = record { state = mounted w b; waiting = [] }

-- The identity that the storage keeps: the chosen one, or where nothing can be written the one of
-- the mounting.
abbrev pub kept_id : Bool → Browser → Menu → String
kept_id w b s = if w then s.cur_id else saved b

header_if-blank :
    (w : Option String)
    → header_if "X-Workspace-ID" "" w ≡ header_if "X-Workspace-ID" "" (some (text_or w ""))
unfolding text_or
header_if-blank none = refl
header_if-blank (some w) = elim (Bool-cases (w == "")) [
  | inl e ↦ rw e refl
  | inr e ↦ rw e (rw e refl)
]

header_if-saved :
    (b : Browser)
    → header_if "X-Workspace-ID" "" b.wsp ≡ header_if "X-Workspace-ID" "" (some (saved b))
unfolding saved
header_if-saved b = header_if-blank b.wsp

module _ (w : Bool) (b : Browser) where
  abbrev IsSynced : Menu → Type 0
  IsSynced s = (s.writable ≡ w) × (saved s.browser ≡ kept_id w b s)

  saved-written : (id : String) (c : Browser) → saved (write id true c) ≡ id
  unfolding saved text_or
  saved-written id c = elim (Bool-cases (id == "")) [
    | inl e ↦ rw e (sym ((eq_iff id "").0 e))
    | inr e ↦ rw e refl
  ]

module _ (b : Browser) where
  store-IsSynced : (w : Bool) (id : String) (s : Menu) → IsSynced w b s → IsSynced w b (store id s)
  store-IsSynced true id s (h, k) = (h, rw h (saved-written true b id s.browser))
  store-IsSynced false id s (h, k) = (h, rw h k)

module _ (w : Bool) (b : Browser) where
  choose-IsSynced : (ws : List Wsp) (s : Menu) → IsSynced w b s → IsSynced w b (choose ws s)
  choose-IsSynced [] s h = h
  choose-IsSynced (v ∷ vs) s h = elim (Bool-cases (s.cur_id == "")) [
    | inl e ↦ subst (IsSynced w b) (sym (if-true (store v.id s) s e)) (store-IsSynced b w v.id s h)
    | inr e ↦ subst (IsSynced w b) (sym (if-false (store v.id s) s e)) h
  ]

  listed-Keeps : (o : Outcome Answer) → Keeps (IsSynced w b) (listed o)
  listed-Keeps (returned r) =
      (λ s h. choose-IsSynced (default [] r.body) (record s { wsps = default [] r.body }) h, tt)
  listed-Keeps (thrown e) = tt

  named-Keeps : (o : Outcome Answer) → Keeps (IsSynced w b) (named o)
  named-Keeps (returned r) = (λ s h. h, tt)
  named-Keeps (thrown e) = tt

  created-Keeps : (o : Outcome Answer) → Keeps (IsSynced w b) (after_create o)
  created-Keeps (returned r) = elim (Bool-cases (truthy r.id)) [
    | inl e ↦
        subst (Keeps (IsSynced w b)) (sym (if-true _ _ e))
          (λ s h. store-IsSynced b w (default "" r.id) s h, (λ s h. h, tt))
    | inr e ↦ subst (Keeps (IsSynced w b)) (sym (if-false _ _ e)) (λ s h. h, (λ s h. h, tt))
  ]
  created-Keeps (thrown e) = (λ s h. h, (λ s h. h, tt))

  handler-Keeps : (a : Action) (s : Menu) → Keeps (IsSynced w b) (handler a s)
  unfolding handler load_list load_role create_wsp open_modal toggle_menu close_menu close_modal
      switch_wsp
  handler-Keeps load_wsps s = listed-Keeps
  handler-Keeps load_me s = named-Keeps
  handler-Keeps create s = elim (Bool-cases (Text.trim s.name == "")) [
    | inl e ↦ subst (Keeps (IsSynced w b)) (sym (if-true _ _ e)) tt
    | inr e ↦ subst (Keeps (IsSynced w b)) (sym (if-false _ _ e)) (λ t h. h, created-Keeps)
  ]
  handler-Keeps new_wsp s = (λ t h. h, tt)
  handler-Keeps toggle s = (λ t h. h, tt)
  handler-Keeps outside s = (λ t h. h, tt)
  handler-Keeps dismiss s = (λ t h. h, tt)
  handler-Keeps (switch id) s = (λ t h. store-IsSynced b w id t h, tt)
  handler-Keeps (type_name v) s = (λ t h. h, tt)

  event-Keeps : (h : Happening) (s : Menu) → EventKeeps (IsSynced w b) (event h s)
  event-Keeps (act a) s = handler-Keeps a s
  event-Keeps (answered n o) s = tt

  happen-IsKept :
      (hs : List Happening) (p : Running Menu Call Answer)
      → IsKept (IsSynced w b) p
      → IsKept (IsSynced w b) (happen hs p)
  unfolding happen
  happen-IsKept [] p k = k
  happen-IsKept (h ∷ hs) p k =
      happen-IsKept hs (step p (event h p.state))
        (step-IsKept (IsSynced w b) p (event h p.state) (event-Keeps h p.state) k)

mounted-saved : (w : Bool) (b : Browser) → IsSynced w b (mounted w b)
unfolding mounted
mounted-saved true b = (refl, refl)
mounted-saved false b = (refl, refl)

page-IsKept : (w : Bool) (b : Browser) → IsKept (IsSynced w b) (page w b)
page-IsKept w b = record { now = mounted-saved w b; later = tt }

-- Whatever is done to the menu of a page that has mounted, whatever the server answers and in
-- whatever order its answers come, the next request names in its headers the workspace that the menu
-- has chosen, and none if none is chosen, as long as the storage accepts writes. Where it refuses
-- them, the requests go on to name the workspace that was stored when the page mounted, whatever the
-- menu has chosen since.
pub happen-header :
    (hs : List Happening) (w : Bool) (b : Browser)
    → let s = (happen hs (page w b)).state in
      auth_headers s.browser
      ≡ header_if "Authorization" "Bearer " s.browser.token
        ++ header_if "X-Workspace-ID" "" (some (kept_id w b s))
unfolding auth_headers get_token
happen-header hs w b =
    let p = happen hs (page w b) in
    let k = happen-IsKept w b hs (page w b) (page-IsKept w b) in
    ap (λ l. header_if "Authorization" "Bearer " p.state.browser.token ++ l)
      (header_if-saved p.state.browser ∙ ap (λ i. header_if "X-Workspace-ID" "" (some i)) k.now.1)

find-all_false :
    (id : String) (ws : List Wsp) → All (λ v. (v.id == id) ≡ false) ws → find id ws ≡ none
find-all_false id [] h = refl
find-all_false id (v ∷ vs) h = if-false _ _ h.0 ∙ find-all_false id vs h.1

title-first :
    (s : Menu) (v : Wsp) (vs : List Wsp)
    → s.wsps ≡ v ∷ vs
    → find s.cur_id s.wsps ≡ none
    → title s ≡ (if v.name == "" then "Principal" else v.name)
unfolding title cur
title-first s v vs l n = ap (λ o. name_of (found_or o s.wsps)) n ∙ ap (λ ws. name_of (head_of ws)) l

-- If the menu has loaded its workspaces and the chosen one is none of them, as after it was deleted,
-- the button shows the name of the first one, or "Principal" if that is empty, no line of the menu is
-- ticked, and the requests still name the chosen one, which is gone, if the storage accepts writes.
pub title-gone :
    (hs : List Happening) (b : Browser) (v : Wsp) (vs : List Wsp)
    → (happen hs (page true b)).state.wsps ≡ v ∷ vs
    → All
        (λ u. (u.id == (happen hs (page true b)).state.cur_id) ≡ false)
        (happen hs (page true b)).state.wsps
    → let s = (happen hs (page true b)).state in
      (title s ≡ (if v.name == "" then "Principal" else v.name))
      × All (λ l. l.1 ≡ false) (lines s)
      × (auth_headers s.browser
          ≡ header_if "Authorization" "Bearer " s.browser.token
            ++ header_if "X-Workspace-ID" "" (some s.cur_id))
unfolding lines
title-gone hs b v vs l g =
    let s = (happen hs (page true b)).state in
    (
      title-first s v vs l (find-all_false s.cur_id s.wsps g),
      All-map (λ x. x.1 ≡ false) (λ (u : Wsp). (u.name, u.id == s.cur_id)) s.wsps g,
      happen-header hs true b,
    )
