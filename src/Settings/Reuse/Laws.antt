-- ===== src/Settings/Reuse/Laws.antt =====
-- The reuse of connections: which account a button names, and what a press of it does.
use apifor_dev.Common.{
  ◌+◌, String, ◌==◌, eq_iff, ◌≡◌, refl, sym, ap, subst, ◌∙◌, inl, inr, Bool, true, false, ◌&&◌,
  Option, none, some, List, [], ◌∷◌, arith, if◌then◌else◌, Bool-cases, Option-cases, default,
  is_some, any,
}
use apifor_dev.Async.{text_or, returned, thrown, Outcome, run}
use apifor_dev.Settings.Reuse.{
  with_id, button_of, say, denied, Reusing, Verdict, is_text, Request, after_reuse, provider_family,
  find_conn, label_of, reuse_conn, family_identity, reuse_btn, Conn,
}
use apifor_dev.Settings.Reuse.Cards.{is_active, card}

find_conn-any :
    (q r : Conn → Bool) (conns : List Conn) (c : Conn)
    → find_conn q conns ≡ some c
    → r c ≡ true
    → any (λ d. q d && r d) conns ≡ true
find_conn-any q r [] c e h = cc
find_conn-any q r (d ∷ ds) c e h = elim (Bool-cases (q d)) [
  | inl y ↦
      let w : d ≡ c = ground (arith, y, e) in
      let z : r d ≡ true = subst (λ x. r x ≡ true) (sym w) h in ground (arith, y, z)
  | inr n ↦
      let f : find_conn q ds ≡ some c = ground (arith, n, e) in
      ground (arith, n, find_conn-any q r ds c f h)
]

named :
    (q : Conn → Bool) (conns : List Conn) (id : String) (c : Conn)
    → find_conn q conns ≡ some c
    → label_of (some c) ≡ some id
    → (any (λ d. q d && (default "" d.label == id)) conns ≡ true) × ((id == "") ≡ false)
named q conns id c f e =
    let l : (default "" c.label == "") ≡ false = ground arith in
    let m : c.label ≡ some id = ground arith in
    let n : default "" c.label ≡ id = ap (default "") m in
    let r : (default "" c.label == id) ≡ true = (eq_iff (default "" c.label) id).1 n in
    (
      find_conn-any q (λ d. default "" d.label == id) conns c f r,
      subst (λ t. (t == "") ≡ false) n l,
    )

label_of-some :
    (q : Conn → Bool) (conns : List Conn) (id : String)
    → label_of (find_conn q conns) ≡ some id
    → (any (λ c. q c && (default "" c.label == id)) conns ≡ true) × ((id == "") ≡ false)
label_of-some q conns id e = elim (Option-cases (find_conn q conns)) [
  | inl n ↦ cc
  | inr (c, f) ↦ named q conns id c f (ap label_of (sym f) ∙ e)
]

with_id-some :
    (f : String) (o : Option String) (fam id : String)
    → with_id f o ≡ some (fam, id)
    → (f ≡ fam) × (o ≡ some id)
with_id-some f none fam id e = cc
with_id-some f (some j) fam id e =
    let g : Option (String × String) → String × String = default ("", "") in
    (ap (λ t. (g t).0) e, ap (λ t. some (g t).1) e)

button_of-some :
    (conns : List Conn) (o : Option String) (fam id : String)
    → button_of conns o ≡ some (fam, id)
    → (o ≡ some fam) × (family_identity conns fam ≡ some id)
button_of-some conns none fam id e = cc
button_of-some conns (some f) fam id e =
    let (p, q) = with_id-some f (family_identity conns f) fam id e in
    (ap (λ t. some t) p, subst (λ t. family_identity conns t ≡ some id) p q)

-- A button for the reuse names an account that is not blank, of a connection that the page lists,
-- whose provider is of the same family as the one that the button is for.
pub reuse_btn-some :
    (conns : List Conn) (provider fam id : String)
    → reuse_btn conns provider ≡ some (fam, id)
    → (provider_family provider ≡ some fam)
      × (any (λ c. is_text (provider_family c.provider) fam && (default "" c.label == id)) conns
          ≡ true)
      × ((id == "") ≡ false)
unfolding reuse_btn family_identity
reuse_btn-some conns provider fam id e =
    let (f, i) = button_of-some conns (provider_family provider) fam id e in
    let (a, b) = label_of-some (λ c. is_text (provider_family c.provider) fam) conns id i in
    (f, a, b)

-- What an answer to the reuse leaves.
abbrev pub reused : Outcome Verdict → Reusing → Reusing
reused (thrown e) s = s
reused (returned r) s =
    if denied r
    then say (text_or r.message "não foi possível reaproveitar") s
    else record s { toasts = "conexão reaproveitada" ∷ s.toasts; reloads = s.reloads + 1 }

run-after_reuse :
    (env : Request → Outcome Verdict) (o : Outcome Verdict) (s : Reusing)
    → run env (after_reuse o) s ≡ (reused o s, [])
unfolding run after_reuse
run-after_reuse env (thrown e) s = refl
run-after_reuse env (returned r) s = elim (Bool-cases (denied r)) [
  | inl e ↦ rw e refl
  | inr e ↦ rw e refl
]

-- A press asks once for the reuse. Only an answer that says no keeps the list of connections as it
-- is and reports the message of the server; any other answer has the list loaded again, and a call
-- that is rejected leaves no trace.
pub run-reuse_conn :
    (env : Request → Outcome Verdict) (family target : String) (s : Reusing)
    → let q : Request = record { family = family; target = target } in
      run env (reuse_conn family target) s ≡ (reused (env q) s, q ∷ [])
unfolding run reuse_conn
run-reuse_conn env family target s =
    let q : Request = record { family = family; target = target } in
    ap (λ t. (t.0, q ∷ t.1)) (run-after_reuse env (env q) s)

is_active-any : (q : Conn → Bool) (conns : List Conn) → is_some (find_conn q conns) ≡ any q conns
is_active-any q [] = refl
is_active-any q (c ∷ cs) = ground (arith, is_active-any q cs)

-- The card of a provider says that it is connected exactly if the list has a connection of the tab's
-- type with that provider; a connected one offers no reuse, and one that is not offers the button
-- for its family, if any.
pub card-active :
    (conns : List Conn) (kind : String) (p : String × String)
    → ((card conns kind p).active ≡ any (λ c. (c.kind == kind) && (c.provider == p.0)) conns)
      × ((card conns kind p).reuse ≡ (
          if any (λ c. (c.kind == kind) && (c.provider == p.0)) conns
          then none
          else reuse_btn conns p.0))
unfolding card is_active
card-active conns kind p =
    let e = is_active-any (λ c. (c.kind == kind) && (c.provider == p.0)) conns in
    (e, ap (λ b. if b then none else reuse_btn conns p.0) e)
