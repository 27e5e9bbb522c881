-- ===== src/Toast/Laws.antt =====
-- Each toast has its own number and goes away by its own timer.
use apifor_dev.Common.{
  ℕ, ◌+◌, ◌≤◌, ◌<◌, String, ◌≡◌, refl, ap, subst, ◌∙◌, inl, inr, true, not, List, [], ◌∷◌, ◌++◌,
  map, map-append, arith, nat_eq, Bool-cases, filter, any, All,
}
use apifor_dev.Toast.{
  fire, Kind, emit, Item, steps, none_yet, toast, Toasts, Event, without, expire,
}

abbrev pub ids : List Item → List ℕ
ids xs = map (λ t. t.id) xs

-- All numbers of the list are at most a bound and each is smaller than those behind it.
abbrev pub Rising : ℕ → List ℕ → Type 0
Rising lo [] = Unit {0}
Rising lo (n ∷ ns) = (lo < n) × Rising n ns

pub record IsLive (s : Toasts) : Type 0 where
  pub timed : ids s.items ≡ s.timers
  pub rising : Rising 0 (ids s.items)
  pub fresh : All (λ n. n ≤ s.seq) (ids s.items)

Rising-weaken : (m n : ℕ) (ns : List ℕ) → m ≤ n → Rising n ns → Rising m ns
Rising-weaken m n [] h r = tt
Rising-weaken m n (k ∷ ns) h r = (omega arith, r.1)

Rising-without : (id lo : ℕ) (ns : List ℕ) → Rising lo ns → Rising lo (without id ns)
Rising-without id lo [] r = tt
Rising-without id lo (n ∷ ns) r = elim (Bool-cases (not (nat_eq n id))) [
  | inl e ↦ rw e (r.0, Rising-without id n ns r.1)
  | inr e ↦ rw e (Rising-weaken lo n (without id ns) (omega arith) (Rising-without id n ns r.1))
]

Rising-concat :
    (lo n : ℕ) (ns : List ℕ)
    → Rising lo ns
    → All (λ k. k < n) ns
    → lo < n
    → Rising lo (ns ++ n ∷ [])
Rising-concat lo n [] r h k = (k, tt)
Rising-concat lo n (m ∷ ns) r h k = (r.0, Rising-concat m n ns r.1 h.1 h.0)

fresh-lt : (n : ℕ) (ns : List ℕ) → All (λ k. k ≤ n) ns → All (λ k. k < n + 1) ns
fresh-lt n [] h = tt
fresh-lt n (k ∷ ns) h = (omega arith, fresh-lt n ns h.1)

fresh-concat :
    (n : ℕ) (ns : List ℕ) → All (λ k. k ≤ n) ns → All (λ k. k ≤ n + 1) (ns ++ (n + 1) ∷ [])
fresh-concat n [] h = (omega arith, tt)
fresh-concat n (k ∷ ns) h = (omega arith, fresh-concat n ns h.1)

fresh-without : (n id : ℕ) (ns : List ℕ) → All (λ k. k ≤ n) ns → All (λ k. k ≤ n) (without id ns)
fresh-without n id [] h = tt
fresh-without n id (k ∷ ns) h = elim (Bool-cases (not (nat_eq k id))) [
  | inl e ↦ rw e (h.0, fresh-without n id ns h.1)
  | inr e ↦ rw e (fresh-without n id ns h.1)
]

ids-filter :
    (id : ℕ) (xs : List Item) → ids (filter (λ x. not (nat_eq x.id id)) xs) ≡ without id (ids xs)
ids-filter id [] = refl
ids-filter id (x ∷ xs) = elim (Bool-cases (not (nat_eq x.id id))) [
  | inl e ↦ rw e (ap (λ r. x.id ∷ r) (ids-filter id xs))
  | inr e ↦ rw e (ids-filter id xs)
]

toast-IsLive : (msg : String) (kind : Kind) (s : Toasts) → IsLive s → IsLive (toast msg kind s)
unfolding toast
toast-IsLive msg kind s h = record {
  timed = rw (map-append, h.timed) refl;
  rising =
      rw map-append (
        Rising-concat 0 (s.seq + 1) (ids s.items) h.rising (fresh-lt s.seq _ h.fresh)
          (omega arith));
  fresh = rw map-append (fresh-concat s.seq (ids s.items) h.fresh);
}

expire-IsLive : (id : ℕ) (s : Toasts) → IsLive s → IsLive (expire id s)
unfolding expire
expire-IsLive id s h = elim (Bool-cases (any (λ i. nat_eq i id) s.timers)) [
  | inl e ↦ rw e (record {
    timed = ids-filter id s.items ∙ ap (without id) h.timed;
    rising = rw (ids-filter id s.items) (Rising-without id 0 _ h.rising);
    fresh = rw (ids-filter id s.items) (fresh-without s.seq id _ h.fresh);
  })
  | inr e ↦ rw e h
]

steps-IsLive_from : (es : List Event) (s : Toasts) → IsLive s → IsLive (steps es s)
unfolding steps
steps-IsLive_from [] s h = h
steps-IsLive_from (emit msg kind ∷ es) s h = steps-IsLive_from es _ (toast-IsLive msg kind s h)
steps-IsLive_from (fire id ∷ es) s h = steps-IsLive_from es _ (expire-IsLive id s h)

-- After any series of toasts and timers, the toasts on the screen are those whose timers still run,
-- in the order of emission, with rising (so distinct) numbers.
pub steps-IsLive : (es : List Event) → IsLive (steps es none_yet)
unfolding none_yet
steps-IsLive es = steps-IsLive_from es none_yet (record { timed = refl; rising = tt; fresh = tt })

without_self : (lo : ℕ) (ns : List ℕ) (id : ℕ) → id ≤ lo → Rising lo ns → without id ns ≡ ns
without_self lo [] id h r = refl
without_self lo (n ∷ ns) id h r =
    let e : not (nat_eq n id) ≡ true = ground arith in
    rw e (ap (λ k. n ∷ k) (without_self n ns id (omega arith) r.1))

ids-eq-nil : (xs : List Item) → ids xs ≡ [] → xs ≡ []
ids-eq-nil [] h = refl
ids-eq-nil (x ∷ xs) h = cc

expire-head :
    (n : ℕ) (ns : List ℕ) (s : Toasts) → IsLive s → s.timers ≡ n ∷ ns → (expire n s).timers ≡ ns
unfolding expire
expire-head n ns s h e =
    let self : nat_eq n n ≡ true = ground arith in
    let r : Rising 0 (n ∷ ns) = subst (Rising 0) (h.timed ∙ e) h.rising in
    rw (e, self) (without_self n ns n (omega arith) r.1)

fire_all :
    (ns : List ℕ) (s : Toasts) → IsLive s → s.timers ≡ ns → (steps (map fire ns) s).items ≡ []
unfolding steps
fire_all [] s h e = ids-eq-nil s.items (h.timed ∙ e)
fire_all (n ∷ ns) s h e = fire_all ns (expire n s) (expire-IsLive n s h) (expire-head n ns s h e)

-- No toast stays for ever: from every state that a series of toasts and timers leads to, the timers
-- still running, fired in the order in which they were started, clear the screen.
pub steps-clear :
    (es : List Event) → let s = steps es none_yet in (steps (map fire s.timers) s).items ≡ []
steps-clear es = fire_all _ _ (steps-IsLive es) refl
