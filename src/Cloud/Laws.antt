-- ===== src/Cloud/Laws.antt =====
-- What every sequence of events keeps of the cloud page.
use apifor_dev.Common.{
  All-filtered, ℕ, String, ◌==◌, ◌≡◌, refl, inl, inr, true, ◌&&◌, not, Option, none, some, List, [],
  ◌∷◌, Bool-cases, is_some, All,
}
use apifor_dev.Cloud.{
  create, close_new, open_new, next, prev, timer, edit, del_node, toggle_pause, set_status,
  set_region, created, set_q, Form, del_in, Event, initial, Cloud, Node, new_node, specs_of, step,
  toggle_in, steps,
}
use apifor_dev.Cloud.Totals.{init_nodes, total_vcpu, screen, plus}
use apifor_dev.Cloud.Number.{parse_int}

-- The specification of every instance starts with its number of vCPUs, and a creation waits exactly
-- while the button says so.
pub IsPriced : Node → Type 0
IsPriced n = is_some (parse_int n.specs) ≡ true

pub IsSound : Cloud → Type 0
IsSound s = All IsPriced s.nodes × (is_some s.waiting ≡ s.creating)

specs_of-IsPriced : (type : String) → is_some (parse_int (specs_of type)) ≡ true
unfolding specs_of
specs_of-IsPriced type = elim (Bool-cases (type == "memory")) [
  | inl e ↦ rw e refl
  | inr e ↦ elim (Bool-cases (type == "compute")) [
    | inl f ↦ rw (e, f) refl
    | inr f ↦ rw (e, f) refl
  ]
]

All-map-toggle : (id : String) (ns : List Node) → All IsPriced ns → All IsPriced (toggle_in id ns)
unfolding toggle_in IsPriced
All-map-toggle id [] h = tt
All-map-toggle id (n ∷ ns) h = elim (Bool-cases (n.id == id)) [
  | inl e ↦ rw e (h.0, All-map-toggle id ns h.1)
  | inr e ↦ rw e (h.0, All-map-toggle id ns h.1)
]

plus-known : (a b : Option ℕ) → is_some a ≡ true → is_some b ≡ true → is_some (plus a b) ≡ true
plus-known none b h k = h
plus-known (some m) none h k = k
plus-known (some m) (some n) h k = refl

created-IsSound :
    (id : String) (w : Option Form) (s : Cloud)
    → s.waiting ≡ w
    → IsSound s
    → IsSound (created id w s)
unfolding IsSound IsPriced new_node
created-IsSound id none s e h = h
created-IsSound id (some f) s e h = ((specs_of-IsPriced f.type, h.0), refl)

module _ (lower : String → String) where
  step-IsSound : (e : Event) (s : Cloud) → IsSound s → IsSound (step lower e s)
  unfolding step IsSound del_in
  step-IsSound (set_q v) s h = h
  step-IsSound (set_region v) s h = h
  step-IsSound (set_status v) s h = h
  step-IsSound (toggle_pause id) s h = (All-map-toggle id s.nodes h.0, h.1)
  step-IsSound (del_node id) s h = (All-filtered IsPriced _ s.nodes h.0, h.1)
  step-IsSound (edit f) s h = h
  step-IsSound prev s h = h
  step-IsSound next s h = h
  step-IsSound open_new s h = h
  step-IsSound close_new s h = h
  step-IsSound create s h = elim (Bool-cases (s.new_open && not s.creating)) [
    | inl e ↦ rw e (h.0, refl)
    | inr e ↦ rw e h
  ]
  step-IsSound (timer id) s h = created-IsSound id s.waiting s refl h

  steps-IsSound : (es : List Event) (s : Cloud) → IsSound s → IsSound (steps lower es s)
  unfolding steps
  steps-IsSound [] s h = h
  steps-IsSound (e ∷ es) s h = steps-IsSound es (step lower e s) (step-IsSound e s h)

-- Where every specification starts with a number, the number of vCPUs is one.
total_vcpu-known : (ns : List Node) → All IsPriced ns → is_some (total_vcpu ns) ≡ true
unfolding total_vcpu IsPriced
total_vcpu-known [] h = refl
total_vcpu-known (n ∷ ns) h =
    plus-known (parse_int n.specs) (total_vcpu ns) h.0 (total_vcpu-known ns h.1)

-- Whatever the user does from the page's first state, and whenever the timers of the creations end,
-- the card of the vCPUs shows a number, never "NaN", and a creation waits for its timer exactly while
-- the button "Criar instância" is off.
pub steps-vcpus :
    (lower : String → String) (es : List Event)
    → let s = steps lower es (initial init_nodes) in
      (is_some (screen lower s).vcpus ≡ true) × (is_some s.waiting ≡ s.creating)
unfolding screen initial IsSound IsPriced
steps-vcpus lower es =
    let h =
      steps-IsSound lower es (initial init_nodes)
        ((refl, (refl, (refl, (refl, (refl, (refl, (refl, tt))))))), refl) in
    (total_vcpu-known _ h.0, h.1)
