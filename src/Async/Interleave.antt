-- ===== src/Async/Interleave.antt =====
-- An invariant that every piece of every handler keeps holds under all interleavings.
use apifor_dev.Async.{
  past, resume, reply, begin, until_call, steps, start, Running, pick, Event, step, Outcome, Script,
  done, set, call,
}
use apifor_dev.Common.{ℕ, zero, suc, Option, none, some, List, [], ◌∷◌, ◌++◌}

module _ {S Q R : Type 0} (P : S → Type 0) where
  -- Every state change of the script keeps P, whatever its calls return.
  abbrev pub Keeps : Script S Q R → Type 0
  Keeps done = Unit {0}
  Keeps (set f k) = ((s : S) → P s → P (f s)) × Keeps k
  Keeps (call q k) = (o : Outcome R) → Keeps (k o)

  abbrev pub KeepsAll : List (Outcome R → Script S Q R) → Type 0
  KeepsAll [] = Unit {0}
  KeepsAll (k ∷ ks) = ((o : Outcome R) → Keeps (k o)) × KeepsAll ks

  KeepsAll-concat :
      (ks : List (Outcome R → Script S Q R)) (k : Outcome R → Script S Q R)
      → KeepsAll ks
      → ((o : Outcome R) → Keeps (k o))
      → KeepsAll (ks ++ k ∷ [])
  KeepsAll-concat [] k h hk = (hk, tt)
  KeepsAll-concat (x ∷ ks) k h hk = (h.0, KeepsAll-concat ks k h.1 hk)

  -- The invariant of a page under way: its state satisfies P, and what waits keeps it.
  pub record IsKept (p : Running S Q R) : Type 0 where
    pub now : P p.state
    pub later : KeepsAll p.waiting

  abbrev pub EventKeeps : Event S Q R → Type 0
  EventKeeps (begin h) = Keeps h
  EventKeeps (reply n o) = Unit {0}

  abbrev pub EventsKeep : List (Event S Q R) → Type 0
  EventsKeep [] = Unit {0}
  EventsKeep (e ∷ es) = EventKeeps e × EventsKeep es

  start-IsKept :
      (h : Script S Q R) (s : S) (ws : List (Outcome R → Script S Q R))
      → Keeps h
      → P s
      → KeepsAll ws
      → IsKept (start h (record { state = s; waiting = ws }))
  unfolding start until_call
  start-IsKept done s ws kh ps kw = record { now = ps; later = kw }
  start-IsKept (set f k) s ws kh ps kw = start-IsKept k (f s) ws kh.1 (kh.0 s ps) kw
  start-IsKept (call q k) s ws kh ps kw = record { now = ps; later = KeepsAll-concat ws k kw kh }

  abbrev PickKeeps : Option ((Outcome R → Script S Q R) × List (Outcome R → Script S Q R)) → Type 0
  PickKeeps none = Unit {0}
  PickKeeps (some (k, rest)) = ((o : Outcome R) → Keeps (k o)) × KeepsAll rest

  past-PickKeeps :
      (x : Outcome R → Script S Q R)
      (w : Option ((Outcome R → Script S Q R) × List (Outcome R → Script S Q R)))
      → ((o : Outcome R) → Keeps (x o))
      → PickKeeps w
      → PickKeeps (past x w)
  past-PickKeeps x none hx h = tt
  past-PickKeeps x (some (k, rest)) hx h = (h.0, (hx, h.1))

  pick-PickKeeps :
      (n : ℕ) (ws : List (Outcome R → Script S Q R)) → KeepsAll ws → PickKeeps (pick n ws)
  unfolding pick
  pick-PickKeeps n [] h = tt
  pick-PickKeeps zero (x ∷ xs) h = h
  pick-PickKeeps (suc n) (x ∷ xs) h = past-PickKeeps x (pick n xs) h.0 (pick-PickKeeps n xs h.1)

  resume-IsKept :
      (o : Outcome R) (p : Running S Q R)
      (w : Option ((Outcome R → Script S Q R) × List (Outcome R → Script S Q R)))
      → IsKept p
      → PickKeeps w
      → IsKept (resume o p w)
  resume-IsKept o p none kp kw = kp
  resume-IsKept o p (some (k, ws)) kp kw = start-IsKept (k o) p.state ws (kw.0 o) kp.now kw.1

  pub step-IsKept :
      (p : Running S Q R) (e : Event S Q R) → EventKeeps e → IsKept p → IsKept (step p e)
  unfolding step
  step-IsKept p (begin h) kh kp = start-IsKept h p.state p.waiting kh kp.now kp.later
  step-IsKept p (reply n o) kh kp =
      resume-IsKept o p (pick n p.waiting) kp (pick-PickKeeps n p.waiting kp.later)

  -- A property of the state that every state change of the handlers keeps holds after any sequence
  -- of handlers begun and calls answered, in whatever order the calls return.
  pub steps-IsKept :
      (p : Running S Q R) (es : List (Event S Q R)) → EventsKeep es → IsKept p → IsKept (steps p es)
  unfolding steps
  steps-IsKept p [] ke kp = kp
  steps-IsKept p (e ∷ es) ke kp = steps-IsKept (step p e) es ke.1 (step-IsKept p e ke.0 kp)
