-- ===== src/Palette/Laws.antt =====
-- The selected line of the palette and where a choice leads.
use apifor_dev.Common.{
  ℕ, zero, suc, ◌+◌, ◌-◌, ◌≤◌, ◌<◌, String, ◌≡◌, refl, sym, ap, subst, ◌∙◌, inl, inr, true, false,
  Option, none, some, List, [], ◌∷◌, arith, ltb, nat_eq, if◌then◌else◌, Bool-cases, if-true,
  if-false, length, filter, All,
}
use apifor_dev.Common.Text
use apifor_dev.Palette.{
  up, down, backdrop, escape, enter, click, hover, type_text, show, selected, toggle, leave,
  matches, Event, closed, Palette, at, on_closed, step, on_open, steps, Entry,
}

module _ (lower : String → String) (items : List Entry) where
  -- In an open palette the cursor is on a line whenever lines are listed.
  abbrev pub InRange : Palette → Type 0
  InRange p =
      p.open? ≡ true
      → 0 < length (matches lower items p.q)
      → (1 ≤ p.cursor) × (p.cursor ≤ length (matches lower items p.q))

  leave-open : (o : Option Entry) (p : Palette) → InRange p → InRange (leave o p).0
  leave-open none p h = h
  leave-open (some e) p h = λ c. cc

  on_open-InRange : (e : Event) (p : Palette) → InRange p → InRange (on_open lower items e p).0
  unfolding on_open
  on_open-InRange toggle p h = λ c. cc
  on_open-InRange escape p h = λ c. cc
  on_open-InRange show p h = h
  on_open-InRange backdrop p h = λ c. cc
  on_open-InRange down p h = λ c m. ground (arith, h c m)
  on_open-InRange up p h = λ c m. ground (arith, h c m)
  on_open-InRange enter p h = leave-open (selected p.cursor (matches lower items p.q)) p h
  on_open-InRange (type_text v) p h = λ c m. (omega arith, m)
  on_open-InRange (hover n) p h = elim (Bool-cases (ltb n (length (matches lower items p.q)))) [
    | inl e ↦ rw e (λ c m. (omega arith, ground arith))
    | inr e ↦ rw e h
  ]
  on_open-InRange (click n) p h = leave-open (at n (matches lower items p.q)) p h

  on_closed-InRange :
      (e : Event) (p : Palette) → p.open? ≡ false → InRange (on_closed lower items e p)
  unfolding on_closed
  on_closed-InRange toggle p h = λ c m. (omega arith, m)
  on_closed-InRange show p h = λ c m. (omega arith, m)
  on_closed-InRange _ p h = λ c. cc

  step-InRange : (e : Event) (p : Palette) → InRange p → InRange (step lower items e p).0
  unfolding step
  step-InRange e p h = elim (Bool-cases p.open?) [
    | inl o ↦
        subst (λ (r : Palette × Option String). InRange r.0)
          (sym (if-true (on_open lower items e p) _ o)) (on_open-InRange e p h)
    | inr o ↦
        subst (λ (r : Palette × Option String). InRange r.0)
          (sym (if-false _ (on_closed lower items e p, none) o)) (on_closed-InRange e p o)
  ]

  steps_from : (es : List Event) (p : Palette) → InRange p → InRange (steps lower items es p)
  unfolding steps
  steps_from [] p h = h
  steps_from (e ∷ es) p h = steps_from es (step lower items e p).0 (step-InRange e p h)

  step-on_open :
      (e : Event) (p : Palette) → p.open? ≡ true → step lower items e p ≡ on_open lower items e p
  unfolding step
  step-on_open e p o = if-true _ _ o

  -- What the keys make of an open palette whose cursor is on a line.
  keys :
      (v : String) (p : Palette)
      → p.open? ≡ true
      → let n = length (matches lower items p.q) in
        (1 ≤ p.cursor) × (p.cursor ≤ n)
        → ((step lower items down p).0.cursor ≡ (if nat_eq p.cursor n then n else p.cursor + 1))
          × ((step lower items up p).0.cursor ≡ (if nat_eq p.cursor 1 then 1 else p.cursor - 1))
          × ((step lower items (type_text v) p).0.q ≡ v)
          × ((step lower items (type_text v) p).0.cursor ≡ 1)
  unfolding on_open
  keys v p o (l, u) =
      rw (step-on_open down p o, step-on_open up p o, step-on_open (type_text v) p o)
        (ground (arith, l, u), ground (arith, l, u), refl, refl)

  -- From a closed palette, whatever keys, texts and clicks follow, an open palette that lists
  -- anything has one of its lines selected. From there the arrows go one line down or up and stop at
  -- the last and at the first line, and a new text leads back to the first line.
  pub steps_selected :
      (es : List Event) (v : String)
      → (steps lower items es closed).open? ≡ true
      → 0 < length (matches lower items (steps lower items es closed).q)
      → let p = steps lower items es closed in
        let n = length (matches lower items p.q) in
        (1 ≤ p.cursor)
        × (p.cursor ≤ n)
        × ((step lower items down p).0.cursor ≡ (if nat_eq p.cursor n then n else p.cursor + 1))
        × ((step lower items up p).0.cursor ≡ (if nat_eq p.cursor 1 then 1 else p.cursor - 1))
        × ((step lower items (type_text v) p).0.q ≡ v)
        × ((step lower items (type_text v) p).0.cursor ≡ 1)
  unfolding closed
  steps_selected es v o m =
      let r = steps_from es closed (λ c. cc) o m in
      let (d, u, q, c) = keys v (steps lower items es closed) o r in (r.0, r.1, d, u, q, c)

  -- Where a choice leads to, if anywhere.
  abbrev Leads : Palette → Palette × Option String → Type 0
  Leads p r =
      (href : String)
      → r.1 ≡ some href
      → (r.0.open? ≡ false)
        × ((i : Entry) × (i.href ≡ href) × (Text.includes (lower i.label) (lower p.q) ≡ true))

  matches-All :
      (q : String) (xs : List Entry)
      → All
          (λ i. Text.includes (lower i.label) (lower q) ≡ true)
          (filter (λ i. Text.includes (lower i.label) (lower q)) xs)
  matches-All q [] = tt
  matches-All q (x ∷ xs) = elim (Bool-cases (Text.includes (lower x.label) (lower q))) [
    | inl e ↦ rw e (e, matches-All q xs)
    | inr e ↦ rw e (matches-All q xs)
  ]

  at-All :
      (P : Entry → Type 0) (n : ℕ) (xs : List Entry) (e : Entry) → at n xs ≡ some e → All P xs → P e
  at-All P n [] e h a = cc
  at-All P zero (x ∷ xs) e h a = subst P (cc) a.0
  at-All P (suc n) (x ∷ xs) e h a = at-All P n xs e h a.1

  leave-Leads :
      (o : Option Entry) (p : Palette)
      → ((e : Entry) → o ≡ some e → Text.includes (lower e.label) (lower p.q) ≡ true)
      → Leads p (leave o p)
  leave-Leads none p m href h = cc
  leave-Leads (some e) p m href h = (refl, (e, cc, m e refl))

  at-Leads : (n : ℕ) (p : Palette) → Leads p (leave (at n (matches lower items p.q)) p)
  unfolding matches
  at-Leads n p = leave-Leads _ p (λ e f.
      at-All (λ i. Text.includes (lower i.label) (lower p.q) ≡ true) n (matches lower items p.q) e f
        (matches-All p.q items))

  selected-Leads : (n : ℕ) (p : Palette) → Leads p (leave (selected n (matches lower items p.q)) p)
  selected-Leads zero p = λ href h. cc
  selected-Leads (suc n) p = at-Leads n p

  on_open-Leads : (e : Event) (p : Palette) → Leads p (on_open lower items e p)
  unfolding on_open
  on_open-Leads enter p = selected-Leads p.cursor p
  on_open-Leads (click n) p = at-Leads n p
  on_open-Leads _ p = λ href h. cc

  -- A step leaves the page only in an open palette, closes the
  -- palette then, and goes to the place of an item whose label contains the query, both in lower
  -- case.
  pub step-leaves :
      (e : Event) (p : Palette) (href : String)
      → (step lower items e p).1 ≡ some href
      → (p.open? ≡ true)
        × ((step lower items e p).0.open? ≡ false)
        × ((i : Entry) × (i.href ≡ href) × (Text.includes (lower i.label) (lower p.q) ≡ true))
  unfolding step
  step-leaves e p href h = elim (Bool-cases p.open?) [
    | inl o ↦
        let r : step lower items e p ≡ on_open lower items e p = if-true _ _ o in
        let (shut, item) = on_open-Leads e p href (rw r at h) in
        (o, ap (λ x. x.0.open?) r ∙ shut, item)
    | inr o ↦
        let r : step lower items e p ≡ (on_closed lower items e p, none) = if-false _ _ o in
        absurd (cc (ap (λ x. x.1) r, h))
  ]
