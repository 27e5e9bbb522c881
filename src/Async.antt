-- ===== src/Async.antt =====
-- The asynchronous handlers of the dashboard's pages. A handler runs between two awaits without
-- interruption; what it does is a script: it sets state, acts on the browser, awaits a call. Several
-- handlers can be under way, and the environment chooses which awaited call returns next and with
-- what.
pub mod Interleave
pub mod Press
use apifor_dev.Common.{
  ℕ, zero, suc, String, ◌==◌, Option, none, some, List, [], ◌∷◌, ◌++◌, if◌then◌else◌, default,
}

-- What an awaited call comes to: a value, or an exception, with its message if it is an `Error`.
pub data Outcome (R : Type 0) : Type 0 where
  returned : R → Outcome R
  thrown : Option String → Outcome R

-- `e instanceof Error ? e.message : text`
unfoldable pub thrown_text : Option String → String → String
thrown_text e text = default text e

-- `a || b` on texts: an absent and an empty text are both falsy.
unfoldable pub text_or : Option String → String → String
text_or none d = d
text_or (some s) d = if s == "" then d else s

-- A script over the states S that calls with requests Q and is answered by R. A request may read
-- the state at the moment of the call.
pub data Script (S Q R : Type 0) : Type 0 where
  done : Script S Q R
  set : (S → S) → Script S Q R → Script S Q R
  call : (S → Q) → (Outcome R → Script S Q R) → Script S Q R

-- A page with the handlers under way, each waiting for its call.
pub record Running (S Q R : Type 0) : Type 0 where
  pub state : S
  pub waiting : List (Outcome R → Script S Q R)

-- The user starts a handler, or the n-th call under way returns.
pub data Event (S Q R : Type 0) : Type 0 where
  begin : Script S Q R → Event S Q R
  reply : ℕ → Outcome R → Event S Q R

-- The item at a place, and the list without it.
abbrev pub past {ℓ} : {A : Type ℓ} → A → Option (A × List A) → Option (A × List A)
past x none = none
past x (some (y, ys)) = some (y, x ∷ ys)

unfoldable pub pick {ℓ} : {A : Type ℓ} → ℕ → List A → Option (A × List A)
pick n [] = none
pick zero (x ∷ xs) = some (x, xs)
pick (suc n) (x ∷ xs) = past x (pick n xs)

module _ {S Q R : Type 0} where
  -- What runs until the first await: the state, and the call with what follows it.
  unfoldable pub until_call : Script S Q R → S → S × Option (Q × (Outcome R → Script S Q R))
  until_call done s = (s, none)
  until_call (set f k) s = until_call k (f s)
  until_call (call q k) s = (s, some (q s, k))

  -- A whole run with no other handler between, each call answered by the environment; the calls
  -- made come second, in order.
  unfoldable pub run : (Q → Outcome R) → Script S Q R → S → S × List Q
  run env done s = (s, [])
  run env (set f k) s = run env k (f s)
  run env (call q k) s = let (t, qs) = run env (k (env (q s))) s in (t, q s ∷ qs)

  abbrev add_waiting :
      Option (Q × (Outcome R → Script S Q R))
      → List (Outcome R → Script S Q R)
      → List (Outcome R → Script S Q R)
  add_waiting none ws = ws
  add_waiting (some (q, k)) ws = ws ++ k ∷ []

  -- The user starts a handler.
  unfoldable pub start : Script S Q R → Running S Q R → Running S Q R
  unfolding until_call
  start h p =
      let (s, w) = until_call h p.state in record { state = s; waiting = add_waiting w p.waiting }

  -- A call under way returns, and its handler runs on.
  abbrev pub resume :
      Outcome R
      → Running S Q R
      → Option ((Outcome R → Script S Q R) × List (Outcome R → Script S Q R))
      → Running S Q R
  resume o p none = p
  resume o p (some (k, ws)) = start (k o) (record { state = p.state; waiting = ws })

  -- The n-th call under way returns.
  unfoldable pub answer : ℕ → Outcome R → Running S Q R → Running S Q R
  unfolding pick
  answer n o p = resume o p (pick n p.waiting)

  unfoldable pub step : Running S Q R → Event S Q R → Running S Q R
  unfolding start answer
  step p (begin h) = start h p
  step p (reply n o) = answer n o p

  unfoldable pub steps : Running S Q R → List (Event S Q R) → Running S Q R
  unfolding step
  steps p [] = p
  steps p (e ∷ es) = steps (step p e) es
