-- ===== src/Poll/Guarded.antt =====
-- The guarded poll that several pages write out: `apiGet(p).then((x) => { if (!x?.error) setX(x); })
-- .catch(() => {})` (app/dashboard/app/live/page.tsx, and telemetry, usage, config, interventions),
-- and the loading effect that waits for its data.
use apifor_dev.Common.{◌≡◌, Bool, true, false, ◌&&◌, not, List, [], ◌∷◌, arith, if◌then◌else◌, any}
use apifor_dev.Poll.{undefined, value, Maybe, null}

-- What a call comes to: it is rejected, its answer carries an error, or it is another value, as is the
-- empty object that `safeJson` makes of a 401 and of a body that is no JSON.
pub data PollReply (A : Type 0) : Type 0 where
  rejected refused : PollReply A
  answered : Maybe A → PollReply A

module _ {A : Type 0} where
  abbrev pub is_null : Maybe A → Bool
  is_null null = true
  is_null _ = false

  -- The effect `if (x !== null) setLoading(false)`.
  abbrev pub null_effect : Maybe A → Bool → Bool
  null_effect d loading = if is_null d then loading else false

-- A page's data and its loading flag.
pub record Loaded (A : Type 0) : Type 0 where
  pub got : Maybe A
  pub loading : Bool

module _ {A : Type 0} where
  abbrev pub not_yet : Loaded A
  not_yet = record { got = null; loading = true }

  -- One reply: only an answer without an error sets the data and runs the effect.
  unfoldable pub receive : PollReply A → Loaded A → Loaded A
  receive (answered d) s = record { got = d; loading = null_effect d s.loading }
  receive _ s = s

  unfoldable pub receives : List (PollReply A) → Loaded A → Loaded A
  unfolding receive
  receives [] s = s
  receives (r ∷ rs) s = receives rs (receive r s)

  -- Whether a reply carries a value.
  abbrev pub carries : PollReply A → Bool
  carries (answered d) = not (is_null d)
  carries _ = false

  -- The data of the last answer without an error, and before any, what there was.
  abbrev pub last_answer : List (PollReply A) → Maybe A → Maybe A
  last_answer [] d = d
  last_answer (answered e ∷ rs) d = last_answer rs e
  last_answer (_ ∷ rs) d = last_answer rs d

  -- After any replies, the page holds the data of the last answer without an error, and loads exactly
  -- as long as no answer has carried a value: failed calls neither end the loading nor lose data.
  pub receives_lem :
      (rs : List (PollReply A)) (s : Loaded A)
      → ((receives rs s).got ≡ last_answer rs s.got)
        × ((receives rs s).loading ≡ s.loading && not (any carries rs))
  unfolding receives receive
  receives_lem [] s = ground arith
  receives_lem (rejected ∷ rs) s = receives_lem rs s
  receives_lem (refused ∷ rs) s = receives_lem rs s
  receives_lem (answered undefined ∷ rs) s =
      let (g, l) = receives_lem rs (receive (answered undefined) s) in (g, ground (arith, l))
  receives_lem (answered null ∷ rs) s =
      let (g, l) = receives_lem rs (receive (answered null) s) in (g, ground (arith, l))
  receives_lem (answered (value a) ∷ rs) s =
      let (g, l) = receives_lem rs (receive (answered (value a)) s) in (g, ground (arith, l))
