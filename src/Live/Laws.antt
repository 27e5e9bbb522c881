-- ===== src/Live/Laws.antt =====
-- What the live page shows while its stream and its poll run.
use apifor_dev.Common.{
  length-filter-le, ℕ, suc, ◌+◌, ◌≤◌, String, ◌==◌, ◌≡◌, refl, ap, Bool, true, false, ◌&&◌, not,
  none, some, List, [], ◌∷◌, ◌++◌, arith, if◌then◌else◌, length, any, count, contains, count-cons,
}
use apifor_dev.Live.{
  empty_pool, running_states, is_paused, Card, Worker, Task, message, failed, n_running, opened,
  pool_color, polled, Snapshot, card, Live, cards, Event, step, pool_word, steps, screen,
}
use apifor_dev.Poll.Guarded.{refused, rejected, answered, carries}
use apifor_dev.Poll.{value}

-- The last message of the stream that could be read, and before any, what was shown.
abbrev pub last_message : List Event → Snapshot → Snapshot
last_message [] d = d
last_message (message (some d) ∷ es) e = last_message es d
last_message (_ ∷ es) d = last_message es d

-- Whether the stream's last opening or failure was an opening.
abbrev pub connected : List Event → Bool → Bool
connected [] b = b
connected (opened ∷ es) b = connected es true
connected (failed ∷ es) b = connected es false
connected (_ ∷ es) b = connected es b

-- Whether a poll of the pool has answered with a value.
abbrev pub answers : Event → Bool
answers (polled r) = carries r
answers _ = false

steps_lem :
    (es : List Event) (s : Live)
    → ((steps es s).shown ≡ last_message es s.shown)
      × ((steps es s).live ≡ connected es s.live)
      × ((steps es s).loading ≡ s.loading && not (any answers es))
unfolding steps step
steps_lem [] s = ground arith
steps_lem (opened ∷ es) s = ground (arith, steps_lem es (step opened s))
steps_lem (failed ∷ es) s = ground (arith, steps_lem es (step failed s))
steps_lem ((message none) ∷ es) s = ground (arith, steps_lem es (step (message none) s))
steps_lem ((message (some d)) ∷ es) s = ground (arith, steps_lem es (step (message (some d)) s))
steps_lem ((polled rejected) ∷ es) s = ground (arith, steps_lem es (step (polled rejected) s))
steps_lem ((polled refused) ∷ es) s = ground (arith, steps_lem es (step (polled refused) s))
steps_lem ((polled (answered p)) ∷ es) s =
    ground (arith, steps_lem es (step (polled (answered p)) s))

-- A poll that comes back with the empty object ends the loading.
steps_emptied :
    (es : List Event) (s : Live)
    → (steps (es ++ polled (answered (value empty_pool)) ∷ []) s).loading ≡ false
unfolding steps step
steps_emptied [] s = refl
steps_emptied (e ∷ es) s = steps_emptied es (step e s)

-- After any series of events, the page shows the workers of the stream's last message that could be
-- read, says that the stream is connected exactly if its last opening or failure was an opening, and
-- loads exactly as long as no poll of the pool has come back with a value: the stream does not end
-- the loading, nor does a poll that is rejected or whose answer has an error. The empty object that
-- stands for a 401 or for an unreadable answer is a value, and ends it.
pub steps_seen :
    (es : List Event) (s : Live)
    → ((steps es s).shown ≡ last_message es s.shown)
      × ((steps es s).live ≡ connected es s.live)
      × ((steps es s).loading ≡ s.loading && not (any answers es))
      × ((steps (es ++ polled (answered (value empty_pool)) ∷ []) s).loading ≡ false)
steps_seen es s = let (a, b, c) = steps_lem es s in (a, b, c, steps_emptied es s)

count_animated :
    (write : ℕ → String) (tasks : List Task) (i : ℕ) (ws : List Worker)
    → count (λ c. c.animated) (cards write tasks i ws) ≡ n_running ws
unfolding cards card n_running
count_animated write tasks i [] = refl
count_animated write tasks i (w ∷ ws) =
    let ih : count (λ c. c.animated) (cards write tasks (i + 1) ws) ≡ n_running ws =
      count_animated write tasks (i + 1) ws in
    ground (
      arith,
      count-cons (λ (c : Card). c.animated) (card write tasks i w) (cards write tasks (i + 1) ws),
      count-cons (λ (v : Worker). contains running_states v.status) w ws,
      ih,
    )

length-cards :
    (write : ℕ → String) (tasks : List Task) (i : ℕ) (ws : List Worker)
    → length (cards write tasks i ws) ≡ length ws
unfolding cards
length-cards write tasks i [] = refl
length-cards write tasks i (w ∷ ws) = ap suc (length-cards write tasks (i + 1) ws)

n_running-le : (ws : List Worker) → n_running ws ≤ length ws
unfolding n_running
n_running-le ws = length-filter-le (λ w. contains running_states w.status) ws

-- The subtitle agrees with the cards: the free slots and the cards that move are together the
-- workers that it calls active, and there is one card for each of them.
pub screen_slots :
    (write : ℕ → String) (s : Live)
    → ((screen write s).free + count (λ c. c.animated) (screen write s).list
        ≡ (screen write s).active)
      × (length (screen write s).list ≡ (screen write s).active)
unfolding screen
screen_slots write s =
    let c = count_animated write s.shown.tasks 0 s.shown.workers in
    let l = length-cards write s.shown.tasks 0 s.shown.workers in
    let n = n_running-le s.shown.workers in (omega (arith, c, n), l)

agree :
    (l p : Bool)
    → (((if p then "PAUSADO" else if l then "RODANDO" else "OFFLINE") == "RODANDO") ≡ (
        (if l && not p then "var(--green)" else if p then "var(--orange)" else "var(--mute)")
        == "var(--green)"))
      × (((if p then "PAUSADO" else if l then "RODANDO" else "OFFLINE") == "PAUSADO") ≡ (
          (if l && not p then "var(--green)" else if p then "var(--orange)" else "var(--mute)")
          == "var(--orange)"))
agree true true = (refl, refl)
agree true false = (refl, refl)
agree false true = (refl, refl)
agree false false = (refl, refl)

-- The pool is called running exactly if it is drawn green, and paused exactly if it is drawn orange.
pub pool_word-pool_color :
    (s : Live)
    → ((pool_word s == "RODANDO") ≡ (pool_color s == "var(--green)"))
      × ((pool_word s == "PAUSADO") ≡ (pool_color s == "var(--orange)"))
unfolding pool_word pool_color
pool_word-pool_color s = agree s.live (is_paused s.pool)
