-- ===== src/Shell/Counts/Laws.antt =====
-- The badges and the pages count the same.
use apifor_dev.Common.{
  ℕ, ◌+◌, String, ◌==◌, ◌≡◌, refl, sym, ap, ◌∙◌, Bool, false, not, Option, none, some, List, [],
  ◌∷◌, map, nat_eq, if◌then◌else◌, if-false, count, contains, count-cons,
}
use apifor_dev.Home.{Task, Pr, n_fila, n_prs_open}
use apifor_dev.Shell.Counts.{
  n_of, settled, unmount, Answers, Counted, Event, count_at, step, badge, steps, counts_of,
}
use apifor_dev.Async.{returned}
use apifor_dev.Poll.{value}

-- The statuses of the rows.
abbrev pub statuses : List Task → List String
statuses ts = map (λ (t : Task). t.status) ts

count-map {ℓ} :
    {A B : Type ℓ} (p : B → Bool) (f : A → B) (xs : List A)
    → count p (map f xs) ≡ count (λ x. p (f x)) xs
count-map p f [] = refl
count-map p f (x ∷ xs) =
    count-cons p (f x) (map f xs)
    ∙ ap (λ n. (if p (f x) then 1 else 0) + n) (count-map p f xs)
    ∙ sym (count-cons (λ y. p (f y)) x xs)

-- A number on a badge: none for 0.
abbrev pub on_badge : ℕ → Option (ℕ × String)
on_badge n = if nat_eq n 0 then none else some (n, "accent")

-- Where the calls answer with the tasks and the pull requests that the home page has, the badge of
-- the queue shows the number that the home page shows for the queue, and that of the pull requests
-- the number that it shows as open; a badge is absent exactly where its number is 0.
pub counts_of-agree :
    (ts : List Task) (ps : List Pr) (a : Answers)
    → a.tasks ≡ returned (value (statuses ts))
    → a.prs ≡ returned (value (map (λ p. p.status) ps))
    → let shown = λ (key : String). badge (count_at (some (counts_of a)) (some key)) "accent" in
      (shown "queue" ≡ on_badge (n_fila ts)) × (shown "prs" ≡ on_badge (n_prs_open ps))
unfolding counts_of n_fila n_prs_open badge count_at
counts_of-agree ts ps a e f = (
  ap (λ n. on_badge n)
      (ap (n_of (count (λ s. contains ("queued" ∷ "planning" ∷ "assigned" ∷ []) s))) e
        ∙ count-map (contains ("queued" ∷ "planning" ∷ "assigned" ∷ [])) (λ (t : Task). t.status)
            ts),
  ap (λ n. on_badge n)
      (ap (n_of (count (λ s. not (s == "merged")))) f
        ∙ count-map (λ s. not (s == "merged")) (λ (p : Pr). p.status) ps),
)

still : (es : List Event) (s : Counted) → s.on ≡ false → (steps es s).c ≡ s.c
unfolding steps step
still [] s h = refl
still (settled a ∷ es) s h = ap (λ t. (steps es t).c) (if-false _ _ h) ∙ still es s h
still (unmount ∷ es) s h = still es (record s { on = false }) refl

-- A load that settles after the component is taken away changes nothing.
pub steps-unmounted : (es : List Event) (s : Counted) → (steps (unmount ∷ es) s).c ≡ s.c
unfolding steps step
steps-unmounted es s = still es (record s { on = false }) refl
