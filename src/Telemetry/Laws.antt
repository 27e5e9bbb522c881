-- ===== src/Telemetry/Laws.antt =====
-- The meters and bars of the telemetry page stay inside their tracks.
use apifor_dev.Common.{
  percent-le, ℕ, zero, suc, ◌+◌, ◌≤◌, ◌<◌, min, String, ◌≡◌, refl, ap, false, some, map, arith,
  nat_eq, if-false, length, All,
}
use apifor_dev.Telemetry.{bars, Tel, worker_bar, pass_rate, sys_meters, count_up, consumption}

-- As long as the merged and the failed tasks are among all tasks, every meter is at most full; the
-- meters of the workers and of the pull requests are so whatever the numbers are.
pub sys_meters-le :
    (write : ℕ → String) (fixed : ℕ → ℕ → String) (t : Tel)
    → t.tasks_merged ≤ t.tasks_total
    → t.tasks_failed ≤ t.tasks_total
    → All (λ m. m.pct ≤ 100) (sys_meters write fixed t)
unfolding sys_meters pass_rate
sys_meters-le write fixed t h k = (
  omega arith,
  (
    percent-le t.tasks_merged t.tasks_total h,
    (percent-le t.tasks_failed t.tasks_total k, (omega arith, tt)),
  ),
)

abbrev pub IsWithin : String × ℕ → Type 0
IsWithin w = (10 ≤ w.1) × (w.1 ≤ 100)

bars_from :
    (f : ℕ → String) (n i : ℕ) → All IsWithin (map (λ j. (f j, worker_bar j)) (count_up n i))
bars_from f zero i = tt
bars_from f (suc n) i = ((omega arith, omega arith), bars_from f n (i + 1))

length-bars : {A : Type 0} (f : ℕ → A) (n i : ℕ) → length (map f (count_up n i)) ≡ n
length-bars f zero i = refl
length-bars f (suc n) i = ap suc (length-bars f n (i + 1))

-- With active workers, the list by consumption has a line for each of them, up to six, and the bar of
-- each is between a tenth of its track and all of it.
pub consumption-bars :
    (write : ℕ → String) (fixed : ℕ → ℕ → String) (t : Tel)
    → 0 < t.tasks_active
    → (consumption write fixed t ≡ some (bars write fixed (min t.tasks_active 6)))
      × (length (bars write fixed (min t.tasks_active 6)) ≡ min t.tasks_active 6)
      × All IsWithin (bars write fixed (min t.tasks_active 6))
unfolding consumption bars
consumption-bars write fixed t h =
    let z : nat_eq t.tasks_active 0 ≡ false = ground arith in
    (if-false _ _ z, length-bars _ (min t.tasks_active 6) 0, bars_from _ (min t.tasks_active 6) 0)
