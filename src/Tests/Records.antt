-- ===== src/Tests/Records.antt =====
-- The home page and the pages of invoices, instances, documents and reports on concrete inputs.
use apifor_dev.Cloud.{steps, open_new, create, filtered, found_by}
use apifor_dev.Cloud.Totals.{screen}
use apifor_dev.Home.Attention.{blocked, card}
use apifor_dev.Common.{
  ◌+◌, ◌*◌, ◌/◌, ◌%◌, ◌≤◌, ◌≡◌, refl, ◌↔◌, true, false, some, [], ◌∷◌, arith, is_some, length,
}
use apifor_dev.Invoices.Dates.{days_in, month_start, eve, Date, billed}
use apifor_dev.Qa.{minutes, duration_of}
use apifor_dev.Home.Attention.{previous, following, clicks, Blocked}
use apifor_dev.Cloud.Totals.{init_nodes, total_vcpu}
use apifor_dev.Home.Laws.{clicks-all_clear, all_clear-past}
use apifor_dev.Cloud.{del_node, timer, initial}
use apifor_dev.Qa.Laws.{duration_of-minutes}
use apifor_dev.Invoices.Laws.{billed-eve, next_day}
use apifor_dev.Cloud.Laws.{steps-vcpus}

steps-vcpus_example :
    let s =
      steps
        (λ s. s)
        (open_new ∷ create ∷ timer "k3x" ∷ del_node "cld-1a2b3c" ∷ [])
        (initial init_nodes) in
    (is_some (screen (λ s. s) s).vcpus ≡ true) × (is_some s.waiting ≡ s.creating)
steps-vcpus_example =
    steps-vcpus (λ s. s) (open_new ∷ create ∷ timer "k3x" ∷ del_node "cld-1a2b3c" ∷ [])

total_vcpu_init : total_vcpu init_nodes ≡ some 40
unfolding total_vcpu
total_vcpu_init = refl

-- The search is not put in lower case, the specifications are.
search_case : filtered (λ s. "4 vcpu · 8 gb") (record (initial init_nodes) { q = "vCPU" }) ≡ []
unfolding filtered found_by initial
search_case = refl

abbrev in_march : Date
in_march = record { year = 2028; month = 2; day = 1 }

billed_march : (billed in_march).1.day ≡ 29
unfolding billed eve
billed_march = refl

billed-eve_example :
    ((billed in_march).0 ≡ month_start (billed in_march).1.year (billed in_march).1.month)
    × ((billed in_march).1.day ≡ days_in (billed in_march).1.year (billed in_march).1.month)
    × (next_day (billed in_march).1 ≡ month_start 2028 2)
billed-eve_example = billed-eve in_march (omega arith) (omega arith)

abbrev stuck : Blocked
stuck = record { task = "t1"; title = "a"; reason = "b" }

-- Two items are left, and the page asked for is the second.
all_clear-past_example :
    (((card (stuck ∷ stuck ∷ []) 1).all_clear ≡ true) ↔ (2 ≤ 2))
    × (is_some (card (stuck ∷ stuck ∷ []) 1).pager ≡ false)
all_clear-past_example = all_clear-past (stuck ∷ stuck ∷ []) 1

abbrev failed_task : apifor_dev.Home.Task
failed_task = record { id = "t2"; status = "failed"; title = "c" }

clicks-all_clear_example :
    let xs = blocked [] (failed_task ∷ failed_task ∷ failed_task ∷ []) in
    ((card xs (clicks xs (following ∷ following ∷ previous ∷ []) 0)).all_clear ≡ true)
    ↔ (length xs ≡ 0)
clicks-all_clear_example =
    clicks-all_clear [] (failed_task ∷ failed_task ∷ failed_task ∷ [])
      (following ∷ following ∷ previous ∷ [])

duration_of-minutes_example :
    let m = 119800 / 60000 in
    let s = (119800 % 60000 + 500) / 1000 in
    (duration_of 119800 ≡ minutes m s)
    × (1000 * (60 * m + s) ≤ 119800 + 500)
    × (119800 ≤ 1000 * (60 * m + s) + 500)
    × (s ≤ 60)
    × ((s ≡ 60) ↔ (59500 ≤ 119800 % 60000))
duration_of-minutes_example = duration_of-minutes 119800 (omega arith)
