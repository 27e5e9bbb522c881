-- ===== src/Tests/Pages.antt =====
-- The pages' lists on concrete inputs.
use apifor_dev.Common.{ℕ, String, ◌≡◌, refl, none, List, [], ◌∷◌, All}
use apifor_dev.Paging.{total_pages}
use apifor_dev.Paging.Cover.{pages-cover, pages_from}
use apifor_dev.Pipeline.{Task, bar_total, bucket_counts}
use apifor_dev.Pipeline.Partition.{bar_total-bucket_counts}
use apifor_dev.Interventions.{all_items, Intervention}
use apifor_dev.Interventions.Screen.{screen, fresh}
use apifor_dev.Interventions.Answering.{screen-IsAnswering, IsAnswering}

abbrev seven : List ℕ
seven = 1 ∷ 2 ∷ 3 ∷ 4 ∷ 5 ∷ 6 ∷ 7 ∷ []

pages-cover_example : pages_from 3 0 (total_pages 3 7) seven ≡ seven
pages-cover_example = pages-cover 2 seven

abbrev task : String → String → Task
task id status = record { id = id; title = "t"; status = status; repo_id = none }

abbrev tasks : List Task
tasks =
    task "tsk_1" "queued"
    ∷ task "tsk_2" "running"
    ∷ task "tsk_3" "blocked"
    ∷ task "tsk_4" "merged"
    ∷ task "tsk_5" "failed"
    ∷ []

bar_total-bucket_counts_example : bar_total (bucket_counts tasks) ≡ 5
bar_total-bucket_counts_example =
    bar_total-bucket_counts tasks (refl, (refl, (refl, (refl, (refl, tt)))))

abbrev decided : Intervention
decided = record {
  task_id = "tsk_3";
  title = "t";
  branch = "main";
  ci_status = "ok";
  ai_review_status = "";
  created_at = "";
}

screen-IsAnswering_example :
    All
      (IsAnswering (decided ∷ []))
      (screen (λ t. t) (all_items (λ i. 0) (λ n. "0") (decided ∷ []) tasks) fresh).lines
screen-IsAnswering_example =
    screen-IsAnswering (λ i. 0) (λ n. "0") (λ t. t) (decided ∷ []) tasks fresh
