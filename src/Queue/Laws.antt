-- ===== src/Queue/Laws.antt =====
-- What the queue page shows after each event.
use apifor_dev.Common.{
  length-take, length-eq-zero_iff, String, ◌≡◌, refl, ◌↔◌, ◌⊎◌, inl, inr, true, List, [], map,
  arith, nat_eq, length, take,
}
use apifor_dev.Pipeline.{filtered, Task}
use apifor_dev.Queue.{set_state, set_q, Event, page_size, Queue, screen, step, row, pages}
use apifor_dev.Paging.{rows}
use apifor_dev.Paging.Cover.{rows-zero, pages-cover, pages_from}

module _ (lower : String → String) (tasks : List Task) where
  first_rows :
      (state q : String)
      → let shown = filtered lower state q tasks in
        (map row (rows page_size 0 shown) ≡ map row (take page_size shown))
        × ((nat_eq (length (rows page_size 0 shown)) 0 ≡ true) ↔ (shown ≡ []))
  first_rows state q =
      let shown : List Task = filtered lower state q tasks in
      rw (rows-zero page_size shown) (
        refl,
        (
          λ h. (length-eq-zero_iff shown).0 (ground (arith, length-take page_size shown)),
          λ h. rw h refl,
        ),
      )

  -- A new search or another state filter leads back to the first page, so the table then holds the
  -- first rows of what the new filters leave, and the notice "nenhuma tarefa" stands exactly when
  -- they leave nothing.
  pub first_page_after_filter :
      (s : Queue) (e : Event) (v : String)
      → (e ≡ set_q v) ⊎ (e ≡ set_state v)
      → let s' = step lower tasks e s in
        let shown = filtered lower s'.state s'.q tasks in
        ((screen lower tasks s').table ≡ map row (take page_size shown))
        × (((screen lower tasks s').empty ≡ true) ↔ (shown ≡ []))
  unfolding step screen
  first_page_after_filter s e v (inl h) = rw h (first_rows s.state v)
  first_page_after_filter s e v (inr h) = rw h (first_rows v s.q)

  -- Every row of every page, in order, is a filtered task: with the page number running over all
  -- pages, the rows shown are the filtered tasks, each once.
  pub pages-filtered :
      (s : Queue)
      → pages_from page_size 0 (pages lower tasks s) (filtered lower s.state s.q tasks)
        ≡ filtered lower s.state s.q tasks
  unfolding pages
  pages-filtered s = pages-cover 19 (filtered lower s.state s.q tasks)
