-- ===== src/Home/Attention.antt =====
-- The card "Precisa de atenção" of the home page, and its pages of two.
use apifor_dev.Common.{
  ℕ, ◌+◌, ◌-◌, ◌*◌, ◌/◌, min, String, ◌==◌, Bool, Option, none, some, List, [], ◌∷◌, ◌++◌, map, ltb,
  nat_eq, if◌then◌else◌, default, length, take, drop, filter,
}
use apifor_dev.Home.{Task}

pub record Intervention : Type 0 where
  pub id : String
  pub task_id : String
  pub reason : Option String

pub record Blocked : Type 0 where
  pub task : String
  pub title : String
  pub reason : String

abbrev of_status : String → String → List Task → List Blocked
of_status status reason tasks =
    map (λ x. record { task = x.id; title = x.title; reason = reason })
      (filter (λ x. x.status == status) tasks)

unfoldable pub blocked : List Intervention → List Task → List Blocked
blocked iv tasks =
    map
      (λ i. record {
        task = i.task_id;
        title = "Intervenção humana";
        reason = default "Aguardando decisão" i.reason;
      })
      iv
    ++ of_status "blocked" "Aguardando desbloqueio" tasks
    ++ of_status "failed" "Falhou — verificar logs" tasks

-- `blocked.slice(page * 2, (page + 1) * 2)`: the page asked for is not clamped.
unfoldable pub blocked_slice : ℕ → List Blocked → List Blocked
blocked_slice page xs = take ((page + 1) * 2 - page * 2) (drop (page * 2) xs)

-- `Math.ceil(blocked.length / 2)`
abbrev pub blocked_pages : List Blocked → ℕ
blocked_pages xs = (length xs + 1) / 2

unfoldable pub back : ℕ → ℕ
back p = p - 1

-- `Math.min(Math.ceil(blocked.length / 2) - 1, p + 1)`; the button is there with more than two items.
unfoldable pub forth : List Blocked → ℕ → ℕ
forth xs p = min (blocked_pages xs - 1) (p + 1)

pub data Click : Type 0 where
  previous following : Click

-- The card: its count, its items or "Tudo certo — sem bloqueios.", and its pager "1/3" with the state
-- of its first button.
pub record Card : Type 0 where
  pub count : ℕ
  pub items : List Blocked
  pub all_clear : Bool
  pub pager : Option (ℕ × (ℕ × Bool))

unfoldable pub card : List Blocked → ℕ → Card
unfolding blocked_slice
card xs page = record {
  count = length xs;
  items = blocked_slice page xs;
  all_clear = nat_eq (length (blocked_slice page xs)) 0;
  pager = if ltb 2 (length xs) then some (page + 1, (blocked_pages xs, nat_eq page 0)) else none;
}

-- A click does something only where its button is there and on.
unfoldable pub click : List Blocked → Click → ℕ → ℕ
unfolding back forth
click xs previous p = if ltb 2 (length xs) then back p else p
click xs following p = if ltb 2 (length xs) then forth xs p else p

-- The clicks while the list stays as it is.
unfoldable pub clicks : List Blocked → List Click → ℕ → ℕ
unfolding click
clicks xs [] p = p
clicks xs (c ∷ cs) p = clicks xs cs (click xs c p)
