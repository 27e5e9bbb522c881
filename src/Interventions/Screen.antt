-- ===== src/Interventions/Screen.antt =====
-- What the intervention page shows, its controls, and the buttons of its rows
-- (app/dashboard/app/interventions/page.tsx). `lower` is `toLowerCase`, `write` prints a number.
use apifor_dev.Common.{
  ℕ, String, ◌==◌, Bool, Option, none, some, List, [], ◌∷◌, ◌++◌, map, nat_eq, if◌then◌else◌,
  length,
}
use apifor_dev.Common.Text
use apifor_dev.Interventions.{
  Item, Kind, decisao, bloqueada, filters, filtered, short, hash, Call, post_answer,
}
use apifor_dev.Paging.{total_pages, next_page, prev_page}
use apifor_dev.Paging.{rows}
use apifor_dev.Queue.{Pager, pager, lit}

-- The search, the kind that is chosen, and the page that is asked for.
pub record Browsing : Type 0 where
  pub q : String
  pub filter : String
  pub page : ℕ

abbrev pub fresh : Browsing
fresh = record { q = ""; filter = "todos"; page = 0 }

pub data Event : Type 0 where
  set_q set_filter : String → Event
  prev next : Event

-- A row of the list. A button has the call that it makes, or none where it has no handler.
pub record Line : Type 0 where
  pub id : String
  pub badge : String
  pub code : String
  pub title : String
  pub place : Option String
  pub ago : Option String
  pub reason : String
  pub buttons : List (String × Option Call)

pub record Screen : Type 0 where
  pub total : ℕ
  pub pills : List (String × Bool)
  pub lines : List Line
  pub empty : Bool
  pub found : ℕ
  pub pager : Option Pager

abbrev pub badge_of : Kind → String
badge_of decisao = "Decisão humana"
badge_of bloqueada = "Bloqueada"

abbrev pub buttons_of : Kind → String → List (String × Option Call)
buttons_of decisao id =
    ("Aprovar merge", some (post_answer id "approve"))
    ∷ ("Reprovar", some (post_answer id "reject"))
    ∷ []
buttons_of bloqueada id = ("Chamar agente de correção", none) ∷ ("Reprocessar", none) ∷ []

abbrev pub unless_blank : String → String → Option String
unless_blank s text = if s == "" then none else some text

unfoldable pub line : Item → Line
unfolding short hash
line i = record {
  id = i.id;
  badge = badge_of i.kind;
  code = short 8 (hash i.id);
  title = i.title;
  place = unless_blank i.repo (Text.append i.repo (Text.append " · " i.agent));
  ago = unless_blank i.age (Text.append "há " i.age);
  reason = i.reason;
  buttons = buttons_of i.kind i.id ++ (("Ver caminho do worker", none) ∷ []);
}

module _ (lower : String → String) where
  unfoldable pub pages : List Item → Browsing → ℕ
  unfolding filtered total_pages
  pages items s = total_pages 20 (length (filtered lower s.filter s.q items))

  unfoldable pub step : List Item → Event → Browsing → Browsing
  unfolding pages prev_page next_page
  step items (set_q v) s = record s { q = v; page = 0 }
  step items (set_filter v) s = record s { filter = v; page = 0 }
  step items prev s = record s { page = prev_page s.page }
  step items next s = record s { page = next_page (pages items s) s.page }

  unfoldable pub screen : List Item → Browsing → Screen
  unfolding filtered rows line pager pages
  screen items s =
      let left = filtered lower s.filter s.q items in
      let shown = rows 20 s.page left in
      record {
        total = length items;
        pills = lit s.filter filters;
        lines = map line shown;
        empty = nat_eq (length shown) 0;
        found = length left;
        pager = pager (pages items s) s.page;
      }
