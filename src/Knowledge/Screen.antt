-- ===== src/Knowledge/Screen.antt =====
-- What the knowledge page shows, and the controls that call nothing
-- (app/dashboard/app/knowledge/page.tsx). `lower` is `toLowerCase`, `write` prints a number, `fixed` a
-- quotient with one digit after the point, `bytes` counts the bytes of a text in UTF-8.
use apifor_dev.Common.{
  ℕ, String, ◌==◌, Bool, ◌||◌, not, Option, none, some, List, [], ◌∷◌, map, nat_eq, if◌then◌else◌,
  default, length, contains,
}
use apifor_dev.Common.Text
use apifor_dev.Paging.{next_page, prev_page, total_pages}
use apifor_dev.Queue.{pager, Pager}
use apifor_dev.Interventions.{short}
use apifor_dev.Repos.{last_of}
use apifor_dev.Knowledge.{Doc}
use apifor_dev.Knowledge.Docs.{cat_color, docs_page, fmt_size, filtered}
use apifor_dev.Knowledge.Snippet.{snippet}

pub record Memory : Type 0 where
  pub id : String
  pub scope : String
  pub repo_id : String
  pub instruction : String
  pub source : String

-- The state that the filters and the dialogs use.
pub record View : Type 0 where
  pub tab : String
  pub cat_filter : String
  pub q : String
  pub page : ℕ
  pub preview : Option Doc

abbrev pub fresh_view : View
fresh_view = record { tab = "docs"; cat_filter = "todos"; q = ""; page = 0; preview = none }

abbrev pub categories : List String
categories = "Manual" ∷ "Especificação" ∷ "API" ∷ "Guia" ∷ "Referência" ∷ "Anotação" ∷ "Outro" ∷ []

-- The ending of a file's name, and the colours that it gives the icon.
abbrev pub ext_of : (String → String) → String → String
ext_of lower name = lower (last_of (Text.split b'.' name))

abbrev pub icon_color : String → String
icon_color ext =
    if ext == "pdf"
    then "var(--red)"
    else if (ext == "md") || (ext == "js")
    then "var(--accent)"
    else if ext == "ts"
    then "var(--blue)"
    else if ext == "json"
    then "var(--green)"
    else if ext == "yaml"
    then "var(--orange)"
    else "var(--dim)"

-- The drawing of the icon: of a book, a text, a program, or any file.
abbrev pub icon_kind : String → String
icon_kind ext =
    if ext == "pdf"
    then "pdf"
    else if ext == "md"
    then "md"
    else if contains ("ts" ∷ "js" ∷ "json" ∷ "yaml" ∷ []) ext
    then "code"
    else "file"

pub data Click : Type 0 where
  to_tab to_cat set_q : String → Click
  prev next close_preview : Click
  show : Doc → Click

module _ (lower : String → String) where
  unfoldable pub pages : List Doc → View → ℕ
  unfolding total_pages filtered
  pages docs v = total_pages 20 (length (filtered lower v.cat_filter v.q docs))

  unfoldable pub click : List Doc → Click → View → View
  unfolding pages prev_page next_page
  click docs (to_tab t) v = record v { tab = t }
  click docs (to_cat c) v = record v { cat_filter = c; page = 0 }
  click docs (set_q q) v = record v { q = q; page = 0 }
  click docs prev v = record v { page = prev_page v.page }
  click docs next v = record v { page = next_page (pages docs v) v.page }
  click docs (show d) v = record v { preview = some d }
  click docs close_preview v = record v { preview = none }

pub record DocRow : Type 0 where
  pub icon : String × String
  pub name : String
  pub category : String × (String × String)
  pub indexed : Bool
  pub size : Option String
  pub file_ref : Option String
  pub snippet : Option String
  pub can_show : Bool

pub record MemRow : Type 0 where
  pub instruction : String
  pub color : String
  pub scope : String
  pub source : Option String

unfoldable pub mem_row : Memory → MemRow
unfolding short
mem_row m = record {
  instruction = m.instruction;
  color = if m.scope == "global" then "var(--accent)" else "var(--blue)";
  scope =
      if m.repo_id == ""
      then m.scope
      else Text.append m.scope (Text.append " · " (short 10 m.repo_id));
  source = if m.source == "" then none else some m.source;
}

pub record Screen : Type 0 where
  pub tabs : List (String × (Bool × ℕ))
  pub cats : List (String × Bool)
  pub docs : List DocRow
  pub pager : Option Pager
  pub mems : List MemRow
  pub preview : Option (String × String)

-- How long the content of the form is.
abbrev pub draft_label : (ℕ → String) → (String → ℕ) → (String → ℕ) → String → String
draft_label write units bytes content =
    if nat_eq (units content) 0
    then ""
    else Text.append (write (units content))
        (Text.append " caracteres · " (Text.append (write (bytes content)) " bytes"))

abbrev pub shown_ref : String → Option String
shown_ref s = if (s == "") || (s == "inline") then none else some (short 40 s)

abbrev pub has_content : Doc → Bool
has_content d = not (default "" d.content == "")

abbrev pub cat_label : String → String
cat_label c = if c == "todos" then "Todos" else c

module _ (fixed : ℕ → ℕ → String) (write : ℕ → String) (lower : String → String) where
  unfoldable pub doc_row : Doc → DocRow
  unfolding fmt_size cat_color
  doc_row d = record {
    icon = (icon_kind (ext_of lower d.name), icon_color (ext_of lower d.name));
    name = d.name;
    category = (d.category, cat_color d.category);
    indexed = d.indexed;
    size = fmt_size write fixed d.size;
    file_ref = shown_ref (default "" d.file_ref);
    snippet =
        if has_content d then some (Text.append (snippet (default "" d.content)) "…") else none;
    can_show = has_content d;
  }

  unfoldable pub screen : List Doc → List Memory → View → Screen
  unfolding doc_row docs_page pager pages mem_row
  screen docs mems v = record {
    tabs =
        ("Documentos", (v.tab == "docs", length docs))
        ∷ ("Memórias", (v.tab == "mem", length mems))
        ∷ [];
    cats = map (λ (c : String). (cat_label c, v.cat_filter == c)) ("todos" ∷ categories);
    docs = map doc_row (docs_page lower v.cat_filter v.q v.page docs);
    pager = pager (pages lower docs v) v.page;
    mems = map mem_row mems;
    preview = elim v.preview [
      | none ↦ none
      | some d ↦ some (d.name, if has_content d then default "" d.content else "(sem conteúdo)")
    ];
  }
