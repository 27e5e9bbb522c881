-- ===== src/Knowledge.antt =====
-- The page of the knowledge base (app/dashboard/app/knowledge/page.tsx): the documents, of the server
-- and of the page itself, and the memories. `toLowerCase`, the time of `Date.now()` as text and the
-- size of a text in UTF-8 are parameters.
pub mod Docs
pub mod Snippet
pub mod Screen
pub mod Laws
use apifor_dev.Common.{
  ℕ, suc, String, ◌==◌, Bool, true, false, ◌||◌, not, Option, none, some, List, [], ◌∷◌, ◌++◌,
  if◌then◌else◌, filter,
}
use apifor_dev.Common.Text
use apifor_dev.Async.{thrown, returned, call, set, Outcome, done, Script}
use apifor_dev.Session.{truthy}

pub record Doc : Type 0 where
  pub id : String
  pub name : String
  pub category : String
  pub file_ref : Option String
  pub indexed : Bool
  pub size : Option ℕ
  pub content : Option String

-- The form of a memory, and that of a document.
pub record MemForm : Type 0 where
  pub scope : String
  pub repo : String
  pub instr : String

pub record Draft : Type 0 where
  pub title : String
  pub category : String
  pub content : String

-- The state of the page; the reloads count the calls of the polls' `reload`.
pub record Knowledge : Type 0 where
  pub local_docs : List Doc
  pub mf : MemForm
  pub write_open : Bool
  pub wd : Draft
  pub saving : Bool
  pub kb_reloads : ℕ
  pub mem_reloads : ℕ

pub record Call : Type 0 where
  pub method : String
  pub url : String
  pub fields : List (String × String)

-- What the handlers read of an answer: the `id` of what was made.
abbrev pub Handler : Type 0
Handler = Script Knowledge Call (Option String)

abbrev pub reload_kb : Knowledge → Knowledge
reload_kb s = record s { kb_reloads = suc s.kb_reloads }

abbrev reload_mem : Knowledge → Knowledge
reload_mem s = record s { mem_reloads = suc s.mem_reloads }

abbrev no_instr : Knowledge → Knowledge
no_instr s = record s { mf = record s.mf { instr = "" } }

abbrev repo_field : String → List (String × String)
repo_field repo = if repo == "" then [] else ("repo_id", repo) ∷ []

abbrev pub after_mem : Outcome (Option String) → Handler
after_mem (returned r) = set no_instr (set reload_mem done)
after_mem (thrown e) = done

unfoldable pub add_mem : Knowledge → Handler
add_mem s =
    if Text.trim s.mf.instr == ""
    then done
    else call
        (λ t. record {
          method = "POST";
          url = "/v1/memories";
          fields = ("scope", s.mf.scope) ∷ repo_field s.mf.repo ++ ("instruction", s.mf.instr) ∷ [];
        })
        after_mem

abbrev pub deleted : (Knowledge → Knowledge) → Outcome (Option String) → Handler
deleted reload (returned r) = set reload done
deleted reload (thrown e) = done

abbrev pub delete_call : String → Call
delete_call url = record { method = "DELETE"; url = url; fields = [] }

unfoldable pub del_mem : String → Handler
del_mem id = call (λ s. delete_call (Text.append "/v1/memories/" id)) (deleted reload_mem)

abbrev pub blank_draft : Draft
blank_draft = record { title = ""; category = "Anotação"; content = "" }

abbrev pub doc_call : String → String → String → String → Call
doc_call name category content file_ref = record {
  method = "POST";
  url = "/v1/kb-documents";
  fields =
      ("name", name) ∷ ("category", category) ∷ ("content", content) ∷ ("file_ref", file_ref) ∷ [];
}

abbrev pub add_local : Doc → Knowledge → Knowledge
add_local d s = record s { local_docs = d ∷ s.local_docs }

abbrev close_draft : Knowledge → Knowledge
close_draft s = record s { wd = blank_draft; write_open = false }

abbrev finally : Handler
finally = set (λ s. record s { saving = false }) done

module _ (now : String) (bytes : String → ℕ) where
  -- The document that stays in the page where the server keeps none.
  abbrev pub draft_doc : Draft → Doc
  draft_doc d = record {
    id = Text.append "local-" now;
    name = Text.append d.title ".md";
    category = d.category;
    file_ref = some "inline";
    indexed = false;
    size = some (bytes d.content);
    content = some d.content;
  }

  abbrev pub after_save : Draft → Outcome (Option String) → Handler
  after_save d (returned id) =
      set (λ s. if truthy id then reload_kb s else add_local (draft_doc d) s)
        (set close_draft finally)
  after_save d (thrown e) = finally

  unfoldable pub save_doc : Knowledge → Handler
  save_doc s =
      if (Text.trim s.wd.title == "") || (Text.trim s.wd.content == "")
      then done
      else set (λ t. record t { saving = true })
          (call (λ t. doc_call (Text.append s.wd.title ".md") s.wd.category s.wd.content "inline")
            (after_save s.wd))

  -- A file that the user picked: name, size, text.
  abbrev pub file_doc : String → ℕ → String → Doc
  file_doc name size content = record {
    id = Text.append "local-" now;
    name = name;
    category = "Importado";
    file_ref = some name;
    indexed = false;
    size = some size;
    content = some content;
  }

  -- What runs when the file has been read.
  unfoldable pub import_file : String → ℕ → String → Handler
  import_file name size content =
      set (add_local (file_doc name size content))
        (call (λ s. doc_call name "Importado" content name) (λ o. set reload_kb done))

-- `id.startsWith("local-")` decides where a document is removed.
unfoldable pub del_doc : Doc → Handler
del_doc d =
    if Text.starts_with d.id "local-"
    then set (λ s. record s { local_docs = filter (λ x. not (x.id == d.id)) s.local_docs }) done
    else call (λ s. delete_call (Text.append "/v1/kb-documents/" d.id)) (deleted reload_kb)
