-- ===== src/Workspace.antt =====
-- The workspace menu of the shell (app/dashboard/app/ui.tsx): the list of the workspaces, the one in
-- use, which the storage keeps under `apifor_wsp`, and the dialog of a new one. The storage can be
-- read; where it refuses a write, the exception is caught and the code goes on.
pub mod Laws
use apifor_dev.Common.{
  ℕ, suc, String, ◌==◌, Bool, true, false, not, Option, none, some, List, [], ◌∷◌, map,
  if◌then◌else◌, default,
}
use apifor_dev.Common.Text
use apifor_dev.Async.{thrown, returned, text_or, Outcome, done, Script, set, call}
use apifor_dev.Session.{truthy, Browser}

pub record Wsp : Type 0 where
  pub id : String
  pub name : String
  pub initial : String

-- `writable` says whether the storage accepts a write. `toasts` are those asked for, the last first; `reloads` counts the reloads of the page, `loads` the
-- calls of `load` that nobody waits for.
pub record Menu : Type 0 where
  pub browser : Browser
  pub writable : Bool
  pub open_menu : Bool
  pub wsps : List Wsp
  pub cur_id : String
  pub role : String
  pub modal : Bool
  pub name : String
  pub saving : Bool
  pub toasts : List (String × String)
  pub reloads : ℕ
  pub loads : ℕ

pub record Call : Type 0 where
  pub method : String
  pub url : String
  pub fields : List (String × String)

-- What the handlers read of an answer.
pub record Answer : Type 0 where
  pub body : Option (List Wsp)
  pub role : Option String
  pub id : Option String
  pub error : Option (Option String)

abbrev pub Handler : Type 0
Handler = Script Menu Call Answer

-- `localStorage.getItem("apifor_wsp") || ""`
unfoldable pub saved : Browser → String
unfolding text_or
saved b = text_or b.wsp ""

-- The menu of a page that has just mounted.
unfoldable pub mounted : Bool → Browser → Menu
unfolding saved
mounted w b = record {
  browser = b;
  writable = w;
  open_menu = false;
  wsps = [];
  cur_id = saved b;
  role = "";
  modal = false;
  name = "";
  saving = false;
  toasts = [];
  reloads = 0;
  loads = 0;
}

-- `try { localStorage.setItem("apifor_wsp", id); } catch {}`
abbrev pub write : String → Bool → Browser → Browser
write id w b = if w then record b { wsp = some id } else b

abbrev pub store : String → Menu → Menu
store id s = record s { browser = write id s.writable s.browser; cur_id = id }

-- The first workspace is taken where none is saved.
abbrev pub choose : List Wsp → Menu → Menu
choose [] s = s
choose (w ∷ ws) s = if s.cur_id == "" then store w.id s else s

abbrev pub listed : Outcome Answer → Handler
listed (returned r) =
    set (λ s. choose (default [] r.body) (record s { wsps = default [] r.body })) done
listed (thrown e) = done

abbrev pub named : Outcome Answer → Handler
named (returned r) = set (λ s. record s { role = text_or r.role "" }) done
named (thrown e) = done

-- The two halves of `load`.
unfoldable pub load_list : Handler
load_list = call (λ s. record { method = "GET"; url = "/v1/workspaces"; fields = [] }) listed

unfoldable pub load_role : Handler
load_role = call (λ s. record { method = "GET"; url = "/v1/me"; fields = [] }) named

unfoldable pub switch_wsp : String → Menu → Menu
switch_wsp id s = let t = store id s in record t { open_menu = false; reloads = suc s.reloads }

unfoldable pub toggle_menu : Menu → Menu
toggle_menu s = record s { open_menu = not s.open_menu }

-- A click outside the open menu.
unfoldable pub close_menu : Menu → Menu
close_menu s = record s { open_menu = false }

unfoldable pub close_modal : Menu → Menu
close_modal s = record s { modal = false }

unfoldable pub open_modal : Menu → Menu
open_modal s = record s { open_menu = false; name = ""; modal = true }

abbrev say : String → String → Menu → Menu
say text kind s = record s { toasts = (text, kind) ∷ s.toasts }

abbrev finally : Handler
finally = set (λ s. record s { saving = false }) done

abbrev pub failure : String
failure = "Erro ao criar workspace"

abbrev entered : String → Menu → Menu
entered id s =
    let t = say "Workspace criado com sucesso!" "success" (store id s) in
    record t { modal = false; loads = suc s.loads; reloads = suc s.reloads }

abbrev pub after_create : Outcome Answer → Handler
after_create (returned r) =
    if truthy r.id
    then set (entered (default "" r.id)) finally
    else set (say (text_or (default none r.error) failure) "error") finally
after_create (thrown e) = set (say failure "error") finally

abbrev pub create_call : Menu → Call
create_call s = record {
  method = "POST";
  url = "/v1/workspaces";
  fields = ("name", Text.trim s.name) ∷ [];
}

unfoldable pub create_wsp : Menu → Handler
create_wsp s =
    if Text.trim s.name == ""
    then done
    else set (λ t. record t { saving = true }) (call (λ t. create_call s) after_create)

-- `wsps.find((w) => w.id === curId)`
abbrev pub find : String → List Wsp → Option Wsp
find id [] = none
find id (w ∷ ws) = if w.id == id then some w else find id ws

abbrev pub head_of : List Wsp → Option Wsp
head_of [] = none
head_of (w ∷ ws) = some w

abbrev pub found_or : Option Wsp → List Wsp → Option Wsp
found_or none ws = head_of ws
found_or (some w) ws = some w

-- `cur`: the workspace found, or the first.
unfoldable pub cur : Menu → Option Wsp
cur s = found_or (find s.cur_id s.wsps) s.wsps

-- `cur?.name || "Principal"`
abbrev pub name_of : Option Wsp → String
name_of none = "Principal"
name_of (some w) = if w.name == "" then "Principal" else w.name

-- The name on the button, and the lines of the open menu, one of which may be ticked.
unfoldable pub title : Menu → String
unfolding cur
title s = name_of (cur s)

unfoldable pub lines : Menu → List (String × Bool)
lines s = map (λ w. (w.name, w.id == s.cur_id)) s.wsps
