-- ===== src/Notifications.antt =====
-- The menu of the notifications (`NotifMenu` in app/dashboard/app/ui.tsx): opening it and the call
-- behind, marking as read, and the number on the bell. The dates of the stand-in notifications read
-- the clock, a parameter.
pub mod Laws
use apifor_dev.Common.{
  ℕ, ◌*◌, ◌/◌, String, ◌==◌, Bool, true, false, ◌&&◌, not, Option, none, some, List, [], ◌∷◌, map,
  ltb, nat_eq, if◌then◌else◌, length, any, count,
}
use apifor_dev.Common.Text
use apifor_dev.Async.{thrown, call, done, returned, set, Outcome, Script}

pub record Notif : Type 0 where
  pub id : String
  pub kind : String
  pub title : String
  pub body : String
  pub read : Bool
  pub created_at : String

-- The seconds since a date as a short text.
unfoldable pub time_ago : (ℕ → String) → ℕ → String
time_ago print s =
    if ltb s 60
    then "agora"
    else if ltb s 3600
    then Text.append (print (s / 60)) "m"
    else if ltb s 86400
    then Text.append (print (s / 3600)) "h"
    else Text.append (print (s / 86400)) "d"

-- What the menu shows when the server has nothing; `ago` gives the date of that many milliseconds
-- ago.
unfoldable pub notif_mock : (ℕ → String) → List Notif
notif_mock ago =
    record {
      id = "n1";
      kind = "pr_merged";
      title = "PR mergeado";
      body = "feat/workers-pinned → main · #44";
      read = false;
      created_at = ago (18 * 60000);
    }
    ∷ record {
      id = "n2";
      kind = "task_done";
      title = "Tarefa concluída";
      body = "fix: auth middleware token expiry check";
      read = false;
      created_at = ago (55 * 60000);
    }
    ∷ record {
      id = "n3";
      kind = "worker_error";
      title = "Worker interrompido";
      body = "Conflito em migração 0042_alter_invoice";
      read = false;
      created_at = ago (2 * 3600000);
    }
    ∷ record {
      id = "n4";
      kind = "info";
      title = "Plano atualizado";
      body = "Conta migrada para o plano Pro com sucesso.";
      read = true;
      created_at = ago (24 * 3600000);
    }
    ∷ record {
      id = "n5";
      kind = "task_done";
      title = "Tarefa concluída";
      body = "feat: config do pool funcional (liga/desliga)";
      read = true;
      created_at = ago (2 * 86400000);
    }
    ∷ []

-- The two colours of a kind, by the table `NOTIF_COLOR`.
unfoldable pub notif_color : List (String × (String × String))
notif_color =
    ("pr_merged", ("var(--blue)", "rgba(88,166,255,.12)"))
    ∷ ("task_done", ("var(--green)", "var(--green-tint)"))
    ∷ ("worker_error", ("var(--red)", "var(--red-tint)"))
    ∷ ("info", ("var(--accent)", "var(--accent-tint)"))
    ∷ []

pub record Menu : Type 0 where
  pub open? : Bool
  pub notifs : List Notif
  pub loading : Bool

unfoldable pub unread : List Notif → ℕ
unread ns = count (λ n. not n.read) ns

-- The number on the bell; `from_stream` is the server's count of the unread.
unfoldable pub unread_count : ℕ → Menu → ℕ
unfolding unread
unread_count from_stream m =
    if nat_eq (unread m.notifs) 0 then if m.open? then 0 else from_stream else unread m.notifs

-- The text on the bell, if there is one.
unfoldable pub bell : (ℕ → String) → ℕ → Menu → Option String
unfolding unread_count
bell print from_stream m =
    let n = unread_count from_stream m in
    if ltb 0 n then some (if ltb 9 n then "9+" else print n) else none

pub data Call : Type 0 where
  get_notifications get_mark_read : Call

-- The answer to a call: the field `data`, where there is one.
abbrev pub Answer : Type 0
Answer = Option (List Notif)

unfoldable pub close : Menu → Menu
close m = record m { open? = false }

abbrev pub mark : Notif → Notif
mark n = record n { read = true }

unfoldable pub mark_all : Script Menu Call Answer
mark_all =
    set (λ m. record m { notifs = map mark m.notifs }) (call (λ m. get_mark_read) (λ o. done))

unfoldable pub mark_one : String → Menu → Menu
mark_one id m = record m { notifs = map (λ n. if n.id == id then mark n else n) m.notifs }

module _ (ago : ℕ → String) where
  abbrev pub or_mock : List Notif → List Notif
  or_mock [] = notif_mock ago
  or_mock (n ∷ ns) = n ∷ ns

  -- What the answer leaves in the menu.
  abbrev pub received : Outcome Answer → List Notif
  received (returned none) = notif_mock ago
  received (returned (some ns)) = or_mock ns
  received (thrown e) = notif_mock ago

  unfoldable pub open_menu : Menu → Script Menu Call Answer
  open_menu m =
      set (λ s. record s { open? = true })
        (if ltb 0 (length m.notifs)
          then done
          else set (λ s. record s { loading = true })
              (call (λ s. get_notifications)
                (λ o.
                  set (λ s. record s { notifs = received o })
                    (set (λ s. record s { loading = false }) done))))

  -- A click on the bell.
  unfoldable pub on_bell : Menu → Script Menu Call Answer
  unfolding open_menu close
  on_bell m = if m.open? then set close done else open_menu m

-- One line of the panel.
pub record Line : Type 0 where
  pub title : String
  pub body : String
  pub age : String
  pub colours : String × String
  pub dot : Bool

-- The panel of an open menu: the button that marks all, the two notices, and the lines.
pub record Panel : Type 0 where
  pub can_mark_all : Bool
  pub loading : Bool
  pub empty : Bool
  pub lines : List Line

abbrev colours_in : List (String × (String × String)) → String → String × String
colours_in [] k = ("var(--accent)", "var(--accent-tint)")
colours_in ((j, c) ∷ cs) k = if j == k then c else colours_in cs k

module _ (age : String → String) where
  unfoldable pub line : Notif → Line
  unfolding notif_color
  line n = record {
    title = n.title;
    body = n.body;
    age = age n.created_at;
    colours = colours_in notif_color n.kind;
    dot = not n.read;
  }

  unfoldable pub panel : Menu → Option Panel
  unfolding line
  panel m =
      if m.open?
      then some (record {
        can_mark_all = any (λ n. not n.read) m.notifs;
        loading = m.loading;
        empty = not m.loading && nat_eq (length m.notifs) 0;
        lines = if m.loading then [] else map line m.notifs;
      })
      else none
