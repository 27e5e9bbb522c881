-- ===== src/Org/Screen.antt =====
-- What the organisation page shows, and the controls that call nothing
-- (app/dashboard/app/org/page.tsx). `t` translates, `upper` is `toUpperCase`, `write` prints a number.
use apifor_dev.Common.{
  ℕ, ◌+◌, ◌%◌, String, ◌==◌, Bool, true, false, ◌&&◌, ◌||◌, not, Option, none, some, List, [], ◌∷◌,
  map, ltb, nat_eq, if◌then◌else◌, default, length,
}
use apifor_dev.Common.Text
use apifor_dev.Paging.{next_page, total_pages, prev_page}
use apifor_dev.Org.{filtered, Member, table, Invite, admins, Org, can_manage}
use apifor_dev.Org.Ids.{last_code, sum_codes, first_code}
use apifor_dev.Queue.{pager, Pager}
use apifor_dev.Async.{text_or}

abbrev pub role_filter : List (String × (String × String))
role_filter =
    ("todos", ("Todos", "All"))
    ∷ ("admin", ("Admin", "Admin"))
    ∷ ("member", ("Editor", "Editor"))
    ∷ ("billing", ("Serviço", "Service"))
    ∷ ("viewer", ("Leitor", "Reader"))
    ∷ []

abbrev pub label_in : String → List (String × (String × String)) → String × String
label_in role [] = (role, role)
label_in role ((k, l) ∷ m) = if k == role then l else label_in role m

abbrev pub role_color : String → String × String
role_color role =
    if (role == "owner") || (role == "admin")
    then ("var(--accent)", "var(--accent-tint)")
    else if role == "member"
    then ("var(--blue)", "var(--blue-tint,rgba(88,166,255,.12))")
    else if role == "billing"
    then ("var(--green)", "var(--green-tint)")
    else ("var(--mute)", "var(--elev)")

unfoldable pub av_color : String → String
av_color id =
    let n = sum_codes id % 5 in
    if nat_eq n 0
    then "var(--blue)"
    else if nat_eq n 1
    then "var(--green)"
    else if nat_eq n 2
    then "var(--orange)"
    else if nat_eq n 3
    then "var(--accent)"
    else "var(--red)"

unfoldable pub is_online : String → Bool
is_online id = not (nat_eq (last_code id % 3) 0)

-- The workspace that the banner names: the first of the list.
pub record Workspace : Type 0 where
  pub name : String
  pub initial : String

abbrev pub first_name : List Workspace → String
first_name [] = "workspace"
first_name (w ∷ ws) = if w.name == "" then "workspace" else w.name

abbrev pub first_initial : List Workspace → String
first_initial [] = ""
first_initial (w ∷ ws) = w.initial

abbrev pub before_at : String → String
before_at email = elim (Text.split b'@' email) [ [] ↦ email | x ∷ xs ↦ x ]

-- The controls that call nothing.
pub data Click : Type 0 where
  set_q set_email set_password set_role : String → Click
  by_role menu : String → Click
  prev next open_invite close_invite close_menu : Click

abbrev pub toggled : String → Option String → Option String
toggled id none = some id
toggled id (some j) = if j == id then none else some id

module _ (lower : String → String) where
  unfoldable pub pages : Org → ℕ
  unfolding total_pages filtered
  pages s = total_pages 8 (length (filtered lower s))

  unfoldable pub click : Click → Org → Org
  unfolding pages prev_page next_page
  click (set_q v) s = record s { q = v; page = 0 }
  click (by_role r) s = record s { rf = r; page = 0 }
  click prev s = record s { page = prev_page s.page }
  click next s = record s { page = next_page (pages s) s.page }
  click open_invite s = record s { invite_open = true }
  click close_invite s = record s { invite_open = false }
  click (set_email v) s = record s { inv = record s.inv { email = v } }
  click (set_password v) s = record s { inv = record s.inv { password = v } }
  click (set_role v) s = record s { inv = record s.inv { role = v } }
  click (menu id) s = record s { menu_member = toggled id s.menu_member }
  click close_menu s = record s { menu_member = none }

pub record Row : Type 0 where
  pub initials : String
  pub color : String
  pub name : String
  pub email : String
  pub role : String × (String × String)
  pub online : Bool
  pub activity : String
  -- The entries of the row's menu where it is open.
  pub menu : Option (List String)

pub record PendingLine : Type 0 where
  pub initial : String
  pub email : String
  pub by : String
  pub role : String × (String × String)

pub record Banner : Type 0 where
  pub initial : String
  pub title : String
  pub org : String
  pub stats : List (String × String)

pub record Screen : Type 0 where
  pub invite_button : Bool
  pub banner : Banner
  pub roles : List (String × Bool)
  pub rows : List Row
  pub empty : Bool
  pub pager : Option Pager
  pub pending : List PendingLine
  pub send : Option (String × Bool)

module _ (t : String → String → String) (upper : String → String) (write : ℕ → String) where
  abbrev pub role_pill : String → String × (String × String)
  role_pill role = let l = label_in role role_filter in (t l.0 l.1, role_color role)

  -- The activity of a member, which is made up from the id.
  unfoldable pub activity : String → String
  unfolding is_online
  activity id =
      let h = first_code id % 12 + 1 in
      if is_online id
      then t "agora" "now"
      else if ltb h 2
      then t "1h atrás" "1h ago"
      else t (Text.append (write h) "h atrás") (Text.append (write h) "h ago")

  -- The menu of a member: the removal is offered to who manages, but not of an owner.
  abbrev pub menu_of : Org → Member → List String
  menu_of s m =
      t "Alterar papel" "Change role"
      ∷ (if can_manage s && not (m.role == "owner") then t "Remover" "Remove" ∷ [] else [])

  abbrev pub open_menu : Org → Member → Option (List String)
  open_menu s m = if default "" s.menu_member == m.id then some (menu_of s m) else none

  unfoldable pub row : Org → Member → Row
  unfolding av_color is_online activity can_manage
  row s m = record {
    initials = upper (Text.take 2 (text_or m.name m.email));
    color = av_color m.id;
    name = text_or m.name (before_at m.email);
    email = m.email;
    role = role_pill m.role;
    online = is_online m.id;
    activity = activity m.id;
    menu = open_menu s m;
  }

  unfoldable pub pending_line : Invite → PendingLine
  pending_line i = record {
    initial = upper (Text.take 1 i.email);
    email = i.email;
    by =
        Text.append (t "Convidado por" "Invited by")
          (Text.append " " (Text.append i.by (Text.append " · " (t i.sent "now"))));
    role = role_pill i.role;
  }

  unfoldable pub banner : List Workspace → Org → Banner
  unfolding admins
  banner ws s = record {
    initial =
        upper (if first_initial ws == "" then Text.take 2 (first_name ws) else first_initial ws);
    title = Text.append "ApiFor — " (first_name ws);
    org = elim s.me [ none ↦ "—" | some m ↦ text_or m.org_id "—" ];
    stats =
        (write (length s.members), t "Membros" "Members")
        ∷ (write (admins s), t "Admins" "Admins")
        ∷ (write (length s.pending), t "Convites" "Invites")
        ∷ (Text.append (write (length s.members)) "/5", t "Assentos" "Seats")
        ∷ [];
  }

  unfoldable pub screen : (String → String) → List Workspace → Org → Screen
  unfolding can_manage banner table row pending_line pager pages
  screen lower ws s = record {
    invite_button = can_manage s;
    banner = banner ws s;
    roles = map (λ (r : String × (String × String)). (t r.1.0 r.1.1, s.rf == r.0)) role_filter;
    rows = map (row s) (table lower s);
    empty = nat_eq (length (table lower s)) 0;
    pager = pager (pages lower s) s.page;
    pending = map pending_line s.pending;
    send =
        if s.invite_open
        then some (
          if s.inviting then t "Convidando…" "Sending…" else t "Enviar convite" "Send invite",
          not s.inviting,
        )
        else none;
  }
