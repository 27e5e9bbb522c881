-- ===== src/Org.antt =====
-- The page of the organisation (app/dashboard/app/org/page.tsx): its members, their roles, and the
-- invites of this visit. `toLowerCase` and `toUpperCase` are parameters.
pub mod Ids
pub mod Screen
pub mod Laws
use apifor_dev.Common.{
  ℕ, suc, String, ◌==◌, Bool, true, false, ◌||◌, not, Option, none, some, List, [], ◌∷◌,
  if◌then◌else◌, default, take, filter, count,
}
use apifor_dev.Common.Text
use apifor_dev.Async.{thrown, returned, text_or, Script, Outcome, done, call, set}
use apifor_dev.Paging.{rows}

pub record Member : Type 0 where
  pub id : String
  pub email : String
  pub name : Option String
  pub role : String

pub record Invite : Type 0 where
  pub email : String
  pub by : String
  pub sent : String
  pub role : String

-- `me`, as far as the page reads it.
pub record Me : Type 0 where
  pub org_id : Option String
  pub role : String

pub record Form : Type 0 where
  pub email : String
  pub password : String
  pub role : String

abbrev pub blank_form : Form
blank_form = record { email = ""; password = ""; role = "member" }

-- `loads` counts the calls of `load` that nobody waits for.
pub record Org : Type 0 where
  pub me : Option Me
  pub members : List Member
  pub pending : List Invite
  pub q : String
  pub rf : String
  pub page : ℕ
  pub invite_open : Bool
  pub inv : Form
  pub inviting : Bool
  pub menu_member : Option String
  pub loads : ℕ

pub record Call : Type 0 where
  pub method : String
  pub url : String
  pub fields : List (String × String)

abbrev pub Handler : Type 0
Handler = Script Org Call Unit

abbrev pub manages : Option Me → Bool
manages none = false
manages (some m) = (m.role == "owner") || (m.role == "admin")

-- The button that opens the invitation is there only then.
unfoldable pub can_manage : Org → Bool
can_manage s = manages s.me

unfoldable pub admins : Org → ℕ
admins s = count (λ m. (m.role == "owner") || (m.role == "admin")) s.members

-- The password that an invite without one is sent with.
abbrev pub default_password : String
default_password = "invite-pending"

abbrev pub invite_call : Form → Call
invite_call f = record {
  method = "POST";
  url = "/v1/members";
  fields =
      ("email", f.email)
      ∷ ("password", if f.password == "" then default_password else f.password)
      ∷ ("role", f.role)
      ∷ [];
}

-- `me?.org_id?.slice(0, 8) || "você"`
abbrev pub inviter : Option Me → String
inviter none = "você"
inviter (some m) = text_or (some (Text.take 8 (default "" m.org_id))) "você"

abbrev pub invite_of : Org → Invite
invite_of s = record { email = s.inv.email; by = inviter s.me; sent = "agora"; role = s.inv.role }

abbrev reload : Org → Org
reload s = record s { loads = suc s.loads }

abbrev finally : Handler
finally = set (λ s. record s { inviting = false }) done

abbrev pub after_invite : Invite → Outcome Unit → Handler
after_invite i (returned r) =
    set (λ s. record s { pending = i ∷ s.pending })
      (set (λ s. record s { inv = blank_form; invite_open = false }) (set reload finally))
after_invite i (thrown e) = finally

unfoldable pub invite : Org → Handler
invite s =
    if s.inv.email == ""
    then done
    else set (λ t. record t { inviting = true })
        (call (λ t. invite_call s.inv) (after_invite (invite_of s)))

abbrev removed : Outcome Unit → Handler
removed (returned r) = set (λ s. record s { menu_member = none }) (set reload done)
removed (thrown e) = done

unfoldable pub remove_member : String → Handler
remove_member id =
    call (λ s. record { method = "DELETE"; url = Text.append "/v1/members/" id; fields = [] })
      removed

unfoldable pub cancel_invite : String → Org → Org
cancel_invite email s = record s { pending = filter (λ i. not (i.email == email)) s.pending }

unfoldable pub resend_invite : String → Org → Org
resend_invite email s = s

module _ (lower : String → String) where
  unfoldable pub found_by : String → Member → Bool
  found_by q m =
      (q == "")
      || Text.includes (lower m.email) (lower q)
      || Text.includes (lower (default "" m.name)) (lower q)

  unfoldable pub filtered : Org → List Member
  unfolding found_by
  filtered s = filter (found_by s.q) (filter (λ m. (s.rf == "todos") || (m.role == s.rf)) s.members)

  -- The members shown, eight on a page.
  unfoldable pub table : Org → List Member
  unfolding filtered rows
  table s = rows 8 s.page (filtered s)
