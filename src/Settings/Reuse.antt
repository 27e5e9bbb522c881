-- ===== src/Settings/Reuse.antt =====
-- The connections on the settings page (app/dashboard/app/config/page.tsx): the reuse of one family's
-- connection for another purpose, and the cards of the tab of connections. `lower` is `toLowerCase`.
pub mod Cards
pub mod Laws
use apifor_dev.Common.{
  ℕ, ◌+◌, String, ◌==◌, Bool, false, not, Option, none, some, List, [], ◌∷◌, if◌then◌else◌, default,
}
use apifor_dev.Common.Text
use apifor_dev.Async.{set, returned, done, thrown, call, Outcome, text_or, Script}

pub record Conn : Type 0 where
  pub id : String
  pub kind : String
  pub provider : String
  pub label : Option String
  pub status : String
  pub created : String

unfoldable pub provider_family : String → Option String
provider_family p =
    if Text.starts_with p "github"
    then some "github"
    else if Text.starts_with p "gitlab"
    then some "gitlab"
    else if Text.starts_with p "bitbucket"
    then some "bitbucket"
    else none

-- `conns.find(test)`
abbrev pub find_conn : (Conn → Bool) → List Conn → Option Conn
find_conn p [] = none
find_conn p (c ∷ cs) = if p c then some c else find_conn p cs

abbrev pub is_text : Option String → String → Bool
is_text none s = false
is_text (some t) s = t == s

abbrev pub label_of : Option Conn → Option String
label_of none = none
label_of (some c) = if default "" c.label == "" then none else c.label

unfoldable pub family_identity : List Conn → String → Option String
unfolding provider_family
family_identity conns fam =
    label_of (find_conn (λ c. is_text (provider_family c.provider) fam) conns)

abbrev pub with_id : String → Option String → Option (String × String)
with_id fam none = none
with_id fam (some id) = some (fam, id)

abbrev pub button_of : List Conn → Option String → Option (String × String)
button_of conns none = none
button_of conns (some fam) = with_id fam (family_identity conns fam)

-- The button that reuses a connection: its family and the account that it names.
unfoldable pub reuse_btn : List Conn → String → Option (String × String)
unfolding provider_family
reuse_btn conns provider = button_of conns (provider_family provider)

-- What the handler changes: the toasts, the last one first, and the reloads of the list.
pub record Reusing : Type 0 where
  pub toasts : List String
  pub reloads : ℕ

pub record Request : Type 0 where
  pub family : String
  pub target : String

pub record Verdict : Type 0 where
  pub ok : Option Bool
  pub message : Option String

abbrev pub say : String → Reusing → Reusing
say text s = record s { toasts = text ∷ s.toasts }

-- `r?.ok === false`
abbrev pub denied : Verdict → Bool
denied r = elim r.ok [ none ↦ false | some b ↦ not b ]

unfoldable pub after_reuse : Outcome Verdict → Script Reusing Request Verdict
unfolding text_or
after_reuse (thrown e) = done
after_reuse (returned r) =
    if denied r
    then set (say (text_or r.message "não foi possível reaproveitar")) done
    else set (say "conexão reaproveitada") (set (λ s. record s { reloads = s.reloads + 1 }) done)

unfoldable pub reuse_conn : String → String → Script Reusing Request Verdict
unfolding after_reuse
reuse_conn family target = call (λ s. record { family = family; target = target }) after_reuse
