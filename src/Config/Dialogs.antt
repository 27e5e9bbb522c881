-- ===== src/Config/Dialogs.antt =====
-- What the connection dialogs show (app/dashboard/app/config/page.tsx): the title, the footer, the
-- panel of GitHub's authorisation, the fields and the verdict on a test. Fixed explanations and
-- placeholders are left out, but for the notes that differ by provider.
use apifor_dev.Common.{
  String, ◌==◌, ◌⊎◌, inl, inr, Bool, true, false, ◌&&◌, ◌||◌, not, Option, none, some, List, [],
  ◌∷◌, ◌++◌, map, if◌then◌else◌, default, is_some, filter,
}
use apifor_dev.Common.Text
use apifor_dev.Config.Integrations.{
  site, email, project, field, username, fields_of, token, IntField, int_ready,
}
use apifor_dev.Config.{blank, GhFlow, TaskFields, Test, Config}
use apifor_dev.Config.Buttons.{git_lacks, task_ready, no_test}
use apifor_dev.Settings.Reuse.Cards.{task_providers, int_providers}
use apifor_dev.Config.Uri.{without_first}

-- A button: its text, and whether it takes the pointer.
pub record Button : Type 0 where
  pub label : String
  pub on : Bool

-- The panel of the authorisation: before GitHub's code, or with it.
pub data Panel : Type 0 where
  start : String → Option Button → Panel
  enter : String → (String → (String → Panel))

unfoldable pub panel : GhFlow → Panel
panel g = elim g.device [
  | none ↦ start g.err (
      if g.status == "pending"
      then none
      else some (record {
        label = if g.starting then "Iniciando…" else "Autorizar com GitHub";
        on = not g.starting;
      }))
  | some d ↦
      enter (without_first "https://" d.verification_uri) d.user_code
        (if g.status == "pending" then "aguardando autorização no GitHub…" else g.status)
]

-- An input: its label and its value.
abbrev pub Field : Type 0
Field = String × String

-- The part of a dialog below the pills: the panel, or the fields with the test and its verdict.
pub record Form : Type 0 where
  pub fields : List Field
  pub token : Field
  pub test : Option Button
  pub verdict : Option Test

pub record Dialog : Type 0 where
  pub title : String
  pub pills : Option (List (String × Bool))
  pub body : Panel ⊎ Form
  pub close : String
  pub connect : Option Button

abbrev pub method_pills : Bool → List (String × Bool)
method_pills by_token = ("OAuth", not by_token) ∷ ("Token", by_token) ∷ []

-- A dialog, in its two shapes.
abbrev pub dialog : String → Bool → GhFlow → Button → Form → Dialog
dialog title has_oauth g connect form =
    let oauth = has_oauth && not g.by_token in
    record {
      title = Text.append "Conectar " title;
      pills = if has_oauth then some (method_pills g.by_token) else none;
      body = if oauth then inl (panel g) else inr form;
      close = if oauth then "Fechar" else "Cancelar";
      connect = if oauth then none else some connect;
    }

abbrev pub connect_button : Bool → Bool → Button
connect_button busy off = record {
  label = if busy then "Conectando…" else "Conectar";
  on = not (busy || off);
}

abbrev pub test_button : Bool → Bool → Button
test_button testing off = record {
  label = if testing then "Testando…" else "Testar";
  on = not (testing || off);
}

abbrev pub git_title : String → String
git_title key =
    if key == "github" then "GitHub" else if key == "gitlab" then "GitLab" else "Bitbucket"

unfoldable pub git_dialog : String → Config → Dialog
unfolding panel
git_dialog key c =
    dialog (git_title key) (key == "github") c.gh (connect_button c.git.busy (git_lacks c.git))
      (record {
        fields = if key == "bitbucket" then ("Usuário Bitbucket", c.git.user) ∷ [] else [];
        token =
            (if key == "bitbucket" then "App password" else "Personal access token", c.git.token);
        test = some (test_button c.git.testing (blank c.git.token));
        verdict = c.git.test;
      })

abbrev pub is_atlassian : String → Bool
is_atlassian key = (key == "jira") || (key == "atlassian_goals")

abbrev pub task_fields : String → TaskFields → List Field
task_fields key f =
    if is_atlassian key
    then ("Site Atlassian", f.site) ∷ ("E-mail", f.email) ∷ []
    else if key == "bitbucket"
    then ("Usuário Bitbucket", f.username) ∷ []
    else if key == "trello"
    then ("API key", f.key) ∷ []
    else []

abbrev pub task_token_label : String → String
task_token_label key =
    if is_atlassian key
    then "API token"
    else if key == "trello"
    then "Token"
    else if key == "bitbucket"
    then "App password"
    else "Personal access token"

abbrev pub title_in : String → List (String × String) → String
title_in key [] = ""
title_in key ((k, t) ∷ m) = if k == key then t else title_in key m

unfoldable pub task_dialog : String → Config → Dialog
unfolding panel task_ready
task_dialog key c =
    let off = not (task_ready key c.task.f) in
    dialog (title_in key task_providers) (key == "github") c.gh (connect_button c.task.busy off)
      (record {
        fields = task_fields key c.task.f;
        token = (task_token_label key, c.task.f.token);
        test = some (test_button c.task.testing off);
        verdict = c.task.test;
      })

-- The purpose of GitHub's authorisation for an integration, from the table `INT_META`.
abbrev pub oauth_of : String → Option String
oauth_of key =
    if key == "github_actions"
    then some "ci"
    else if key == "github_wiki"
    then some "docs"
    else none

abbrev pub field_label : IntField → String
field_label token = "Token"
field_label username = "Usuário"
field_label project = "Project ID"
field_label email = "E-mail"
field_label site = "Site"

abbrev pub is_token : IntField → Bool
is_token token = true
is_token _ = false

abbrev pub int_titles : List (String × String)
int_titles = int_providers "ci" ++ (int_providers "observ" ++ int_providers "docs")

unfoldable pub int_dialog : String → String → Config → Dialog
unfolding panel int_ready fields_of
int_dialog token_label key c =
    let off = not (int_ready key c.int.f) in
    dialog (title_in key int_titles) (is_some (oauth_of key)) c.gh (connect_button c.int.busy off)
      (record {
        fields =
            map (λ x. (field_label x, field c.int.f x))
              (filter (λ x. not (is_token x)) (default [] (fields_of key)));
        token = (token_label, c.int.f.token);
        test = if no_test key then none else some (test_button c.int.testing off);
        verdict = c.int.test;
      })

-- The note below the fields of an integration ends so.
unfoldable pub int_note : String → String
int_note key = if no_test key then " A record key do Cypress não é validada online." else ""

-- The dialog of the subscription, in its two steps.
pub record Subscription : Type 0 where
  pub err : String
  pub link : Option String
  pub code : Option String
  pub confirm : Button

unfoldable pub subscription : Config → Subscription
subscription c =
    if c.ia.await_code
    then record {
      err = c.ia.err;
      link = some c.ia.url;
      code = some c.ia.code;
      confirm = record {
        label = if c.ia.busy then "Verificando…" else "Confirmar";
        on = not (c.ia.busy || blank c.ia.code);
      };
    }
    else record {
      err = c.ia.err;
      link = none;
      code = none;
      confirm = record {
        label = if c.ia.busy then "Abrindo…" else "Autorizar com Claude";
        on = not c.ia.busy;
      };
    }

-- The dialog of the key.
pub record KeyDialog : Type 0 where
  pub api_key : String
  pub test : Button
  pub verdict : Option Test
  pub save : Button

unfoldable pub key_dialog : Config → KeyDialog
key_dialog c = record {
  api_key = c.ia.api_key;
  test = test_button c.ia.testing (blank c.ia.api_key);
  verdict = c.ia.test;
  save = record {
    label = if c.ia.busy then "Salvando…" else "Salvar";
    on = not (c.ia.busy || blank c.ia.api_key);
  };
}
