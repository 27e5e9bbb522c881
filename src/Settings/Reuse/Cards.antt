-- ===== src/Settings/Reuse/Cards.antt =====
-- The cards of the tab of connections (app/dashboard/app/config/page.tsx), one for each provider, and
-- the list of all connections, which no pill of the tab leads to.
use apifor_dev.Common.{
  String, ◌==◌, Bool, false, ◌&&◌, Option, none, some, List, [], ◌∷◌, map, if◌then◌else◌, is_some,
  filter,
}
use apifor_dev.Common.Text
use apifor_dev.Settings.Reuse.{find_conn, reuse_btn, Conn}

pub record Card : Type 0 where
  pub key : String
  pub title : String
  pub active : Bool
  pub reuse : Option (String × String)
  pub action : String

abbrev pub conn_tabs : List (String × String)
conn_tabs =
    ("codigo", "Código")
    ∷ ("tarefas", "Fonte de tarefas")
    ∷ ("ci", "CI remoto")
    ∷ ("observ", "Observabilidade")
    ∷ ("docs", "Documentação")
    ∷ ("ia", "Motor de IA")
    ∷ []

abbrev pub code_providers : List (String × String)
code_providers = ("github", "GitHub") ∷ ("gitlab", "GitLab") ∷ ("bitbucket", "Bitbucket") ∷ []

abbrev pub task_providers : List (String × String)
task_providers =
    ("github", "GitHub Issues & PRs")
    ∷ ("gitlab", "GitLab Issues & MRs")
    ∷ ("bitbucket", "Bitbucket Issues & PRs")
    ∷ ("jira", "Jira")
    ∷ ("atlassian_goals", "Atlassian Goals")
    ∷ ("trello", "Trello")
    ∷ []

-- The providers of an integration tab, with their titles of the table `INT_META`.
abbrev pub int_providers : String → List (String × String)
int_providers tab =
    if tab == "ci"
    then ("cypress", "Cypress Cloud")
      ∷ ("github_actions", "GitHub Actions")
      ∷ ("gitlab_ci", "GitLab CI")
      ∷ ("bitbucket_pipelines", "Bitbucket Pipelines")
      ∷ []
    else if tab == "observ"
    then ("sonarcloud", "SonarCloud") ∷ ("sentry", "Sentry") ∷ ("playwright", "Playwright") ∷ []
    else ("confluence", "Confluence") ∷ ("github_wiki", "GitHub Wiki") ∷ ("notion", "Notion") ∷ []

-- The type of the connections of an integration tab.
abbrev pub int_type : String → String
int_type tab = if tab == "ci" then "ci" else if tab == "observ" then "observability" else "docs"

-- `!!conns.find((x) => x.type === kind && x.provider === key)`
unfoldable pub is_active : List Conn → String → String → Bool
is_active conns kind key = is_some (find_conn (λ c. (c.kind == kind) && (c.provider == key)) conns)

unfoldable pub card : List Conn → String → String × String → Card
unfolding is_active reuse_btn
card conns kind p =
    let on = is_active conns kind p.0 in
    record {
      key = p.0;
      title = p.1;
      active = on;
      reuse = if on then none else reuse_btn conns p.0;
      action = if on then "Reconectar" else "Conectar";
    }

unfoldable pub code_cards : List Conn → List Card
unfolding card
code_cards conns = map (card conns "code") code_providers

unfoldable pub task_cards : List Conn → List Card
unfolding card
task_cards conns = map (card conns "tasks") task_providers

unfoldable pub int_cards : List Conn → String → List Card
unfolding card
int_cards conns tab = map (card conns (int_type tab)) (int_providers tab)

-- The two ways to the model provider: one is in use if the first connection of that type says so.
abbrev pub engine : List Conn → Option Conn
engine conns = find_conn (λ c. c.kind == "ai_engine") conns

abbrev pub mentions : (String → String) → String → Option Conn → Bool
mentions lower word none = false
mentions lower word (some c) = Text.includes (lower c.provider) word

unfoldable pub ia_cards : (String → String) → List Conn → List Card
ia_cards lower conns =
    map
      (λ (p : String × (String × String)).
        let on = mentions lower p.1.1 (engine conns) in
        record {
          key = p.0;
          title = p.1.0;
          active = on;
          reuse = none;
          action = if on then "Reconectar" else "Conectar";
        })
      (("subscription", ("Assinatura Claude", "assinatura"))
        ∷ ("api", ("API Anthropic", "api"))
        ∷ [])

-- `codeConns`: the sources of code that a repository can be taken from.
unfoldable pub code_conns : List Conn → List Conn
code_conns conns = filter (λ c. (c.kind == "code") && (c.status == "ok")) conns
