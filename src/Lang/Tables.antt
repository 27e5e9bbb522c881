-- ===== src/Lang/Tables.antt =====
-- The tables of texts of app/dashboard/app/ui.tsx: the shell's strings in two languages, the English
-- labels of the navigation, and the dictionary of the pages' contents.
use apifor_dev.Common.{String, List, [], ◌∷◌}

-- The shell's strings in Portuguese and in English.
unfoldable pub shell_pt : List (String × String)
shell_pt =
    ("search", "Buscar…")
    ∷ ("op", "Operação")
    ∷ ("sys", "Conhecimento & sistema")
    ∷ ("acct", "Conta & cobrança")
    ∷ ("wsp", "workspace")
    ∷ ("pool", "Pool ok")
    ∷ ("newWsp", "Novo workspace")
    ∷ ("noRes", "Nenhum resultado")
    ∷ ("cmdHint", "navegar")
    ∷ []

unfoldable pub shell_en : List (String × String)
shell_en =
    ("search", "Search…")
    ∷ ("op", "Operations")
    ∷ ("sys", "Knowledge & system")
    ∷ ("acct", "Account & billing")
    ∷ ("wsp", "workspace")
    ∷ ("pool", "Pool ok")
    ∷ ("newWsp", "New workspace")
    ∷ ("noRes", "No results")
    ∷ ("cmdHint", "navigate")
    ∷ []

-- The English label of each place of the navigation.
unfoldable pub en_label : List (String × String)
en_label =
    ("/", "Dashboard")
    ∷ ("/live", "Live")
    ∷ ("/queue", "Queue")
    ∷ ("/tasks", "Tasks")
    ∷ ("/prs", "Pull Requests")
    ∷ ("/interventions", "Intervention")
    ∷ ("/ci", "CI")
    ∷ ("/qa", "QA")
    ∷ ("/routines", "Routines")
    ∷ ("/telemetry", "Telemetry")
    ∷ ("/knowledge", "Knowledge")
    ∷ ("/logs", "Logs")
    ∷ ("/config", "Settings")
    ∷ ("/audit", "Audit")
    ∷ ("/org", "Organization")
    ∷ ("/usage", "Usage")
    ∷ ("/invoices", "Invoices")
    ∷ ("/pricing", "Plans")
    ∷ ("/web", "Web")
    ∷ ("/cloud", "Cloud")
    ∷ ("/conta", "Account")
    ∷ ("/ajuda", "Help")
    ∷ []
