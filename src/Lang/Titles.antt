-- ===== src/Lang/Titles.antt =====
-- The first half of the dictionary from Portuguese to English of app/dashboard/app/ui.tsx.
use apifor_dev.Common.{String, List, [], ◌∷◌}

unfoldable pub titles : List (String × String)
titles =
    ("Fila", "Queue")
    ∷ ("Tarefas", "Tasks")
    ∷ ("Intervenção", "Intervention")
    ∷ ("Rotinas", "Routines")
    ∷ ("Telemetria", "Telemetry")
    ∷ ("Conhecimento", "Knowledge")
    ∷ ("Configuração", "Settings")
    ∷ ("Auditoria", "Audit")
    ∷ ("Organização", "Organization")
    ∷ ("Uso", "Usage")
    ∷ ("Faturas", "Invoices")
    ∷ ("Planos", "Plans")
    ∷ ("Conta", "Account")
    ∷ ("Ajuda", "Help")
    ∷ ("Notificações", "Notifications")
    ∷ ("Bem-vindo ao apifor.dev", "Welcome to apifor.dev")
    ∷ ("Web & API", "Web & API")
    ∷ ("Operação", "Operations")
    ∷ ("Sistema", "System")
    ∷ ("Conhecimento & sistema", "Knowledge & system")
    ∷ ("Conta & cobrança", "Account & billing")
    ∷ ("Estados das tarefas e reprocessamento.", "Task states and reprocessing.")
    ∷ ("Crie e acompanhe as tarefas dos workers.", "Create and track worker tasks.")
    ∷ ("Status de revisão e CI, com links pro GitHub.", "Review and CI status, with GitHub links.")
    ∷ (
      "Integração contínua — execuções de build/teste.",
      "Continuous integration — build/test runs.",
    )
    ∷ ("Relatórios de teste por tarefa.", "Test reports per task.")
    ∷ ("Gate de revisão humana — destrava o merge.", "Human review gate — unblocks the merge.")
    ∷ ("Gatilhos agendados e manuais.", "Scheduled and manual triggers.")
    ∷ ("Métricas agregadas da org.", "Aggregated org metrics.")
    ∷ (
      "Feed do pipeline (steps dos workers) em tempo real.",
      "Pipeline feed (worker steps) in real time.",
    )
    ∷ ("Workers e tarefas em tempo real.", "Workers and tasks in real time.")
    ∷ ("Memória e base de conhecimento.", "Memory and knowledge base.")
    ∷ ("Repositórios e segredos.", "Repositories and secrets.")
    ∷ (
      "Acesso programático ao control plane (REST + SSE).",
      "Programmatic access to the control plane (REST + SSE).",
    )
    ∷ (
      "Workers gerenciados na nuvem (add-on Enterprise).",
      "Managed cloud workers (Enterprise add-on).",
    )
    ∷ ("Quem fez o quê — server-side.", "Who did what — server-side.")
    ∷ ("Sessão, membros e workspaces.", "Session, members and workspaces.")
    ∷ ("Consumo do ciclo atual frente aos limites do plano.", "Current cycle usage vs plan limits.")
    ∷ ("Faturas emitidas (webhooks do Stripe).", "Issued invoices (Stripe webhooks).")
    ∷ ("Comece no Free, suba quando precisar.", "Start on Free, upgrade when you need.")
    ∷ ("Perfil, sessão e preferências.", "Profile, session and preferences.")
    ∷ (
      "Primeiros passos, docs e a fronteira de privacidade.",
      "Getting started, docs and the privacy boundary.",
    )
    ∷ ("Eventos do cérebro em tempo real (SSE).", "Brain events in real time (SSE).")
    ∷ ("4 passos pra primeira tarefa.", "4 steps to your first task.")
    ∷ ("Pull requests", "Pull requests")
    ∷ ("Execuções de CI", "CI runs")
    ∷ ("Relatórios de QA", "QA reports")
    ∷ ("Estado das tarefas", "Task state")
    ∷ ("Workers", "Workers")
    ∷ ("Tarefas em andamento", "In-progress tasks")
    ∷ ("Nova tarefa", "New task")
    ∷ ("Registrar repositório", "Register repository")
    ∷ ("Repositórios", "Repositories")
    ∷ ("Segredos", "Secrets")
    ∷ ("Nova rotina", "New routine")
    ∷ ("Sessão", "Session")
    ∷ ("Membros", "Members")
    ∷ ("Workspaces", "Workspaces")
    ∷ ("Memória", "Memory")
    ∷ ("Base de conhecimento (KB)", "Knowledge base (KB)")
    ∷ ("Assinatura", "Subscription")
    ∷ ("Dispositivos", "Devices")
    ∷ ("Aguardando revisão humana", "Awaiting human review")
    ∷ ("Trilha de auditoria", "Audit trail")
    ∷ ("Perfil", "Profile")
    ∷ ("Preferências", "Preferences")
    ∷ ("Começar em 4 passos", "Get started in 4 steps")
    ∷ ("Documentação", "Documentation")
    ∷ ("Base da API", "API base")
    ∷ ("Endpoints principais", "Main endpoints")
    ∷ ("O que vem no add-on", "What's in the add-on")
    ∷ ("Workers ao vivo", "Live workers")
    ∷ ("Estado do pool", "Pool state")
    ∷ ("Cloud workers", "Cloud workers")
    ∷ ("Workers ativos", "Active workers")
    ∷ ("PRs abertos", "Open PRs")
    ∷ ("Concluídas", "Completed")
    ∷ ("Aprovação IA", "AI approval")
    ∷ ("Total", "Total")
    ∷ ("Abertos", "Open")
    ∷ ("CI verde", "CI green")
    ∷ ("Merged", "Merged")
    ∷ ("Execuções", "Runs")
    ∷ ("Falhas", "Failures")
    ∷ ("Verde", "Green")
    ∷ ("Aprovação", "Approval")
    ∷ ("Relatórios", "Reports")
    ∷ ("Aprovados", "Approved")
    ∷ ("Ativas", "Active")
    ∷ ("Tokens", "Tokens")
    ∷ ("Worker-hours", "Worker-hours")
    ∷ ("Workers simultâneos", "Concurrent workers")
    ∷ ("Worker-hours (semana)", "Worker-hours (week)")
    ∷ ("Plano", "Plan")
    ∷ ("pull requests", "pull requests")
    ∷ ("em revisão/merge", "review/merge")
    ∷ ("revisão/merge", "review/merge")
    ∷ ("testes passaram", "tests passed")
    ∷ ("concluídos", "completed")
    ∷ ("no pool", "in pool")
    ∷ ("aguardando", "waiting")
    ∷ ("vermelhas", "red")
    ∷ []
