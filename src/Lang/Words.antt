-- ===== src/Lang/Words.antt =====
-- The second half of the dictionary from Portuguese to English of app/dashboard/app/ui.tsx.
use apifor_dev.Common.{String, List, [], ◌∷◌}

unfoldable pub words : List (String × String)
words =
    ("passaram", "passed")
    ∷ ("status passed", "status passed")
    ∷ ("status failed", "status failed")
    ∷ ("concluídas", "completed")
    ∷ ("gate vermelho", "red gate")
    ∷ ("em andamento", "running")
    ∷ ("abertos + merged", "open + merged")
    ∷ ("relay/coder/review", "relay/coder/review")
    ∷ ("na semana", "this week")
    ∷ ("renovação por heartbeat", "heartbeat renewal")
    ∷ ("total", "total")
    ∷ ("Todos", "All")
    ∷ ("Na fila", "In queue")
    ∷ ("Em execução", "Running")
    ∷ ("Encerradas", "Closed")
    ∷ ("Em revisão", "In review")
    ∷ ("CI falhou", "CI failed")
    ∷ ("Falhou", "Failed")
    ∷ ("OK", "OK")
    ∷ ("Tarefa", "Task")
    ∷ ("Título", "Title")
    ∷ ("Estado", "State")
    ∷ ("Branch", "Branch")
    ∷ ("Status", "Status")
    ∷ ("Nome", "Name")
    ∷ ("Tipo", "Type")
    ∷ ("Data", "Date")
    ∷ ("Provider", "Provider")
    ∷ ("Ações", "Actions")
    ∷ ("Quando", "When")
    ∷ ("Ator", "Actor")
    ∷ ("Ação", "Action")
    ∷ ("Alvo", "Target")
    ∷ ("Humano", "Human")
    ∷ ("Concluído", "Finished")
    ∷ ("Testes", "Tests")
    ∷ ("Execução", "Run")
    ∷ ("Local", "Location")
    ∷ ("Fingerprint", "Fingerprint")
    ∷ ("Clone URL", "Clone URL")
    ∷ ("Escopo", "Scope")
    ∷ ("Instrução", "Instruction")
    ∷ ("Origem", "Source")
    ∷ ("Categoria", "Category")
    ∷ ("Indexado", "Indexed")
    ∷ ("Email", "Email")
    ∷ ("Papel", "Role")
    ∷ ("Visto por último", "Last seen")
    ∷ ("Device", "Device")
    ∷ ("Trigger", "Trigger")
    ∷ ("Último", "Last")
    ∷ ("Detalhe", "Detail")
    ∷ ("PR", "PR")
    ∷ ("Adicionar", "Add")
    ∷ ("Registrar", "Register")
    ∷ ("Criar", "Create")
    ∷ ("Criar rotina", "Create routine")
    ∷ ("Criar → planejar", "Create → plan")
    ∷ ("Entrar", "Sign in")
    ∷ ("remover", "remove")
    ∷ ("excluir", "delete")
    ∷ ("exportar CSV", "export CSV")
    ∷ ("marcar todas como lidas", "mark all as read")
    ∷ ("ver plano", "view plan")
    ∷ ("ocultar", "hide")
    ∷ ("abrir", "open")
    ∷ ("aprovar", "approve")
    ∷ ("reprovar", "reject")
    ∷ ("run", "run")
    ∷ ("pausar", "pause")
    ∷ ("ativar", "enable")
    ∷ ("conectar", "connect")
    ∷ ("sair", "sign out")
    ∷ ("registrar", "register")
    ∷ ("fazer login", "sign in")
    ∷ ("Assinar Pro (Stripe)", "Subscribe Pro (Stripe)")
    ∷ ("Buscar tarefa…", "Search task…")
    ∷ ("Buscar PR…", "Search PR…")
    ∷ ("Buscar execução…", "Search run…")
    ∷ ("Buscar log…", "Search log…")
    ∷ ("nome", "name")
    ∷ ("título", "title")
    ∷ ("senha", "password")
    ∷ ("branch", "branch")
    ∷ ("nenhuma tarefa", "no tasks")
    ∷ ("nenhum PR ainda", "no PRs yet")
    ∷ ("fila vazia", "empty queue")
    ∷ ("nenhuma execução de CI", "no CI runs")
    ∷ ("nenhum relatório de QA", "no QA reports")
    ∷ ("nenhum worker ligado", "no worker connected")
    ∷ ("nenhuma rotina", "no routines")
    ∷ ("nenhum repositório", "no repositories")
    ∷ ("nenhum segredo registrado", "no secret registered")
    ∷ ("nenhuma memória", "no memory")
    ∷ ("nenhum documento de KB", "no KB document")
    ∷ ("nenhum membro (faça login)", "no members (sign in)")
    ∷ ("nenhum workspace", "no workspace")
    ∷ ("nenhuma intervenção pendente", "no pending intervention")
    ∷ ("nenhum evento de auditoria", "no audit event")
    ∷ ("nenhuma notificação", "no notification")
    ∷ ("nenhum device", "no device")
    ∷ ("nenhuma fatura", "no invoice")
    ∷ ("nenhum log ainda", "no logs yet")
    ∷ []
