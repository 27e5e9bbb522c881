-- ===== src/Lib.antt =====
-- The dashboard of apifor.dev (app/dashboard/app), a Next.js client of the control plane: a shared
-- shell (ui.tsx) that holds the session, polls the API, translates, and shows toasts, notifications
-- and a command palette; and one page for each part of the pipeline, which lists what the polls
-- brought and calls the API from its handlers; a console for the platform's operator (superadmin); and
-- the login page. This library models the shell, the guards and the login, the pages of the pipeline,
-- of the account and of the figures, the console, and the settings page with its pool, its
-- connections and their dialogs, its repositories and its pinned workers, and proves what they promise.
--
-- How code becomes definitions. A page's state is a record of its `useState` cells; an event is a
-- function on it; what the JSX shows is a record computed from the state and the data. An
-- asynchronous handler is a script (Async): steps on the state between awaited calls, each of which
-- returns a value or throws. `Async.run` answers every call by a function, with no other handler
-- between; `Async.steps` and `Config.Actions.happen` interleave any handlers, and the calls under
-- way return in any order. Numbers are unbounded naturals: the counts, indices and milliseconds of
-- the code stay far below 2^53. Every definition is total by structural recursion; none runs on fuel.
-- `Access.Journey.travel` counts the loads of pages, and its theorem says that two are enough.
--
-- Which file models which code (paths from app/dashboard/app):
--   Common          the names, Boolean tests, list and string operations that all files share;
--                   Numbers has the rounded quotients
--   Async           scripts, their runs and their interleavings; Press has a button pressed twice
--   Session         getToken, setToken, authHeaders, safeJson and the guard in Page (ui.tsx); Api has
--                   apiGet, apiPost and apiDelete
--   Access          the guard of the console and signOut (superadmin/shell.tsx); Login has the form
--                   (login/page.tsx), Journey the loads of pages that the redirects of the guards
--                   lead to; Loads, Settle and SignIn hold proofs
--   Workspace       WorkspaceMenu (ui.tsx)
--   Poll            usePoll (ui.tsx) and the loading effect of the pages; Guarded has the poll that
--                   several pages write out, which drops an answer with an error
--   Toast           toast and ToastContainer (ui.tsx)
--   Lang            STR, EN_LABEL, TR, t, tr, useT, navLabel, NAV and useLang (ui.tsx); the tables
--                   are in Lang/Tables, Lang/Titles and Lang/Words, the shared choice in Lang/Sync
--   Series          useSeries (ui.tsx)
--   Palette         ALL_ITEMS and CommandPalette (ui.tsx)
--   Paging          the pagination that the list pages repeat (queue/page.tsx)
--   Pipeline        BUCKETS, matchState and the search (queue/page.tsx), StateBar's total (ui.tsx)
--   Queue           the page of the queue (queue/page.tsx)
--   Tasks           the page of the tasks and the creation of a task (tasks/page.tsx)
--   Interventions   the items, the pool card, the pool switch and the answer (interventions/page.tsx);
--                   Screen has the rows, the pages and the buttons, Answering a proof about them
--   Notifications   NotifMenu (ui.tsx)
--   Shell           Theme has useTheme (ui.tsx) and themeInit (layout.tsx), Counts useCounts, useUnread
--                   and countBadge, Sidebar the navigation, Topbar the menus of the language and of
--                   the profile, Charts Sparkline, StateBar, badge and TONE (ui.tsx)
--   Live            the stream of the workers and its cards (live/page.tsx)
--   Telemetry       the meters and the consumption (telemetry/page.tsx)
--   Usage           the cycle and the meters of the plan (usage/page.tsx)
--   Prs, Ci, Logs   the pages of the pull requests (prs/page.tsx), of the CI runs (ci/page.tsx) and of
--                   the logs (logs/page.tsx); Choices has the options that their selects read off
--   Home            the home page (page.tsx): its numbers, the card of what needs attention, its log;
--                   Spark has sparkPath, Screen and Cards what the page shows
--   Routines, Qa    the pages of the routines and of the quality reports (routines/page.tsx,
--                   qa/page.tsx); Qa/Screen has the rows and the events
--   Knowledge       the documents and the memories (knowledge/page.tsx); Screen has what is shown
--   Cloud           the instances (cloud/page.tsx)
--   Invoices        the invoices (invoices/page.tsx); Dates has the month that an invoice bills
--   Org, Account    the organisation (org/page.tsx), with what it shows in Org/Ids and Org/Screen, and
--                   the change of the password (conta/page.tsx)
--   Admin           the console (superadmin): Overview (page.tsx), Billing, Users, Orgs and Audit
--                   (the pages of those names)
--   Repos           the edition and the removal of a repository (config/page.tsx), and the wizard with
--                   its calls; Wizard has what the dialogs show, and their buttons
--   Pinned          the pinned workers (config/page.tsx); Screen has the cards and the limits
--   Settings        Pool has loadPool, savePool and the choices of the page, Reuse the reuse and the
--                   cards of the connections (config/page.tsx)
--   Config          the connection dialogs (config/page.tsx): Ia (the model provider), Github (its
--                   authorisation and the poll of its status), Git, Tasks, Integrations, and Actions
--                   (all handlers together); Buttons and Dialogs have the dialogs' buttons and what
--                   they show; OnePoll, Interleavings, Flow, Outcomes and Pressing hold proofs
--   Tests           the theorems at concrete inputs
-- Files named Laws, and those below a part named for a property, hold that part's proofs.
--
-- Parameters, for code that is not in the repository: the answers of the API and of the desktop's
-- shell, JSON.parse, encodeURIComponent, toLowerCase and toUpperCase (the tables of Unicode), new Date
-- and the clock, and the writing of numbers and amounts as text. Strings are sequences of characters;
-- the code's are UTF-16 units, which differ outside the basic plane (Account counts the units). When
-- a page asks for several navigations, the browser follows the last; where an address that is no plain
-- path of the site leads is not said. Years of invoices are taken to be those of 100 or later, which
-- `new Date` reads as they are. Workspace takes the storage to be readable; it
-- may refuse writes there, in Lang and in Shell, where it may refuse reads too.
--
-- Not modelled: styles and static labels, focus and layout; the curve of the spend on the home page,
-- the fixed tables of the usage page and the list of the secrets, which only show; the profile cards
-- of the account; the audit, notifications, web, onboarding, pricing and help pages; support.js, a
-- vendored script; the other programs of the repository (cerebro in Go, executor and desktop in Rust,
-- the sidecar in Python).
pub mod Common
pub mod Access
pub mod Account
pub mod Admin
pub mod Async
pub mod Choices
pub mod Ci
pub mod Cloud
pub mod Config
pub mod Interventions
pub mod Home
pub mod Invoices
pub mod Knowledge
pub mod Live
pub mod Lang
pub mod Logs
pub mod Notifications
pub mod Org
pub mod Paging
pub mod Palette
pub mod Pinned
pub mod Pipeline
pub mod Poll
pub mod Prs
pub mod Qa
pub mod Queue
pub mod Repos
pub mod Routines
pub mod Series
pub mod Session
pub mod Settings
pub mod Shell
pub mod Tasks
mod Tests
pub mod Telemetry
pub mod Toast
pub mod Usage
pub mod Workspace
