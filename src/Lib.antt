-- ===== src/Lib.antt =====
-- A verification library of the accounting backend: the multi-agent pipeline that turns a staged
-- document into journal entries, the journal they are booked in, the books and statements read from it,
-- and the tax returns drawn up from them.
--
-- The program. A request (`invoke_accounting_pipeline` in app/agents/graph.py) builds a shared state
-- and runs a graph of nodes on it. The supervisor (app/agents/supervisor.py, which in process mode is
-- `route_process` of app/agents/routing/process_router.py) looks at the agent that worked last,
-- validates its output (app/agents/validation_rules.py with app/services/validation_engine.py), and
-- names the next agent: contador, tributario, auditor, then db_persist. A bad output goes back to its
-- agent a few times; a rejection goes back within a retry budget; past these limits the run stops at
-- a terminal that waits for a person. db_persist audits the entry once more before it is written. From
-- the booked entries app/services/tax_declaration_service.py drafts the official forms, which an
-- accountant edits, reviews and files through app/api/v1/tax.py.
--
-- The files:
--   Prelude, Prelude/Lists, Prelude/Int, Prelude/Texts, Prelude/Tests: shared helpers.
--   Pipeline/Audit: app/models/audit.py.
--   Pipeline/State: app/agents/state.py, app/agents/agent_utils.py, the start of app/agents/graph.py.
--   Pipeline/Findings: app/agents/audit_utils.py.
--   Pipeline/Validator: app/services/validation_engine.py.
--   Pipeline/Puc, Pipeline/Nodes: app/agents/validation_rules.py.
--   Pipeline/Tributario: app/services/tributario_normalizer.py.
--   Pipeline/Router: app/agents/routing (process_router, edge_functions, terminal_nodes).
--   Pipeline/Auditors: app/agents/auditors (contador, tributario, pre-persist).
--   Pipeline/Agents: the nodes of contador_agent.py, tributario_agent.py, auditor_agent.py and
--     persist_node.py in app/agents.
--   Pipeline/Graph: the compiled graph of app/agents/graph.py, in process mode, as a machine.
--   Ledger/Journal: app/account_process/journal_builder.py.
--   Ledger/BankRepair: app/services/bank_statement_repair.py.
--   Ledger/Matching: `_asientos_for_tx` of app/agents/persist_node.py.
--   Books: the ledger and the subsidiary journals of app/services/db_service.py; Books/Sheet,
--     Books/Pnl and Books/Trend: its balance sheets, income statement and monthly trends;
--     Books/Posting: how entries become lines, in app/agents/persist_node.py and
--     app/account_process/persist_orchestrator.py.
--   Tax/Catalog, Tax/Forms: app/services/dian_forms, and the projection of values onto a form in
--     app/services/tax_declaration_service.py.
--   Tax/Drafts: the workflow of a draft in app/api/v1/tax.py and
--     app/services/tax_declaration_service.py.
--   Tax/Builders: `_build_f300`, `_build_f350`, `_build_f110` and `_build_ica` of
--     app/services/tax_declaration_service.py.
--   Tax/Withholding: app/services/retencion_table.py.
--   Tax/Nit: app/services/nit_utils.py, the check digit of app/services/exogena_service.py and the last
--     digit of app/services/tax_calendar_service.py.
--   Tax/Calendar: app/services/tax_calendar_service.py.
--   Tax/Losses, Tax/Accumulators: the losses carried forward and the accumulators of special taxes in
--     app/services/db_service.py.
--
-- How state and operations correspond. `AgentState` is the dict that the nodes share; a node is a
-- function from state to state under the name of the Python function. One `step` of the machine runs
-- the node it stands at and follows the edge; `run` follows at most so many steps. Functions named
-- `…-Same`, `…-Kept` and `…-Steady` say what a part of the program leaves as it was.
--
-- The database of the books is its two tables, a query a filter of the lines; `Reach` of
-- Books/Posting/Invariant are the databases that postings and deletions lead to.
--
-- A handler of the tax API takes the table of drafts and gives the table after it and the answer;
-- `Reach` are the tables that requests lead to. A form is the list of its boxes, and `IsSolved` says
-- that each subtotal is its formula.
--
-- Numbers. An amount of money is a whole number of centavos, so one peso of tolerance is 100; a rate
-- is in ten-thousandths (in thousandths in Tax/Withholding, in millionths in Tax/Builders/F110).
-- Counters are natural numbers; a retry budget is an integer, since the source lets it fall below
-- zero.
--
-- Bounds. The source's graph has no bound of its own in the process loop. The measure of
-- Pipeline/Graph/Rank counts what is left of the contador's and the auditor's validation attempts and
-- of the retry budget, and shows that 52 nodes are enough. The limit on the number of steps that the
-- graph library sets by itself is not modelled.
--
-- Parameters: what a schema answers, the table of accounts, whether a date can be read, and the
-- answers of the language model, the retrieval service and the database (`Reply`, `TributarioReply`,
-- `PersistReply`). They may depend on the whole machine. In Tax: the values that a builder finds for a
-- form, the UVT that the database has for a year, the days between two dates, names and times.
--
-- Not modelled: the ingest and reporting modes of the graph (a run that leaves the process mode
-- stops at `outside`), `route_ingest` (a parameter of `supervisor_node`), the inside of the agents,
-- the other tables of the database, the builder of F2516, exogena, certificates,
-- reports, timestamps, details of log entries and texts for people.
pub mod Prelude
pub mod Pipeline
pub mod Books
pub mod Ledger
pub mod Tax
