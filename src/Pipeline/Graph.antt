-- ===== src/Pipeline/Graph.antt =====
-- app/agents/graph.py: the edges of the compiled graph in process mode, as a machine. A node of the
-- graph is an agent's name; `END` is a node of its own. The nodes of the other modes (ingesta,
-- import_existing, reportero) are `outside`: the machine stops there.
pub mod Rank
pub mod Supervisor
pub mod Workers
pub mod Termination
pub mod Safety
pub mod Steady
pub mod Posting
pub mod Approval
pub mod Forced
use backend_pae_account_mult.Prelude.{
  ℕ, zero, suc, Bool, Option, none, some, List, ◌||◌, if◌then◌else◌,
}
use backend_pae_account_mult.Prelude.Texts.{String}
use backend_pae_account_mult.Pipeline.State.{
  Agent, Asiento, Transaction, AgentState, append_log, accounting_state,
}
use backend_pae_account_mult.Pipeline.Validator.{Schemas}
use backend_pae_account_mult.Pipeline.Puc.{PucDb}
use backend_pae_account_mult.Pipeline.Agents.{
  Reply, TributarioReply, PersistReply, Persisted, contador_node, tributario_node, auditor_node,
  db_persist_node,
}
use backend_pae_account_mult.Pipeline.Router.{
  route_process, route_after_supervisor, waits_for_review, error_terminal_node,
  review_terminal_node, audit_review_terminal_node,
}

-- What the program takes as given: schemas, accounts and the reading of dates.
pub record Setup : Type 0 where
  pub schemas : Schemas
  pub db : PucDb
  pub readable : Option String → Bool

-- The answers of the world to one step; a step uses those of its node.
pub record Answers : Type 0 where
  pub contador : Reply
  pub tributario : TributarioReply
  pub auditor : Reply
  pub persist : PersistReply

pub data Node : Type 0 where
  supervisor contador tributario auditor db_persist : Node
  error_terminal review_terminal audit_review_terminal outside finished : Node

pub record Machine : Type 0 where
  pub node : Node
  pub state : AgentState
  pub posted : Option (List Asiento)

-- The conditional edges of the supervisor.
abbrev pub node_of : Agent → Node
node_of Agent.contador = Node.contador
node_of Agent.tributario = Node.tributario
node_of Agent.auditor = Node.auditor
node_of Agent.db_persist = Node.db_persist
node_of Agent.error_terminal = Node.error_terminal
node_of Agent.review_terminal = Node.review_terminal
node_of Agent.audit_review_terminal = Node.audit_review_terminal
node_of _ = Node.outside

-- The conditional edge of db_persist.
abbrev pub after_persist : AgentState → Node
after_persist s =
    if s.needs_hitl_review || waits_for_review s.current_agent
    then Node.audit_review_terminal
    else Node.finished

-- `supervisor_node` in process mode.
unfoldable pub supervise : Setup → AgentState → AgentState
supervise setup s =
    route_process setup.schemas setup.db (append_log s Agent.supervisor "routing_start")

abbrev pub move : Machine → Node → AgentState → Machine
move m node s = record m { node = node; state = s }

abbrev pub keep_posted : Option (List Asiento) → Option (List Asiento) → Option (List Asiento)
keep_posted none old = old
keep_posted (some new) old = some new

abbrev pub persist_to : Machine → Persisted → Machine
persist_to m (s, written) = record m {
  node = after_persist s;
  state = s;
  posted = keep_posted written m.posted;
}

abbrev pub step_at : Setup → Answers → Machine → Node → Machine
step_at setup a m Node.supervisor =
    let s = supervise setup m.state in move m (node_of (route_after_supervisor s)) s
step_at setup a m Node.contador = move m Node.supervisor (contador_node a.contador m.state)
step_at setup a m Node.tributario = move m Node.supervisor (tributario_node a.tributario m.state)
step_at setup a m Node.auditor = move m Node.supervisor (auditor_node a.auditor m.state)
step_at setup a m Node.db_persist = persist_to m (db_persist_node setup.readable a.persist m.state)
step_at setup a m Node.error_terminal = move m Node.finished (error_terminal_node m.state)
step_at setup a m Node.review_terminal = move m Node.finished (review_terminal_node m.state)
step_at setup a m Node.audit_review_terminal =
    move m Node.finished (audit_review_terminal_node m.state)
step_at setup a m Node.outside = m
step_at setup a m Node.finished = m

-- One node of the graph runs.
unfoldable pub step : Setup → Answers → Machine → Machine
step setup a m = step_at setup a m m.node

-- The graph runs for at most so many nodes; the answers may depend on the machine.
unfoldable pub run : Setup → (Machine → Answers) → ℕ → Machine → Machine
run setup world zero m = m
run setup world (suc n) m = run setup world n (step setup (world m) m)

-- `graph.invoke(state)` of `invoke_accounting_pipeline`, before its first node.
unfoldable pub start_machine : List Transaction → String → String → Bool → Machine
unfolding accounting_state
start_machine raw_transactions pending_transaction_id doc_type force_persist = record {
  node = Node.supervisor;
  state = accounting_state raw_transactions pending_transaction_id doc_type force_persist;
  posted = none;
}
