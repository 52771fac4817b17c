-- ===== src/Pipeline/Graph/Rank.antt =====
-- A measure of the machine that every node of the graph lowers: the remaining retries of the
-- contador weigh most, then the place in the round, then the retries of a schema.
use backend_pae_account_mult.Prelude.{ℕ, ◌+◌, ◌-◌, ◌*◌, ◌<◌, ◌≡◌, ◌⊎◌, none, List, [], ◌∷◌}
use backend_pae_account_mult.Prelude.Int.{pos_part}
use backend_pae_account_mult.Prelude.Texts.{String}
use backend_pae_account_mult.Pipeline.Audit.{ResponsibleAgent, AuditFinding}
use backend_pae_account_mult.Pipeline.State.{Agent, AgentState}
use backend_pae_account_mult.Pipeline.Auditors.{contador_finding}
use backend_pae_account_mult.Pipeline.Router.{budget_of, last_findings, route_after_supervisor}
use backend_pae_account_mult.Pipeline.Graph.{Node, node_of}

abbrev pub schema_tries : AgentState → ℕ
schema_tries s = 2 - s.retry_count

abbrev pub visit_rank : Agent → ℕ → ℕ
visit_rank Agent.start k = 17
visit_rank Agent.contador k = 11 + 2 * k
visit_rank Agent.tributario k = 9
visit_rank Agent.auditor k = 3 + 2 * k
visit_rank _ k = 3

abbrev pub node_rank : Node → AgentState → ℕ
node_rank Node.supervisor s = visit_rank s.current_agent (schema_tries s)
node_rank Node.contador s = 12 + 2 * schema_tries s
node_rank Node.tributario s = 10
node_rank Node.auditor s = 4 + 2 * schema_tries s
node_rank Node.db_persist s = 2
node_rank Node.error_terminal s = 1
node_rank Node.review_terminal s = 1
node_rank Node.audit_review_terminal s = 1
node_rank Node.outside s = 0
node_rank Node.finished s = 0

abbrev pub rounds : AgentState → ℕ
rounds s = pos_part (budget_of s ResponsibleAgent.contador)

abbrev pub measure : Node → AgentState → ℕ
measure n s = 17 * rounds s + node_rank n s

-- The agents whose work the supervisor takes in.
abbrev pub IsVisit : Agent → Type 0
IsVisit Agent.start = Unit
IsVisit Agent.contador = Unit
IsVisit Agent.tributario = Unit
IsVisit Agent.auditor = Unit
IsVisit _ = ⊥

-- No finding, or one of the contador's auditor.
abbrev pub FromContador : List AuditFinding → Type 0
FromContador fs = (fs ≡ []) ⊎ ((rule_id : String) × (fs ≡ contador_finding rule_id ∷ []))

-- What holds of the state before each node.
abbrev pub GoodAt : Node → AgentState → Type 0
GoodAt Node.supervisor s =
    IsVisit s.current_agent
    × (s.current_agent ≡ Agent.auditor → s.failure ≡ none → FromContador (last_findings s))
GoodAt Node.contador s = s.current_agent ≡ Agent.contador
GoodAt Node.tributario s = s.current_agent ≡ Agent.tributario
GoodAt Node.auditor s = s.current_agent ≡ Agent.auditor
GoodAt Node.outside s = ⊥
GoodAt _ s = Unit

-- The supervisor's hand-over from `s` lowers the measure and keeps what holds before each node.
abbrev pub Advances : AgentState → AgentState → Type 0
Advances s t =
    let n = node_of (route_after_supervisor t) in
    GoodAt n t × (measure n t < measure Node.supervisor s)
