-- ===== src/Pipeline/Graph/Supervisor.antt =====
-- Each hand-over of the supervisor lowers the measure.
use backend_pae_account_mult.Prelude.{refl, ◌≡◌, arith, List, ◌<◌, ◌+◌, ◌*◌, none, inl, inr}
use backend_pae_account_mult.Prelude.Int.{◌-ℤ◌}
use backend_pae_account_mult.Pipeline.Router.Frame.{route_contador-Kept}
use backend_pae_account_mult.Pipeline.Audit.{AuditFinding}
use backend_pae_account_mult.Pipeline.State.{Agent, AgentState, append_log}
use backend_pae_account_mult.Pipeline.Validator.{Schemas}
use backend_pae_account_mult.Pipeline.Puc.{PucDb}
use backend_pae_account_mult.Pipeline.Router.{
  route_process, route_from, after_contador, route_start, route_contador, route_tributario,
  route_auditor, route_after_supervisor, last_findings, after_auditor, route_rejection, reject_with,
}
use backend_pae_account_mult.Pipeline.Nodes.{
  validate_contador_output_node, contador_rejected, contador_puc_rule, validate_auditor_output_node,
  auditor_accepted, auditor_rejected,
}
use backend_pae_account_mult.Pipeline.Validator.{validate}
use backend_pae_account_mult.Pipeline.Graph.{Setup, Node, supervise, node_of}
use backend_pae_account_mult.Pipeline.Graph.Rank.{
  measure, rounds, GoodAt, Advances, FromContador, node_rank, schema_tries,
}

route_start-Advances : (s : AgentState) → s.current_agent ≡ Agent.start → Advances s (route_start s)
unfolding route_start route_after_supervisor
route_start-Advances s c = ground arith

route_contador-rank :
    (schemas : Schemas) (db : PucDb) (s : AgentState)
    → s.current_agent ≡ Agent.contador
    → let t = route_contador schemas db s in
      node_rank (node_of (route_after_supervisor t)) t < 11 + 2 * schema_tries s
unfolding route_contador route_after_supervisor after_contador validate_contador_output_node
    validate contador_rejected contador_puc_rule append_log
route_contador-rank schemas db s c = ground arith

route_contador-GoodAt :
    (schemas : Schemas) (db : PucDb) (s : AgentState)
    → s.current_agent ≡ Agent.contador
    → let t = route_contador schemas db s in GoodAt (node_of (route_after_supervisor t)) t
unfolding route_contador route_after_supervisor after_contador validate_contador_output_node
    validate contador_rejected contador_puc_rule append_log
route_contador-GoodAt schemas db s c = ground arith

route_contador-Advances :
    (schemas : Schemas) (db : PucDb) (s : AgentState)
    → s.current_agent ≡ Agent.contador
    → Advances s (route_contador schemas db s)
route_contador-Advances schemas db s c = (
  route_contador-GoodAt schemas db s c,
  ground (arith, route_contador-rank schemas db s, (route_contador-Kept schemas db s).retry_budget),
)

route_tributario-Advances :
    (schemas : Schemas) (s : AgentState)
    → s.current_agent ≡ Agent.tributario
    → Advances s (route_tributario schemas s)
unfolding route_tributario route_after_supervisor
route_tributario-Advances schemas s c = ground arith

reject_with-Advances :
    (s : AgentState) (fs : List AuditFinding)
    → s.current_agent ≡ Agent.auditor
    → s.failure ≡ none
    → FromContador fs
    → let t = reject_with s fs in
      let n = node_of (route_after_supervisor t) in GoodAt n t × (measure n t < 17 * rounds s + 3)
unfolding reject_with route_after_supervisor ◌-ℤ◌
reject_with-Advances s fs c e (inl p) = rw p (ground arith)
reject_with-Advances s fs c e (inr (r, p)) = rw p (ground arith)

-- The report of the contador's auditor is the last one whenever the auditor has run.
route_auditor-Advances :
    (schemas : Schemas) (s : AgentState)
    → s.current_agent ≡ Agent.auditor
    → (s.failure ≡ none → FromContador (last_findings s))
    → Advances s (route_auditor schemas s)
unfolding route_auditor route_after_supervisor after_auditor route_rejection append_log
    validate_auditor_output_node auditor_accepted auditor_rejected validate
route_auditor-Advances schemas s c f =
    let u = validate_auditor_output_node schemas s in
    ground (arith, f, reject_with-Advances u (last_findings u))

-- Whatever agent the supervisor takes in, it hands over to a node of the accounting pipeline, and
-- the measure falls.
pub supervise-Advances :
    (setup : Setup) (s : AgentState) → GoodAt Node.supervisor s → Advances s (supervise setup s)
unfolding supervise route_process append_log
supervise-Advances setup s g = visit s.current_agent refl
  where
    t : AgentState
    t = append_log s Agent.supervisor "routing_start"

    visit : (a : Agent) → s.current_agent ≡ a → Advances s (route_from setup.schemas setup.db a t)
    visit Agent.start e = route_start-Advances t e
    visit Agent.contador e = route_contador-Advances setup.schemas setup.db t e
    visit Agent.tributario e = route_tributario-Advances setup.schemas t e
    visit Agent.auditor e = route_auditor-Advances setup.schemas t e (g.1 e)
    visit _ e = absurd (rw e at g.0)
