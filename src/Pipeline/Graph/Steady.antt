-- ===== src/Pipeline/Graph/Steady.antt =====
-- What no node of the graph changes: the request that the pipeline was started with.
use backend_pae_account_mult.Prelude.{◌≡◌, arith, Option, Bool, List}
use backend_pae_account_mult.Prelude.Texts.{String}
use backend_pae_account_mult.Pipeline.Audit.{AuditFinding}
use backend_pae_account_mult.Pipeline.State.{Agent, AgentState, append_log}
use backend_pae_account_mult.Pipeline.Validator.{Schemas}
use backend_pae_account_mult.Pipeline.Findings.{append_audit_report, record_giveup}
use backend_pae_account_mult.Pipeline.Findings.Frame.{
  Same, append_findings-Same, append_audit_report-Same,
}
use backend_pae_account_mult.Pipeline.Nodes.{validate_auditor_output_node}
use backend_pae_account_mult.Pipeline.Nodes.Frame.{Kept, validate_auditor-Kept}
use backend_pae_account_mult.Pipeline.Auditors.{contador_run, tributario_run, pre_persist_run}
use backend_pae_account_mult.Pipeline.Agents.{
  Reply, TributarioReply, PersistReply, contador_node, contador_reply, tributario_node,
  tributario_reply, tributario_booked, auditor_node, auditor_reply, enter_node, db_persist_node,
  run_persist, write_entries,
}
use backend_pae_account_mult.Pipeline.Router.{
  route_start, route_tributario, route_auditor, route_unknown, route_process, after_auditor,
  route_rejection, reject_with, last_findings, error_terminal_node, review_terminal_node,
  audit_review_terminal_node,
}
use backend_pae_account_mult.Pipeline.Router.Frame.{route_contador-Kept}
use backend_pae_account_mult.Pipeline.Graph.{
  Setup, Answers, Machine, Node, supervise, step_at, step,
}

pub record Steady (s t : AgentState) : Type 0 where
  pub mode : t.mode ≡ s.mode
  pub force_persist : t.force_persist ≡ s.force_persist
  pub pending_transaction_id : t.pending_transaction_id ≡ s.pending_transaction_id
  pub raw_transactions : t.raw_transactions ≡ s.raw_transactions
  pub doc_type : t.doc_type ≡ s.doc_type

pub Steady-refl : (s : AgentState) → Steady s s
Steady-refl s = ground arith

pub Steady-trans : {s t u : AgentState} → Steady s t → Steady t u → Steady s u
Steady-trans p q = ground arith

Kept-Steady : {s t : AgentState} → Kept s t → Steady s t
Kept-Steady k = ground arith

Same-Steady : {s t : AgentState} → Same s t → Steady s t
Same-Steady k = ground arith

reject_with-Steady : (s : AgentState) (fs : List AuditFinding) → Steady s (reject_with s fs)
unfolding reject_with
reject_with-Steady s fs = ground arith

after_auditor-Steady : (s : AgentState) → Steady s (after_auditor s)
unfolding after_auditor append_log route_rejection
after_auditor-Steady s = ground (arith, reject_with-Steady s (last_findings s))

route_auditor-Steady : (schemas : Schemas) (s : AgentState) → Steady s (route_auditor schemas s)
unfolding route_auditor append_log
route_auditor-Steady schemas s =
    let u = validate_auditor_output_node schemas s in
    ground (arith, Kept-Steady (validate_auditor-Kept schemas s), after_auditor-Steady u)

supervise-Steady : (setup : Setup) (s : AgentState) → Steady s (supervise setup s)
unfolding supervise route_process route_start route_tributario route_unknown append_log
supervise-Steady setup s =
    let t = append_log s Agent.supervisor "routing_start" in
    ground (
      arith,
      Kept-Steady (route_contador-Kept setup.schemas setup.db t),
      route_auditor-Steady setup.schemas t,
    )

contador_node-Steady : (reply : Reply) (s : AgentState) → Steady s (contador_node reply s)
unfolding contador_node contador_reply append_log
contador_node-Steady (Reply.completed fs o) s =
    ground (arith, append_findings-Same (enter_node s Agent.contador "contador") fs)
contador_node-Steady (Reply.failed fs) s =
    ground (arith, append_findings-Same (enter_node s Agent.contador "contador") fs)

tributario_node-Steady :
    (reply : TributarioReply) (s : AgentState) → Steady s (tributario_node reply s)
unfolding tributario_node tributario_reply append_log
tributario_node-Steady (TributarioReply.completed t as') s =
    let u = tributario_booked s t as' in
    ground (arith, append_audit_report-Same u (tributario_run u 1))
tributario_node-Steady (TributarioReply.skipped t event) s = ground arith
tributario_node-Steady TributarioReply.failed s = ground arith

auditor_node-Steady : (reply : Reply) (s : AgentState) → Steady s (auditor_node reply s)
unfolding auditor_node auditor_reply append_log
auditor_node-Steady (Reply.completed fs o) s =
    let u = enter_node s Agent.auditor "auditor" in
    let v = append_audit_report u (contador_run u 1) in
    ground (arith, append_audit_report-Same u (contador_run u 1), append_findings-Same v fs)
auditor_node-Steady (Reply.failed fs) s =
    let u = enter_node s Agent.auditor "auditor" in
    let v = append_audit_report u (contador_run u 1) in
    ground (arith, append_audit_report-Same u (contador_run u 1), append_findings-Same v fs)

db_persist_node-Steady :
    (readable : Option String → Bool) (reply : PersistReply) (s : AgentState)
    → Steady s (db_persist_node readable reply s).0
unfolding db_persist_node run_persist write_entries append_log record_giveup
db_persist_node-Steady readable reply s =
    let t = append_log s Agent.db_persist "node_start" in
    ground (arith, append_audit_report-Same t (pre_persist_run readable t 1))

step_at-Steady :
    (setup : Setup) (a : Answers) (m : Machine) (n : Node)
    → Steady m.state (step_at setup a m n).state
unfolding error_terminal_node review_terminal_node audit_review_terminal_node
step_at-Steady setup a m Node.supervisor = supervise-Steady setup m.state
step_at-Steady setup a m Node.contador = contador_node-Steady a.contador m.state
step_at-Steady setup a m Node.tributario = tributario_node-Steady a.tributario m.state
step_at-Steady setup a m Node.auditor = auditor_node-Steady a.auditor m.state
step_at-Steady setup a m Node.db_persist = db_persist_node-Steady setup.readable a.persist m.state
step_at-Steady setup a m _ = ground arith

pub step-Steady :
    (setup : Setup) (a : Answers) (m : Machine) → Steady m.state (step setup a m).state
unfolding step
step-Steady setup a m = step_at-Steady setup a m m.node
