-- ===== src/Pipeline/Graph/Workers.antt =====
-- Each agent's node goes back to the supervisor with the measure lowered.
use backend_pae_account_mult.Prelude.{ℕ, List, arith, ◌<◌}
use backend_pae_account_mult.Pipeline.Router.{last_findings}
use backend_pae_account_mult.Pipeline.Audit.{AuditFinding}
use backend_pae_account_mult.Pipeline.State.{Agent, AgentState, append_log}
use backend_pae_account_mult.Pipeline.Findings.{append_audit_report, append_findings}
use backend_pae_account_mult.Pipeline.Findings.Frame.{
  append_findings-Same, append_findings-reports, append_audit_report-Same, append_audit_report-last,
}
use backend_pae_account_mult.Pipeline.Auditors.{contador_run, contador_findings, tributario_run}
use backend_pae_account_mult.Pipeline.Agents.{
  Reply, TributarioReply, contador_node, contador_reply, tributario_node, tributario_reply,
  auditor_node, auditor_reply, enter_node, tributario_booked,
}
use backend_pae_account_mult.Pipeline.Graph.{Node}
use backend_pae_account_mult.Pipeline.Graph.Rank.{GoodAt, FromContador, measure}

-- From a worker's node back to the supervisor.
abbrev pub Returns : Node → AgentState → AgentState → Type 0
Returns n s t = GoodAt Node.supervisor t × (measure Node.supervisor t < measure n s)

pub contador_node-Returns :
    (reply : Reply) (s : AgentState)
    → GoodAt Node.contador s
    → Returns Node.contador s (contador_node reply s)
unfolding contador_node contador_reply append_log
contador_node-Returns (Reply.completed fs o) s g =
    ground (arith, append_findings-Same (enter_node s Agent.contador "contador") fs)
contador_node-Returns (Reply.failed fs) s g =
    ground (arith, append_findings-Same (enter_node s Agent.contador "contador") fs)

pub tributario_node-Returns :
    (reply : TributarioReply) (s : AgentState)
    → GoodAt Node.tributario s
    → Returns Node.tributario s (tributario_node reply s)
unfolding tributario_node tributario_reply append_log
tributario_node-Returns (TributarioReply.completed t as') s g =
    let u = tributario_booked s t as' in
    ground (arith, append_audit_report-Same u (tributario_run u 1))
tributario_node-Returns (TributarioReply.skipped t event) s g = ground arith
tributario_node-Returns TributarioReply.failed s g = ground arith

contador_run-FromContador : (s : AgentState) (n : ℕ) → FromContador (contador_run s n).findings
unfolding contador_run contador_findings
contador_run-FromContador s n = ground arith

-- Whatever findings follow it, the contador's report stays the last one.
audited-FromContador :
    (s : AgentState) (fs : List AuditFinding)
    → FromContador (last_findings (append_findings (append_audit_report s (contador_run s 1)) fs))
audited-FromContador s fs =
    let r = contador_run s 1 in
    rw (append_findings-reports (append_audit_report s r) fs, append_audit_report-last s r)
      (contador_run-FromContador s 1)

pub auditor_node-Returns :
    (reply : Reply) (s : AgentState)
    → GoodAt Node.auditor s
    → Returns Node.auditor s (auditor_node reply s)
unfolding auditor_node auditor_reply append_log
auditor_node-Returns (Reply.completed fs o) s g =
    let u = enter_node s Agent.auditor "auditor" in
    let v = append_audit_report u (contador_run u 1) in
    ground (
      arith,
      append_audit_report-Same u (contador_run u 1),
      append_findings-Same v fs,
      audited-FromContador u fs,
    )
auditor_node-Returns (Reply.failed fs) s g =
    let u = enter_node s Agent.auditor "auditor" in
    let v = append_audit_report u (contador_run u 1) in
    ground (arith, append_audit_report-Same u (contador_run u 1), append_findings-Same v fs)
