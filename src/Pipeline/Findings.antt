-- ===== src/Pipeline/Findings.antt =====
-- app/agents/audit_utils.py: findings, audit reports and give-up records go into the state.
pub mod Frame
pub mod Buckets
use backend_pae_account_mult.Prelude.{
  ℕ, Option, none, some, List, [], ◌∷◌, ◌++◌, ltb, if◌then◌else◌,
}
use backend_pae_account_mult.Prelude.Int.{ℤ, pos, ◌-ℤ◌, pos_part}
use backend_pae_account_mult.Pipeline.Audit.{
  AuditTarget, ResponsibleAgent, AuditFinding, AuditReport, GiveUpRecord, is_unfixable_blocker,
}
use backend_pae_account_mult.Pipeline.State.{
  Agent, AgentState, append_log, budget_get, retry_budgets,
}

-- `_TARGET_TO_NODE_AGENT.get(finding.responsible_agent, …)`.
abbrev pub responsible_node : ResponsibleAgent → Agent
responsible_node ResponsibleAgent.ingest = Agent.ingesta
responsible_node ResponsibleAgent.contador = Agent.contador
responsible_node ResponsibleAgent.tributario = Agent.tributario
responsible_node ResponsibleAgent.persist = Agent.db_persist
responsible_node ResponsibleAgent.db_persist = Agent.db_persist

-- `_TARGET_TO_NODE_AGENT.get(report.target.value, …)`.
abbrev pub target_node : AuditTarget → Agent
target_node AuditTarget.ingest = Agent.ingesta
target_node AuditTarget.contador = Agent.contador
target_node AuditTarget.tributario = Agent.tributario
target_node AuditTarget.pre_persist = Agent.db_persist
target_node AuditTarget.persist = Agent.db_persist

-- `_log_agent_for_state`: the fallback, already a node name, serves while no agent is current.
abbrev pub log_agent : Agent → Agent → Agent
log_agent Agent.start fallback = fallback
log_agent current fallback = current

unfoldable pub append_finding : AgentState → AuditFinding → AgentState
unfolding append_log
append_finding s f =
    let s' =
      if is_unfixable_blocker f
      then record s { unfixable_findings = s.unfixable_findings ++ (f ∷ []) }
      else record s { pipeline_warnings = s.pipeline_warnings ++ (f ∷ []) } in
    append_log s' (log_agent s.current_agent (responsible_node f.responsible_agent)) "audit_finding"

unfoldable pub append_findings : AgentState → List AuditFinding → AgentState
append_findings s [] = s
append_findings s (f ∷ fs) = append_findings (append_finding s f) fs

-- The report and its log entry.
unfoldable pub push_report : AgentState → AuditReport → AgentState
unfolding append_log
push_report s r =
    append_log (record s { audit_reports = s.audit_reports ++ (r ∷ []) })
      (log_agent s.current_agent (target_node r.target)) "audit_report"

unfoldable pub append_audit_report : AgentState → AuditReport → AgentState
unfolding push_report append_findings
append_audit_report s r = append_findings (push_report s r) r.findings

-- `max(n, 1)`.
abbrev pub at_least_one : ℕ → ℕ
at_least_one n = if ltb n 1 then 1 else n

abbrev pub budget_or : Option ℤ → ℤ → ℤ
budget_or none d = d
budget_or (some n) d = n

-- The attempts that `record_giveup` derives when its caller gives none: of the rejections where
-- there is no finding, of the budget that was used where there is one.
abbrev pub derived_attempts : AgentState → ResponsibleAgent → List AuditFinding → ℕ
derived_attempts s target [] = at_least_one s.audit_rejection_count
derived_attempts s target (f ∷ fs) =
    let initial = budget_or (budget_get retry_budgets target) (pos 1) in
    at_least_one (pos_part (initial -ℤ budget_or (budget_get s.retry_budget target) initial))

abbrev pub giveup_attempts : AgentState → ResponsibleAgent → List AuditFinding → Option ℕ → ℕ
giveup_attempts s target findings none = derived_attempts s target findings
giveup_attempts s target findings (some n) = at_least_one n

unfoldable pub record_giveup :
    AgentState → ResponsibleAgent → List AuditFinding → Option ℕ → AgentState
unfolding append_log
record_giveup s target findings attempts =
    let giveup : GiveUpRecord = record {
      target = target;
      attempts = giveup_attempts s target findings attempts;
      last_findings = findings;
    } in
    append_log (record s { giveup_record = some giveup })
      (log_agent s.current_agent (responsible_node target)) "audit_giveup"
