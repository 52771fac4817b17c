-- ===== src/Pipeline/Findings/Frame.antt =====
-- What recording a finding, a report or a give-up leaves alone.
use backend_pae_account_mult.Prelude.{
  get_last?, get_last?-snoc, Option, some, ◌++◌, ℕ, ◌≡◌, refl, Option, List, [], ◌∷◌, ◌++◌, arith,
  ℕ,
}
use backend_pae_account_mult.Pipeline.Audit.{
  ResponsibleAgent, AuditReport, ResponsibleAgent, AuditFinding, AuditReport,
}
use backend_pae_account_mult.Pipeline.State.{AgentState}
use backend_pae_account_mult.Pipeline.Findings.{
  record_giveup, append_audit_report, push_report, append_finding, append_findings,
  append_audit_report, record_giveup,
}

-- The fields by which the pipeline is steered are those of another state.
pub record Same (s t : AgentState) : Type 0 where
  pub mode : t.mode ≡ s.mode
  pub current_agent : t.current_agent ≡ s.current_agent
  pub failure : t.failure ≡ s.failure
  pub correction_feedback : t.correction_feedback ≡ s.correction_feedback
  pub retry_count : t.retry_count ≡ s.retry_count
  pub raw_transactions : t.raw_transactions ≡ s.raw_transactions
  pub interpreted_data : t.interpreted_data ≡ s.interpreted_data
  pub contador_output : t.contador_output ≡ s.contador_output
  pub pending_transaction_id : t.pending_transaction_id ≡ s.pending_transaction_id
  pub audit_approved : t.audit_approved ≡ s.audit_approved
  pub doc_type : t.doc_type ≡ s.doc_type
  pub retry_budget : t.retry_budget ≡ s.retry_budget
  pub force_persist : t.force_persist ≡ s.force_persist
  pub needs_hitl_review : t.needs_hitl_review ≡ s.needs_hitl_review

pub Same-refl : (s : AgentState) → Same s s
Same-refl s = ground arith

pub Same-trans : {s t u : AgentState} → Same s t → Same t u → Same s u
Same-trans p q = ground arith

pub append_finding-Same : (s : AgentState) (f : AuditFinding) → Same s (append_finding s f)
unfolding append_finding
append_finding-Same s f = ground arith

pub append_finding-reports :
    (s : AgentState) (f : AuditFinding) → (append_finding s f).audit_reports ≡ s.audit_reports
unfolding append_finding
append_finding-reports s f = ground arith

pub append_findings-Same : (s : AgentState) (fs : List AuditFinding) → Same s (append_findings s fs)
unfolding append_findings
append_findings-Same s [] = Same-refl s
append_findings-Same s (f ∷ fs) =
    Same-trans (append_finding-Same s f) (append_findings-Same (append_finding s f) fs)

pub append_findings-reports :
    (s : AgentState) (fs : List AuditFinding)
    → (append_findings s fs).audit_reports ≡ s.audit_reports
unfolding append_findings
append_findings-reports s [] = refl
append_findings-reports s (f ∷ fs) =
    ground (arith, append_finding-reports s f, append_findings-reports (append_finding s f) fs)

push_report-Same : (s : AgentState) (r : AuditReport) → Same s (push_report s r)
unfolding push_report
push_report-Same s r = ground arith

pub append_audit_report-Same : (s : AgentState) (r : AuditReport) → Same s (append_audit_report s r)
unfolding append_audit_report
append_audit_report-Same s r =
    Same-trans (push_report-Same s r) (append_findings-Same (push_report s r) r.findings)

pub append_audit_report-reports :
    (s : AgentState) (r : AuditReport)
    → (append_audit_report s r).audit_reports ≡ s.audit_reports ++ (r ∷ [])
unfolding append_audit_report
append_audit_report-reports s r = append_findings-reports (push_report s r) r.findings

-- The report that was appended last is the one that the supervisor reads.
pub append_audit_report-last :
    (s : AgentState) (r : AuditReport) → get_last? (append_audit_report s r).audit_reports ≡ some r
append_audit_report-last s r =
    rw (append_audit_report-reports s r) (get_last?-snoc s.audit_reports r)

pub record_giveup-Same :
    (s : AgentState) (target : ResponsibleAgent) (fs : List AuditFinding) (n : Option ℕ)
    → Same s (record_giveup s target fs n)
unfolding record_giveup
record_giveup-Same s target fs n = ground arith
