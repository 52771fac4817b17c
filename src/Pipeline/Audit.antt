-- ===== src/Pipeline/Audit.antt =====
-- The audit records of app/models/audit.py. The texts written for people (technical_message,
-- user_message_es, suggested_action_es, explanation_es), the evidence and the durations are left
-- out: no branch of the program reads them.
use backend_pae_account_mult.Prelude.{ℕ, Bool, true, false, List, ◌&&◌, not}
use backend_pae_account_mult.Prelude.Texts.{String}

pub data Severity : Type 0 where
  info warning error blocker : Severity

-- Python's `==` of severities.
abbrev pub is_blocker : Severity → Bool
is_blocker Severity.blocker = true
is_blocker _ = false

abbrev pub is_error : Severity → Bool
is_error Severity.error = true
is_error _ = false

pub data AuditTarget : Type 0 where
  ingest contador tributario pre_persist persist : AuditTarget

pub data ResponsibleAgent : Type 0 where
  ingest contador tributario persist db_persist : ResponsibleAgent

pub record AuditFinding : Type 0 where
  pub target : AuditTarget
  pub rule_id : String
  pub severity : Severity
  pub fixable : Bool
  pub responsible_agent : ResponsibleAgent

pub record AuditReport : Type 0 where
  pub target : AuditTarget
  pub approved : Bool
  pub findings : List AuditFinding
  pub attempt : ℕ

pub record GiveUpRecord : Type 0 where
  pub target : ResponsibleAgent
  pub attempts : ℕ
  pub last_findings : List AuditFinding

-- `f.severity == Severity.BLOCKER and not f.fixable`.
abbrev pub is_unfixable_blocker : AuditFinding → Bool
is_unfixable_blocker f = is_blocker f.severity && not f.fixable

abbrev pub finding_blocks : AuditFinding → Bool
finding_blocks f = is_blocker f.severity

abbrev pub finding_errs : AuditFinding → Bool
finding_errs f = is_error f.severity
