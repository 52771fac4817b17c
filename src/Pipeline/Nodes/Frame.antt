-- ===== src/Pipeline/Nodes/Frame.antt =====
-- What the validation nodes leave alone.
use backend_pae_account_mult.Prelude.{ℕ, ◌+◌, ◌≡◌, arith}
use backend_pae_account_mult.Pipeline.State.{Agent, AgentState, Output, append_log}
use backend_pae_account_mult.Pipeline.Validator.{Schemas, ValidationResult, validate}
use backend_pae_account_mult.Pipeline.Puc.{
  PucDb, hydrate_contador_account_names, normalize_contador_puc_codes,
}
use backend_pae_account_mult.Pipeline.Nodes.{
  push_history, dumped, with_raw_contador, raw_contador, contador_rejected, contador_puc_rule,
  validate_contador_output_node, auditor_accepted, auditor_rejected, validate_auditor_output_node,
}

-- The fields that validation and the hand-over after it never change.
pub record Kept (s t : AgentState) : Type 0 where
  pub mode : t.mode ≡ s.mode
  pub raw_transactions : t.raw_transactions ≡ s.raw_transactions
  pub pending_transaction_id : t.pending_transaction_id ≡ s.pending_transaction_id
  pub doc_type : t.doc_type ≡ s.doc_type
  pub retry_budget : t.retry_budget ≡ s.retry_budget
  pub force_persist : t.force_persist ≡ s.force_persist
  pub audit_reports : t.audit_reports ≡ s.audit_reports
  pub unfixable_findings : t.unfixable_findings ≡ s.unfixable_findings

pub Kept-refl : (s : AgentState) → Kept s s
Kept-refl s = ground arith

pub Kept-trans : {s t u : AgentState} → Kept s t → Kept t u → Kept s u
Kept-trans p q = ground arith

contador_rejected-Kept : (s : AgentState) (r : ValidationResult) → Kept s (contador_rejected s r)
unfolding contador_rejected
contador_rejected-Kept s r = ground arith

contador_puc_rule-Kept :
    (db : PucDb) (s : AgentState) (o : Output) (n : ℕ) → Kept s (contador_puc_rule db s o n)
unfolding contador_puc_rule
contador_puc_rule-Kept db s o n = ground arith

push-Kept :
    (s : AgentState) (raw : Output) (r : ValidationResult)
    → Kept s (
        push_history
          (append_log (with_raw_contador s raw) Agent.contador "validation_start")
          Agent.contador
          r)
unfolding append_log
push-Kept s raw r = ground arith

pub validate_contador-Kept :
    (schemas : Schemas) (db : PucDb) (s : AgentState)
    → Kept s (validate_contador_output_node schemas db s)
unfolding validate_contador_output_node
validate_contador-Kept schemas db s =
    let raw = hydrate_contador_account_names db (raw_contador s) in
    let n = s.retry_count + 1 in
    let r = validate schemas Agent.contador raw n in
    let s' =
      push_history (append_log (with_raw_contador s raw) Agent.contador "validation_start")
        Agent.contador r in
    let o = normalize_contador_puc_codes db (dumped r raw) in
    ground (arith, push-Kept s raw r, contador_rejected-Kept s' r, contador_puc_rule-Kept db s' o n)

pub validate_auditor-Kept :
    (schemas : Schemas) (s : AgentState) → Kept s (validate_auditor_output_node schemas s)
unfolding validate_auditor_output_node auditor_accepted auditor_rejected
validate_auditor-Kept schemas s = ground arith
