-- ===== src/Pipeline/Nodes.antt =====
-- The validation nodes of app/agents/validation_rules.py. `hydrate` fills account names in place, in
-- the dict that the state holds, so the state is changed before the schema is checked.
pub mod Frame
pub mod Accounts
use backend_pae_account_mult.Prelude.{
  ℕ, ◌+◌, Bool, true, false, Option, none, some, List, [], ◌∷◌, ◌++◌, map, ltb, is_empty,
  if◌then◌else◌,
}
use backend_pae_account_mult.Prelude.Texts.{String}
use backend_pae_account_mult.Pipeline.Audit.{Severity, AuditTarget, ResponsibleAgent, AuditFinding}
use backend_pae_account_mult.Pipeline.State.{
  Agent, Output, is_output, asientos_of, set_asientos, Error, Feedback, AgentState, append_log,
}
use backend_pae_account_mult.Pipeline.Findings.{record_giveup}
use backend_pae_account_mult.Pipeline.Validator.{
  Schemas, ValidationResult, is_valid, validate, should_retry, max_retries,
}
use backend_pae_account_mult.Pipeline.Puc.{
  Code, PucDb, hydrate_contador_account_names, normalize_contador_puc_codes, missing_puc_codes,
  remap_asiento,
}

-- `state["validation_history"].append(…)`.
abbrev pub push_history : AgentState → Agent → ValidationResult → AgentState
push_history s agent r = record s {
  validation_history =
      s.validation_history
      ++ (record {
        agent_name = agent;
        attempt = r.attempt;
        is_valid = is_valid r;
        errors = r.errors;
      }
          ∷ []);
}

-- `result.validated_output.model_dump() if result.validated_output else raw_output`.
abbrev pub dumped : ValidationResult → Output → Output
dumped r raw = elim r.validated_output [ none ↦ raw | some o ↦ o ]

abbrev pub retry_with : AgentState → Feedback → ℕ → AgentState
retry_with s feedback attempt = record s {
  correction_feedback = some feedback;
  retry_count = attempt;
}

-- Where the schema rejects an output in the ingest graph.
unfoldable pub output_rejected : AgentState → Agent → ValidationResult → AgentState
unfolding should_retry append_log
output_rejected s agent r =
    if should_retry r
    then append_log (retry_with s (Feedback.schema_errors r.errors) r.attempt) agent
        "validation_failure"
    else append_log
        (record s {
          failure = some (Error.schema_exhausted agent r.attempt);
          correction_feedback = none;
          result = record (s.result) {
            status = some "validation_error";
            validation_errors = r.errors;
          };
        })
        agent "validation_exhausted"

abbrev pub output_accepted : AgentState → Agent → ValidationResult → AgentState
output_accepted s agent r =
    let data' : Option Output = elim r.validated_output [
      | none ↦ s.result.validated_data
      | some o ↦ some o
    ] in
    append_log
      (record s {
        correction_feedback = none;
        retry_count = 0;
        result = record (s.result) { validated_data = data' };
      })
      agent "validation_success"

unfoldable pub validate_output_node : Schemas → AgentState → AgentState
validate_output_node schemas s = elim s.failure [
  | some e ↦ s
  | none ↦
      let agent = s.current_agent in
      let r = validate schemas agent s.interpreted_data (s.retry_count + 1) in
      let s' = push_history (append_log s agent "validation_start") agent r in
      if is_valid r then output_accepted s' agent r else output_rejected s' agent r
]

-- The finding that stands for the exhausted retries of the contador.
abbrev pub contador_blocker : String → AuditFinding
contador_blocker rule_id = record {
  target = AuditTarget.contador;
  rule_id = rule_id;
  severity = Severity.blocker;
  fixable = false;
  responsible_agent = ResponsibleAgent.contador;
}

-- Both ways in which the contador's retries end without `force_persist` go to a human.
abbrev pub contador_handover : AgentState → String → ℕ → AgentState
contador_handover s rule_id attempt =
    let s' =
      record_giveup s ResponsibleAgent.contador (contador_blocker rule_id ∷ []) (some attempt) in
    append_log
      (record s' {
        current_agent = Agent.audit_review_terminal;
        needs_hitl_review = true;
        correction_feedback = none;
      })
      Agent.contador "validation_exhausted"

-- Exhausted retries of the schema under `force_persist`: the pipeline goes on.
unfoldable pub contador_forced : AgentState → ValidationResult → AgentState
unfolding append_log
contador_forced s r =
    let s' =
      append_log (record s { correction_feedback = none }) Agent.contador
        "validation_bypassed_force_persist" in
    elim r.validated_output [
      | none ↦ s'
      | some o ↦ record s' { result = record (s'.result) { validated_data = some o } }
    ]

-- `if not result.is_valid:` of `validate_contador_output_node`.
unfoldable pub contador_rejected : AgentState → ValidationResult → AgentState
unfolding should_retry append_log record_giveup contador_forced
contador_rejected s r =
    if should_retry r
    then append_log (retry_with s (Feedback.schema_errors r.errors) r.attempt) Agent.contador
        "validation_failure"
    else if s.force_persist
    then contador_forced s r
    else contador_handover
        (record s {
          result = record (s.result) {
            status = some "validation_error";
            validation_errors = r.errors;
          };
        })
        "SCHEMA_VALIDATION_EXHAUSTED" r.attempt

-- Missing codes under `force_persist`: the remapped output goes into the result only.
unfoldable pub contador_remapped : AgentState → Output → List Code → AgentState
unfolding append_log remap_asiento
contador_remapped s validated missing =
    let remapped = set_asientos validated (map (remap_asiento missing) (asientos_of validated)) in
    append_log
      (record s {
        result = record (s.result) { validated_data = some remapped };
        correction_feedback = none;
      })
      Agent.contador "validation_bypassed_force_persist"

-- `if missing:`.
unfoldable pub contador_missing_puc : AgentState → Output → List Code → ℕ → AgentState
unfolding append_log record_giveup contador_remapped
contador_missing_puc s validated missing attempt =
    if ltb attempt max_retries
    then append_log (retry_with s (Feedback.missing_puc missing) attempt) Agent.contador
        "validation_failure"
    else if s.force_persist
    then contador_remapped s validated missing
    else contador_handover s "PUC_CODES_NOT_FOUND" attempt

-- The end of `validate_contador_output_node`.
unfoldable pub contador_accepted : AgentState → Output → AgentState
unfolding append_log
contador_accepted s validated =
    append_log
      (record s {
        correction_feedback = none;
        retry_count = 0;
        contador_output = validated;
        interpreted_data = validated;
        current_stage = some "validated";
        result = record (s.result) { validated_data = some validated };
      })
      Agent.contador "validation_success"

-- From the validated output on: the PUC business rule.
unfoldable pub contador_puc_rule : PucDb → AgentState → Output → ℕ → AgentState
unfolding contador_missing_puc contador_accepted append_log missing_puc_codes
contador_puc_rule db s validated attempt = elim (missing_puc_codes db validated) [
  | none ↦
      append_log (record s { failure = some Error.puc_lookup_failed }) Agent.contador "node_error"
  | some missing ↦
      if is_empty missing
      then contador_accepted s validated
      else contador_missing_puc s validated missing attempt
]

abbrev pub raw_contador : AgentState → Output
raw_contador s = if is_output s.contador_output then s.contador_output else s.interpreted_data

-- The names are filled in the dict itself.
abbrev pub with_raw_contador : AgentState → Output → AgentState
with_raw_contador s raw =
    if is_output s.contador_output
    then record s { contador_output = raw }
    else record s { interpreted_data = raw }

unfoldable pub validate_contador_output_node : Schemas → PucDb → AgentState → AgentState
validate_contador_output_node schemas db s = elim s.failure [
  | some e ↦ s
  | none ↦
      let raw = hydrate_contador_account_names db (raw_contador s) in
      let attempt = s.retry_count + 1 in
      let r = validate schemas Agent.contador raw attempt in
      let s' =
        push_history (append_log (with_raw_contador s raw) Agent.contador "validation_start")
          Agent.contador r in
      if is_valid r
      then contador_puc_rule db s' (normalize_contador_puc_codes db (dumped r raw)) attempt
      else contador_rejected s' r
]

abbrev pub aprobado_of : Output → Bool
aprobado_of (Output.auditor aprobado resumen) = aprobado
aprobado_of _ = false

abbrev pub resumen_of : Output → Option String
resumen_of (Output.auditor aprobado resumen) = resumen
resumen_of _ = none

-- The end of `validate_auditor_output_node`: the decision goes into the state.
unfoldable pub auditor_accepted : AgentState → Output → AgentState
auditor_accepted s validated =
    let aprobado = aprobado_of validated in
    let reason = if aprobado then none else resumen_of validated in
    record s {
      audit_approved = some aprobado;
      audit_rejection_reason = reason;
      audit_decision = some (if aprobado then "approved" else "rejected");
      audit_feedback = reason;
      auditor_output = validated;
      correction_feedback = none;
      retry_count = 0;
      current_stage = some "audit_complete";
    }

unfoldable pub auditor_rejected : AgentState → ValidationResult → AgentState
unfolding should_retry
auditor_rejected s r =
    if should_retry r then retry_with s (Feedback.schema_errors r.errors) r.attempt else record s {
      failure = some (Error.schema_exhausted Agent.auditor r.attempt);
      result = record (s.result) { status = some "validation_error"; validation_errors = r.errors };
      correction_feedback = none;
    }

unfoldable pub validate_auditor_output_node : Schemas → AgentState → AgentState
validate_auditor_output_node schemas s = elim s.failure [
  | some e ↦ s
  | none ↦
      let raw = s.auditor_output in
      let r = validate schemas Agent.auditor raw (s.retry_count + 1) in
      let s' = push_history s Agent.auditor r in
      if is_valid r then auditor_accepted s' (dumped r raw) else auditor_rejected s' r
]
