-- ===== src/Pipeline/Validator.antt =====
-- app/services/validation_engine.py. The schemas belong to an outside library: checking an output
-- against the schema of an agent is a parameter. The history of compliance records is threaded as a
-- value; the rates, which are rounded fractions, are given by their two counts.
pub mod Totals
use backend_pae_account_mult.Prelude.{
  ℕ, Bool, true, false, not, ◌&&◌, Option, none, some, List, [], ◌∷◌, ◌++◌, length, filter, ltb,
  ◌-◌,
}
use backend_pae_account_mult.Prelude.Texts.{String}
use backend_pae_account_mult.Pipeline.State.{Agent, Output, SchemaError}

-- What `schema_cls.model_validate(raw_output)` does: it gives a model, raises a ValidationError with
-- its errors, or raises another exception.
pub data Check : Type 0 where
  passes : Output → Check
  fails : List SchemaError → Check
  raises : String → Check

-- `AGENT_OUTPUT_SCHEMAS`: whether an agent has a schema, and what the schema does.
pub record Schemas : Type 0 where
  pub registered : Agent → Bool
  pub check : Agent → Output → Check

pub data ValidationStatus : Type 0 where
  valid invalid failed : ValidationStatus

pub record ValidationResult : Type 0 where
  pub agent_name : Agent
  pub status : ValidationStatus
  pub validated_output : Option Output
  pub errors : List SchemaError
  pub attempt : ℕ

abbrev pub status_valid : ValidationStatus → Bool
status_valid ValidationStatus.valid = true
status_valid _ = false

-- `result.is_valid`.
abbrev pub is_valid : ValidationResult → Bool
is_valid r = status_valid r.status

pub record ComplianceRecord : Type 0 where
  pub agent_name : Agent
  pub is_compliant : Bool
  pub attempt : ℕ
  pub errors_count : ℕ

abbrev pub max_retries : ℕ
max_retries = 3

abbrev pub result_of_check : Agent → ℕ → Check → ValidationResult
result_of_check agent attempt (passes o) = record {
  agent_name = agent;
  status = ValidationStatus.valid;
  validated_output = some o;
  errors = [];
  attempt = attempt;
}
result_of_check agent attempt (fails errors) = record {
  agent_name = agent;
  status = ValidationStatus.invalid;
  validated_output = none;
  errors = errors;
  attempt = attempt;
}
result_of_check agent attempt (raises message) = record {
  agent_name = agent;
  status = ValidationStatus.failed;
  validated_output = none;
  errors = message ∷ [];
  attempt = attempt;
}

unfoldable pub validate : Schemas → Agent → Output → ℕ → ValidationResult
validate schemas agent raw attempt = elim (schemas.registered agent) [
  | true ↦ result_of_check agent attempt (schemas.check agent raw)
  | false ↦ result_of_check agent attempt (raises "No schema registered for agent")
]

-- `_record`, at the end of `validate`.
unfoldable pub record_compliance : List ComplianceRecord → ValidationResult → List ComplianceRecord
record_compliance history r =
    history
    ++ (record {
      agent_name = r.agent_name;
      is_compliant = is_valid r;
      attempt = r.attempt;
      errors_count = length r.errors;
    }
        ∷ [])

unfoldable pub should_retry : ValidationResult → Bool
should_retry r = not (is_valid r) && ltb r.attempt max_retries

pub record Metrics : Type 0 where
  pub total_validations : ℕ
  pub total_passed : ℕ
  pub total_failed : ℕ

abbrev pub compliant : ComplianceRecord → Bool
compliant c = c.is_compliant

-- The totals of `get_metrics`; `overall_compliance_rate` is total_passed / total_validations.
unfoldable pub get_metrics : List ComplianceRecord → Metrics
get_metrics history =
    let passed = length (filter compliant history) in
    record {
      total_validations = length history;
      total_passed = passed;
      total_failed = length history - passed;
    }
