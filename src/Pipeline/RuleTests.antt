-- ===== src/Pipeline/RuleTests.antt =====
-- The rules of single components at concrete inputs: the account table, the buckets of findings,
-- the totals of the validator, the contador's hand-over.
use backend_pae_account_mult.Prelude.{
  ◌≡◌, refl, true, false, Option, none, some, List, [], ◌∷◌, if◌then◌else◌,
}
use backend_pae_account_mult.Prelude.Texts.{codes, codes_eq, strip}
use backend_pae_account_mult.Pipeline.Audit.{AuditReport}
use backend_pae_account_mult.Pipeline.State.{Agent, AgentState, append_log, accounting_state}
use backend_pae_account_mult.Pipeline.Validator.{
  ValidationStatus, ValidationResult, ComplianceRecord, validate,
}
use backend_pae_account_mult.Pipeline.Puc.{
  Code, PucDb, resolve_puc_code, missing_puc_codes, hydrate_contador_account_names, hydrate_asiento,
  normalize_contador_puc_codes, normalize_asiento, checked_codes, name_of,
}
use backend_pae_account_mult.Pipeline.Nodes.{
  validate_contador_output_node, contador_puc_rule, contador_accepted,
}
use backend_pae_account_mult.Pipeline.Nodes.Accounts.{route_contador-accounts}
use backend_pae_account_mult.Pipeline.Router.{route_contador, after_contador}
use backend_pae_account_mult.Pipeline.Auditors.{pre_persist_run}
use backend_pae_account_mult.Pipeline.Tests.{
  open_setup, is_dated, receipt_lines, booked, lopsided_lines,
}

-- A table with one account.
abbrev cash_account : Code → Option Code
cash_account c = if codes_eq c (codes "1105") then some (codes "Caja") else none

abbrev cash_only : PucDb
cash_only = record { account = cash_account; lookup_fails = false }

-- The contador has answered, and the supervisor takes it in.
abbrev answered : AgentState
answered = record (booked receipt_lines) { current_agent = Agent.contador }

route_contador-accounts_example :
    missing_puc_codes open_setup.db
      (route_contador open_setup.schemas open_setup.db answered).contador_output
    ≡ some []
unfolding accounting_state route_contador after_contador append_log validate_contador_output_node
    contador_puc_rule contador_accepted validate hydrate_contador_account_names hydrate_asiento
    normalize_contador_puc_codes normalize_asiento resolve_puc_code missing_puc_codes checked_codes
    name_of strip
route_contador-accounts_example =
    route_contador-accounts open_setup.schemas open_setup.db answered refl refl

abbrev lopsided_report : AuditReport
lopsided_report = pre_persist_run is_dated (booked lopsided_lines) 1

abbrev one_pass : List ComplianceRecord
one_pass =
    record { agent_name = Agent.contador; is_compliant = true; attempt = 1; errors_count = 0 } ∷ []

abbrev a_failure : ValidationResult
a_failure = record {
  agent_name = Agent.auditor;
  status = ValidationStatus.invalid;
  validated_output = none;
  errors = "missing" ∷ [];
  attempt = 1;
}
