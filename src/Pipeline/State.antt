-- ===== src/Pipeline/State.antt =====
-- The shared state of the agents (app/agents/state.py), its initial value (app/agents/graph.py) and
-- `append_log` (app/agents/agent_utils.py).
--
-- An error or a correction prompt is a value that says which text the program builds, since the
-- program only asks whether there is one. A log entry keeps the agent and the event; its time and
-- its details are left out. `Output` stands for the dicts that agents hand on: only the keys that
-- routing, validation and auditing read are kept, and `empty` is the empty dict.
use backend_pae_account_mult.Prelude.{ℕ, Bool, true, false, Option, none, some, List, [], ◌∷◌, ◌++◌}
use backend_pae_account_mult.Prelude.Int.{ℤ, pos}
use backend_pae_account_mult.Prelude.Texts.{String}
use backend_pae_account_mult.Pipeline.Audit.{
  AuditFinding, AuditReport, GiveUpRecord, ResponsibleAgent,
}

-- The node names that the source writes to `current_agent`; `start` is the empty string.
pub data Agent : Type 0 where
  start ingesta ingest import_existing contador tributario auditor db_persist persist : Agent
  reportero review_terminal audit_review_terminal error_terminal supervisor : Agent
  unknown : String → Agent

pub data Mode : Type 0 where
  ingest process reporting : Mode

pub data Movement : Type 0 where
  debito credito other : Movement

-- One line of the contador's journal entry: an amount in centavos, none where the text is no number.
pub record Asiento : Type 0 where
  pub tipo_movimiento : Movement
  pub cuenta_puc : List ℕ
  pub nombre_cuenta : List ℕ
  pub descripcion : List ℕ
  pub valor : Option ℤ

-- A key that may be missing, or hold a value of another type, is an option.
pub record ContadorOutput : Type 0 where
  pub fecha_registro : Option String
  pub descripcion_general : List ℕ
  pub asientos : List Asiento

-- One tax line: its kind, its rate in ten-thousandths and its amount in centavos.
pub record Impuesto : Type 0 where
  pub tipo : List ℕ
  pub tarifa : Option ℤ
  pub valor_impuesto : Option ℤ

pub record TributarioOutput : Type 0 where
  pub documento_referencia : List ℕ
  pub aplica_impuestos : Bool
  pub impuestos : Option (List Impuesto)
  pub total_impuestos : Option ℤ
  pub asientos_enriquecidos : Option (List Asiento)

pub data Output : Type 0 where
  empty : Output
  contador : ContadorOutput → Output
  tributario : TributarioOutput → Output
  auditor : Bool → Option String → Output

-- `output.get("asientos", [])`.
abbrev pub asientos_of : Output → List Asiento
asientos_of (Output.contador c) = c.asientos
asientos_of _ = []

-- `output["asientos"] = …`, where the output has that key.
abbrev pub set_asientos : Output → List Asiento → Output
set_asientos (Output.contador c) asientos = Output.contador (record c { asientos = asientos })
set_asientos output asientos = output

abbrev pub is_output : Output → Bool
is_output Output.empty = false
is_output _ = true

-- A field error of the schema library, of which only the number is reported.
abbrev pub SchemaError : Type 0
SchemaError = String

pub data Error : Type 0 where
  no_transactions unknown_agent puc_lookup_failed tributario_schema : Error
  schema_exhausted : Agent → ℕ → Error
  unfixable_blockers : List String → Error
  agent_failed : Agent → Error
  persist_failed : Error

pub data Feedback : Type 0 where
  schema_errors : List SchemaError → Feedback
  missing_puc : List (List ℕ) → Feedback
  rejected : String → Feedback
  pinpointed : List AuditFinding → Feedback

pub record ValidationRecord : Type 0 where
  pub agent_name : Agent
  pub attempt : ℕ
  pub is_valid : Bool
  pub errors : List SchemaError

pub record LogEntry : Type 0 where
  pub agent : Agent
  pub event : String

-- A staged transaction: the fields that the routing and the pre-persist audit read.
pub record Transaction : Type 0 where
  pub fecha : Option String
  pub needs_user_fecha : Bool
  pub referencia : List ℕ
  pub descripcion : List ℕ

-- `retry_budget`: what is left for each responsible agent, where it has an entry.
pub record RetryBudget : Type 0 where
  pub ingest : Option ℤ
  pub contador : Option ℤ
  pub tributario : Option ℤ
  pub persist : Option ℤ
  pub db_persist : Option ℤ

-- The `result` dict, of which the graph's callers read these keys.
pub record Result : Type 0 where
  pub status : Option String
  pub failure : Option Error
  pub validated_data : Option Output
  pub validation_errors : List SchemaError
  pub giveup_record : Option GiveUpRecord
  pub audit_rejection_reason : Option String

abbrev pub no_result : Result
no_result = record {
  status = none;
  failure = none;
  validated_data = none;
  validation_errors = [];
  giveup_record = none;
  audit_rejection_reason = none;
}

pub record AgentState : Type 0 where
  pub mode : Mode
  pub current_agent : Agent
  pub current_stage : Option String
  pub failure : Option Error
  pub correction_feedback : Option Feedback
  pub retry_count : ℕ
  pub validation_history : List ValidationRecord
  pub agent_log : List LogEntry
  pub raw_transactions : List Transaction
  pub interpreted_data : Output
  pub contador_output : Output
  pub tributario_output : Output
  pub auditor_output : Output
  pub result : Result
  pub pending_transaction_id : String
  pub audit_approved : Option Bool
  pub audit_rejection_reason : Option String
  pub audit_decision : Option String
  pub audit_feedback : Option String
  pub audit_rejection_count : ℕ
  pub doc_type : String
  pub pipeline_warnings : List AuditFinding
  pub unfixable_findings : List AuditFinding
  pub audit_reports : List AuditReport
  pub retry_budget : RetryBudget
  pub giveup_record : Option GiveUpRecord
  pub force_persist : Bool
  pub needs_hitl_review : Bool
  pub has_warnings : Bool

-- `append_log(state, agent, event, …)`.
unfoldable pub append_log : AgentState → Agent → String → AgentState
append_log s agent event = record s {
  agent_log = s.agent_log ++ (record { agent = agent; event = event } ∷ []);
}

-- `RETRY_BUDGETS.get(target)`.
abbrev pub retry_budgets : RetryBudget
retry_budgets = record {
  ingest = some (pos 1);
  contador = some (pos 2);
  tributario = some (pos 2);
  persist = none;
  db_persist = none;
}

abbrev pub budget_get : RetryBudget → ResponsibleAgent → Option ℤ
budget_get b ResponsibleAgent.ingest = b.ingest
budget_get b ResponsibleAgent.contador = b.contador
budget_get b ResponsibleAgent.tributario = b.tributario
budget_get b ResponsibleAgent.persist = b.persist
budget_get b ResponsibleAgent.db_persist = b.db_persist

abbrev pub budget_set : RetryBudget → ResponsibleAgent → ℤ → RetryBudget
budget_set b ResponsibleAgent.ingest n = record b { ingest = some n }
budget_set b ResponsibleAgent.contador n = record b { contador = some n }
budget_set b ResponsibleAgent.tributario n = record b { tributario = some n }
budget_set b ResponsibleAgent.persist n = record b { persist = some n }
budget_set b ResponsibleAgent.db_persist n = record b { db_persist = some n }

-- What `invoke_accounting_pipeline` hands to the graph: `_base_state()` with its own fields set.
unfoldable pub accounting_state : List Transaction → String → String → Bool → AgentState
accounting_state raw_transactions pending_transaction_id doc_type force_persist = record {
  mode = Mode.process;
  current_agent = Agent.start;
  current_stage = some "queued";
  failure = none;
  correction_feedback = none;
  retry_count = 0;
  validation_history = [];
  agent_log = [];
  raw_transactions = raw_transactions;
  interpreted_data = Output.empty;
  contador_output = Output.empty;
  tributario_output = Output.empty;
  auditor_output = Output.empty;
  result = no_result;
  pending_transaction_id = pending_transaction_id;
  audit_approved = none;
  audit_rejection_reason = none;
  audit_decision = none;
  audit_feedback = none;
  audit_rejection_count = 0;
  doc_type = doc_type;
  pipeline_warnings = [];
  unfixable_findings = [];
  audit_reports = [];
  retry_budget = retry_budgets;
  giveup_record = none;
  force_persist = force_persist;
  needs_hitl_review = false;
  has_warnings = false;
}
