-- ===== src/Pipeline/Tests.antt =====
-- Concrete runs of the pipeline: a receipt that is booked, approved and written, one whose entry
-- does not balance, and the theorems of the pipeline at these runs.
use backend_pae_account_mult.Prelude.{
  ℕ, ◌≡◌, ◌≢◌, refl, ◌⊎◌, Bool, true, false, not, ◌||◌, Option, none, some, List, [], ◌∷◌, any,
  is_empty,
}
use backend_pae_account_mult.Prelude.Int.{ℤ, pos, ◌+ℤ◌, ◌-ℤ◌, abs}
use backend_pae_account_mult.Prelude.Texts.{String, codes, strip}
use backend_pae_account_mult.Pipeline.Audit.{finding_blocks}
use backend_pae_account_mult.Pipeline.State.{
  Agent, Movement, Asiento, TributarioOutput, Output, Transaction, AgentState, append_log,
  accounting_state, asientos_of,
}
use backend_pae_account_mult.Pipeline.Validator.{Check, passes, validate}
use backend_pae_account_mult.Pipeline.Puc.{
  Code, hydrate_contador_account_names, hydrate_asiento, normalize_contador_puc_codes,
  normalize_asiento, resolve_puc_code, missing_puc_codes, checked_codes, name_of,
}
use backend_pae_account_mult.Pipeline.Findings.{
  append_finding, append_findings, push_report, append_audit_report,
}
use backend_pae_account_mult.Pipeline.Nodes.{
  validate_contador_output_node, contador_puc_rule, contador_accepted, validate_auditor_output_node,
  auditor_accepted,
}
use backend_pae_account_mult.Pipeline.Tributario.{
  normalize_tributario_output, calculated_total, document_reference,
}
use backend_pae_account_mult.Pipeline.Router.{
  route_process, route_start, route_contador, after_contador, route_tributario, route_auditor,
  after_auditor, route_after_supervisor, is_single_pass,
}
use backend_pae_account_mult.Pipeline.Auditors.{
  total_debitos, total_creditos, is_unbalanced, contador_findings, contador_run, iva_findings,
  tributario_run, same_row, row_findings, asiento_findings, pre_persist_findings, pre_persist_run,
  blank, asks_for_fecha, raw_fecha,
}
use backend_pae_account_mult.Pipeline.Auditors.Gate.{pre_persist-blocks}
use backend_pae_account_mult.Pipeline.Agents.{
  Reply, TributarioReply, PersistReply, contador_node, contador_reply, tributario_node,
  tributario_reply, auditor_node, auditor_reply, db_persist_node, run_persist, write_entries,
}
use backend_pae_account_mult.Pipeline.Graph.{
  Setup, Answers, Node, Machine, supervise, step, run, start_machine,
}
use backend_pae_account_mult.Pipeline.Graph.Termination.{run_finishes}
use backend_pae_account_mult.Pipeline.Graph.Safety.{IsPostable, db_persist_node-IsPostable}
use backend_pae_account_mult.Pipeline.Graph.Posting.{posted_IsEntry}
use backend_pae_account_mult.Pipeline.Graph.Forced.{forced_run_skips_review}
use backend_pae_account_mult.Pipeline.Graph.Approval.{db_persist_needs_approval, auditor_targets}

abbrev pub keep_output : Agent → Output → Check
keep_output agent o = passes o

abbrev pub any_account : Code → Option Code
any_account c = some (codes "Cuenta")

abbrev pub is_dated : Option String → Bool
is_dated none = false
is_dated (some t) = true

abbrev pub open_setup : Setup
open_setup = record {
  schemas = record { registered = λ a. true; check = keep_output };
  db = record { account = any_account; lookup_fails = false };
  readable = is_dated;
}

abbrev asiento : Movement → String → ℤ → Asiento
asiento movement cuenta valor = record {
  tipo_movimiento = movement;
  cuenta_puc = codes cuenta;
  nombre_cuenta = codes "C";
  descripcion = codes "d";
  valor = some valor;
}

-- Debits of 11.90 against credits of 10.00 and 1.90.
abbrev pub receipt_lines : List Asiento
receipt_lines =
    asiento Movement.debito "1105" (pos 1190)
    ∷ asiento Movement.credito "4135" (pos 1000)
    ∷ asiento Movement.credito "2408" (pos 190)
    ∷ []

abbrev pub receipt_output : List Asiento → Output
receipt_output asientos = Output.contador (record {
  fecha_registro = some "2026-01-15";
  descripcion_general = codes "recibo";
  asientos = asientos;
})

abbrev no_taxes : TributarioOutput
no_taxes = record {
  documento_referencia = codes "R1";
  aplica_impuestos = false;
  impuestos = some [];
  total_impuestos = none;
  asientos_enriquecidos = none;
}

abbrev approving : Machine → Answers
approving m = record {
  contador = Reply.completed [] (receipt_output receipt_lines);
  tributario = TributarioReply.completed no_taxes receipt_lines;
  auditor = Reply.completed [] (Output.auditor true none);
  persist = record { semaphore = true; cancelled = false; written = true };
}

abbrev pub receipts : List Transaction
receipts =
    record {
      fecha = some "2026-01-15";
      needs_user_fecha = false;
      referencia = codes "R1";
      descripcion = [];
    }
    ∷ []

approved_run_posts :
    (run open_setup approving 8 (start_machine receipts "p1" "recibo_caja" false)).posted
    ≡ some receipt_lines
unfolding run step start_machine accounting_state append_log supervise route_process route_start
    route_contador after_contador route_tributario route_auditor after_auditor
    route_after_supervisor validate hydrate_contador_account_names hydrate_asiento
    normalize_contador_puc_codes normalize_asiento resolve_puc_code missing_puc_codes checked_codes
    name_of strip append_finding append_findings push_report append_audit_report
    validate_contador_output_node contador_puc_rule contador_accepted validate_auditor_output_node
    auditor_accepted normalize_tributario_output calculated_total document_reference total_debitos
    total_creditos is_unbalanced contador_findings contador_run iva_findings tributario_run same_row
    row_findings asiento_findings pre_persist_findings pre_persist_run contador_node contador_reply
    tributario_node tributario_reply auditor_node auditor_reply db_persist_node run_persist
    write_entries ◌+ℤ◌ ◌-ℤ◌ abs
approved_run_posts = refl

abbrev approved_run : ℕ → Machine
approved_run n = run open_setup approving n (start_machine receipts "p1" "recibo_caja" false)

-- After seven nodes the run stands at db_persist.
abbrev to_persist : Machine
to_persist = approved_run 7

to_persist-node : to_persist.node ≡ Node.db_persist
unfolding run step start_machine accounting_state append_log supervise route_process route_start
    route_contador after_contador route_tributario route_auditor after_auditor
    route_after_supervisor validate hydrate_contador_account_names hydrate_asiento
    normalize_contador_puc_codes normalize_asiento resolve_puc_code missing_puc_codes checked_codes
    name_of strip append_finding append_findings push_report append_audit_report
    validate_contador_output_node contador_puc_rule contador_accepted validate_auditor_output_node
    auditor_accepted normalize_tributario_output calculated_total document_reference total_debitos
    total_creditos is_unbalanced contador_findings contador_run iva_findings tributario_run same_row
    row_findings asiento_findings pre_persist_findings pre_persist_run contador_node contador_reply
    tributario_node tributario_reply auditor_node auditor_reply db_persist_node run_persist
    write_entries ◌+ℤ◌ ◌-ℤ◌ abs
to_persist-node = refl

-- After six nodes it stands at the supervisor, with the auditor's verdict.
abbrev to_verdict : Machine
to_verdict = approved_run 6

to_verdict-node :
    (to_verdict.node ≡ Node.supervisor) × (to_verdict.state.current_agent ≡ Agent.auditor)
unfolding run step start_machine accounting_state append_log supervise route_process route_start
    route_contador after_contador route_tributario route_auditor after_auditor
    route_after_supervisor validate hydrate_contador_account_names hydrate_asiento
    normalize_contador_puc_codes normalize_asiento resolve_puc_code missing_puc_codes checked_codes
    name_of strip append_finding append_findings push_report append_audit_report
    validate_contador_output_node contador_puc_rule contador_accepted validate_auditor_output_node
    auditor_accepted normalize_tributario_output calculated_total document_reference total_debitos
    total_creditos is_unbalanced contador_findings contador_run iva_findings tributario_run same_row
    row_findings asiento_findings pre_persist_findings pre_persist_run contador_node contador_reply
    tributario_node tributario_reply auditor_node auditor_reply db_persist_node run_persist
    write_entries ◌+ℤ◌ ◌-ℤ◌ abs
to_verdict-node = (refl, refl)

run_finishes_example :
    (run open_setup approving 52 (start_machine receipts "p1" "recibo_caja" false)).node
    ≡ Node.finished
run_finishes_example = run_finishes open_setup approving receipts "p1" "recibo_caja" false

posted_IsEntry_example :
    (is_empty receipt_lines ≡ false) × (is_unbalanced receipt_lines ≡ false) × (blank "p1" ≡ false)
posted_IsEntry_example =
    posted_IsEntry open_setup approving 8 receipts "p1" "recibo_caja" approved_run_posts

db_persist_needs_approval_example :
    (to_persist.state.force_persist ≡ true)
    ⊎ ((to_persist.state.audit_approved ≡ some true)
        ⊎ (is_single_pass to_persist.state.doc_type ≡ true))
db_persist_needs_approval_example =
    db_persist_needs_approval open_setup approving 7 receipts "p1" "recibo_caja" false refl
      to_persist-node

auditor_targets_example :
    ((step open_setup (approving to_verdict) to_verdict).node ≢ Node.tributario)
    × ((step open_setup (approving to_verdict) to_verdict).node ≢ Node.outside)
auditor_targets_example =
    auditor_targets open_setup approving 6 receipts "p1" "recibo_caja" false refl to_verdict-node.0
      to_verdict-node.1

forced_run_skips_review_example :
    (run open_setup approving 8 (start_machine receipts "p1" "recibo_caja" true)).node
    ≢ Node.audit_review_terminal
forced_run_skips_review_example =
    forced_run_skips_review open_setup approving 8 receipts "p1" "recibo_caja"

-- The state of a process run with lines that are given, before anything is audited.
abbrev pub booked : List Asiento → AgentState
booked asientos = record (accounting_state receipts "p1" "recibo_caja" false) {
  contador_output = receipt_output asientos;
}

abbrev pub lopsided_lines : List Asiento
lopsided_lines = asiento Movement.debito "1105" (pos 1190) ∷ []

pre_persist-blocks_example :
    any finding_blocks (pre_persist_findings is_dated (booked lopsided_lines)) ≡ (
      blank (booked lopsided_lines).pending_transaction_id
      || ((asks_for_fecha (booked lopsided_lines).raw_transactions
            || not (is_dated (raw_fecha (booked lopsided_lines))))
          || (is_empty (asientos_of (booked lopsided_lines).contador_output)
              || is_unbalanced (asientos_of (booked lopsided_lines).contador_output))))
pre_persist-blocks_example = pre_persist-blocks is_dated (booked lopsided_lines)

abbrev all_written : PersistReply
all_written = record { semaphore = true; cancelled = false; written = true }

db_persist_node-IsPostable_example : IsPostable is_dated (booked receipt_lines) receipt_lines
unfolding run step start_machine accounting_state append_log supervise route_process route_start
    route_contador after_contador route_tributario route_auditor after_auditor
    route_after_supervisor validate hydrate_contador_account_names hydrate_asiento
    normalize_contador_puc_codes normalize_asiento resolve_puc_code missing_puc_codes checked_codes
    name_of strip append_finding append_findings push_report append_audit_report
    validate_contador_output_node contador_puc_rule contador_accepted validate_auditor_output_node
    auditor_accepted normalize_tributario_output calculated_total document_reference total_debitos
    total_creditos is_unbalanced contador_findings contador_run iva_findings tributario_run same_row
    row_findings asiento_findings pre_persist_findings pre_persist_run contador_node contador_reply
    tributario_node tributario_reply auditor_node auditor_reply db_persist_node run_persist
    write_entries ◌+ℤ◌ ◌-ℤ◌ abs
db_persist_node-IsPostable_example =
    db_persist_node-IsPostable is_dated all_written (booked receipt_lines) refl refl refl
