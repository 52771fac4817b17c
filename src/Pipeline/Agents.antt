-- ===== src/Pipeline/Agents.antt =====
-- The agent nodes that the graph runs between two visits of the supervisor: what contador_node,
-- tributario_node, auditor_node and db_persist_node (app/agents) do to the shared state. What the
-- language model, the retrieval service and the database answer is the argument `Reply`; which
-- output it leads to inside the node is not modelled.
use backend_pae_account_mult.Prelude.{
  Bool, true, not, ◌||◌, Option, none, some, List, filter, is_empty, if◌then◌else◌,
}
use backend_pae_account_mult.Prelude.Texts.{String}
use backend_pae_account_mult.Pipeline.Audit.{
  ResponsibleAgent, AuditFinding, AuditReport, finding_blocks,
}
use backend_pae_account_mult.Pipeline.State.{
  Agent, Error, Asiento, Output, is_output, asientos_of, set_asientos, TributarioOutput, AgentState,
  append_log,
}
use backend_pae_account_mult.Pipeline.Findings.{append_findings, append_audit_report, record_giveup}
use backend_pae_account_mult.Pipeline.Nodes.{aprobado_of, resumen_of, raw_contador}
use backend_pae_account_mult.Pipeline.Auditors.{contador_run, tributario_run, pre_persist_run}

-- The node ends with an output, or with an exception; `findings` are those that it records on the
-- way, such as a failed lookup.
pub data Reply : Type 0 where
  completed : List AuditFinding → Output → Reply
  failed : List AuditFinding → Reply

-- The tributario also skips documents that carry no tax of their own, and logs why.
pub data TributarioReply : Type 0 where
  completed : TributarioOutput → List Asiento → TributarioReply
  skipped : TributarioOutput → String → TributarioReply
  failed : TributarioReply

-- What the outside world does while the entries are written.
pub record PersistReply : Type 0 where
  pub semaphore : Bool
  pub cancelled : Bool
  pub written : Bool

abbrev pub fail_node : AgentState → Agent → AgentState
fail_node s agent =
    append_log
      (record s {
        failure = some (Error.agent_failed agent);
        result = record (s.result) {
          status = some "error";
          failure = some (Error.agent_failed agent);
        };
      })
      agent "node_error"

abbrev pub enter_node : AgentState → Agent → String → AgentState
enter_node s agent stage =
    append_log (record s { current_agent = agent; current_stage = some stage }) agent "node_start"

-- The end of `contador_node`.
unfoldable pub contador_reply : AgentState → Reply → AgentState
unfolding append_log append_findings
contador_reply s (Reply.completed findings o) =
    append_log
      (record (append_findings s findings) {
        correction_feedback = none;
        contador_output = o;
        interpreted_data = o;
        result = record (s.result) { status = some "clasificado" };
      })
      Agent.contador "node_complete"
contador_reply s (Reply.failed findings) = fail_node (append_findings s findings) Agent.contador

unfoldable pub contador_node : Reply → AgentState → AgentState
contador_node reply s = elim s.failure [
  | some e ↦ s
  | none ↦
      if is_empty s.raw_transactions
      then record s { failure = some (Error.agent_failed Agent.contador) }
      else contador_reply (enter_node s Agent.contador "contador") reply
]

-- The enriched lines go back into the contador's output.
abbrev pub tributario_booked : AgentState → TributarioOutput → List Asiento → AgentState
tributario_booked s t asientos =
    append_log
      (append_log
        (record s {
          tributario_output = Output.tributario t;
          interpreted_data = Output.tributario t;
          current_agent = Agent.tributario;
          current_stage = some "tributario_complete";
          correction_feedback = none;
          contador_output = set_asientos s.contador_output asientos;
        })
        Agent.tributario "enrichment_propagated")
      Agent.tributario "node_complete"

-- The end of `tributario_node`: its own audit follows the booking.
unfoldable pub tributario_reply : AgentState → TributarioReply → AgentState
tributario_reply s (TributarioReply.completed t asientos) =
    append_audit_report (tributario_booked s t asientos)
      (tributario_run (tributario_booked s t asientos) 1)
tributario_reply s (TributarioReply.skipped t event) =
    append_log
      (record s {
        tributario_output = Output.tributario t;
        interpreted_data = Output.tributario t;
        current_agent = Agent.tributario;
        current_stage = some "tributario_complete";
      })
      Agent.tributario event
tributario_reply s TributarioReply.failed =
    append_log (record s { failure = some (Error.agent_failed Agent.tributario) }) Agent.tributario
      "node_error"

unfoldable pub tributario_node : TributarioReply → AgentState → AgentState
tributario_node reply s = elim s.failure [
  | some e ↦ s
  | none ↦
      if is_output s.contador_output
      then tributario_reply s reply
      else append_log (record s { failure = some (Error.agent_failed Agent.tributario) })
          Agent.tributario "node_error"
]

-- The end of `auditor_node`, after its deterministic report.
unfoldable pub auditor_reply : AgentState → Reply → AgentState
unfolding append_log append_findings
auditor_reply s (Reply.completed findings o) =
    let reason = if aprobado_of o then none else resumen_of o in
    append_log
      (record (append_findings s findings) {
        correction_feedback = none;
        auditor_output = o;
        audit_approved = some (aprobado_of o);
        audit_rejection_reason = reason;
        audit_decision = some (if aprobado_of o then "approved" else "rejected");
        audit_feedback = if aprobado_of o then some "" else resumen_of o;
      })
      Agent.auditor "node_complete"
auditor_reply s (Reply.failed findings) = fail_node (append_findings s findings) Agent.auditor

unfoldable pub auditor_node : Reply → AgentState → AgentState
auditor_node reply s = elim s.failure [
  | some e ↦ s
  | none ↦
      if is_output s.contador_output
      then auditor_reply
          (append_audit_report (enter_node s Agent.auditor "auditor")
            (contador_run (enter_node s Agent.auditor "auditor") 1))
          reply
      else record s { failure = some (Error.agent_failed Agent.auditor) }
]

abbrev pub not_blocking : AuditFinding → Bool
not_blocking f = not (finding_blocks f)

-- The pre-persist gate: the blockers of its report, else those that the state carries.
abbrev pub gate_blockers : AuditReport → AgentState → List AuditFinding
gate_blockers r s =
    let report_blockers = filter finding_blocks r.findings in
    if is_empty report_blockers then filter finding_blocks s.unfixable_findings else report_blockers

-- The state that the node leaves, with the lines that were handed to the writing part.
abbrev pub Persisted : Type 0
Persisted = AgentState × Option (List Asiento)

-- From `if mode == "process":` on, once the gate is passed.
unfoldable pub write_entries : PersistReply → AgentState → Persisted
unfolding append_log
write_entries reply s =
    let asientos = asientos_of (raw_contador s) in
    if is_empty asientos || not reply.written
    then (
      append_log (record s { failure = some Error.persist_failed }) Agent.db_persist "node_error",
      none,
    )
    else (append_log s Agent.db_persist "node_complete", some asientos)

-- `_run_persist` in process mode.
unfoldable pub run_persist : (Option String → Bool) → PersistReply → AgentState → Persisted
run_persist readable reply s =
    if reply.cancelled
    then (
      append_log (append_log s Agent.db_persist "cancelled") Agent.db_persist "node_complete",
      none,
    )
    else if s.force_persist
    then write_entries reply
        (record s { unfixable_findings = filter not_blocking s.unfixable_findings })
    else (let report = pre_persist_run readable s 1 in
        let s' = append_audit_report s report in
        let blockers = gate_blockers report s' in
        if is_empty blockers then write_entries reply s' else (
          append_log
              (record (record_giveup s' ResponsibleAgent.persist blockers (some 1)) {
                current_agent = Agent.audit_review_terminal;
                needs_hitl_review = true;
              })
              Agent.db_persist "node_complete",
          none,
        ))

unfoldable pub db_persist_node : (Option String → Bool) → PersistReply → AgentState → Persisted
db_persist_node readable reply s = elim s.failure [
  | some e ↦ (s, none)
  | none ↦
      let s' = append_log s Agent.db_persist "node_start" in
      if reply.semaphore then run_persist readable reply s' else (
        append_log (record s' { failure = some Error.persist_failed }) Agent.db_persist
            "semaphore_timeout",
        none,
      )
]
