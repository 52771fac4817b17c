-- ===== src/Pipeline/Router.antt =====
-- The supervisor: app/agents/routing/process_router.py, edge_functions.py and terminal_nodes.py, and
-- the dispatch by mode of app/agents/supervisor.py. Each branch of `route_process` is a function.
pub mod Frame
use backend_pae_account_mult.Prelude.{
  ℕ, ◌+◌, Bool, true, false, not, ◌&&◌, ◌||◌, Option, none, some, List, [], ◌∷◌, ◌++◌, map, ltb,
  leb, filter, length, is_empty, get_last?, if◌then◌else◌,
}
use backend_pae_account_mult.Prelude.Int.{ℤ, pos, ◌-ℤ◌, ltb_ℤ}
use backend_pae_account_mult.Prelude.Texts.{String, str_eq, or_else, truthy}
use backend_pae_account_mult.Pipeline.Audit.{
  ResponsibleAgent, AuditFinding, AuditReport, is_unfixable_blocker, finding_blocks, finding_errs,
}
use backend_pae_account_mult.Pipeline.State.{
  Agent, Mode, Error, Feedback, AgentState, append_log, budget_get, budget_set, retry_budgets,
}
use backend_pae_account_mult.Pipeline.Findings.{record_giveup, budget_or}
use backend_pae_account_mult.Pipeline.Validator.{Schemas, is_valid, validate}
use backend_pae_account_mult.Pipeline.Puc.{PucDb}
use backend_pae_account_mult.Pipeline.Nodes.{
  dumped, validate_contador_output_node, validate_auditor_output_node,
}
use backend_pae_account_mult.Pipeline.Tributario.{normalize_tributario_output}

abbrev pub max_contador_retries : ℕ
max_contador_retries = 3

abbrev pub max_auditor_retries : ℕ
max_auditor_retries = 3

abbrev pub global_audit_failures : ℕ
global_audit_failures = 5

-- `SINGLE_PASS_DOC_TYPES`.
unfoldable pub is_single_pass : String → Bool
is_single_pass doc_type =
    str_eq doc_type "extracto_bancario" || str_eq doc_type "conciliacion_bancaria"

-- Every hand-over of the supervisor is a change of `current_agent` and a log entry.
abbrev pub hand_to : AgentState → Agent → AgentState
hand_to s agent =
    append_log (record s { current_agent = agent }) Agent.supervisor "routing_complete"

abbrev pub stop_with : AgentState → AgentState
stop_with s = append_log (record s { current_agent = Agent.start }) Agent.supervisor "routing_error"

-- `if not current:`.
unfoldable pub route_start : AgentState → AgentState
unfolding append_log
route_start s =
    if is_empty s.raw_transactions
    then append_log (record s { failure = some Error.no_transactions }) Agent.supervisor
        "routing_error"
    else append_log (record s { current_agent = Agent.contador; current_stage = some "routing" })
        Agent.supervisor "routing_complete"

abbrev pub waits_for_review : Agent → Bool
waits_for_review Agent.audit_review_terminal = true
waits_for_review _ = false

-- After `validate_contador_output_node`.
unfoldable pub after_contador : AgentState → AgentState
unfolding append_log
after_contador s = elim s.correction_feedback [
  | some f ↦ hand_to s Agent.contador
  | none ↦
      if waits_for_review s.current_agent
      then append_log s Agent.supervisor "routing_complete"
      else elim s.failure [ some e ↦ stop_with s | none ↦ hand_to s Agent.tributario ]
]

-- `if current == "contador":`.
unfoldable pub route_contador : Schemas → PucDb → AgentState → AgentState
route_contador schemas db s = after_contador (validate_contador_output_node schemas db s)

-- `if current == "tributario":`.
unfoldable pub route_tributario : Schemas → AgentState → AgentState
unfolding append_log validate
route_tributario schemas s =
    let out = normalize_tributario_output s s.tributario_output in
    let r = validate schemas Agent.tributario out 1 in
    if is_valid r
    then hand_to (record s { tributario_output = dumped r out }) Agent.auditor
    else stop_with (record s { failure = some Error.tributario_schema })

abbrev pub report_findings : Option AuditReport → List AuditFinding
report_findings none = []
report_findings (some r) = r.findings

-- The findings of the last audit report.
abbrev pub last_findings : AgentState → List AuditFinding
last_findings s = report_findings (get_last? s.audit_reports)

-- `f.fixable and f.severity in {Severity.ERROR, Severity.BLOCKER}`.
abbrev pub is_fixable : AuditFinding → Bool
is_fixable f = f.fixable && (finding_errs f || finding_blocks f)

abbrev pub disapproved : AuditReport → Bool
disapproved r = not r.approved

-- `sum(1 for r in reports if not r.get("approved", True))`.
abbrev pub global_failures : AgentState → ℕ
global_failures s = length (filter disapproved s.audit_reports)

abbrev pub rule_of : AuditFinding → String
rule_of f = f.rule_id

-- `if blockers:`.
unfoldable pub reject_blockers : AgentState → List AuditFinding → AgentState
unfolding append_log record_giveup
reject_blockers s blockers =
    let s' = record s {
      unfixable_findings = s.unfixable_findings ++ blockers;
      failure = some (Error.unfixable_blockers (map rule_of blockers));
    } in
    hand_to (record_giveup s' ResponsibleAgent.contador blockers none) Agent.audit_review_terminal

-- The budget of a target: its entry, else its initial budget, else 1.
abbrev pub budget_of : AgentState → ResponsibleAgent → ℤ
budget_of s target =
    budget_or (budget_get s.retry_budget target)
      (budget_or (budget_get retry_budgets target) (pos 1))

-- `retry_budget[target] -= 1`.
abbrev pub spend : AgentState → ResponsibleAgent → AgentState
spend s target = record s {
  retry_budget = budget_set s.retry_budget target (budget_of s target -ℤ pos 1);
}

-- `state["audit_rejection_reason"] or state["audit_feedback"] or "…"`.
abbrev pub rejection_text : AgentState → String
rejection_text s = elim (or_else s.audit_rejection_reason s.audit_feedback) [
  | none ↦ "Audit rejected - please reclassify"
  | some t ↦ if truthy (some t) then t else "Audit rejected - please reclassify"
]

-- `elif not fixable:` a rejection by the model, with no finding to fix.
unfoldable pub reject_llm : AgentState → AgentState
unfolding append_log record_giveup
reject_llm s =
    let count = s.audit_rejection_count + 1 in
    let s' = spend (record s { audit_rejection_count = count }) ResponsibleAgent.contador in
    if ltb_ℤ (budget_of s' ResponsibleAgent.contador) (pos 0)
      || (leb global_audit_failures (global_failures s) || ltb max_auditor_retries count)
    then hand_to (record_giveup s' ResponsibleAgent.contador [] none) Agent.audit_review_terminal
    else hand_to (record s' { correction_feedback = some (Feedback.rejected (rejection_text s)) })
        Agent.contador

-- `{"ingest": "ingesta", "persist": "db_persist"}.get(target, target)`.
abbrev pub routing_target : ResponsibleAgent → Agent
routing_target ResponsibleAgent.ingest = Agent.ingesta
routing_target ResponsibleAgent.contador = Agent.contador
routing_target ResponsibleAgent.tributario = Agent.tributario
routing_target ResponsibleAgent.persist = Agent.db_persist
routing_target ResponsibleAgent.db_persist = Agent.db_persist

-- The last branch: findings that the responsible agent of the first one can fix.
unfoldable pub reject_fixable : AgentState → AuditFinding → List AuditFinding → AgentState
unfolding append_log record_giveup
reject_fixable s f fs =
    let target = f.responsible_agent in
    let s' = spend s target in
    if ltb_ℤ (budget_of s' target) (pos 0) || leb global_audit_failures (global_failures s)
    then hand_to (record_giveup s' target (f ∷ fs) none) Agent.audit_review_terminal
    else hand_to (record s' { correction_feedback = some (Feedback.pinpointed (f ∷ fs)) })
        (routing_target target)

-- The rejection with no unfixable blocker and no single-pass document.
unfoldable pub reject_retry : AgentState → List AuditFinding → AgentState
unfolding reject_llm reject_fixable
reject_retry s [] = reject_llm s
reject_retry s (f ∷ fs) = reject_fixable s f fs

-- The choice among the rejections, by the findings of the last report.
unfoldable pub reject_with : AgentState → List AuditFinding → AgentState
unfolding append_log reject_blockers reject_retry
reject_with s findings =
    let blockers = filter is_unfixable_blocker findings in
    if not (is_empty blockers)
    then reject_blockers s blockers
    else if is_single_pass s.doc_type
    then hand_to (record s { has_warnings = true }) Agent.db_persist
    else reject_retry s (filter is_fixable findings)

-- `elif state.get("audit_approved") is False:`.
unfoldable pub route_rejection : AgentState → AgentState
unfolding reject_with
route_rejection s = reject_with s (last_findings s)

abbrev pub is_rejected : Option Bool → Bool
is_rejected none = false
is_rejected (some b) = not b

-- After `validate_auditor_output_node`.
unfoldable pub after_auditor : AgentState → AgentState
after_auditor s = elim s.correction_feedback [
  | some f ↦ hand_to s Agent.auditor
  | none ↦ elim s.failure [
    | some e ↦ stop_with s
    | none ↦ if is_rejected s.audit_approved then route_rejection s else hand_to s Agent.db_persist
  ]
]

-- `if current == "auditor":`.
unfoldable pub route_auditor : Schemas → AgentState → AgentState
route_auditor schemas s =
    if s.force_persist
    then hand_to s Agent.db_persist
    else after_auditor (validate_auditor_output_node schemas s)

unfoldable pub route_unknown : AgentState → AgentState
unfolding append_log
route_unknown s =
    append_log (record s { failure = some Error.unknown_agent }) Agent.supervisor "routing_error"

abbrev pub route_from : Schemas → PucDb → Agent → AgentState → AgentState
route_from schemas db Agent.start s = route_start s
route_from schemas db Agent.contador s = route_contador schemas db s
route_from schemas db Agent.tributario s = route_tributario schemas s
route_from schemas db Agent.auditor s = route_auditor schemas s
route_from schemas db _ s = route_unknown s

unfoldable pub route_process : Schemas → PucDb → AgentState → AgentState
route_process schemas db s = route_from schemas db s.current_agent s

-- `process_supervisor_node` of the thin dispatcher, which only starts the pipeline.
unfoldable pub process_supervisor_node : AgentState → AgentState
unfolding append_log
process_supervisor_node s =
    if is_empty s.raw_transactions
    then append_log (record s { failure = some Error.no_transactions }) Agent.supervisor
        "routing_error"
    else append_log
        (record s {
          mode = Mode.process;
          current_agent = Agent.contador;
          current_stage = some "routing";
        })
        Agent.supervisor "routing_complete"

-- `supervisor_node` in the modes that do not read a file.
unfoldable pub supervisor_node :
    Schemas → PucDb → (AgentState → AgentState) → AgentState → AgentState
supervisor_node schemas db route_ingest s =
    let s' = append_log s Agent.supervisor "routing_start" in
    elim s.mode [
      | Mode.reporting ↦ record s' { current_agent = Agent.reportero }
      | Mode.process ↦ route_process schemas db s'
      | Mode.ingest ↦ route_ingest s'
    ]

abbrev pub has_error : AgentState → Bool
has_error s = elim s.failure [ none ↦ false | some e ↦ true ]

-- `routing_map.get(agent, "error_terminal")`.
abbrev pub routing_map : Agent → Agent
routing_map Agent.ingesta = Agent.ingesta
routing_map Agent.ingest = Agent.ingesta
routing_map Agent.import_existing = Agent.import_existing
routing_map Agent.contador = Agent.contador
routing_map Agent.tributario = Agent.tributario
routing_map Agent.auditor = Agent.auditor
routing_map Agent.db_persist = Agent.db_persist
routing_map Agent.persist = Agent.db_persist
routing_map Agent.reportero = Agent.reportero
routing_map Agent.review_terminal = Agent.review_terminal
routing_map Agent.audit_review_terminal = Agent.audit_review_terminal
routing_map _ = Agent.error_terminal

unfoldable pub route_after_supervisor : AgentState → Agent
route_after_supervisor s =
    if waits_for_review s.current_agent
    then Agent.audit_review_terminal
    else if has_error s
    then Agent.error_terminal
    else routing_map s.current_agent

pub data Edge : Type 0 where
  edge_error edge_retry edge_end : Edge

unfoldable pub should_retry_agent : AgentState → Edge
should_retry_agent s =
    if has_error s
    then edge_error
    else elim s.correction_feedback [ some f ↦ edge_retry | none ↦ edge_end ]

-- `should_retry_contador` and `should_retry_auditor`, at their limits.
unfoldable pub should_retry_below : ℕ → AgentState → Edge
should_retry_below limit s = elim s.correction_feedback [
  | some f ↦ if ltb s.retry_count limit then edge_retry else edge_end
  | none ↦ edge_end
]

unfoldable pub error_terminal_node : AgentState → AgentState
unfolding append_log
error_terminal_node s =
    append_log
      (record s {
        result = record (s.result) { status = some "error"; failure = s.failure };
        current_agent = Agent.error_terminal;
      })
      Agent.supervisor "pipeline_aborted"

unfoldable pub review_terminal_node : AgentState → AgentState
unfolding append_log
review_terminal_node s =
    append_log
      (record s {
        result = record (s.result) { status = some "pending_review" };
        current_agent = Agent.review_terminal;
      })
      Agent.supervisor "pipeline_paused"

unfoldable pub audit_review_terminal_node : AgentState → AgentState
unfolding append_log
audit_review_terminal_node s =
    append_log
      (record s {
        result = record (s.result) {
          status = some "pending_audit_review";
          giveup_record = s.giveup_record;
          audit_rejection_reason = or_else s.audit_rejection_reason s.audit_feedback;
        };
        current_agent = Agent.audit_review_terminal;
      })
      Agent.supervisor "pipeline_paused"
