-- ===== src/Pipeline/Graph/Forced.antt =====
-- What `force_persist` promises: a run that the user has forced is not stopped for a review.
use backend_pae_account_mult.Prelude.{
  ℕ, zero, suc, ◌+◌, ◌≡◌, ◌≢◌, refl, Bool, true, false, List, Option, inl, inr, Option-cases, arith,
}
use backend_pae_account_mult.Prelude.Texts.{String}
use backend_pae_account_mult.Pipeline.State.{Agent, Output, Transaction, AgentState, append_log}
use backend_pae_account_mult.Pipeline.Findings.{append_audit_report}
use backend_pae_account_mult.Pipeline.Findings.Frame.{
  append_findings-Same, append_audit_report-Same,
}
use backend_pae_account_mult.Pipeline.Validator.{Schemas, ValidationResult, validate}
use backend_pae_account_mult.Pipeline.Puc.{
  Code, PucDb, missing_puc_codes, hydrate_contador_account_names, normalize_contador_puc_codes,
}
use backend_pae_account_mult.Pipeline.Auditors.{contador_run, tributario_run}
use backend_pae_account_mult.Pipeline.Nodes.{
  push_history, dumped, raw_contador, with_raw_contador, validate_contador_output_node,
  contador_rejected, contador_puc_rule, contador_missing_puc, contador_remapped, contador_accepted,
}
use backend_pae_account_mult.Pipeline.Agents.{
  Reply, TributarioReply, PersistReply, contador_node, contador_reply, tributario_node,
  tributario_reply, tributario_booked, auditor_node, auditor_reply, enter_node, db_persist_node,
  run_persist, write_entries,
}
use backend_pae_account_mult.Pipeline.Router.{
  waits_for_review, route_from, route_process, route_start, route_contador, after_contador,
  route_tributario, route_auditor, route_after_supervisor,
}
use backend_pae_account_mult.Pipeline.Graph.{
  Setup, Answers, Machine, Node, node_of, supervise, step_at, step, run, start_machine,
}
use backend_pae_account_mult.Pipeline.Graph.Rank.{GoodAt}
use backend_pae_account_mult.Pipeline.Graph.Termination.{IsGood, step-IsGood, start-IsGood}

-- The user's choice stands, and nobody asks for a review.
abbrev IsForced : AgentState → Type 0
IsForced s = (s.force_persist ≡ true) × (s.needs_hitl_review ≡ false)

abbrev IsFree : AgentState → Type 0
IsFree s = IsForced s × (waits_for_review s.current_agent ≡ false)

route_start-IsFree :
    (s : AgentState) → s.current_agent ≡ Agent.start → IsForced s → IsFree (route_start s)
unfolding route_start
route_start-IsFree s e f = ground arith

-- The contador's work is being taken in, and the user's choice stands.
abbrev AtContador : AgentState → Type 0
AtContador s = (s.current_agent ≡ Agent.contador) × IsForced s

contador_rejected-AtContador :
    (s : AgentState) (r : ValidationResult) → AtContador s → AtContador (contador_rejected s r)
unfolding contador_rejected append_log
contador_rejected-AtContador s r f = ground arith

contador_missing_puc-AtContador :
    (s : AgentState) (o : Output) (missing : List Code) (n : ℕ)
    → AtContador s
    → AtContador (contador_missing_puc s o missing n)
unfolding contador_missing_puc contador_remapped append_log
contador_missing_puc-AtContador s o missing n f = ground arith

contador_puc_rule-AtContador :
    (db : PucDb) (s : AgentState) (o : Output) (n : ℕ)
    → AtContador s
    → AtContador (contador_puc_rule db s o n)
unfolding contador_puc_rule contador_accepted append_log
contador_puc_rule-AtContador db s o n f = elim (Option-cases (missing_puc_codes db o)) [
  | inl e ↦ ground (arith, e)
  | inr (missing, e) ↦ ground (arith, e, contador_missing_puc-AtContador s o missing n f)
]

push-AtContador :
    (s : AgentState) (raw : Output) (r : ValidationResult)
    → AtContador s
    → AtContador (
        push_history
          (append_log (with_raw_contador s raw) Agent.contador "validation_start")
          Agent.contador
          r)
unfolding append_log
push-AtContador s raw r f = ground arith

validate_contador-IsFree :
    (schemas : Schemas) (db : PucDb) (s : AgentState)
    → AtContador s
    → IsFree (validate_contador_output_node schemas db s)
unfolding validate_contador_output_node
validate_contador-IsFree schemas db s f =
    let raw = hydrate_contador_account_names db (raw_contador s) in
    let r = validate schemas Agent.contador raw (s.retry_count + 1) in
    let s' =
      push_history (append_log (with_raw_contador s raw) Agent.contador "validation_start")
        Agent.contador r in
    let f' = push-AtContador s raw r f in
    let o = normalize_contador_puc_codes db (dumped r raw) in
    ground (
      arith,
      contador_rejected-AtContador s' r f',
      contador_puc_rule-AtContador db s' o (s.retry_count + 1) f',
    )

after_contador-IsFree : (s : AgentState) → IsFree s → IsFree (after_contador s)
unfolding after_contador
after_contador-IsFree s f = ground arith

route_tributario-IsFree :
    (schemas : Schemas) (s : AgentState) → IsForced s → IsFree (route_tributario schemas s)
unfolding route_tributario
route_tributario-IsFree schemas s f = ground arith

route_auditor-IsFree :
    (schemas : Schemas) (s : AgentState) → IsForced s → IsFree (route_auditor schemas s)
unfolding route_auditor append_log
route_auditor-IsFree schemas s f = ground arith

supervise-IsFree :
    (setup : Setup) (s : AgentState)
    → GoodAt Node.supervisor s
    → IsForced s
    → IsFree (supervise setup s)
unfolding supervise route_process append_log
supervise-IsFree setup s g f = visit s.current_agent refl
  where
    t : AgentState
    t = append_log s Agent.supervisor "routing_start"

    visit : (a : Agent) → s.current_agent ≡ a → IsFree (route_from setup.schemas setup.db a t)
    visit Agent.start e = route_start-IsFree t e f
    visit Agent.contador e =
        unfold route_contador in
        after_contador-IsFree (validate_contador_output_node setup.schemas setup.db t)
          (validate_contador-IsFree setup.schemas setup.db t (e, f))
    visit Agent.tributario e = route_tributario-IsFree setup.schemas t f
    visit Agent.auditor e = route_auditor-IsFree setup.schemas t f
    visit _ e = absurd (rw e at g.0)

contador_node-IsForced :
    (reply : Reply) (s : AgentState) → IsForced s → IsForced (contador_node reply s)
unfolding contador_node contador_reply append_log
contador_node-IsForced (Reply.completed fs o) s f =
    ground (arith, append_findings-Same (enter_node s Agent.contador "contador") fs)
contador_node-IsForced (Reply.failed fs) s f =
    ground (arith, append_findings-Same (enter_node s Agent.contador "contador") fs)

tributario_node-IsForced :
    (reply : TributarioReply) (s : AgentState) → IsForced s → IsForced (tributario_node reply s)
unfolding tributario_node tributario_reply append_log
tributario_node-IsForced (TributarioReply.completed t as') s f =
    let u = tributario_booked s t as' in
    ground (arith, append_audit_report-Same u (tributario_run u 1))
tributario_node-IsForced (TributarioReply.skipped t event) s f = ground arith
tributario_node-IsForced TributarioReply.failed s f = ground arith

auditor_node-IsForced :
    (reply : Reply) (s : AgentState) → IsForced s → IsForced (auditor_node reply s)
unfolding auditor_node auditor_reply append_log
auditor_node-IsForced (Reply.completed fs o) s f =
    let u = enter_node s Agent.auditor "auditor" in
    let v = append_audit_report u (contador_run u 1) in
    ground (arith, append_audit_report-Same u (contador_run u 1), append_findings-Same v fs)
auditor_node-IsForced (Reply.failed fs) s f =
    let u = enter_node s Agent.auditor "auditor" in
    let v = append_audit_report u (contador_run u 1) in
    ground (arith, append_audit_report-Same u (contador_run u 1), append_findings-Same v fs)

db_persist_node-IsFree :
    (readable : Option String → Bool) (reply : PersistReply) (s : AgentState)
    → IsFree s
    → IsFree (db_persist_node readable reply s).0
unfolding db_persist_node run_persist write_entries append_log
db_persist_node-IsFree readable reply s f = ground arith

-- What a forced run keeps at each node; before db_persist the current agent is free as well.
abbrev ForcedAt : Node → AgentState → Type 0
ForcedAt Node.audit_review_terminal s = ⊥
ForcedAt Node.db_persist s = IsFree s
ForcedAt Node.finished s = Unit
ForcedAt _ s = IsForced s

free_target : (s : AgentState) → IsFree s → ForcedAt (node_of (route_after_supervisor s)) s
unfolding route_after_supervisor
free_target s f = ground arith

step_at-ForcedAt :
    (setup : Setup) (a : Answers) (m : Machine) (n : Node)
    → m.node ≡ n
    → GoodAt n m.state
    → ForcedAt n m.state
    → ForcedAt (step_at setup a m n).node (step_at setup a m n).state
step_at-ForcedAt setup a m Node.supervisor e g f =
    free_target (supervise setup m.state) (supervise-IsFree setup m.state g f)
step_at-ForcedAt setup a m Node.contador e g f = contador_node-IsForced a.contador m.state f
step_at-ForcedAt setup a m Node.tributario e g f = tributario_node-IsForced a.tributario m.state f
step_at-ForcedAt setup a m Node.auditor e g f = auditor_node-IsForced a.auditor m.state f
step_at-ForcedAt setup a m Node.db_persist e g f =
    ground (arith, db_persist_node-IsFree setup.readable a.persist m.state f)
step_at-ForcedAt setup a m Node.error_terminal e g f = tt
step_at-ForcedAt setup a m Node.review_terminal e g f = tt
step_at-ForcedAt setup a m Node.audit_review_terminal e g f = absurd f
step_at-ForcedAt setup a m Node.outside e g f = absurd g
step_at-ForcedAt setup a m Node.finished e g f = rw e tt

run-ForcedAt :
    (setup : Setup) (world : Machine → Answers) (n : ℕ) (m : Machine)
    → IsGood m
    → ForcedAt m.node m.state
    → ForcedAt (run setup world n m).node (run setup world n m).state
unfolding run
run-ForcedAt setup world zero m g f = f
run-ForcedAt setup world (suc n) m g f =
    run-ForcedAt setup world n (step setup (world m) m) (step-IsGood setup (world m) m g)
      (unfold step in step_at-ForcedAt setup (world m) m m.node refl g f)

-- A process run that is started with `force_persist` never stops for a review: it does not reach the
-- terminal of the audit review, whatever the agents, the schemas and the account table answer.
pub forced_run_skips_review :
    (setup : Setup) (world : Machine → Answers) (n : ℕ) (txs : List Transaction)
    (pending_id doc_type : String)
    → (run setup world n (start_machine txs pending_id doc_type true)).node
      ≢ Node.audit_review_terminal
forced_run_skips_review setup world n txs pending_id doc_type e =
    let m = start_machine txs pending_id doc_type true in
    let f : ForcedAt m.node m.state = unfold start_machine in (refl, refl) in
    rw e at (run-ForcedAt setup world n m (start-IsGood txs pending_id doc_type true) f)
