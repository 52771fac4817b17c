-- ===== src/Pipeline/Graph/Approval.antt =====
-- On whose word the graph goes to db_persist, and where an auditor's rejection can lead.
use backend_pae_account_mult.Prelude.{
  ℕ, zero, suc, ◌≡◌, ◌≢◌, refl, Bool, true, List, none, some, arith, inl, inr, ◌⊎◌, sym,
}
use mathlib.Core.Path.{subst}
use backend_pae_account_mult.Prelude.Texts.{String}
use backend_pae_account_mult.Prelude.Int.{◌-ℤ◌}
use backend_pae_account_mult.Pipeline.Audit.{AuditFinding}
use backend_pae_account_mult.Pipeline.State.{Agent, Transaction, AgentState, append_log}
use backend_pae_account_mult.Pipeline.Validator.{Schemas}
use backend_pae_account_mult.Pipeline.Puc.{PucDb}
use backend_pae_account_mult.Pipeline.Router.{
  is_single_pass, route_from, route_process, route_start, route_contador, after_contador,
  route_tributario, route_auditor, after_auditor, route_rejection, reject_with, last_findings,
  route_after_supervisor,
}
use backend_pae_account_mult.Pipeline.Nodes.{
  validate_contador_output_node, contador_rejected, contador_puc_rule, validate_auditor_output_node,
  auditor_accepted, auditor_rejected,
}
use backend_pae_account_mult.Pipeline.Graph.{
  Setup, Answers, Machine, Node, node_of, supervise, step_at, step, run, start_machine,
}
use backend_pae_account_mult.Pipeline.Graph.Rank.{GoodAt, FromContador}
use backend_pae_account_mult.Pipeline.Graph.Termination.{
  IsGood, run-IsGood, start-IsGood, step-IsGood,
}

-- Why a state may go to db_persist.
abbrev IsCleared : AgentState → Type 0
IsCleared s =
    (s.force_persist ≡ true) ⊎ ((s.audit_approved ≡ some true) ⊎ (is_single_pass s.doc_type ≡ true))

abbrev next_node : AgentState → Node
next_node s = node_of (route_after_supervisor s)

-- Where the graph can go once the auditor's work is taken in.
abbrev IsAuditorTarget : Node → Type 0
IsAuditorTarget Node.contador = Unit
IsAuditorTarget Node.auditor = Unit
IsAuditorTarget Node.db_persist = Unit
IsAuditorTarget Node.error_terminal = Unit
IsAuditorTarget Node.audit_review_terminal = Unit
IsAuditorTarget _ = ⊥

reject_with-targets :
    (s : AgentState) (fs : List AuditFinding)
    → s.current_agent ≡ Agent.auditor
    → s.failure ≡ none
    → FromContador fs
    → let t = reject_with s fs in
      IsAuditorTarget (next_node t)
      × (next_node t ≡ Node.db_persist → is_single_pass t.doc_type ≡ true)
unfolding reject_with route_after_supervisor ◌-ℤ◌
reject_with-targets s fs c e (inl p) = rw p (ground arith)
reject_with-targets s fs c e (inr (r, p)) = rw p (ground arith)

route_auditor-targets :
    (schemas : Schemas) (s : AgentState)
    → s.current_agent ≡ Agent.auditor
    → (s.failure ≡ none → FromContador (last_findings s))
    → let t = route_auditor schemas s in
      IsAuditorTarget (next_node t) × (next_node t ≡ Node.db_persist → IsCleared t)
unfolding route_auditor route_after_supervisor after_auditor route_rejection append_log
    validate_auditor_output_node auditor_accepted auditor_rejected
route_auditor-targets schemas s c f =
    let u = validate_auditor_output_node schemas s in
    ground (arith, f, reject_with-targets u (last_findings u))

route_contador-not_persist :
    (schemas : Schemas) (db : PucDb) (s : AgentState)
    → s.current_agent ≡ Agent.contador
    → next_node (route_contador schemas db s) ≢ Node.db_persist
unfolding route_contador route_after_supervisor after_contador validate_contador_output_node
    contador_rejected contador_puc_rule append_log
route_contador-not_persist schemas db s c = ground arith

route_start-not_persist :
    (s : AgentState) → s.current_agent ≡ Agent.start → next_node (route_start s) ≢ Node.db_persist
unfolding route_start route_after_supervisor
route_start-not_persist s c = ground arith

route_tributario-not_persist :
    (schemas : Schemas) (s : AgentState)
    → s.current_agent ≡ Agent.tributario
    → next_node (route_tributario schemas s) ≢ Node.db_persist
unfolding route_tributario route_after_supervisor
route_tributario-not_persist schemas s c = ground arith

supervise-IsCleared :
    (setup : Setup) (s : AgentState)
    → GoodAt Node.supervisor s
    → next_node (supervise setup s) ≡ Node.db_persist
    → IsCleared (supervise setup s)
unfolding supervise route_process append_log
supervise-IsCleared setup s g = visit s.current_agent refl
  where
    t : AgentState
    t = append_log s Agent.supervisor "routing_start"

    visit :
        (a : Agent)
        → s.current_agent ≡ a
        → next_node (route_from setup.schemas setup.db a t) ≡ Node.db_persist
        → IsCleared (route_from setup.schemas setup.db a t)
    visit Agent.start e h = absurd (route_start-not_persist t e h)
    visit Agent.contador e h = absurd (route_contador-not_persist setup.schemas setup.db t e h)
    visit Agent.tributario e h = absurd (route_tributario-not_persist setup.schemas t e h)
    visit Agent.auditor e h = (route_auditor-targets setup.schemas t e (g.1 e)).1 h
    visit _ e h = absurd (rw e at g.0)

step_at-IsCleared :
    (setup : Setup) (a : Answers) (m : Machine) (n : Node)
    → m.node ≡ n
    → GoodAt n m.state
    → (step_at setup a m n).node ≡ Node.db_persist
    → IsCleared (step_at setup a m n).state
step_at-IsCleared setup a m Node.supervisor e g h = supervise-IsCleared setup m.state g h
step_at-IsCleared setup a m Node.db_persist e g h = ground arith
step_at-IsCleared setup a m Node.outside e g h = absurd g
step_at-IsCleared setup a m Node.finished e g h = cc
step_at-IsCleared setup a m _ e g h = cc

-- The invariant of a run.
abbrev IsLawful : Machine → Type 0
IsLawful m = IsGood m × (m.node ≡ Node.db_persist → IsCleared m.state)

step-IsLawful : (setup : Setup) (a : Answers) (m : Machine) → IsLawful m → IsLawful (step setup a m)
step-IsLawful setup a m (g, c) =
    (step-IsGood setup a m g, unfold step in step_at-IsCleared setup a m m.node refl g)

run-IsLawful :
    (setup : Setup) (world : Machine → Answers) (n : ℕ) (m : Machine)
    → IsLawful m
    → IsLawful (run setup world n m)
unfolding run
run-IsLawful setup world zero m l = l
run-IsLawful setup world (suc n) m l =
    run-IsLawful setup world n (step setup (world m) m) (step-IsLawful setup (world m) m l)

start-IsLawful :
    (txs : List Transaction) (pending_id doc_type : String) (force : Bool)
    → IsLawful (start_machine txs pending_id doc_type force)
start-IsLawful txs pending_id doc_type force =
    (start-IsGood txs pending_id doc_type force, unfold start_machine in (λ e. cc))

-- A process run reaches db_persist only with `force_persist`, on the auditor's approval, or for a
-- document type that passes in a single round.
pub db_persist_needs_approval :
    (setup : Setup) (world : Machine → Answers) (n : ℕ) (txs : List Transaction)
    (pending_id doc_type : String) (force : Bool) {m : Machine}
    → m ≡ run setup world n (start_machine txs pending_id doc_type force)
    → m.node ≡ Node.db_persist
    → (m.state.force_persist ≡ true)
      ⊎ ((m.state.audit_approved ≡ some true) ⊎ (is_single_pass m.state.doc_type ≡ true))
db_persist_needs_approval setup world n txs pending_id doc_type force r e =
    (subst IsLawful (sym r) (
        run-IsLawful setup world n (start_machine txs pending_id doc_type force)
          (start-IsLawful txs pending_id doc_type force))).1
      e

supervise-targets :
    (setup : Setup) (s : AgentState)
    → s.current_agent ≡ Agent.auditor
    → GoodAt Node.supervisor s
    → IsAuditorTarget (next_node (supervise setup s))
unfolding supervise route_process append_log
supervise-targets setup s c g =
    let t = append_log s Agent.supervisor "routing_start" in
    subst (λ a. IsAuditorTarget (next_node (route_from setup.schemas setup.db a t))) (sym c)
      (route_auditor-targets setup.schemas t c (g.1 c)).0

step-targets :
    (setup : Setup) (a : Answers) (m : Machine)
    → m.node ≡ Node.supervisor
    → m.state.current_agent ≡ Agent.auditor
    → IsGood m
    → IsAuditorTarget (step setup a m).node
unfolding step
step-targets setup a m e c g =
    subst (λ n. IsAuditorTarget (step_at setup a m n).node) (sym e)
      (supervise-targets setup m.state c (subst (λ n. GoodAt n m.state) e g))

-- In a process run, the node that the supervisor names after the auditor is neither the tributario
-- nor a node of another mode, such as ingesta.
pub auditor_targets :
    (setup : Setup) (world : Machine → Answers) (n : ℕ) (txs : List Transaction)
    (pending_id doc_type : String) (force : Bool) {m : Machine}
    → m ≡ run setup world n (start_machine txs pending_id doc_type force)
    → m.node ≡ Node.supervisor
    → m.state.current_agent ≡ Agent.auditor
    → ((step setup (world m) m).node ≢ Node.tributario)
      × ((step setup (world m) m).node ≢ Node.outside)
auditor_targets setup world n txs pending_id doc_type force {m} r e c =
    let g =
      run-IsGood setup world n (start_machine txs pending_id doc_type force)
        (start-IsGood txs pending_id doc_type force) in
    let t = step-targets setup (world m) m e c (subst IsGood (sym r) g) in
    (λ h. rw h at t, λ h. rw h at t)
