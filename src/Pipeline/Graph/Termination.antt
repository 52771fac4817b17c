-- ===== src/Pipeline/Graph/Termination.antt =====
-- Every process run of the graph ends, whatever the agents answer.
use backend_pae_account_mult.Prelude.{
  ℕ, zero, suc, ◌<◌, ◌≡◌, ◌≢◌, refl, ◌⊎◌, inl, inr, ap, ◌∙◌, arith, Option, Bool, List,
}
use backend_pae_account_mult.Prelude.Texts.{String}
use backend_pae_account_mult.Pipeline.State.{Agent, AgentState, Transaction, append_log}
use backend_pae_account_mult.Pipeline.Findings.{record_giveup}
use backend_pae_account_mult.Pipeline.Findings.Frame.{append_audit_report-Same}
use backend_pae_account_mult.Pipeline.Auditors.{pre_persist_run}
use backend_pae_account_mult.Pipeline.Agents.{
  PersistReply, db_persist_node, run_persist, write_entries,
}
use backend_pae_account_mult.Pipeline.Graph.{
  Setup, Answers, Machine, Node, step_at, step, run, start_machine,
}
use backend_pae_account_mult.Pipeline.Graph.Rank.{GoodAt, measure}
use backend_pae_account_mult.Pipeline.Graph.Supervisor.{supervise-Advances}
use backend_pae_account_mult.Pipeline.Graph.Workers.{
  contador_node-Returns, tributario_node-Returns, auditor_node-Returns,
}

db_persist_node-budget :
    (readable : Option String → Bool) (reply : PersistReply) (s : AgentState)
    → (db_persist_node readable reply s).0.retry_budget ≡ s.retry_budget
unfolding db_persist_node run_persist write_entries append_log record_giveup
db_persist_node-budget readable reply s =
    let t = append_log s Agent.db_persist "node_start" in
    ground (arith, append_audit_report-Same t (pre_persist_run readable t 1))

-- What holds of a machine between two nodes.
abbrev pub IsGood : Machine → Type 0
IsGood m = GoodAt m.node m.state

abbrev pub remaining : Machine → ℕ
remaining m = measure m.node m.state

-- One node keeps what holds, and ends the run or lowers the measure.
abbrev Descends : Machine → Machine → Type 0
Descends m m' = IsGood m' × ((m'.node ≡ Node.finished) ⊎ (remaining m' < remaining m))

step_at-Descends :
    (setup : Setup) (a : Answers) (m : Machine) (n : Node)
    → GoodAt n m.state
    → n ≢ Node.finished
    → let m' = step_at setup a m n in
      IsGood m' × ((m'.node ≡ Node.finished) ⊎ (remaining m' < measure n m.state))
step_at-Descends setup a m Node.supervisor g h =
    (let (x, y) = supervise-Advances setup m.state g in (x, inr y))
step_at-Descends setup a m Node.contador g h =
    let (x, y) = contador_node-Returns a.contador m.state g in (x, inr y)
step_at-Descends setup a m Node.tributario g h =
    let (x, y) = tributario_node-Returns a.tributario m.state g in (x, inr y)
step_at-Descends setup a m Node.auditor g h =
    let (x, y) = auditor_node-Returns a.auditor m.state g in (x, inr y)
step_at-Descends setup a m Node.db_persist g h =
    ground (arith, db_persist_node-budget setup.readable a.persist m.state)
step_at-Descends setup a m Node.error_terminal g h = (tt, inl refl)
step_at-Descends setup a m Node.review_terminal g h = (tt, inl refl)
step_at-Descends setup a m Node.audit_review_terminal g h = (tt, inl refl)
step_at-Descends setup a m Node.outside g h = absurd g
step_at-Descends setup a m Node.finished g h = absurd (h refl)

step-Descends :
    (setup : Setup) (a : Answers) (m : Machine)
    → IsGood m
    → m.node ≢ Node.finished
    → Descends m (step setup a m)
unfolding step
step-Descends setup a m g h = step_at-Descends setup a m m.node g h

pub step-finished :
    (setup : Setup) (a : Answers) (m : Machine) → m.node ≡ Node.finished → step setup a m ≡ m
unfolding step
step-finished setup a m e = ap (step_at setup a m) e

is_finished : (n : Node) → (n ≡ Node.finished) ⊎ (n ≢ Node.finished)
is_finished Node.finished = inl refl
is_finished _ = inr (λ e. cc)

pub step-IsGood : (setup : Setup) (a : Answers) (m : Machine) → IsGood m → IsGood (step setup a m)
step-IsGood setup a m g = elim (is_finished m.node) [
  | inl e ↦ rw (step-finished setup a m e) g
  | inr more ↦ (step-Descends setup a m g more).0
]

run-finished :
    (setup : Setup) (world : Machine → Answers) (n : ℕ) (m : Machine)
    → m.node ≡ Node.finished
    → (run setup world n m).node ≡ Node.finished
unfolding run
run-finished setup world zero m e = e
run-finished setup world (suc n) m e =
    run-finished setup world n (step setup (world m) m)
      (ap (λ (k : Machine). k.node) (step-finished setup (world m) m e) ∙ e)

run_of_measure :
    (setup : Setup) (world : Machine → Answers) (n : ℕ) (m : Machine)
    → IsGood m
    → remaining m < n
    → (run setup world n m).node ≡ Node.finished
unfolding run
run_of_measure setup world zero m g h = elim h [ ]
run_of_measure setup world (suc n) m g h = elim (is_finished m.node) [
  | inl e ↦ run-finished setup world (suc n) m e
  | inr more ↦
      let m' = step setup (world m) m in
      let (g', d) = step-Descends setup (world m) m g more in
      elim d [
        | inl e ↦ run-finished setup world n m' e
        | inr less ↦ run_of_measure setup world n m' g' (omega arith)
      ]
]

pub start-IsGood :
    (txs : List Transaction) (pending_id doc_type : String) (force : Bool)
    → IsGood (start_machine txs pending_id doc_type force)
unfolding start_machine
start-IsGood txs pending_id doc_type force = (tt, λ e. cc)

pub run-IsGood :
    (setup : Setup) (world : Machine → Answers) (n : ℕ) (m : Machine)
    → IsGood m
    → IsGood (run setup world n m)
unfolding run
run-IsGood setup world zero m g = g
run-IsGood setup world (suc n) m g =
    run-IsGood setup world n (step setup (world m) m) (step-IsGood setup (world m) m g)

-- A process run of the graph ends within 52 nodes, whatever the agents, the schemas, the account
-- table and the writing of the entries answer, and with `force_persist` or without.
pub run_finishes :
    (setup : Setup) (world : Machine → Answers) (txs : List Transaction)
    (pending_id doc_type : String) (force : Bool)
    → (run setup world 52 (start_machine txs pending_id doc_type force)).node ≡ Node.finished
run_finishes setup world txs pending_id doc_type force =
    run_of_measure setup world 52 (start_machine txs pending_id doc_type force)
      (start-IsGood txs pending_id doc_type force) (unfold start_machine in (omega arith))
