-- ===== src/Pipeline/Graph/Posting.antt =====
-- What a whole process run writes, and on whose approval.
use backend_pae_account_mult.Prelude.{
  ℕ, zero, suc, ◌≡◌, refl, ◌∙◌, false, List, is_empty, some, arith, inl, inr, Option-cases,
}
use backend_pae_account_mult.Prelude.Texts.{String}
use backend_pae_account_mult.Pipeline.State.{Mode, Asiento, Transaction}
use backend_pae_account_mult.Pipeline.Auditors.{blank, is_unbalanced}
use backend_pae_account_mult.Pipeline.Agents.{db_persist_node}
use backend_pae_account_mult.Pipeline.Graph.{
  Setup, Answers, Machine, Node, step_at, step, run, start_machine,
}
use backend_pae_account_mult.Pipeline.Graph.Safety.{db_persist_node-IsPostable}
use backend_pae_account_mult.Pipeline.Graph.Steady.{Steady, step-Steady}

-- The lines that a run may have written for a transaction.
abbrev IsEntry : String → List Asiento → Type 0
IsEntry pending_id as' =
    (is_empty as' ≡ false) × (is_unbalanced as' ≡ false) × (blank pending_id ≡ false)

-- Without `force_persist`: the request is the one of the start, and what is written is an entry.
record IsClean (pending_id : String) (m : Machine) : Type 0 where
  mode : m.state.mode ≡ Mode.process
  force_persist : m.state.force_persist ≡ false
  pending : m.state.pending_transaction_id ≡ pending_id
  entry : (as' : List Asiento) → m.posted ≡ some as' → IsEntry pending_id as'

step_at-posted :
    (setup : Setup) (a : Answers) (m : Machine) (n : Node) (pending_id : String)
    → IsClean pending_id m
    → (as' : List Asiento) → (step_at setup a m n).posted ≡ some as'
    → IsEntry pending_id as'
step_at-posted setup a m Node.db_persist pending_id c as' h =
    elim (Option-cases (db_persist_node setup.readable a.persist m.state).1) [
      | inl nothing ↦ c.entry as' (rw nothing at h)
      | inr (w, wrote) ↦
          let p =
            db_persist_node-IsPostable setup.readable a.persist m.state c.mode c.force_persist
              wrote in
          let e : some w ≡ some as' = rw wrote at h in ground (arith, p)
    ]
step_at-posted setup a m _ pending_id c as' h = c.entry as' h

step-IsClean :
    (setup : Setup) (a : Answers) (m : Machine) (pending_id : String)
    → IsClean pending_id m
    → IsClean pending_id (step setup a m)
step-IsClean setup a m pending_id c = record {
  mode = st.mode ∙ c.mode;
  force_persist = st.force_persist ∙ c.force_persist;
  pending = st.pending_transaction_id ∙ c.pending;
  entry = unfold step in step_at-posted setup a m m.node pending_id c;
}
  where
    st : Steady m.state (step setup a m).state
    st = step-Steady setup a m

run-IsClean :
    (setup : Setup) (world : Machine → Answers) (n : ℕ) (m : Machine) (pending_id : String)
    → IsClean pending_id m
    → IsClean pending_id (run setup world n m)
unfolding run
run-IsClean setup world zero m pending_id c = c
run-IsClean setup world (suc n) m pending_id c =
    run-IsClean setup world n (step setup (world m) m) pending_id
      (step-IsClean setup (world m) m pending_id c)

-- Whatever the agents answer, a process run without `force_persist` hands on to be written only
-- lists of lines that are not empty, whose debits and credits agree within one peso, for a pending
-- transaction that is named.
pub posted_IsEntry :
    (setup : Setup) (world : Machine → Answers) (n : ℕ) (txs : List Transaction)
    (pending_id doc_type : String) {as' : List Asiento}
    → (run setup world n (start_machine txs pending_id doc_type false)).posted ≡ some as'
    → (is_empty as' ≡ false) × (is_unbalanced as' ≡ false) × (blank pending_id ≡ false)
posted_IsEntry setup world n txs pending_id doc_type h =
    (run-IsClean setup world n (start_machine txs pending_id doc_type false) pending_id (
        unfold start_machine in
        record { mode = refl; force_persist = refl; pending = refl; entry = λ as' e. cc })).entry
      _ h
