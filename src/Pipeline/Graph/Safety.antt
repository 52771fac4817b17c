-- ===== src/Pipeline/Graph/Safety.antt =====
-- What a process run may write.
use backend_pae_account_mult.Prelude.{
  ◌≡◌, Bool, true, false, List, any, is_empty, filter-is_empty, Option, some, arith,
}
use backend_pae_account_mult.Prelude.Texts.{String}
use backend_pae_account_mult.Pipeline.Audit.{finding_blocks}
use backend_pae_account_mult.Pipeline.State.{
  Agent, Mode, Asiento, AgentState, asientos_of, append_log,
}
use backend_pae_account_mult.Pipeline.Findings.{append_audit_report}
use backend_pae_account_mult.Pipeline.Findings.Frame.{append_audit_report-Same}
use backend_pae_account_mult.Pipeline.Auditors.{
  blank, raw_fecha, is_unbalanced, pre_persist_findings, pre_persist_run,
}
use backend_pae_account_mult.Pipeline.Auditors.Gate.{pre_persist-blocks}
use backend_pae_account_mult.Pipeline.Agents.{
  PersistReply, gate_blockers, write_entries, run_persist, db_persist_node,
}

-- What is written is not empty, in balance within a peso, of a known transaction, with a date.
pub record IsPostable (readable : Option String → Bool) (s : AgentState) (as' : List Asiento)
    : Type 0 where
  pub lines : as' ≡ asientos_of s.contador_output
  pub some_line : is_empty as' ≡ false
  pub balanced : is_unbalanced as' ≡ false
  pub pending : blank s.pending_transaction_id ≡ false
  pub dated : readable (raw_fecha s) ≡ true

gate_lem :
    (readable : Option String → Bool) (s : AgentState) (t : AgentState)
    → s.mode ≡ Mode.process
    → is_empty (gate_blockers (pre_persist_run readable s 1) t) ≡ true
    → any finding_blocks (pre_persist_findings readable s) ≡ false
unfolding pre_persist_run
gate_lem readable s t m h =
    ground (arith, filter-is_empty finding_blocks (pre_persist_findings readable s))

-- db_persist, run in process mode without `force_persist`, hands on to be written only the lines of
-- the contador's output, and only if there is a line, they balance within a peso, the pending
-- transaction is named and the date of the document can be read.
pub db_persist_node-IsPostable :
    (readable : Option String → Bool) (reply : PersistReply) (s : AgentState) {as' : List Asiento}
    → s.mode ≡ Mode.process
    → s.force_persist ≡ false
    → (db_persist_node readable reply s).1 ≡ some as'
    → IsPostable readable s as'
unfolding db_persist_node run_persist write_entries append_log
db_persist_node-IsPostable readable reply s m f h =
    let t = append_log s Agent.db_persist "node_start" in
    let r = pre_persist_run readable t 1 in
    ground (
      arith,
      append_audit_report-Same t r,
      gate_lem readable t (append_audit_report t r),
      pre_persist-blocks readable t,
    )
