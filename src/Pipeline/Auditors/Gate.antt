-- ===== src/Pipeline/Auditors/Gate.antt =====
-- When the pre-persist audit stops an entry.
use backend_pae_account_mult.Prelude.{
  ◌≡◌, refl, Bool, false, not, ◌||◌, List, [], ◌∷◌, any, any-append, is_empty, Option, arith,
}
use backend_pae_account_mult.Prelude.Texts.{String}
use backend_pae_account_mult.Pipeline.Audit.{finding_blocks}
use backend_pae_account_mult.Pipeline.State.{Asiento, AgentState, asientos_of}
use backend_pae_account_mult.Pipeline.Auditors.{
  balance_findings, blank, asks_for_fecha, raw_fecha, is_unbalanced, row_findings, asiento_findings,
  pre_persist_findings,
}

row_findings-blocks : (seen as' : List Asiento) → any finding_blocks (row_findings seen as') ≡ false
unfolding row_findings
row_findings-blocks seen [] = refl
row_findings-blocks seen (a ∷ rest) = ground (arith, row_findings-blocks (a ∷ seen) rest)

asiento_findings-blocks :
    (as' : List Asiento)
    → any finding_blocks (asiento_findings as') ≡ (is_empty as' || is_unbalanced as')
unfolding asiento_findings
asiento_findings-blocks [] = refl
asiento_findings-blocks (a ∷ rest) = ground (
  arith,
  any-append finding_blocks (row_findings [] (a ∷ rest)) (balance_findings (a ∷ rest)),
  row_findings-blocks [] (a ∷ rest),
)

-- The pre-persist audit reports a blocker exactly when the pending transaction is missing, the date
-- is missing or unreadable, there is no line, or debits and credits differ by more than a peso.
pub pre_persist-blocks :
    (readable : Option String → Bool) (s : AgentState)
    → any finding_blocks (pre_persist_findings readable s) ≡ (
        blank s.pending_transaction_id
        || ((asks_for_fecha s.raw_transactions || not (readable (raw_fecha s)))
            || (is_empty (asientos_of s.contador_output)
                || is_unbalanced (asientos_of s.contador_output))))
unfolding pre_persist_findings
pre_persist-blocks readable s =
    ground (arith, asiento_findings-blocks (asientos_of s.contador_output))
