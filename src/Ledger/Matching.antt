-- ===== src/Ledger/Matching.antt =====
-- `_asientos_for_tx` in `_run_persist` (app/agents/persist_node.py): which lines of the contador go
-- to which transaction of a batch. The identity of a line is its position. Amounts are centavos.
pub mod Pairs
use backend_pae_account_mult.Prelude.{
  ℕ, suc, Bool, true, false, not, ◌&&◌, Option, none, some, List, [], ◌∷◌, any, ◌==◌, if◌then◌else◌,
}
use backend_pae_account_mult.Prelude.Int.{ℤ, pos, ◌-ℤ◌, abs, ltb_ℤ}
use backend_pae_account_mult.Pipeline.State.{Movement, Asiento}
use backend_pae_account_mult.Pipeline.Auditors.{amount, same_movement}

-- A line at its position.
pub record Line : Type 0 where
  pub id : ℕ
  pub asiento : Asiento

-- `id(a) in used`.
abbrev pub is_used : List ℕ → Line → Bool
is_used used a = any (λ i. i == a.id) used

-- `abs(valor - tx_total) < Decimal("1")`.
unfoldable pub is_near : ℤ → Line → Bool
is_near tx_total a = ltb_ℤ (abs (amount a.asiento.valor -ℤ tx_total)) (pos 100)

abbrev pub is_candidate : Movement → ℤ → List ℕ → Line → Bool
is_candidate movement tx_total used a =
    not (is_used used a) && (same_movement a.asiento.tipo_movimiento movement && is_near tx_total a)

-- The first line of one side that is not used and matches the total.
unfoldable pub first_near : Movement → ℤ → List ℕ → List Line → Option Line
first_near movement tx_total used [] = none
first_near movement tx_total used (a ∷ rest) =
    if is_candidate movement tx_total used a then some a else first_near movement tx_total used rest

-- The lines of a transaction, and the lines used from then on. A debit that has no credit stays
-- used, though all lines are given.
unfoldable pub asientos_for_tx : ℤ → List Line → List ℕ → List Line × List ℕ
asientos_for_tx tx_total all_asientos used =
    elim (first_near Movement.debito tx_total used all_asientos) [
      | none ↦ (all_asientos, used)
      | some a ↦ elim (first_near Movement.credito tx_total (a.id ∷ used) all_asientos) [
        | none ↦ (all_asientos, a.id ∷ used)
        | some b ↦ (a ∷ b ∷ [], b.id ∷ a.id ∷ used)
      ]
    ]

-- The loop over the transactions' totals.
unfoldable pub asientos_for_batch : List ℤ → List Line → List ℕ → List (List Line)
asientos_for_batch [] all_asientos used = []
asientos_for_batch (t ∷ ts) all_asientos used =
    let (lines, used') = asientos_for_tx t all_asientos used in
    lines ∷ asientos_for_batch ts all_asientos used'
