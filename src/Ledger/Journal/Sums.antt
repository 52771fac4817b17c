-- ===== src/Ledger/Journal/Sums.antt =====
-- The two sums of the entries that a builder makes, line by line.
use backend_pae_account_mult.Prelude.{◌≡◌, List, [], ◌∷◌, ◌++◌, arith, if◌then◌else◌}
use backend_pae_account_mult.Prelude.Int.{ℤ, pos, ◌+ℤ◌, ◌-ℤ◌, ltb_ℤ, int_laws}
use backend_pae_account_mult.Ledger.Journal.{
  Text, JournalEntry, Invoice, sum_debito, sum_credito, debit_line, credit_line, compra_entries,
  venta_entries, net_amount,
}

-- What a line adds that is left out unless its amount is positive.
abbrev pub part : ℤ → ℤ
part a = if ltb_ℤ (pos 0) a then a else pos 0

pub sum_debito-append :
    (xs ys : List JournalEntry) → sum_debito (xs ++ ys) ≡ sum_debito xs +ℤ sum_debito ys
unfolding sum_debito
sum_debito-append [] ys = omega int_laws
sum_debito-append (x ∷ xs) ys = rw (sum_debito-append xs ys) (omega int_laws)

pub sum_credito-append :
    (xs ys : List JournalEntry) → sum_credito (xs ++ ys) ≡ sum_credito xs +ℤ sum_credito ys
unfolding sum_credito
sum_credito-append [] ys = omega int_laws
sum_credito-append (x ∷ xs) ys = rw (sum_credito-append xs ys) (omega int_laws)

module _ (i : Invoice) (cuenta descripcion detalle : Text) (a : ℤ) where
  debit_line-debito : sum_debito (debit_line i cuenta descripcion detalle a) ≡ part a
  unfolding sum_debito ◌+ℤ◌
  debit_line-debito = ground arith

  debit_line-credito : sum_credito (debit_line i cuenta descripcion detalle a) ≡ pos 0
  unfolding sum_credito ◌+ℤ◌
  debit_line-credito = ground arith

  credit_line-debito : sum_debito (credit_line i cuenta descripcion detalle a) ≡ pos 0
  unfolding sum_debito ◌+ℤ◌
  credit_line-debito = ground arith

  credit_line-credito : sum_credito (credit_line i cuenta descripcion detalle a) ≡ part a
  unfolding sum_credito ◌+ℤ◌
  credit_line-credito = ground arith

ruleset line_sums = (
  sum_debito-append, sum_credito-append, debit_line-debito, debit_line-credito, credit_line-debito,
  credit_line-credito,
)

pub compra-debito :
    (i : Invoice) → sum_debito (compra_entries i) ≡ part (i.total -ℤ i.iva) +ℤ part i.iva
unfolding compra_entries
compra-debito i = simp line_sums (omega int_laws)

pub compra-credito :
    (i : Invoice)
    → sum_credito (compra_entries i) ≡ part (net_amount i) +ℤ part i.retefuente +ℤ part i.reteica
unfolding compra_entries
compra-credito i = simp line_sums (omega int_laws)

pub venta-debito :
    (i : Invoice)
    → sum_debito (venta_entries i) ≡ part (net_amount i) +ℤ part i.retefuente +ℤ part i.reteica
unfolding venta_entries
venta-debito i = simp line_sums (omega int_laws)

pub venta-credito :
    (i : Invoice) → sum_credito (venta_entries i) ≡ part (i.total -ℤ i.iva) +ℤ part i.iva
unfolding venta_entries
venta-credito i = simp line_sums (omega int_laws)
