-- ===== src/Books/ToleranceTests.antt =====
-- Two entries of the process mode, each sixty centavos apart, and the books after them.
use backend_pae_account_mult.Prelude.{
  ℕ, ◌≡◌, refl, true, false, Option, none, some, List, [], ◌∷◌, map, arith,
}
use backend_pae_account_mult.Prelude.Int.{ℤ, pos, ◌+ℤ◌, ◌-ℤ◌, abs}
use backend_pae_account_mult.Prelude.Texts.{String, codes}
use backend_pae_account_mult.Pipeline.State.{Asiento, Movement}
use backend_pae_account_mult.Ledger.Journal.{
  JournalEntry, ok, sum_debito, sum_credito, validate_balance, contador_entries,
  build_from_contador,
}
use backend_pae_account_mult.Books.{
  Database, is_posted, in_query, posted_lines, add_line, group_lines,
}
use backend_pae_account_mult.Books.Sheet.{
  clase_of, has_clase, naturaleza_by_code, naturaleza_for, presentation_class, place, add_rows,
  imbalance, close_sheet, between, get_balance_sheet, get_balance_sheet_for_period,
}
use backend_pae_account_mult.Books.Posting.{
  infer_tipo_iva_from_journal, is_valid_tipo_iva, create_transaction_posted,
  persist_journal_entry_lines, persist_journal_entries, Posting, post_transaction,
}
use backend_pae_account_mult.Books.Posting.Tolerance.{IsNear, IsAccepted, Runs, Runs-IsNear}
use backend_pae_account_mult.Books.Posting.Contador.{Verdict, build_from_contador-IsAccepted}

abbrev asiento : List ℕ → Movement → ℤ → Asiento
asiento cuenta movement valor = record {
  cuenta_puc = cuenta;
  nombre_cuenta = [];
  descripcion = [];
  tipo_movimiento = movement;
  valor = some valor;
}

abbrev asientos : List Asiento
asientos =
    asiento (codes "510506") Movement.debito (pos 10060)
    ∷ asiento (codes "110505") Movement.credito (pos 10000)
    ∷ []

abbrev entry : List ℕ → ℤ → ℤ → JournalEntry
entry cuenta debito credito = record {
  fecha = "2026-03-05";
  cuenta = cuenta;
  descripcion = codes "pago";
  tercero_nit = [];
  detalle = codes "pago";
  debito = debito;
  credito = credito;
}

abbrev entries : List JournalEntry
entries =
    entry (codes "510506") (pos 10060) (pos 0) ∷ entry (codes "110505") (pos 0) (pos 10000) ∷ []

entries_built : build_from_contador "2026-03-05" asientos [] (codes "pago") ≡ ok entries
unfolding build_from_contador contador_entries validate_balance sum_debito sum_credito abs ◌+ℤ◌ ◌-ℤ◌
entries_built = refl

expense_classed : has_clase (codes "510506") ≡ true
unfolding has_clase clase_of
expense_classed = refl

cash_classed : has_clase (codes "110505") ≡ true
unfolding has_clase clase_of
cash_classed = refl

entries-IsNear : IsNear 1 (sum_debito entries -ℤ sum_credito entries)
unfolding ◌-ℤ◌ sum_debito ◌+ℤ◌ sum_credito
entries-IsNear = omega arith

abbrev entries_accepted : IsAccepted entries
entries_accepted = record {
  fecha = "2026-03-05";
  dated = (refl, (refl, tt));
  near = entries-IsNear;
  classed = (expense_classed, (cash_classed, tt));
}

build_from_contador-IsAccepted_example :
    Verdict asientos entries × (map (λ e. e.cuenta) entries ≡ map (λ a. a.cuenta_puc) asientos)
build_from_contador-IsAccepted_example =
    build_from_contador-IsAccepted "2026-03-05" asientos [] (codes "pago") entries_built

abbrev read_date : String → Option ℕ
read_date s = some 64

abbrev payment : String → Posting
payment id = record {
  id = id;
  company_nit = some "900123456";
  entries = entries;
  descripcion = codes "pago";
  existing = none;
}

abbrev no_rows : Database
no_rows = record { transactions = []; lines = [] }

abbrev first : Database
first = post_transaction read_date no_rows (payment "posted_1")

abbrev second : Database
second = post_transaction read_date first (payment "posted_2")

Runs-IsNear_example :
    IsNear 2 (imbalance (get_balance_sheet [] second none none).totals)
    × IsNear 2 (imbalance (get_balance_sheet_for_period second (between (some 1) none none)).totals)
Runs-IsNear_example =
    Runs-IsNear read_date
      (Runs.post 1 (payment "posted_2")
        (Runs.post 0 (payment "posted_1") (Runs.start refl) entries_accepted refl refl)
        entries_accepted refl refl)
      [] none none (between (some 1) none none)

-- Each entry is within the tolerance, and the books are reported as unbalanced.
two_unbalance : (get_balance_sheet [] second none none).is_balanced ≡ false
unfolding post_transaction infer_tipo_iva_from_journal create_transaction_posted is_valid_tipo_iva
    persist_journal_entries persist_journal_entry_lines get_balance_sheet close_sheet posted_lines
    is_posted in_query group_lines add_line add_rows clase_of presentation_class naturaleza_for
    naturaleza_by_code place imbalance abs ◌+ℤ◌ ◌-ℤ◌
two_unbalance = refl
