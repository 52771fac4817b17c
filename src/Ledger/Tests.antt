-- ===== src/Ledger/Tests.antt =====
-- Invoices, entries and bank statements with concrete amounts, and the theorems of the ledger there.
use backend_pae_account_mult.Prelude.{
  ◌≡◌, refl, ◌⊎◌, true, false, Option, none, some, List, [], ◌∷◌, map, length, if◌then◌else◌,
}
use backend_pae_account_mult.Prelude.Int.{ℤ, pos, ◌+ℤ◌, ◌-ℤ◌, abs}
use backend_pae_account_mult.Prelude.Texts.{codes}
use backend_pae_account_mult.Pipeline.State.{Movement, Asiento}
use backend_pae_account_mult.Pipeline.Auditors.{is_unbalanced, total_debitos, total_creditos}
use backend_pae_account_mult.Ledger.Journal.{
  Invoice, JournalEntry, ok, err, unbalanced, sum_debito, sum_credito, build_from_ingest,
  build_from_contador,
}
use backend_pae_account_mult.Ledger.Journal.Balance.{Booked, build_from_ingest-Booked}
use backend_pae_account_mult.Ledger.Journal.Contador.{build_from_contador-audited}
use backend_pae_account_mult.Ledger.Matching.{
  Line, is_near, first_near, asientos_for_tx, asientos_for_batch,
}
use backend_pae_account_mult.Ledger.Matching.Pairs.{IsApart, asientos_for_batch-IsApart}
use backend_pae_account_mult.Ledger.BankRepair.{
  BankMovement, Content, to_decimal, actual_delta, exceeds_row, is_shifted, next_saldo, repair_row,
  repaired_movements, repairs, last_saldo, is_unreliable, repair_bank_movements,
}
use backend_pae_account_mult.Ledger.BankRepair.Consistency.{
  is_consistent, saldo_of, repair_bank_movements-is_consistent, repair_bank_movements-idempotent,
}

-- A sale of 1190.00 with IVA of 190.00, of which 25.00 and 9.66 are withheld.
abbrev sale : Invoice
sale = record {
  fecha = "2026-01-15";
  cuenta_puc = codes "4135";
  puc_descripcion = codes "Ventas";
  total = pos 119000;
  iva = pos 19000;
  retefuente = pos 2500;
  reteica = pos 966;
  nit = codes "900123456";
  descripcion = codes "factura";
  doc_type = "factura_venta";
  cuenta_reteica = codes "236805";
}

build_from_ingest-Booked_example : Booked sale (build_from_ingest sale)
build_from_ingest-Booked_example = build_from_ingest-Booked sale refl

abbrev cash_line : Asiento
cash_line = record {
  tipo_movimiento = Movement.debito;
  cuenta_puc = codes "1105";
  nombre_cuenta = codes "Caja";
  descripcion = [];
  valor = some (pos 119000);
}

abbrev income_line : Asiento
income_line = record cash_line {
  tipo_movimiento = Movement.credito;
  cuenta_puc = codes "4135";
  valor = some (pos 119050);
}

abbrev cash_sale : List Asiento
cash_sale = cash_line ∷ income_line ∷ []

build_from_contador-audited_example :
    ((is_unbalanced cash_sale ≡ true)
      × (build_from_contador "2026-01-15" cash_sale [] (codes "venta") ≡ err unbalanced))
    ⊎ ((is_unbalanced cash_sale ≡ false)
        × ((es : List JournalEntry) × (build_from_contador "2026-01-15" cash_sale [] (codes "venta")
              ≡ ok es)
            × (length es ≡ length cash_sale)
            × (sum_debito es ≡ total_debitos cash_sale)
            × (sum_credito es ≡ total_creditos cash_sale)))
build_from_contador-audited_example =
    build_from_contador-audited "2026-01-15" [] (codes "venta") cash_sale refl

-- A statement whose second row has debito and credito swapped.
abbrev movement : Option ℤ → Option ℤ → ℤ → BankMovement
movement credito debito saldo = record {
  fecha = "2026-01-15";
  descripcion = "pago";
  credito = credito;
  debito = debito;
  saldo = some saldo;
}

abbrev statement : Content
statement = record {
  movements =
      movement (some (pos 5000)) none (pos 15000)
      ∷ movement (some (pos 4000)) none (pos 11000)
      ∷ [];
  saldo_inicial = some (pos 10000);
  saldo_final = some (pos 11000);
}

repaired_rows :
    (repair_bank_movements statement).0.movements
    ≡ movement (some (pos 5000)) none (pos 15000)
      ∷ movement (some (pos 0)) (some (pos 4000)) (pos 11000)
      ∷ []
unfolding repair_bank_movements repairs is_shifted exceeds_row actual_delta next_saldo is_unreliable
    last_saldo repaired_movements repair_row ◌+ℤ◌ ◌-ℤ◌ abs
repaired_rows = refl

statement_reliable : is_unreliable statement ≡ false
unfolding is_unreliable last_saldo next_saldo actual_delta ◌+ℤ◌ ◌-ℤ◌ abs
statement_reliable = refl

repair_bank_movements-is_consistent_example :
    (is_consistent
        (to_decimal statement.saldo_inicial)
        (repair_bank_movements statement).0.movements
      ≡ true)
    × (map saldo_of (repair_bank_movements statement).0.movements
        ≡ map saldo_of statement.movements)
repair_bank_movements-is_consistent_example =
    repair_bank_movements-is_consistent statement statement_reliable

-- The same statement with a declared final saldo that its last row contradicts.
abbrev doubtful : Content
doubtful = record statement { saldo_final = some (pos 90000) }

repair_bank_movements-idempotent_example :
    repair_bank_movements (repair_bank_movements doubtful).0 ≡ (
      (repair_bank_movements doubtful).0,
      if is_unreliable doubtful then (repair_bank_movements doubtful).1 else [],
    )
repair_bank_movements-idempotent_example = repair_bank_movements-idempotent doubtful

doubtful_unreliable : is_unreliable doubtful ≡ true
unfolding is_unreliable last_saldo next_saldo actual_delta ◌+ℤ◌ ◌-ℤ◌ abs
doubtful_unreliable = refl

-- A sale of 1000.00 that is paid, with 25.00 withheld: four lines.
abbrev withheld_lines : List Line
withheld_lines =
    record { id = 0; asiento = record cash_line { valor = some (pos 100000) } }
    ∷ record { id = 1; asiento = record income_line { valor = some (pos 100000) } }
    ∷ record { id = 2; asiento = record cash_line { valor = some (pos 2500) } }
    ∷ record { id = 3; asiento = record income_line { valor = some (pos 2500) } }
    ∷ []

-- A batch of two: the second total is matched by the lines that are left.
asientos_for_batch-IsApart_example :
    IsApart withheld_lines (asientos_for_batch (pos 100000 ∷ pos 2500 ∷ []) withheld_lines [])
asientos_for_batch-IsApart_example =
    asientos_for_batch-IsApart (pos 100000 ∷ pos 2500 ∷ []) withheld_lines []

two_pairs :
    map (λ g. map (λ a. a.id) g) (asientos_for_batch (pos 100000 ∷ pos 2500 ∷ []) withheld_lines [])
    ≡ (0 ∷ 1 ∷ []) ∷ (2 ∷ 3 ∷ []) ∷ []
unfolding asientos_for_batch asientos_for_tx first_near is_near ◌-ℤ◌ abs
two_pairs = refl
