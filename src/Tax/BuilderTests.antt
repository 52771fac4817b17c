-- ===== src/Tax/BuilderTests.antt =====
-- The ledger and the concepts of a month, and the theorems of the builders there.
use backend_pae_account_mult.Prelude.{
  ℕ, ◌≡◌, refl, ◌<◌, ◌⊎◌, true, some, List, [], ◌∷◌, if◌then◌else◌,
}
use backend_pae_account_mult.Prelude.Int.{ℤ, pos, ◌+ℤ◌, ◌-ℤ◌, ltb_ℤ, ◌≤ℤ◌}
use backend_pae_account_mult.Tax.Catalog.{Computed, value_in, build_draft_from_catalog}
use backend_pae_account_mult.Tax.Forms.{at_least_0}
use backend_pae_account_mult.Tax.Forms.F350.{catalog_f350}
use backend_pae_account_mult.Prelude.Texts.{codes}
use backend_pae_account_mult.Books.{LedgerRow}
use backend_pae_account_mult.Tax.Builders.{
  Concept, exact_credit, get_computed, total_discriminated, build_f350,
}
use backend_pae_account_mult.Tax.Builders.Conservation.{salaries}
use backend_pae_account_mult.Tax.Builders.F300.{exact_debit, Revenue, build_f300}
use backend_pae_account_mult.Tax.Builders.Proration.{build_f300-deducts}
use backend_pae_account_mult.Tax.Builders.Filled.{f350_total}

-- Retentions of 1500.00 in account 2365.
abbrev ledger : List LedgerRow
ledger = record { account = codes "2365"; total_debit = pos 0; total_credit = pos 150000 } ∷ []

-- Fees of 1000.00 and wages of 200.00.
abbrev concepts : List Concept
concepts =
    record {
      code = "HON";
      categoria = "honorarios";
      aplica_a = "PJ";
      tarifa = 1100;
      monto = some (pos 100000);
    }
    ∷ record {
      code = "NOM";
      categoria = "salarios";
      aplica_a = "PN";
      tarifa = 0;
      monto = some (pos 20000);
    }
    ∷ record {
      code = "ICA";
      categoria = "ica";
      aplica_a = "PJ";
      tarifa = 70;
      monto = some (pos 700);
    }
    ∷ []

abbrev draft : ℕ → ℤ
draft =
    value_in
      (build_draft_from_catalog catalog_f350 (get_computed (build_f350 ledger (some concepts))))

f350_total_example :
    draft 130
    ≡ at_least_0 (
        (if ltb_ℤ (pos 1) (exact_credit ledger (codes "2365") -ℤ total_discriminated concepts)
          then exact_credit ledger (codes "2365")
          else total_discriminated concepts)
        +ℤ salaries concepts
        -ℤ draft 129)
f350_total_example = f350_total ledger concepts refl

-- IVA paid of 1000.00, and a quarter of the income excluded.
abbrev iva_ledger : List LedgerRow
iva_ledger =
    record { account = codes "240805"; total_debit = pos 0; total_credit = pos 190000 }
    ∷ record { account = codes "240802"; total_debit = pos 100000; total_credit = pos 0 }
    ∷ []

abbrev revenue : Revenue
revenue = record {
  gravado_19 = 2000000;
  gravado_5 = 500000;
  exento = 500000;
  excluido = 1000000;
  exportacion = 0;
  no_gravado = 0;
  sin_clasificar = 0;
}

iva_paid : exact_debit iva_ledger (codes "240802") ≡ pos 100000
unfolding exact_debit
iva_paid = refl

build_f300-deducts_example :
    (c : Computed) × (get_computed (build_f300 iva_ledger true revenue) 72 ≡ some c)
    × (c.value ≤ℤ pos 100000)
    × ((c.value ≡ pos 100000)
        ⊎ ((true ≡ true) × (0 < revenue.excluido) × (c.requires_review ≡ true)))
build_f300-deducts_example = build_f300-deducts iva_ledger true revenue 100000 iva_paid
