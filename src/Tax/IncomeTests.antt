-- ===== src/Tax/IncomeTests.antt =====
-- F110 and the municipal tax of a small year, and the theorems of their builder there.
use backend_pae_account_mult.Prelude.{ℕ, ◌≡◌, refl, none, some, List, [], ◌∷◌, arith}
use backend_pae_account_mult.Prelude.Int.{ℤ, pos, ◌+ℤ◌, ◌-ℤ◌, max}
use backend_pae_account_mult.Prelude.Texts.{codes}
use backend_pae_account_mult.Books.{LedgerRow}
use backend_pae_account_mult.Tax.Catalog.{value_in, build_draft_from_catalog}
use backend_pae_account_mult.Tax.Forms.{at_least_0}
use backend_pae_account_mult.Tax.Forms.F110.{catalog_f110}
use backend_pae_account_mult.Tax.Forms.Ica.{catalog_ica}
use backend_pae_account_mult.Tax.Builders.{get_computed, round_div}
use backend_pae_account_mult.Tax.Builders.F110.{
  IncomeSources, sum_credits, sum_debits, rate_of, gastos_otros, rlo_journal,
  renta_liquida_gravable, impuesto_basico, build_f110, build_ica, total_a_pagar,
}
use backend_pae_account_mult.Tax.Builders.F110.Income.{f110_income}
use backend_pae_account_mult.Tax.Builders.F110.Ica.{ica_balance}

-- Sales of 1000.00, costs of 400.00 and wages of 100.00, at a rate of 35%.
abbrev year_ledger : List LedgerRow
year_ledger =
    record { account = codes "413595"; total_debit = pos 0; total_credit = pos 100000 }
    ∷ record { account = codes "613595"; total_debit = pos 40000; total_credit = pos 0 }
    ∷ record { account = codes "510506"; total_debit = pos 10000; total_credit = pos 0 }
    ∷ []

abbrev income_sources : IncomeSources
income_sources = record {
  pasivos_fiscales = none;
  perdidas = pos 20000;
  tarifa = 350000;
  retenciones = some (pos 5000);
  retenciones_anterior = pos 0;
  impuesto_anterior = none;
}

abbrev draft_f110 : ℕ → ℤ
draft_f110 =
    value_in
      (build_draft_from_catalog catalog_f110 (get_computed (build_f110 year_ledger income_sources)))

class_4_is_41 :
    sum_credits year_ledger "4" ≡ sum_credits year_ledger "41" +ℤ sum_credits year_ledger "42"
unfolding sum_credits ◌+ℤ◌
class_4_is_41 = refl

no_other_gastos : gastos_otros year_ledger ≡ pos 0
unfolding gastos_otros sum_debits ◌+ℤ◌ ◌-ℤ◌
no_other_gastos = refl

f110_income_example :
    (draft_f110 79 ≡ renta_liquida_gravable year_ledger (pos 20000))
    × (draft_f110 84 ≡ rate_of 350000 (draft_f110 79))
f110_income_example =
    f110_income year_ledger income_sources refl class_4_is_41 (rw no_other_gastos (omega arith))

income_tax : impuesto_basico year_ledger income_sources ≡ pos 10500
unfolding impuesto_basico renta_liquida_gravable rlo_journal rate_of sum_credits sum_debits
    round_div max ◌+ℤ◌ ◌-ℤ◌
income_tax = refl

-- Income of group 47 is taxed in box 84 and is not in box 79.
abbrev adjusted_ledger : List LedgerRow
adjusted_ledger =
    record { account = codes "470505"; total_debit = pos 0; total_credit = pos 100000 } ∷ []

taxed_income : renta_liquida_gravable adjusted_ledger (pos 0) ≡ pos 100000
unfolding renta_liquida_gravable rlo_journal sum_credits sum_debits max ◌+ℤ◌ ◌-ℤ◌
taxed_income = refl

untaxed_boxes : sum_credits adjusted_ledger "41" +ℤ sum_credits adjusted_ledger "42" ≡ pos 0
unfolding sum_credits ◌+ℤ◌
untaxed_boxes = refl

abbrev draft_ica : ℕ → ℤ
draft_ica =
    value_in (build_draft_from_catalog catalog_ica (get_computed (build_ica year_ledger 6900)))

ica_balance_example : draft_ica 12 ≡ at_least_0 (total_a_pagar year_ledger 6900)
ica_balance_example = ica_balance year_ledger 6900 refl
