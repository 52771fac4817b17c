-- ===== src/Tax/JournalTests.antt =====
-- F300 from the journal, the losses carried forward and the accumulators at concrete rows.
use backend_pae_account_mult.Prelude.{ℕ, ◌≡◌, refl, true, ◌⊎◌, none, some, List, [], ◌∷◌, arith}
use backend_pae_account_mult.Prelude.Int.{ℤ, pos, negsuc, ◌+ℤ◌, ◌-ℤ◌}
use backend_pae_account_mult.Prelude.Texts.{codes}
use backend_pae_account_mult.Books.{posted, JournalEntryLine, Database, Query, get_general_ledger}
use backend_pae_account_mult.Tax.Catalog.{value_in, build_draft_from_catalog}
use backend_pae_account_mult.Tax.Forms.F300.{catalog_f300}
use backend_pae_account_mult.Tax.Builders.{get_computed, exact_credit}
use backend_pae_account_mult.Tax.Builders.F300.{
  Revenue, compute_prorrateo_factor, deductible, build_f300, exact_debit,
}
use backend_pae_account_mult.Tax.Builders.Booked.{
  credits_of, debits_of, exact-subsidiary, f300_from_journal,
}
use backend_pae_account_mult.Tax.Losses.{
  PerdidaFiscal, is_loss_of, find_perdida, set_perdida, upsert_perdida, register_compensacion, err,
  would_exceed, insert_by_year, order_by_year, get_perdidas_disponibles, sum_pendiente,
  sum_perdidas_disponibles,
}
use backend_pae_account_mult.Tax.Losses.Compensation.{Outcome, register_compensacion-Outcome}
use backend_pae_account_mult.Tax.Accumulators.{
  Period, same_period, update_accumulator, get_or_create_accumulator, add_to_accumulator,
  liquidate_accumulator,
}
use backend_pae_account_mult.Tax.Accumulators.Run.{
  add, liquidate, serve, serve_all, view, view_serve_all, view-serve_all,
}

abbrev line : List ℕ → ℤ → ℤ → JournalEntryLine
line cuenta debito credito = record {
  transaction_posted_id = "posted_1";
  fecha = 64;
  company_nit = some "900123456";
  cuenta_puc = cuenta;
  cuenta_nombre = [];
  tercero_nit = [];
  descripcion = [];
  debito = debito;
  credito = credito;
}

-- IVA of 1900.00 charged and of 1000.00 paid.
abbrev journal : Database
journal = record {
  transactions =
      record {
        id = "posted_1";
        company_nit = some "900123456";
        tipo_iva = some "gravado_19";
        status = posted;
        deleted_at = none;
      }
      ∷ [];
  lines =
      line (codes "240805") (pos 0) (pos 190000)
      ∷ line (codes "240802") (pos 100000) (pos 0)
      ∷ line (codes "111005") (pos 90000) (pos 0)
      ∷ [];
}

abbrev march : Query
march = record { start_date = some 60; end_date = some 90; company_nit = some "900123456" }

exact-subsidiary_example :
    (exact_credit (get_general_ledger journal march) (codes "240805")
      ≡ credits_of journal march (codes "240805"))
    × (exact_debit (get_general_ledger journal march) (codes "240805")
        ≡ debits_of journal march (codes "240805"))
exact-subsidiary_example = exact-subsidiary journal march (codes "240805")

-- A loss of 500.00 of which 200.00 are compensated.
abbrev losses : List PerdidaFiscal
losses =
    record {
      company_nit = "900123456";
      year = 2023;
      monto_perdida = pos 50000;
      monto_compensado = pos 20000;
      monto_pendiente = pos 30000;
    }
    ∷ []

losses_pending : pos 30000 ≡ pos 50000 -ℤ pos 20000
unfolding ◌-ℤ◌
losses_pending = refl

register_compensacion-Outcome_example :
    Outcome losses "900123456" 2023
      (pos 10000)
      (register_compensacion losses "900123456" 2023 (pos 10000))
register_compensacion-Outcome_example =
    register_compensacion-Outcome losses "900123456" 2023 (pos 10000)
      (record { pending = losses_pending; within = omega arith }, tt)

compensation_too_large :
    register_compensacion losses "900123456" 2023 (pos 30001) ≡ err would_exceed
unfolding register_compensacion find_perdida is_loss_of ◌+ℤ◌
compensation_too_large = refl

losses_available : sum_perdidas_disponibles losses "900123456" 2025 ≡ pos 30000
unfolding sum_perdidas_disponibles get_perdidas_disponibles order_by_year insert_by_year
    sum_pendiente ◌+ℤ◌
losses_available = refl

-- A loss corrected to less than what is compensated leaves a negative amount pending.
abbrev corrected_loss : PerdidaFiscal
corrected_loss = record {
  company_nit = "900123456";
  year = 2023;
  monto_perdida = pos 10000;
  monto_compensado = pos 20000;
  monto_pendiente = negsuc 9999;
}

upsert_below : upsert_perdida losses "900123456" 2023 (pos 10000) ≡ corrected_loss ∷ []
unfolding upsert_perdida find_perdida set_perdida is_loss_of ◌-ℤ◌
upsert_below = refl

abbrev march_tax : Period
march_tax = record {
  special_tax_id = "estampilla";
  company_nit = "900123456";
  period_year = 2026;
  period_month = 3;
}

view-serve_all_example :
    view
      (serve_all [] (
        add march_tax (pos 1000) (pos 20)
        ∷ liquidate march_tax 95
        ∷ add march_tax (pos 500) (pos 10)
        ∷ []))
      march_tax
    ≡ view_serve_all march_tax (view [] march_tax) (
        add march_tax (pos 1000) (pos 20)
        ∷ liquidate march_tax 95
        ∷ add march_tax (pos 500) (pos 10)
        ∷ [])
view-serve_all_example =
    view-serve_all []
      (add march_tax (pos 1000) (pos 20)
        ∷ liquidate march_tax 95
        ∷ add march_tax (pos 500) (pos 10)
        ∷ [])
      march_tax

-- An amount added after the liquidation counts in the liquidated period.
liquidated_grows :
    serve_all [] (
      add march_tax (pos 1000) (pos 20)
      ∷ liquidate march_tax 95
      ∷ add march_tax (pos 500) (pos 10)
      ∷ [])
    ≡ record {
      period = march_tax;
      accumulated_base = pos 1500;
      accumulated_tax = pos 30;
      liquidated = true;
      liquidated_at = some 95;
    }
      ∷ []
unfolding serve_all serve add_to_accumulator get_or_create_accumulator update_accumulator
    liquidate_accumulator same_period ◌+ℤ◌
liquidated_grows = refl

abbrev revenue : Revenue
revenue = record {
  gravado_19 = 1000000;
  gravado_5 = 0;
  exento = 0;
  excluido = 0;
  exportacion = 0;
  no_gravado = 0;
  sin_clasificar = 0;
}

abbrev draft_f300 : ℕ → ℤ
draft_f300 = value_in (
    build_draft_from_catalog catalog_f300
      (get_computed (build_f300 (get_general_ledger journal march) true revenue)))

f300_from_journal_example :
    ((draft_f300 82 ≡ pos 0) ⊎ (draft_f300 83 ≡ pos 0))
    × (draft_f300 82 -ℤ draft_f300 83
        ≡ credits_of journal march (codes "240805")
          +ℤ credits_of journal march (codes "240807")
          -ℤ deductible true
              (compute_prorrateo_factor revenue)
              (debits_of journal march (codes "240802")))
f300_from_journal_example = f300_from_journal journal march true revenue refl
