-- ===== src/Tax/Builders/F110.antt =====
-- `_build_f110` and `_build_ica` of app/services/tax_declaration_service.py: income tax and the
-- municipal tax, from the general ledger of a year.
--
-- What the queries answer is an argument: the liabilities of the last reviewed F2516, the losses
-- available, the rates in millionths, the withholdings of the year (none without a database) and
-- of the year before, and the net tax of the year before. A product of an amount and a rate is rounded
-- to the centavo, half to even; warnings and the text of the rate are left out.
pub mod Income
pub mod Ica
use backend_pae_account_mult.Prelude.{
  ℕ, ◌*◌, Bool, true, false, Option, none, some, List, [], ◌∷◌, if◌then◌else◌,
}
use backend_pae_account_mult.Prelude.Int.{ℤ, pos, pos_part, neg_part, ◌+ℤ◌, ◌-ℤ◌, ◌*ℤ◌, max, ltb_ℤ}
use backend_pae_account_mult.Prelude.Texts.{String, codes}
use backend_pae_account_mult.Pipeline.Auditors.{starts_with}
use backend_pae_account_mult.Books.{LedgerRow}
use backend_pae_account_mult.Tax.Forms.{at_least_0}
use backend_pae_account_mult.Tax.Builders.{exact_credit, ComputedMap, round_div}
use backend_pae_account_mult.Tax.Builders.F300.{exact_debit, of_cuenta, level}

-- `_sum_credits`.
unfoldable pub sum_credits : List LedgerRow → String → ℤ
sum_credits [] prefix = pos 0
sum_credits (r ∷ rs) prefix =
    (if starts_with (codes prefix) r.account then r.total_credit else pos 0)
    +ℤ sum_credits rs prefix

-- `_sum_debits`.
unfoldable pub sum_debits : List LedgerRow → String → ℤ
sum_debits [] prefix = pos 0
sum_debits (r ∷ rs) prefix =
    (if starts_with (codes prefix) r.account then r.total_debit else pos 0) +ℤ sum_debits rs prefix

pub record IncomeSources : Type 0 where
  pub pasivos_fiscales : Option ℤ
  pub perdidas : ℤ
  pub tarifa : ℕ
  pub retenciones : Option ℤ
  pub retenciones_anterior : ℤ
  pub impuesto_anterior : Option ℤ

-- An amount times a rate in millionths.
unfoldable pub rate_of : ℕ → ℤ → ℤ
rate_of tarifa x =
    pos (round_div (pos_part x * tarifa) 1000000) -ℤ pos (round_div (neg_part x * tarifa) 1000000)

unfoldable pub pasivos_of : List LedgerRow → Option ℤ → ℤ
pasivos_of ledger none = sum_credits ledger "2"
pasivos_of ledger (some x) = x

abbrev pub pasivos_source : Option ℤ → String
pasivos_source none = "clase_2_puc"
pasivos_source (some x) = "f2516:249"

-- `gastos_otros`: what class 5 has outside groups 51, 52 and 53.
unfoldable pub gastos_otros : List LedgerRow → ℤ
gastos_otros ledger =
    sum_debits ledger "5"
    -ℤ sum_debits ledger "51"
    -ℤ sum_debits ledger "52"
    -ℤ sum_debits ledger "53"

unfoldable pub rlo_journal : List LedgerRow → ℤ
rlo_journal ledger = sum_credits ledger "4" -ℤ sum_debits ledger "6" -ℤ sum_debits ledger "5"

unfoldable pub renta_liquida_gravable : List LedgerRow → ℤ → ℤ
renta_liquida_gravable ledger perdidas = at_least_0 (at_least_0 (rlo_journal ledger) -ℤ perdidas)

unfoldable pub impuesto_basico : List LedgerRow → IncomeSources → ℤ
impuesto_basico ledger s = rate_of s.tarifa (renta_liquida_gravable ledger s.perdidas)

unfoldable pub retenciones_anio : List LedgerRow → Option ℤ → ℤ
retenciones_anio ledger none =
    exact_debit ledger (codes "135518") +ℤ exact_debit ledger (codes "135515")
retenciones_anio ledger (some x) = x

-- The two methods of Art. 807 ET, in eighths of a centavo.
unfoldable pub anticipo_metodo1 : ℤ → ℤ → ℤ
anticipo_metodo1 neto anterior = at_least_0 (pos 6 *ℤ neto -ℤ pos 8 *ℤ anterior)

unfoldable pub anticipo_metodo2 : ℤ → ℤ → ℤ → ℤ
anticipo_metodo2 neto neto_anterior anterior =
    at_least_0 (pos 3 *ℤ (neto +ℤ neto_anterior) -ℤ pos 8 *ℤ anterior)

abbrev pub larger_metodo : ℤ → ℤ → Option ℤ → ℤ
larger_metodo neto anterior none = anticipo_metodo1 neto anterior
larger_metodo neto anterior (some neto_anterior) =
    max (anticipo_metodo1 neto anterior) (anticipo_metodo2 neto neto_anterior anterior)

unfoldable pub anticipo : ℤ → IncomeSources → ℤ
anticipo neto s =
    pos (round_div (pos_part (larger_metodo neto s.retenciones_anterior s.impuesto_anterior)) 8)

unfoldable pub build_f110 : List LedgerRow → IncomeSources → ComputedMap
build_f110 ledger s =
    let con_perdidas = ltb_ℤ (pos 0) s.perdidas in
    (36, of_cuenta "clase_11_puc" (sum_debits ledger "11") "high" false)
    ∷ (37, of_cuenta "clase_12_puc" (sum_debits ledger "12") "high" false)
    ∷ (38, of_cuenta "clase_13_puc" (sum_debits ledger "13") "high" false)
    ∷ (39, of_cuenta "clase_14_puc" (sum_debits ledger "14") "high" false)
    ∷ (40, of_cuenta "clase_16_puc" (sum_debits ledger "16") "high" false)
    ∷ (42, of_cuenta "clase_15_puc" (sum_debits ledger "15") "high" false)
    ∷ (
      43,
      of_cuenta "clase_17-19_puc"
          (sum_debits ledger "17" +ℤ sum_debits ledger "18" +ℤ sum_debits ledger "19") "high" false,
    )
    ∷ (
      45,
      of_cuenta (pasivos_source s.pasivos_fiscales) (pasivos_of ledger s.pasivos_fiscales) "high"
          false,
    )
    ∷ (47, of_cuenta "clase_41_puc" (sum_credits ledger "41") "high" false)
    ∷ (57, of_cuenta "clase_42_puc" (sum_credits ledger "42") "high" false)
    ∷ (62, of_cuenta "clase_6_puc" (sum_debits ledger "6") "high" false)
    ∷ (63, of_cuenta "clase_51_puc" (sum_debits ledger "51") "high" false)
    ∷ (64, of_cuenta "clase_52_puc" (sum_debits ledger "52") "high" false)
    ∷ (65, of_cuenta "clase_53_puc" (sum_debits ledger "53") "high" false)
    ∷ (66, of_cuenta "clase_5_resto" (at_least_0 (gastos_otros ledger)) "high" false)
    ∷ (
      74,
      of_cuenta (if con_perdidas then "perdidas_fiscales_acumuladas" else "journal") s.perdidas
          (level con_perdidas) con_perdidas,
    )
    ∷ (84, of_cuenta "tarifa" (impuesto_basico ledger s) "high" true)
    ∷ (106, of_cuenta "cuentas_135518_135515" (retenciones_anio ledger s.retenciones) "high" false)
    ∷ (
      108,
      of_cuenta "art_807_mayor_de_dos_metodos" (anticipo (at_least_0 (impuesto_basico ledger s)) s)
          "high" true,
    )
    ∷ []

-- `ica_a_pagar`, at a rate in millionths, and its surcharge of 15%.
unfoldable pub ica_a_pagar : List LedgerRow → ℕ → ℤ
ica_a_pagar ledger tasa = rate_of tasa (sum_credits ledger "4")

unfoldable pub avisos_tableros : List LedgerRow → ℕ → ℤ
avisos_tableros ledger tasa = rate_of 150000 (ica_a_pagar ledger tasa)

unfoldable pub build_ica : List LedgerRow → ℕ → ComputedMap
build_ica ledger tasa =
    (1, of_cuenta "clase_4_puc" (sum_credits ledger "4") "high" false)
    ∷ (4, of_cuenta "calculado" (ica_a_pagar ledger tasa) "high" false)
    ∷ (5, of_cuenta "calculado (15% ICA)" (avisos_tableros ledger tasa) "high" false)
    ∷ (8, of_cuenta "cuenta_2368" (exact_debit ledger (codes "2368")) "high" false)
    ∷ []

-- The balance that the builder estimates.
unfoldable pub total_a_pagar : List LedgerRow → ℕ → ℤ
total_a_pagar ledger tasa =
    ica_a_pagar ledger tasa +ℤ avisos_tableros ledger tasa -ℤ exact_debit ledger (codes "2368")
