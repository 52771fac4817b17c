-- ===== src/Tax/Builders/F300.antt =====
-- `_compute_prorrateo_factor` and `_build_f300` of tax_declaration_service.py (app/services): the IVA of
-- a period, with the deductible part prorated.
--
-- The income of each kind is not negative. A factor is a fraction, a number over a positive number,
-- and the rounding of a product with it is to the nearest centavo, half to even; sources are left
-- without their factor, and warnings are left out.
use backend_pae_account_mult.Prelude.{
  ℕ, ◌+◌, ◌*◌, ltb, Bool, false, ◌||◌, ◌==◌, List, [], ◌∷◌, if◌then◌else◌,
}
use backend_pae_account_mult.Prelude.Int.{ℤ, pos, ◌+ℤ◌, pos_part, neg_part, ◌-ℤ◌, ltb_ℤ}
use backend_pae_account_mult.Prelude.Texts.{String, codes, codes_eq}
use backend_pae_account_mult.Tax.Catalog.{Computed}
use backend_pae_account_mult.Books.{LedgerRow}
use backend_pae_account_mult.Tax.Builders.{exact_credit, ComputedMap, round_div}

unfoldable pub exact_debit : List LedgerRow → List ℕ → ℤ
exact_debit [] account = pos 0
exact_debit (r ∷ rs) account =
    if codes_eq r.account account then r.total_debit else exact_debit rs account

-- `revenue_by_tipo`, zero where a kind is missing.
pub record Revenue : Type 0 where
  pub gravado_19 : ℕ
  pub gravado_5 : ℕ
  pub exento : ℕ
  pub excluido : ℕ
  pub exportacion : ℕ
  pub no_gravado : ℕ
  pub sin_clasificar : ℕ

-- The income with a right to deduct, and the classified income.
abbrev pub descontable_eligible : Revenue → ℕ
descontable_eligible r = r.gravado_19 + r.gravado_5 + r.exento + r.exportacion

abbrev pub total_clasificado : Revenue → ℕ
total_clasificado r = descontable_eligible r + r.excluido

-- The factor as numerator and denominator, and whether it is to be reviewed.
pub record Prorrateo : Type 0 where
  pub numerator : ℕ
  pub denominator : ℕ
  pub requires_review : Bool

unfoldable pub compute_prorrateo_factor : Revenue → Prorrateo
compute_prorrateo_factor r =
    if total_clasificado r == 0
    then record { numerator = 1; denominator = 1; requires_review = ltb 0 r.sin_clasificar }
    else record {
      numerator = descontable_eligible r;
      denominator = total_clasificado r;
      requires_review =
          ltb (descontable_eligible r) (total_clasificado r) || ltb 0 r.sin_clasificar;
    }

-- An amount times the factor, rounded; of an amount one of the two parts is zero.
unfoldable pub prorated : Prorrateo → ℤ → ℤ
prorated p x =
    pos (round_div (pos_part x * p.numerator) p.denominator)
    -ℤ pos (round_div (neg_part x * p.numerator) p.denominator)

-- `iva_descontable_prorateable` and `operaciones_mixtas`.
unfoldable pub deductible : Bool → Prorrateo → ℤ → ℤ
deductible responsable p x = if responsable then prorated p x else x

unfoldable pub operaciones_mixtas : Bool → Prorrateo → Bool
operaciones_mixtas responsable p =
    if responsable then ltb p.numerator p.denominator || p.requires_review else false

abbrev pub level : Bool → String
level positive = if positive then "high" else "medium"

abbrev pub of_tipo : String → ℕ → Computed
of_tipo source x = record {
  value = pos x;
  source = source;
  confidence = level (ltb 0 x);
  requires_review = false;
}

abbrev pub of_cuenta : String → ℤ → String → Bool → Computed
of_cuenta source x confidence review = record {
  value = x;
  source = source;
  confidence = confidence;
  requires_review = review;
}

unfoldable pub build_f300 : List LedgerRow → Bool → Revenue → ComputedMap
build_f300 ledger responsable r =
    let p = compute_prorrateo_factor r in
    let generado_19 = exact_credit ledger (codes "240805") in
    let generado_5 = exact_credit ledger (codes "240807") in
    let descontable = deductible responsable p (exact_debit ledger (codes "240802")) in
    (28, of_tipo "tipo_iva=gravado_19" r.gravado_19)
    ∷ (27, of_tipo "tipo_iva=gravado_5" r.gravado_5)
    ∷ (35, of_tipo "tipo_iva=exento" r.exento)
    ∷ (39, of_tipo "tipo_iva=excluido" r.excluido)
    ∷ (30, of_tipo "tipo_iva=exportacion" r.exportacion)
    ∷ (40, of_tipo "tipo_iva=no_gravado" r.no_gravado)
    ∷ (59, of_cuenta "cuenta_240805" generado_19 "high" false)
    ∷ (58, of_cuenta "cuenta_240807" generado_5 (level (ltb_ℤ (pos 0) generado_5)) false)
    ∷ (72, of_cuenta "cuenta_240802" descontable "high" (operaciones_mixtas responsable p))
    ∷ []

-- The balance that the builder estimates for its warnings.
unfoldable pub iva_neto : List LedgerRow → Bool → Revenue → ℤ
iva_neto ledger responsable r =
    exact_credit ledger (codes "240805")
    +ℤ exact_credit ledger (codes "240807")
    -ℤ deductible responsable (compute_prorrateo_factor r) (exact_debit ledger (codes "240802"))
