-- ===== src/Tax/RateTests.antt =====
-- Withholding, NITs and due dates at concrete values.
use mathlib.Core.List.{Perm}
use backend_pae_account_mult.Prelude.{
  ℕ, ◌*◌, ◌+◌, ◌≤◌, ◌≡◌, refl, ◌⊎◌, true, Option, none, some, List, [], arith,
}
use backend_pae_account_mult.Prelude.Int.{ℤ, pos, ◌-ℤ◌}
use backend_pae_account_mult.Prelude.Texts.{codes, strip}
use backend_pae_account_mult.Tax.Withholding.{
  RetencionConcepto, get_base_minima_pesos, matches, rate_in,
}
use backend_pae_account_mult.Tax.Withholding.Tables.{
  get_tabla, get_retencion_rate, calcular_retencion,
}
use backend_pae_account_mult.Tax.Withholding.Rates.{calcular_retencion-bounds}
use backend_pae_account_mult.Tax.Nit.{
  normalize_nit_dian, weighted, nit_dv, without_marks, normalize_nit, last_digit,
}
use backend_pae_account_mult.Tax.Nit.CheckDigit.{nit_dv-detects}
use backend_pae_account_mult.Tax.Nit.Normal.{normalize_nit-idempotent}
use backend_pae_account_mult.Tax.Calendar.{Date, CalendarEntry, answer, list_obligations}
use backend_pae_account_mult.Tax.Calendar.Order.{IsSorted}
use backend_pae_account_mult.Tax.Calendar.Obligations.{obligations, list_obligations-IsSorted}

-- A database without the UVT of any year.
abbrev no_uvt : ℕ → Option ℕ
no_uvt year = none

-- Fees of 3,000,000 pesos, paid after the change of tables.
fees_rate :
    get_retencion_rate RetencionConcepto.honorarios_comisiones true 300000000
      (some 20260601)
      none
      none
      no_uvt
      2026
    ≡ some 110
unfolding get_retencion_rate get_tabla rate_in matches get_base_minima_pesos
fees_rate = refl

top_base : get_base_minima_pesos 92 none none no_uvt 2026 ≤ 500000000
unfolding get_base_minima_pesos
top_base = omega arith

calcular_retencion-bounds_example :
    calcular_retencion RetencionConcepto.loterias_rifas true 500000000 none no_uvt 2026 * 1000
    ≤ 500000000 * 200 + 500
calcular_retencion-bounds_example =
    calcular_retencion-bounds RetencionConcepto.loterias_rifas true 500000000 none no_uvt 2026

-- Two NITs that differ in one digit and share the check digit 1.
dv_first : nit_dv (codes "900123008") ≡ some 1
unfolding nit_dv normalize_nit_dian weighted
dv_first = refl

dv_second : nit_dv (codes "900123108") ≡ some 1
unfolding nit_dv normalize_nit_dian weighted
dv_second = refl

abbrev first_digit : ℕ
first_digit = b'0'

abbrev second_digit : ℕ
second_digit = b'1'

abbrev shared : ℕ
shared = 1

nit_dv-detects_example : (first_digit ≡ second_digit) ⊎ (shared ≡ 1)
nit_dv-detects_example =
    nit_dv-detects (codes "900123") (codes "08") first_digit second_digit (omega arith) refl refl
      dv_first dv_second

normalized : normalize_nit (codes " 900.123.456-8 ") ≡ some (codes "900123456-8")
unfolding normalize_nit without_marks strip
normalized = refl

normalize_nit-idempotent_example :
    (codes "900123456-8" ≡ []) ⊎ (normalize_nit (codes "900123456-8") ≡ some (codes "900123456-8"))
normalize_nit-idempotent_example = normalize_nit-idempotent (codes " 900.123.456-8 ") normalized

-- Days between dates on a calendar of months of 30 days.
abbrev days : Date → Date → ℤ
days a b = pos ((a.year * 12 + a.month) * 30 + a.day) -ℤ pos ((b.year * 12 + b.month) * 30 + b.day)

abbrev today : Date
today = record { year = 2026; month = 4; day = 1 }

sixth : last_digit (codes "900.123.456-8") ≡ some 6
unfolding last_digit without_marks strip
sixth = refl

list_obligations-IsSorted_example :
    (es : List CalendarEntry) × (list_obligations days
        (codes "900.123.456-8")
        2026
        "bimestral"
        (pos 30)
        today
        (some "anual")
      ≡ answer es)
    × IsSorted es
    × Perm es (obligations days (codes "900.123.456-8") today (pos 30) 6 "bimestral" (some "anual"))
list_obligations-IsSorted_example =
    list_obligations-IsSorted days (codes "900.123.456-8") today (pos 30) "bimestral" (some "anual")
      sixth refl refl

no_digit : last_digit (codes "NIT-8") ≡ none
unfolding last_digit without_marks strip
no_digit = refl
