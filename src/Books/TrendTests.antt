-- ===== src/Books/TrendTests.antt =====
-- Two months of sales and costs, and the theorems on the trends there.
use backend_pae_account_mult.Prelude.{ℕ, ◌/◌, ◌≡◌, refl, none, some, List, [], ◌∷◌, arith}
use backend_pae_account_mult.Prelude.Int.{ℤ, pos, ◌+ℤ◌, ◌-ℤ◌, ◌≤ℤ◌}
use backend_pae_account_mult.Prelude.Texts.{codes}
use backend_pae_account_mult.Books.{posted, JournalEntryLine, Database, is_posted}
use backend_pae_account_mult.Books.Trend.{
  roll_back, cutoff_of, has_prefix, add_month, group_months, recent_lines, get_monthly_trend,
  get_monthly_totals_by_class,
}
use backend_pae_account_mult.Books.Trend.Same.{totals-trend}
use backend_pae_account_mult.Books.Trend.Cutoff.{months_to, cutoff_of-IsMonth}

abbrev line : ℕ → List ℕ → ℤ → ℤ → JournalEntryLine
line fecha cuenta debito credito = record {
  transaction_posted_id = "posted_1";
  fecha = fecha;
  company_nit = some "900123456";
  cuenta_puc = cuenta;
  cuenta_nombre = [];
  tercero_nit = [];
  descripcion = [];
  debito = debito;
  credito = credito;
}

-- Days are counted in months of 30; the second month has no sale.
abbrev db : Database
db = record {
  transactions =
      record {
        id = "posted_1";
        company_nit = some "900123456";
        tipo_iva = none;
        status = posted;
        deleted_at = none;
      }
      ∷ [];
  lines =
      line 95 (codes "413595") (pos 0) (pos 300)
      ∷ line 40 (codes "613595") (pos 80) (pos 0)
      ∷ line 20 (codes "413595") (pos 0) (pos 200)
      ∷ line 25 (codes "413535") (pos 10) (pos 100)
      ∷ [];
}

abbrev month_of : ℕ → ℕ
month_of fecha = fecha / 30

totals-trend_example :
    get_monthly_totals_by_class month_of db 10 (some "900123456") "4"
    ≡ get_monthly_trend month_of db 10 (some "900123456") "4"
totals-trend_example = totals-trend "4" month_of db 10 (some "900123456")

income_by_month :
    get_monthly_trend month_of db 10 none "4"
    ≡ record { month = 0; total_debit = pos 10; total_credit = pos 300 }
      ∷ record { month = 3; total_debit = pos 0; total_credit = pos 300 }
      ∷ []
unfolding get_monthly_trend group_months add_month recent_lines has_prefix is_posted ◌+ℤ◌
income_by_month = refl

cutoff_of-IsMonth_example :
    (y : ℤ) × (m : ℤ) × (cutoff_of 2026 3 14 ≡ some (y, m))
    × ((pos 1 ≤ℤ m) × (m ≤ℤ pos 12) × (months_to y m ≡ months_to (pos 2026) (pos 3) -ℤ pos 14))
cutoff_of-IsMonth_example = cutoff_of-IsMonth 2026 3 14 (omega arith) (omega arith)

fourteen_months_back : cutoff_of 2026 3 14 ≡ some (pos 2025, pos 1)
unfolding cutoff_of roll_back ◌+ℤ◌ ◌-ℤ◌
fourteen_months_back = refl
