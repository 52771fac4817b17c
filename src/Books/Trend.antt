-- ===== src/Books/Trend.antt =====
-- The trends by month of app/services/db_service.py: `get_monthly_trend` for one prefix of accounts
-- and `get_monthly_totals_by_class`, one grouped query for all prefixes.
--
-- The year and month of a date are one number, `month_of` of the date, which grows with them; the
-- texts of months are left out. The columns `d_`, `c_` and `n_` of a prefix are the bucket of it.
pub mod Same
pub mod Cutoff
use backend_pae_account_mult.Prelude.{
  ℕ, zero, suc, ◌+◌, ltb, leb, Bool, true, false, ◌&&◌, Option, none, some, List, [], ◌∷◌, filter,
  ◌==◌, if◌then◌else◌,
}
use backend_pae_account_mult.Prelude.Int.{ℤ, pos, negsuc, ◌+ℤ◌, ◌-ℤ◌, leb_ℤ}
use backend_pae_account_mult.Prelude.Texts.{String, codes}
use backend_pae_account_mult.Pipeline.Auditors.{starts_with}
use backend_pae_account_mult.Books.{JournalEntryLine, Database, is_posted, of_company}

-- `while cutoff_month <= 0`: the year and the month of the cutoff; none where the fuel runs out.
unfoldable pub roll_back : ℕ → ℤ → ℤ → Option (ℤ × ℤ)
roll_back zero year month = none
roll_back (suc fuel) year month =
    let again = roll_back fuel (year -ℤ pos 1) (month +ℤ pos 12) in
    if leb_ℤ month (pos 0) then again else some (year, month)

-- The cutoff so many months before a month of a year; a round goes back twelve of them.
unfoldable pub cutoff_of : ℕ → ℕ → ℕ → Option (ℤ × ℤ)
cutoff_of year month months = roll_back (suc months) (pos year) (pos month -ℤ pos months)

pub record MonthRow : Type 0 where
  pub month : ℕ
  pub total_debit : ℤ
  pub total_credit : ℤ

unfoldable pub has_prefix : String → JournalEntryLine → Bool
has_prefix prefix l = starts_with (codes prefix) l.cuenta_puc

abbrev pub month_row : ℕ → JournalEntryLine → MonthRow
month_row m l = record { month = m; total_debit = l.debito; total_credit = l.credito }

-- `GROUP BY yr, mo ORDER BY yr, mo` with the sums of both sides.
unfoldable pub add_month : ℕ → JournalEntryLine → List MonthRow → List MonthRow
add_month m l [] = month_row m l ∷ []
add_month m l (r ∷ rs) =
    let later = add_month m l rs in
    if m == r.month
    then record r {
      total_debit = r.total_debit +ℤ l.debito;
      total_credit = r.total_credit +ℤ l.credito;
    }
      ∷ rs
    else if ltb m r.month
    then month_row m l ∷ r ∷ rs
    else r ∷ later

unfoldable pub group_months : (ℕ → ℕ) → List MonthRow → List JournalEntryLine → List MonthRow
group_months month_of rows [] = rows
group_months month_of rows (l ∷ ls) = group_months month_of (add_month (month_of l.fecha) l rows) ls

-- The lines that both queries read, from the cutoff on.
unfoldable pub recent_lines : Database → ℕ → Option String → List JournalEntryLine
recent_lines db cutoff company_nit =
    filter
      (λ l.
        is_posted db.transactions l.transaction_posted_id
        && (leb cutoff l.fecha && of_company company_nit l.company_nit))
      db.lines

-- `get_monthly_trend`.
unfoldable pub get_monthly_trend : (ℕ → ℕ) → Database → ℕ → Option String → String → List MonthRow
get_monthly_trend month_of db cutoff company_nit account_prefix =
    group_months month_of []
      (filter (has_prefix account_prefix) (recent_lines db cutoff company_nit))

pub record Bucket : Type 0 where
  pub debit : ℤ
  pub credit : ℤ
  pub count : ℕ

abbrev pub no_bucket : Bucket
no_bucket = record { debit = pos 0; credit = pos 0; count = 0 }

-- The `case` expressions of a prefix count a line of another prefix as nothing.
abbrev pub plus_bucket : Bool → JournalEntryLine → Bucket → Bucket
plus_bucket matches l b =
    if matches
    then record { debit = b.debit +ℤ l.debito; credit = b.credit +ℤ l.credito; count = b.count + 1 }
    else b

pub record ClassRow : Type 0 where
  pub month : ℕ
  pub bucket : String → Bucket

abbrev pub class_row : ℕ → JournalEntryLine → ClassRow
class_row m l = record {
  month = m;
  bucket = λ prefix. plus_bucket (has_prefix prefix l) l no_bucket;
}

unfoldable pub add_class_month : ℕ → JournalEntryLine → List ClassRow → List ClassRow
add_class_month m l [] = class_row m l ∷ []
add_class_month m l (r ∷ rs) =
    let later = add_class_month m l rs in
    if m == r.month
    then record r { bucket = λ prefix. plus_bucket (has_prefix prefix l) l (r.bucket prefix) } ∷ rs
    else if ltb m r.month
    then class_row m l ∷ r ∷ rs
    else r ∷ later

unfoldable pub group_class_months : (ℕ → ℕ) → List ClassRow → List JournalEntryLine → List ClassRow
group_class_months month_of rows [] = rows
group_class_months month_of rows (l ∷ ls) =
    group_class_months month_of (add_class_month (month_of l.fecha) l rows) ls

abbrev pub row_of_bucket : ℕ → Bucket → MonthRow
row_of_bucket m b = record { month = m; total_debit = b.debit; total_credit = b.credit }

-- The months of a prefix, those where no line has it left out.
unfoldable pub rows_of_prefix : String → List ClassRow → List MonthRow
rows_of_prefix prefix [] = []
rows_of_prefix prefix (r ∷ rs) =
    let rest = rows_of_prefix prefix rs in
    if (r.bucket prefix).count == 0 then rest else row_of_bucket r.month (r.bucket prefix) ∷ rest

-- `get_monthly_totals_by_class`, at one of its prefixes.
unfoldable pub get_monthly_totals_by_class :
    (ℕ → ℕ) → Database → ℕ → Option String → String → List MonthRow
get_monthly_totals_by_class month_of db cutoff company_nit prefix =
    rows_of_prefix prefix (group_class_months month_of [] (recent_lines db cutoff company_nit))
