-- ===== src/Books.antt =====
-- The accounting books that app/services/db_service.py reads from the journal: the tables of
-- app/models/database.py that they stand on, the lines that a query selects, and the general ledger.
--
-- A date is a number of time units, a code of an account the list of its characters. A query of SQL
-- is a filter of the lines, GROUP BY is `group_lines`, and ORDER BY is `order_by_account`.
mod Tests
mod TrendTests
mod ToleranceTests
pub mod Grouping
pub mod Amounts
pub mod Sheet
pub mod Pnl
pub mod Posting
pub mod Trend
use backend_pae_account_mult.Prelude.{
  ℕ, leb, Bool, true, false, ◌&&◌, ◌||◌, Option, none, some, List, [], ◌∷◌, filter, if◌then◌else◌,
}
use backend_pae_account_mult.Prelude.Int.{ℤ, pos, ◌+ℤ◌, ◌-ℤ◌}
use backend_pae_account_mult.Prelude.Texts.{String, str_eq, codes_eq}

pub data TransactionStatus : Type 0 where
  pending processing posted rejected error : TransactionStatus

pub record TransactionPosted : Type 0 where
  pub id : String
  pub company_nit : Option String
  pub tipo_iva : Option String
  pub status : TransactionStatus
  pub deleted_at : Option ℕ

pub record JournalEntryLine : Type 0 where
  pub transaction_posted_id : String
  pub fecha : ℕ
  pub company_nit : Option String
  pub cuenta_puc : List ℕ
  pub cuenta_nombre : List ℕ
  pub tercero_nit : List ℕ
  pub descripcion : List ℕ
  pub debito : ℤ
  pub credito : ℤ

pub record Database : Type 0 where
  pub transactions : List TransactionPosted
  pub lines : List JournalEntryLine

-- The optional filters of a report.
pub record Query : Type 0 where
  pub start_date : Option ℕ
  pub end_date : Option ℕ
  pub company_nit : Option String

abbrev pub is_posted_status : TransactionStatus → Bool
is_posted_status posted = true
is_posted_status _ = false

-- The join of a line with its transaction, kept where the status is POSTED.
unfoldable pub is_posted : List TransactionPosted → String → Bool
is_posted [] id = false
is_posted (t ∷ ts) id = if str_eq t.id id then is_posted_status t.status else is_posted ts id

abbrev pub not_before : Option ℕ → ℕ → Bool
not_before none fecha = true
not_before (some start) fecha = leb start fecha

abbrev pub not_after : Option ℕ → ℕ → Bool
not_after none fecha = true
not_after (some end) fecha = leb fecha end

-- A column of SQL is equal to a text only where it is not NULL.
abbrev pub equals_text : Option String → String → Bool
equals_text none c = false
equals_text (some nit) c = str_eq nit c

-- `if company_nit:` lets an empty text pass every line.
abbrev pub of_company : Option String → Option String → Bool
of_company none nit = true
of_company (some c) nit = str_eq c "" || equals_text nit c

unfoldable pub in_query : Query → ℕ → Option String → Bool
in_query q fecha nit =
    not_before q.start_date fecha && (not_after q.end_date fecha && of_company q.company_nit nit)

-- The lines that a report reads.
unfoldable pub posted_lines : Database → Query → List JournalEntryLine
posted_lines db q =
    filter
      (λ l. is_posted db.transactions l.transaction_posted_id && in_query q l.fecha l.company_nit)
      db.lines

pub record LedgerRow : Type 0 where
  pub account : List ℕ
  pub total_debit : ℤ
  pub total_credit : ℤ

abbrev pub row_of : JournalEntryLine → LedgerRow
row_of l = record { account = l.cuenta_puc; total_debit = l.debito; total_credit = l.credito }

abbrev pub plus_line : LedgerRow → JournalEntryLine → LedgerRow
plus_line r l = record r {
  total_debit = r.total_debit +ℤ l.debito;
  total_credit = r.total_credit +ℤ l.credito;
}

-- `GROUP BY cuenta_puc` with the sums of both sides.
unfoldable pub add_line : List LedgerRow → JournalEntryLine → List LedgerRow
add_line [] l = row_of l ∷ []
add_line (r ∷ rs) l =
    let rest = add_line rs l in
    if codes_eq r.account l.cuenta_puc then plus_line r l ∷ rs else r ∷ rest

unfoldable pub group_lines : List LedgerRow → List JournalEntryLine → List LedgerRow
group_lines rows [] = rows
group_lines rows (l ∷ ls) = group_lines (add_line rows l) ls

-- `a <= b` on texts.
abbrev pub codes_leb : List ℕ → List ℕ → Bool
codes_leb [] ys = true
codes_leb (x ∷ xs) [] = false
codes_leb (x ∷ xs) (y ∷ ys) =
    let rest = codes_leb xs ys in if leb y x then (if leb x y then rest else false) else true

-- `ORDER BY cuenta_puc`.
unfoldable pub insert_row : LedgerRow → List LedgerRow → List LedgerRow
insert_row r [] = r ∷ []
insert_row r (s ∷ rs) =
    let rest = insert_row r rs in if codes_leb r.account s.account then r ∷ s ∷ rs else s ∷ rest

unfoldable pub order_by_account : List LedgerRow → List LedgerRow
order_by_account [] = []
order_by_account (r ∷ rs) = insert_row r (order_by_account rs)

-- `get_general_ledger`, without the names of the accounts.
unfoldable pub get_general_ledger : Database → Query → List LedgerRow
get_general_ledger db q = order_by_account (group_lines [] (posted_lines db q))

abbrev pub net_balance : LedgerRow → ℤ
net_balance r = r.total_debit -ℤ r.total_credit

-- `get_subsidiary_journal`, in the order of the table.
unfoldable pub get_subsidiary_journal : Database → Query → List ℕ → List JournalEntryLine
get_subsidiary_journal db q account =
    filter (λ l. codes_eq l.cuenta_puc account) (posted_lines db q)
