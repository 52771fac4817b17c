-- ===== src/Books/Sheet.antt =====
-- The balance sheets of app/services/db_service.py: `get_balance_sheet`, at a cutoff date and with
-- the natures of the catalog of accounts, and `get_balance_sheet_for_period`, and the income
-- statement `get_pnl`.
pub mod Equation
use backend_pae_account_mult.Prelude.{
  ℕ, leb, Bool, true, false, ◌&&◌, Option, none, some, List, [], ◌∷◌, map, filter, length, take,
  ◌==◌, if◌then◌else◌,
}
use backend_pae_account_mult.Prelude.Int.{ℤ, pos, ◌+ℤ◌, ◌-ℤ◌, abs, leb_ℤ, ltb_ℤ}
use backend_pae_account_mult.Prelude.Texts.{String, codes_eq}
use backend_pae_account_mult.Books.{
  JournalEntryLine, Database, Query, LedgerRow, in_query, equals_text, not_before, not_after,
  posted_lines, group_lines, order_by_account,
}

-- The keys 1 to 6 of `totals`.
pub data Clase : Type 0 where
  activo pasivo patrimonio ingreso gasto costo : Clase

abbrev pub clase_of_digit : ℕ → Option Clase
clase_of_digit c =
    if c == b'1'
    then some activo
    else if c == b'2'
    then some pasivo
    else if c == b'3'
    then some patrimonio
    else if c == b'4'
    then some ingreso
    else if c == b'5'
    then some gasto
    else if c == b'6'
    then some costo
    else none

-- The class of an account, none where the loops skip it.
unfoldable pub clase_of : List ℕ → Option Clase
clase_of [] = none
clase_of (c ∷ cs) = clase_of_digit c

pub data NaturalezaCuenta : Type 0 where
  debito credito : NaturalezaCuenta

pub record CuentaPuc : Type 0 where
  pub codigo : List ℕ
  pub naturaleza : NaturalezaCuenta

unfoldable pub naturaleza_by_code : List CuentaPuc → List ℕ → Option NaturalezaCuenta
naturaleza_by_code [] code = none
naturaleza_by_code (c ∷ cs) code =
    if codes_eq c.codigo code then some c.naturaleza else naturaleza_by_code cs code

abbrev pub or_else_naturaleza :
    Option NaturalezaCuenta → Option NaturalezaCuenta → Option NaturalezaCuenta
or_else_naturaleza (some n) other = some n
or_else_naturaleza none other = other

abbrev pub parent_naturaleza : List CuentaPuc → List ℕ → ℕ → Option NaturalezaCuenta
parent_naturaleza catalog code n =
    if leb n (length code) then naturaleza_by_code catalog (take n code) else none

-- The nature of the account itself, or of its parent of six or of four digits.
unfoldable pub naturaleza_for : List CuentaPuc → List ℕ → Option NaturalezaCuenta
naturaleza_for catalog code =
    or_else_naturaleza (naturaleza_by_code catalog code)
      (or_else_naturaleza (parent_naturaleza catalog code 6) (parent_naturaleza catalog code 4))

abbrev pub reclassed : Option NaturalezaCuenta → Clase → Clase
reclassed (some debito) pasivo = activo
reclassed (some debito) patrimonio = activo
reclassed (some credito) activo = pasivo
reclassed n clase = clase

-- `_presentation_class`.
unfoldable pub presentation_class : List CuentaPuc → List ℕ → Clase → Clase
presentation_class catalog code clase = reclassed (naturaleza_for catalog code) clase

pub record Totals : Type 0 where
  pub assets : ℤ
  pub liabilities : ℤ
  pub equity : ℤ
  pub revenue : ℤ
  pub expenses : ℤ
  pub cost_of_sales : ℤ

abbrev pub no_totals : Totals
no_totals = record {
  assets = pos 0;
  liabilities = pos 0;
  equity = pos 0;
  revenue = pos 0;
  expenses = pos 0;
  cost_of_sales = pos 0;
}

-- `totals[clase] += saldo`.
abbrev pub add_to : Totals → Clase → ℤ → Totals
add_to t activo x = record t { assets = t.assets +ℤ x }
add_to t pasivo x = record t { liabilities = t.liabilities +ℤ x }
add_to t patrimonio x = record t { equity = t.equity +ℤ x }
add_to t ingreso x = record t { revenue = t.revenue +ℤ x }
add_to t gasto x = record t { expenses = t.expenses +ℤ x }
add_to t costo x = record t { cost_of_sales = t.cost_of_sales +ℤ x }

abbrev pub debit_saldo : LedgerRow → ℤ
debit_saldo r = r.total_debit -ℤ r.total_credit

abbrev pub credit_saldo : LedgerRow → ℤ
credit_saldo r = r.total_credit -ℤ r.total_debit

-- A class-1 account whose balance is a credit counts as a liability.
unfoldable pub place : Totals → Clase → LedgerRow → Totals
place t activo r =
    if ltb_ℤ (debit_saldo r) (pos 0)
    then add_to t pasivo (pos 0 -ℤ debit_saldo r)
    else add_to t activo (debit_saldo r)
place t pasivo r = add_to t pasivo (credit_saldo r)
place t patrimonio r = add_to t patrimonio (credit_saldo r)
place t ingreso r = add_to t ingreso (credit_saldo r)
place t gasto r = add_to t gasto (debit_saldo r)
place t costo r = add_to t costo (debit_saldo r)

abbrev pub place_classed : (Clase → Clase) → Totals → LedgerRow → Option Clase → Totals
place_classed present t r none = t
place_classed present t r (some clase) = place t (present clase) r

-- The loop over the accounts; `present` gives the class that an account of a class counts in.
unfoldable pub add_rows : (List ℕ → Clase → Clase) → Totals → List LedgerRow → Totals
add_rows present t [] = t
add_rows present t (r ∷ rs) =
    add_rows present (place_classed (present r.account) t r (clase_of r.account)) rs

abbrev pub is_flipped : Clase → LedgerRow → Bool
is_flipped activo r = ltb_ℤ (debit_saldo r) (pos 0)
is_flipped _ r = false

abbrev pub is_flipped_classed : (Clase → Clase) → LedgerRow → Option Clase → Bool
is_flipped_classed present r none = false
is_flipped_classed present r (some clase) = is_flipped (present clase) r

-- `reclassified_to_pasivos`, sorted.
unfoldable pub reclassified : (List ℕ → Clase → Clase) → List LedgerRow → List (List ℕ)
reclassified present rows =
    map (λ r. r.account)
      (order_by_account
        (filter (λ r. is_flipped_classed (present r.account) r (clase_of r.account)) rows))

pub record BalanceSheet : Type 0 where
  pub totals : Totals
  pub net_profit : ℤ
  pub total_equity : ℤ
  pub is_balanced : Bool
  pub reclassified_accounts : List (List ℕ)

abbrev pub profit_of : Totals → ℤ
profit_of t = t.revenue -ℤ t.expenses -ℤ t.cost_of_sales

unfoldable pub imbalance : Totals → ℤ
imbalance t = t.assets -ℤ (t.liabilities +ℤ t.equity +ℤ profit_of t)

-- The end of both functions.
unfoldable pub close_sheet : (List ℕ → Clase → Clase) → List LedgerRow → BalanceSheet
close_sheet present rows =
    let t = add_rows present no_totals rows in
    record {
      totals = t;
      net_profit = profit_of t;
      total_equity = t.equity +ℤ profit_of t;
      is_balanced = leb_ℤ (abs (imbalance t)) (pos 100);
      reclassified_accounts = reclassified present rows;
    }

abbrev pub between : Option ℕ → Option ℕ → Option String → Query
between start end company_nit = record {
  start_date = start;
  end_date = end;
  company_nit = company_nit;
}

abbrev pub until : Option ℕ → Option String → Query
until cutoff company_nit = between none cutoff company_nit

unfoldable pub get_balance_sheet :
    List CuentaPuc → Database → Option ℕ → Option String → BalanceSheet
get_balance_sheet catalog db cutoff company_nit =
    close_sheet (presentation_class catalog)
      (group_lines [] (posted_lines db (until cutoff company_nit)))

abbrev pub is_classed : Option Clase → Bool
is_classed none = false
is_classed (some clase) = true

unfoldable pub has_clase : List ℕ → Bool
has_clase code = is_classed (clase_of code)

abbrev pub own_class : List ℕ → Clase → Clase
own_class code clase = clase

-- `per_account` holds the accounts of the six classes only.
unfoldable pub get_balance_sheet_for_period : Database → Query → BalanceSheet
get_balance_sheet_for_period db q =
    close_sheet own_class
      (group_lines [] (filter (λ l. has_clase l.cuenta_puc) (posted_lines db q)))
