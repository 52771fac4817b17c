-- ===== src/Books/Pnl/Results.antt =====
-- The net profit of the balance sheets against the income statement.
use mathlib.Core.Path.{subst}
use backend_pae_account_mult.Prelude.{
  ℕ, ◌≡◌, refl, sym, ap, ◌∙◌, Bool, true, false, ◌&&◌, Option, none, some, List, [], ◌∷◌, filter,
  All, arith, Bool-cases, inl, inr, if◌then◌else◌,
}
use backend_pae_account_mult.Prelude.Int.{ℤ, pos, ◌+ℤ◌, ◌-ℤ◌, ltb_ℤ, int_laws}
use backend_pae_account_mult.Prelude.Texts.{String, str_eq}
use backend_pae_account_mult.Books.{
  TransactionPosted, JournalEntryLine, Database, LedgerRow, row_of, equals_text, not_before,
  not_after, is_posted, in_query, posted_lines, group_lines,
}
use backend_pae_account_mult.Books.Grouping.{
  IsAdditive, sum_lines, sum_where, line_where, sum_where-grouped,
}
use backend_pae_account_mult.Books.Sheet.{
  Clase, activo, pasivo, patrimonio, ingreso, gasto, costo, NaturalezaCuenta, CuentaPuc,
  naturaleza_for, reclassed, clase_of, presentation_class, Totals, no_totals, credit_saldo, place,
  place_classed, add_rows, profit_of, close_sheet, between, until, get_balance_sheet, is_classed,
  has_clase, get_balance_sheet_for_period,
}
use backend_pae_account_mult.Books.Pnl.{
  Pnl, add_amount, add_amounts, get_pnl, utilidad_bruta, utilidad_neta,
}

abbrev pub is_result : Option Clase → Bool
is_result (some ingreso) = true
is_result (some gasto) = true
is_result (some costo) = true
is_result other = false

-- Accounts of classes 4, 5 and 6.
unfoldable pub has_result : List ℕ → Bool
has_result code = is_result (clase_of code)

credit_saldo-IsAdditive : IsAdditive credit_saldo
credit_saldo-IsAdditive r l = omega int_laws

add_zero : (a : ℤ) → a ≡ a +ℤ pos 0
add_zero a = omega int_laws

zero_add : (a : ℤ) → pos 0 +ℤ a ≡ a
zero_add a = omega int_laws

regroup : (a b c : ℤ) → a +ℤ b +ℤ c ≡ a +ℤ (b +ℤ c)
regroup a b c = omega int_laws

is_result-reclassed :
    (n : Option NaturalezaCuenta) (clase : Clase)
    → is_result (some (reclassed n clase)) ≡ is_result (some clase)
is_result-reclassed none clase = refl
is_result-reclassed (some n) clase = ground arith

profit-place :
    (t : Totals) (clase : Clase) (r : LedgerRow)
    → profit_of (place t clase r)
      ≡ profit_of t +ℤ (if is_result (some clase) then credit_saldo r else pos 0)
unfolding place
profit-place t activo r = elim (Bool-cases (ltb_ℤ (r.total_debit -ℤ r.total_credit) (pos 0))) [
  | inl e ↦ rw e (add_zero (profit_of t))
  | inr e ↦ rw e (add_zero (profit_of t))
]
profit-place t pasivo r = add_zero (profit_of t)
profit-place t patrimonio r = add_zero (profit_of t)
profit-place t ingreso r = omega int_laws
profit-place t gasto r = omega int_laws
profit-place t costo r = omega int_laws

profit-place_classed :
    (n : Option NaturalezaCuenta) (t : Totals) (r : LedgerRow) (clase : Option Clase)
    → profit_of (place_classed (reclassed n) t r clase)
      ≡ profit_of t +ℤ (if is_result clase then credit_saldo r else pos 0)
profit-place_classed n t r none = add_zero (profit_of t)
profit-place_classed n t r (some clase) =
    subst
      (λ b.
        profit_of (place t (reclassed n clase) r)
        ≡ profit_of t +ℤ (if b then credit_saldo r else pos 0))
      (is_result-reclassed n clase) (profit-place t (reclassed n clase) r)

no_profit : profit_of no_totals ≡ pos 0
no_profit = omega int_laws

module _ (nature : List ℕ → Option NaturalezaCuenta) where
  abbrev present : List ℕ → Clase → Clase
  present code = reclassed (nature code)

  profit-add_rows :
      (t : Totals) (rows : List LedgerRow)
      → profit_of (add_rows present t rows) ≡ profit_of t +ℤ sum_where has_result credit_saldo rows
  unfolding add_rows sum_where has_result
  profit-add_rows t [] = add_zero (profit_of t)
  profit-add_rows t (r ∷ rs) =
      let t' = place_classed (present r.account) t r (clase_of r.account) in
      let rest = sum_where has_result credit_saldo rs in
      profit-add_rows t' rs
      ∙ ap (λ x. x +ℤ rest) (profit-place_classed (nature r.account) t r (clase_of r.account))
      ∙ regroup (profit_of t) (if has_result r.account then credit_saldo r else pos 0) rest

  -- The net profit of a sheet is what the lines grouped in its rows put on accounts of classes 4 to 6.
  net_profit-close_sheet :
      (ls : List JournalEntryLine)
      → (close_sheet present (group_lines [] ls)).net_profit
        ≡ sum_lines (line_where has_result credit_saldo) ls
  unfolding close_sheet
  net_profit-close_sheet ls =
      profit-add_rows no_totals (group_lines [] ls)
      ∙ ap (λ x. x +ℤ sum_where has_result credit_saldo (group_lines [] ls)) no_profit
      ∙ zero_add _
      ∙ sum_where-grouped credit_saldo credit_saldo-IsAdditive has_result ls

utilidad_neta-add_amount :
    (p : Pnl) (l : JournalEntryLine) (clase : Option Clase)
    → utilidad_neta (add_amount p l clase)
      ≡ utilidad_neta p +ℤ (if is_result clase then credit_saldo (row_of l) else pos 0)
unfolding utilidad_neta utilidad_bruta
utilidad_neta-add_amount p l none = omega int_laws
utilidad_neta-add_amount p l (some activo) = omega int_laws
utilidad_neta-add_amount p l (some pasivo) = omega int_laws
utilidad_neta-add_amount p l (some patrimonio) = omega int_laws
utilidad_neta-add_amount p l (some ingreso) = omega int_laws
utilidad_neta-add_amount p l (some gasto) = omega int_laws
utilidad_neta-add_amount p l (some costo) = omega int_laws

utilidad_neta-add_amounts :
    (p : Pnl) (ls : List JournalEntryLine)
    → utilidad_neta (add_amounts p ls)
      ≡ utilidad_neta p +ℤ sum_lines (line_where has_result credit_saldo) ls
unfolding add_amounts sum_lines has_result
utilidad_neta-add_amounts p [] = add_zero (utilidad_neta p)
utilidad_neta-add_amounts p (l ∷ ls) =
    let rest = sum_lines (line_where has_result credit_saldo) ls in
    utilidad_neta-add_amounts (add_amount p l (clase_of l.cuenta_puc)) ls
    ∙ ap (λ x. x +ℤ rest) (utilidad_neta-add_amount p l (clase_of l.cuenta_puc))
    ∙ regroup (utilidad_neta p) (if has_result l.cuenta_puc then credit_saldo (row_of l) else pos 0)
        rest

abbrev pub AllPosted : Database → Type 0
AllPosted db = All (λ l. is_posted db.transactions l.transaction_posted_id ≡ true) db.lines

unclassed : (clase : Option Clase) → is_classed clase ≡ false → is_result clase ≡ false
unclassed none e = refl
unclassed (some clase) e = cc

results-classed :
    (ls : List JournalEntryLine)
    → sum_lines (line_where has_result credit_saldo) (filter (λ l. has_clase l.cuenta_puc) ls)
      ≡ sum_lines (line_where has_result credit_saldo) ls
unfolding sum_lines has_clase has_result
results-classed [] = refl
results-classed (l ∷ ls) = ground (
  arith,
  results-classed ls,
  unclassed (clase_of l.cuenta_puc),
  zero_add (sum_lines (line_where has_result credit_saldo) ls),
)

-- The lines that the income statement reads.
abbrev pnl_lines : List JournalEntryLine → String → Option ℕ → Option ℕ → List JournalEntryLine
pnl_lines ls c start end =
    filter (λ l. equals_text l.company_nit c && (not_before start l.fecha && not_after end l.fecha))
      ls

posted_lines-pnl :
    (ts : List TransactionPosted) (ls : List JournalEntryLine) (c : String) (start end : Option ℕ)
    → str_eq c "" ≡ false
    → All (λ l. is_posted ts l.transaction_posted_id ≡ true) ls
    → posted_lines (record { transactions = ts; lines = ls }) (between start end (some c))
      ≡ pnl_lines ls c start end
unfolding posted_lines in_query
posted_lines-pnl ts [] c start end n a = refl
posted_lines-pnl ts (l ∷ ls) c start end n (p, ps) =
    ground (arith, p, n, posted_lines-pnl ts ls c start end n ps)

no_utilidad :
    utilidad_neta
      (record { total_ingresos = pos 0; total_gastos = pos 0; total_costo_ventas = pos 0 })
    ≡ pos 0
unfolding utilidad_neta utilidad_bruta
no_utilidad = omega int_laws

utilidad_neta-get_pnl :
    (db : Database) (c : String) (start end : Option ℕ)
    → AllPosted db
    → str_eq c "" ≡ false
    → utilidad_neta (get_pnl db c start end)
      ≡ sum_lines
          (line_where has_result credit_saldo)
          (posted_lines db (between start end (some c)))
unfolding get_pnl
utilidad_neta-get_pnl db c start end a n =
    let ls = pnl_lines db.lines c start end in
    utilidad_neta-add_amounts _ ls
    ∙ ap (λ x. x +ℤ sum_lines (line_where has_result credit_saldo) ls) no_utilidad
    ∙ zero_add _
    ∙ ap (sum_lines (line_where has_result credit_saldo))
        (sym (posted_lines-pnl db.transactions db.lines c start end n a))

-- While every line belongs to a posted transaction, the net income of a company's statement for a
-- period is the net profit of its balance sheet for that period, and where the period has no start,
-- of its balance sheet at the end of the period under any catalog.
pub utilidad_neta-net_profit :
    (catalog : List CuentaPuc) (db : Database) (c : String) (start end : Option ℕ)
    → AllPosted db
    → str_eq c "" ≡ false
    → (utilidad_neta (get_pnl db c start end)
        ≡ (get_balance_sheet_for_period db (between start end (some c))).net_profit)
      × (utilidad_neta (get_pnl db c none end)
          ≡ (get_balance_sheet catalog db end (some c)).net_profit)
unfolding get_balance_sheet_for_period get_balance_sheet presentation_class
utilidad_neta-net_profit catalog db c start end a n =
    let q = between start end (some c) in
    (
      utilidad_neta-get_pnl db c start end a n
          ∙ sym (results-classed (posted_lines db q))
          ∙ sym (
              net_profit-close_sheet (λ code. none)
                (filter (λ l. has_clase l.cuenta_puc) (posted_lines db q))),
      utilidad_neta-get_pnl db c none end a n
          ∙ sym (
              net_profit-close_sheet (naturaleza_for catalog)
                (posted_lines db (until end (some c)))),
    )
