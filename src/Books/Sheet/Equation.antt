-- ===== src/Books/Sheet/Equation.antt =====
-- The accounting equation of the balance sheets: what they fail to balance by is the debits less the
-- credits of the lines they read, wherever the accounts are presented.
use backend_pae_account_mult.Prelude.{
  ℕ, ◌≡◌, refl, ap, ◌∙◌, Option, none, some, List, [], ◌∷◌, filter, arith, if◌then◌else◌,
  Bool-cases, inl, inr,
}
use backend_pae_account_mult.Prelude.Int.{ℤ, pos, ◌+ℤ◌, ◌-ℤ◌, ltb_ℤ, int_laws}
use backend_pae_account_mult.Prelude.Texts.{String}
use backend_pae_account_mult.Books.{
  JournalEntryLine, Database, Query, LedgerRow, posted_lines, group_lines,
}
use backend_pae_account_mult.Books.Grouping.{
  IsAdditive, sum_lines, sum_where, line_where, sum_where-grouped,
}
use backend_pae_account_mult.Books.Sheet.{
  Clase, activo, pasivo, patrimonio, ingreso, gasto, costo, clase_of, CuentaPuc, presentation_class,
  Totals, no_totals, debit_saldo, place, place_classed, add_rows, imbalance, close_sheet, until,
  get_balance_sheet, is_classed, has_clase, own_class, get_balance_sheet_for_period,
}

pub debit_saldo-IsAdditive : IsAdditive debit_saldo
debit_saldo-IsAdditive r l = omega int_laws

unfoldable pub imbalance_add :
    (a l e r x c d : ℤ)
    → (a +ℤ d) -ℤ (l +ℤ e +ℤ (r -ℤ x -ℤ c)) ≡ (a -ℤ (l +ℤ e +ℤ (r -ℤ x -ℤ c))) +ℤ d
imbalance_add a l e r x c d = omega int_laws

imbalance-place :
    (t : Totals) (clase : Clase) (r : LedgerRow)
    → imbalance (place t clase r) ≡ imbalance t +ℤ debit_saldo r
unfolding imbalance place
imbalance-place t activo r = elim (Bool-cases (ltb_ℤ (debit_saldo r) (pos 0))) [
  | inl e ↦ rw e (omega int_laws)
  | inr e ↦ rw e (omega int_laws)
]
imbalance-place t pasivo r = omega int_laws
imbalance-place t patrimonio r = omega int_laws
imbalance-place t ingreso r = omega int_laws
imbalance-place t gasto r = omega int_laws
imbalance-place t costo r = omega int_laws

add_zero : (a : ℤ) → a ≡ a +ℤ pos 0
add_zero a = omega int_laws

regroup : (a b c : ℤ) → a +ℤ b +ℤ c ≡ a +ℤ (b +ℤ c)
regroup a b c = omega int_laws

imbalance-place_classed :
    (present : Clase → Clase) (t : Totals) (r : LedgerRow) (clase : Option Clase)
    → imbalance (place_classed present t r clase)
      ≡ imbalance t +ℤ (if is_classed clase then debit_saldo r else pos 0)
imbalance-place_classed present t r none = add_zero (imbalance t)
imbalance-place_classed present t r (some clase) = imbalance-place t (present clase) r

imbalance-add_rows :
    (present : List ℕ → Clase → Clase) (t : Totals) (rows : List LedgerRow)
    → imbalance (add_rows present t rows) ≡ imbalance t +ℤ sum_where has_clase debit_saldo rows
unfolding add_rows sum_where has_clase
imbalance-add_rows present t [] = add_zero (imbalance t)
imbalance-add_rows present t (r ∷ rs) =
    let t' = place_classed (present r.account) t r (clase_of r.account) in
    let rest = sum_where has_clase debit_saldo rs in
    imbalance-add_rows present t' rs
    ∙ ap (λ x. x +ℤ rest) (imbalance-place_classed (present r.account) t r (clase_of r.account))
    ∙ regroup (imbalance t) (if has_clase r.account then debit_saldo r else pos 0) rest

no_imbalance : imbalance no_totals ≡ pos 0
unfolding imbalance
no_imbalance = omega int_laws

zero_add : (a : ℤ) → pos 0 +ℤ a ≡ a
zero_add a = omega int_laws

imbalance-close_sheet :
    (present : List ℕ → Clase → Clase) (rows : List LedgerRow)
    → imbalance (close_sheet present rows).totals ≡ sum_where has_clase debit_saldo rows
unfolding close_sheet
imbalance-close_sheet present rows =
    imbalance-add_rows present no_totals rows
    ∙ ap (λ x. x +ℤ sum_where has_clase debit_saldo rows) no_imbalance
    ∙ zero_add (sum_where has_clase debit_saldo rows)

-- The debits less the credits of the lines on accounts of the six classes.
unfoldable pub net_of : List JournalEntryLine → ℤ
net_of ls = sum_lines (line_where has_clase debit_saldo) ls

-- Whatever natures the catalog has and whichever accounts have flipped, the assets exceed the
-- liabilities, the equity and the net profit by the debits less the credits of the posted lines on
-- accounts of classes 1 to 6, up to the cutoff and of the company.
pub get_balance_sheet-imbalance :
    (catalog : List CuentaPuc) (db : Database) (cutoff : Option ℕ) (company_nit : Option String)
    → imbalance (get_balance_sheet catalog db cutoff company_nit).totals
      ≡ net_of (posted_lines db (until cutoff company_nit))
unfolding get_balance_sheet net_of
get_balance_sheet-imbalance catalog db cutoff company_nit =
    let ls = posted_lines db (until cutoff company_nit) in
    imbalance-close_sheet (presentation_class catalog) (group_lines [] ls)
    ∙ sum_where-grouped debit_saldo debit_saldo-IsAdditive has_clase ls

net_of-filter :
    (ls : List JournalEntryLine) → net_of (filter (λ l. has_clase l.cuenta_puc) ls) ≡ net_of ls
unfolding net_of sum_lines
net_of-filter [] = refl
net_of-filter (l ∷ ls) =
    ground (arith, net_of-filter ls, zero_add (sum_lines (line_where has_clase debit_saldo) ls))

-- The same for the sheet of a period.
pub get_balance_sheet_for_period-imbalance :
    (db : Database) (q : Query)
    → imbalance (get_balance_sheet_for_period db q).totals ≡ net_of (posted_lines db q)
unfolding get_balance_sheet_for_period net_of
get_balance_sheet_for_period-imbalance db q =
    let ls = filter (λ l. has_clase l.cuenta_puc) (posted_lines db q) in
    imbalance-close_sheet own_class (group_lines [] ls)
    ∙ sum_where-grouped debit_saldo debit_saldo-IsAdditive has_clase ls
    ∙ net_of-filter (posted_lines db q)
