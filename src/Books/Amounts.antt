-- ===== src/Books/Amounts.antt =====
-- The general ledger against the subsidiary journals of its accounts.
use backend_pae_account_mult.Prelude.{ℕ, ◌≡◌, refl, ◌∙◌, List, [], ◌∷◌, filter, arith}
use backend_pae_account_mult.Prelude.Int.{ℤ, pos, ◌+ℤ◌, int_laws}
use backend_pae_account_mult.Prelude.Texts.{codes_eq}
use backend_pae_account_mult.Books.{
  JournalEntryLine, Database, Query, LedgerRow, row_of, posted_lines, group_lines,
  get_general_ledger, get_subsidiary_journal,
}
use backend_pae_account_mult.Books.Grouping.{
  IsAdditive, sum_lines, exact, on_account, exact-grouped, exact-order_by_account,
}

zero_add : (a : ℤ) → pos 0 +ℤ a ≡ a
zero_add a = omega int_laws

-- The lines of an account, or the lines with what is not on the account counted as nothing.
sum_lines-filter :
    (f : LedgerRow → ℤ) (account : List ℕ) (ls : List JournalEntryLine)
    → sum_lines (on_account account f) ls
      ≡ sum_lines (λ l. f (row_of l)) (filter (λ l. codes_eq l.cuenta_puc account) ls)
unfolding sum_lines
sum_lines-filter f account [] = refl
sum_lines-filter f account (l ∷ ls) =
    ground (arith, sum_lines-filter f account ls, zero_add (sum_lines (on_account account f) ls))

-- A side that adds up line by line has on each account of the ledger what its subsidiary journal
-- adds up to.
pub exact-get_general_ledger :
    (f : LedgerRow → ℤ)
    → IsAdditive f
    → (db : Database) (q : Query) (account : List ℕ)
    → exact f (get_general_ledger db q) account
      ≡ sum_lines (λ l. f (row_of l)) (get_subsidiary_journal db q account)
unfolding get_general_ledger get_subsidiary_journal
exact-get_general_ledger f additive db q account =
    let ls = posted_lines db q in
    exact-order_by_account f (group_lines [] ls) account
    ∙ exact-grouped f additive ls account
    ∙ sum_lines-filter f account ls
