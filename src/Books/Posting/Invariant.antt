-- ===== src/Books/Posting/Invariant.antt =====
-- Double entry in the whole journal: what postings and deletions keep true of its lines, and the
-- balance sheets that follow.
use mathlib.Core.Path.{subst}
use backend_pae_account_mult.Prelude.{
  ℕ, ◌≡◌, refl, sym, ap, ◌∙◌, true, ◌&&◌, ◌⊎◌, Option, none, some, List, [], ◌∷◌, All, arith, inl,
  inr,
}
use backend_pae_account_mult.Prelude.Int.{ℤ, pos, ◌+ℤ◌, ◌-ℤ◌, abs, int_laws}
use backend_pae_account_mult.Prelude.Texts.{String}
use backend_pae_account_mult.Ledger.Journal.{JournalEntry}
use backend_pae_account_mult.Books.{Database, Query, LedgerRow, is_posted, in_query, posted_lines}
use backend_pae_account_mult.Books.Grouping.{sum_lines}
use backend_pae_account_mult.Books.Sheet.{
  Clase, CuentaPuc, BalanceSheet, no_totals, add_rows, profit_of, imbalance, close_sheet,
  get_balance_sheet, get_balance_sheet_for_period, until,
}
use backend_pae_account_mult.Books.Sheet.Equation.{
  net_of, get_balance_sheet-imbalance, get_balance_sheet_for_period-imbalance,
}
use backend_pae_account_mult.Books.Posting.{
  persist_journal_entry_lines, persist_journal_entries, Posting, text_or_empty, and_lines,
  create_transaction_posted, infer_tipo_iva_from_journal, unless_existing, post_transaction,
  soft_delete_transaction_posted,
}
use backend_pae_account_mult.Books.Posting.Balance.{
  chosen, IsDoubleEntry, IsPostable, IsDoubleEntry-append, lines_at, lines_at-IsDoubleEntry,
}

-- Assets equal to liabilities and total equity, and reported as balanced.
abbrev pub IsSettled : BalanceSheet → Type 0
IsSettled s = (s.totals.assets ≡ s.totals.liabilities +ℤ s.total_equity) × (s.is_balanced ≡ true)

module _ (safe_datetime : String → Option ℕ) where
  persisted_at :
      (id nit fecha : String) (n : ℕ) (es : List JournalEntry)
      → safe_datetime fecha ≡ some n
      → All (λ e. e.fecha ≡ fecha) es
      → persist_journal_entry_lines safe_datetime id nit es ≡ some (lines_at id nit n es)
  unfolding persist_journal_entry_lines
  persisted_at id nit fecha n [] h d = refl
  persisted_at id nit fecha n (e ∷ es) h (d, ds) =
      rw (ap safe_datetime d ∙ h, persisted_at id nit fecha n es h ds) refl

  not_persisted :
      (id nit fecha : String) (e : JournalEntry) (es : List JournalEntry)
      → safe_datetime fecha ≡ none
      → e.fecha ≡ fecha
      → persist_journal_entry_lines safe_datetime id nit (e ∷ es) ≡ none
  unfolding persist_journal_entry_lines
  not_persisted id nit fecha e es h d = rw (ap safe_datetime d ∙ h) refl

  -- What is persisted of entries of one date is all of them, or nothing.
  pub persisted :
      (id nit fecha : String) (k : Option ℕ) (es : List JournalEntry)
      → safe_datetime fecha ≡ k
      → All (λ e. e.fecha ≡ fecha) es
      → (persist_journal_entry_lines safe_datetime id nit es ≡ none)
        ⊎ ((n : ℕ) × (persist_journal_entry_lines safe_datetime id nit es
              ≡ some (lines_at id nit n es)))
  persisted id nit fecha (some n) es h d = inr (n, persisted_at id nit fecha n es h d)
  persisted id nit fecha none [] h d = inr (0, unfold persist_journal_entry_lines in refl)
  persisted id nit fecha none (e ∷ es) h (d, ds) = inl (not_persisted id nit fecha e es h d)

  persist_journal_entries-IsDoubleEntry :
      (db : Database) (id nit : String) {es : List JournalEntry}
      → IsPostable es
      → IsDoubleEntry db.lines
      → IsDoubleEntry (persist_journal_entries safe_datetime db id nit es).lines
  unfolding persist_journal_entries
  persist_journal_entries-IsDoubleEntry db id nit {es} p h =
      elim (persisted id nit p.fecha (safe_datetime p.fecha) es refl p.dated) [
        | inl e ↦ rw e h
        | inr (n, e) ↦ rw e (
            IsDoubleEntry-append db.lines (lines_at id nit n es) h
              (lines_at-IsDoubleEntry id nit n p))
      ]

  and_lines-IsDoubleEntry :
      (db : Database) (p : Posting) (created : Option Database)
      → IsPostable p.entries
      → ((db' : Database) → created ≡ some db' → db'.lines ≡ db.lines)
      → IsDoubleEntry db.lines
      → IsDoubleEntry (and_lines safe_datetime db p created).lines
  and_lines-IsDoubleEntry db p none e same h = h
  and_lines-IsDoubleEntry db p (some db') e same h =
      persist_journal_entries-IsDoubleEntry db' p.id (text_or_empty p.company_nit) e
        (subst IsDoubleEntry (sym (same db' refl)) h)

  pub create-lines :
      (db : Database) (id : String) (nit tipo_iva : Option String) (db' : Database)
      → create_transaction_posted db id nit tipo_iva ≡ some db'
      → db'.lines ≡ db.lines
  unfolding create_transaction_posted
  create-lines db id nit tipo_iva db' e = ground arith

  unless_existing-IsDoubleEntry :
      (existing : Option String) (db db' : Database)
      → IsDoubleEntry db.lines
      → IsDoubleEntry db'.lines
      → IsDoubleEntry (unless_existing existing db db').lines
  unless_existing-IsDoubleEntry none db db' h h' = h'
  unless_existing-IsDoubleEntry (some id) db db' h h' = h

  pub post_transaction-IsDoubleEntry :
      (db : Database) (p : Posting)
      → IsPostable p.entries
      → IsDoubleEntry db.lines
      → IsDoubleEntry (post_transaction safe_datetime db p).lines
  unfolding post_transaction
  post_transaction-IsDoubleEntry db p e h =
      let tipo = infer_tipo_iva_from_journal p.entries p.descripcion in
      let created = create_transaction_posted db p.id p.company_nit tipo in
      unless_existing-IsDoubleEntry p.existing db (and_lines safe_datetime db p created) h
        (and_lines-IsDoubleEntry db p created e (create-lines db p.id p.company_nit tipo) h)

  -- The databases that postings of such entries and deletions lead to, from no rows.
  pub data Reach : Database → Type 0 where
    start : {db : Database} → db ≡ record { transactions = []; lines = [] } → Reach db
    post :
        {db db' : Database} (p : Posting)
        → Reach db
        → IsPostable p.entries
        → db' ≡ post_transaction safe_datetime db p
        → Reach db'
    delete :
        {db db' : Database} (id : String) (now : ℕ)
        → Reach db
        → db' ≡ (soft_delete_transaction_posted db id now).0
        → Reach db'

  pub delete-lines :
      (db : Database) (id : String) (now : ℕ)
      → (soft_delete_transaction_posted db id now).0.lines ≡ db.lines
  unfolding soft_delete_transaction_posted
  delete-lines db id now = refl

  no_lines : IsDoubleEntry []
  unfolding net_of chosen sum_lines
  no_lines k = refl

  pub Reach-IsDoubleEntry : {db : Database} → Reach db → IsDoubleEntry db.lines
  Reach-IsDoubleEntry (start e) = subst IsDoubleEntry (sym (ap (λ d. d.lines) e)) no_lines
  Reach-IsDoubleEntry (post p r h e) =
      subst IsDoubleEntry (sym (ap (λ d. d.lines) e))
        (post_transaction-IsDoubleEntry _ p h (Reach-IsDoubleEntry r))
  Reach-IsDoubleEntry (delete id now r e) =
      subst IsDoubleEntry (sym (ap (λ d. d.lines) e ∙ delete-lines _ id now))
        (Reach-IsDoubleEntry r)

-- Of lines in double entry a report reads as much debit as credit, whatever the statuses of their
-- transactions.
pub net_of-posted_lines :
    (db : Database) (q : Query) → IsDoubleEntry db.lines → net_of (posted_lines db q) ≡ pos 0
unfolding posted_lines chosen
net_of-posted_lines db q h =
    h (λ id fecha nit. is_posted db.transactions id && in_query q fecha nit)

restore : (a l e p : ℤ) → a ≡ a -ℤ (l +ℤ e +ℤ p) +ℤ (l +ℤ (e +ℤ p))
restore a l e p = omega int_laws

zero_add : (a : ℤ) → pos 0 +ℤ a ≡ a
zero_add a = omega int_laws

settled : (a l e p : ℤ) → a -ℤ (l +ℤ e +ℤ p) ≡ pos 0 → a ≡ l +ℤ (e +ℤ p)
settled a l e p h =
    let right = l +ℤ (e +ℤ p) in restore a l e p ∙ ap (λ x. x +ℤ right) h ∙ zero_add right

IsSettled-of :
    (present : List ℕ → Clase → Clase) (rows : List LedgerRow)
    → imbalance (close_sheet present rows).totals ≡ pos 0
    → IsSettled (close_sheet present rows)
unfolding close_sheet
IsSettled-of present rows h =
    let t = add_rows present no_totals rows in
    (
      settled t.assets t.liabilities t.equity (profit_of t) (unfold imbalance in h),
      rw h (unfold abs in refl),
    )

-- After any postings of entries that balance to the centavo, bear one date and stand on accounts of
-- classes 1 to 6, and any deletions, the balance sheet at any cutoff and of any company, under any
-- catalog, and that of any period, have assets equal to the liabilities and the total equity, and
-- are reported as balanced.
pub Reach-balanced :
    (safe_datetime : String → Option ℕ) {db : Database}
    → Reach safe_datetime db
    → (catalog : List CuentaPuc) (cutoff : Option ℕ) (company_nit : Option String) (q : Query)
    → IsSettled (get_balance_sheet catalog db cutoff company_nit)
      × IsSettled (get_balance_sheet_for_period db q)
unfolding get_balance_sheet get_balance_sheet_for_period
Reach-balanced safe_datetime {db} r catalog cutoff company_nit q =
    let h = Reach-IsDoubleEntry safe_datetime r in
    (
      IsSettled-of _ _ (
          get_balance_sheet-imbalance catalog db cutoff company_nit
          ∙ net_of-posted_lines db (until cutoff company_nit) h),
      IsSettled-of _ _ (get_balance_sheet_for_period-imbalance db q ∙ net_of-posted_lines db q h),
    )
