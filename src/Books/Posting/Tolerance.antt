-- ===== src/Books/Posting/Tolerance.antt =====
-- The tolerance of one peso, which each entry of the process mode has for itself, over the journal.
use mathlib.Core.Path.{subst}
use backend_pae_account_mult.Prelude.{
  ℕ, suc, ◌*◌, ◌≡◌, refl, sym, ap, ◌∙◌, true, ◌&&◌, Option, none, some, List, [], ◌++◌, All,
  Bool-cases, inl, inr,
}
use backend_pae_account_mult.Prelude.Int.{ℤ, pos, ◌+ℤ◌, ◌-ℤ◌, ◌≤ℤ◌, int_laws}
use backend_pae_account_mult.Prelude.Texts.{String}
use backend_pae_account_mult.Ledger.Journal.{JournalEntry, sum_debito, sum_credito}
use backend_pae_account_mult.Books.{
  JournalEntryLine, Database, Query, is_posted, in_query, posted_lines,
}
use backend_pae_account_mult.Books.Grouping.{sum_lines}
use backend_pae_account_mult.Books.Sheet.{
  has_clase, CuentaPuc, imbalance, get_balance_sheet, get_balance_sheet_for_period, until,
}
use backend_pae_account_mult.Books.Sheet.Equation.{
  net_of, get_balance_sheet-imbalance, get_balance_sheet_for_period-imbalance,
}
use backend_pae_account_mult.Books.Posting.{
  persist_journal_entries, Posting, text_or_empty, and_lines, create_transaction_posted,
  infer_tipo_iva_from_journal, unless_existing, post_transaction, soft_delete_transaction_posted,
}
use backend_pae_account_mult.Books.Posting.Balance.{
  Choice, chosen, chosen-append, chosen_all, net_of-append, lines_at, net_of-lines_at,
}
use backend_pae_account_mult.Books.Posting.Invariant.{persisted, create-lines, delete-lines}

-- At most so many pesos from zero.
abbrev pub IsNear : ℕ → ℤ → Type 0
IsNear n x = (x ≤ℤ pos (100 * n)) × (pos 0 -ℤ x ≤ℤ pos (100 * n))

-- However lines are chosen by transaction, date and company, their debits and credits are at most so
-- many pesos apart.
abbrev pub IsWithin : ℕ → List JournalEntryLine → Type 0
IsWithin n ls = (k : Choice) → IsNear n (net_of (chosen k ls))

-- Entries that agree within the tolerance, bear one date and stand on accounts of classes 1 to 6.
pub record IsAccepted (es : List JournalEntry) : Type 0 where
  pub fecha : String
  pub dated : All (λ e. e.fecha ≡ fecha) es
  pub near : IsNear 1 (sum_debito es -ℤ sum_credito es)
  pub classed : All (λ e. has_clase e.cuenta ≡ true) es

IsNear-add : (n : ℕ) (x y : ℤ) → IsNear n x → IsNear 1 y → IsNear (suc n) (x +ℤ y)
IsNear-add n x y (a, b) (c, d) = omega int_laws

IsNear-more : (n : ℕ) (x : ℤ) → IsNear n x → IsNear (suc n) x
IsNear-more n x (a, b) = omega int_laws

IsNear-zero : IsNear 1 (pos 0)
IsNear-zero = omega int_laws

net_of_none : net_of [] ≡ pos 0
unfolding net_of sum_lines
net_of_none = refl

lines_at-near :
    (id nit : String) (fecha : ℕ) {es : List JournalEntry}
    → IsAccepted es
    → IsWithin 1 (lines_at id nit fecha es)
lines_at-near id nit fecha {es} p k =
    rw (chosen_all k id nit fecha es) (elim (Bool-cases (k id fecha (some nit))) [
      | inl e ↦ rw (e, net_of-lines_at id nit fecha es p.classed) p.near
      | inr e ↦ rw (e, net_of_none) IsNear-zero
    ])

IsWithin-append :
    (n : ℕ) (xs ys : List JournalEntryLine)
    → IsWithin n xs
    → IsWithin 1 ys
    → IsWithin (suc n) (xs ++ ys)
IsWithin-append n xs ys hx hy k =
    rw (chosen-append k xs ys, net_of-append (chosen k xs) (chosen k ys))
      (IsNear-add n (net_of (chosen k xs)) (net_of (chosen k ys)) (hx k) (hy k))

IsWithin-more : (n : ℕ) (xs : List JournalEntryLine) → IsWithin n xs → IsWithin (suc n) xs
IsWithin-more n xs h k = IsNear-more n (net_of (chosen k xs)) (h k)

IsNear-lines :
    (n : ℕ) (db : Database) (q : Query)
    → IsWithin n db.lines
    → IsNear n (net_of (posted_lines db q))
unfolding posted_lines chosen
IsNear-lines n db q h = h (λ id fecha nit. is_posted db.transactions id && in_query q fecha nit)

module _ (safe_datetime : String → Option ℕ) where
  persist_journal_entries-IsWithin :
      (n : ℕ) (db : Database) (id nit : String) {es : List JournalEntry}
      → IsAccepted es
      → IsWithin n db.lines
      → IsWithin (suc n) (persist_journal_entries safe_datetime db id nit es).lines
  unfolding persist_journal_entries
  persist_journal_entries-IsWithin n db id nit {es} p h =
      elim (persisted safe_datetime id nit p.fecha (safe_datetime p.fecha) es refl p.dated) [
        | inl e ↦ rw e (IsWithin-more n db.lines h)
        | inr (d, e) ↦
            rw e (IsWithin-append n db.lines (lines_at id nit d es) h (lines_at-near id nit d p))
      ]

  and_lines-IsWithin :
      (n : ℕ) (db : Database) (p : Posting) (created : Option Database)
      → IsAccepted p.entries
      → ((db' : Database) → created ≡ some db' → db'.lines ≡ db.lines)
      → IsWithin n db.lines
      → IsWithin (suc n) (and_lines safe_datetime db p created).lines
  and_lines-IsWithin n db p none e same h = IsWithin-more n db.lines h
  and_lines-IsWithin n db p (some db') e same h =
      persist_journal_entries-IsWithin n db' p.id (text_or_empty p.company_nit) e
        (subst (IsWithin n) (sym (same db' refl)) h)

  unless_existing-IsWithin :
      (n : ℕ) (existing : Option String) (db db' : Database)
      → IsWithin n db.lines
      → IsWithin (suc n) db'.lines
      → IsWithin (suc n) (unless_existing existing db db').lines
  unless_existing-IsWithin n none db db' h h' = h'
  unless_existing-IsWithin n (some id) db db' h h' = IsWithin-more n db.lines h

  post_transaction-IsWithin :
      (n : ℕ) (db : Database) (p : Posting)
      → IsAccepted p.entries
      → IsWithin n db.lines
      → IsWithin (suc n) (post_transaction safe_datetime db p).lines
  unfolding post_transaction
  post_transaction-IsWithin n db p e h =
      let tipo = infer_tipo_iva_from_journal p.entries p.descripcion in
      let created = create_transaction_posted db p.id p.company_nit tipo in
      unless_existing-IsWithin n p.existing db (and_lines safe_datetime db p created) h (
        and_lines-IsWithin n db p created e (create-lines safe_datetime db p.id p.company_nit tipo)
          h)

  -- The databases that so many postings of accepted entries, and deletions, lead to.
  pub data Runs : ℕ → Database → Type 0 where
    start : {n : ℕ} {db : Database} → db ≡ record { transactions = []; lines = [] } → Runs n db
    post :
        {n : ℕ} {db db' : Database} (m : ℕ) (p : Posting)
        → Runs m db
        → IsAccepted p.entries
        → n ≡ suc m
        → db' ≡ post_transaction safe_datetime db p
        → Runs n db'
    delete :
        {n : ℕ} {db db' : Database} (id : String) (now : ℕ)
        → Runs n db
        → db' ≡ (soft_delete_transaction_posted db id now).0
        → Runs n db'

  no_lines : (n : ℕ) → IsWithin n []
  unfolding net_of chosen sum_lines
  no_lines n k = omega int_laws

  Runs-IsWithin : {n : ℕ} {db : Database} → Runs n db → IsWithin n db.lines
  Runs-IsWithin (start e) = subst (IsWithin _) (sym (ap (λ d. d.lines) e)) (no_lines _)
  Runs-IsWithin (post {db' = after} m p r a q e) =
      subst (λ i. IsWithin i after.lines) (sym q)
        (subst (IsWithin (suc m)) (sym (ap (λ d. d.lines) e))
          (post_transaction-IsWithin m _ p a (Runs-IsWithin r)))
  Runs-IsWithin (delete id now r e) =
      subst (IsWithin _) (sym (ap (λ d. d.lines) e ∙ delete-lines safe_datetime _ id now))
        (Runs-IsWithin r)

  -- After so many postings of entries that agree within one peso, bear one date and stand on accounts
  -- of classes 1 to 6, and any deletions, every balance sheet at a cutoff, of a company and under a
  -- catalog, and every one of a period, is out of balance by at most one peso for each posting.
  pub Runs-IsNear :
      {n : ℕ} {db : Database}
      → Runs n db
      → (catalog : List CuentaPuc) (cutoff : Option ℕ) (company_nit : Option String) (q : Query)
      → IsNear n (imbalance (get_balance_sheet catalog db cutoff company_nit).totals)
        × IsNear n (imbalance (get_balance_sheet_for_period db q).totals)
  Runs-IsNear {n} {db} r catalog cutoff company_nit q =
      let h = Runs-IsWithin r in
      (
        subst (IsNear n) (sym (get_balance_sheet-imbalance catalog db cutoff company_nit))
            (IsNear-lines n db (until cutoff company_nit) h),
        subst (IsNear n) (sym (get_balance_sheet_for_period-imbalance db q))
            (IsNear-lines n db q h),
      )
