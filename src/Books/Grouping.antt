-- ===== src/Books/Grouping.antt =====
-- What grouping the lines by account and putting the accounts in order keeps: the sums of each
-- account, and the sums over the accounts that a test takes.
use backend_pae_account_mult.Prelude.{
  ℕ, ◌≡◌, refl, sym, ap, ◌∙◌, Bool, true, List, [], ◌∷◌, arith, if◌then◌else◌, Bool-cases, inl, inr,
}
use backend_pae_account_mult.Prelude.Int.{ℤ, pos, ◌+ℤ◌, int_laws}
use backend_pae_account_mult.Prelude.Texts.{codes_eq}
use backend_pae_account_mult.Books.{
  JournalEntryLine, LedgerRow, row_of, plus_line, add_line, group_lines, codes_leb, insert_row,
  order_by_account,
}

pub codes_eq_refl : (xs : List ℕ) → codes_eq xs xs ≡ true
codes_eq_refl [] = refl
codes_eq_refl (x ∷ xs) = ground (arith, codes_eq_refl xs)

pub codes_eq-eq : (xs ys : List ℕ) → codes_eq xs ys ≡ true → xs ≡ ys
codes_eq-eq [] [] e = refl
codes_eq-eq [] (y ∷ ys) e = ground arith
codes_eq-eq (x ∷ xs) [] e = ground arith
codes_eq-eq (x ∷ xs) (y ∷ ys) e = ground (arith, codes_eq-eq xs ys)

codes_leb_refl : (xs : List ℕ) → codes_leb xs xs ≡ true
codes_leb_refl [] = refl
codes_leb_refl (x ∷ xs) = ground (arith, codes_leb_refl xs)

-- `sum(f(l) for l in ls)`.
unfoldable pub sum_lines : (JournalEntryLine → ℤ) → List JournalEntryLine → ℤ
sum_lines f [] = pos 0
sum_lines f (l ∷ ls) = f l +ℤ sum_lines f ls

-- The amount that stands on an account: `f` is one side of a row.
unfoldable pub exact : (LedgerRow → ℤ) → List LedgerRow → List ℕ → ℤ
exact f [] account = pos 0
exact f (r ∷ rs) account = if codes_eq r.account account then f r else exact f rs account

abbrev pub on_account : List ℕ → (LedgerRow → ℤ) → JournalEntryLine → ℤ
on_account account f l = if codes_eq l.cuenta_puc account then f (row_of l) else pos 0

-- The rows that a test on the account takes.
unfoldable pub sum_where : (List ℕ → Bool) → (LedgerRow → ℤ) → List LedgerRow → ℤ
sum_where p f [] = pos 0
sum_where p f (r ∷ rs) = (if p r.account then f r else pos 0) +ℤ sum_where p f rs

abbrev pub line_where : (List ℕ → Bool) → (LedgerRow → ℤ) → JournalEntryLine → ℤ
line_where p f l = if p l.cuenta_puc then f (row_of l) else pos 0

-- One side of a row, or its balance: a line adds its own.
abbrev pub IsAdditive : (LedgerRow → ℤ) → Type 0
IsAdditive f = (r : LedgerRow) (l : JournalEntryLine) → f (plus_line r l) ≡ f r +ℤ f (row_of l)

add_zero : (a : ℤ) → a ≡ a +ℤ pos 0
add_zero a = omega int_laws

zero_add : (a : ℤ) → pos 0 +ℤ a ≡ a
zero_add a = omega int_laws

regroup : (a b c : ℤ) → a +ℤ b +ℤ c ≡ a +ℤ (b +ℤ c)
regroup a b c = omega int_laws

swap_last : (a b c : ℤ) → a +ℤ b +ℤ c ≡ a +ℤ c +ℤ b
swap_last a b c = omega int_laws

module _ (f : LedgerRow → ℤ) (additive : IsAdditive f) where
  exact-add_line :
      (rows : List LedgerRow) (l : JournalEntryLine) (a : List ℕ)
      → exact f (add_line rows l) a ≡ exact f rows a +ℤ on_account a f l
  unfolding exact add_line
  exact-add_line [] l a = elim (Bool-cases (codes_eq l.cuenta_puc a)) [
    | inl e ↦ rw e (sym (zero_add _))
    | inr e ↦ rw e (sym (zero_add _))
  ]
  exact-add_line (r ∷ rs) l a = elim (Bool-cases (codes_eq r.account l.cuenta_puc)) [
    | inl k ↦
        let same = codes_eq-eq r.account l.cuenta_puc k in
        let moved = ap (λ x. codes_eq x a) same in
        elim (Bool-cases (codes_eq l.cuenta_puc a)) [
          | inl e ↦ rw (k, moved ∙ e, e) (additive r l)
          | inr e ↦ rw (k, moved ∙ e, e) (add_zero _)
        ]
    | inr k ↦ rw k (elim (Bool-cases (codes_eq r.account a)) [
      | inl e ↦
          let same = codes_eq-eq r.account a e in
          elim (Bool-cases (codes_eq l.cuenta_puc a)) [
            | inl e' ↦ ground (arith, same, codes_eq-eq l.cuenta_puc a e', codes_eq_refl a)
            | inr e' ↦ rw (e, e') (add_zero _)
          ]
      | inr e ↦ rw e (exact-add_line rs l a)
    ])
  ]

  exact-group_lines :
      (rows : List LedgerRow) (ls : List JournalEntryLine) (a : List ℕ)
      → exact f (group_lines rows ls) a ≡ exact f rows a +ℤ sum_lines (on_account a f) ls
  unfolding group_lines sum_lines
  exact-group_lines rows [] a = add_zero _
  exact-group_lines rows (l ∷ ls) a =
      exact-group_lines (add_line rows l) ls a
      ∙ ap (λ x. x +ℤ sum_lines (on_account a f) ls) (exact-add_line rows l a)
      ∙ regroup (exact f rows a) (on_account a f l) (sum_lines (on_account a f) ls)

  sum_where-add_line :
      (p : List ℕ → Bool) (rows : List LedgerRow) (l : JournalEntryLine)
      → sum_where p f (add_line rows l) ≡ sum_where p f rows +ℤ line_where p f l
  unfolding sum_where add_line
  sum_where-add_line p [] l = sym (add_zero (line_where p f l)) ∙ sym (zero_add (line_where p f l))
  sum_where-add_line p (r ∷ rs) l = elim (Bool-cases (codes_eq r.account l.cuenta_puc)) [
    | inl k ↦
        let same = codes_eq-eq r.account l.cuenta_puc k in
        let moved = ap p same in
        elim (Bool-cases (p l.cuenta_puc)) [
          | inl e ↦
              rw (k, moved ∙ e, e)
                (ap (λ x. x +ℤ sum_where p f rs) (additive r l)
                  ∙ swap_last (f r) (f (row_of l)) (sum_where p f rs))
          | inr e ↦ rw (k, moved ∙ e, e) (add_zero _)
        ]
    | inr k ↦
        let head = if p r.account then f r else pos 0 in
        rw k (
          ap (λ x. head +ℤ x) (sum_where-add_line p rs l)
          ∙ sym (regroup head (sum_where p f rs) (line_where p f l)))
  ]

  sum_where-group_lines :
      (p : List ℕ → Bool) (rows : List LedgerRow) (ls : List JournalEntryLine)
      → sum_where p f (group_lines rows ls) ≡ sum_where p f rows +ℤ sum_lines (line_where p f) ls
  unfolding group_lines sum_lines
  sum_where-group_lines p rows [] = add_zero _
  sum_where-group_lines p rows (l ∷ ls) =
      sum_where-group_lines p (add_line rows l) ls
      ∙ ap (λ x. x +ℤ sum_lines (line_where p f) ls) (sum_where-add_line p rows l)
      ∙ regroup (sum_where p f rows) (line_where p f l) (sum_lines (line_where p f) ls)

  -- Grouping keeps the amount of every account.
  pub exact-grouped :
      (ls : List JournalEntryLine) (a : List ℕ)
      → exact f (group_lines [] ls) a ≡ sum_lines (on_account a f) ls
  unfolding exact
  exact-grouped ls a = exact-group_lines [] ls a ∙ zero_add (sum_lines (on_account a f) ls)

  -- Grouping keeps the sum over the accounts that a test takes.
  pub sum_where-grouped :
      (p : List ℕ → Bool) (ls : List JournalEntryLine)
      → sum_where p f (group_lines [] ls) ≡ sum_lines (line_where p f) ls
  unfolding sum_where
  sum_where-grouped p ls = sum_where-group_lines p [] ls ∙ zero_add (sum_lines (line_where p f) ls)

module _ (f : LedgerRow → ℤ) where
  exact-insert_row :
      (r : LedgerRow) (rs : List LedgerRow) (a : List ℕ)
      → exact f (insert_row r rs) a ≡ exact f (r ∷ rs) a
  unfolding exact insert_row
  exact-insert_row r [] a = refl
  exact-insert_row r (s ∷ rs) a = ground (
    arith,
    exact-insert_row r rs a,
    codes_eq-eq r.account a,
    codes_eq-eq s.account a,
    codes_leb_refl a,
  )

  -- Putting the rows in order keeps what stands on each account.
  pub exact-order_by_account :
      (rs : List LedgerRow) (a : List ℕ) → exact f (order_by_account rs) a ≡ exact f rs a
  unfolding exact order_by_account
  exact-order_by_account [] a = refl
  exact-order_by_account (r ∷ rs) a =
      exact-insert_row r (order_by_account rs) a
      ∙ ap (λ x. if codes_eq r.account a then f r else x) (exact-order_by_account rs a)
