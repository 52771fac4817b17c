-- ===== src/Books/Trend/Same.antt =====
-- The grouped query gives each prefix the months that its own query gives.
use mathlib.Core.Path.{subst}
use backend_pae_account_mult.Prelude.{
  ℕ, ◌<◌, ◌≤◌, ◌≡◌, refl, sym, ap, ◌∙◌, ltb, true, false, ◌⊎◌, Option, List, [], ◌∷◌, filter, ◌==◌,
  arith, ltb→lt, ==_iff, if◌then◌else◌, Bool-cases, inl, inr,
}
use backend_pae_account_mult.Prelude.Int.{ℤ, pos, ◌+ℤ◌, int_laws}
use backend_pae_account_mult.Prelude.Texts.{String}
use backend_pae_account_mult.Books.{JournalEntryLine, Database}
use backend_pae_account_mult.Books.Trend.{
  has_prefix, month_row, add_month, group_months, recent_lines, get_monthly_trend, no_bucket,
  plus_bucket, ClassRow, class_row, add_class_month, group_class_months, rows_of_prefix,
  get_monthly_totals_by_class,
}

module _ (prefix : String) where
  -- A bucket that counts no line holds nothing.
  abbrev Filled : ClassRow → Type 0
  Filled r = (0 < (r.bucket prefix).count) ⊎ (r.bucket prefix ≡ no_bucket)

  -- Months that grow, above a month.
  abbrev Above : ℕ → List ClassRow → Type 0
  Above m [] = Unit
  Above m (r ∷ rs) = (m < r.month) × Filled r × Above r.month rs

  Above-lower : (m n : ℕ) (rs : List ClassRow) → m ≤ n → Above n rs → Above m rs
  Above-lower m n [] h a = tt
  Above-lower m n (r ∷ rs) h (lt, f, a) = (omega arith, f, a)

  add_month-first :
      (m : ℕ) (l : JournalEntryLine) (rs : List ClassRow)
      → Above m rs
      → add_month m l (rows_of_prefix prefix rs) ≡ month_row m l ∷ rows_of_prefix prefix rs
  unfolding add_month rows_of_prefix
  add_month-first m l [] a = refl
  add_month-first m l (r ∷ rs) (lt, f, a) = elim (Bool-cases ((r.bucket prefix).count == 0)) [
    | inl e ↦ rw e (add_month-first m l rs (Above-lower m r.month rs (omega arith) a))
    | inr e ↦ rw e (ground arith)
  ]

  new_Filled : (m : ℕ) (l : JournalEntryLine) → Filled (class_row m l)
  new_Filled m l = elim (Bool-cases (has_prefix prefix l)) [
    | inl e ↦ rw e (inl (omega arith))
    | inr e ↦ rw e (inr refl)
  ]

  -- The row of a month with one more line.
  abbrev plus_row : ClassRow → JournalEntryLine → ClassRow
  plus_row r l = record r {
    bucket = λ prefix'. plus_bucket (has_prefix prefix' l) l (r.bucket prefix');
  }

  plus_Filled : (r : ClassRow) (l : JournalEntryLine) → Filled r → Filled (plus_row r l)
  plus_Filled r l f = elim (Bool-cases (has_prefix prefix l)) [
    | inl e ↦ rw e (inl (omega arith))
    | inr e ↦ rw e f
  ]

  add_class_month-Above :
      (k m : ℕ) (l : JournalEntryLine) (rs : List ClassRow)
      → k < m
      → Above k rs
      → Above k (add_class_month m l rs)
  unfolding add_class_month
  add_class_month-Above k m l [] h a = (h, new_Filled m l, tt)
  add_class_month-Above k m l (r ∷ rs) h (lt, f, a) = elim (Bool-cases (m == r.month)) [
    | inl e ↦ rw e (lt, plus_Filled r l f, a)
    | inr e ↦ elim (Bool-cases (ltb m r.month)) [
      | inl g ↦ rw (e, g) (h, new_Filled m l, (ltb→lt m r.month g, f, a))
      | inr g ↦ rw (e, g) (lt, f, add_class_month-Above r.month m l rs (ground arith) a)
    ]
  ]

  abbrev Ascending : List ClassRow → Type 0
  Ascending [] = Unit
  Ascending (r ∷ rs) = Filled r × Above r.month rs

  add_class_month-Ascending :
      (m : ℕ) (l : JournalEntryLine) (rs : List ClassRow)
      → Ascending rs
      → Ascending (add_class_month m l rs)
  unfolding add_class_month
  add_class_month-Ascending m l [] a = (new_Filled m l, tt)
  add_class_month-Ascending m l (r ∷ rs) (f, a) = elim (Bool-cases (m == r.month)) [
    | inl e ↦ rw e (plus_Filled r l f, a)
    | inr e ↦ elim (Bool-cases (ltb m r.month)) [
      | inl g ↦ rw (e, g) (new_Filled m l, (ltb→lt m r.month g, f, a))
      | inr g ↦ rw (e, g) (f, add_class_month-Above r.month m l rs (ground arith) a)
    ]
  ]

  zero_add : (x : ℤ) → pos 0 +ℤ x ≡ x
  zero_add x = omega int_laws

  -- A line of the prefix in the month of the first row.
  same_month :
      (l : JournalEntryLine) (r : ClassRow) (rs : List ClassRow)
      → has_prefix prefix l ≡ true
      → Filled r
      → Above r.month rs
      → rows_of_prefix prefix (plus_row r l ∷ rs)
        ≡ add_month r.month l (rows_of_prefix prefix (r ∷ rs))
  unfolding add_month rows_of_prefix
  same_month l r rs h (inl counted) a = ground arith
  same_month l r rs h (inr empty) a =
      ground (arith, empty, add_month-first r.month l rs a, zero_add l.debito, zero_add l.credito)

  Above-Ascending : (m : ℕ) (rs : List ClassRow) → Above m rs → Ascending rs
  Above-Ascending m [] a = tt
  Above-Ascending m (r ∷ rs) (lt, f, a) = (f, a)

  new_row :
      (m : ℕ) (l : JournalEntryLine) (rs : List ClassRow)
      → rows_of_prefix prefix (class_row m l ∷ rs) ≡ (
          if has_prefix prefix l
          then month_row m l ∷ rows_of_prefix prefix rs
          else rows_of_prefix prefix rs)
  unfolding rows_of_prefix
  new_row m l rs = ground (arith, zero_add l.debito, zero_add l.credito)

  module _ (m : ℕ) (l : JournalEntryLine) (r : ClassRow) (rs : List ClassRow) where
    abbrev Stepped : Type 0
    Stepped = rows_of_prefix prefix (add_class_month m l (r ∷ rs)) ≡ (
        if has_prefix prefix l
        then add_month m l (rows_of_prefix prefix (r ∷ rs))
        else rows_of_prefix prefix (r ∷ rs))

    here : (m == r.month) ≡ true → Filled r → Above r.month rs → Stepped
    unfolding add_class_month
    here e f a =
        let q : r.month ≡ m = sym ((==_iff m r.month).0 e) in
        elim (Bool-cases (has_prefix prefix l)) [
          | inl h ↦
              rw (e, h)
                (subst
                  (λ n.
                    rows_of_prefix prefix (plus_row r l ∷ rs)
                    ≡ add_month n l (rows_of_prefix prefix (r ∷ rs)))
                  q (same_month l r rs h f a))
          | inr h ↦ rw (e, h) (unfold rows_of_prefix in rw h refl)
        ]

    before : (m == r.month) ≡ false → ltb m r.month ≡ true → Filled r → Above r.month rs → Stepped
    unfolding add_class_month
    before e g f a =
        rw (e, g)
          (new_row m l (r ∷ rs)
            ∙ ap (λ x. if has_prefix prefix l then x else rows_of_prefix prefix (r ∷ rs))
                (sym (add_month-first m l (r ∷ rs) (ltb→lt m r.month g, f, a))))

    after :
        (m == r.month) ≡ false
        → ltb m r.month ≡ false
        → rows_of_prefix prefix (add_class_month m l rs) ≡ (
            if has_prefix prefix l
            then add_month m l (rows_of_prefix prefix rs)
            else rows_of_prefix prefix rs)
        → Stepped
    unfolding add_class_month add_month rows_of_prefix
    after e g ih = ground arith

  rows_of_prefix-add_class_month :
      (m : ℕ) (l : JournalEntryLine) (rs : List ClassRow)
      → Ascending rs
      → rows_of_prefix prefix (add_class_month m l rs) ≡ (
          if has_prefix prefix l
          then add_month m l (rows_of_prefix prefix rs)
          else rows_of_prefix prefix rs)
  rows_of_prefix-add_class_month m l [] a =
      unfold add_class_month add_month rows_of_prefix in new_row m l []
  rows_of_prefix-add_class_month m l (r ∷ rs) (f, a) = elim (Bool-cases (m == r.month)) [
    | inl e ↦ here m l r rs e f a
    | inr e ↦ elim (Bool-cases (ltb m r.month)) [
      | inl g ↦ before m l r rs e g f a
      | inr g ↦
          after m l r rs e g (rows_of_prefix-add_class_month m l rs (Above-Ascending r.month rs a))
    ]
  ]

  rows_of_prefix-group_class_months :
      (month_of : ℕ → ℕ) (rows : List ClassRow) (ls : List JournalEntryLine)
      → Ascending rows
      → rows_of_prefix prefix (group_class_months month_of rows ls)
        ≡ group_months month_of (rows_of_prefix prefix rows) (filter (has_prefix prefix) ls)
  unfolding group_class_months group_months
  rows_of_prefix-group_class_months month_of rows [] a = refl
  rows_of_prefix-group_class_months month_of rows (l ∷ ls) a =
      let m = month_of l.fecha in
      let rows' = add_class_month m l rows in
      let ih =
        rows_of_prefix-group_class_months month_of rows' ls
          (add_class_month-Ascending m l rows a) in
      let step = rows_of_prefix-add_class_month m l rows a in ground (arith, ih, step)

  -- The grouped query gives a prefix the months, in order, with the sums, that the query of that
  -- prefix alone gives.
  pub totals-trend :
      (month_of : ℕ → ℕ) (db : Database) (cutoff : ℕ) (company_nit : Option String)
      → get_monthly_totals_by_class month_of db cutoff company_nit prefix
        ≡ get_monthly_trend month_of db cutoff company_nit prefix
  unfolding get_monthly_totals_by_class get_monthly_trend rows_of_prefix
  totals-trend month_of db cutoff company_nit =
      rows_of_prefix-group_class_months month_of [] (recent_lines db cutoff company_nit) tt
