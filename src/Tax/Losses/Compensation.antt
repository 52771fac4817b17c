-- ===== src/Tax/Losses/Compensation.antt =====
-- When a compensation is refused, and what it takes from the losses that are available.
use text.Mathlib.TextEquality.{eq_iff}
use backend_pae_account_mult.Prelude.{
  ℕ, ◌≡◌, refl, sym, ap, ◌∙◌, true, ◌&&◌, Option, none, some, List, All, ltb, arith, if◌then◌else◌,
  Bool-cases, inl, inr, ==_iff,
}
use backend_pae_account_mult.Prelude.Int.{
  ℤ, pos, ◌+ℤ◌, ◌-ℤ◌, ◌≤ℤ◌, ◌<ℤ◌, ltb_ℤ, ltb_ℤ-lt, ltb_ℤ-ge, int_laws, -ℤ_parts,
}
use backend_pae_account_mult.Prelude.Texts.{String, str_eq}
use backend_pae_account_mult.Tax.Losses.{
  PerdidaFiscal, is_loss_of, find_perdida, set_perdida, not_found, would_exceed, Registered, ok,
  err, with_compensado, compensated, register_compensacion, sum_perdidas_disponibles,
}
use backend_pae_account_mult.Tax.Losses.Balance.{
  IsSound, counted, sum_counted, sum_perdidas-counted, find_perdida-IsSound, set_perdida-IsSound,
  sum_counted-set_perdida,
}

-- The share of a compensation in a company's losses before a year.
abbrev pub share : String → ℕ → ℤ → String → ℕ → ℤ
share nit year delta nit0 current = if str_eq nit nit0 && ltb year current then delta else pos 0

-- The outcome told by the loss that is found.
abbrev pub Outcome : List PerdidaFiscal → String → ℕ → ℤ → Registered → Type 0
Outcome ps nit year delta (ok ps') =
    (p : PerdidaFiscal) × (find_perdida ps nit year ≡ some p)
    × (p.monto_compensado +ℤ delta ≤ℤ p.monto_perdida)
    × All IsSound ps'
    × ((nit0 : String) (current : ℕ)
        → sum_perdidas_disponibles ps' nit0 current
          ≡ sum_perdidas_disponibles ps nit0 current -ℤ share nit year delta nit0 current)
Outcome ps nit year delta (err not_found) = find_perdida ps nit year ≡ none
Outcome ps nit year delta (err would_exceed) =
    (p : PerdidaFiscal) × (find_perdida ps nit year ≡ some p)
    × (p.monto_perdida <ℤ p.monto_compensado +ℤ delta)

left_positive : (a b : ℤ) → b ≤ℤ a → pos 0 ≤ℤ a -ℤ b
left_positive a b h = omega (int_laws, -ℤ_parts a b)

difference : (a c d : ℤ) → (a -ℤ (c +ℤ d)) -ℤ (a -ℤ c) ≡ pos 0 -ℤ d
difference a c d = omega int_laws

negated : (a d : ℤ) → a +ℤ (pos 0 -ℤ d) ≡ a -ℤ d
negated a d = omega int_laws

loss_key :
    (nit : String) (year : ℕ) (p : PerdidaFiscal)
    → is_loss_of nit year p ≡ true
    → (p.company_nit ≡ nit) × (p.year ≡ year)
unfolding is_loss_of
loss_key nit year p e =
    ((eq_iff p.company_nit nit).0 (ground (arith, e)), (==_iff p.year year).0 (ground (arith, e)))

counted-compensated :
    (nit : String) (year : ℕ) (delta : ℤ) (p : PerdidaFiscal)
    → IsSound p
    → is_loss_of nit year p ≡ true
    → (nit0 : String) (current : ℕ)
    → counted nit0 current (with_compensado p (p.monto_compensado +ℤ delta))
        -ℤ counted nit0 current p
      ≡ pos 0 -ℤ share nit year delta nit0 current
counted-compensated nit year delta p s k nit0 current =
    let (same_nit, same_year) = loss_key nit year p k in
    let test =
      ap (λ x. str_eq x nit0 && ltb p.year current) same_nit
      ∙ ap (λ y. str_eq nit nit0 && ltb y current) same_year in
    elim (Bool-cases (str_eq nit nit0 && ltb year current)) [
      | inl e ↦
          rw (test ∙ e, e)
            (ap (λ x. (p.monto_perdida -ℤ (p.monto_compensado +ℤ delta)) -ℤ x) s.pending
              ∙ difference p.monto_perdida p.monto_compensado delta)
      | inr e ↦ rw (test ∙ e, e) refl
    ]

module _ (ps : List PerdidaFiscal) (nit : String) (year : ℕ) (delta : ℤ)
    (sound : All IsSound ps) where
  compensated_sum :
      (p : PerdidaFiscal)
      → find_perdida ps nit year ≡ some p
      → All IsSound (set_perdida ps nit year (with_compensado p (p.monto_compensado +ℤ delta)))
      → (nit0 : String) (current : ℕ)
      → sum_perdidas_disponibles
          (set_perdida ps nit year (with_compensado p (p.monto_compensado +ℤ delta)))
          nit0
          current
        ≡ sum_perdidas_disponibles ps nit0 current -ℤ share nit year delta nit0 current
  compensated_sum p found sound' nit0 current =
      let p' = with_compensado p (p.monto_compensado +ℤ delta) in
      let (s, k) = find_perdida-IsSound nit year ps p sound found in
      sum_perdidas-counted nit0 current (set_perdida ps nit year p') sound'
      ∙ sum_counted-set_perdida nit year nit0 current ps p p' found
      ∙ ap (λ x. sum_counted nit0 current ps +ℤ x)
          (counted-compensated nit year delta p s k nit0 current)
      ∙ negated (sum_counted nit0 current ps) (share nit year delta nit0 current)
      ∙ ap (λ x. x -ℤ share nit year delta nit0 current)
          (sym (sum_perdidas-counted nit0 current ps sound))

  compensated-Outcome :
      (found : Option PerdidaFiscal)
      → find_perdida ps nit year ≡ found
      → Outcome ps nit year delta (compensated ps nit year delta found)
  compensated-Outcome none e = e
  compensated-Outcome (some p) e =
      let compensado = p.monto_compensado +ℤ delta in
      elim (Bool-cases (ltb_ℤ p.monto_perdida compensado)) [
        | inl k ↦ rw k (p, e, ltb_ℤ-lt p.monto_perdida compensado k)
        | inr k ↦
            let fits = ltb_ℤ-ge p.monto_perdida compensado k in
            let s' : IsSound (with_compensado p compensado) = record {
              pending = refl;
              within = left_positive p.monto_perdida compensado fits;
            } in
            let sound' = set_perdida-IsSound nit year ps (with_compensado p compensado) sound s' in
            rw k (p, e, fits, sound', compensated_sum p e sound')
      ]

  -- In a table where what is pending of each loss is the loss less what is compensated and is not
  -- negative, a compensation is refused as not found exactly where the company has no loss of that
  -- year, and as excessive exactly where what is compensated would pass the loss. Otherwise the
  -- table stays so, and what is available to a company before a year falls by the compensation if it
  -- is that company and the loss is of an earlier year, however long ago, and by nothing if not.
  pub register_compensacion-Outcome :
      Outcome ps nit year delta (register_compensacion ps nit year delta)
  unfolding register_compensacion
  register_compensacion-Outcome = compensated-Outcome (find_perdida ps nit year) refl
