-- ===== src/Tax/Builders/F110/Income.antt =====
-- The net taxable income that F110 computes is the one that its builder taxes.
use mathlib.Core.Path.{subst}
use backend_pae_account_mult.Prelude.{ℕ, ◌≡◌, refl, sym, ap, ◌∙◌, List, [], ◌∷◌, All, arith}
use backend_pae_account_mult.Prelude.Int.{ℤ, pos, ◌+ℤ◌, ◌-ℤ◌, ◌≤ℤ◌, max, int_laws}
use backend_pae_account_mult.Books.{LedgerRow}
use backend_pae_account_mult.Tax.Catalog.{value_in, build_draft_from_catalog}
use backend_pae_account_mult.Tax.Catalog.Solved.{IsSolved}
use backend_pae_account_mult.Tax.Forms.{at_least_0, sum_from}
use backend_pae_account_mult.Tax.Forms.F110.{catalog_f110, renta_liquida}
use backend_pae_account_mult.Tax.Forms.Local.{pick, sum_from-pick}
use backend_pae_account_mult.Tax.Forms.Settlement.{f110-IsSolved}
use backend_pae_account_mult.Tax.Builders.{get_computed}
use backend_pae_account_mult.Tax.Builders.Ranges.{amount_in}
use backend_pae_account_mult.Tax.Builders.Balance.{entries-amounts}
use backend_pae_account_mult.Tax.Builders.F110.{
  sum_credits, sum_debits, IncomeSources, rate_of, gastos_otros, rlo_journal,
  renta_liquida_gravable, impuesto_basico, build_f110,
}

-- The boxes without a formula that the net income and the tax read.
abbrev income_boxes : List ℕ
income_boxes =
    47 ∷ 48 ∷ 49 ∷ 50 ∷ 51 ∷ 52 ∷ 53 ∷ 54 ∷ 55 ∷ 56 ∷ 57 ∷ 59 ∷ 60 ∷ 62 ∷ 63 ∷ 64 ∷ 65 ∷ 66 ∷ 68
    ∷ 69 ∷ 70 ∷ 71 ∷ 74 ∷ 76 ∷ 77 ∷ 78 ∷ 84 ∷ []

regroup_gastos : (a4 c g a v f : ℤ) → a4 -ℤ (c +ℤ a +ℤ v +ℤ f +ℤ (g -ℤ a -ℤ v -ℤ f)) ≡ a4 -ℤ c -ℤ g
regroup_gastos a4 c g a v f = omega int_laws

at_least_0-of_positive : (x : ℤ) → pos 0 ≤ℤ x → at_least_0 x ≡ x
unfolding max
at_least_0-of_positive x h = ground arith

plain : (x : ℤ) → x -ℤ pos 0 +ℤ pos 0 ≡ x
plain x = omega int_laws

at_least_0-max : (y : ℤ) → at_least_0 (max (at_least_0 y) (pos 0)) ≡ at_least_0 y
unfolding max
at_least_0-max y = ground arith

nothing_more : (y : ℤ) → at_least_0 (max (at_least_0 y) (pos 0) -ℤ pos 0 +ℤ pos 0) ≡ at_least_0 y
nothing_more y = ap at_least_0 (plain (max (at_least_0 y) (pos 0))) ∙ at_least_0-max y

-- The net income of a form whose other boxes are empty.
settle_renta :
    {x52 x53 x54 x55 x56 x58 x59 x60 x61 x67 x68 x69 x70 x71 i c : ℤ}
    → x61 ≡ x58 -ℤ x59 -ℤ x60
    → x58 ≡ i
    → x67 ≡ c
    → (x59 ≡ pos 0) × (x60 ≡ pos 0)
    → (x52 ≡ pos 0) × (x53 ≡ pos 0) × (x54 ≡ pos 0) × (x55 ≡ pos 0) × (x56 ≡ pos 0)
    → (x68 ≡ pos 0) × (x69 ≡ pos 0) × (x70 ≡ pos 0) × (x71 ≡ pos 0)
    → x61 +ℤ x69 +ℤ x70 +ℤ x71 -ℤ x52 -ℤ x53 -ℤ x54 -ℤ x55 -ℤ x56 -ℤ x67 -ℤ x68 ≡ i -ℤ c
settle_renta e61 e58 e67 (e59, e60) (e52, e53, e54, e55, e56) (e68, e69, e70, e71) =
    rw (e61, e58, e67, e59, e60, e52, e53, e54, e55, e56, e68, e69, e70, e71) (omega int_laws)

module _ (ledger : List LedgerRow) (s : IncomeSources) where
  abbrev w : ℕ → ℤ
  w = amount_in (build_f110 ledger s)

  ingresos_found : sum_from w 47 11 ≡ sum_credits ledger "41" +ℤ sum_credits ledger "42"
  unfolding build_f110
  ingresos_found = omega int_laws

  costos_found :
      sum_from w 62 5
      ≡ sum_debits ledger "6"
        +ℤ sum_debits ledger "51"
        +ℤ sum_debits ledger "52"
        +ℤ sum_debits ledger "53"
        +ℤ at_least_0 (gastos_otros ledger)
  unfolding build_f110
  costos_found = omega int_laws

  deductions_found :
      (w 52 ≡ pos 0) × (w 53 ≡ pos 0) × (w 54 ≡ pos 0) × (w 55 ≡ pos 0) × (w 56 ≡ pos 0)
  unfolding build_f110
  deductions_found = (refl, refl, refl, refl, refl)

  others_found : (w 68 ≡ pos 0) × (w 69 ≡ pos 0) × (w 70 ≡ pos 0) × (w 71 ≡ pos 0)
  unfolding build_f110
  others_found = (refl, refl, refl, refl)

  empty_found : (w 59 ≡ pos 0) × (w 60 ≡ pos 0) × (w 76 ≡ pos 0) × (w 77 ≡ pos 0) × (w 78 ≡ pos 0)
  unfolding build_f110
  empty_found = (refl, refl, refl, refl, refl)

  perdidas_found : w 74 ≡ s.perdidas
  unfolding build_f110
  perdidas_found = refl

  impuesto_found : w 84 ≡ impuesto_basico ledger s
  unfolding build_f110
  impuesto_found = refl

  -- The income of the boxes is that of the ledger where class 4 is groups 41 and 42.
  income_of_boxes :
      sum_credits ledger "4" ≡ sum_credits ledger "41" +ℤ sum_credits ledger "42"
      → pos 0 ≤ℤ gastos_otros ledger
      → sum_credits ledger "41"
          +ℤ sum_credits ledger "42"
          -ℤ (sum_debits ledger "6"
              +ℤ sum_debits ledger "51"
              +ℤ sum_debits ledger "52"
              +ℤ sum_debits ledger "53"
              +ℤ at_least_0 (gastos_otros ledger))
        ≡ rlo_journal ledger
  income_of_boxes h g =
      rw (← h, at_least_0-of_positive (gastos_otros ledger) g)
        (unfold gastos_otros rlo_journal in
          regroup_gastos (sum_credits ledger "4") (sum_debits ledger "6") (sum_debits ledger "5")
            (sum_debits ledger "51") (sum_debits ledger "52") (sum_debits ledger "53"))

  -- In a draft of F110 that is built from the ledger, if the credits of class 4 are those of groups 41
  -- and 42 and the debits of groups 51, 52 and 53 do not exceed those of class 5, then box 79 (net
  -- taxable income), which the form computes, is the builder's, and box 84 is the tax on box 79.
  pub f110_income :
      {v : ℕ → ℤ}
      → v ≡ value_in (build_draft_from_catalog catalog_f110 (get_computed (build_f110 ledger s)))
      → sum_credits ledger "4" ≡ sum_credits ledger "41" +ℤ sum_credits ledger "42"
      → pos 0 ≤ℤ gastos_otros ledger
      → (v 79 ≡ renta_liquida_gravable ledger s.perdidas) × (v 84 ≡ rate_of s.tarifa (v 79))
  unfolding renta_liquida_gravable impuesto_basico
  f110_income {v} e h g =
      let m = build_f110 ledger s in
      let (_, (_, (c58, (c61, (c67, (c72, (_, (c75, (c79, _))))))))) =
        subst (IsSolved catalog_f110) (sym e) (f110-IsSolved (get_computed m)) in
      let agrees : All (λ n. v n ≡ w n) income_boxes =
        subst (λ u. All (λ n. u n ≡ w n) income_boxes) (sym e)
          (entries-amounts m catalog_f110 income_boxes refl refl) in
      let p = pick v w income_boxes in
      let (z59, z60, z76, z77, z78) = empty_found in
      let (z52, z53, z54, z55, z56) = deductions_found in
      let (z68, z69, z70, z71) = others_found in
      let i = c58 ∙ sum_from-pick v w income_boxes 47 11 agrees refl ∙ ingresos_found in
      let c = c67 ∙ sum_from-pick v w income_boxes 62 5 agrees refl ∙ costos_found in
      let net : renta_liquida v ≡ rlo_journal ledger =
        settle_renta c61 i c (p 59 agrees refl ∙ z59, p 60 agrees refl ∙ z60)
          (
            p 52 agrees refl ∙ z52,
            p 53 agrees refl ∙ z53,
            p 54 agrees refl ∙ z54,
            p 55 agrees refl ∙ z55,
            p 56 agrees refl ∙ z56,
          )
          (
            p 68 agrees refl ∙ z68,
            p 69 agrees refl ∙ z69,
            p 70 agrees refl ∙ z70,
            p 71 agrees refl ∙ z71,
          )
        ∙ income_of_boxes h g in
      let c74 = p 74 agrees refl ∙ perdidas_found in
      let e75 : v 75 ≡ at_least_0 (at_least_0 (rlo_journal ledger) -ℤ s.perdidas) =
        c75 ∙ rw (c72, net, c74) refl in
      let e79 : v 79 ≡ at_least_0 (at_least_0 (rlo_journal ledger) -ℤ s.perdidas) =
        c79
        ∙ rw (e75, p 76 agrees refl ∙ z76, p 77 agrees refl ∙ z77, p 78 agrees refl ∙ z78)
            (nothing_more (at_least_0 (rlo_journal ledger) -ℤ s.perdidas)) in
      (e79, p 84 agrees refl ∙ impuesto_found ∙ ap (rate_of s.tarifa) (sym e79))
