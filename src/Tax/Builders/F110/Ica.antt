-- ===== src/Tax/Builders/F110/Ica.antt =====
-- The municipal tax: its balance on the form is the builder's estimate.
use mathlib.Core.Path.{subst}
use backend_pae_account_mult.Prelude.{ℕ, ◌≡◌, refl, sym, ap, ◌∙◌, List, [], ◌∷◌, All}
use backend_pae_account_mult.Prelude.Int.{ℤ, pos, ◌+ℤ◌, ◌-ℤ◌, int_laws}
use backend_pae_account_mult.Prelude.Texts.{codes}
use backend_pae_account_mult.Books.{LedgerRow}
use backend_pae_account_mult.Tax.Catalog.{value_in, build_draft_from_catalog}
use backend_pae_account_mult.Tax.Catalog.Solved.{IsSolved}
use backend_pae_account_mult.Tax.Forms.{at_least_0}
use backend_pae_account_mult.Tax.Forms.Ica.{catalog_ica}
use backend_pae_account_mult.Tax.Forms.Local.{pick}
use backend_pae_account_mult.Tax.Forms.Settlement.{ica-IsSolved}
use backend_pae_account_mult.Tax.Builders.{get_computed}
use backend_pae_account_mult.Tax.Builders.F300.{exact_debit}
use backend_pae_account_mult.Tax.Builders.Ranges.{amount_in}
use backend_pae_account_mult.Tax.Builders.Balance.{entries-amounts}
use backend_pae_account_mult.Tax.Builders.F110.{
  ica_a_pagar, avisos_tableros, build_ica, total_a_pagar,
}

abbrev ica_boxes : List ℕ
ica_boxes = 4 ∷ 5 ∷ 6 ∷ 8 ∷ 9 ∷ 10 ∷ 11 ∷ []

plain : (x : ℤ) → x +ℤ pos 0 +ℤ pos 0 ≡ x
plain x = omega int_laws

less_nothing : (x y z : ℤ) → x +ℤ y +ℤ pos 0 -ℤ z -ℤ pos 0 ≡ x +ℤ y -ℤ z
less_nothing x y z = omega int_laws

module _ (ledger : List LedgerRow) (tasa : ℕ) where
  abbrev w : ℕ → ℤ
  w = amount_in (build_ica ledger tasa)

  ica_found :
      (w 4 ≡ ica_a_pagar ledger tasa)
      × (w 5 ≡ avisos_tableros ledger tasa)
      × (w 6 ≡ pos 0)
      × (w 8 ≡ exact_debit ledger (codes "2368"))
      × (w 9 ≡ pos 0)
      × (w 10 ≡ pos 0)
      × (w 11 ≡ pos 0)
  unfolding build_ica
  ica_found = (refl, refl, refl, refl, refl, refl, refl)

  -- In a draft of ICA that is built from the ledger, box 12 (to pay), which the form computes, is the
  -- builder's estimate where that is not negative, and zero where it is.
  pub ica_balance :
      {v : ℕ → ℤ}
      → v ≡ value_in (build_draft_from_catalog catalog_ica (get_computed (build_ica ledger tasa)))
      → v 12 ≡ at_least_0 (total_a_pagar ledger tasa)
  unfolding total_a_pagar
  ica_balance {v} e =
      let m = build_ica ledger tasa in
      let (_, (c7, (c12, _))) =
        subst (IsSolved catalog_ica) (sym e) (ica-IsSolved (get_computed m)) in
      let agrees : All (λ n. v n ≡ w n) ica_boxes =
        subst (λ u. All (λ n. u n ≡ w n) ica_boxes) (sym e)
          (entries-amounts m catalog_ica ica_boxes refl refl) in
      let p = pick v w ica_boxes in
      let (z4, z5, z6, z8, z9, z10, z11) = ica_found in
      let ica = ica_a_pagar ledger tasa in
      let avisos = avisos_tableros ledger tasa in
      c12
      ∙ rw
          (
            c7,
            p 4 agrees refl ∙ z4,
            p 5 agrees refl ∙ z5,
            p 6 agrees refl ∙ z6,
            p 8 agrees refl ∙ z8,
            p 9 agrees refl ∙ z9,
            p 10 agrees refl ∙ z10,
            p 11 agrees refl ∙ z11,
          )
          (plain _ ∙ ap at_least_0 (less_nothing ica avisos (exact_debit ledger (codes "2368"))))
