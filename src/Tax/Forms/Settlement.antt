-- ===== src/Tax/Forms/Settlement.antt =====
-- What the drafts of the forms settle: the equations between their boxes.
use backend_pae_account_mult.Prelude.{
  ℕ, ◌+◌, ◌≡◌, refl, sym, Option, ◌⊎◌, inl, inr, arith, Bool-cases,
}
use mathlib.Core.Path.{subst}
use backend_pae_account_mult.Prelude.Int.{
  ℤ, pos, pos_part, neg_part, ◌-ℤ◌, ◌≤ℤ◌, max, ltb_ℤ, ltb_ℤ-lt, ltb_ℤ-ge, int_laws,
}
use backend_pae_account_mult.Tax.Catalog.{Computed, value_in, build_draft_from_catalog}
use backend_pae_account_mult.Tax.Catalog.Solved.{IsSolved, build_draft_from_catalog-IsSolved}
use backend_pae_account_mult.Tax.Forms.{at_least_0}
use backend_pae_account_mult.Tax.Forms.F300.{catalog_f300}
use backend_pae_account_mult.Tax.Forms.F350.{catalog_f350}
use backend_pae_account_mult.Tax.Forms.F110.{
  catalog_f110, saldo_a_pagar, saldo_a_favor, renta_liquida, perdida_liquida,
}
use backend_pae_account_mult.Tax.Forms.Ica.{catalog_ica}
use backend_pae_account_mult.Tax.Forms.Local.{f300-IsLocal, f350-IsLocal, f110-IsLocal, ica-IsLocal}

module _ (found : ℕ → Option Computed) where
  pub f300-IsSolved : IsSolved catalog_f300 (value_in (build_draft_from_catalog catalog_f300 found))
  f300-IsSolved = build_draft_from_catalog-IsSolved catalog_f300 found refl f300-IsLocal

  pub f350-IsSolved : IsSolved catalog_f350 (value_in (build_draft_from_catalog catalog_f350 found))
  f350-IsSolved = build_draft_from_catalog-IsSolved catalog_f350 found refl f350-IsLocal

  pub f110-IsSolved : IsSolved catalog_f110 (value_in (build_draft_from_catalog catalog_f110 found))
  f110-IsSolved = build_draft_from_catalog-IsSolved catalog_f110 found refl f110-IsLocal

  pub ica-IsSolved : IsSolved catalog_ica (value_in (build_draft_from_catalog catalog_ica found))
  ica-IsSolved = build_draft_from_catalog-IsSolved catalog_ica found refl ica-IsLocal

-- Whatever values the builder found, the drafts of the four forms satisfy the formula of every
-- subtotal of their form, read at the final values of all boxes.
pub drafts-IsSolved :
    (found : ℕ → Option Computed)
    → IsSolved catalog_f300 (value_in (build_draft_from_catalog catalog_f300 found))
      × IsSolved catalog_f350 (value_in (build_draft_from_catalog catalog_f350 found))
      × IsSolved catalog_f110 (value_in (build_draft_from_catalog catalog_f110 found))
      × IsSolved catalog_ica (value_in (build_draft_from_catalog catalog_ica found))
drafts-IsSolved found =
    (f300-IsSolved found, f350-IsSolved found, f110-IsSolved found, ica-IsSolved found)

at_least_0-pos : (a : ℤ) → pos 0 ≤ℤ a → at_least_0 a ≡ a
unfolding max
at_least_0-pos a h = ground arith

at_least_0-neg : (a : ℤ) → a ≤ℤ pos 0 → at_least_0 a ≡ pos 0
unfolding max
at_least_0-neg a h = ground arith

-- Of an amount and its opposite at most one is left, and their difference is the amount.
at_least_0-sides :
    (a b : ℤ)
    → pos_part a + pos_part b ≡ neg_part a + neg_part b
    → ((at_least_0 a ≡ pos 0) ⊎ (at_least_0 b ≡ pos 0)) × (at_least_0 a -ℤ at_least_0 b ≡ a)
at_least_0-sides a b e = elim (Bool-cases (ltb_ℤ (pos 0) a)) [
  | inl h ↦
      let x = at_least_0-pos a (ground arith) in
      let y = at_least_0-neg b (omega (int_laws, e, ltb_ℤ-lt (pos 0) a h)) in
      (inr y, rw (x, y) (omega int_laws))
  | inr h ↦
      let x = at_least_0-neg a (ground arith) in
      let y = at_least_0-pos b (omega (int_laws, e, ltb_ℤ-ge (pos 0) a h)) in
      (inl x, rw (x, y) (omega (int_laws, e)))
]

pub f300_equations :
    (found : ℕ → Option Computed) {v : ℕ → ℤ}
    → v ≡ value_in (build_draft_from_catalog catalog_f300 found)
    → IsSolved catalog_f300 v
f300_equations found e = subst (IsSolved catalog_f300) (sym e) (f300-IsSolved found)

-- In a draft of F300 the balance of the period is the tax generated less the tax deducted: due in box
-- 82 or in favour in box 83, never both.
pub f300_period_balance :
    (found : ℕ → Option Computed) {v : ℕ → ℤ}
    → v ≡ value_in (build_draft_from_catalog catalog_f300 found)
    → ((v 82 ≡ pos 0) ⊎ (v 83 ≡ pos 0)) × (v 82 -ℤ v 83 ≡ v 67 -ℤ v 81)
f300_period_balance found {v} e =
    let (_, (_, (_, (_, (_, (_, (_, (c82, (c83, _))))))))) = f300_equations found e in
    rw (c82, c83) (at_least_0-sides (v 67 -ℤ v 81) (v 81 -ℤ v 67) (omega int_laws))

-- In a draft of F110 the final balance is the tax, the advances of the next year and the sanctions,
-- less the credits: to pay in box 113 or in favour in box 114, never both. The same holds of the net
-- income of the year in box 72 and the net loss in box 73.
pub f110_balance :
    (found : ℕ → Option Computed) {v : ℕ → ℤ}
    → v ≡ value_in (build_draft_from_catalog catalog_f110 found)
    → (((v 113 ≡ pos 0) ⊎ (v 114 ≡ pos 0)) × (v 113 -ℤ v 114 ≡ saldo_a_pagar v))
      × (((v 72 ≡ pos 0) ⊎ (v 73 ≡ pos 0)) × (v 72 -ℤ v 73 ≡ renta_liquida v))
f110_balance found {v} e =
    let (
      _,
      (
        _,
        (_, (_, (_, (c72, (c73, (_, (_, (_, (_, (_, (_, (_, (_, (_, (c113, (c114, _)))))))))))))))),
      ),
    ) =
      subst (IsSolved catalog_f110) (sym e) (f110-IsSolved found) in
    (
      rw (c113, c114) (at_least_0-sides (saldo_a_pagar v) (saldo_a_favor v) (omega int_laws)),
      rw (c72, c73) (at_least_0-sides (renta_liquida v) (perdida_liquida v) (omega int_laws)),
    )
