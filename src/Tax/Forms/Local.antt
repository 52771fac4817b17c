-- ===== src/Tax/Forms/Local.antt =====
-- Each subtotal of the four forms reads boxes above it only.
use backend_pae_account_mult.Prelude.{
  ℕ, ◌≡◌, refl, zero, suc, ◌+◌, Bool, ◌&&◌, ◌==◌, any, All, Bool-cases, inl, inr, true, List, [],
  ◌∷◌, arith,
}
use backend_pae_account_mult.Prelude.Int.{ℤ}
use backend_pae_account_mult.Tax.Catalog.{Casilla}
use backend_pae_account_mult.Tax.Catalog.Solved.{IsLocal}
use backend_pae_account_mult.Tax.Forms.{sum_from}
use backend_pae_account_mult.Tax.Forms.Ica.{catalog_ica}
use backend_pae_account_mult.Tax.Forms.F110.{catalog_f110}
use backend_pae_account_mult.Tax.Forms.F350.{catalog_f350, concept_boxes, ret_renta}
use backend_pae_account_mult.Tax.Forms.F300.{catalog_f300}

pub ica-IsLocal : IsLocal [] catalog_ica
ica-IsLocal = (λ v w h. cc, (λ v w h. cc, (λ v w h. cc, tt)))

pub f300-IsLocal : IsLocal [] catalog_f300
f300-IsLocal = (
  λ v w h. cc,
  (
    λ v w h. cc,
    (
      λ v w h. cc,
      (
        λ v w h. cc,
        (
          λ v w h. cc,
          (
            λ v w h. cc,
            (
              λ v w h. cc,
              (λ v w h. cc, (λ v w h. cc, (λ v w h. cc, (λ v w h. cc, (λ v w h. cc, tt))))),
            ),
          ),
        ),
      ),
    ),
  ),
)

-- The boxes above a point of a form, the last one first.
abbrev pub seen_from : List ℕ → List Casilla → List ℕ
seen_from seen [] = seen
seen_from seen (c ∷ cs) = seen_from (c.numero ∷ seen) cs

abbrev has_seen : ℕ → List ℕ → Bool
has_seen n seen = any (λ m. m == n) seen

abbrev has_range : ℕ → ℕ → List ℕ → Bool
has_range n zero seen = true
has_range n (suc k) seen = has_seen n seen && has_range (n + 1) k seen

module _ (v w : ℕ → ℤ) where
  pub pick :
      (seen : List ℕ) (n : ℕ) → All (λ m. v m ≡ w m) seen → has_seen n seen ≡ true → v n ≡ w n
  pick [] n h e = cc
  pick (m ∷ seen) n h e = elim (Bool-cases (m == n)) [
    | inl s ↦ ground (arith, s, h.0)
    | inr s ↦ pick seen n h.1 (ground (arith, s, e))
  ]

  pub sum_from-pick :
      (seen : List ℕ) (n k : ℕ)
      → All (λ m. v m ≡ w m) seen
      → has_range n k seen ≡ true
      → sum_from v n k ≡ sum_from w n k
  sum_from-pick seen n zero h e = refl
  sum_from-pick seen n (suc k) h e =
      rw (pick seen n h (ground arith), sum_from-pick seen (n + 1) k h (ground arith)) refl

  pub ret_renta-pick : All (λ m. v m ≡ w m) (seen_from [] concept_boxes) → ret_renta v ≡ ret_renta w
  ret_renta-pick h =
      let seen = seen_from [] concept_boxes in
      rw
        (
          sum_from-pick seen 42 13 h refl,
          sum_from-pick seen 57 2 h refl,
          sum_from-pick seen 68 9 h refl,
          sum_from-pick seen 93 16 h refl,
          sum_from-pick seen 111 2 h refl,
          sum_from-pick seen 121 8 h refl,
        )
        refl

pub f350-IsLocal : IsLocal [] catalog_f350
f350-IsLocal = (
  λ v w h. rw (h.0, ret_renta-pick v w h.1) refl,
  (λ v w h. cc, (λ v w h. cc, (λ v w h. cc, tt))),
)

pub f110-IsLocal : IsLocal [] catalog_f110
f110-IsLocal = (
  λ v w h. cc,
  (
    λ v w h. cc,
    (
      λ v w h. cc,
      (
        λ v w h. cc,
        (
          λ v w h. cc,
          (
            λ v w h. cc,
            (
              λ v w h. cc,
              (
                λ v w h. cc,
                (
                  λ v w h. cc,
                  (
                    λ v w h. cc,
                    (
                      λ v w h. cc,
                      (
                        λ v w h. cc,
                        (
                          λ v w h. cc,
                          (
                            λ v w h. cc,
                            (λ v w h. cc, (λ v w h. cc, (λ v w h. cc, (λ v w h. cc, tt)))),
                          ),
                        ),
                      ),
                    ),
                  ),
                ),
              ),
            ),
          ),
        ),
      ),
    ),
  ),
)
