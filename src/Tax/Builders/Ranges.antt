-- ===== src/Tax/Builders/Ranges.antt =====
-- The boxes of F350 that box 130 adds up, and what a change of one box does to their sum.
use backend_pae_account_mult.Prelude.{
  ℕ, zero, suc, ◌+◌, ◌≡◌, ◌⊎◌, refl, leb, ltb, ◌==◌, Bool, true, false, ◌&&◌, Option, none, some,
  List, [], ◌∷◌, arith, inl, inr, Bool-cases, if◌then◌else◌,
}
use backend_pae_account_mult.Prelude.Int.{ℤ, pos, ◌+ℤ◌, int_laws}
use backend_pae_account_mult.Prelude.Texts.{String, str_eq}
use backend_pae_account_mult.Tax.Forms.{sum_from}
use backend_pae_account_mult.Tax.Forms.F350.{ret_renta, concept_casillas}
use backend_pae_account_mult.Tax.Builders.{Concept, ComputedMap, add, boxes_of, or_other}

-- The amount that the dict has for a box.
abbrev pub amount_in : ComputedMap → ℕ → ℤ
amount_in [] n = pos 0
amount_in ((m, c) ∷ cs) n = if m == n then c.value else amount_in cs n

abbrev pub only : Bool → ℤ → ℤ
only true x = x
only false x = pos 0

pub amount_in-add :
    (m : ComputedMap) (c : ℕ) (x : ℤ) (source : String) (review : Bool) (n : ℕ)
    → amount_in (add m c x source review) n ≡ amount_in m n +ℤ only (c == n) x
unfolding add
amount_in-add [] c x source review n = elim (Bool-cases (c == n)) [
  | inl k ↦ rw k (omega int_laws)
  | inr k ↦ rw k (omega int_laws)
]
amount_in-add ((k, v) ∷ m) c x source review n = elim (Bool-cases (k == c)) [
  | inl e ↦
      let q : (c == n) ≡ (k == n) = ground arith in
      elim (Bool-cases (k == n)) [
        | inl f ↦ rw (e, q, f) refl
        | inr f ↦ rw (e, q, f) (omega int_laws)
      ]
  | inr e ↦
      let h = amount_in-add m c x source review n in
      elim (Bool-cases (k == n)) [
        | inl f ↦ let g : (c == n) ≡ false = ground arith in rw (e, f, g) (omega int_laws)
        | inr f ↦ rw (e, f) h
      ]
]

abbrev in_range : ℕ → ℕ → ℕ → Bool
in_range c n k = leb n c && ltb c (n + k)

-- A change in one box changes a sum of boxes by as much, if the box is in its range.
sum_from-change :
    (v w : ℕ → ℤ) (c : ℕ) (x : ℤ) (n k : ℕ)
    → ((i : ℕ) → w i ≡ v i +ℤ only (c == i) x)
    → sum_from w n k ≡ sum_from v n k +ℤ only (in_range c n k) x
sum_from-change v w c x n zero h =
    let e : in_range c n 0 ≡ false = ground arith in rw e (omega int_laws)
sum_from-change v w c x n (suc k) h = elim (Bool-cases (c == n)) [
  | inl e ↦
      let a : in_range c n (suc k) ≡ true = ground arith in
      let b : in_range c (n + 1) k ≡ false = ground arith in
      rw (h n, sum_from-change v w c x (n + 1) k h, a, b, e) (omega int_laws)
  | inr e ↦
      let a : in_range c n (suc k) ≡ in_range c (n + 1) k = ground arith in
      rw (h n, sum_from-change v w c x (n + 1) k h, a, e) (omega int_laws)
]

-- A box of retentions, which adds up to box 130, and a box that does not.
abbrev pub ranges : ℕ → List Bool
ranges c =
    in_range c 42 13
    ∷ in_range c 57 2
    ∷ in_range c 68 9
    ∷ in_range c 93 16
    ∷ in_range c 111 2
    ∷ in_range c 121 8
    ∷ []

abbrev pub only_all : List Bool → ℤ → ℤ
only_all [] x = pos 0
only_all (b ∷ bs) x = only b x +ℤ only_all bs x

regroup :
    (a b c d e f a' b' c' d' e' f' : ℤ)
    → (a +ℤ a') +ℤ (b +ℤ b') +ℤ (c +ℤ c') +ℤ (d +ℤ d') +ℤ (e +ℤ e') +ℤ (f +ℤ f')
      ≡ (a +ℤ b +ℤ c +ℤ d +ℤ e +ℤ f) +ℤ (a' +ℤ (b' +ℤ (c' +ℤ (d' +ℤ (e' +ℤ (f' +ℤ pos 0))))))
regroup a b c d e f a' b' c' d' e' f' = omega int_laws

pub ret_renta-change :
    (v w : ℕ → ℤ) (c : ℕ) (x : ℤ)
    → ((i : ℕ) → w i ≡ v i +ℤ only (c == i) x)
    → ret_renta w ≡ ret_renta v +ℤ only_all (ranges c) x
ret_renta-change v w c x h =
    rw
      (
        sum_from-change v w c x 42 13 h,
        sum_from-change v w c x 57 2 h,
        sum_from-change v w c x 68 9 h,
        sum_from-change v w c x 93 16 h,
        sum_from-change v w c x 111 2 h,
        sum_from-change v w c x 121 8 h,
      )
      (regroup (sum_from v 42 13) (sum_from v 57 2) (sum_from v 68 9) (sum_from v 93 16)
        (sum_from v 111 2) (sum_from v 121 8) (only (in_range c 42 13) x) (only (in_range c 57 2) x)
        (only (in_range c 68 9) x) (only (in_range c 93 16) x) (only (in_range c 111 2) x)
        (only (in_range c 121 8) x))

-- In none of the ranges, in the first, and in the fourth.
abbrev pub outside : List Bool
outside = false ∷ false ∷ false ∷ false ∷ false ∷ false ∷ []

abbrev pub in_first : List Bool
in_first = true ∷ false ∷ false ∷ false ∷ false ∷ false ∷ []

abbrev pub in_fourth : List Bool
in_fourth = false ∷ false ∷ false ∷ true ∷ false ∷ false ∷ []

abbrev pub AreBoxes : ℕ × ℕ → Type 0
AreBoxes p = (ranges p.0 ≡ outside) × ((ranges p.1 ≡ in_first) ⊎ (ranges p.1 ≡ in_fourth))

concept_casillas-AreBoxes :
    (categoria aplica_a : String) {p : ℕ × ℕ}
    → concept_casillas categoria aplica_a ≡ some p
    → AreBoxes p
unfolding concept_casillas
concept_casillas-AreBoxes categoria aplica_a {p} e = ground arith

or_other-AreBoxes :
    (aplica_a : String) (o : Option (ℕ × ℕ))
    → ((p : ℕ × ℕ) → o ≡ some p → AreBoxes p)
    → AreBoxes (or_other aplica_a o)
or_other-AreBoxes aplica_a (some p) h = h p refl
or_other-AreBoxes aplica_a none h = elim (Bool-cases (str_eq aplica_a "PN")) [
  | inl k ↦ rw k (refl, inr refl)
  | inr k ↦ rw k (refl, inl refl)
]

pub boxes_of-AreBoxes : (c : Concept) → AreBoxes (boxes_of c)
unfolding boxes_of
boxes_of-AreBoxes c =
    or_other-AreBoxes c.aplica_a (concept_casillas c.categoria c.aplica_a)
      (λ p e. concept_casillas-AreBoxes c.categoria c.aplica_a e)
