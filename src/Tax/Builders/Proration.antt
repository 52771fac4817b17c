-- ===== src/Tax/Builders/Proration.antt =====
-- How much of the IVA paid a draft of F300 deducts.
use native.Mathlib.Nat.{div-le_of_le-mul, div-add-mod', mul-mod_left, mul-div_left}
use mathlib.Core.Path.{subst}
use backend_pae_account_mult.Prelude.{
  ℕ, ◌+◌, ◌*◌, ◌/◌, ◌%◌, ◌≤◌, ◌<◌, ◌≡◌, ◌⊎◌, refl, sym, ap, ◌∙◌, ltb, ltb→lt, ◌==◌, Bool, true,
  false, some, List, arith, inl, inr, Bool-cases, if◌then◌else◌,
}
use backend_pae_account_mult.Prelude.Int.{pos, ◌-ℤ◌, ◌≤ℤ◌, int_laws}
use backend_pae_account_mult.Tax.Catalog.{Computed}
use backend_pae_account_mult.Prelude.Texts.{codes}
use backend_pae_account_mult.Books.{LedgerRow}
use backend_pae_account_mult.Tax.Builders.{get_computed, round_div}
use backend_pae_account_mult.Tax.Builders.F300.{
  exact_debit, Revenue, Prorrateo, compute_prorrateo_factor, prorated, deductible,
  operaciones_mixtas, build_f300,
}

-- A share of an amount is at most the amount, also once it is rounded.
round_step-le :
    (q r d x : ℕ)
    → 0 < d
    → q ≤ x
    → (q < x) ⊎ (r ≡ 0)
    → (if ltb (2 * r) d then q else (if ltb d (2 * r) then q + 1 else q + q % 2)) ≤ x
round_step-le q r d x p h k = ground arith

last_rest : (n d x : ℕ) → n ≤ x * d → n / d ≤ x → (n / d < x) ⊎ (n % d ≡ 0)
last_rest n d x h l = elim (Bool-cases (ltb (n / d) x)) [
  | inl k ↦ inl (ltb→lt (n / d) x k)
  | inr k ↦
      let q : n / d ≡ x = ground arith in
      let e : x * d + n % d ≡ n = subst (λ y. y * d + n % d ≡ n) q (div-add-mod' n d) in
      inr (omega (arith, e, h))
]

round_div-le : (n d x : ℕ) → 0 < d → n ≤ x * d → round_div n d ≤ x
unfolding round_div
round_div-le n d x p h =
    let l = div-le_of_le-mul d {m = n} {n = x} (omega arith) in
    round_step-le (n / d) (n % d) d x p l (last_rest n d x h l)

round_div-whole : (d x : ℕ) → 0 < d → round_div (x * d) d ≡ x
unfolding round_div
round_div-whole d x p = rw (mul-mod_left x d, mul-div_left x p) (ground arith)

-- The factor is between zero and one, and one where no income is excluded.
record IsFactor (p : Prorrateo) : Type 0 where
  positive : 0 < p.denominator
  at_most_1 : p.numerator ≤ p.denominator

compute_prorrateo_factor-IsFactor : (r : Revenue) → IsFactor (compute_prorrateo_factor r)
unfolding compute_prorrateo_factor
compute_prorrateo_factor-IsFactor r = record { positive = ground arith; at_most_1 = ground arith }

whole_factor :
    (r : Revenue)
    → r.excluido ≡ 0
    → (compute_prorrateo_factor r).numerator ≡ (compute_prorrateo_factor r).denominator
unfolding compute_prorrateo_factor
whole_factor r e = ground arith

share-le : (n d x : ℕ) → n ≤ d → x * n ≤ x * d
share-le n d x h = grind arith

round_div-zero : (n d : ℕ) → 0 < d → round_div (0 * n) d ≡ 0
round_div-zero n d p =
    let z : 0 * n ≡ 0 * d = omega arith in ap (λ y. round_div y d) z ∙ round_div-whole d 0 p

less_zero : (a b x : ℕ) → a ≤ x → b ≡ 0 → pos a -ℤ pos b ≤ℤ pos x
less_zero a b x h e = rw e (omega (int_laws, h))

prorated-le : (p : Prorrateo) (x : ℕ) → IsFactor p → prorated p (pos x) ≤ℤ pos x
unfolding prorated
prorated-le p x f =
    less_zero (round_div (x * p.numerator) p.denominator)
      (round_div (0 * p.numerator) p.denominator) x
      (round_div-le (x * p.numerator) p.denominator x f.positive
        (share-le p.numerator p.denominator x f.at_most_1))
      (round_div-zero p.numerator p.denominator f.positive)

minus_zero : (a b x : ℕ) → a ≡ x → b ≡ 0 → pos a -ℤ pos b ≡ pos x
minus_zero a b x h e = rw (h, e) (omega int_laws)

prorated-whole :
    (p : Prorrateo) (x : ℕ) → IsFactor p → p.numerator ≡ p.denominator → prorated p (pos x) ≡ pos x
unfolding prorated
prorated-whole p x f e =
    minus_zero (round_div (x * p.numerator) p.denominator)
      (round_div (0 * p.numerator) p.denominator) x
      (ap (λ n. round_div (x * n) p.denominator) e ∙ round_div-whole p.denominator x f.positive)
      (round_div-zero p.numerator p.denominator f.positive)

-- The value of box 72 that the builder finds.
box_72 :
    (ledger : List LedgerRow) (responsable : Bool) (r : Revenue)
    → (c : Computed) × (get_computed (build_f300 ledger responsable r) 72 ≡ some c)
      × (c.value
          ≡ deductible responsable
              (compute_prorrateo_factor r)
              (exact_debit ledger (codes "240802")))
      × (c.requires_review ≡ operaciones_mixtas responsable (compute_prorrateo_factor r))
unfolding build_f300 get_computed
box_72 ledger responsable r = (_, refl, refl, refl)

mixed_flagged :
    (r : Revenue) → 0 < r.excluido → operaciones_mixtas true (compute_prorrateo_factor r) ≡ true
unfolding operaciones_mixtas compute_prorrateo_factor
mixed_flagged r h = ground arith

deductible_cases :
    (responsable : Bool) (r : Revenue) (x : ℕ)
    → (deductible responsable (compute_prorrateo_factor r) (pos x) ≤ℤ pos x)
      × ((deductible responsable (compute_prorrateo_factor r) (pos x) ≡ pos x)
          ⊎ ((responsable ≡ true) × (0 < r.excluido)))
unfolding deductible
deductible_cases false r x = (omega arith, inl refl)
deductible_cases true r x =
    let f = compute_prorrateo_factor-IsFactor r in
    let l = prorated-le (compute_prorrateo_factor r) x f in
    elim (Bool-cases (r.excluido == 0)) [
      | inl k ↦
          (l, inl (prorated-whole (compute_prorrateo_factor r) x f (whole_factor r (ground arith))))
      | inr k ↦ (l, inr (refl, ground arith))
    ]

flagged :
    (responsable : Bool) (r : Revenue)
    → responsable ≡ true
    → 0 < r.excluido
    → operaciones_mixtas responsable (compute_prorrateo_factor r) ≡ true
flagged responsable r e h =
    subst (λ b. operaciones_mixtas b (compute_prorrateo_factor r) ≡ true) (sym e)
      (mixed_flagged r h)

-- Of a debit of account 240802 that is not negative, box 72 of F300 deducts no more than the debit; it
-- deducts all of it, unless the company answers for IVA and has excluded income, and then the value
-- waits for review.
pub build_f300-deducts :
    (ledger : List LedgerRow) (responsable : Bool) (r : Revenue) (x : ℕ)
    → exact_debit ledger (codes "240802") ≡ pos x
    → (c : Computed) × (get_computed (build_f300 ledger responsable r) 72 ≡ some c)
      × (c.value ≤ℤ pos x)
      × ((c.value ≡ pos x) ⊎ ((responsable ≡ true) × (0 < r.excluido) × (c.requires_review ≡ true)))
build_f300-deducts ledger responsable r x e =
    let (c, g, v, w) = box_72 ledger responsable r in
    let p = compute_prorrateo_factor r in
    let v' : c.value ≡ deductible responsable p (pos x) = v ∙ ap (deductible responsable p) e in
    let (l, k) = deductible_cases responsable r x in
    let l' = subst (λ y. y ≤ℤ pos x) (sym v') l in
    elim k [
      | inl q ↦ (c, g, l', inl (v' ∙ q))
      | inr (a, b) ↦ (c, g, l', inr (a, b, w ∙ flagged responsable r a b))
    ]
