-- ===== src/Tax/Builders/Conservation.antt =====
-- Every peso retained is on a box of retentions of F350, once.
use backend_pae_account_mult.Prelude.{
  ℕ, ◌≡◌, ◌⊎◌, refl, ◌∙◌, ap, ltb, Bool, true, false, Option, none, some, List, [], ◌∷◌, inl, inr,
  Bool-cases, if◌then◌else◌,
}
use backend_pae_account_mult.Prelude.Int.{ℤ, pos, ◌+ℤ◌, ◌-ℤ◌, ltb_ℤ, int_laws}
use backend_pae_account_mult.Prelude.Texts.{String, str_eq, codes}
use backend_pae_account_mult.Tax.Forms.F350.{ret_renta}
use backend_pae_account_mult.Books.{LedgerRow}
use backend_pae_account_mult.Tax.Builders.{
  exact_credit, Concept, ComputedMap, add, boxes_of, base_estimada, add_concept, taken, add_taken,
  add_concepts, discriminated_of, total_discriminated, build_f350,
}
use backend_pae_account_mult.Tax.Builders.Ranges.{
  amount_in, ranges, only_all, outside, in_first, in_fourth, amount_in-add, ret_renta-change,
  boxes_of-AreBoxes,
}

-- What a dict has on the boxes of retentions.
abbrev pub retained : ComputedMap → ℤ
retained m = ret_renta (amount_in m)

retained-add :
    (m : ComputedMap) (c : ℕ) (x : ℤ) (source : String) (review : Bool)
    → retained (add m c x source review) ≡ retained m +ℤ only_all (ranges c) x
retained-add m c x source review =
    ret_renta-change (amount_in m) (amount_in (add m c x source review)) c x
      (λ i. amount_in-add m c x source review i)

only_all-outside : (x : ℤ) → only_all outside x ≡ pos 0
only_all-outside x = omega int_laws

only_all-inside : (bs : List Bool) (x : ℤ) → (bs ≡ in_first) ⊎ (bs ≡ in_fourth) → only_all bs x ≡ x
only_all-inside bs x (inl e) = rw e (omega int_laws)
only_all-inside bs x (inr e) = rw e (omega int_laws)

retained-add_base :
    (m : ComputedMap) (c : ℕ) (x : ℤ) (source : String) (review : Bool)
    → ranges c ≡ outside
    → retained (add m c x source review) ≡ retained m
retained-add_base m c x source review e =
    let z : only_all (ranges c) x ≡ pos 0 = ap (λ bs. only_all bs x) e ∙ only_all-outside x in
    retained-add m c x source review ∙ ap (λ y. retained m +ℤ y) z ∙ omega int_laws

retained-add_retention :
    (m : ComputedMap) (c : ℕ) (x : ℤ) (source : String) (review : Bool)
    → (ranges c ≡ in_first) ⊎ (ranges c ≡ in_fourth)
    → retained (add m c x source review) ≡ retained m +ℤ x
retained-add_retention m c x source review e =
    retained-add m c x source review ∙ ap (λ y. retained m +ℤ y) (only_all-inside (ranges c) x e)

retained-add_concept :
    (m : ComputedMap) (c : Concept) (x : ℤ) → retained (add_concept m c x) ≡ retained m +ℤ x
unfolding add_concept
retained-add_concept m c x =
    let (b, r) = boxes_of-AreBoxes c in
    let m' = add m (boxes_of c).1 x c.code false in
    let e = retained-add_retention m (boxes_of c).1 x c.code false r in
    elim (Bool-cases (ltb 0 c.tarifa)) [
      | inl k ↦
          rw k (retained-add_base m' (boxes_of c).0 (base_estimada x c.tarifa) c.code true b ∙ e)
      | inr k ↦ rw k e
    ]

-- What the loop takes of a concept, and the part of it that is salaries.
abbrev taken_or_0 : Option ℤ → ℤ
taken_or_0 none = pos 0
taken_or_0 (some x) = x

abbrev pub salary_of : Concept → Option ℤ → ℤ
salary_of c none = pos 0
salary_of c (some x) = if str_eq c.categoria "salarios" then x else pos 0

abbrev pub salaries : List Concept → ℤ
salaries [] = pos 0
salaries (c ∷ cs) = salary_of c (taken c) +ℤ salaries cs

taken_split : (c : Concept) (o : Option ℤ) → taken_or_0 o ≡ discriminated_of c o +ℤ salary_of c o
taken_split c none = omega int_laws
taken_split c (some x) = elim (Bool-cases (str_eq c.categoria "salarios")) [
  | inl k ↦ rw k (omega int_laws)
  | inr k ↦ rw k (omega int_laws)
]

retained-add_taken :
    (m : ComputedMap) (c : Concept) (o : Option ℤ)
    → retained (add_taken m c o) ≡ retained m +ℤ taken_or_0 o
retained-add_taken m c none = omega int_laws
retained-add_taken m c (some x) = retained-add_concept m c x

exchange : (a t d s d' s' : ℤ) → t ≡ d +ℤ s → (a +ℤ t) +ℤ (d' +ℤ s') ≡ a +ℤ ((d +ℤ d') +ℤ (s +ℤ s'))
exchange a t d s d' s' e = rw e (omega int_laws)

retained-add_concepts :
    (m : ComputedMap) (cs : List Concept)
    → retained (add_concepts m cs) ≡ retained m +ℤ (total_discriminated cs +ℤ salaries cs)
unfolding add_concepts total_discriminated
retained-add_concepts m [] = omega int_laws
retained-add_concepts m (c ∷ cs) =
    let m' = add_taken m c (taken c) in
    retained-add_concepts m' cs
    ∙ ap (λ x. x +ℤ (total_discriminated cs +ℤ salaries cs)) (retained-add_taken m c (taken c))
    ∙ exchange (retained m) (taken_or_0 (taken c)) (discriminated_of c (taken c))
        (salary_of c (taken c)) (total_discriminated cs) (salaries cs) (taken_split c (taken c))

with_gap : (a d s : ℤ) → (pos 0 +ℤ (d +ℤ s)) +ℤ (a -ℤ d) ≡ a +ℤ s
with_gap a d s = omega int_laws

-- The retentions on the boxes of F350 add up to the salaries and the credit of account 2365; where this
-- credit exceeds what the concepts discriminate by no more than a centavo, to the salaries and that.
pub build_f350-conserves :
    (ledger : List LedgerRow) (cs : List Concept)
    → retained (build_f350 ledger (some cs))
      ≡ (if ltb_ℤ (pos 1) (exact_credit ledger (codes "2365") -ℤ total_discriminated cs)
          then exact_credit ledger (codes "2365")
          else total_discriminated cs)
        +ℤ salaries cs
unfolding build_f350
build_f350-conserves ledger cs =
    let credit = exact_credit ledger (codes "2365") in
    let total = total_discriminated cs in
    let m = add_concepts [] cs in
    let zero_retained : retained [] ≡ pos 0 = omega int_laws in
    let e : retained m ≡ pos 0 +ℤ (total +ℤ salaries cs) =
      retained-add_concepts [] cs ∙ ap (λ x. x +ℤ (total +ℤ salaries cs)) zero_retained in
    elim (Bool-cases (ltb_ℤ (pos 1) (credit -ℤ total))) [
      | inl k ↦ rw k (
          retained-add_retention m 54 (credit -ℤ total) "sin_clasificar" true (inl refl)
          ∙ ap (λ x. x +ℤ (credit -ℤ total)) e
          ∙ with_gap credit total (salaries cs))
      | inr k ↦ rw k (e ∙ omega int_laws)
    ]
