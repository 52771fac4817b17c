-- ===== src/Tax/Builders/Filled.antt =====
-- What the builder found stands on the boxes of the draft, and box 130 of F350 is the total retained.
use backend_pae_account_mult.Prelude.{
  ℕ, ◌≡◌, refl, sym, ◌∙◌, ap, Bool, true, false, Option, none, some, List, [], ◌∷◌, ◌++◌, All, all,
  ◌==◌, arith, inl, inr, Option-cases, Bool-cases, if◌then◌else◌,
}
use mathlib.Core.Path.{subst}
use backend_pae_account_mult.Prelude.Int.{ℤ, pos, ◌+ℤ◌, ◌-ℤ◌, ltb_ℤ}
use backend_pae_account_mult.Tax.Catalog.{
  Casilla, Computed, Values, formula_of, field_of, draft_from, value_in, build_draft_from_catalog,
}
use backend_pae_account_mult.Tax.Catalog.Solved.{
  IsSolved, is_plain, Reads, plain_head, plain_tail, field_of-renglon, draft_from-Reads,
}
use backend_pae_account_mult.Tax.Forms.{at_least_0}
use backend_pae_account_mult.Tax.Forms.F350.{catalog_f350, concept_boxes, totals, ret_renta}
use backend_pae_account_mult.Tax.Forms.Local.{seen_from, ret_renta-pick}
use backend_pae_account_mult.Tax.Forms.Settlement.{f350-IsSolved}
use backend_pae_account_mult.Prelude.Texts.{codes}
use backend_pae_account_mult.Books.{LedgerRow}
use backend_pae_account_mult.Tax.Builders.{
  exact_credit, Concept, ComputedMap, get_computed, total_discriminated, build_f350,
}
use backend_pae_account_mult.Tax.Builders.Ranges.{amount_in}
use backend_pae_account_mult.Tax.Builders.Conservation.{retained, salaries, build_f350-conserves}

abbrev pub found_value : Option Computed → ℤ
found_value none = pos 0
found_value (some c) = c.value

pub field_of-found :
    (found : ℕ → Option Computed) (values : Values) (c : Casilla)
    → formula_of c ≡ none
    → (field_of found values c).value ≡ found_value (found c.numero)
unfolding field_of
field_of-found found values c e = elim (Option-cases (found c.numero)) [
  | inl k ↦ rw (e, k, field_of) (ground arith)
  | inr (x, k) ↦ rw (e, k, field_of) refl
]

abbrev pub has_none {ℓ} : {A : Type ℓ} → Option A → Bool
has_none none = true
has_none (some a) = false

pub has_none-none {ℓ} : {A : Type ℓ} (o : Option A) → has_none o ≡ true → o ≡ none
has_none-none none h = refl
has_none-none (some a) h = ground arith

abbrev Agrees : (ℕ → ℤ) → (ℕ → Option Computed) → List ℕ → Type 0
Agrees get found ns = All (λ n. get n ≡ found_value (found n)) ns

-- A getter that reads a draft has what was found on the boxes without a formula.
draft_from-Agrees :
    (get : ℕ → ℤ) (found : ℕ → Option Computed) (values : Values) (seen : List ℕ)
    (cs rest : List Casilla)
    → is_plain (cs ++ rest) ≡ true
    → all (λ c. has_none (formula_of c)) cs ≡ true
    → Reads get (draft_from found values (cs ++ rest))
    → Agrees get found seen
    → Agrees get found (seen_from seen cs)
draft_from-Agrees get found values seen [] rest p a r h = h
draft_from-Agrees get found values seen (c ∷ cs) rest p a r h =
    let value = (field_of found values c).value in
    let r' : Reads get
        (field_of found values c ∷ draft_from found ((c.numero, value) ∷ values) (cs ++ rest)) =
      unfold draft_from in rw (plain_head c (cs ++ rest) p) at r in
    let here : get c.numero ≡ value = r'.0 c.numero (field_of-renglon found values c) in
    let e = has_none-none (formula_of c) (ground arith) in
    draft_from-Agrees get found ((c.numero, value) ∷ values) (c.numero ∷ seen) cs rest
      (plain_tail c (cs ++ rest) p) (ground arith) r'.1 (here ∙ field_of-found found values c e, h)

pub found_value-get_computed :
    (m : ComputedMap) (n : ℕ) → found_value (get_computed m n) ≡ amount_in m n
unfolding get_computed
found_value-get_computed [] n = refl
found_value-get_computed ((k, c) ∷ m) n = elim (Bool-cases (k == n)) [
  | inl e ↦ rw e refl
  | inr e ↦ rw e (found_value-get_computed m n)
]

Agrees-amounts :
    (get : ℕ → ℤ) (m : ComputedMap) (ns : List ℕ)
    → Agrees get (get_computed m) ns
    → All (λ n. get n ≡ amount_in m n) ns
Agrees-amounts get m [] h = tt
Agrees-amounts get m (n ∷ ns) h = (h.0 ∙ found_value-get_computed m n, Agrees-amounts get m ns h.1)

draft_f350-retained :
    (m : ComputedMap)
    → ret_renta (value_in (build_draft_from_catalog catalog_f350 (get_computed m))) ≡ retained m
unfolding build_draft_from_catalog
draft_f350-retained m =
    let found = get_computed m in
    let ds = draft_from found [] catalog_f350 in
    let v = value_in ds in
    let r = draft_from-Reads v found [] catalog_f350 refl (λ n h. refl) in
    ret_renta-pick v (amount_in m) (
      Agrees-amounts v m (seen_from [] concept_boxes)
        (draft_from-Agrees v found [] [] concept_boxes totals refl refl r tt))

-- In the draft of F350 that is built from the ledger and the concepts, box 130 (the total of
-- retentions) is an amount and the salaries, less the manual box 129 and never negative. The amount
-- is the credit of account 2365 where that exceeds what the concepts discriminate by more than a
-- centavo; otherwise, also where the credit is below it, the amount is what they discriminate.
pub f350_total :
    (ledger : List LedgerRow) (cs : List Concept) {v : ℕ → ℤ}
    → v
      ≡ value_in
          (build_draft_from_catalog catalog_f350 (get_computed (build_f350 ledger (some cs))))
    → v 130
      ≡ at_least_0 (
          (if ltb_ℤ (pos 1) (exact_credit ledger (codes "2365") -ℤ total_discriminated cs)
            then exact_credit ledger (codes "2365")
            else total_discriminated cs)
          +ℤ salaries cs
          -ℤ v 129)
f350_total ledger cs {v} e =
    let m = build_f350 ledger (some cs) in
    let (c130, _) = subst (IsSolved catalog_f350) (sym e) (f350-IsSolved (get_computed m)) in
    let t : ret_renta v ≡ retained m = ap ret_renta e ∙ draft_f350-retained m in
    c130 ∙ ap (λ x. at_least_0 (x -ℤ v 129)) (t ∙ build_f350-conserves ledger cs)
