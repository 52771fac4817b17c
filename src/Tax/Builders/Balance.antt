-- ===== src/Tax/Builders/Balance.antt =====
-- The balance of F300 that is built from the ledger is the one the builder estimates.
use backend_pae_account_mult.Prelude.{
  ℕ, ◌≡◌, ◌⊎◌, refl, sym, ◌∙◌, Bool, true, ◌&&◌, Option, List, [], ◌∷◌, All, all, any, ◌==◌, ==_iff,
  arith, inl, inr, Bool-cases,
}
use mathlib.Core.Path.{subst}
use backend_pae_account_mult.Prelude.Int.{ℤ, pos, ◌+ℤ◌, ◌-ℤ◌, int_laws}
use backend_pae_account_mult.Tax.Catalog.{
  Casilla, Computed, Values, formula_of, field_of, draft_from, value_in, build_draft_from_catalog,
}
use backend_pae_account_mult.Tax.Catalog.Solved.{
  is_plain, Reads, plain_head, plain_tail, field_of-renglon, draft_from-Reads,
}
use backend_pae_account_mult.Tax.Forms.{sum_from}
use backend_pae_account_mult.Tax.Forms.F300.{catalog_f300}
use backend_pae_account_mult.Tax.Forms.Local.{pick, sum_from-pick}
use backend_pae_account_mult.Tax.Forms.Settlement.{f300_equations, f300_period_balance}
use backend_pae_account_mult.Prelude.Texts.{codes}
use backend_pae_account_mult.Books.{LedgerRow}
use backend_pae_account_mult.Tax.Builders.{exact_credit, ComputedMap, get_computed}
use backend_pae_account_mult.Tax.Builders.F300.{
  Revenue, exact_debit, compute_prorrateo_factor, deductible, build_f300, iva_neto,
}
use backend_pae_account_mult.Tax.Builders.Ranges.{amount_in}
use backend_pae_account_mult.Tax.Builders.Filled.{
  found_value, field_of-found, has_none, has_none-none, found_value-get_computed,
}

-- A box of a form without a formula.
abbrev pub is_entry : ℕ → List Casilla → Bool
is_entry n cs = any (λ c. (c.numero == n) && has_none (formula_of c)) cs

draft_from-entry :
    (get : ℕ → ℤ) (found : ℕ → Option Computed) (values : Values) (cs : List Casilla) (n : ℕ)
    → is_plain cs ≡ true
    → Reads get (draft_from found values cs)
    → is_entry n cs ≡ true
    → get n ≡ found_value (found n)
draft_from-entry get found values [] n p r e = ground arith
draft_from-entry get found values (c ∷ cs) n p r e =
    let value = (field_of found values c).value in
    let r' : Reads get
        (field_of found values c ∷ draft_from found ((c.numero, value) ∷ values) cs) =
      unfold draft_from in rw (plain_head c cs p) at r in
    elim (Bool-cases ((c.numero == n) && has_none (formula_of c))) [
      | inl k ↦
          let here : get c.numero ≡ value = r'.0 c.numero (field_of-renglon found values c) in
          let q : c.numero ≡ n = (==_iff c.numero n).0 (ground arith) in
          let f = has_none-none (formula_of c) (ground arith) in
          subst (λ m. get m ≡ found_value (found m)) q (here ∙ field_of-found found values c f)
      | inr k ↦
          draft_from-entry get found ((c.numero, value) ∷ values) cs n (plain_tail c cs p) r'.1
            (ground (arith, k, e))
    ]

pub entries-amounts :
    (m : ComputedMap) (cs : List Casilla) (ns : List ℕ)
    → is_plain cs ≡ true
    → all (λ n. is_entry n cs) ns ≡ true
    → All (λ n. value_in (build_draft_from_catalog cs (get_computed m)) n ≡ amount_in m n) ns
unfolding build_draft_from_catalog
entries-amounts m cs [] p a = tt
entries-amounts m cs (n ∷ ns) p a =
    let v = value_in (draft_from (get_computed m) [] cs) in
    let r = draft_from-Reads v (get_computed m) [] cs p (λ n' h. refl) in
    (
      draft_from-entry v (get_computed m) [] cs n p r (ground arith) ∙ found_value-get_computed m n,
      entries-amounts m cs ns p (ground arith),
    )

-- The boxes of IVA that are no subtotals.
abbrev iva_boxes : List ℕ
iva_boxes =
    58 ∷ 59 ∷ 60 ∷ 61 ∷ 62 ∷ 63 ∷ 64 ∷ 65 ∷ 66 ∷ 68 ∷ 69 ∷ 70 ∷ 71 ∷ 72 ∷ 73 ∷ 74 ∷ 75 ∷ 76 ∷ 78
    ∷ 79 ∷ 80 ∷ []

settle :
    {balance x67 x81 x77 x78 x79 x80 g d : ℤ}
    → balance ≡ x67 -ℤ x81
    → x67 ≡ g
    → x81 ≡ x77 +ℤ x78 +ℤ x79 -ℤ x80
    → x77 ≡ d
    → x78 ≡ pos 0
    → x79 ≡ pos 0
    → x80 ≡ pos 0
    → balance ≡ g -ℤ d
settle b e67 e81 e77 e78 e79 e80 = rw (b, e67, e81, e77, e78, e79, e80) (omega int_laws)

module _ (ledger : List LedgerRow) (responsable : Bool) (r : Revenue) where
  generado_found :
      sum_from (amount_in (build_f300 ledger responsable r)) 58 9
      ≡ exact_credit ledger (codes "240805") +ℤ exact_credit ledger (codes "240807")
  unfolding build_f300
  generado_found = omega int_laws

  descontable_found :
      sum_from (amount_in (build_f300 ledger responsable r)) 68 9
      ≡ deductible responsable (compute_prorrateo_factor r) (exact_debit ledger (codes "240802"))
  unfolding build_f300
  descontable_found = omega int_laws

  others_found :
      (amount_in (build_f300 ledger responsable r) 78 ≡ pos 0)
      × (amount_in (build_f300 ledger responsable r) 79 ≡ pos 0)
      × (amount_in (build_f300 ledger responsable r) 80 ≡ pos 0)
  unfolding build_f300
  others_found = (refl, refl, refl)

  -- In the draft of F300 that is built from the ledger, the balance of the period, due in box 82 or in
  -- favour in box 83, is the one the builder estimates: the credits of accounts 240805 and 240807 less
  -- the deductible part of the debit of account 240802.
  pub f300_balance :
      {v : ℕ → ℤ}
      → v
        ≡ value_in
            (build_draft_from_catalog catalog_f300 (get_computed (build_f300 ledger responsable r)))
      → ((v 82 ≡ pos 0) ⊎ (v 83 ≡ pos 0)) × (v 82 -ℤ v 83 ≡ iva_neto ledger responsable r)
  unfolding iva_neto
  f300_balance {v} e =
      let m = build_f300 ledger responsable r in
      let found = get_computed m in
      let w = amount_in m in
      let (_, (_, (_, (_, (c67, (c77, (c81, _))))))) = f300_equations found e in
      let (one_side, c) = f300_period_balance found e in
      let agrees : All (λ n. v n ≡ w n) iva_boxes =
        subst (λ u. All (λ n. u n ≡ w n) iva_boxes) (sym e)
          (entries-amounts m catalog_f300 iva_boxes refl refl) in
      let g = c67 ∙ sum_from-pick v w iva_boxes 58 9 agrees refl ∙ generado_found in
      let d = c77 ∙ sum_from-pick v w iva_boxes 68 9 agrees refl ∙ descontable_found in
      let (z78, z79, z80) = others_found in
      let p = pick v w iva_boxes in
      (
        one_side,
        settle c g c81 d (p 78 agrees refl ∙ z78) (p 79 agrees refl ∙ z79) (p 80 agrees refl ∙ z80),
      )
