-- ===== src/Books/Posting/Invoice.antt =====
-- What Vía A books of an invoice: date, balance and accounts, after the corrections of the ingest mode
-- too.
use mathlib.Core.Path.{subst}
use backend_pae_account_mult.Prelude.{
  ◌≡◌, refl, sym, ◌∙◌, Bool, true, false, ◌&&◌, ◌||◌, ◌⊎◌, List, [], ◌∷◌, map, All, arith, inl, inr,
  Bool-cases,
}
use backend_pae_account_mult.Prelude.Int.{◌+ℤ◌, ◌≤ℤ◌, ◌<ℤ◌}
use backend_pae_account_mult.Prelude.Texts.{codes, codes_eq}
use backend_pae_account_mult.Ledger.Journal.{
  JournalEntry, Text, Invoice, ok, tolerance, sum_debito, sum_credito, validate_balance,
  has_negative, build_compra, build_venta, build_from_ingest, compra_entries, venta_entries,
}
use backend_pae_account_mult.Ledger.Journal.Balance.{Booked, build_from_ingest-Booked}
use backend_pae_account_mult.Books.Sheet.{clase_of, has_clase}
use backend_pae_account_mult.Books.Posting.{Document, corrected, is_respecialized}
use backend_pae_account_mult.Books.Posting.Balance.{IsPostable}
use backend_pae_account_mult.Books.Posting.Built.{
  IsPlaced, KnowsClasses, corrected-All, unzip_placed, corrected-balanced,
}

built :
    (i : Invoice) {es : List JournalEntry}
    → build_from_ingest i ≡ ok es
    → (es ≡ compra_entries i) ⊎ (es ≡ venta_entries i)
unfolding build_from_ingest build_venta build_compra validate_balance
built i e = ground arith

-- The accounts that the builder names itself.
fixed_classed :
    (has_clase (codes "240802") ≡ true)
    × (has_clase (codes "220505") ≡ true)
    × (has_clase (codes "2365") ≡ true)
    × (has_clase (codes "130505") ≡ true)
    × (has_clase (codes "135515") ≡ true)
    × (has_clase (codes "135517") ≡ true)
    × (has_clase (codes "240805") ≡ true)
unfolding has_clase clase_of
fixed_classed = (refl, refl, refl, refl, refl, refl, refl)

module _ (known : Text → Bool) (six : KnowsClasses known) (i : Invoice)
    (own : known i.cuenta_puc ≡ true) (ica : known i.cuenta_reteica ≡ true) where
  compra-All : All (IsPlaced known i.fecha) (compra_entries i)
  unfolding compra_entries
  compra-All =
      let c1 = six (codes "240802") fixed_classed.0 in
      let c2 = six (codes "220505") fixed_classed.1 in
      let c3 = six (codes "2365") fixed_classed.2 in ground (arith, own, ica, c1, c2, c3)

  venta-All : All (IsPlaced known i.fecha) (venta_entries i)
  unfolding venta_entries
  venta-All =
      let c1 = six (codes "130505") fixed_classed.3 in
      let c2 = six (codes "135515") fixed_classed.4 in
      let c3 = six (codes "135517") fixed_classed.5 in
      let c4 = six (codes "240805") fixed_classed.6 in ground (arith, own, ica, c1, c2, c3, c4)

  built-All :
      {es : List JournalEntry} → build_from_ingest i ≡ ok es → All (IsPlaced known i.fecha) es
  built-All e = elim (built i e) [
    | inl q ↦ subst (All (IsPlaced known i.fecha)) (sym q) compra-All
    | inr q ↦ subst (All (IsPlaced known i.fecha)) (sym q) venta-All
  ]

-- Balance of what an invoice books: to the centavo, or the IVA is above the total by no more than the
-- tolerance.
abbrev pub IsEven : Invoice → List JournalEntry → Type 0
IsEven i es =
    ((i.total <ℤ i.iva) × (i.iva ≤ℤ i.total +ℤ tolerance)) ⊎ (sum_debito es ≡ sum_credito es)

corrected-IsEven :
    (i : Invoice) (d : Document) (es : List JournalEntry)
    → Booked i (ok es)
    → IsEven i (map (corrected d) es)
corrected-IsEven i d es (_, near, inl above) = inl (above, near)
corrected-IsEven i d es (_, _, inr (p, q)) = inr (corrected-balanced d es (p ∙ sym q))

-- The accounts that an invoice's entries can stand on: those of the six classes, the two that the
-- invoice names, and the one that the corrector suggests.
abbrev pub is_own : Invoice → Document → Text → Bool
is_own i d c =
    codes_eq c i.cuenta_puc
    || (codes_eq c i.cuenta_reteica || (is_respecialized d && codes_eq c d.suggested))

abbrev pub is_known : Invoice → Document → Text → Bool
is_known i d c = has_clase c || is_own i d c

codes-same : (c : Text) → codes_eq c c ≡ true
codes-same [] = refl
codes-same (x ∷ xs) = ground (arith, codes-same xs)

module _ (i : Invoice) (d : Document) where
  knows_classes : KnowsClasses (is_known i d)
  knows_classes c h = rw h refl

  knows_own : is_known i d i.cuenta_puc ≡ true
  knows_own = ground (arith, codes-same i.cuenta_puc)

  knows_reteica : is_known i d i.cuenta_reteica ≡ true
  knows_reteica = ground (arith, codes-same i.cuenta_reteica)

  knows_suggested : (is_known i d d.suggested ≡ true) ⊎ (is_respecialized d ≡ false)
  knows_suggested = elim (Bool-cases (is_respecialized d)) [
    | inl e ↦ inl (ground (arith, e, codes-same d.suggested))
    | inr e ↦ inr e
  ]

-- What is booked of an invoice without negative amounts bears its date on every entry, after the
-- corrections of the ingest mode too. It balances to the centavo unless the IVA is above the total,
-- which it then is by no more than the tolerance. Every entry is on an account of classes 1 to 6, or
-- on one of the two accounts that the invoice names, or on the one that the corrector suggests, each
-- of these as given, whatever its class.
pub build_from_ingest-is_known :
    (i : Invoice) (d : Document) {es : List JournalEntry}
    → has_negative i ≡ false
    → build_from_ingest i ≡ ok es
    → All (λ e. e.fecha ≡ i.fecha) (map (corrected d) es)
      × IsEven i (map (corrected d) es)
      × All (λ e. is_known i d e.cuenta ≡ true) (map (corrected d) es)
build_from_ingest-is_known i d {es} n e =
    let known = is_known i d in
    let six = knows_classes i d in
    let built_placed = built-All known six i (knows_own i d) (knows_reteica i d) e in
    let placed = corrected-All known six i.fecha d es (knows_suggested i d) built_placed in
    let (dated, accounts) = unzip_placed known six i.fecha (map (corrected d) es) placed in
    (dated, corrected-IsEven i d es (subst (Booked i) e (build_from_ingest-Booked i n)), accounts)

-- Where the accounts that the invoice and the corrector name are in the six classes, and the IVA is
-- not above the total, the entries can be posted.
pub build_from_ingest-IsPostable :
    (i : Invoice) (d : Document) {es : List JournalEntry}
    → has_negative i ≡ false
    → i.iva ≤ℤ i.total
    → has_clase i.cuenta_puc ≡ true
    → has_clase i.cuenta_reteica ≡ true
    → (has_clase d.suggested ≡ true) ⊎ (is_respecialized d ≡ false)
    → build_from_ingest i ≡ ok es
    → IsPostable (map (corrected d) es)
build_from_ingest-IsPostable i d {es} n h own ica s e =
    let es' = map (corrected d) es in
    let six : KnowsClasses has_clase = λ c k. k in
    let built_placed = built-All has_clase six i own ica e in
    let placed = corrected-All has_clase six i.fecha d es s built_placed in
    let (dated, classed) = unzip_placed has_clase six i.fecha es' placed in
    let even = corrected-IsEven i d es (subst (Booked i) e (build_from_ingest-Booked i n)) in
    let balanced : sum_debito es' ≡ sum_credito es' = elim even [
      | inl (above, _) ↦ absurd (omega arith)
      | inr same ↦ same
    ] in
    record { fecha = i.fecha; dated = dated; balanced = balanced; classed = classed }
