-- ===== src/Ledger/Journal/Balance.antt =====
-- Double entry: which invoices the builders of Vía A book, and in what balance.
use backend_pae_account_mult.Prelude.{◌≡◌, ◌∙◌, true, false, List, arith, ◌⊎◌, inl, inr, Bool-cases}
use backend_pae_account_mult.Prelude.Int.{
  ℤ, pos, ◌+ℤ◌, ◌-ℤ◌, ◌≤ℤ◌, ◌<ℤ◌, abs, ltb_ℤ, ltb_ℤ-lt, ltb_ℤ-ge, int_laws, +ℤ_parts, -ℤ_parts,
}
use backend_pae_account_mult.Ledger.Journal.Sums.{
  part, compra-debito, compra-credito, venta-debito, venta-credito,
}
use backend_pae_account_mult.Ledger.Journal.{
  JournalEntry, unbalanced, retenciones_exceed, Result, has_negative, ok, err, Invoice, tolerance,
  sum_debito, sum_credito, validate_balance, is_venta, net_amount, compra_entries, venta_entries,
  build_compra, build_venta, build_from_ingest,
}

-- The outcome for an invoice whose amounts are not negative, told by its amounts alone: withheld
-- more than the total, IVA above the total by more than the tolerance, or booked.
abbrev pub Booked : Invoice → Result (List JournalEntry) → Type 0
Booked i (ok es) =
    (i.retefuente +ℤ i.reteica ≤ℤ i.total)
    × (i.iva ≤ℤ i.total +ℤ tolerance)
    × ((i.total <ℤ i.iva) ⊎ ((sum_debito es ≡ i.total) × (sum_credito es ≡ i.total)))
Booked i (err retenciones_exceed) = i.total <ℤ i.retefuente +ℤ i.reteica
Booked i (err unbalanced) = i.total +ℤ tolerance <ℤ i.iva
Booked i (err _) = ⊥

part-nonneg : (a : ℤ) → pos 0 ≤ℤ a → part a ≡ a
part-nonneg a h = ground arith

part-nonpos : (a : ℤ) → a ≤ℤ pos 0 → part a ≡ pos 0
part-nonpos a h = ground arith

-- The two sides of an invoice: what is booked against the base and IVA, and against the party.
abbrev base_side : Invoice → ℤ
base_side i = part (i.total -ℤ i.iva) +ℤ part i.iva

abbrev party_side : Invoice → ℤ
party_side i = part (net_amount i) +ℤ part i.retefuente +ℤ part i.reteica

base_side-total : (i : Invoice) → pos 0 ≤ℤ i.iva → i.iva ≤ℤ i.total → base_side i ≡ i.total
base_side-total i n h =
    rw (part-nonneg (i.total -ℤ i.iva) (omega int_laws), part-nonneg i.iva n) (omega int_laws)

base_side-iva : (i : Invoice) → pos 0 ≤ℤ i.iva → i.total ≤ℤ i.iva → base_side i ≡ i.iva
base_side-iva i n h =
    rw (part-nonpos (i.total -ℤ i.iva) (omega int_laws), part-nonneg i.iva n) (omega int_laws)

party_side-total :
    (i : Invoice)
    → pos 0 ≤ℤ i.retefuente
    → pos 0 ≤ℤ i.reteica
    → pos 0 ≤ℤ net_amount i
    → party_side i ≡ i.total
party_side-total i f c n =
    rw (part-nonneg (net_amount i) n, part-nonneg i.retefuente f, part-nonneg i.reteica c)
      (omega int_laws)

-- What `validate_balance` decides, in order form.
balance-decides :
    (es : List JournalEntry)
    → ((validate_balance es ≡ ok es)
        × (sum_debito es ≤ℤ sum_credito es +ℤ tolerance)
        × (sum_credito es ≤ℤ sum_debito es +ℤ tolerance))
      ⊎ ((validate_balance es ≡ err unbalanced)
          × ((sum_debito es +ℤ tolerance <ℤ sum_credito es)
              ⊎ (sum_credito es +ℤ tolerance <ℤ sum_debito es)))
unfolding validate_balance abs
balance-decides es =
    let d = sum_debito es in
    let c = sum_credito es in
    ground (arith, -ℤ_parts d c, +ℤ_parts c tolerance, +ℤ_parts d tolerance)

-- The builder's two sums are the two sides, one way or the other.
abbrev HasSides : Invoice → List JournalEntry → Type 0
HasSides i es =
    ((sum_debito es ≡ base_side i) × (sum_credito es ≡ party_side i))
    ⊎ ((sum_debito es ≡ party_side i) × (sum_credito es ≡ base_side i))

base_side-cases :
    (i : Invoice)
    → pos 0 ≤ℤ i.iva
    → ((i.iva ≤ℤ i.total) × (base_side i ≡ i.total)) ⊎ ((i.total <ℤ i.iva) × (base_side i ≡ i.iva))
base_side-cases i n = elim (Bool-cases (ltb_ℤ i.total i.iva)) [
  | inl more ↦ inr (ground arith, base_side-iva i n (ground arith))
  | inr less ↦ inl (ground arith, base_side-total i n (ground arith))
]

-- The decision, told by the two sides.
sides-decide :
    (i : Invoice) (es : List JournalEntry)
    → HasSides i es
    → ((validate_balance es ≡ ok es)
        × (base_side i ≤ℤ party_side i +ℤ tolerance)
        × (party_side i ≤ℤ base_side i +ℤ tolerance))
      ⊎ ((validate_balance es ≡ err unbalanced)
          × ((base_side i +ℤ tolerance <ℤ party_side i)
              ⊎ (party_side i +ℤ tolerance <ℤ base_side i)))
sides-decide i es (inl (e, f)) = rw (← e, ← f) (balance-decides es)
sides-decide i es (inr (e, f)) = rw (← e, ← f) (ground (arith, balance-decides es))

module _ (i : Invoice) (es : List JournalEntry) (h : HasSides i es)
    (p : party_side i ≡ i.total) where
  sums-total : base_side i ≡ i.total → (sum_debito es ≡ i.total) × (sum_credito es ≡ i.total)
  sums-total b = elim h [ inl (e, f) ↦ (e ∙ b, f ∙ p) | inr (e, f) ↦ (e ∙ p, f ∙ b) ]

  Booked-of_total :
      base_side i ≡ i.total
      → i.iva ≤ℤ i.total
      → i.retefuente +ℤ i.reteica ≤ℤ i.total
      → Booked i (validate_balance es)
  Booked-of_total b low w = elim (sides-decide i es h) [
    | inl (e, _, _) ↦ rw e (w, omega int_laws, inr (sums-total b))
    | inr (e, far) ↦ absurd (omega (int_laws, rw (b, p) at far))
  ]

  Booked-of_iva :
      base_side i ≡ i.iva
      → i.total <ℤ i.iva
      → i.retefuente +ℤ i.reteica ≤ℤ i.total
      → Booked i (validate_balance es)
  Booked-of_iva b high w = elim (sides-decide i es h) [
    | inl (e, near, _) ↦ rw e (w, rw (b, p) at near, inl high)
    | inr (e, far) ↦
        rw e (elim (rw (b, p) at far) [ inl short ↦ absurd (omega int_laws) | inr long ↦ long ])
  ]

validate_balance-Booked :
    (i : Invoice) (es : List JournalEntry)
    → has_negative i ≡ false
    → ltb_ℤ (net_amount i) (pos 0) ≡ false
    → HasSides i es
    → Booked i (validate_balance es)
validate_balance-Booked i es n w h =
    let party = party_side-total i (ground arith) (ground arith) (ground arith) in
    let net = ltb_ℤ-ge (net_amount i) (pos 0) w in
    let withheld : i.retefuente +ℤ i.reteica ≤ℤ i.total = omega (int_laws, net) in
    elim (base_side-cases i (ground arith)) [
      | inl (low, b) ↦ Booked-of_total i es h party b low withheld
      | inr (high, b) ↦ Booked-of_iva i es h party b high withheld
    ]

negative_net :
    (i : Invoice) → ltb_ℤ (net_amount i) (pos 0) ≡ true → i.total <ℤ i.retefuente +ℤ i.reteica
negative_net i w = omega (int_laws, ltb_ℤ-lt (net_amount i) (pos 0) w)

compra-HasSides : (i : Invoice) → HasSides i (compra_entries i)
compra-HasSides i = inl (compra-debito i, compra-credito i)

venta-HasSides : (i : Invoice) → HasSides i (venta_entries i)
venta-HasSides i = inr (venta-debito i, venta-credito i)

build_compra-Booked : (i : Invoice) → has_negative i ≡ false → Booked i (build_compra i)
unfolding build_compra
build_compra-Booked i n = elim (Bool-cases (ltb_ℤ (net_amount i) (pos 0))) [
  | inl w ↦ rw w (negative_net i w)
  | inr w ↦ rw w (validate_balance-Booked i (compra_entries i) n w (compra-HasSides i))
]

build_venta-Booked : (i : Invoice) → has_negative i ≡ false → Booked i (build_venta i)
unfolding build_venta
build_venta-Booked i n = elim (Bool-cases (ltb_ℤ (net_amount i) (pos 0))) [
  | inl w ↦ rw w (negative_net i w)
  | inr w ↦ rw w (validate_balance-Booked i (venta_entries i) n w (venta-HasSides i))
]

-- An invoice with no negative amount, of either kind, is refused exactly when more is withheld than
-- its total or its IVA is more than a peso above the total. It is booked otherwise, and unless the
-- IVA is above the total, its debits and its credits both add up to the total to the centavo.
pub build_from_ingest-Booked :
    (i : Invoice) → has_negative i ≡ false → Booked i (build_from_ingest i)
unfolding build_from_ingest
build_from_ingest-Booked i n = elim (Bool-cases (is_venta i.doc_type)) [
  | inl v ↦ rw (n, v) (build_venta-Booked i n)
  | inr v ↦ rw (n, v) (build_compra-Booked i n)
]
