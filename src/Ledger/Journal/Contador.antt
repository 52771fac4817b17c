-- ===== src/Ledger/Journal/Contador.antt =====
-- `build_from_contador` against the audit before persistence: both judge one list of lines.
use backend_pae_account_mult.Prelude.{
  ◌≡◌, refl, ◌∙◌, ap, suc, Option-cases, Bool, true, false, not, List, [], ◌∷◌, all, length, none,
  some, arith, ◌⊎◌, inl, inr, Bool-cases, if◌then◌else◌,
}
use backend_pae_account_mult.Prelude.Int.{ℤ, pos, ltb_ℤ}
use backend_pae_account_mult.Prelude.Texts.{String}
use backend_pae_account_mult.Pipeline.State.{Asiento}
use backend_pae_account_mult.Pipeline.Auditors.{
  is_unbalanced, total_debitos, total_creditos, debit_of, credit_of,
}
use backend_pae_account_mult.Ledger.Journal.{
  Text, JournalEntry, Result, ok, err, unbalanced, sum_debito, sum_credito, validate_balance,
  contador_entry, contador_entries, then_validate, build_from_contador,
}

-- A line whose valor is a number that is not negative.
abbrev pub is_amount : Asiento → Bool
is_amount a = elim a.valor [ none ↦ false | some v ↦ not (ltb_ℤ v (pos 0)) ]

-- What the loop of `build_from_contador` makes of lines with an amount.
abbrev IsBooking : List Asiento → Result (List JournalEntry) → Type 0
IsBooking as' r =
    (es : List JournalEntry) × (r ≡ ok es)
    × (length es ≡ length as')
    × (sum_debito es ≡ total_debitos as')
    × (sum_credito es ≡ total_creditos as')

module _ (fecha : String) (nit descripcion : Text) where
  entry-debit :
      (a : Asiento) (v : ℤ)
      → a.valor ≡ some v
      → (contador_entry fecha nit descripcion a v).debito ≡ debit_of a
  entry-debit a v e = ground arith

  entry-credit :
      (a : Asiento) (v : ℤ)
      → a.valor ≡ some v
      → (contador_entry fecha nit descripcion a v).credito ≡ credit_of a
  entry-credit a v e = ground arith

  cons-IsBooking :
      (a : Asiento) (rest : List Asiento)
      → is_amount a ≡ true
      → IsBooking rest (contador_entries fecha nit descripcion rest)
      → IsBooking (a ∷ rest) (contador_entries fecha nit descripcion (a ∷ rest))
  unfolding contador_entries sum_debito sum_credito total_debitos total_creditos
  cons-IsBooking a rest p (es, r, n, d, c) = elim (Option-cases a.valor) [
    | inl e ↦ ground (arith, e, p)
    | inr (v, e) ↦ (
      contador_entry fecha nit descripcion a v ∷ es,
      ground (arith, e, r, p),
      ap suc n,
      rw (entry-debit a v e, d) refl,
      rw (entry-credit a v e, c) refl,
    )
  ]

  contador_entries-IsBooking :
      (as' : List Asiento)
      → all is_amount as' ≡ true
      → IsBooking as' (contador_entries fecha nit descripcion as')
  unfolding contador_entries sum_debito sum_credito total_debitos total_creditos
  contador_entries-IsBooking [] h = ([], refl, refl, refl, refl)
  contador_entries-IsBooking (a ∷ rest) h =
      cons-IsBooking a rest (ground arith) (contador_entries-IsBooking rest (ground arith))

-- The builder's test is the audit's, once the totals agree.
validate_balance-audited :
    (as' : List Asiento) (es : List JournalEntry)
    → sum_debito es ≡ total_debitos as'
    → sum_credito es ≡ total_creditos as'
    → validate_balance es ≡ (if is_unbalanced as' then err unbalanced else ok es)
unfolding validate_balance is_unbalanced
validate_balance-audited as' es d c = rw (d, c) refl

-- Lines whose amounts are numbers and not negative are refused by the builder, as unbalanced, exactly
-- when the audit finds them unbalanced. Otherwise each line becomes one entry, and the entries have
-- the totals that the audit added up.
pub build_from_contador-audited :
    (fecha : String) (nit descripcion : Text) (as' : List Asiento)
    → all is_amount as' ≡ true
    → ((is_unbalanced as' ≡ true)
        × (build_from_contador fecha as' nit descripcion ≡ err unbalanced))
      ⊎ ((is_unbalanced as' ≡ false)
          × ((es : List JournalEntry) × (build_from_contador fecha as' nit descripcion ≡ ok es)
              × (length es ≡ length as')
              × (sum_debito es ≡ total_debitos as')
              × (sum_credito es ≡ total_creditos as')))
build_from_contador-audited fecha nit descripcion as' h =
    let (es, r, n, d, c) = contador_entries-IsBooking fecha nit descripcion as' h in
    let e : build_from_contador fecha as' nit descripcion
        ≡ (if is_unbalanced as' then err unbalanced else ok es) =
      unfold build_from_contador in ap then_validate r ∙ validate_balance-audited as' es d c in
    elim (Bool-cases (is_unbalanced as')) [
      | inl far ↦ inl (far, rw far at e)
      | inr near ↦ inr (near, (es, rw near at e, n, d, c))
    ]
