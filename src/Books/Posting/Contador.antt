-- ===== src/Books/Posting/Contador.antt =====
-- What the builder makes of the contador's lines in the process mode: its accounts, and when it can be
-- posted within the tolerance.
use mathlib.Core.Path.{subst}
use backend_pae_account_mult.Prelude.{
  ◌≡◌, ◌≢◌, refl, sym, ap, ◌∙◌, ◌⊎◌, Bool, true, false, Option, none, some, List, [], ◌∷◌, All, all,
  map, arith, if◌then◌else◌, inl, inr, Bool-cases,
}
use backend_pae_account_mult.Prelude.Int.{ℤ, pos, ◌-ℤ◌, ltb_ℤ, abs, -ℤ_parts}
use backend_pae_account_mult.Prelude.Texts.{String}
use backend_pae_account_mult.Pipeline.State.{Asiento}
use backend_pae_account_mult.Ledger.Journal.{
  JournalEntry, Text, Result, ok, err, not_a_number, negative, unbalanced, tolerance, sum_debito,
  sum_credito, validate_balance, contador_entry, cons_result, contador_entries, then_validate,
  build_from_contador,
}
use backend_pae_account_mult.Books.Sheet.{has_clase}
use backend_pae_account_mult.Books.Posting.Tolerance.{IsNear, IsAccepted}

abbrev cuentas : List JournalEntry → List Text
cuentas es = map (λ e. e.cuenta) es

abbrev cuentas_puc : List Asiento → List Text
cuentas_puc asientos = map (λ a. a.cuenta_puc) asientos

-- A result whose entries bear the date and are on the accounts of the lines, in their order.
abbrev IsDrawn : String → List Asiento → Result (List JournalEntry) → Type 0
IsDrawn fecha asientos (ok es) = All (λ e. e.fecha ≡ fecha) es × (cuentas es ≡ cuentas_puc asientos)
IsDrawn fecha asientos (err x) = Unit

module _ (fecha : String) (nit descripcion : Text) where
  IsDrawn-cons_result :
      (a : Asiento) (v : ℤ) (rest : List Asiento) (later : Result (List JournalEntry))
      → IsDrawn fecha rest later
      → IsDrawn fecha (a ∷ rest) (cons_result (contador_entry fecha nit descripcion a v) later)
  IsDrawn-cons_result a v rest (ok es) (d, c) = ((refl, d), ap (λ cs. a.cuenta_puc ∷ cs) c)
  IsDrawn-cons_result a v rest (err x) h = tt

  IsDrawn-entry :
      (a : Asiento) (rest : List Asiento) (valor : Option ℤ) (later : Result (List JournalEntry))
      → IsDrawn fecha rest later
      → IsDrawn fecha (a ∷ rest) (elim valor [
        | none ↦ err not_a_number
        | some v ↦
            if ltb_ℤ v (pos 0)
            then err negative
            else cons_result (contador_entry fecha nit descripcion a v) later
      ])
  IsDrawn-entry a rest none later h = tt
  IsDrawn-entry a rest (some v) later h = elim (Bool-cases (ltb_ℤ v (pos 0))) [
    | inl e ↦ rw e tt
    | inr e ↦ rw e (IsDrawn-cons_result a v rest later h)
  ]

  contador_entries-IsDrawn :
      (asientos : List Asiento)
      → IsDrawn fecha asientos (contador_entries fecha nit descripcion asientos)
  unfolding contador_entries
  contador_entries-IsDrawn [] = (tt, refl)
  contador_entries-IsDrawn (a ∷ rest) =
      IsDrawn-entry a rest a.valor (contador_entries fecha nit descripcion rest)
        (contador_entries-IsDrawn rest)

within-IsNear : (x : ℤ) → ltb_ℤ tolerance (abs x) ≡ false → IsNear 1 x
unfolding abs
within-IsNear x e = ground (arith, -ℤ_parts (pos 0) x)

err-ne-ok : (es : List JournalEntry) → err unbalanced ≢ ok es
err-ne-ok es e = cc

ok-eq : (es' es : List JournalEntry) → ok es' ≡ ok es → es' ≡ es
ok-eq es' es e = ground arith

validated :
    (es' es : List JournalEntry)
    → validate_balance es' ≡ ok es
    → (es' ≡ es) × IsNear 1 (sum_debito es' -ℤ sum_credito es')
unfolding validate_balance
validated es' es e = elim (Bool-cases (ltb_ℤ tolerance (abs (sum_debito es' -ℤ sum_credito es')))) [
  | inl k ↦ absurd (err-ne-ok es (rw k at e))
  | inr k ↦ (ok-eq es' es (rw k at e), within-IsNear (sum_debito es' -ℤ sum_credito es') k)
]

-- Whether all of some accounts are in the six classes.
abbrev pub all_classed : List Text → Bool
all_classed cs = all has_clase cs

all_classed-All :
    (es : List JournalEntry)
    → all_classed (cuentas es) ≡ true
    → All (λ e. has_clase e.cuenta ≡ true) es
all_classed-All [] h = tt
all_classed-All (e ∷ es) h = (ground arith, all_classed-All es (ground arith))

All-all_classed :
    (es : List JournalEntry)
    → All (λ e. has_clase e.cuenta ≡ true) es
    → all_classed (cuentas es) ≡ true
All-all_classed [] h = refl
All-all_classed (e ∷ es) (c, h) = ground (arith, c, All-all_classed es h)

-- Accepted with all lines in the six classes, or not accepted with one outside them.
abbrev pub Verdict : List Asiento → List JournalEntry → Type 0
Verdict asientos es =
    (IsAccepted es × (all_classed (map (λ a. a.cuenta_puc) asientos) ≡ true))
    ⊎ ((¬ IsAccepted es) × (all_classed (map (λ a. a.cuenta_puc) asientos) ≡ false))

not_both : {b : Bool} → b ≡ true → b ≢ false
not_both p q = cc

verdict :
    (fecha : String) (asientos : List Asiento) (r : Result (List JournalEntry))
    (es : List JournalEntry)
    → then_validate r ≡ ok es
    → IsDrawn fecha asientos r
    → Verdict asientos es × (map (λ e. e.cuenta) es ≡ map (λ a. a.cuenta_puc) asientos)
verdict fecha asientos (err x) es e h = cc
verdict fecha asientos (ok es') es e (dated, c) =
    let (same, near) = validated es' es e in
    let decided : Verdict asientos es' = elim (Bool-cases (all_classed (cuentas_puc asientos))) [
      | inl k ↦
          let classed = all_classed-All es' (ap all_classed c ∙ k) in
          inl (record { fecha = fecha; dated = dated; near = near; classed = classed }, k)
      | inr k ↦ inr (
        λ accepted. not_both (sym (ap all_classed c) ∙ All-all_classed es' accepted.classed) k,
        k,
      )
    ] in
    subst (λ es. Verdict asientos es × (cuentas es ≡ cuentas_puc asientos)) same (decided, c)

-- Where the builder does not refuse the contador's lines, its entries are on the accounts of the lines
-- in their order. They agree within one peso, bear one date and stand on accounts of classes 1 to 6
-- exactly when every line is on such an account; a line on another class makes them ones that cannot
-- be posted within the tolerance.
pub build_from_contador-IsAccepted :
    (fecha : String) (asientos : List Asiento) (nit descripcion : Text) {es : List JournalEntry}
    → build_from_contador fecha asientos nit descripcion ≡ ok es
    → Verdict asientos es × (map (λ e. e.cuenta) es ≡ map (λ a. a.cuenta_puc) asientos)
unfolding build_from_contador
build_from_contador-IsAccepted fecha asientos nit descripcion {es} e =
    verdict fecha asientos (contador_entries fecha nit descripcion asientos) es e
      (contador_entries-IsDrawn fecha nit descripcion asientos)
