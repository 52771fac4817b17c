-- ===== src/Tax/Builders.antt =====
-- `_build_f350` of tax_declaration_service.py (app/services): the retentions of a period, placed on the
-- boxes of F350.
--
-- What the queries answer is an argument: the ledger, and the active concepts (none where their query
-- failed), each with its rate in ten-thousandths (zero where there is none) and the amount retained
-- under it, none where its query failed. An estimated base is rounded by itself; prefixes of sources and
-- warnings are left out.
pub mod F300
pub mod Proration
pub mod Ranges
pub mod Conservation
pub mod Filled
pub mod Balance
pub mod Booked
pub mod F110
use backend_pae_account_mult.Prelude.{
  ℕ, zero, suc, ◌+◌, ◌*◌, ◌/◌, ◌%◌, ltb, ◌==◌, Bool, true, false, not, ◌||◌, Option, none, some,
  List, [], ◌∷◌, if◌then◌else◌,
}
use backend_pae_account_mult.Prelude.Int.{ℤ, pos, pos_part, ◌+ℤ◌, ◌-ℤ◌, leb_ℤ, ltb_ℤ}
use backend_pae_account_mult.Prelude.Texts.{String, str_eq, codes, codes_eq}
use backend_pae_account_mult.Books.{LedgerRow}
use backend_pae_account_mult.Tax.Catalog.{Computed}
use backend_pae_account_mult.Tax.Forms.F350.{concept_casillas}

unfoldable pub exact_credit : List LedgerRow → List ℕ → ℤ
exact_credit [] account = pos 0
exact_credit (r ∷ rs) account =
    if codes_eq r.account account then r.total_credit else exact_credit rs account

pub record Concept : Type 0 where
  pub code : String
  pub categoria : String
  pub aplica_a : String
  pub tarifa : ℕ
  pub monto : Option ℤ

-- The dict from boxes to values.
abbrev pub ComputedMap : Type 0
ComputedMap = List (ℕ × Computed)

unfoldable pub get_computed : ComputedMap → ℕ → Option Computed
get_computed [] n = none
get_computed ((m, c) ∷ cs) n = if m == n then some c else get_computed cs n

abbrev pub first_value : ℤ → String → Bool → Computed
first_value monto source review = record {
  value = monto;
  source = source;
  confidence = "high";
  requires_review = review;
}

abbrev pub raised : Computed → ℤ → Bool → Computed
raised prev monto review = record prev {
  value = prev.value +ℤ monto;
  confidence = "high";
  requires_review = prev.requires_review || review;
}

unfoldable pub add : ComputedMap → ℕ → ℤ → String → Bool → ComputedMap
add [] n monto source review = (n, first_value monto source review) ∷ []
add ((m, c) ∷ cs) n monto source review =
    let rest = add cs n monto source review in
    if m == n then (m, raised c monto review) ∷ cs else (m, c) ∷ rest

-- The boxes of base and retention of a concept; one without a place goes to the other payments.
abbrev pub or_other : String → Option (ℕ × ℕ) → ℕ × ℕ
or_other aplica_a (some p) = p
or_other aplica_a none = if str_eq aplica_a "PN" then (92, 108) else (41, 54)

unfoldable pub boxes_of : Concept → ℕ × ℕ
boxes_of c = or_other c.aplica_a (concept_casillas c.categoria c.aplica_a)

-- A quotient rounded to the nearest, half to even.
unfoldable pub round_div : ℕ → ℕ → ℕ
round_div n d =
    if ltb (2 * (n % d)) d
    then n / d
    else if ltb d (2 * (n % d))
    then n / d + 1
    else n / d + n / d % 2

abbrev pub base_estimada : ℤ → ℕ → ℤ
base_estimada monto tarifa = pos (round_div (pos_part monto * 10000) tarifa)

unfoldable pub add_concept : ComputedMap → Concept → ℤ → ComputedMap
add_concept m c monto =
    let m' = add m (boxes_of c).1 monto c.code false in
    if ltb 0 c.tarifa then add m' (boxes_of c).0 (base_estimada monto c.tarifa) c.code true else m'

-- The amount of a concept that the loop takes: none for ICA, a failed query, or nothing retained.
unfoldable pub taken : Concept → Option ℤ
taken c =
    if str_eq c.categoria "ica"
    then none
    else elim c.monto [ none ↦ none | some x ↦ if leb_ℤ x (pos 0) then none else some x ]

-- The loop over the concepts: the dict, and `total_discriminated`, which leaves salaries out.
abbrev pub add_taken : ComputedMap → Concept → Option ℤ → ComputedMap
add_taken m c none = m
add_taken m c (some x) = add_concept m c x

unfoldable pub add_concepts : ComputedMap → List Concept → ComputedMap
add_concepts m [] = m
add_concepts m (c ∷ cs) = add_concepts (add_taken m c (taken c)) cs

abbrev pub discriminated_of : Concept → Option ℤ → ℤ
discriminated_of c none = pos 0
discriminated_of c (some x) = if str_eq c.categoria "salarios" then pos 0 else x

unfoldable pub total_discriminated : List Concept → ℤ
total_discriminated [] = pos 0
total_discriminated (c ∷ cs) = discriminated_of c (taken c) +ℤ total_discriminated cs

abbrev pub add_gap : ComputedMap → ℤ → ComputedMap
add_gap m gap = if ltb_ℤ (pos 1) gap then add m 54 gap "sin_clasificar" true else m

-- Without a database there are no concepts and no gap.
unfoldable pub build_f350 : List LedgerRow → Option (List Concept) → ComputedMap
build_f350 ledger none = []
build_f350 ledger (some cs) =
    add_gap (add_concepts [] cs) (exact_credit ledger (codes "2365") -ℤ total_discriminated cs)
