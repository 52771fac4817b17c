-- ===== src/Tax/Catalog.antt =====
-- app/services/dian_forms/catalog.py, and how tax_declaration_service.py (app/services) projects the
-- computed values onto a form: DraftField, Computed and `build_draft_from_catalog`.
--
-- An amount is a whole number of centavos, so the rounding to two places is the amount itself. A box
-- is its number; labels, sections and help texts are left out.
pub mod Solved
use backend_pae_account_mult.Prelude.{
  ℕ, Bool, true, false, not, Option, none, some, List, [], ◌∷◌, map, filter, ◌==◌, if◌then◌else◌,
}
use backend_pae_account_mult.Prelude.Int.{ℤ, pos}
use backend_pae_account_mult.Prelude.Texts.{String}

-- A formula reads the boxes through a getter.
abbrev pub Formula : Type 0
Formula = (ℕ → ℤ) → ℤ

pub data CasillaTipo : Type 0 where
  computed subtotal manual header : CasillaTipo

pub record Casilla : Type 0 where
  pub numero : ℕ
  pub tipo : CasillaTipo
  pub formula : Option Formula
  pub requires_review : Bool

-- The three ways in which the forms write a box.
abbrev pub box : ℕ → Casilla
box n = record { numero = n; tipo = CasillaTipo.computed; formula = none; requires_review = false }

abbrev pub manual_box : ℕ → Casilla
manual_box n = record {
  numero = n;
  tipo = CasillaTipo.manual;
  formula = none;
  requires_review = false;
}

abbrev pub subtotal_box : ℕ → Formula → Casilla
subtotal_box n f = record {
  numero = n;
  tipo = CasillaTipo.subtotal;
  formula = some f;
  requires_review = false;
}

-- A value that a builder found for a box.
pub record Computed : Type 0 where
  pub value : ℤ
  pub source : String
  pub confidence : String
  pub requires_review : Bool

-- The `renglon` of a field: the number of a box, another name (the conciliation F2516 has these), or
-- the legal notice at the end of a draft.
pub data Renglon : Type 0 where
  casilla : ℕ → Renglon
  named : String → Renglon
  disclaimer : Renglon

pub record DraftField : Type 0 where
  pub renglon : Renglon
  pub value : ℤ
  pub source : String
  pub confidence : String
  pub requires_review : Bool
  pub es_subtotal : Bool

-- `values.get(n, 0.0)`, and `values[n] = x` in front of it.
abbrev pub Values : Type 0
Values = List (ℕ × ℤ)

unfoldable pub values_get : Values → ℕ → ℤ
values_get [] n = pos 0
values_get ((m, x) ∷ vs) n = if m == n then x else values_get vs n

-- The formula that is evaluated, where the box is a subtotal that has one.
abbrev pub formula_of : Casilla → Option Formula
formula_of c = elim c.tipo [ CasillaTipo.subtotal ↦ c.formula | _ ↦ none ]

abbrev pub calculated : Casilla → ℤ → DraftField
calculated c value = record {
  renglon = casilla c.numero;
  value = value;
  source = "calculado";
  confidence = "high";
  requires_review = c.requires_review;
  es_subtotal = true;
}

abbrev pub from_builder : Casilla → Computed → DraftField
from_builder c comp = record {
  renglon = casilla c.numero;
  value = comp.value;
  source = comp.source;
  confidence = comp.confidence;
  requires_review = comp.requires_review;
  es_subtotal = false;
}

abbrev pub to_fill : Casilla → DraftField
to_fill c = record {
  renglon = casilla c.numero;
  value = pos 0;
  source = "diligenciar_manual";
  confidence = "low";
  requires_review = true;
  es_subtotal = false;
}

abbrev pub no_movement : Casilla → DraftField
no_movement c = record {
  renglon = casilla c.numero;
  value = pos 0;
  source = "sin_movimiento";
  confidence = "medium";
  requires_review = false;
  es_subtotal = false;
}

abbrev pub without_value : Casilla → DraftField
without_value c = elim c.tipo [ CasillaTipo.manual ↦ to_fill c | _ ↦ no_movement c ]

-- The field that the body of the loop appends.
unfoldable pub field_of : (ℕ → Option Computed) → Values → Casilla → DraftField
field_of found values c = elim (formula_of c) [
  | some f ↦ calculated c (f (values_get values))
  | none ↦ elim (found c.numero) [ some comp ↦ from_builder c comp | none ↦ without_value c ]
]

abbrev pub is_header : Casilla → Bool
is_header c = elim c.tipo [ CasillaTipo.header ↦ true | _ ↦ false ]

-- The loop over the boxes, with the values found so far.
unfoldable pub draft_from : (ℕ → Option Computed) → Values → List Casilla → List DraftField
draft_from found values [] = []
draft_from found values (c ∷ cs) =
    let f = field_of found values c in
    if is_header c
    then draft_from found values cs
    else f ∷ draft_from found ((c.numero, f.value) ∷ values) cs

unfoldable pub build_draft_from_catalog : List Casilla → (ℕ → Option Computed) → List DraftField
build_draft_from_catalog casillas found = draft_from found [] casillas

-- `r.renglon == casilla n`.
abbrev pub is_renglon : ℕ → Renglon → Bool
is_renglon n (casilla m) = m == n
is_renglon n (named s) = false
is_renglon n disclaimer = false

-- What a draft says of a box: its first field with that number, zero if there is none.
unfoldable pub value_in : List DraftField → ℕ → ℤ
value_in [] n = pos 0
value_in (f ∷ fs) n = if is_renglon n f.renglon then f.value else value_in fs n
