-- ===== src/Pipeline/Tributario.antt =====
-- app/services/tributario_normalizer.py: a tributario output is completed before its schema is
-- checked. The date of the analysis and the free texts that pass through unchanged are left out.
use backend_pae_account_mult.Prelude.{
  ℕ, false, not, Option, none, some, List, [], ◌∷◌, is_empty, if◌then◌else◌,
}
use backend_pae_account_mult.Prelude.Int.{ℤ, pos, ◌+ℤ◌}
use backend_pae_account_mult.Prelude.Texts.{codes, strip}
use backend_pae_account_mult.Pipeline.State.{
  Impuesto, TributarioOutput, Transaction, Output, AgentState, asientos_of,
}

-- The loop that adds up `valor_impuesto`; a value that is no number counts nothing.
unfoldable pub calculated_total : List Impuesto → ℤ
calculated_total [] = pos 0
calculated_total (i ∷ is) = elim i.valor_impuesto [
  | none ↦ calculated_total is
  | some v ↦ v +ℤ calculated_total is
]

abbrev pub no_tributario : TributarioOutput
no_tributario = record {
  documento_referencia = [];
  aplica_impuestos = false;
  impuestos = none;
  total_impuestos = none;
  asientos_enriquecidos = none;
}

-- The keys of an output that is not of the tributario are missing.
abbrev pub as_tributario : Output → TributarioOutput
as_tributario (Output.tributario t) = t
as_tributario _ = no_tributario

abbrev pub list_or {ℓ} : {A : Type ℓ} → Option (List A) → List A → List A
list_or none d = d
list_or (some xs) d = xs

abbrev pub amount_or : Option ℤ → ℤ → ℤ
amount_or none d = d
amount_or (some v) d = v

abbrev pub descripcion_general_of : Output → List ℕ
descripcion_general_of (Output.contador c) = c.descripcion_general
descripcion_general_of _ = []

abbrev pub text_or : List ℕ → List ℕ → List ℕ
text_or a b = if is_empty a then b else a

-- The reference that the first staged transaction gives.
abbrev pub first_reference : List Transaction → List ℕ
first_reference [] = []
first_reference (t ∷ ts) =
    strip (text_or t.referencia (text_or t.descripcion (codes "sin referencia")))

unfoldable pub document_reference : AgentState → TributarioOutput → List ℕ
unfolding strip
document_reference s t = text_or (strip t.documento_referencia) (
    text_or (strip (descripcion_general_of s.contador_output))
      (text_or (first_reference s.raw_transactions) (codes "sin referencia")))

unfoldable pub normalize_tributario_output : AgentState → Output → Output
unfolding calculated_total document_reference
normalize_tributario_output s o =
    let t = as_tributario o in
    let impuestos = list_or t.impuestos [] in
    Output.tributario (record {
      documento_referencia = document_reference s t;
      aplica_impuestos = not (is_empty impuestos);
      impuestos = some impuestos;
      total_impuestos = some (amount_or t.total_impuestos (calculated_total impuestos));
      asientos_enriquecidos =
          some (list_or t.asientos_enriquecidos (asientos_of s.contador_output));
    })
