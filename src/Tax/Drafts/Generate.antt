-- ===== src/Tax/Drafts/Generate.antt =====
-- `generate_declaration_draft` of tax_declaration_service.py (app/services): its guards, and the row it
-- adds. What the builder of the form gives is an argument.
use backend_pae_account_mult.Prelude.{
  ℕ, ◌==◌, leb, Bool, false, not, ◌&&◌, Option, none, some, List, [], ◌∷◌, ◌++◌, any, filter,
  if◌then◌else◌,
}
use backend_pae_account_mult.Prelude.Int.{ℤ, pos, ltb_ℤ, ◌*ℤ◌}
use backend_pae_account_mult.Prelude.Texts.{String, str_eq}
use backend_pae_account_mult.Tax.Catalog.{disclaimer, DraftField}
use backend_pae_account_mult.Tax.Drafts.{
  DraftStatus, Draft, Reply, done, unsupported_form, settings_missing, f2516_missing,
  f2516_not_reviewed, Table,
}

-- What a request to generate a draft finds outside the table of drafts: whether the company has
-- settings, the UVT of the year and the gross income of the year before (in centavos), and the
-- fields that the builder of the form gives.
pub record Sources : Type 0 where
  pub has_settings : Bool
  pub uvt : Option ℤ
  pub prev_gross : ℤ
  pub fields : List DraftField

abbrev pub supported_forms : List String
supported_forms = "F300" ∷ "F350" ∷ "F110" ∷ "ICA" ∷ "F2516" ∷ []

unfoldable pub is_supported : String → Bool
is_supported form = any (str_eq form) supported_forms

abbrev pub is_f2516_of : String → ℕ → Draft → Bool
is_f2516_of nit year d =
    (str_eq d.company_nit nit && str_eq d.form_type "F2516") && (d.year == year)

-- `order_by(created_at.desc()).first()`: the latest row, of equal times the one first in the table.
unfoldable pub latest : List Draft → Option Draft
latest [] = none
latest (d ∷ ds) = elim (latest ds) [
  | none ↦ some d
  | some e ↦ if leb e.created_at d.created_at then some d else some e
]

-- `uvt_year is not None` and income below 45,000 UVT.
unfoldable pub below_threshold : Option ℤ → ℤ → Bool
below_threshold none prev_gross = false
below_threshold (some uvt) prev_gross = ltb_ℤ prev_gross (uvt *ℤ pos 45000)

-- The guard of the conciliation on the latest F2516, where it refuses.
abbrev pub refused_status : DraftStatus → Option Reply
refused_status DraftStatus.draft = some f2516_not_reviewed
refused_status DraftStatus.reviewed = none
refused_status DraftStatus.filed = none

abbrev pub refused_draft : Option Draft → Option Reply
refused_draft none = some f2516_missing
refused_draft (some d) = refused_status d.status

unfoldable pub f2516_refusal : Table → String → String → ℕ → Sources → Option Reply
f2516_refusal db nit form year s =
    if str_eq form "F110" && not (below_threshold s.uvt s.prev_gross)
    then refused_draft (latest (filter (is_f2516_of nit year) db))
    else none

-- The legal notice; its value, a text, is left out.
abbrev pub disclaimer_field : DraftField
disclaimer_field = record {
  renglon = disclaimer;
  value = pos 0;
  source = "sistema";
  confidence = "high";
  requires_review = false;
  es_subtotal = false;
}

abbrev pub new_draft : String → String → String → ℕ → ℕ → List DraftField → Draft
new_draft id nit form year now fs = record {
  id = id;
  company_nit = nit;
  form_type = form;
  year = year;
  created_at = now;
  status = DraftStatus.draft;
  fields = fs ++ (disclaimer_field ∷ []);
  reviewed_by = none;
  reviewed_at = none;
  filed_by = none;
  filed_at = none;
  dian_acknowledgment = none;
  reopened_by = none;
  reopened_at = none;
  reopen_reason = none;
}

-- A new draft under a new id, with the year of the end of its period.
unfoldable pub generate_declaration_draft :
    Table → String → String → String → ℕ → ℕ → Sources → Table × Reply
generate_declaration_draft db id nit form year now s =
    let d = new_draft id nit form year now s.fields in
    if not (is_supported form)
    then (db, unsupported_form)
    else if not s.has_settings
    then (db, settings_missing)
    else elim (f2516_refusal db nit form year s) [ some e ↦ (db, e) | none ↦ (d ∷ db, done d) ]
