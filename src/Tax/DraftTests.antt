-- ===== src/Tax/DraftTests.antt =====
-- Drafts of a company with concrete fields, and the theorems of their workflow there.
use backend_pae_account_mult.Prelude.{
  ◌≤◌, ◌≡◌, refl, ◌⊎◌, true, false, none, some, List, [], ◌∷◌, filter, All, arith,
}
use backend_pae_account_mult.Prelude.Int.{pos}
use backend_pae_account_mult.Prelude.Texts.{str_eq}
use backend_pae_account_mult.Tax.Catalog.{casilla, DraftField}
use backend_pae_account_mult.Tax.Drafts.{
  DraftStatus, Draft, Table, get_draft, set_draft, done, find_field, update_fields, pending, edited,
  api_update_draft_field, update_draft_field, api_review_draft, api_file_draft, as_reviewed,
}
use backend_pae_account_mult.Tax.Drafts.Generate.{
  Sources, latest, is_f2516_of, below_threshold, is_supported, f2516_refusal, new_draft,
  generate_declaration_draft,
}
use backend_pae_account_mult.Tax.Drafts.Fields.{distinct}
use backend_pae_account_mult.Tax.Drafts.Workflow.{
  generate, review, file, handle, is_draft, IsCoherent, Reach, start, next, Reach-IsCoherent,
}
use backend_pae_account_mult.Tax.Drafts.Gate.{generate_f110-conciliated, handle_refused, is_done}
use backend_pae_account_mult.Tax.Drafts.Edits.{
  edit-changes_one_renglon, handle_all, filing_requests, filing_requests-filed,
}

abbrev sources : List DraftField → Sources
sources fs = record { has_settings = true; uvt = none; prev_gross = pos 0; fields = fs }

-- A box that the accountant fills in, and one that the ledger gives.
abbrev manual_field : DraftField
manual_field = record {
  renglon = casilla 31;
  value = pos 0;
  source = "diligenciar_manual";
  confidence = "low";
  requires_review = true;
  es_subtotal = false;
}

abbrev ledger_field : DraftField
ledger_field = record {
  renglon = casilla 27;
  value = pos 500000;
  source = "libro_mayor";
  confidence = "high";
  requires_review = false;
  es_subtotal = false;
}

abbrev f300 : Draft
f300 = new_draft "d1" "900123456" "F300" 2026 10 (ledger_field ∷ manual_field ∷ [])

-- The same draft once it is edited, and once it is reviewed.
abbrev f300_edited : Draft
f300_edited = record f300 { fields = update_fields f300.fields (casilla 31) (pos 7000) }

abbrev f300_clear : Draft
f300_clear = new_draft "d1" "900123456" "F300" 2026 10 (ledger_field ∷ [])

abbrev f300_reviewed : Draft
f300_reviewed = as_reviewed "contadora" 20 f300_clear

f300_clear-IsCoherent : IsCoherent f300_clear
f300_clear-IsCoherent = ground arith

found_first : (d : Draft) → str_eq d.id "d1" ≡ true → get_draft (d ∷ []) "d1" ≡ some d
unfolding get_draft
found_first d h = ground arith

edit_done : (api_update_draft_field (f300 ∷ []) "d1" (casilla 31) (pos 7000)).1 ≡ done f300_edited
unfolding api_update_draft_field update_draft_field get_draft find_field
edit_done = refl

edit-changes_one_renglon_example :
    (get_draft (api_update_draft_field (f300 ∷ []) "d1" (casilla 31) (pos 7000)).0 "d1"
      ≡ some f300_edited)
    × (f300.status ≡ DraftStatus.draft)
    × (f300_edited.status ≡ DraftStatus.draft)
    × ((f : DraftField) × (find_field f300.fields (casilla 31) ≡ some f)
        × (f.requires_review ≡ true)
        × (find_field f300_edited.fields (casilla 31) ≡ some (edited (pos 7000) f)))
    × (find_field f300_edited.fields (casilla 27) ≡ find_field f300.fields (casilla 27))
edit-changes_one_renglon_example =
    edit-changes_one_renglon (f300 ∷ []) "d1" (casilla 31) (casilla 27) (pos 7000)
      (found_first f300 refl) edit_done refl

f300_distinct : distinct f300.fields ≡ true
unfolding distinct
f300_distinct = refl

filing_requests-filed_example :
    (d' : Draft) × (get_draft
        (handle_all (f300 ∷ []) (filing_requests "d1" "contadora" 30 none f300.fields))
        "d1"
      ≡ some d')
    × (d'.status ≡ DraftStatus.filed)
filing_requests-filed_example =
    filing_requests-filed (f300 ∷ []) "d1" "contadora" 30 none (found_first f300 refl) refl
      f300_distinct refl

-- A conciliation is generated and reviewed, and then a draft of F110.
abbrev conciliated : Table
conciliated =
    (handle (handle [] (generate "c1" "900123456" "F2516" 2026 5 (sources (ledger_field ∷ [])))).0
      (review "c1" "contadora" 6)).0

conciliated-Reach : Reach conciliated
conciliated-Reach =
    next (next start (generate "c1" "900123456" "F2516" 2026 5 (sources (ledger_field ∷ []))))
      (review "c1" "contadora" 6)

Reach-IsCoherent_example : All IsCoherent conciliated
Reach-IsCoherent_example = Reach-IsCoherent conciliated-Reach

abbrev f110 : Draft
f110 = new_draft "d2" "900123456" "F110" 2026 9 (manual_field ∷ [])

f110_done :
    (generate_declaration_draft conciliated "d2" "900123456" "F110" 2026 9
      (sources (manual_field ∷ []))).1
    ≡ done f110
unfolding generate_declaration_draft handle api_review_draft get_draft set_draft f2516_refusal
    latest is_supported below_threshold
f110_done = refl

generate_f110-conciliated_example :
    (below_threshold none (pos 0) ≡ true)
    ⊎ ((e : Draft) × (latest (filter (is_f2516_of "900123456" 2026) conciliated) ≡ some e)
        × All (λ x. x.created_at ≤ e.created_at) (filter (is_f2516_of "900123456" 2026) conciliated)
        × (is_f2516_of "900123456" 2026 e ≡ true)
        × (is_draft e.status ≡ false)
        × (pending e.fields ≡ []))
generate_f110-conciliated_example =
    generate_f110-conciliated "d2" "900123456" "F110" 2026 9 (sources (manual_field ∷ []))
      conciliated-Reach refl f110_done

filing_refused : is_done (handle (f300 ∷ []) (file "d1" "contadora" 30 none)).1 ≡ false
unfolding handle api_file_draft get_draft
filing_refused = refl

handle_refused_example : (handle (f300 ∷ []) (file "d1" "contadora" 30 none)).0 ≡ f300 ∷ []
handle_refused_example = handle_refused (f300 ∷ []) (file "d1" "contadora" 30 none) filing_refused
