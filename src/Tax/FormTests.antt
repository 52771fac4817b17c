-- ===== src/Tax/FormTests.antt =====
-- The forms with a few values found for them, and the theorems of the forms there.
use backend_pae_account_mult.Prelude.{ℕ, Option, none, some, false, ◌==◌, if◌then◌else◌}
use backend_pae_account_mult.Prelude.Int.{pos}
use backend_pae_account_mult.Tax.Catalog.{Computed, value_in, build_draft_from_catalog}
use backend_pae_account_mult.Tax.Catalog.Solved.{IsSolved}
use backend_pae_account_mult.Tax.Forms.F300.{catalog_f300}
use backend_pae_account_mult.Tax.Forms.F350.{catalog_f350}
use backend_pae_account_mult.Tax.Forms.F110.{catalog_f110}
use backend_pae_account_mult.Tax.Forms.Ica.{catalog_ica}
use backend_pae_account_mult.Tax.Forms.Settlement.{drafts-IsSolved}

abbrev amount : ℕ → Option Computed
amount n =
    some (record {
      value = pos n;
      source = "libro_mayor";
      confidence = "high";
      requires_review = false;
    })

-- IVA generated of 1900.00 in box 59, deducted of 400.00 in box 72, and 100.00 in box 85.
abbrev found : ℕ → Option Computed
found n =
    if n == 59
    then amount 190000
    else if n == 72
    then amount 40000
    else if n == 85
    then amount 10000
    else none

drafts-IsSolved_example :
    IsSolved catalog_f300 (value_in (build_draft_from_catalog catalog_f300 found))
    × IsSolved catalog_f350 (value_in (build_draft_from_catalog catalog_f350 found))
    × IsSolved catalog_f110 (value_in (build_draft_from_catalog catalog_f110 found))
    × IsSolved catalog_ica (value_in (build_draft_from_catalog catalog_ica found))
drafts-IsSolved_example = drafts-IsSolved found
