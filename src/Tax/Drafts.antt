-- ===== src/Tax/Drafts.antt =====
-- The workflow of a declaration draft: the handlers of api/v1/tax.py (app/api) that edit, review, file
-- and reopen a draft, `update_draft_field` and the guards of `generate_declaration_draft` of
-- tax_declaration_service.py (app/services), and the columns of `TaxDeclarationDraft` they write.
--
-- The table is a list of rows, and a handler gives the table after it and its answer. The caller's
-- name and the time are arguments.
pub mod Generate
pub mod Fields
pub mod Workflow
pub mod Gate
pub mod Filing
pub mod Edits
use backend_pae_account_mult.Prelude.{
  ℕ, ◌+◌, ◌*◌, ◌==◌, leb, Bool, true, false, not, ◌&&◌, ◌||◌, Option, none, some, List, [], ◌∷◌,
  ◌++◌, map, any, filter, length, if◌then◌else◌,
}
use backend_pae_account_mult.Prelude.Int.{ℤ, pos, ltb_ℤ, ◌*ℤ◌}
use backend_pae_account_mult.Prelude.Texts.{String, str_eq}
use backend_pae_account_mult.Tax.Catalog.{Renglon, casilla, named, disclaimer, DraftField}

-- The values that the column `status` is given.
pub data DraftStatus : Type 0 where
  draft reviewed filed : DraftStatus

pub record Draft : Type 0 where
  pub id : String
  pub company_nit : String
  pub form_type : String
  pub year : ℕ
  pub created_at : ℕ
  pub status : DraftStatus
  pub fields : List DraftField
  pub reviewed_by : Option String
  pub reviewed_at : Option ℕ
  pub filed_by : Option String
  pub filed_at : Option ℕ
  pub dian_acknowledgment : Option String
  pub reopened_by : Option String
  pub reopened_at : Option ℕ
  pub reopen_reason : Option String

-- The answers of the handlers: the row they show, or the error.
pub data Reply : Type 0 where
  done : Draft → Reply
  draft_not_found field_not_found field_not_editable not_a_draft not_reviewed already_editable :
      Reply
  draft_locked : DraftStatus → Reply
  fields_pending_review : ℕ → Reply
  unsupported_form settings_missing f2516_missing f2516_not_reviewed : Reply

abbrev pub Table : Type 0
Table = List Draft

-- The row of an id, and the table in which that row is written.
unfoldable pub get_draft : Table → String → Option Draft
get_draft [] id = none
get_draft (d ∷ db) id = if str_eq d.id id then some d else get_draft db id

unfoldable pub set_draft : Table → String → Draft → Table
set_draft [] id d' = []
set_draft (d ∷ db) id d' = if str_eq d.id id then d' ∷ db else d ∷ set_draft db id d'

abbrev pub is_same : Renglon → Renglon → Bool
is_same (casilla n) (casilla m) = n == m
is_same (named s) (named t) = str_eq s t
is_same disclaimer disclaimer = true
is_same (casilla n) (named s) = false
is_same (casilla n) disclaimer = false
is_same (named s) (casilla n) = false
is_same (named s) disclaimer = false
is_same disclaimer (casilla m) = false
is_same disclaimer (named s) = false

abbrev pub is_reserved : Renglon → Bool
is_reserved (casilla n) = false
is_reserved (named s) = false
is_reserved disclaimer = true

-- `next((f for f in fields if f["renglon"] == renglon), None)`
unfoldable pub find_field : List DraftField → Renglon → Option DraftField
find_field [] r = none
find_field (f ∷ fs) r = if is_same f.renglon r then some f else find_field fs r

abbrev pub edited : ℤ → DraftField → DraftField
edited x f = record f { value = x; requires_review = false; confidence = "high" }

-- The loop over the fields of a draft.
unfoldable pub update_fields : List DraftField → Renglon → ℤ → List DraftField
update_fields [] r x = []
update_fields (f ∷ fs) r x =
    let rest = update_fields fs r x in if is_same f.renglon r then edited x f ∷ rest else f ∷ rest

abbrev pub update_target : Table → String → Draft → Renglon → ℤ → Option DraftField → Table × Reply
update_target db id d r x none = (db, field_not_found)
update_target db id d r x (some f) =
    let d' = record d { fields = update_fields d.fields r x } in
    if f.requires_review then (set_draft db id d', done d') else (db, field_not_editable)

unfoldable pub update_draft_field : Table → String → Renglon → ℤ → Table × Reply
update_draft_field db id r x =
    if is_reserved r then (db, field_not_editable) else elim (get_draft db id) [
      | none ↦ (db, draft_not_found)
      | some d ↦ update_target db id d r x (find_field d.fields r)
    ]

-- `_draft_for_lock and _draft_for_lock.status != "draft"`
abbrev pub locked : DraftStatus → Option DraftStatus
locked DraftStatus.draft = none
locked DraftStatus.reviewed = some DraftStatus.reviewed
locked DraftStatus.filed = some DraftStatus.filed

abbrev pub lock_of : Option Draft → Option DraftStatus
lock_of none = none
lock_of (some d) = locked d.status

unfoldable pub api_update_draft_field : Table → String → Renglon → ℤ → Table × Reply
api_update_draft_field db id r x = elim (lock_of (get_draft db id)) [
  | some s ↦ (db, draft_locked s)
  | none ↦ update_draft_field db id r x
]

-- The fields that wait for the accountant.
abbrev pub pending : List DraftField → List DraftField
pending fs = filter (λ f. f.requires_review) fs

abbrev pub as_reviewed : String → ℕ → Draft → Draft
as_reviewed user now d = record d {
  status = DraftStatus.reviewed;
  reviewed_by = some user;
  reviewed_at = some now;
}

abbrev pub review_pending : Table → String → String → ℕ → Draft → List DraftField → Table × Reply
review_pending db id user now d (f ∷ fs) = (db, fields_pending_review (length (f ∷ fs)))
review_pending db id user now d [] =
    (set_draft db id (as_reviewed user now d), done (as_reviewed user now d))

unfoldable pub api_review_draft : Table → String → String → ℕ → Table × Reply
api_review_draft db id user now = elim (get_draft db id) [
  | none ↦ (db, draft_not_found)
  | some d ↦ elim d.status [
    | DraftStatus.draft ↦ review_pending db id user now d (pending d.fields)
    | _ ↦ (db, not_a_draft)
  ]
]

-- `if body.dian_acknowledgment is not None`
abbrev pub acknowledged : Option String → Option String → Option String
acknowledged none old = old
acknowledged (some ack) old = some ack

abbrev pub as_filed : String → ℕ → Option String → Draft → Draft
as_filed user now ack d = record d {
  status = DraftStatus.filed;
  filed_by = some user;
  filed_at = some now;
  dian_acknowledgment = acknowledged ack d.dian_acknowledgment;
}

unfoldable pub api_file_draft : Table → String → String → ℕ → Option String → Table × Reply
api_file_draft db id user now ack = elim (get_draft db id) [
  | none ↦ (db, draft_not_found)
  | some d ↦ elim d.status [
    | DraftStatus.reviewed ↦
        (set_draft db id (as_filed user now ack d), done (as_filed user now ack d))
    | _ ↦ (db, not_reviewed)
  ]
]

abbrev pub reopened : String → ℕ → String → Draft → Draft
reopened user now reason d = record d {
  reopened_by = some user;
  reopened_at = some now;
  reopen_reason = some reason;
}

-- A filed declaration goes back to reviewed.
abbrev pub unfiled : Draft → Draft
unfiled d = record d {
  status = DraftStatus.reviewed;
  filed_at = none;
  filed_by = none;
  dian_acknowledgment = none;
}

-- A reviewed declaration goes back to draft.
abbrev pub unreviewed : Draft → Draft
unreviewed d = record d { status = DraftStatus.draft; reviewed_at = none; reviewed_by = none }

unfoldable pub api_reopen_draft : Table → String → String → ℕ → String → Table × Reply
api_reopen_draft db id user now reason = elim (get_draft db id) [
  | none ↦ (db, draft_not_found)
  | some d ↦
      let d' = reopened user now reason d in
      elim d.status [
        | DraftStatus.draft ↦ (db, already_editable)
        | DraftStatus.filed ↦ (set_draft db id (unfiled d'), done (unfiled d'))
        | DraftStatus.reviewed ↦ (set_draft db id (unreviewed d'), done (unreviewed d'))
      ]
]
