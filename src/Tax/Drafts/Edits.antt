-- ===== src/Tax/Drafts/Edits.antt =====
-- What an accountant's edit changes, and how a draft is brought to its filing.
use backend_pae_account_mult.Prelude.{
  ℕ, ◌≡◌, refl, sym, ◌∙◌, true, false, not, Option, some, List, [], ◌∷◌, ◌++◌, map, all, arith, inl,
  inr, Option-cases,
}
use mathlib.Core.Path.{subst}
use backend_pae_account_mult.Prelude.Int.{ℤ}
use backend_pae_account_mult.Prelude.Texts.{String}
use backend_pae_account_mult.Tax.Catalog.{Renglon, DraftField}
use backend_pae_account_mult.Tax.Drafts.{
  DraftStatus, Draft, Table, get_draft, set_draft, done, find_field, pending, edited, is_same,
  is_reserved, update_fields, update_draft_field, api_update_draft_field, api_file_draft,
  as_reviewed, as_filed,
}
use backend_pae_account_mult.Tax.Drafts.Fields.{
  get_draft-id, get_draft-set_draft, find-update_fields, find-update_fields-other, distinct,
  distinct-update_fields, IsFirst-pending,
}
use backend_pae_account_mult.Tax.Drafts.Workflow.{Request, update_field, review, file, handle}
use backend_pae_account_mult.Tax.Drafts.Filing.{file-done, review-done}

-- The edit goes through where the field waits for review on a draft.
edit-done :
    (db : Table) (id : String) (r : Renglon) (x : ℤ) {d : Draft} {f : DraftField}
    → get_draft db id ≡ some d
    → d.status ≡ DraftStatus.draft
    → is_reserved r ≡ false
    → find_field d.fields r ≡ some f
    → f.requires_review ≡ true
    → (api_update_draft_field db id r x).0
      ≡ set_draft db id (record d { fields = update_fields d.fields r x })
unfolding api_update_draft_field update_draft_field
edit-done db id r x {d} {f} e s u k w = ground arith

-- What an edit that succeeded has found.
pub record IsEdit (r : Renglon) (x : ℤ) (d d' : Draft) : Type 0 where
  pub was_draft : d.status ≡ DraftStatus.draft
  pub not_reserved : is_reserved r ≡ false
  pub waited : (f : DraftField) × (find_field d.fields r ≡ some f) × (f.requires_review ≡ true)
  pub result : d' ≡ record d { fields = update_fields d.fields r x }

IsEdit-found :
    (db : Table) (id : String) (r : Renglon) (x : ℤ) {d d' : Draft}
    → get_draft db id ≡ some d
    → (api_update_draft_field db id r x).1 ≡ done d'
    → IsEdit r x d d'
unfolding api_update_draft_field update_draft_field
IsEdit-found db id r x {d} {d'} e k = elim (Option-cases (find_field d.fields r)) [
  | inl n ↦ ground arith
  | inr (f, n) ↦ record {
    was_draft = ground arith;
    not_reserved = ground arith;
    waited = (f, n, ground arith);
    result = ground arith;
  }
]

-- An edit that succeeds meets a draft in which the renglon waits for review; the row then holds that
-- field with the new value, no longer waiting and of high confidence, every field of another renglon
-- (the subtotals too) is as it was, and the status is still draft.
pub edit-changes_one_renglon :
    (db : Table) (id : String) (r r' : Renglon) (x : ℤ) {d d' : Draft}
    → get_draft db id ≡ some d
    → (api_update_draft_field db id r x).1 ≡ done d'
    → is_same r r' ≡ false
    → (get_draft (api_update_draft_field db id r x).0 id ≡ some d')
      × (d.status ≡ DraftStatus.draft)
      × (d'.status ≡ DraftStatus.draft)
      × ((f : DraftField) × (find_field d.fields r ≡ some f)
          × (f.requires_review ≡ true)
          × (find_field d'.fields r ≡ some (edited x f)))
      × (find_field d'.fields r' ≡ find_field d.fields r')
edit-changes_one_renglon db id r r' x {d} {d'} e k o =
    let i = IsEdit-found db id r x e k in
    let (f, n, w) = i.waited in
    let q = edit-done db id r x e i.was_draft i.not_reserved n w in
    let e' =
      get_draft-set_draft db id (record d { fields = update_fields d.fields r x })
        (get_draft-id db id e) e in
    let s = i.was_draft in
    let z = find-update_fields d.fields r x n in
    let y = find-update_fields-other d.fields r r' x o in
    rw (i.result, q) (e', s, s, (f, n, w, z), y)

unfoldable pub handle_all : Table → List Request → Table
handle_all db [] = db
handle_all db (q ∷ qs) = handle_all (handle db q).0 qs

-- The accountant confirms the value of each field that waits.
abbrev pub confirmations : String → List DraftField → List Request
confirmations id fs = map (λ f. update_field id f.renglon f.value) fs

abbrev pub filing_requests : String → String → ℕ → Option String → List DraftField → List Request
filing_requests id user now ack fs =
    confirmations id (pending fs) ++ (review id user now ∷ file id user now ack ∷ [])

review_and_file :
    (db : Table) (id user : String) (now : ℕ) (ack : Option String) {d : Draft}
    → get_draft db id ≡ some d
    → d.status ≡ DraftStatus.draft
    → pending d.fields ≡ []
    → get_draft (handle_all db (review id user now ∷ file id user now ack ∷ [])) id
      ≡ some (as_filed user now ack (as_reviewed user now d))
unfolding handle_all handle
review_and_file db id user now ack {d} e s p =
    let i = get_draft-id db id e in
    let v = as_reviewed user now d in
    let e' = get_draft-set_draft db id v i e in
    let w = as_filed user now ack v in
    let g = get_draft-set_draft (set_draft db id v) id w i e' in
    let k =
      subst (λ t. get_draft t.0 id ≡ some w)
        (sym (file-done (set_draft db id v) id user now ack e' refl)) g in
    subst (λ t. get_draft (api_file_draft t.0 id user now ack).0 id ≡ some w)
      (sym (review-done db id user now e s p)) k

confirm_all :
    (gs : List DraftField) (db : Table) (id user : String) (now : ℕ) (ack : Option String)
    {d : Draft}
    → get_draft db id ≡ some d
    → d.status ≡ DraftStatus.draft
    → distinct d.fields ≡ true
    → pending d.fields ≡ gs
    → all (λ f. not (is_reserved f.renglon)) gs ≡ true
    → (d' : Draft) × (get_draft
          (handle_all db (confirmations id gs ++ (review id user now ∷ file id user now ack ∷ [])))
          id
        ≡ some d')
      × (d'.status ≡ DraftStatus.filed)
unfolding handle_all handle
confirm_all [] db id user now ack {d} e s u p a =
    (as_filed user now ack (as_reviewed user now d), review_and_file db id user now ack e s p, refl)
confirm_all (f ∷ gs) db id user now ack {d} e s u p a =
    let i = IsFirst-pending d.fields u p in
    let q = edit-done db id f.renglon f.value e s (ground arith) i.found i.waits in
    let d' = record d { fields = update_fields d.fields f.renglon f.value } in
    let e' = get_draft-set_draft db id d' (get_draft-id db id e) e in
    let u' = distinct-update_fields d.fields f.renglon f.value ∙ u in
    let k = confirm_all gs (set_draft db id d') id user now ack e' s u' i.left (ground arith) in
    let rest = confirmations id gs ++ (review id user now ∷ file id user now ack ∷ []) in
    subst
      (λ t.
        (x : Draft) × (get_draft (handle_all t rest) id ≡ some x) × (x.status ≡ DraftStatus.filed))
      (sym q) k

-- A draft can always be filed: if its fields have distinct renglones and the legal notice does not
-- wait for review, then after one edit for each field that waits, a review and a filing, its row is
-- filed.
pub filing_requests-filed :
    (db : Table) (id user : String) (now : ℕ) (ack : Option String) {d : Draft}
    → get_draft db id ≡ some d
    → d.status ≡ DraftStatus.draft
    → distinct d.fields ≡ true
    → all (λ f. not (is_reserved f.renglon)) (pending d.fields) ≡ true
    → (d' : Draft) × (get_draft (handle_all db (filing_requests id user now ack d.fields)) id
        ≡ some d')
      × (d'.status ≡ DraftStatus.filed)
filing_requests-filed db id user now ack {d} e s u a =
    confirm_all (pending d.fields) db id user now ack e s u refl a
