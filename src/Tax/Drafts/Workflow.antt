-- ===== src/Tax/Drafts/Workflow.antt =====
-- What holds of every draft between two requests.
use backend_pae_account_mult.Prelude.{
  ℕ, ◌≡◌, Bool, true, false, not, Option, none, some, [], All, arith, inl, inr, Option-cases,
}
use backend_pae_account_mult.Prelude.Int.{ℤ}
use backend_pae_account_mult.Prelude.Texts.{String}
use backend_pae_account_mult.Tax.Catalog.{Renglon}
use backend_pae_account_mult.Tax.Drafts.{
  DraftStatus, Draft, Reply, Table, get_draft, pending, update_fields, update_draft_field,
  api_update_draft_field, api_review_draft, as_reviewed, api_file_draft, as_filed, api_reopen_draft,
  reopened, unfiled, unreviewed,
}
use backend_pae_account_mult.Tax.Drafts.Generate.{Sources, generate_declaration_draft}
use backend_pae_account_mult.Tax.Drafts.Fields.{get_draft-All, set_draft-All}

abbrev pub is_draft : DraftStatus → Bool
is_draft s = elim s [ DraftStatus.draft ↦ true | _ ↦ false ]

abbrev pub is_filed : DraftStatus → Bool
is_filed s = elim s [ DraftStatus.filed ↦ true | _ ↦ false ]

abbrev pub is_some {ℓ} : {A : Type ℓ} → Option A → Bool
is_some none = false
is_some (some a) = true

-- The columns of a row agree with its status.
pub record IsCoherent (d : Draft) : Type 0 where
  pub nothing_pending : is_draft d.status ≡ false → pending d.fields ≡ []
  pub reviewer : is_some d.reviewed_by ≡ not (is_draft d.status)
  pub review_time : is_some d.reviewed_at ≡ not (is_draft d.status)
  pub filer : is_some d.filed_by ≡ is_filed d.status
  pub filing_time : is_some d.filed_at ≡ is_filed d.status
  pub no_acknowledgment : is_filed d.status ≡ false → d.dian_acknowledgment ≡ none

-- A request of the tax API on the drafts.
pub data Request : Type 0 where
  generate : String → String → String → ℕ → ℕ → Sources → Request
  update_field : String → Renglon → ℤ → Request
  review : String → String → ℕ → Request
  file : String → String → ℕ → Option String → Request
  reopen : String → String → ℕ → String → Request

unfoldable pub handle : Table → Request → Table × Reply
handle db (generate id nit form year now s) = generate_declaration_draft db id nit form year now s
handle db (update_field id r x) = api_update_draft_field db id r x
handle db (review id user now) = api_review_draft db id user now
handle db (file id user now ack) = api_file_draft db id user now ack
handle db (reopen id user now reason) = api_reopen_draft db id user now reason

-- The tables that requests lead to, from an empty one.
pub data Reach : Table → Type 0 where
  start : Reach []
  next : {db : Table} → Reach db → (q : Request) → Reach (handle db q).0

generate-IsCoherent :
    (db : Table) (id nit form : String) (year now : ℕ) (s : Sources)
    → All IsCoherent db
    → All IsCoherent (generate_declaration_draft db id nit form year now s).0
unfolding generate_declaration_draft
generate-IsCoherent db id nit form year now s h = ground arith

update_field-IsCoherent :
    (db : Table) (id : String) (r : Renglon) (x : ℤ)
    → All IsCoherent db
    → All IsCoherent (api_update_draft_field db id r x).0
unfolding api_update_draft_field update_draft_field
update_field-IsCoherent db id r x h = elim (Option-cases (get_draft db id)) [
  | inl e ↦ ground arith
  | inr (d, e) ↦
      let c = get_draft-All IsCoherent db id h e in
      let d' = record d { fields = update_fields d.fields r x } in
      let k = set_draft-All IsCoherent db id d' h in ground (arith, k)
]

review-IsCoherent :
    (db : Table) (id user : String) (now : ℕ)
    → All IsCoherent db
    → All IsCoherent (api_review_draft db id user now).0
unfolding api_review_draft
review-IsCoherent db id user now h = elim (Option-cases (get_draft db id)) [
  | inl e ↦ ground arith
  | inr (d, e) ↦
      let c = get_draft-All IsCoherent db id h e in
      let k = set_draft-All IsCoherent db id (as_reviewed user now d) h in ground (arith, k)
]

file-IsCoherent :
    (db : Table) (id user : String) (now : ℕ) (ack : Option String)
    → All IsCoherent db
    → All IsCoherent (api_file_draft db id user now ack).0
unfolding api_file_draft
file-IsCoherent db id user now ack h = elim (Option-cases (get_draft db id)) [
  | inl e ↦ ground arith
  | inr (d, e) ↦
      let c = get_draft-All IsCoherent db id h e in
      let k = set_draft-All IsCoherent db id (as_filed user now ack d) h in ground (arith, k)
]

reopen-IsCoherent :
    (db : Table) (id user : String) (now : ℕ) (reason : String)
    → All IsCoherent db
    → All IsCoherent (api_reopen_draft db id user now reason).0
unfolding api_reopen_draft
reopen-IsCoherent db id user now reason h = elim (Option-cases (get_draft db id)) [
  | inl e ↦ ground arith
  | inr (d, e) ↦
      let c = get_draft-All IsCoherent db id h e in
      let k = set_draft-All IsCoherent db id (unfiled (reopened user now reason d)) h in
      let l = set_draft-All IsCoherent db id (unreviewed (reopened user now reason d)) h in
      ground (arith, k, l)
]

-- In every table that requests lead to, each row is coherent: a draft that is reviewed or filed has no
-- field that waits for review, it names a reviewer and a time exactly then, it names who filed it and
-- when exactly while it is filed, and it has no acknowledgment of the DIAN unless it is filed.
pub Reach-IsCoherent : {db : Table} → Reach db → All IsCoherent db
unfolding handle
Reach-IsCoherent start = tt
Reach-IsCoherent (next {db} r (generate id nit form year now s)) =
    generate-IsCoherent db id nit form year now s (Reach-IsCoherent r)
Reach-IsCoherent (next {db} r (update_field id k x)) =
    update_field-IsCoherent db id k x (Reach-IsCoherent r)
Reach-IsCoherent (next {db} r (review id user now)) =
    review-IsCoherent db id user now (Reach-IsCoherent r)
Reach-IsCoherent (next {db} r (file id user now ack)) =
    file-IsCoherent db id user now ack (Reach-IsCoherent r)
Reach-IsCoherent (next {db} r (reopen id user now reason)) =
    reopen-IsCoherent db id user now reason (Reach-IsCoherent r)
