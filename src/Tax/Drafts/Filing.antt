-- ===== src/Tax/Drafts/Filing.antt =====
-- Reopening a declaration undoes its filing or its review.
use backend_pae_account_mult.Prelude.{ℕ, ◌≡◌, refl, false, Option, none, some, [], arith}
use backend_pae_account_mult.Prelude.Texts.{String}
use backend_pae_account_mult.Tax.Drafts.{
  DraftStatus, Draft, Table, get_draft, set_draft, done, pending, api_review_draft, as_reviewed,
  api_file_draft, as_filed, api_reopen_draft, reopened, unreviewed,
}
use backend_pae_account_mult.Tax.Drafts.Fields.{
  get_draft-id, get_draft-set_draft, set_draft-set_draft,
}
use backend_pae_account_mult.Tax.Drafts.Workflow.{is_some, IsCoherent}

is_some-false {ℓ} : {A : Type ℓ} (o : Option A) → is_some o ≡ false → o ≡ none
is_some-false none e = refl
is_some-false (some a) e = ground arith

unreviewed-as_reviewed :
    (d : Draft) (user user' reason : String) (now now' : ℕ)
    → IsCoherent d
    → d.status ≡ DraftStatus.draft
    → unreviewed (reopened user' now' reason (as_reviewed user now d))
      ≡ reopened user' now' reason d
unreviewed-as_reviewed d user user' reason now now' c s = ground arith

pub file-done :
    (db : Table) (id user : String) (now : ℕ) (ack : Option String) {d : Draft}
    → get_draft db id ≡ some d
    → d.status ≡ DraftStatus.reviewed
    → api_file_draft db id user now ack
      ≡ (set_draft db id (as_filed user now ack d), done (as_filed user now ack d))
unfolding api_file_draft
file-done db id user now ack {d} e s = ground arith

pub review-done :
    (db : Table) (id user : String) (now : ℕ) {d : Draft}
    → get_draft db id ≡ some d
    → d.status ≡ DraftStatus.draft
    → pending d.fields ≡ []
    → api_review_draft db id user now
      ≡ (set_draft db id (as_reviewed user now d), done (as_reviewed user now d))
unfolding api_review_draft
review-done db id user now {d} e s p = ground arith

reopen-reviewed :
    (db : Table) (id user : String) (now : ℕ) (reason : String) {d : Draft}
    → get_draft db id ≡ some d
    → d.status ≡ DraftStatus.reviewed
    → (api_reopen_draft db id user now reason).0
      ≡ set_draft db id (unreviewed (reopened user now reason d))
unfolding api_reopen_draft
reopen-reviewed db id user now reason {d} e s = ground arith

-- Reviewing a draft with nothing pending and reopening it gives the table in which that row has only
-- the three reopening columns changed, if the row was coherent.
pub reopen-review :
    (db : Table) (id user user' : String) (now now' : ℕ) (reason : String) {d : Draft}
    → get_draft db id ≡ some d
    → IsCoherent d
    → d.status ≡ DraftStatus.draft
    → pending d.fields ≡ []
    → (api_reopen_draft (api_review_draft db id user now).0 id user' now' reason).0
      ≡ set_draft db id (reopened user' now' reason d)
reopen-review db id user user' now now' reason {d} e c s p =
    let i = get_draft-id db id e in
    let f = as_reviewed user now d in
    let r =
      reopen-reviewed (set_draft db id f) id user' now' reason (get_draft-set_draft db id f i e)
        refl in
    rw
      (
        review-done db id user now e s p,
        r,
        set_draft-set_draft db id f (unreviewed (reopened user' now' reason f)) i,
        unreviewed-as_reviewed d user user' reason now now' c s,
      )
      refl
