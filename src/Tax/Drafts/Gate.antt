-- ===== src/Tax/Drafts/Gate.antt =====
-- When a draft of the income tax form F110 is generated, and what a refused request does.
use backend_pae_account_mult.Prelude.{
  ℕ, ◌≡◌, ◌⊎◌, ◌≤◌, Bool, true, false, Option, none, some, List, [], ◌∷◌, All, filter, arith, inl,
  inr, Option-cases,
}
use backend_pae_account_mult.Prelude.Int.{ℤ}
use backend_pae_account_mult.Prelude.Texts.{String, str_eq}
use backend_pae_account_mult.Tax.Catalog.{Renglon}
use backend_pae_account_mult.Tax.Drafts.{
  Draft, Reply, Table, done, pending, update_draft_field, api_update_draft_field, api_review_draft,
  api_file_draft, api_reopen_draft,
}
use backend_pae_account_mult.Tax.Drafts.Generate.{
  Sources, latest, is_f2516_of, below_threshold, f2516_refusal, generate_declaration_draft,
}
use backend_pae_account_mult.Tax.Drafts.Workflow.{
  Request, generate, update_field, review, file, reopen, handle, is_draft, IsCoherent, Reach,
  Reach-IsCoherent,
}

latest-All {ℓ} :
    (P : Draft → Type ℓ) (ds : List Draft) {e : Draft} → All P ds → latest ds ≡ some e → P e
unfolding latest
latest-All P [] {e} h l = ground arith
latest-All P (d ∷ ds) {e} h l = elim (Option-cases (latest ds)) [
  | inl k ↦ ground arith
  | inr (x, k) ↦ let p = latest-All P ds h.1 k in ground arith
]

filter-All {ℓ} :
    (P : Draft → Type ℓ) (p : Draft → Bool) (ds : List Draft) → All P ds → All P (filter p ds)
filter-All P p [] h = tt
filter-All P p (d ∷ ds) h = ground (arith, filter-All P p ds h.1)

All-filter : (p : Draft → Bool) (ds : List Draft) → All (λ d. p d ≡ true) (filter p ds)
All-filter p [] = tt
All-filter p (d ∷ ds) = ground (arith, All-filter p ds)

up_to_later :
    (n m : ℕ) (ds : List Draft)
    → n ≤ m
    → All (λ d. d.created_at ≤ n) ds
    → All (λ d. d.created_at ≤ m) ds
up_to_later n m [] h a = tt
up_to_later n m (d ∷ ds) h a = ground (arith, up_to_later n m ds h a.1)

latest-none {ℓ} : (P : Draft → Type ℓ) (ds : List Draft) → latest ds ≡ none → All P ds
unfolding latest
latest-none P [] l = tt
latest-none P (d ∷ ds) l = elim (Option-cases (latest ds)) [
  | inl k ↦ ground arith
  | inr (x, k) ↦ ground arith
]

latest_is_last :
    (ds : List Draft) {e : Draft} → latest ds ≡ some e → All (λ d. d.created_at ≤ e.created_at) ds
unfolding latest
latest_is_last [] {e} l = tt
latest_is_last (d ∷ ds) {e} l = elim (Option-cases (latest ds)) [
  | inl k ↦ let a = latest-none (λ x. x.created_at ≤ e.created_at) ds k in ground arith
  | inr (x, k) ↦
      let a = latest_is_last ds k in
      let b = up_to_later x.created_at e.created_at ds in ground (arith, b)
]

-- Where the guard lets an F110 through, income is below the threshold or the latest F2516 is past draft.
refusal_none :
    (db : Table) (nit form : String) (year : ℕ) (s : Sources)
    → str_eq form "F110" ≡ true
    → f2516_refusal db nit form year s ≡ none
    → (below_threshold s.uvt s.prev_gross ≡ true)
      ⊎ ((e : Draft) × (latest (filter (is_f2516_of nit year) db) ≡ some e)
          × (is_draft e.status ≡ false))
unfolding f2516_refusal
refusal_none db nit form year s f g =
    elim (Option-cases (latest (filter (is_f2516_of nit year) db))) [
      | inl k ↦ ground arith
      | inr (e, k) ↦ ground arith
    ]

abbrev pub is_done : Reply → Bool
is_done (done d) = true
is_done _ = false

refusal_is_error :
    (db : Table) (nit form : String) (year : ℕ) (s : Sources) {e : Reply}
    → f2516_refusal db nit form year s ≡ some e
    → is_done e ≡ false
unfolding f2516_refusal
refusal_is_error db nit form year s {e} g =
    elim (Option-cases (latest (filter (is_f2516_of nit year) db))) [
      | inl k ↦ ground arith
      | inr (x, k) ↦ ground arith
    ]

generate_allowed :
    (db : Table) (id nit form : String) (year now : ℕ) (s : Sources) {d : Draft}
    → (generate_declaration_draft db id nit form year now s).1 ≡ done d
    → f2516_refusal db nit form year s ≡ none
unfolding generate_declaration_draft
generate_allowed db id nit form year now s {d} e =
    elim (Option-cases (f2516_refusal db nit form year s)) [
      | inl k ↦ k
      | inr (x, k) ↦ let n = refusal_is_error db nit form year s k in ground arith
    ]

-- After any requests, a draft of F110 is generated only where the gross income of the year before is
-- known to be below 45,000 UVT, or where the last F2516 of the company and year is past the status
-- draft and has no field that waits for review.
pub generate_f110-conciliated :
    {db : Table} (id nit form : String) (year now : ℕ) (s : Sources) {d : Draft}
    → Reach db
    → str_eq form "F110" ≡ true
    → (generate_declaration_draft db id nit form year now s).1 ≡ done d
    → (below_threshold s.uvt s.prev_gross ≡ true)
      ⊎ ((e : Draft) × (latest (filter (is_f2516_of nit year) db) ≡ some e)
          × All (λ x. x.created_at ≤ e.created_at) (filter (is_f2516_of nit year) db)
          × (is_f2516_of nit year e ≡ true)
          × (is_draft e.status ≡ false)
          × (pending e.fields ≡ []))
generate_f110-conciliated {db} id nit form year now s {d} r f g =
    let rows = filter (is_f2516_of nit year) db in
    elim (refusal_none db nit form year s f (generate_allowed db id nit form year now s g)) [
      | inl b ↦ inl b
      | inr (e, l, o) ↦
          let k =
            latest-All (λ x. is_f2516_of nit year x ≡ true) rows
              (All-filter (is_f2516_of nit year) db) l in
          let c =
            latest-All IsCoherent rows
              (filter-All IsCoherent (is_f2516_of nit year) db (Reach-IsCoherent r)) l in
          inr (e, l, latest_is_last rows l, k, o, c.nothing_pending o)
    ]

generate_refused :
    (db : Table) (id nit form : String) (year now : ℕ) (s : Sources)
    → is_done (generate_declaration_draft db id nit form year now s).1 ≡ false
    → (generate_declaration_draft db id nit form year now s).0 ≡ db
unfolding generate_declaration_draft
generate_refused db id nit form year now s e = ground arith

update_field_refused :
    (db : Table) (id : String) (r : Renglon) (x : ℤ)
    → is_done (api_update_draft_field db id r x).1 ≡ false
    → (api_update_draft_field db id r x).0 ≡ db
unfolding api_update_draft_field update_draft_field
update_field_refused db id r x e = ground arith

review_refused :
    (db : Table) (id user : String) (now : ℕ)
    → is_done (api_review_draft db id user now).1 ≡ false
    → (api_review_draft db id user now).0 ≡ db
unfolding api_review_draft
review_refused db id user now e = ground arith

file_refused :
    (db : Table) (id user : String) (now : ℕ) (ack : Option String)
    → is_done (api_file_draft db id user now ack).1 ≡ false
    → (api_file_draft db id user now ack).0 ≡ db
unfolding api_file_draft
file_refused db id user now ack e = ground arith

reopen_refused :
    (db : Table) (id user : String) (now : ℕ) (reason : String)
    → is_done (api_reopen_draft db id user now reason).1 ≡ false
    → (api_reopen_draft db id user now reason).0 ≡ db
unfolding api_reopen_draft
reopen_refused db id user now reason e = ground arith

-- A request that is answered with an error leaves the table of drafts as it is.
pub handle_refused :
    (db : Table) (q : Request) → is_done (handle db q).1 ≡ false → (handle db q).0 ≡ db
unfolding handle
handle_refused db (generate id nit form year now s) e = generate_refused db id nit form year now s e
handle_refused db (update_field id r x) e = update_field_refused db id r x e
handle_refused db (review id user now) e = review_refused db id user now e
handle_refused db (file id user now ack) e = file_refused db id user now ack e
handle_refused db (reopen id user now reason) e = reopen_refused db id user now reason e
