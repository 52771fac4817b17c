-- ===== src/Tax/Drafts/Fields.antt =====
-- Rows of the table of drafts, and fields of a draft, after an edit.
use mathlib.Core.Path.{subst}
use text.Mathlib.TextEquality.{eq_iff}
use backend_pae_account_mult.Prelude.{
  ◌≡◌, refl, sym, ap, Bool, true, false, not, ◌&&◌, some, List, [], ◌∷◌, any, All, arith, ==_iff,
  inl, inr, Bool-cases,
}
use backend_pae_account_mult.Prelude.Int.{ℤ}
use backend_pae_account_mult.Prelude.Texts.{String, str_eq}
use backend_pae_account_mult.Tax.Catalog.{Renglon, casilla, named, disclaimer, DraftField}
use backend_pae_account_mult.Tax.Drafts.{
  Draft, Table, get_draft, set_draft, is_same, find_field, update_fields, edited, pending,
}

pub get_draft-All {ℓ} :
    (P : Draft → Type ℓ) (db : Table) (id : String) {d : Draft}
    → All P db
    → get_draft db id ≡ some d
    → P d
unfolding get_draft
get_draft-All P [] id {d} h e = ground arith
get_draft-All P (x ∷ db) id {d} h e = ground (arith, get_draft-All P db id {d = d} h.1)

pub set_draft-All {ℓ} :
    (P : Draft → Type ℓ) (db : Table) (id : String) (d : Draft)
    → All P db
    → P d
    → All P (set_draft db id d)
unfolding set_draft
set_draft-All P [] id d h p = tt
set_draft-All P (x ∷ db) id d h p = ground (arith, set_draft-All P db id d h.1 p)

-- The row that was found can be read back, and is the row that was written.
pub get_draft-set_draft :
    (db : Table) (id : String) (d : Draft) {x : Draft}
    → str_eq d.id id ≡ true
    → get_draft db id ≡ some x
    → get_draft (set_draft db id d) id ≡ some d
unfolding get_draft set_draft
get_draft-set_draft [] id d {x} i e = ground arith
get_draft-set_draft (y ∷ db) id d {x} i e = ground (arith, get_draft-set_draft db id d {x = x} i)

pub get_draft-id :
    (db : Table) (id : String) {x : Draft} → get_draft db id ≡ some x → str_eq x.id id ≡ true
unfolding get_draft
get_draft-id [] id {x} e = ground arith
get_draft-id (y ∷ db) id {x} e = ground (arith, get_draft-id db id {x = x})

-- Writing a row twice is writing it once.
pub set_draft-set_draft :
    (db : Table) (id : String) (d e : Draft)
    → str_eq d.id id ≡ true
    → set_draft (set_draft db id d) id e ≡ set_draft db id e
unfolding set_draft
set_draft-set_draft [] id d e i = refl
set_draft-set_draft (x ∷ db) id d e i = ground (arith, set_draft-set_draft db id d e i)

-- `is_same` decides equality.
pub is_same_eq : (a b : Renglon) → is_same a b ≡ true → a ≡ b
is_same_eq (casilla n) (casilla m) e = ap casilla ((==_iff n m).0 e)
is_same_eq (named s) (named t) e = ap named ((eq_iff s t).0 e)
is_same_eq disclaimer disclaimer e = refl
is_same_eq (casilla n) (named s) e = ground arith
is_same_eq (casilla n) disclaimer e = ground arith
is_same_eq (named s) (casilla n) e = ground arith
is_same_eq (named s) disclaimer e = ground arith
is_same_eq disclaimer (casilla n) e = ground arith
is_same_eq disclaimer (named s) e = ground arith

pub is_same_refl : (a : Renglon) → is_same a a ≡ true
is_same_refl (casilla n) = (==_iff n n).1 refl
is_same_refl (named s) = (eq_iff s s).1 refl
is_same_refl disclaimer = refl

is_same_sym : (a b : Renglon) → is_same a b ≡ true → is_same b a ≡ true
is_same_sym a b e = subst (λ c. is_same c a ≡ true) (is_same_eq a b e) (is_same_refl a)

-- What an edit of one renglon does to the field that a renglon names.
pub find-update_fields :
    (fs : List DraftField) (r : Renglon) (x : ℤ) {f : DraftField}
    → find_field fs r ≡ some f
    → find_field (update_fields fs r x) r ≡ some (edited x f)
unfolding find_field update_fields
find-update_fields [] r x {f} e = ground arith
find-update_fields (g ∷ fs) r x {f} e = ground (arith, find-update_fields fs r x {f = f})

pub find-update_fields-other :
    (fs : List DraftField) (r r' : Renglon) (x : ℤ)
    → is_same r r' ≡ false
    → find_field (update_fields fs r x) r' ≡ find_field fs r'
unfolding find_field update_fields
find-update_fields-other [] r r' x e = refl
find-update_fields-other (g ∷ fs) r r' x e = elim (Bool-cases (is_same g.renglon r)) [
  | inl k ↦
      let q = is_same_eq g.renglon r k in
      let n = subst (λ c. is_same c r' ≡ false) (sym q) e in
      ground (arith, find-update_fields-other fs r r' x e)
  | inr k ↦ ground (arith, find-update_fields-other fs r r' x e)
]

-- No two fields of a draft have one renglon.
abbrev pub has_renglon : Renglon → List DraftField → Bool
has_renglon r fs = any (λ f. is_same f.renglon r) fs

unfoldable pub distinct : List DraftField → Bool
distinct [] = true
distinct (f ∷ fs) = not (has_renglon f.renglon fs) && distinct fs

update_fields_absent :
    (fs : List DraftField) (r : Renglon) (x : ℤ)
    → has_renglon r fs ≡ false
    → update_fields fs r x ≡ fs
unfolding update_fields
update_fields_absent [] r x e = refl
update_fields_absent (g ∷ fs) r x e = ground (arith, update_fields_absent fs r x)

has_renglon-update_fields :
    (fs : List DraftField) (r r' : Renglon) (x : ℤ)
    → has_renglon r' (update_fields fs r x) ≡ has_renglon r' fs
unfolding update_fields
has_renglon-update_fields [] r r' x = refl
has_renglon-update_fields (g ∷ fs) r r' x = ground (arith, has_renglon-update_fields fs r r' x)

pub distinct-update_fields :
    (fs : List DraftField) (r : Renglon) (x : ℤ) → distinct (update_fields fs r x) ≡ distinct fs
unfolding distinct update_fields
distinct-update_fields [] r x = refl
distinct-update_fields (g ∷ fs) r x =
    ground (arith, has_renglon-update_fields fs r g.renglon x, distinct-update_fields fs r x)

find_field-has_renglon :
    (fs : List DraftField) (r : Renglon) {f : DraftField}
    → find_field fs r ≡ some f
    → has_renglon r fs ≡ true
unfolding find_field
find_field-has_renglon [] r {f} e = ground arith
find_field-has_renglon (g ∷ fs) r {f} e = ground (arith, find_field-has_renglon fs r {f = f})

-- The first field that waits is the one its renglon names, and editing it leaves the others waiting.
pub record IsFirst (fs : List DraftField) (f : DraftField) (gs : List DraftField) : Type 0 where
  pub found : find_field fs f.renglon ≡ some f
  pub waits : f.requires_review ≡ true
  pub left : pending (update_fields fs f.renglon f.value) ≡ gs

IsFirst-here :
    (g : DraftField) (fs : List DraftField)
    → distinct (g ∷ fs) ≡ true
    → g.requires_review ≡ true
    → IsFirst (g ∷ fs) g (pending fs)
unfolding distinct find_field update_fields
IsFirst-here g fs u w = record {
  found = ground (arith, is_same_refl g.renglon);
  waits = w;
  left = ground (arith, is_same_refl g.renglon, update_fields_absent fs g.renglon g.value);
}

-- A field further down has another renglon.
renglon_below :
    (g : DraftField) (fs : List DraftField) {f : DraftField}
    → distinct (g ∷ fs) ≡ true
    → find_field fs f.renglon ≡ some f
    → is_same g.renglon f.renglon ≡ false
unfolding distinct
renglon_below g fs {f} u e = elim (Bool-cases (is_same g.renglon f.renglon)) [
  | inl k ↦
      let q = is_same_eq g.renglon f.renglon k in
      let h = find_field-has_renglon fs f.renglon e in
      let h' = subst (λ c. has_renglon c fs ≡ true) (sym q) h in ground arith
  | inr k ↦ k
]

IsFirst-below :
    (g : DraftField) (fs : List DraftField) {f : DraftField} {gs : List DraftField}
    → distinct (g ∷ fs) ≡ true
    → g.requires_review ≡ false
    → IsFirst fs f gs
    → IsFirst (g ∷ fs) f gs
unfolding find_field update_fields
IsFirst-below g fs {f} {gs} u w i =
    let n = renglon_below g fs {f = f} u i.found in
    let e = i.found in
    let l = i.left in record { found = ground arith; waits = i.waits; left = ground arith }

pub IsFirst-pending :
    (fs : List DraftField) {f : DraftField} {gs : List DraftField}
    → distinct fs ≡ true
    → pending fs ≡ f ∷ gs
    → IsFirst fs f gs
unfolding distinct
IsFirst-pending [] {f} {gs} u p = ground arith
IsFirst-pending (g ∷ fs) {f} {gs} u p = elim (Bool-cases g.requires_review) [
  | inl w ↦
      let k : (g ≡ f) × (pending fs ≡ gs) = ground arith in
      let i = subst (λ x. IsFirst (g ∷ fs) x (pending fs)) k.0 (IsFirst-here g fs u w) in
      subst (IsFirst (g ∷ fs) f) k.1 i
  | inr w ↦ IsFirst-below g fs u w (IsFirst-pending fs (ground arith) (ground arith))
]
