-- ===== src/Tax/Catalog/Solved.antt =====
-- A draft solves the equations of its form.
use backend_pae_account_mult.Prelude.{
  ℕ, ◌≡◌, refl, sym, ◌∙◌, Bool, true, false, not, ◌&&◌, Option, none, some, List, [], ◌∷◌, map, any,
  All, ◌==◌, arith, inl, inr, Bool-cases, Option-cases,
}
use mathlib.Core.Path.{subst}
use backend_pae_account_mult.Prelude.Int.{ℤ}
use backend_pae_account_mult.Tax.Catalog.{
  Formula, Casilla, Computed, casilla, DraftField, Values, values_get, formula_of, field_of,
  is_header, draft_from, build_draft_from_catalog, is_renglon, value_in,
}

-- What a box asks, in front of what the boxes below it ask.
abbrev SolvedFrom : (ℕ → ℤ) → ℕ → Type 0 → Option Formula → Type 0
SolvedFrom get n below none = below
SolvedFrom get n below (some f) = (get n ≡ f get) × below

-- What the instructions of a form ask of its boxes: each subtotal is its formula.
abbrev pub IsSolved : List Casilla → (ℕ → ℤ) → Type 0
IsSolved [] get = Unit
IsSolved (c ∷ cs) get = SolvedFrom get c.numero (IsSolved cs get) (formula_of c)

-- Two getters that agree on the boxes seen give the formula the same value.
abbrev pub DependsOn : List ℕ → Formula → Type 0
DependsOn seen f = (v w : ℕ → ℤ) → All (λ n. v n ≡ w n) seen → f v ≡ f w

abbrev LocalFrom : List ℕ → Type 0 → Option Formula → Type 0
LocalFrom seen below none = below
LocalFrom seen below (some f) = DependsOn seen f × below

-- Each subtotal reads boxes above it only.
abbrev pub IsLocal : List ℕ → List Casilla → Type 0
IsLocal seen [] = Unit
IsLocal seen (c ∷ cs) = LocalFrom seen (IsLocal (c.numero ∷ seen) cs) (formula_of c)

-- No box is written twice, and the form has no headings among its boxes.
abbrev pub has_box : ℕ → List Casilla → Bool
has_box n cs = any (λ c. c.numero == n) cs

abbrev pub is_plain : List Casilla → Bool
is_plain [] = true
is_plain (c ∷ cs) = (not (is_header c) && not (has_box c.numero cs)) && is_plain cs

-- A getter that reads each field of a draft.
abbrev pub Reads : (ℕ → ℤ) → List DraftField → Type 0
Reads get [] = Unit
Reads get (f ∷ fs) = ((n : ℕ) → f.renglon ≡ casilla n → get n ≡ f.value) × Reads get fs

read_cons :
    (get : ℕ → ℤ) (values : Values) (n : ℕ) (x : ℤ) (m : ℕ)
    → get n ≡ x
    → values_get values m ≡ get m
    → values_get ((n, x) ∷ values) m ≡ get m
unfolding values_get
read_cons get values n x m e h = ground arith

read_self :
    (get : ℕ → ℤ) (values : Values) (n : ℕ) (x : ℤ)
    → get n ≡ x
    → values_get ((n, x) ∷ values) n ≡ get n
unfolding values_get
read_self get values n x e = ground arith

pub plain_head : (c : Casilla) (cs : List Casilla) → is_plain (c ∷ cs) ≡ true → is_header c ≡ false
plain_head c cs p = ground arith

pub plain_tail : (c : Casilla) (cs : List Casilla) → is_plain (c ∷ cs) ≡ true → is_plain cs ≡ true
plain_tail c cs p = ground arith

seen_cons :
    (get : ℕ → ℤ) (values : Values) (n : ℕ) (x : ℤ) (seen : List ℕ)
    → get n ≡ x
    → All (λ m. values_get values m ≡ get m) seen
    → All (λ m. values_get ((n, x) ∷ values) m ≡ get m) seen
unfolding values_get
seen_cons get values n x [] e h = tt
seen_cons get values n x (m ∷ seen) e h =
    (read_cons get values n x m e h.0, seen_cons get values n x seen e h.1)

pub field_of-renglon :
    (found : ℕ → Option Computed) (values : Values) (c : Casilla)
    → (field_of found values c).renglon ≡ casilla c.numero
unfolding field_of
field_of-renglon found values c = ground arith

field_of-formula :
    (found : ℕ → Option Computed) (values : Values) (c : Casilla) {f : Formula}
    → formula_of c ≡ some f
    → (field_of found values c).value ≡ f (values_get values)
unfolding field_of
field_of-formula found values c e = rw (e, field_of) refl

-- A getter that reads the draft solves the form, from any point of the loop on.
draft_from-IsSolved :
    (get : ℕ → ℤ) (found : ℕ → Option Computed) (values : Values) (seen : List ℕ)
    (cs : List Casilla)
    → is_plain cs ≡ true
    → IsLocal seen cs
    → All (λ m. values_get values m ≡ get m) seen
    → Reads get (draft_from found values cs)
    → IsSolved cs get
draft_from-IsSolved get found values seen [] p l h r = tt
draft_from-IsSolved get found values seen (c ∷ cs) p l h r =
    let value = (field_of found values c).value in
    let r' : Reads get
        (field_of found values c ∷ draft_from found ((c.numero, value) ∷ values) cs) =
      unfold draft_from in rw (plain_head c cs p) at r in
    let here : get c.numero ≡ value = r'.0 c.numero (field_of-renglon found values c) in
    let later : IsLocal (c.numero ∷ seen) cs → IsSolved cs get = λ l'.
      draft_from-IsSolved get found ((c.numero, value) ∷ values) (c.numero ∷ seen) cs
        (plain_tail c cs p) l'
        (read_self get values c.numero value here, seen_cons get values c.numero value seen here h)
        r'.1 in
    let solved = SolvedFrom get c.numero (IsSolved cs get) in
    let local_from = LocalFrom seen (IsLocal (c.numero ∷ seen) cs) in
    elim (Option-cases (formula_of c)) [
      | inl e ↦ subst solved (sym e) (later (subst local_from e l))
      | inr (f, e) ↦
          let (d, l') : DependsOn seen f × IsLocal (c.numero ∷ seen) cs = subst local_from e l in
          subst solved (sym e)
            (here ∙ field_of-formula found values c e ∙ d (values_get values) get h, later l')
    ]

read_later :
    (n : ℕ) (f : DraftField) (fs : List DraftField)
    → is_renglon n f.renglon ≡ false
    → value_in (f ∷ fs) n ≡ value_in fs n
unfolding value_in
read_later n f fs h = ground arith

-- The fields of a draft, in the order of the form.
draft_from-renglon :
    (found : ℕ → Option Computed) (values : Values) (cs : List Casilla)
    → is_plain cs ≡ true
    → map (λ (f : DraftField). f.renglon) (draft_from found values cs)
      ≡ map (λ (c : Casilla). casilla c.numero) cs
unfolding draft_from
draft_from-renglon found values [] p = refl
draft_from-renglon found values (c ∷ cs) p =
    let value = (field_of found values c).value in
    rw
      (
        plain_head c cs p,
        field_of-renglon found values c,
        draft_from-renglon found ((c.numero, value) ∷ values) cs (plain_tail c cs p),
      )
      refl

box_differs :
    (n : ℕ) (c : Casilla) (cs : List Casilla)
    → is_plain (c ∷ cs) ≡ true
    → has_box n cs ≡ true
    → (c.numero == n) ≡ false
box_differs n c cs p h = elim (Bool-cases (c.numero == n)) [
  | inr e ↦ e
  | inl e ↦ ground (arith, e, p, h)
]

own_box :
    (found : ℕ → Option Computed) (values : Values) (c : Casilla) (fs : List DraftField) (n : ℕ)
    → (field_of found values c).renglon ≡ casilla n
    → value_in (field_of found values c ∷ fs) n ≡ (field_of found values c).value
unfolding value_in
own_box found values c fs n e = rw e (ground arith)

-- A getter that agrees with a draft on its boxes reads the draft.
pub draft_from-Reads :
    (get : ℕ → ℤ) (found : ℕ → Option Computed) (values : Values) (cs : List Casilla)
    → is_plain cs ≡ true
    → ((n : ℕ) → has_box n cs ≡ true → get n ≡ value_in (draft_from found values cs) n)
    → Reads get (draft_from found values cs)
unfolding draft_from
draft_from-Reads get found values [] p h = tt
draft_from-Reads get found values (c ∷ cs) p h =
    let f = field_of found values c in
    let values' : Values = (c.numero, f.value) ∷ values in
    let fs = draft_from found values' cs in
    let r = field_of-renglon found values c in
    let h' : (n : ℕ) → has_box n (c ∷ cs) ≡ true → get n ≡ value_in (f ∷ fs) n =
      λ n b. rw (plain_head c cs p) at (h n b) in
    rw (plain_head c cs p) (
      λ n e. h' n (ground (arith, e, r)) ∙ own_box found values c fs n e,
      draft_from-Reads get found values' cs (plain_tail c cs p)
          (λ n b. h' n (ground (arith, b)) ∙ read_later n f fs (rw r (box_differs n c cs p b))),
    )

-- A form whose subtotals read boxes above them only, in which no box comes twice, is solved by its
-- draft, whatever values the builder found.
pub build_draft_from_catalog-IsSolved :
    (cs : List Casilla) (found : ℕ → Option Computed)
    → is_plain cs ≡ true
    → IsLocal [] cs
    → IsSolved cs (value_in (build_draft_from_catalog cs found))
unfolding build_draft_from_catalog
build_draft_from_catalog-IsSolved cs found p l =
    let ds = draft_from found [] cs in
    draft_from-IsSolved (value_in ds) found [] [] cs p l tt
      (draft_from-Reads (value_in ds) found [] cs p (λ n h. refl))

-- A draft has one field for each box of the form, in the order of the form.
pub build_draft_from_catalog-renglon :
    (cs : List Casilla) (found : ℕ → Option Computed)
    → is_plain cs ≡ true
    → map (λ (f : DraftField). f.renglon) (build_draft_from_catalog cs found)
      ≡ map (λ (c : Casilla). casilla c.numero) cs
unfolding build_draft_from_catalog
build_draft_from_catalog-renglon cs found p = draft_from-renglon found [] cs p
