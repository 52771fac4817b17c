-- ===== src/Tax/Nit/Normal.antt =====
-- What the normalization of nit_utils.py (app/services) gives.
use mathlib.Core.List.{reverse, reverse_aux, reverse-reverse}
use mathlib.Core.Path.{subst}
use backend_pae_account_mult.Prelude.{
  ℕ, ◌≡◌, ◌⊎◌, refl, ◌==◌, Bool, true, not, ◌&&◌, none, some, List, [], ◌∷◌, all, filter, is_empty,
  arith, inl, inr, if◌then◌else◌,
}
use backend_pae_account_mult.Prelude.Texts.{strip, lstrip, is_space}
use backend_pae_account_mult.Tax.Nit.{is_kept, without_marks, normalize_nit}

-- A character that the normalization keeps is no space and no dot.
abbrev is_clean : ℕ → Bool
is_clean c = not (is_space c) && not (c == b'.')

kept_clean : (c : ℕ) → is_kept c ≡ true → is_clean c ≡ true
kept_clean c h = ground arith

lstrip_clean : (s : List ℕ) → all is_kept s ≡ true → lstrip s ≡ s
lstrip_clean [] h = refl
lstrip_clean (c ∷ s) h = ground (arith, kept_clean c)

all-reverse_aux :
    (s r : List ℕ)
    → all is_kept s ≡ true
    → all is_kept r ≡ true
    → all is_kept (reverse_aux s r) ≡ true
all-reverse_aux [] r h k = k
all-reverse_aux (c ∷ s) r h k = all-reverse_aux s (c ∷ r) (ground arith) (ground arith)

filter-all : (p : ℕ → Bool) (s : List ℕ) → all p s ≡ true → filter p s ≡ s
filter-all p [] h = refl
filter-all p (c ∷ s) h = ground (arith, filter-all p s)

all-filter : (p : ℕ → Bool) (s : List ℕ) → all p (filter p s) ≡ true
all-filter p [] = refl
all-filter p (c ∷ s) = ground (arith, all-filter p s)

all_other :
    (p q : ℕ → Bool) (s : List ℕ)
    → ((c : ℕ) → p c ≡ true → q c ≡ true)
    → all p s ≡ true
    → all q s ≡ true
all_other p q [] f h = refl
all_other p q (c ∷ s) f h = ground (arith, f c, all_other p q s f)

strip_clean : (s : List ℕ) → all is_kept s ≡ true → strip s ≡ s
unfolding strip
strip_clean s h =
    rw (lstrip_clean s h, lstrip_clean (reverse s) (all-reverse_aux s [] h refl))
      (reverse-reverse s)

without_marks_clean : (s : List ℕ) → all is_kept s ≡ true → without_marks s ≡ s
unfolding without_marks
without_marks_clean s h =
    let a =
      filter-all (λ c. not (c == b' ')) s
        (all_other is_kept (λ c. not (c == b' ')) s (λ c k. ground arith) h) in
    let b =
      filter-all (λ c. not (c == b'.')) s
        (all_other is_kept (λ c. not (c == b'.')) s (λ c k. ground arith) h) in
    rw a b

kept_of_some : (b : Bool) (s : List ℕ) {t : List ℕ} → (if b then none else some s) ≡ some t → s ≡ t
kept_of_some b s {t} e = ground arith

-- What is normalized has letters, digits and hyphens only.
pub normalize_nit-kept : (s : List ℕ) {t : List ℕ} → normalize_nit s ≡ some t → all is_kept t ≡ true
unfolding normalize_nit
normalize_nit-kept s {t} e =
    let u = without_marks (strip s) in
    subst (λ x. all is_kept x ≡ true) (kept_of_some (is_empty u) (filter is_kept u) e)
      (all-filter is_kept u)

normalize_nit_clean :
    (t : List ℕ) → all is_kept t ≡ true → normalize_nit t ≡ (if is_empty t then none else some t)
unfolding normalize_nit
normalize_nit_clean t h = rw (strip_clean t h, without_marks_clean t h, filter-all is_kept t h) refl

kept_or_nothing :
    (t : List ℕ)
    → normalize_nit t ≡ (if is_empty t then none else some t)
    → (t ≡ []) ⊎ (normalize_nit t ≡ some t)
kept_or_nothing [] h = inl refl
kept_or_nothing (c ∷ t) h = inr h

-- Normalizing a normalized NIT changes nothing, unless nothing is left of it.
pub normalize_nit-idempotent :
    (s : List ℕ) {t : List ℕ} → normalize_nit s ≡ some t → (t ≡ []) ⊎ (normalize_nit t ≡ some t)
normalize_nit-idempotent s {t} e =
    kept_or_nothing t (normalize_nit_clean t (normalize_nit-kept s e))
