-- ===== src/Tax/Nit/CheckDigit.antt =====
-- The check digit of a NIT: the errors it detects.
use mathlib.Core.List.{reverse, reverse_aux, reverse_aux-eq}
use mathlib.Core.Path.{subst}
use backend_pae_account_mult.Prelude.{
  ℕ, ◌+◌, ◌*◌, ◌-◌, ◌%◌, ◌≤◌, ◌<◌, ◌≡◌, ◌⊎◌, refl, sym, ap, ◌∙◌, Bool, true, none, some, List, [],
  ◌∷◌, ◌++◌, All, all, length, is_empty, arith, inl, inr, if◌then◌else◌,
}
use backend_pae_account_mult.Tax.Nit.{
  is_digit, normalize_nit_dian, dv_weights, weighted, dv_of, nit_dv,
}

normalize_nit_dian-digits : (ds : List ℕ) → all is_digit ds ≡ true → normalize_nit_dian ds ≡ ds
unfolding normalize_nit_dian
normalize_nit_dian-digits [] h = refl
normalize_nit_dian-digits (d ∷ ds) h = ground (arith, normalize_nit_dian-digits ds)

-- A weight tells two digits apart modulo 11.
abbrev Detects : ℕ → Type 0
Detects w = (x y s : ℕ) → x ≤ 9 → y ≤ 9 → (x * w + s) % 11 ≡ (y * w + s) % 11 → x ≡ y

dv_weights-Detects : All Detects dv_weights
dv_weights-Detects = (
  λ x y s p q e. omega arith,
  (
    λ x y s p q e. omega arith,
    (
      λ x y s p q e. omega arith,
      (
        λ x y s p q e. omega arith,
        (
          λ x y s p q e. omega arith,
          (
            λ x y s p q e. omega arith,
            (
              λ x y s p q e. omega arith,
              (
                λ x y s p q e. omega arith,
                (
                  λ x y s p q e. omega arith,
                  (
                    λ x y s p q e. omega arith,
                    (
                      λ x y s p q e. omega arith,
                      (
                        λ x y s p q e. omega arith,
                        (
                          λ x y s p q e. omega arith,
                          (λ x y s p q e. omega arith, (λ x y s p q e. omega arith, tt)),
                        ),
                      ),
                    ),
                  ),
                ),
              ),
            ),
          ),
        ),
      ),
    ),
  ),
)

reverse_aux_split :
    (pre post : List ℕ) (a : ℕ) (r : List ℕ)
    → reverse_aux (pre ++ (a ∷ post)) r ≡ reverse_aux post (a ∷ reverse_aux pre r)
reverse_aux_split [] post a r = refl
reverse_aux_split (x ∷ pre) post a r = reverse_aux_split pre post a (x ∷ r)

length-reverse_aux : (l r : List ℕ) → length (reverse_aux l r) ≡ length l + length r
length-reverse_aux [] r = omega arith
length-reverse_aux (x ∷ l) r = length-reverse_aux l (x ∷ r) ∙ omega arith

-- Two lists that differ in one weighted digit have sums that differ modulo 11.
weighted-Detects :
    (ws xs ys : List ℕ) (a b s : ℕ)
    → All Detects ws
    → length xs < length ws
    → is_digit a ≡ true
    → is_digit b ≡ true
    → (weighted ws (xs ++ (a ∷ ys)) + s) % 11 ≡ (weighted ws (xs ++ (b ∷ ys)) + s) % 11
    → a ≡ b
unfolding weighted
weighted-Detects [] xs ys a b s h l p q e = omega arith
weighted-Detects (w ∷ ws) [] ys a b s h l p q e =
    let d =
      h.0 (a - b'0') (b - b'0') (weighted ws ys + s) (ground arith) (ground arith)
        (omega (arith, e)) in
    ground arith
weighted-Detects (w ∷ ws) (x ∷ xs) ys a b s h l p q e =
    weighted-Detects ws xs ys a b ((x - b'0') * w + s) h.1 (omega arith) p q (omega (arith, e))

reverse_split :
    (pre post : List ℕ) (a : ℕ) → reverse (pre ++ (a ∷ post)) ≡ reverse post ++ (a ∷ reverse pre)
reverse_split pre post a = reverse_aux_split pre post a [] ∙ reverse_aux-eq post (a ∷ reverse pre)

weighted_split :
    (pre post : List ℕ) (a b : ℕ)
    → length post < 15
    → is_digit a ≡ true
    → is_digit b ≡ true
    → weighted dv_weights (reverse (pre ++ (a ∷ post))) % 11
      ≡ weighted dv_weights (reverse (pre ++ (b ∷ post))) % 11
    → a ≡ b
weighted_split pre post a b l p q e =
    let f : List ℕ → ℕ = λ ds. weighted dv_weights ds % 11 in
    let h = sym (ap f (reverse_split pre post a)) ∙ e ∙ ap f (reverse_split pre post b) in
    weighted-Detects dv_weights (reverse post) (reverse pre) a b 0 dv_weights-Detects
      (omega (arith, length-reverse_aux post [])) p q (omega (arith, h))

dv_of_inj : (n m : ℕ) → n < 11 → m < 11 → dv_of n ≡ dv_of m → (n ≡ m) ⊎ (dv_of n ≡ 1)
dv_of_inj n m l k e = ground arith

some_of_else : (b : Bool) (x : ℕ) {v : ℕ} → (if b then none else some x) ≡ some v → x ≡ v
some_of_else b x {v} e = ground arith

digit_at : (pre post : List ℕ) (a : ℕ) → all is_digit (pre ++ (a ∷ post)) ≡ true → is_digit a ≡ true
digit_at [] post a h = ground arith
digit_at (x ∷ pre) post a h = ground (arith, digit_at pre post a)

nit_dv-digits :
    (ds : List ℕ) {v : ℕ}
    → all is_digit ds ≡ true
    → nit_dv ds ≡ some v
    → dv_of (weighted dv_weights (reverse ds) % 11) ≡ v
unfolding nit_dv
nit_dv-digits ds {v} h e =
    let dv : List ℕ → ℕ = λ x. dv_of (weighted dv_weights (reverse x) % 11) in
    some_of_else (is_empty ds) (dv ds) (
      subst (λ x. (if is_empty x then none else some (dv x)) ≡ some v)
        (normalize_nit_dian-digits ds h) e)

-- A wrong digit among the last fifteen of a NIT changes its check digit, unless that is 1.
pub nit_dv-detects :
    (pre post : List ℕ) (a b : ℕ) {v : ℕ}
    → length post < 15
    → all is_digit (pre ++ (a ∷ post)) ≡ true
    → all is_digit (pre ++ (b ∷ post)) ≡ true
    → nit_dv (pre ++ (a ∷ post)) ≡ some v
    → nit_dv (pre ++ (b ∷ post)) ≡ some v
    → (a ≡ b) ⊎ (v ≡ 1)
nit_dv-detects pre post a b {v} l p q e k =
    let x = nit_dv-digits (pre ++ (a ∷ post)) p e in
    let y = nit_dv-digits (pre ++ (b ∷ post)) q k in
    let n = weighted dv_weights (reverse (pre ++ (a ∷ post))) in
    let m = weighted dv_weights (reverse (pre ++ (b ∷ post))) in
    elim (dv_of_inj (n % 11) (m % 11) (omega arith) (omega arith) (x ∙ sym y)) [
      | inl h ↦
          inl (weighted_split pre post a b l (digit_at pre post a p) (digit_at pre post b q) h)
      | inr h ↦ inr (sym x ∙ h)
    ]
