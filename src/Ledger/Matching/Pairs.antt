-- ===== src/Ledger/Matching/Pairs.antt =====
-- What the transactions of a batch are given: all lines, or lines that no other one shares.
use backend_pae_account_mult.Prelude.{
  ◌≡◌, refl, ap, ◌⊎◌, ℕ, Bool, true, false, some, List, [], ◌∷◌, any, all, All, ◌==◌, ==_iff, inl,
  inr, Bool-cases, Option-cases, arith,
}
use backend_pae_account_mult.Prelude.Int.{ℤ}
use backend_pae_account_mult.Pipeline.State.{Movement}
use backend_pae_account_mult.Ledger.Matching.{
  Line, is_used, is_candidate, first_near, asientos_for_tx, asientos_for_batch,
}

eq_refl : (n : ℕ) → (n == n) ≡ true
eq_refl n = ground arith

first_near-candidate :
    (m : Movement) (t : ℤ) (used : List ℕ) (ls : List Line) {a : Line}
    → first_near m t used ls ≡ some a
    → is_candidate m t used a ≡ true
unfolding first_near
first_near-candidate m t used [] h = cc
first_near-candidate m t used (l ∷ ls) {a} h = elim (Bool-cases (is_candidate m t used l)) [
  | inl e ↦ ground (arith, h, e)
  | inr e ↦ first_near-candidate m t used ls {a = a} (rw e at h)
]

-- A transaction is given all lines, or lines that no earlier transaction of the batch has used up and
-- that no later one can be given as a match.
asientos_for_tx-fresh :
    (t : ℤ) (ls : List Line) (used : List ℕ)
    → ((asientos_for_tx t ls used).0 ≡ ls)
      ⊎ ((any (is_used used) (asientos_for_tx t ls used).0 ≡ false)
          × (all (is_used (asientos_for_tx t ls used).1) (asientos_for_tx t ls used).0 ≡ true))
unfolding asientos_for_tx
asientos_for_tx-fresh t ls used = elim (Option-cases (first_near Movement.debito t used ls)) [
  | inl n ↦ inl (ground (arith, n))
  | inr (a, d) ↦ elim (Option-cases (first_near Movement.credito t (a.id ∷ used) ls)) [
    | inl n ↦ inl (ground (arith, d, n))
    | inr (b, e) ↦ inr (
        ground (
          arith,
          d,
          e,
          first_near-candidate Movement.debito t used ls {a = a} d,
          first_near-candidate Movement.credito t (a.id ∷ used) ls {a = b} e,
          eq_refl a.id,
          eq_refl b.id,
        ))
  ]
]

-- Lines used before are used later.
Keeps : List ℕ → List ℕ → Type 0
Keeps used used' = (a : Line) → is_used used a ≡ true → is_used used' a ≡ true

asientos_for_tx-Keeps :
    (t : ℤ) (ls : List Line) (used : List ℕ) → Keeps used (asientos_for_tx t ls used).1
unfolding asientos_for_tx Keeps
asientos_for_tx-Keeps t ls used l h = elim (Option-cases (first_near Movement.debito t used ls)) [
  | inl n ↦ ground (arith, n, h)
  | inr (a, d) ↦ elim (Option-cases (first_near Movement.credito t (a.id ∷ used) ls)) [
    | inl n ↦ ground (arith, d, n, h)
    | inr (b, e) ↦ ground (arith, d, e, h)
  ]
]

Keeps-fresh :
    (used used' : List ℕ) (g : List Line)
    → Keeps used used'
    → any (is_used used') g ≡ false
    → any (is_used used) g ≡ false
unfolding Keeps
Keeps-fresh used used' [] k h = refl
Keeps-fresh used used' (a ∷ g) k h = ground (arith, k a, Keeps-fresh used used' g k, h)

-- All lines, or lines not used.
abbrev IsFresh : List Line → List ℕ → List Line → Type 0
IsFresh ls used g = (g ≡ ls) ⊎ (any (is_used used) g ≡ false)

asientos_for_batch-IsFresh :
    (ts : List ℤ) (ls : List Line) (used used' : List ℕ)
    → Keeps used used'
    → All (IsFresh ls used) (asientos_for_batch ts ls used')
unfolding asientos_for_batch Keeps
asientos_for_batch-IsFresh [] ls used used' k = tt
asientos_for_batch-IsFresh (t ∷ ts) ls used used' k = (
  elim (asientos_for_tx-fresh t ls used') [
    | inl same ↦ inl same
    | inr (fresh, _) ↦ inr (Keeps-fresh used used' (asientos_for_tx t ls used').0 k fresh)
  ],
  asientos_for_batch-IsFresh ts ls used (asientos_for_tx t ls used').1
      (λ a h. asientos_for_tx-Keeps t ls used' a (k a h)),
)

-- Whether two lists have a line in common.
abbrev pub shares : List Line → List Line → Bool
shares g g' = any (λ a. any (λ b. a.id == b.id) g') g

no_match :
    (used : List ℕ) (a : Line) (g' : List Line)
    → is_used used a ≡ true
    → any (is_used used) g' ≡ false
    → any (λ b. a.id == b.id) g' ≡ false
no_match used a [] u h = refl
no_match used a (b ∷ g') u h = elim (Bool-cases (a.id == b.id)) [
  | inl e ↦
      let same = ap (λ n. any (λ i. i == n) used) ((==_iff a.id b.id).0 e) in
      ground (arith, same, u, h)
  | inr e ↦ rw e (no_match used a g' u (ground arith))
]

used-shares :
    (used : List ℕ) (g g' : List Line)
    → all (is_used used) g ≡ true
    → any (is_used used) g' ≡ false
    → shares g g' ≡ false
used-shares used [] g' u h = refl
used-shares used (a ∷ g) g' u h =
    ground (arith, no_match used a g' (ground arith) h, used-shares used g g' (ground arith) h)

-- Any two lists of a batch have no line in common, but for those that are all lines.
abbrev pub IsApart : List Line → List (List Line) → Type 0
IsApart ls [] = Unit
IsApart ls (g ∷ gs) = ((g ≡ ls) ⊎ All (λ g'. (g' ≡ ls) ⊎ (shares g g' ≡ false)) gs) × IsApart ls gs

fresh-shares :
    (ls g : List Line) (used : List ℕ) (gs : List (List Line))
    → all (is_used used) g ≡ true
    → All (IsFresh ls used) gs
    → All (λ g'. (g' ≡ ls) ⊎ (shares g g' ≡ false)) gs
fresh-shares ls g used [] u h = tt
fresh-shares ls g used (g' ∷ gs) u (inl same, h) = (inl same, fresh-shares ls g used gs u h)
fresh-shares ls g used (g' ∷ gs) u (inr fresh, h) =
    (inr (used-shares used g g' u fresh), fresh-shares ls g used gs u h)

-- However many transactions a batch has, two of them share no line, unless one of the two is given
-- all lines, as a transaction is whose total no debit and credit match.
pub asientos_for_batch-IsApart :
    (ts : List ℤ) (ls : List Line) (used : List ℕ) → IsApart ls (asientos_for_batch ts ls used)
unfolding asientos_for_batch Keeps
asientos_for_batch-IsApart [] ls used = tt
asientos_for_batch-IsApart (t ∷ ts) ls used =
    let (g, used') = asientos_for_tx t ls used in
    (
      elim (asientos_for_tx-fresh t ls used) [
        | inl same ↦ inl same
        | inr (_, taken) ↦ inr (
            fresh-shares ls g used' (asientos_for_batch ts ls used') taken
              (asientos_for_batch-IsFresh ts ls used' used' (λ a h. h)))
      ],
      asientos_for_batch-IsApart ts ls used',
    )
