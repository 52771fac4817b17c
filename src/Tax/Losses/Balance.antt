-- ===== src/Tax/Losses/Balance.antt =====
-- What stays true of the losses of a company, and what a compensation takes from them.
use mathlib.Core.Path.{subst}
use backend_pae_account_mult.Prelude.{
  ℕ, ◌≡◌, refl, ap, ◌∙◌, true, false, ◌&&◌, some, List, [], ◌∷◌, filter, All, ltb, leb, arith,
  if◌then◌else◌, Bool-cases, inl, inr,
}
use backend_pae_account_mult.Prelude.Int.{ℤ, pos, ◌+ℤ◌, ◌-ℤ◌, ◌≤ℤ◌, ltb_ℤ, int_laws}
use backend_pae_account_mult.Prelude.Texts.{String, str_eq}
use backend_pae_account_mult.Tax.Losses.{
  PerdidaFiscal, is_loss_of, find_perdida, set_perdida, insert_by_year, order_by_year,
  is_disponible, get_perdidas_disponibles, sum_pendiente, sum_perdidas_disponibles,
}

-- What is pending of a loss is the loss less what is compensated, and it is not negative.
pub record IsSound (p : PerdidaFiscal) : Type 0 where
  pub pending : p.monto_pendiente ≡ p.monto_perdida -ℤ p.monto_compensado
  pub within : pos 0 ≤ℤ p.monto_pendiente

-- What a row counts for in the sum of a company before a year.
abbrev pub counted : String → ℕ → PerdidaFiscal → ℤ
counted nit current p =
    if str_eq p.company_nit nit && ltb p.year current then p.monto_pendiente else pos 0

unfoldable pub sum_counted : String → ℕ → List PerdidaFiscal → ℤ
sum_counted nit current [] = pos 0
sum_counted nit current (p ∷ ps) = counted nit current p +ℤ sum_counted nit current ps

swap : (a b c : ℤ) → a +ℤ (b +ℤ c) ≡ b +ℤ (a +ℤ c)
swap a b c = omega int_laws

sum_pendiente-insert_by_year :
    (p : PerdidaFiscal) (ps : List PerdidaFiscal)
    → sum_pendiente (insert_by_year p ps) ≡ p.monto_pendiente +ℤ sum_pendiente ps
unfolding insert_by_year sum_pendiente
sum_pendiente-insert_by_year p [] = refl
sum_pendiente-insert_by_year p (q ∷ qs) = elim (Bool-cases (leb p.year q.year)) [
  | inl e ↦ rw e refl
  | inr e ↦ rw e (
      ap (λ x. q.monto_pendiente +ℤ x) (sum_pendiente-insert_by_year p qs)
      ∙ swap q.monto_pendiente p.monto_pendiente (sum_pendiente qs))
]

sum_pendiente-order_by_year :
    (ps : List PerdidaFiscal) → sum_pendiente (order_by_year ps) ≡ sum_pendiente ps
unfolding order_by_year sum_pendiente
sum_pendiente-order_by_year [] = refl
sum_pendiente-order_by_year (p ∷ ps) =
    sum_pendiente-insert_by_year p (order_by_year ps)
    ∙ ap (λ x. p.monto_pendiente +ℤ x) (sum_pendiente-order_by_year ps)

eq_zero : (x : ℤ) → pos 0 ≤ℤ x → ltb_ℤ (pos 0) x ≡ false → x ≡ pos 0
eq_zero x h e = ground arith

zero_add : (a : ℤ) → pos 0 +ℤ a ≡ a
zero_add a = omega int_laws

disponible-counted :
    (nit : String) (current : ℕ) (ps : List PerdidaFiscal)
    → All IsSound ps
    → sum_pendiente (filter (is_disponible nit current) ps) ≡ sum_counted nit current ps
unfolding sum_pendiente sum_counted
disponible-counted nit current [] h = refl
disponible-counted nit current (p ∷ ps) (s, h) =
    let ih = disponible-counted nit current ps h in
    elim (Bool-cases (str_eq p.company_nit nit && ltb p.year current)) [
      | inl e ↦ elim (Bool-cases (ltb_ℤ (pos 0) p.monto_pendiente)) [
        | inl k ↦ ground (arith, e, k, ih)
        | inr k ↦ ground (
          arith,
          e,
          k,
          ih,
          eq_zero p.monto_pendiente s.within k,
          zero_add (sum_counted nit current ps),
        )
      ]
      | inr e ↦ ground (arith, e, ih, zero_add (sum_counted nit current ps))
    ]

pub sum_perdidas-counted :
    (nit : String) (current : ℕ) (ps : List PerdidaFiscal)
    → All IsSound ps
    → sum_perdidas_disponibles ps nit current ≡ sum_counted nit current ps
unfolding sum_perdidas_disponibles get_perdidas_disponibles
sum_perdidas-counted nit current ps h =
    sum_pendiente-order_by_year (filter (is_disponible nit current) ps)
    ∙ disponible-counted nit current ps h

exchange : (a b rest : ℤ) → b +ℤ rest ≡ a +ℤ rest +ℤ (b -ℤ a)
exchange a b rest = omega int_laws

carry : (a x d : ℤ) → a +ℤ (x +ℤ d) ≡ a +ℤ x +ℤ d
carry a x d = omega int_laws

module _ (nit : String) (year : ℕ) where
  found_head :
      (q : PerdidaFiscal) (qs : List PerdidaFiscal) (p : PerdidaFiscal)
      → is_loss_of nit year q ≡ true
      → find_perdida (q ∷ qs) nit year ≡ some p
      → q ≡ p
  unfolding find_perdida
  found_head q qs p k e = ground arith

  found_tail :
      (q : PerdidaFiscal) (qs : List PerdidaFiscal) (p : PerdidaFiscal)
      → is_loss_of nit year q ≡ false
      → find_perdida (q ∷ qs) nit year ≡ some p
      → find_perdida qs nit year ≡ some p
  unfolding find_perdida
  found_tail q qs p k e = ground arith

  pub find_perdida-IsSound :
      (ps : List PerdidaFiscal) (p : PerdidaFiscal)
      → All IsSound ps
      → find_perdida ps nit year ≡ some p
      → IsSound p × (is_loss_of nit year p ≡ true)
  find_perdida-IsSound [] p h e = unfold find_perdida in cc
  find_perdida-IsSound (q ∷ qs) p (s, h) e = elim (Bool-cases (is_loss_of nit year q)) [
    | inl k ↦ subst (λ r. IsSound r × (is_loss_of nit year r ≡ true)) (found_head q qs p k e) (s, k)
    | inr k ↦ find_perdida-IsSound qs p h (found_tail q qs p k e)
  ]

  pub set_perdida-IsSound :
      (ps : List PerdidaFiscal) (p' : PerdidaFiscal)
      → All IsSound ps
      → IsSound p'
      → All IsSound (set_perdida ps nit year p')
  unfolding set_perdida
  set_perdida-IsSound [] p' h h' = tt
  set_perdida-IsSound (q ∷ qs) p' (s, h) h' = elim (Bool-cases (is_loss_of nit year q)) [
    | inl k ↦ rw k (h', h)
    | inr k ↦ rw k (s, set_perdida-IsSound qs p' h h')
  ]

  pub sum_counted-set_perdida :
      (nit0 : String) (current : ℕ) (ps : List PerdidaFiscal) (p p' : PerdidaFiscal)
      → find_perdida ps nit year ≡ some p
      → sum_counted nit0 current (set_perdida ps nit year p')
        ≡ sum_counted nit0 current ps +ℤ (counted nit0 current p' -ℤ counted nit0 current p)
  unfolding set_perdida sum_counted
  sum_counted-set_perdida nit0 current [] p p' e = unfold find_perdida in cc
  sum_counted-set_perdida nit0 current (q ∷ qs) p p' e = elim (Bool-cases (is_loss_of nit year q)) [
    | inl k ↦ rw k (
        subst
          (λ r.
            counted nit0 current p' +ℤ sum_counted nit0 current qs
            ≡ counted nit0 current q
              +ℤ sum_counted nit0 current qs
              +ℤ (counted nit0 current p' -ℤ counted nit0 current r))
          (found_head q qs p k e)
          (exchange (counted nit0 current q) (counted nit0 current p')
            (sum_counted nit0 current qs)))
    | inr k ↦ rw k (
        ap (λ x. counted nit0 current q +ℤ x)
          (sum_counted-set_perdida nit0 current qs p p' (found_tail q qs p k e))
        ∙ carry (counted nit0 current q) (sum_counted nit0 current qs)
            (counted nit0 current p' -ℤ counted nit0 current p))
  ]
