-- ===== src/Books/Trend/Cutoff.antt =====
-- The cutoff of the trends: the loop over the turns of the year ends, at the right month.
use backend_pae_account_mult.Prelude.{
  ℕ, zero, suc, ◌+◌, ◌*◌, ◌≤◌, ◌<◌, ◌≡◌, refl, ◌∙◌, true, false, some, arith, Bool-cases, inl, inr,
}
use backend_pae_account_mult.Prelude.Int.{
  ℤ, pos, pos_part, neg_part, ◌+ℤ◌, ◌-ℤ◌, ◌*ℤ◌, ◌≤ℤ◌, ◌<ℤ◌, leb_ℤ, int_laws,
}
use backend_pae_account_mult.Books.Trend.{roll_back, cutoff_of}

-- The months from the year zero to a month of a year.
unfoldable pub months_to : ℤ → ℤ → ℤ
months_to year month = pos 12 *ℤ year +ℤ month

twelve_parts :
    (y : ℤ) → pos_part (pos 12 *ℤ y) + 12 * neg_part y ≡ neg_part (pos 12 *ℤ y) + 12 * pos_part y
unfolding ◌*ℤ◌
twelve_parts y = ground arith

one_round : (y m : ℤ) → months_to (y -ℤ pos 1) (m +ℤ pos 12) ≡ months_to y m
unfolding months_to
one_round y m = omega (int_laws, twelve_parts)

leb_ℤ-true : (a b : ℤ) → leb_ℤ a b ≡ true → a ≤ℤ b
leb_ℤ-true a b e = ground arith

leb_ℤ-false : (a b : ℤ) → leb_ℤ a b ≡ false → b <ℤ a
leb_ℤ-false a b e = ground arith

-- A month of the year that is as far from the year zero.
abbrev IsMonth : ℤ → ℤ → ℤ → Type 0
IsMonth total y m = (pos 1 ≤ℤ m) × (m ≤ℤ pos 12) × (months_to y m ≡ total)

roll_back-IsMonth :
    (fuel : ℕ) (year month : ℤ)
    → month ≤ℤ pos 12
    → pos 1 <ℤ month +ℤ pos fuel
    → 0 < fuel
    → (y : ℤ) × (m : ℤ) × (roll_back fuel year month ≡ some (y, m))
      × IsMonth (months_to year month) y m
unfolding roll_back
roll_back-IsMonth zero year month h f p = absurd (omega arith)
roll_back-IsMonth (suc fuel) year month h f p = elim (Bool-cases (leb_ℤ month (pos 0))) [
  | inl e ↦
      let low = leb_ℤ-true month (pos 0) e in
      let (y, m, q, (a, b, c)) =
        roll_back-IsMonth fuel (year -ℤ pos 1) (month +ℤ pos 12) (omega (int_laws, low))
          (omega (int_laws, low)) (omega (int_laws, low)) in
      (y, m, rw e q, (a, b, c ∙ one_round year month))
  | inr e ↦
      let high = leb_ℤ-false month (pos 0) e in
      (year, month, rw e refl, (omega (int_laws, high), h, refl))
]

back : (y m k : ℤ) → months_to y (m -ℤ k) ≡ months_to y m -ℤ k
unfolding months_to
back y m k = omega int_laws

-- The loop for the cutoff always ends, and gives a month from 1 to 12 of a year that lies exactly as
-- many months before the given month as are asked for.
pub cutoff_of-IsMonth :
    (year month months : ℕ)
    → 1 ≤ month
    → month ≤ 12
    → (y : ℤ) × (m : ℤ) × (cutoff_of year month months ≡ some (y, m))
      × ((pos 1 ≤ℤ m)
          × (m ≤ℤ pos 12)
          × (months_to y m ≡ months_to (pos year) (pos month) -ℤ pos months))
unfolding cutoff_of
cutoff_of-IsMonth year month months low high =
    let (y, m, q, (a, b, c)) =
      roll_back-IsMonth (suc months) (pos year) (pos month -ℤ pos months) (omega int_laws)
        (omega int_laws) (omega arith) in
    (y, m, q, (a, b, c ∙ back (pos year) (pos month) (pos months)))
