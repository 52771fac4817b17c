-- ===== src/Ledger/BankRepair/Consistency.antt =====
-- After the repair each row agrees with the saldo column, and a second repair finds nothing.
use backend_pae_account_mult.Prelude.{
  ℕ, ◌+◌, ◌≡◌, refl, ◌∙◌, Bool, true, false, not, ◌&&◌, Option, List, [], ◌∷◌, map, is_empty, arith,
  if◌then◌else◌,
}
use backend_pae_account_mult.Prelude.Int.{ℤ, ◌-ℤ◌, abs, -ℤ_parts}
use backend_pae_account_mult.Ledger.BankRepair.{
  BankMovement, Content, RepairLog, to_decimal, actual_delta, exceeds_row, is_shifted, next_saldo,
  expected_delta_of, with_delta, new_credito, new_debito, repair_row, repaired_movements, repairs,
  last_saldo, is_unreliable, repair_bank_movements,
}

-- Each row with a saldo is within the tolerance of the change that its saldo shows.
unfoldable pub is_consistent : ℤ → List BankMovement → Bool
is_consistent prev_saldo [] = true
is_consistent prev_saldo (m ∷ rest) =
    not (is_shifted prev_saldo m) && is_consistent (next_saldo prev_saldo m) rest

abbrev pub saldo_of : BankMovement → Option ℤ
saldo_of m = m.saldo

new-delta : (e : ℤ) → new_credito e -ℤ new_debito e ≡ e
unfolding abs
new-delta e = ground (arith, -ℤ_parts (new_credito e) (new_debito e))

exceeds_row-same : (e : ℤ) → exceeds_row e e ≡ false
unfolding exceeds_row abs
exceeds_row-same e = ground (arith, -ℤ_parts e e)

with_delta-fits :
    (p : ℤ) (m : BankMovement) → is_shifted p (with_delta m (expected_delta_of p m)) ≡ false
unfolding is_shifted actual_delta
with_delta-fits p m =
    let e = expected_delta_of p m in ground (arith, new-delta e, exceeds_row-same e)

repair_row-fits : (p : ℤ) (m : BankMovement) → is_shifted p (repair_row p m) ≡ false
unfolding repair_row
repair_row-fits p m = ground (arith, with_delta-fits p m)

repair_row-next : (p : ℤ) (m : BankMovement) → next_saldo p (repair_row p m) ≡ next_saldo p m
unfolding repair_row is_shifted next_saldo
repair_row-next p m = ground arith

repaired-is_consistent :
    (p : ℤ) (ms : List BankMovement) → is_consistent p (repaired_movements p ms) ≡ true
unfolding is_consistent repaired_movements
repaired-is_consistent p [] = refl
repaired-is_consistent p (m ∷ rest) =
    rw (repair_row-fits p m, repair_row-next p m) (repaired-is_consistent (next_saldo p m) rest)

repair_row-saldo : (p : ℤ) (m : BankMovement) → (repair_row p m).saldo ≡ m.saldo
unfolding repair_row
repair_row-saldo p m = ground arith

repaired-saldo :
    (p : ℤ) (ms : List BankMovement) → map saldo_of (repaired_movements p ms) ≡ map saldo_of ms
unfolding repaired_movements
repaired-saldo p [] = refl
repaired-saldo p (m ∷ rest) = rw (repair_row-saldo p m, repaired-saldo (next_saldo p m) rest) refl

repaired-last :
    (p : ℤ) (ms : List BankMovement) → last_saldo p (repaired_movements p ms) ≡ last_saldo p ms
unfolding repaired_movements last_saldo
repaired-last p [] = refl
repaired-last p (m ∷ rest) =
    ground (arith, repair_row-next p m, repaired-last (next_saldo p m) rest)

-- Consistent rows have no repairs, and rows with no repairs are consistent.
repairs-is_empty :
    (n : ℕ) (p : ℤ) (ms : List BankMovement) → is_empty (repairs n p ms) ≡ is_consistent p ms
unfolding repairs is_consistent
repairs-is_empty n p [] = refl
repairs-is_empty n p (m ∷ rest) = ground (arith, repairs-is_empty (n + 1) (next_saldo p m) rest)

consistent_same :
    (p : ℤ) (ms : List BankMovement) → is_consistent p ms ≡ true → repaired_movements p ms ≡ ms
unfolding is_consistent repaired_movements repair_row
consistent_same p [] h = refl
consistent_same p (m ∷ rest) h = ground (arith, consistent_same (next_saldo p m) rest)

repaired-no_repairs :
    (n : ℕ) (p : ℤ) (ms : List BankMovement)
    → is_empty (repairs n p (repaired_movements p ms)) ≡ true
repaired-no_repairs n p ms =
    repairs-is_empty n p (repaired_movements p ms) ∙ repaired-is_consistent p ms

empty_logs : (ls : List RepairLog) → is_empty ls ≡ true → ls ≡ []
empty_logs [] h = refl
empty_logs (l ∷ ls) h = cc

-- Where the saldo column is trusted, each movement with a saldo agrees with the running balance within
-- a peso after the repair, no row is lost, and the saldo column stays as it was.
pub repair_bank_movements-is_consistent :
    (c : Content)
    → is_unreliable c ≡ false
    → (is_consistent (to_decimal c.saldo_inicial) (repair_bank_movements c).0.movements ≡ true)
      × (map saldo_of (repair_bank_movements c).0.movements ≡ map saldo_of c.movements)
unfolding repair_bank_movements is_consistent
repair_bank_movements-is_consistent c h =
    let p = to_decimal c.saldo_inicial in
    ground (
      arith,
      repaired-is_consistent p c.movements,
      repaired-saldo p c.movements,
      repairs-is_empty 0 p c.movements,
    )

repaired-is_unreliable :
    (c : Content)
    → is_unreliable
        (record c { movements = repaired_movements (to_decimal c.saldo_inicial) c.movements })
      ≡ is_unreliable c
unfolding is_unreliable
repaired-is_unreliable c = rw (repaired-last (to_decimal c.saldo_inicial) c.movements) refl

-- A second repair changes nothing: it logs nothing where the saldo column is trusted, and where it is
-- not, what the first one logged once more.
pub repair_bank_movements-idempotent :
    (c : Content)
    → repair_bank_movements (repair_bank_movements c).0
      ≡ ((repair_bank_movements c).0, if is_unreliable c then (repair_bank_movements c).1 else [])
unfolding repair_bank_movements
repair_bank_movements-idempotent c =
    let p = to_decimal c.saldo_inicial in
    let ms = repaired_movements p c.movements in
    ground (
      arith,
      repaired-is_unreliable c,
      repaired-no_repairs 0 p c.movements,
      empty_logs (repairs 0 p ms),
      empty_logs (repairs 0 p c.movements),
    )
