-- ===== src/Ledger/BankRepair.antt =====
-- app/services/bank_statement_repair.py. An amount is a whole number of centavos, missing where the
-- key is missing or empty; a text that is no number, at which `_to_decimal` raises, is left out.
pub mod Consistency
use backend_pae_account_mult.Prelude.{
  ℕ, ◌+◌, Bool, true, false, not, ◌&&◌, Option, none, some, List, [], ◌∷◌, ◌++◌, is_empty,
  if◌then◌else◌,
}
use backend_pae_account_mult.Prelude.Int.{ℤ, pos, ◌+ℤ◌, ◌-ℤ◌, abs, ltb_ℤ, eqb_ℤ}
use backend_pae_account_mult.Prelude.Texts.{String}

abbrev pub tolerance_row : ℤ
tolerance_row = pos 100

abbrev pub tolerance_final : ℤ
tolerance_final = pos 1000

pub record BankMovement : Type 0 where
  pub fecha : String
  pub descripcion : String
  pub credito : Option ℤ
  pub debito : Option ℤ
  pub saldo : Option ℤ

pub record Content : Type 0 where
  pub movements : List BankMovement
  pub saldo_inicial : Option ℤ
  pub saldo_final : Option ℤ

-- `_to_decimal`.
abbrev pub to_decimal : Option ℤ → ℤ
to_decimal none = pos 0
to_decimal (some v) = v

unfoldable pub actual_delta : BankMovement → ℤ
actual_delta m = to_decimal m.credito -ℤ to_decimal m.debito

-- `discrepancy > TOLERANCE_ROW`, for a row with a saldo.
unfoldable pub exceeds_row : ℤ → ℤ → Bool
exceeds_row expected_delta actual = ltb_ℤ tolerance_row (abs (expected_delta -ℤ actual))

unfoldable pub is_shifted : ℤ → BankMovement → Bool
is_shifted prev_saldo m = elim m.saldo [
  | none ↦ false
  | some saldo ↦ exceeds_row (saldo -ℤ prev_saldo) (actual_delta m)
]

-- `prev_saldo` after the row.
unfoldable pub next_saldo : ℤ → BankMovement → ℤ
next_saldo prev_saldo m = elim m.saldo [ none ↦ prev_saldo +ℤ actual_delta m | some saldo ↦ saldo ]

abbrev pub new_credito : ℤ → ℤ
new_credito expected_delta = if ltb_ℤ (pos 0) expected_delta then expected_delta else pos 0

abbrev pub new_debito : ℤ → ℤ
new_debito expected_delta = if ltb_ℤ expected_delta (pos 0) then abs expected_delta else pos 0

-- What the saldo column says of a row.
abbrev pub expected_delta_of : ℤ → BankMovement → ℤ
expected_delta_of prev_saldo m = to_decimal m.saldo -ℤ prev_saldo

abbrev pub with_delta : BankMovement → ℤ → BankMovement
with_delta m expected_delta = record m {
  credito = some (new_credito expected_delta);
  debito = some (new_debito expected_delta);
}

-- `mov_copy` at the end of the loop's body.
unfoldable pub repair_row : ℤ → BankMovement → BankMovement
repair_row prev_saldo m =
    if is_shifted prev_saldo m then with_delta m (expected_delta_of prev_saldo m) else m

pub record Repair : Type 0 where
  pub row : ℕ
  pub movement : BankMovement
  pub expected_delta : ℤ

pub data RepairLog : Type 0 where
  repaired : Repair → RepairLog
  saldo_column_unreliable : ℤ → ℤ → RepairLog

-- The loop: the movements it collects, the repairs, and the last `prev_saldo`.
unfoldable pub repaired_movements : ℤ → List BankMovement → List BankMovement
repaired_movements prev_saldo [] = []
repaired_movements prev_saldo (m ∷ rest) =
    repair_row prev_saldo m ∷ repaired_movements (next_saldo prev_saldo m) rest

unfoldable pub repairs : ℕ → ℤ → List BankMovement → List RepairLog
repairs index prev_saldo [] = []
repairs index prev_saldo (m ∷ rest) =
    (if is_shifted prev_saldo m
      then repaired
          (record { row = index; movement = m; expected_delta = expected_delta_of prev_saldo m })
        ∷ []
      else [])
    ++ repairs (index + 1) (next_saldo prev_saldo m) rest

unfoldable pub last_saldo : ℤ → List BankMovement → ℤ
last_saldo prev_saldo [] = prev_saldo
last_saldo prev_saldo (m ∷ rest) = last_saldo (next_saldo prev_saldo m) rest

-- The check of the declared final saldo, which a saldo of zero at either end switches off.
unfoldable pub is_unreliable : Content → Bool
is_unreliable c =
    let first = to_decimal c.saldo_inicial in
    let declared = to_decimal c.saldo_final in
    not (eqb_ℤ first (pos 0))
    && (not (eqb_ℤ declared (pos 0))
        && ltb_ℤ tolerance_final (abs (last_saldo first c.movements -ℤ declared)))

unfoldable pub repair_bank_movements : Content → Content × List RepairLog
repair_bank_movements c =
    let first = to_decimal c.saldo_inicial in
    let logs = repairs 0 first c.movements in
    if is_empty c.movements
    then (c, [])
    else if is_unreliable c
    then (c, saldo_column_unreliable (last_saldo first c.movements) (to_decimal c.saldo_final) ∷ [])
    else if is_empty logs
    then (c, logs)
    else (record c { movements = repaired_movements first c.movements }, logs)
