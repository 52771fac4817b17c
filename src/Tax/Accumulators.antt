-- ===== src/Tax/Accumulators.antt =====
-- The accumulators of special taxes in app/services/db_service.py: `get_or_create_accumulator`,
-- `add_to_accumulator`, `liquidate_accumulator` and `list_accumulators`, on the table of
-- app/models/database.py. The owner of an accumulator is its special tax, company, year and month.
pub mod Run
use backend_pae_account_mult.Prelude.{
  ℕ, Bool, true, false, not, ◌&&◌, Option, none, some, List, [], ◌∷◌, filter, ltb, leb, ◌==◌,
  if◌then◌else◌,
}
use backend_pae_account_mult.Prelude.Int.{ℤ, pos, ◌+ℤ◌}
use backend_pae_account_mult.Prelude.Texts.{String, str_eq}

pub record Period : Type 0 where
  pub special_tax_id : String
  pub company_nit : String
  pub period_year : ℕ
  pub period_month : ℕ

unfoldable pub same_period : Period → Period → Bool
same_period a b =
    str_eq a.special_tax_id b.special_tax_id
    && (str_eq a.company_nit b.company_nit
        && ((a.period_year == b.period_year) && (a.period_month == b.period_month)))

pub record Accumulator : Type 0 where
  pub period : Period
  pub accumulated_base : ℤ
  pub accumulated_tax : ℤ
  pub liquidated : Bool
  pub liquidated_at : Option ℕ

abbrev pub fresh : Period → Accumulator
fresh k = record {
  period = k;
  accumulated_base = pos 0;
  accumulated_tax = pos 0;
  liquidated = false;
  liquidated_at = none;
}

unfoldable pub find_accumulator : List Accumulator → Period → Option Accumulator
find_accumulator [] k = none
find_accumulator (a ∷ rest) k = if same_period a.period k then some a else find_accumulator rest k

-- `get_or_create_accumulator`, the table after it.
unfoldable pub get_or_create_accumulator : List Accumulator → Period → List Accumulator
get_or_create_accumulator [] k = fresh k ∷ []
get_or_create_accumulator (a ∷ rest) k =
    let later = get_or_create_accumulator rest k in
    if same_period a.period k then a ∷ rest else a ∷ later

-- A change of the row of a period.
unfoldable pub update_accumulator :
    (Accumulator → Accumulator) → List Accumulator → Period → List Accumulator
update_accumulator f [] k = []
update_accumulator f (a ∷ rest) k =
    let later = update_accumulator f rest k in
    if same_period a.period k then f a ∷ rest else a ∷ later

abbrev pub plus_amounts : ℤ → ℤ → Accumulator → Accumulator
plus_amounts base tax a = record a {
  accumulated_base = a.accumulated_base +ℤ base;
  accumulated_tax = a.accumulated_tax +ℤ tax;
}

-- `add_to_accumulator`.
unfoldable pub add_to_accumulator : List Accumulator → Period → ℤ → ℤ → List Accumulator
add_to_accumulator table k base tax =
    update_accumulator (plus_amounts base tax) (get_or_create_accumulator table k) k

abbrev pub mark_liquidated : ℕ → Accumulator → Accumulator
mark_liquidated now a =
    if a.liquidated then a else record a { liquidated = true; liquidated_at = some now }

-- `liquidate_accumulator`: the table and the row that it returns.
unfoldable pub liquidate_accumulator :
    List Accumulator → Period → ℕ → List Accumulator × Option Accumulator
liquidate_accumulator table k now =
    let table' = update_accumulator (mark_liquidated now) table k in
    (table', find_accumulator table' k)

-- `ORDER BY period_year, period_month`.
abbrev pub not_later : Period → Period → Bool
not_later a b =
    if ltb a.period_year b.period_year
    then true
    else (a.period_year == b.period_year) && leb a.period_month b.period_month

unfoldable pub insert_by_period : Accumulator → List Accumulator → List Accumulator
insert_by_period a [] = a ∷ []
insert_by_period a (b ∷ bs) =
    let rest = insert_by_period a bs in if not_later a.period b.period then a ∷ b ∷ bs else b ∷ rest

unfoldable pub order_by_period : List Accumulator → List Accumulator
order_by_period [] = []
order_by_period (a ∷ rest) = insert_by_period a (order_by_period rest)

-- `list_accumulators`.
unfoldable pub list_accumulators : List Accumulator → String → String → Bool → List Accumulator
list_accumulators table special_tax_id nit only_unliquidated = order_by_period (
    filter
      (λ a.
        str_eq a.period.special_tax_id special_tax_id
        && (str_eq a.period.company_nit nit
            && (if only_unliquidated then not a.liquidated else true)))
      table)
