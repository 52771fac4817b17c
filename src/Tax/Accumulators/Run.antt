-- ===== src/Tax/Accumulators/Run.antt =====
-- What accumulators hold after any requests: the amounts that were added to their period, and
-- whether it was liquidated.
use text.Mathlib.TextEquality.{eq_iff}
use backend_pae_account_mult.Prelude.{
  ℕ, ◌≡◌, refl, ap, ◌∙◌, Bool, true, false, Option, none, some, List, [], ◌∷◌, arith, if◌then◌else◌,
}
use backend_pae_account_mult.Prelude.Int.{ℤ, pos, ◌+ℤ◌}
use backend_pae_account_mult.Tax.Accumulators.{
  Period, same_period, Accumulator, find_accumulator, get_or_create_accumulator, update_accumulator,
  add_to_accumulator, mark_liquidated, liquidate_accumulator,
}

pub same_period-eq : (a b : Period) → same_period a b ≡ true → a ≡ b
unfolding same_period
same_period-eq a b e =
    ground (arith, eq_iff a.special_tax_id b.special_tax_id, eq_iff a.company_nit b.company_nit)

same_period_refl : (a : Period) → same_period a a ≡ true
unfolding same_period
same_period_refl a =
    ground (arith, eq_iff a.special_tax_id a.special_tax_id, eq_iff a.company_nit a.company_nit)

-- The requests that write.
pub data Request : Type 0 where
  add : Period → ℤ → ℤ → Request
  liquidate : Period → ℕ → Request

unfoldable pub serve : List Accumulator → Request → List Accumulator
serve table (add k base tax) = add_to_accumulator table k base tax
serve table (liquidate k now) = (liquidate_accumulator table k now).0

unfoldable pub serve_all : List Accumulator → List Request → List Accumulator
serve_all table [] = table
serve_all table (r ∷ rs) = serve_all (serve table r) rs

-- The independent description: what a period's accumulator shows, none where there is none.
pub record View : Type 0 where
  pub base : ℤ
  pub tax : ℤ
  pub liquidated : Bool
  pub liquidated_at : Option ℕ

abbrev pub view_of : Accumulator → View
view_of a = record {
  base = a.accumulated_base;
  tax = a.accumulated_tax;
  liquidated = a.liquidated;
  liquidated_at = a.liquidated_at;
}

unfoldable pub view : List Accumulator → Period → Option View
view [] k = none
view (a ∷ rest) k = if same_period a.period k then some (view_of a) else view rest k

abbrev pub view_add : ℤ → ℤ → Option View → Option View
view_add base tax none =
    some (record {
      base = pos 0 +ℤ base;
      tax = pos 0 +ℤ tax;
      liquidated = false;
      liquidated_at = none;
    })
view_add base tax (some v) = some (record v { base = v.base +ℤ base; tax = v.tax +ℤ tax })

abbrev pub view_liquidate : ℕ → Option View → Option View
view_liquidate now none = none
view_liquidate now (some v) =
    some (if v.liquidated then v else record v { liquidated = true; liquidated_at = some now })

-- One request seen at one period.
abbrev pub view_serve : Period → Option View → Request → Option View
view_serve k v (add k' base tax) = if same_period k' k then view_add base tax v else v
view_serve k v (liquidate k' now) = if same_period k' k then view_liquidate now v else v

unfoldable pub view_serve_all : Period → Option View → List Request → Option View
view_serve_all k v [] = v
view_serve_all k v (r ∷ rs) = view_serve_all k (view_serve k v r) rs

view-add :
    (table : List Accumulator) (k' : Period) (base tax : ℤ) (k : Period)
    → view (add_to_accumulator table k' base tax) k
      ≡ (if same_period k' k then view_add base tax (view table k) else view table k)
unfolding view add_to_accumulator get_or_create_accumulator update_accumulator
view-add [] k' base tax k = ground (arith, same_period_refl k', same_period-eq k' k)
view-add (a ∷ rest) k' base tax k = ground (
  arith,
  view-add rest k' base tax k,
  same_period-eq a.period k',
  same_period-eq a.period k,
  same_period_refl k,
  same_period_refl k',
  same_period-eq k' k,
)

view-liquidate :
    (table : List Accumulator) (k' : Period) (now : ℕ) (k : Period)
    → view (update_accumulator (mark_liquidated now) table k') k
      ≡ (if same_period k' k then view_liquidate now (view table k) else view table k)
unfolding view update_accumulator
view-liquidate [] k' now k = ground arith
view-liquidate (a ∷ rest) k' now k = ground (
  arith,
  view-liquidate rest k' now k,
  same_period-eq a.period k',
  same_period-eq a.period k,
  same_period_refl k,
  same_period_refl k',
  same_period-eq k' k,
)

view-serve :
    (table : List Accumulator) (r : Request) (k : Period)
    → view (serve table r) k ≡ view_serve k (view table k) r
unfolding serve liquidate_accumulator
view-serve table (add k' base tax) k = view-add table k' base tax k
view-serve table (liquidate k' now) k = view-liquidate table k' now k

-- After any requests, what an accumulator shows is what the requests of its own period make of what
-- it showed, in their order: each amount is added once, also after the liquidation, only the
-- first liquidation sets the mark and the time, and no request of another period changes it.
pub view-serve_all :
    (table : List Accumulator) (rs : List Request) (k : Period)
    → view (serve_all table rs) k ≡ view_serve_all k (view table k) rs
unfolding serve_all view_serve_all
view-serve_all table [] k = refl
view-serve_all table (r ∷ rs) k =
    view-serve_all (serve table r) rs k ∙ ap (λ v. view_serve_all k v rs) (view-serve table r k)

-- What a liquidation answers, told by the row that it finds.
abbrev pub answer_of : ℕ → Option Accumulator → Option Accumulator
answer_of now none = none
answer_of now (some a) = some (mark_liquidated now a)

-- A liquidation answers with the row also where it was liquidated before, and with nothing exactly
-- where there is no row; a row that it answers with is liquidated.
pub liquidate_accumulator-answer :
    (table : List Accumulator) (k : Period) (now : ℕ)
    → (liquidate_accumulator table k now).1 ≡ answer_of now (find_accumulator table k)
unfolding liquidate_accumulator find_accumulator update_accumulator
liquidate_accumulator-answer [] k now = refl
liquidate_accumulator-answer (a ∷ rest) k now =
    ground (arith, liquidate_accumulator-answer rest k now)
