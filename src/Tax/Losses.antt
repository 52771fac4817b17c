-- ===== src/Tax/Losses.antt =====
-- The fiscal losses carried forward (Art. 147 ET) in app/services/db_service.py: the table
-- `perdidas_fiscales_acumuladas` of app/models/database.py, `upsert_perdida`,
-- `register_compensacion`, `get_perdidas_disponibles` and `sum_perdidas_disponibles`. A year is a
-- number; decrees and notes are left out.
pub mod Balance
pub mod Compensation
use backend_pae_account_mult.Prelude.{
  ℕ, Bool, true, false, ◌&&◌, Option, none, some, List, [], ◌∷◌, filter, ltb, leb, ◌==◌,
  if◌then◌else◌,
}
use backend_pae_account_mult.Prelude.Int.{ℤ, pos, ◌+ℤ◌, ◌-ℤ◌, ltb_ℤ}
use backend_pae_account_mult.Prelude.Texts.{String, str_eq}

pub record PerdidaFiscal : Type 0 where
  pub company_nit : String
  pub year : ℕ
  pub monto_perdida : ℤ
  pub monto_compensado : ℤ
  pub monto_pendiente : ℤ

unfoldable pub is_loss_of : String → ℕ → PerdidaFiscal → Bool
is_loss_of nit year p = str_eq p.company_nit nit && (p.year == year)

-- The first row of a company and year.
unfoldable pub find_perdida : List PerdidaFiscal → String → ℕ → Option PerdidaFiscal
find_perdida [] nit year = none
find_perdida (p ∷ ps) nit year = if is_loss_of nit year p then some p else find_perdida ps nit year

-- That row replaced.
unfoldable pub set_perdida : List PerdidaFiscal → String → ℕ → PerdidaFiscal → List PerdidaFiscal
set_perdida [] nit year p' = []
set_perdida (p ∷ ps) nit year p' =
    let rest = set_perdida ps nit year p' in if is_loss_of nit year p then p' ∷ ps else p ∷ rest

abbrev pub new_perdida : String → ℕ → ℤ → PerdidaFiscal
new_perdida nit year monto = record {
  company_nit = nit;
  year = year;
  monto_perdida = monto;
  monto_compensado = pos 0;
  monto_pendiente = monto;
}

abbrev pub with_perdida : PerdidaFiscal → ℤ → PerdidaFiscal
with_perdida p monto = record p {
  monto_perdida = monto;
  monto_pendiente = monto -ℤ p.monto_compensado;
}

abbrev pub upserted :
    List PerdidaFiscal → String → ℕ → ℤ → Option PerdidaFiscal → List PerdidaFiscal
upserted ps nit year monto none = new_perdida nit year monto ∷ ps
upserted ps nit year monto (some p) = set_perdida ps nit year (with_perdida p monto)

-- `upsert_perdida`; a table has no order.
unfoldable pub upsert_perdida : List PerdidaFiscal → String → ℕ → ℤ → List PerdidaFiscal
upsert_perdida ps nit year monto = upserted ps nit year monto (find_perdida ps nit year)

-- The two ValueErrors of `register_compensacion`.
pub data LossError : Type 0 where
  not_found would_exceed : LossError

pub data Registered : Type 0 where
  ok : List PerdidaFiscal → Registered
  err : LossError → Registered

abbrev pub with_compensado : PerdidaFiscal → ℤ → PerdidaFiscal
with_compensado p compensado = record p {
  monto_compensado = compensado;
  monto_pendiente = p.monto_perdida -ℤ compensado;
}

abbrev pub compensated : List PerdidaFiscal → String → ℕ → ℤ → Option PerdidaFiscal → Registered
compensated ps nit year delta none = err not_found
compensated ps nit year delta (some p) =
    if ltb_ℤ p.monto_perdida (p.monto_compensado +ℤ delta)
    then err would_exceed
    else ok (set_perdida ps nit year (with_compensado p (p.monto_compensado +ℤ delta)))

-- `register_compensacion`.
unfoldable pub register_compensacion : List PerdidaFiscal → String → ℕ → ℤ → Registered
register_compensacion ps nit year delta = compensated ps nit year delta (find_perdida ps nit year)

-- `ORDER BY year`.
unfoldable pub insert_by_year : PerdidaFiscal → List PerdidaFiscal → List PerdidaFiscal
insert_by_year p [] = p ∷ []
insert_by_year p (q ∷ qs) =
    let rest = insert_by_year p qs in if leb p.year q.year then p ∷ q ∷ qs else q ∷ rest

unfoldable pub order_by_year : List PerdidaFiscal → List PerdidaFiscal
order_by_year [] = []
order_by_year (p ∷ ps) = insert_by_year p (order_by_year ps)

abbrev pub is_disponible : String → ℕ → PerdidaFiscal → Bool
is_disponible nit current p =
    str_eq p.company_nit nit && (ltb p.year current && ltb_ℤ (pos 0) p.monto_pendiente)

-- `get_perdidas_disponibles`.
unfoldable pub get_perdidas_disponibles : List PerdidaFiscal → String → ℕ → List PerdidaFiscal
get_perdidas_disponibles ps nit current = order_by_year (filter (is_disponible nit current) ps)

unfoldable pub sum_pendiente : List PerdidaFiscal → ℤ
sum_pendiente [] = pos 0
sum_pendiente (p ∷ ps) = p.monto_pendiente +ℤ sum_pendiente ps

-- `sum_perdidas_disponibles`.
unfoldable pub sum_perdidas_disponibles : List PerdidaFiscal → String → ℕ → ℤ
sum_perdidas_disponibles ps nit current = sum_pendiente (get_perdidas_disponibles ps nit current)
