-- ===== src/Books/Pnl.antt =====
-- The income statement `get_pnl` of app/services/db_service.py, without the lists of accounts.
pub mod Results
use backend_pae_account_mult.Prelude.{ℕ, Bool, ◌&&◌, Option, none, some, List, [], ◌∷◌, filter}
use backend_pae_account_mult.Prelude.Int.{ℤ, pos, ◌+ℤ◌, ◌-ℤ◌}
use backend_pae_account_mult.Prelude.Texts.{String}
use backend_pae_account_mult.Books.{JournalEntryLine, Database, equals_text, not_before, not_after}
use backend_pae_account_mult.Books.Sheet.{Clase, ingreso, gasto, costo, clase_of}

pub record Pnl : Type 0 where
  pub total_ingresos : ℤ
  pub total_gastos : ℤ
  pub total_costo_ventas : ℤ

abbrev pub add_amount : Pnl → JournalEntryLine → Option Clase → Pnl
add_amount p l (some ingreso) = record p {
  total_ingresos = p.total_ingresos +ℤ (l.credito -ℤ l.debito);
}
add_amount p l (some gasto) = record p { total_gastos = p.total_gastos +ℤ (l.debito -ℤ l.credito) }
add_amount p l (some costo) = record p {
  total_costo_ventas = p.total_costo_ventas +ℤ (l.debito -ℤ l.credito);
}
add_amount p l other = p

unfoldable pub add_amounts : Pnl → List JournalEntryLine → Pnl
add_amounts p [] = p
add_amounts p (l ∷ ls) = add_amounts (add_amount p l (clase_of l.cuenta_puc)) ls

-- `get_pnl`: the totals over the lines of the company, of whatever status.
unfoldable pub get_pnl : Database → String → Option ℕ → Option ℕ → Pnl
get_pnl db company_nit start_date end_date =
    add_amounts
      (record { total_ingresos = pos 0; total_gastos = pos 0; total_costo_ventas = pos 0 })
      (filter
        (λ l.
          equals_text l.company_nit company_nit
          && (not_before start_date l.fecha && not_after end_date l.fecha))
        db.lines)

unfoldable pub utilidad_bruta : Pnl → ℤ
utilidad_bruta p = p.total_ingresos -ℤ p.total_costo_ventas

unfoldable pub utilidad_neta : Pnl → ℤ
utilidad_neta p = utilidad_bruta p -ℤ p.total_gastos
