-- ===== src/Books/Tests.antt =====
-- A sale and its postings, and the theorems on the books at them.
use backend_pae_account_mult.Prelude.{
  ℕ, ◌≡◌, refl, true, Option, none, some, List, [], ◌∷◌, All, map, arith, inr, length,
}
use backend_pae_account_mult.Prelude.Int.{ℤ, pos, ◌+ℤ◌, ◌-ℤ◌, abs}
use backend_pae_account_mult.Prelude.Texts.{String, codes}
use backend_pae_account_mult.Ledger.Journal.{
  Invoice, ok, sum_debito, sum_credito, build_from_ingest, venta_entries, build_venta,
  validate_balance, is_venta,
}
use backend_pae_account_mult.Books.{
  TransactionPosted, posted, rejected, JournalEntryLine, Database, is_posted, in_query,
  posted_lines, add_line, group_lines, insert_row, order_by_account, get_general_ledger,
}
use backend_pae_account_mult.Books.Sheet.{
  clase_of, has_clase, CuentaPuc, NaturalezaCuenta, naturaleza_by_code, naturaleza_for,
  presentation_class, place, add_rows, imbalance, close_sheet, between, until, get_balance_sheet,
  get_balance_sheet_for_period,
}
use backend_pae_account_mult.Books.Sheet.Equation.{net_of, get_balance_sheet-imbalance}
use backend_pae_account_mult.Books.Pnl.{add_amounts, get_pnl, utilidad_bruta, utilidad_neta}
use backend_pae_account_mult.Books.Pnl.Results.{utilidad_neta-net_profit}
use backend_pae_account_mult.Books.Posting.{
  Document, correct_entry, corrected, infer_tipo_iva_from_journal, is_valid_tipo_iva,
  create_transaction_posted, persist_journal_entry_lines, persist_journal_entries, Posting,
  post_transaction, delete_first, soft_delete_transaction_posted,
}
use backend_pae_account_mult.Books.Posting.Balance.{IsPostable}
use backend_pae_account_mult.Books.Posting.Invoice.{
  is_known, IsEven, build_from_ingest-is_known, build_from_ingest-IsPostable,
}
use backend_pae_account_mult.Books.Posting.Invariant.{Reach, Reach-balanced, IsSettled}

-- A sale of 1000.00 and IVA of 190.00.
abbrev sale : Invoice
sale = record {
  fecha = "2026-03-05";
  cuenta_puc = codes "413595";
  puc_descripcion = codes "Ventas";
  total = pos 119000;
  iva = pos 19000;
  retefuente = pos 0;
  reteica = pos 0;
  nit = codes "900123456";
  descripcion = codes "venta";
  doc_type = "factura_venta";
  cuenta_reteica = codes "2368";
}

abbrev document : Document
document = record {
  doc_type = "factura_venta";
  bank_direction = "";
  cuenta_puc = codes "413595";
  suggested = [];
}

sale_booked : build_from_ingest sale ≡ ok (venta_entries sale)
unfolding build_from_ingest build_venta validate_balance venta_entries is_venta sum_debito
    sum_credito ◌+ℤ◌ ◌-ℤ◌ abs
sale_booked = refl

abbrev sale_postable : IsPostable (map (corrected document) (venta_entries sale))
sale_postable =
    build_from_ingest-IsPostable sale document refl (omega arith)
      (unfold has_clase clase_of in refl) (unfold has_clase clase_of in refl) (inr refl) sale_booked

build_from_ingest-is_known_example :
    All (λ e. e.fecha ≡ sale.fecha) (map (corrected document) (venta_entries sale))
    × IsEven sale (map (corrected document) (venta_entries sale))
    × All
        (λ e. is_known sale document e.cuenta ≡ true)
        (map (corrected document) (venta_entries sale))
build_from_ingest-is_known_example = build_from_ingest-is_known sale document refl sale_booked

abbrev read_date : String → Option ℕ
read_date s = some 64

abbrev posting : Posting
posting = record {
  id = "posted_1";
  company_nit = some "900123456";
  entries = map (corrected document) (venta_entries sale);
  descripcion = codes "venta";
  existing = none;
}

abbrev no_rows : Database
no_rows = record { transactions = []; lines = [] }

abbrev with_sale : Database
with_sale = post_transaction read_date no_rows posting

Reach-balanced_example :
    IsSettled (get_balance_sheet [] with_sale (some 100) (some "900123456"))
    × IsSettled (get_balance_sheet_for_period with_sale (between (some 1) (some 90) none))
Reach-balanced_example =
    Reach-balanced read_date (Reach.post posting (Reach.start refl) sale_postable refl) []
      (some 100) (some "900123456") (between (some 1) (some 90) none)

-- The same sale as rows: what is owed, the sale and its IVA.
abbrev sale_line : List ℕ → ℤ → ℤ → JournalEntryLine
sale_line cuenta debito credito = record {
  transaction_posted_id = "posted_1";
  fecha = 64;
  company_nit = some "900123456";
  cuenta_puc = cuenta;
  cuenta_nombre = [];
  tercero_nit = [];
  descripcion = [];
  debito = debito;
  credito = credito;
}

abbrev sale_lines : List JournalEntryLine
sale_lines =
    sale_line (codes "130505") (pos 119000) (pos 0)
    ∷ sale_line (codes "413595") (pos 0) (pos 100000)
    ∷ sale_line (codes "240805") (pos 0) (pos 19000)
    ∷ []

abbrev sale_row : TransactionPosted
sale_row = record {
  id = "posted_1";
  company_nit = some "900123456";
  tipo_iva = some "gravado_19";
  status = posted;
  deleted_at = none;
}

abbrev sale_db : Database
sale_db = record { transactions = sale_row ∷ []; lines = sale_lines }

sale_posted :
    get_general_ledger with_sale (until none none) ≡ get_general_ledger sale_db (until none none)
unfolding post_transaction infer_tipo_iva_from_journal create_transaction_posted is_valid_tipo_iva
    persist_journal_entries persist_journal_entry_lines correct_entry corrected venta_entries ◌-ℤ◌
    get_general_ledger order_by_account insert_row group_lines add_line posted_lines is_posted
    in_query
sale_posted = refl

sale_assets : (get_balance_sheet [] sale_db none none).totals.assets ≡ pos 119000
unfolding get_balance_sheet close_sheet posted_lines is_posted in_query group_lines add_line
    add_rows clase_of presentation_class naturaleza_for naturaleza_by_code place ◌+ℤ◌ ◌-ℤ◌
sale_assets = refl

get_balance_sheet-imbalance_example :
    imbalance (get_balance_sheet [] sale_db (some 100) none).totals
    ≡ net_of (posted_lines sale_db (until (some 100) none))
get_balance_sheet-imbalance_example = get_balance_sheet-imbalance [] sale_db (some 100) none

all_sale_posted : is_posted (sale_row ∷ []) "posted_1" ≡ true
unfolding is_posted
all_sale_posted = refl

utilidad_neta-net_profit_example :
    (utilidad_neta (get_pnl sale_db "900123456" (some 1) (some 90))
      ≡ (get_balance_sheet_for_period sale_db
          (between (some 1) (some 90) (some "900123456"))).net_profit)
    × (utilidad_neta (get_pnl sale_db "900123456" none (some 90))
        ≡ (get_balance_sheet [] sale_db (some 90) (some "900123456")).net_profit)
utilidad_neta-net_profit_example =
    utilidad_neta-net_profit [] sale_db "900123456" (some 1) (some 90)
      (all_sale_posted, (all_sale_posted, (all_sale_posted, tt))) refl

-- The income statement counts the lines of a rejected transaction, the balance sheet does not.
abbrev rejected_db : Database
rejected_db = record sale_db { transactions = record sale_row { status = rejected } ∷ [] }

rejected_counts : utilidad_neta (get_pnl rejected_db "900123456" none none) ≡ pos 100000
unfolding get_pnl add_amounts clase_of utilidad_neta utilidad_bruta ◌+ℤ◌ ◌-ℤ◌
rejected_counts = refl

rejected_left_out : (get_balance_sheet [] rejected_db none (some "900123456")).net_profit ≡ pos 0
unfolding get_balance_sheet close_sheet posted_lines is_posted in_query group_lines add_rows ◌-ℤ◌
rejected_left_out = refl

-- IVA paid: an asset at a cutoff, under the nature of its account, and a negative liability of a
-- period.
abbrev iva_db : Database
iva_db = record sale_db {
  lines =
      sale_line (codes "240802") (pos 1900) (pos 0)
      ∷ sale_line (codes "220505") (pos 0) (pos 1900)
      ∷ [];
}

abbrev iva_catalog : List CuentaPuc
iva_catalog = record { codigo = codes "240802"; naturaleza = NaturalezaCuenta.debito } ∷ []

iva_at_cutoff : (get_balance_sheet iva_catalog iva_db none none).totals.assets ≡ pos 1900
unfolding get_balance_sheet close_sheet posted_lines is_posted in_query group_lines add_line
    add_rows clase_of presentation_class naturaleza_for naturaleza_by_code place ◌+ℤ◌ ◌-ℤ◌
iva_at_cutoff = refl

iva_of_period : (get_balance_sheet_for_period iva_db (until none none)).totals.assets ≡ pos 0
unfolding get_balance_sheet_for_period close_sheet posted_lines is_posted in_query group_lines
    add_line add_rows has_clase clase_of place ◌+ℤ◌ ◌-ℤ◌
iva_of_period = refl

-- A soft-deleted transaction stays in the books.
deleted_counts :
    length (posted_lines (soft_delete_transaction_posted sale_db "posted_1" 70).0 (until none none))
    ≡ 3
unfolding soft_delete_transaction_posted delete_first posted_lines is_posted in_query
deleted_counts = refl

ledger_in_order :
    map (λ r. r.account) (get_general_ledger sale_db (until none none))
    ≡ codes "130505" ∷ codes "240805" ∷ codes "413595" ∷ []
unfolding get_general_ledger order_by_account insert_row group_lines add_line posted_lines is_posted
    in_query
ledger_in_order = refl
