-- ===== src/Books/Posting.antt =====
-- How entries become lines of the journal: the end of `_run_persist` (app/agents/persist_node.py)
-- for one transaction, with `create_transaction_posted` and `soft_delete_transaction_posted` of
-- app/services/db_service.py, `PersistOrchestrator` of app/account_process/persist_orchestrator.py
-- and the kind of IVA that app/services/tax_constants.py reads off the entries.
--
-- `safe_datetime`, the id of a new row, the transaction that an earlier upload left and the account
-- that the keyword corrector suggests are arguments. The amounts and texts of a transaction, the
-- pending one and the audit log are left out.
pub mod Balance
pub mod Invariant
pub mod Built
pub mod Invoice
pub mod Tolerance
pub mod Contador
use backend_pae_account_mult.Prelude.{
  ℕ, Bool, true, false, not, ◌&&◌, ◌||◌, Option, none, some, List, [], ◌∷◌, ◌++◌, map, any,
  if◌then◌else◌, is_empty,
}
use backend_pae_account_mult.Prelude.Int.{ℤ, pos, ltb_ℤ}
use backend_pae_account_mult.Prelude.Texts.{String, str_eq, codes, codes_eq}
use backend_pae_account_mult.Pipeline.Auditors.{starts_with, occurs_in}
use backend_pae_account_mult.Ledger.Journal.{JournalEntry, Text}
use backend_pae_account_mult.Books.{posted, TransactionPosted, JournalEntryLine, Database}

-- Bank documents book the outflow against the bank, not against suppliers.
abbrev pub swap_cxp : JournalEntry → JournalEntry
swap_cxp e =
    if codes_eq e.cuenta (codes "220505") && ltb_ℤ (pos 0) e.credito
    then record e { cuenta = codes "111005"; descripcion = codes "Bancos Nacionales" }
    else e

abbrev pub swap_sides : JournalEntry → JournalEntry
swap_sides e = record e { debito = e.credito; credito = e.debito }

abbrev pub is_fallback : Text → Bool
is_fallback cuenta = codes_eq cuenta (codes "5195") || codes_eq cuenta (codes "519595")

abbrev pub specialize : Text → JournalEntry → JournalEntry
specialize suggested e = if is_fallback e.cuenta then record e { cuenta = suggested } else e

abbrev pub is_bank_document : String → Bool
is_bank_document t =
    str_eq t "comprobante_egreso"
    || (str_eq t "extracto_bancario" || str_eq t "conciliacion_bancaria")

-- The document of a transaction of the ingest mode; `suggested` is none or empty where the
-- corrector finds nothing.
pub record Document : Type 0 where
  pub doc_type : String
  pub bank_direction : String
  pub cuenta_puc : Text
  pub suggested : Text

abbrev pub is_inflow : Document → Bool
is_inflow d = str_eq d.doc_type "extracto_bancario" && str_eq d.bank_direction "entrada"

abbrev pub is_respecialized : Document → Bool
is_respecialized d = is_fallback d.cuenta_puc && not (is_empty d.suggested)

unfoldable pub correct_entry : Bool → Bool → Bool → Text → JournalEntry → JournalEntry
correct_entry bank inflow fallback suggested e =
    let e1 = if bank then swap_cxp e else e in
    let e2 = if inflow then swap_sides e1 else e1 in
    if fallback then specialize suggested e2 else e2

-- The three rewrites of what `build_from_ingest` gives.
unfoldable pub corrected : Document → JournalEntry → JournalEntry
corrected d e =
    correct_entry (is_bank_document d.doc_type) (is_inflow d) (is_respecialized d) d.suggested e

abbrev pub credits_on : Text → List JournalEntry → Bool
credits_on prefix es = any (λ e. starts_with prefix e.cuenta && ltb_ℤ (pos 0) e.credito) es

-- `infer_tipo_iva_from_journal`; the description is in small letters.
unfoldable pub infer_tipo_iva_from_journal : List JournalEntry → Text → Option String
infer_tipo_iva_from_journal es descripcion =
    if is_empty es
    then none
    else if credits_on (codes "240805") es
    then some "gravado_19"
    else if credits_on (codes "240807") es
    then some "gravado_5"
    else if credits_on (codes "4175") es || occurs_in (codes "exportaci") descripcion
    then some "exportacion"
    else none

unfoldable pub is_valid_tipo_iva : Option String → Bool
is_valid_tipo_iva none = true
is_valid_tipo_iva (some t) =
    str_eq t "gravado_19"
    || (str_eq t "gravado_5"
        || (str_eq t "exento"
            || (str_eq t "excluido" || (str_eq t "exportacion" || str_eq t "no_gravado"))))

-- The row that `create_transaction_posted` adds; none for the ValueError of its check.
unfoldable pub create_transaction_posted :
    Database → String → Option String → Option String → Option Database
create_transaction_posted db id company_nit tipo_iva =
    if is_valid_tipo_iva tipo_iva
    then some (record db {
      transactions =
          db.transactions
          ++ (record {
            id = id;
            company_nit = company_nit;
            tipo_iva = tipo_iva;
            status = posted;
            deleted_at = none;
          }
              ∷ []);
    })
    else none

abbrev pub line_of : String → String → ℕ → JournalEntry → JournalEntryLine
line_of id company_nit fecha e = record {
  transaction_posted_id = id;
  fecha = fecha;
  company_nit = some company_nit;
  cuenta_puc = e.cuenta;
  cuenta_nombre = e.descripcion;
  tercero_nit = e.tercero_nit;
  descripcion = e.detalle;
  debito = e.debito;
  credito = e.credito;
}

abbrev pub cons_line :
    String
    → String
    → JournalEntry
    → Option ℕ
    → Option (List JournalEntryLine)
    → Option (List JournalEntryLine)
cons_line id company_nit e (some fecha) (some ls) = some (line_of id company_nit fecha e ∷ ls)
cons_line id company_nit e _ _ = none

abbrev pub with_lines : Database → Option (List JournalEntryLine) → Database
with_lines db none = db
with_lines db (some ls) = record db { lines = db.lines ++ ls }

pub record Posting : Type 0 where
  pub id : String
  pub company_nit : Option String
  pub entries : List JournalEntry
  pub descripcion : Text
  pub existing : Option String

abbrev pub text_or_empty : Option String → String
text_or_empty none = ""
text_or_empty (some t) = t

abbrev pub unless_existing : Option String → Database → Database → Database
unless_existing none db db' = db'
unless_existing (some id) db db' = db

-- `_persist_journal_entry_lines`: none where a date cannot be read, and nothing is committed.
unfoldable pub persist_journal_entry_lines :
    (String → Option ℕ) → String → String → List JournalEntry → Option (List JournalEntryLine)
persist_journal_entry_lines safe_datetime id company_nit [] = some []
persist_journal_entry_lines safe_datetime id company_nit (e ∷ es) =
    cons_line id company_nit e (safe_datetime e.fecha)
      (persist_journal_entry_lines safe_datetime id company_nit es)

-- `persist_journal_entries`: the database after it, with or without its ValueError.
unfoldable pub persist_journal_entries :
    (String → Option ℕ) → Database → String → String → List JournalEntry → Database
persist_journal_entries safe_datetime db id company_nit es =
    with_lines db (persist_journal_entry_lines safe_datetime id company_nit es)

abbrev pub and_lines : (String → Option ℕ) → Database → Posting → Option Database → Database
and_lines safe_datetime db p none = db
and_lines safe_datetime db p (some db') =
    persist_journal_entries safe_datetime db' p.id (text_or_empty p.company_nit) p.entries

-- The transaction is committed before its lines; a document posted before is skipped.
unfoldable pub post_transaction : (String → Option ℕ) → Database → Posting → Database
post_transaction safe_datetime db p = unless_existing p.existing db (
    and_lines safe_datetime db p (
      create_transaction_posted db p.id p.company_nit
        (infer_tipo_iva_from_journal p.entries p.descripcion)))

unfoldable pub delete_first : String → ℕ → List TransactionPosted → List TransactionPosted
delete_first id now [] = []
delete_first id now (t ∷ ts) =
    let rest = delete_first id now ts in
    if str_eq t.id id then record t { deleted_at = some now } ∷ ts else t ∷ rest

-- `soft_delete_transaction_posted`.
unfoldable pub soft_delete_transaction_posted : Database → String → ℕ → Database × Bool
soft_delete_transaction_posted db id now = (
  record db { transactions = delete_first id now db.transactions },
  any (λ t. str_eq t.id id) db.transactions,
)
