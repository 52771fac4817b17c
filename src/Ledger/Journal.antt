-- ===== src/Ledger/Journal.antt =====
-- app/account_process/journal_builder.py. An amount is a whole number of centavos; the texts that
-- carry amounts between its functions (`str(value)`, `Decimal(text)`) are the amounts themselves.
pub mod Balance
pub mod Sums
pub mod Contador
use backend_pae_account_mult.Prelude.{
  ℕ, Bool, true, false, ◌||◌, Option, none, some, List, [], ◌∷◌, ◌++◌, is_empty, if◌then◌else◌,
}
use backend_pae_account_mult.Prelude.Int.{ℤ, pos, ◌+ℤ◌, ◌-ℤ◌, abs, ltb_ℤ}
use backend_pae_account_mult.Prelude.Texts.{String, str_eq, codes}
use backend_pae_account_mult.Pipeline.State.{Asiento, Movement}

abbrev pub Text : Type 0
Text = List ℕ

pub record JournalEntry : Type 0 where
  pub fecha : String
  pub cuenta : Text
  pub descripcion : Text
  pub tercero_nit : Text
  pub detalle : Text
  pub debito : ℤ
  pub credito : ℤ

-- The ValueErrors of the module, and the InvalidOperation of a valor that is no number.
pub data BuildError : Type 0 where
  negative retenciones_exceed unbalanced not_a_number : BuildError

pub data Result (A : Type 0) : Type 0 where
  ok : A → Result A
  err : BuildError → Result A

-- `_BALANCE_TOLERANCE`: one peso.
abbrev pub tolerance : ℤ
tolerance = pos 100

unfoldable pub sum_debito : List JournalEntry → ℤ
sum_debito [] = pos 0
sum_debito (e ∷ es) = e.debito +ℤ sum_debito es

unfoldable pub sum_credito : List JournalEntry → ℤ
sum_credito [] = pos 0
sum_credito (e ∷ es) = e.credito +ℤ sum_credito es

-- `_validate_balance`, which raises, at the end of each builder.
unfoldable pub validate_balance : List JournalEntry → Result (List JournalEntry)
validate_balance es =
    if ltb_ℤ tolerance (abs (sum_debito es -ℤ sum_credito es)) then err unbalanced else ok es

-- `doc_type in _VENTA_DOC_TYPES`.
unfoldable pub is_venta : String → Bool
is_venta t =
    str_eq t "factura_venta"
    || (str_eq t "nota_debito_venta" || (str_eq t "nota_credito_venta" || str_eq t "recibo_caja"))

-- The arguments of the builders of Vía A.
pub record Invoice : Type 0 where
  pub fecha : String
  pub cuenta_puc : Text
  pub puc_descripcion : Text
  pub total : ℤ
  pub iva : ℤ
  pub retefuente : ℤ
  pub reteica : ℤ
  pub nit : Text
  pub descripcion : Text
  pub doc_type : String
  pub cuenta_reteica : Text

abbrev pub line : Invoice → Text → Text → Text → ℤ → ℤ → JournalEntry
line i cuenta descripcion detalle debito credito = record {
  fecha = i.fecha;
  cuenta = cuenta;
  descripcion = descripcion;
  tercero_nit = i.nit;
  detalle = detalle;
  debito = debito;
  credito = credito;
}

-- `if amount > 0: entries.append(entry)`.
abbrev pub when_positive : ℤ → JournalEntry → List JournalEntry
when_positive amount entry = if ltb_ℤ (pos 0) amount then entry ∷ [] else []

-- `a or b` on texts.
abbrev pub or_text : Text → Text → Text
or_text a b = if is_empty a then b else a

abbrev pub debit_line : Invoice → Text → Text → Text → ℤ → List JournalEntry
debit_line i cuenta descripcion detalle amount =
    when_positive amount (line i cuenta descripcion detalle amount (pos 0))

abbrev pub credit_line : Invoice → Text → Text → Text → ℤ → List JournalEntry
credit_line i cuenta descripcion detalle amount =
    when_positive amount (line i cuenta descripcion detalle (pos 0) amount)

-- What the counterparty owes or is owed: the total less what is withheld.
abbrev pub net_amount : Invoice → ℤ
net_amount i = i.total -ℤ i.retefuente -ℤ i.reteica

unfoldable pub compra_entries : Invoice → List JournalEntry
compra_entries i =
    debit_line i i.cuenta_puc (or_text i.puc_descripcion i.descripcion) i.descripcion
      (i.total -ℤ i.iva)
    ++ (debit_line i (codes "240802") (codes "IVA Descontable") (codes "IVA por " ++ i.descripcion)
          i.iva
        ++ (credit_line i (codes "220505") (codes "Proveedores Nacionales")
              (codes "CxP " ++ i.descripcion) (net_amount i)
            ++ (credit_line i (codes "2365") (codes "Retencion en la Fuente por pagar")
                  (codes "Retefuente " ++ i.descripcion) i.retefuente
                ++ credit_line i i.cuenta_reteica (codes "Retencion ICA por pagar")
                    (codes "ReteICA " ++ i.descripcion) i.reteica)))

-- `_build_from_ingest_compra`.
unfoldable pub build_compra : Invoice → Result (List JournalEntry)
build_compra i =
    if ltb_ℤ (net_amount i) (pos 0)
    then err retenciones_exceed
    else validate_balance (compra_entries i)

unfoldable pub venta_entries : Invoice → List JournalEntry
venta_entries i =
    debit_line i (codes "130505") (codes "Clientes Nacionales") (codes "CxC " ++ i.descripcion)
      (net_amount i)
    ++ (debit_line i (codes "135515") (codes "Retefuente recibida (anticipo)")
          (codes "Retefuente recibida " ++ i.descripcion) i.retefuente
        ++ (debit_line i (codes "135517") (codes "ReteICA recibida (anticipo)")
              (codes "ReteICA recibida " ++ i.descripcion) i.reteica
            ++ (credit_line i i.cuenta_puc (or_text i.puc_descripcion i.descripcion) i.descripcion
                  (i.total -ℤ i.iva)
                ++ credit_line i (codes "240805") (codes "IVA Generado")
                    (codes "IVA generado por " ++ i.descripcion) i.iva)))

-- `_build_from_ingest_venta`.
unfoldable pub build_venta : Invoice → Result (List JournalEntry)
build_venta i =
    if ltb_ℤ (net_amount i) (pos 0)
    then err retenciones_exceed
    else validate_balance (venta_entries i)

abbrev pub has_negative : Invoice → Bool
has_negative i =
    ltb_ℤ i.total (pos 0)
    || (ltb_ℤ i.iva (pos 0) || (ltb_ℤ i.retefuente (pos 0) || ltb_ℤ i.reteica (pos 0)))

-- `JournalBuilder.build_from_ingest`.
unfoldable pub build_from_ingest : Invoice → Result (List JournalEntry)
build_from_ingest i =
    if has_negative i
    then err negative
    else if is_venta i.doc_type
    then build_venta i
    else build_compra i

abbrev pub debit_side : Movement → ℤ → ℤ
debit_side Movement.debito v = v
debit_side _ v = pos 0

abbrev pub credit_side : Movement → ℤ → ℤ
credit_side Movement.credito v = v
credit_side _ v = pos 0

-- The entry of one asiento.
abbrev pub contador_entry : String → Text → Text → Asiento → ℤ → JournalEntry
contador_entry fecha nit descripcion a valor = record {
  fecha = fecha;
  cuenta = a.cuenta_puc;
  descripcion = or_text a.nombre_cuenta descripcion;
  tercero_nit = nit;
  detalle = or_text a.descripcion descripcion;
  debito = debit_side a.tipo_movimiento valor;
  credito = credit_side a.tipo_movimiento valor;
}

abbrev pub cons_result : JournalEntry → Result (List JournalEntry) → Result (List JournalEntry)
cons_result e (ok es) = ok (e ∷ es)
cons_result e (err x) = err x

-- The loop of `build_from_contador`, which raises at the first bad valor.
unfoldable pub contador_entries : String → Text → Text → List Asiento → Result (List JournalEntry)
contador_entries fecha nit descripcion [] = ok []
contador_entries fecha nit descripcion (a ∷ rest) =
    let later = contador_entries fecha nit descripcion rest in
    elim a.valor [
      | none ↦ err not_a_number
      | some v ↦
          if ltb_ℤ v (pos 0)
          then err negative
          else cons_result (contador_entry fecha nit descripcion a v) later
    ]

abbrev pub then_validate : Result (List JournalEntry) → Result (List JournalEntry)
then_validate (ok es) = validate_balance es
then_validate (err x) = err x

-- `JournalBuilder.build_from_contador`.
unfoldable pub build_from_contador :
    String → List Asiento → Text → Text → Result (List JournalEntry)
build_from_contador fecha asientos nit descripcion =
    then_validate (contador_entries fecha nit descripcion asientos)
