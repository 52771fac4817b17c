-- ===== src/Pipeline/Auditors.antt =====
-- The deterministic auditors of app/agents/auditors: contador_auditor.py, tributario_auditor.py and
-- pre_persist_auditor.py. A report's duration is left out.
--
-- An amount is a whole number of centavos, so two texts of one amount ("5" and "5.0") are one row
-- here, where the program's duplicate check compares the texts. Whether a date can be read is the
-- parameter `readable` (app/services/document_mappers.py: safe_datetime).
pub mod Gate
use backend_pae_account_mult.Prelude.{
  ℕ, Bool, true, false, not, ◌&&◌, ◌||◌, Option, none, some, List, [], ◌∷◌, ◌++◌, any, is_empty,
  if◌then◌else◌,
}
use backend_pae_account_mult.Prelude.Int.{ℤ, pos, ◌+ℤ◌, ◌-ℤ◌, abs, ltb_ℤ, eqb_ℤ}
use backend_pae_account_mult.Prelude.Texts.{String, str_eq, codes, codes_eq, strip}
use backend_pae_account_mult.Pipeline.Audit.{
  Severity, AuditTarget, ResponsibleAgent, AuditFinding, AuditReport, finding_blocks, finding_errs,
}
use backend_pae_account_mult.Pipeline.State.{
  Mode, Movement, Asiento, Impuesto, Output, Transaction, AgentState, asientos_of,
}

-- `_BALANCE_TOLERANCE`: one peso.
abbrev pub balance_tolerance : ℤ
balance_tolerance = pos 100

abbrev pub amount : Option ℤ → ℤ
amount none = pos 0
amount (some v) = v

abbrev pub debit_of : Asiento → ℤ
debit_of a = elim a.tipo_movimiento [ Movement.debito ↦ amount a.valor | _ ↦ pos 0 ]

abbrev pub credit_of : Asiento → ℤ
credit_of a = elim a.tipo_movimiento [ Movement.credito ↦ amount a.valor | _ ↦ pos 0 ]

unfoldable pub total_debitos : List Asiento → ℤ
total_debitos [] = pos 0
total_debitos (a ∷ rest) = debit_of a +ℤ total_debitos rest

unfoldable pub total_creditos : List Asiento → ℤ
total_creditos [] = pos 0
total_creditos (a ∷ rest) = credit_of a +ℤ total_creditos rest

-- `abs(total_debitos - total_creditos) > _BALANCE_TOLERANCE`.
unfoldable pub is_unbalanced : List Asiento → Bool
is_unbalanced asientos =
    ltb_ℤ balance_tolerance (abs (total_debitos asientos -ℤ total_creditos asientos))

-- `approved = not has_blocker and not has_error`.
abbrev pub report_of : AuditTarget → List AuditFinding → ℕ → AuditReport
report_of target findings attempt = record {
  target = target;
  approved = not (any finding_blocks findings) && not (any finding_errs findings);
  findings = findings;
  attempt = attempt;
}

abbrev pub contador_finding : String → AuditFinding
contador_finding rule_id = record {
  target = AuditTarget.contador;
  rule_id = rule_id;
  severity = Severity.blocker;
  fixable = true;
  responsible_agent = ResponsibleAgent.contador;
}

unfoldable pub contador_findings : List Asiento → List AuditFinding
contador_findings asientos =
    if is_empty asientos
    then contador_finding "CONT-EMPTY-ASIENTOS" ∷ []
    else if is_unbalanced asientos
    then contador_finding "CONT-BALANCE-MISMATCH" ∷ []
    else []

-- `contador_auditor.run`.
unfoldable pub contador_run : AgentState → ℕ → AuditReport
contador_run s attempt =
    report_of AuditTarget.contador (contador_findings (asientos_of s.contador_output)) attempt

-- `prefix in text`, at the start and anywhere.
abbrev pub starts_with : List ℕ → List ℕ → Bool
starts_with [] text = true
starts_with (p ∷ ps) [] = false
starts_with (p ∷ ps) (t ∷ ts) = codes_eq (p ∷ []) (t ∷ []) && starts_with ps ts

abbrev pub occurs_in : List ℕ → List ℕ → Bool
occurs_in part [] = is_empty part
occurs_in part (t ∷ ts) = starts_with part (t ∷ ts) || occurs_in part ts

-- Rates in ten-thousandths: 0, 0.05 and 0.19, with a tolerance of 0.001.
unfoldable pub iva_rate_valid : ℤ → Bool
iva_rate_valid tarifa =
    ltb_ℤ (abs (tarifa -ℤ pos 0)) (pos 10)
    || (ltb_ℤ (abs (tarifa -ℤ pos 500)) (pos 10) || ltb_ℤ (abs (tarifa -ℤ pos 1900)) (pos 10))

abbrev pub iva_finding : AuditFinding
iva_finding = record {
  target = AuditTarget.tributario;
  rule_id = "TRIB-IVA-RATE-INVALID";
  severity = Severity.error;
  fixable = true;
  responsible_agent = ResponsibleAgent.tributario;
}

-- Whether the loop of `tributario_auditor.run` reports a tax line; `tipo` is in lower case.
unfoldable pub is_bad_iva : Impuesto → Bool
is_bad_iva i = elim i.tarifa [
  | none ↦ false
  | some tarifa ↦ occurs_in (codes "iva") i.tipo && not (iva_rate_valid tarifa)
]

unfoldable pub iva_findings : List Impuesto → List AuditFinding
iva_findings [] = []
iva_findings (i ∷ rest) = (if is_bad_iva i then iva_finding ∷ [] else []) ++ iva_findings rest

abbrev pub impuestos_of : Output → List Impuesto
impuestos_of (Output.tributario t) = elim t.impuestos [ none ↦ [] | some is ↦ is ]
impuestos_of _ = []

-- `tributario_auditor.run`.
unfoldable pub tributario_run : AgentState → ℕ → AuditReport
tributario_run s attempt =
    report_of AuditTarget.tributario (iva_findings (impuestos_of s.tributario_output)) attempt

abbrev pub persist_finding : String → Severity → Bool → ResponsibleAgent → AuditFinding
persist_finding rule_id severity fixable agent = record {
  target = AuditTarget.pre_persist;
  rule_id = rule_id;
  severity = severity;
  fixable = fixable;
  responsible_agent = agent;
}

abbrev pub when : Bool → AuditFinding → List AuditFinding
when b f = if b then f ∷ [] else []

abbrev pub same_movement : Movement → Movement → Bool
same_movement Movement.debito Movement.debito = true
same_movement Movement.credito Movement.credito = true
same_movement Movement.other Movement.other = true
same_movement _ _ = false

-- `row_key in seen_rows`.
unfoldable pub same_row : Asiento → Asiento → Bool
unfolding strip
same_row a b =
    same_movement a.tipo_movimiento b.tipo_movimiento
    && (codes_eq (strip a.cuenta_puc) (strip b.cuenta_puc)
        && eqb_ℤ (amount a.valor) (amount b.valor))

-- The findings of the loop over the lines, with the rows seen so far.
unfoldable pub row_findings : List Asiento → List Asiento → List AuditFinding
row_findings seen [] = []
row_findings seen (a ∷ rest) =
    when (is_empty (strip a.cuenta_puc))
      (persist_finding "PREP-MISSING-CUENTA-PUC" Severity.error true ResponsibleAgent.contador)
    ++ (when (any (same_row a) seen)
          (persist_finding "PREP-DUPLICATE-ASIENTO" Severity.warning true ResponsibleAgent.contador)
        ++ row_findings (a ∷ seen) rest)

-- `if diff > _BALANCE_TOLERANCE:`.
abbrev pub balance_findings : List Asiento → List AuditFinding
balance_findings asientos =
    when (is_unbalanced asientos) (
      persist_finding "PREP-PARTIDA-DOBLE-MISMATCH" Severity.blocker false ResponsibleAgent.persist)

unfoldable pub asiento_findings : List Asiento → List AuditFinding
asiento_findings asientos =
    if is_empty asientos
    then persist_finding "PREP-NO-ASIENTOS" Severity.blocker false ResponsibleAgent.persist ∷ []
    else row_findings [] asientos ++ balance_findings asientos

abbrev pub or_date : Option String → Option String → Option String
or_date none d = d
or_date (some t) d = if str_eq t "" then d else some t

abbrev pub fecha_registro_of : Output → Option String
fecha_registro_of (Output.contador c) = c.fecha_registro
fecha_registro_of _ = none

-- The date of the document: of the first staged transaction, else of the contador's output.
abbrev pub raw_fecha : AgentState → Option String
raw_fecha s = elim s.raw_transactions [
  | [] ↦ fecha_registro_of s.contador_output
  | t ∷ ts ↦ or_date t.fecha (fecha_registro_of s.contador_output)
]

abbrev pub asks_for_fecha : List Transaction → Bool
asks_for_fecha [] = false
asks_for_fecha (t ∷ ts) = t.needs_user_fecha

abbrev pub blank : String → Bool
blank t = is_empty (strip (codes t))

unfoldable pub pre_persist_findings : (Option String → Bool) → AgentState → List AuditFinding
pre_persist_findings readable s =
    when (blank s.pending_transaction_id) (
      persist_finding "PREP-MISSING-PENDING-TRANSACTION" Severity.blocker false
        ResponsibleAgent.persist)
    ++ (when (asks_for_fecha s.raw_transactions || not (readable (raw_fecha s)))
          (persist_finding "ING-FECHA-MISSING" Severity.blocker true ResponsibleAgent.contador)
        ++ asiento_findings (asientos_of s.contador_output))

-- `pre_persist_auditor.run`.
unfoldable pub pre_persist_run : (Option String → Bool) → AgentState → ℕ → AuditReport
pre_persist_run readable s attempt = elim s.mode [
  | Mode.process ↦ report_of AuditTarget.pre_persist (pre_persist_findings readable s) attempt
  | _ ↦ report_of AuditTarget.pre_persist [] attempt
]
