-- ===== src/Tax/Calendar.antt =====
-- tax_calendar_service.py (app/services): the due dates of 2026 and the obligations of a company.
--
-- Labels of periods are left out. A date is a year, a month and a day; the days between two dates are
-- the difference that Python's datetime gives, an argument of the definitions. The calendar stands
-- for the texts of its periods by themselves.
pub mod Order
pub mod Obligations
use backend_pae_account_mult.Prelude.{
  ℕ, zero, suc, ◌+◌, ◌*◌, ◌-◌, ◌%◌, ◌==◌, leb, Bool, true, false, not, ◌&&◌, Option, none, some,
  List, [], ◌∷◌, ◌++◌, map, any, if◌then◌else◌,
}
use backend_pae_account_mult.Prelude.Int.{ℤ, pos, leb_ℤ}
use backend_pae_account_mult.Prelude.Texts.{String, str_eq}
use backend_pae_account_mult.Tax.Nit.{last_digit}

pub record Date : Type 0 where
  pub year : ℕ
  pub month : ℕ
  pub day : ℕ

-- What is due for a period: month, year and the days by last digit of the NIT, from 1 to 9 and then 0.
pub record Due : Type 0 where
  pub period : String
  pub due_month : ℕ
  pub due_year : ℕ
  pub schedule : List ℕ

abbrev pub due : String → ℕ → ℕ → List ℕ → Due
due p m y s = record { period = p; due_month = m; due_year = y; schedule = s }

abbrev pub retefuente : List Due
retefuente =
    due "2026-01" 2 2026 (10 ∷ 11 ∷ 12 ∷ 13 ∷ 16 ∷ 17 ∷ 18 ∷ 19 ∷ 20 ∷ 23 ∷ [])
    ∷ due "2026-02" 3 2026 (10 ∷ 11 ∷ 12 ∷ 13 ∷ 16 ∷ 17 ∷ 18 ∷ 19 ∷ 20 ∷ 24 ∷ [])
    ∷ due "2026-03" 4 2026 (13 ∷ 14 ∷ 15 ∷ 16 ∷ 20 ∷ 21 ∷ 22 ∷ 23 ∷ 24 ∷ 27 ∷ [])
    ∷ due "2026-04" 5 2026 (12 ∷ 13 ∷ 14 ∷ 15 ∷ 19 ∷ 20 ∷ 21 ∷ 22 ∷ 25 ∷ 26 ∷ [])
    ∷ due "2026-05" 6 2026 (10 ∷ 11 ∷ 12 ∷ 16 ∷ 17 ∷ 18 ∷ 19 ∷ 22 ∷ 23 ∷ 24 ∷ [])
    ∷ due "2026-06" 7 2026 (9 ∷ 10 ∷ 13 ∷ 14 ∷ 15 ∷ 16 ∷ 17 ∷ 21 ∷ 22 ∷ 23 ∷ [])
    ∷ due "2026-07" 8 2026 (12 ∷ 13 ∷ 14 ∷ 18 ∷ 19 ∷ 20 ∷ 21 ∷ 24 ∷ 25 ∷ 26 ∷ [])
    ∷ due "2026-08" 9 2026 (9 ∷ 10 ∷ 11 ∷ 14 ∷ 15 ∷ 16 ∷ 17 ∷ 18 ∷ 21 ∷ 22 ∷ [])
    ∷ due "2026-09" 10 2026 (9 ∷ 13 ∷ 14 ∷ 15 ∷ 16 ∷ 19 ∷ 20 ∷ 21 ∷ 22 ∷ 23 ∷ [])
    ∷ due "2026-10" 11 2026 (9 ∷ 10 ∷ 11 ∷ 14 ∷ 15 ∷ 16 ∷ 17 ∷ 18 ∷ 21 ∷ 22 ∷ [])
    ∷ due "2026-11" 12 2026 (10 ∷ 11 ∷ 14 ∷ 15 ∷ 16 ∷ 17 ∷ 18 ∷ 21 ∷ 22 ∷ 23 ∷ [])
    ∷ due "2026-12" 1 2027 (13 ∷ 14 ∷ 15 ∷ 18 ∷ 19 ∷ 20 ∷ 21 ∷ 22 ∷ 25 ∷ 26 ∷ [])
    ∷ []

abbrev pub iva_bimestral : List Due
iva_bimestral =
    due "2026-B1" 3 2026 (10 ∷ 11 ∷ 12 ∷ 13 ∷ 16 ∷ 17 ∷ 18 ∷ 19 ∷ 20 ∷ 24 ∷ [])
    ∷ due "2026-B2" 5 2026 (12 ∷ 13 ∷ 14 ∷ 15 ∷ 19 ∷ 20 ∷ 21 ∷ 22 ∷ 25 ∷ 26 ∷ [])
    ∷ due "2026-B3" 7 2026 (9 ∷ 10 ∷ 13 ∷ 14 ∷ 15 ∷ 16 ∷ 17 ∷ 21 ∷ 22 ∷ 23 ∷ [])
    ∷ due "2026-B4" 9 2026 (12 ∷ 13 ∷ 14 ∷ 15 ∷ 19 ∷ 20 ∷ 21 ∷ 22 ∷ 25 ∷ 26 ∷ [])
    ∷ due "2026-B5" 11 2026 (11 ∷ 12 ∷ 13 ∷ 17 ∷ 18 ∷ 19 ∷ 20 ∷ 23 ∷ 24 ∷ 25 ∷ [])
    ∷ due "2026-B6" 1 2027 (13 ∷ 14 ∷ 15 ∷ 18 ∷ 19 ∷ 20 ∷ 21 ∷ 22 ∷ 25 ∷ 26 ∷ [])
    ∷ []

abbrev pub iva_cuatrimestral : List Due
iva_cuatrimestral =
    due "2026-C1" 5 2026 (12 ∷ 13 ∷ 14 ∷ 15 ∷ 19 ∷ 20 ∷ 21 ∷ 22 ∷ 25 ∷ 26 ∷ [])
    ∷ due "2026-C2" 9 2026 (9 ∷ 10 ∷ 11 ∷ 14 ∷ 15 ∷ 16 ∷ 17 ∷ 18 ∷ 21 ∷ 22 ∷ [])
    ∷ due "2026-C3" 1 2027 (13 ∷ 14 ∷ 15 ∷ 18 ∷ 19 ∷ 20 ∷ 21 ∷ 22 ∷ 25 ∷ 26 ∷ [])
    ∷ []

abbrev pub renta_pj : List Due
renta_pj =
    due "2026-cuota1" 5 2026 (12 ∷ 13 ∷ 14 ∷ 15 ∷ 19 ∷ 20 ∷ 21 ∷ 22 ∷ 25 ∷ 26 ∷ [])
    ∷ due "2026-cuota2" 7 2026 (9 ∷ 10 ∷ 13 ∷ 14 ∷ 15 ∷ 16 ∷ 17 ∷ 21 ∷ 22 ∷ 23 ∷ [])
    ∷ []

abbrev pub ica_anual : List Due
ica_anual = due "2026-anual" 4 2027 (12 ∷ 13 ∷ 14 ∷ 15 ∷ 19 ∷ 20 ∷ 21 ∷ 22 ∷ 25 ∷ 26 ∷ []) ∷ []

-- `table.get(period)`
unfoldable pub get_due : List Due → String → Option Due
get_due [] p = none
get_due (d ∷ ds) p = if str_eq d.period p then some d else get_due ds p

-- `schedule[idx]`, zero past the end.
abbrev pub get_day : List ℕ → ℕ → ℕ
get_day [] i = 0
get_day (d ∷ ds) zero = d
get_day (d ∷ ds) (suc i) = get_day ds i

-- `schedule[(digit - 1) % 10]`; the digit 0 has the last place.
unfoldable pub day_for_digit : ℕ → List ℕ → ℕ
day_for_digit digit schedule = get_day schedule ((digit + 9) % 10)

pub record CalendarEntry : Type 0 where
  pub form_type : String
  pub period : String
  pub deadline : Date
  pub days_until : ℤ
  pub alert : Bool

abbrev pub deadline_of : Due → ℕ → Date
deadline_of d digit = record {
  year = d.due_year;
  month = d.due_month;
  day = day_for_digit digit d.schedule;
}

-- An entry, or none where the NIT is refused with ValueError.
unfoldable pub make_entry :
    (Date → Date → ℤ) → String → Due → List ℕ → Date → ℤ → Option CalendarEntry
make_entry days form d nit today alert_days = elim (last_digit nit) [
  | none ↦ none
  | some digit ↦
      let deadline = deadline_of d digit in
      some (record {
        form_type = form;
        period = d.period;
        deadline = deadline;
        days_until = days deadline today;
        alert = leb_ℤ (pos 0) (days deadline today) && leb_ℤ (days deadline today) alert_days;
      })
]

-- The table of a form type; for another form type there is none, and ICA by two months has that of IVA.
abbrev pub calendars : List (String × List Due)
calendars =
    ("retefuente", retefuente)
    ∷ ("iva_bimestral", iva_bimestral)
    ∷ ("iva_cuatrimestral", iva_cuatrimestral)
    ∷ ("renta_pj", renta_pj)
    ∷ ("ica_anual", ica_anual)
    ∷ ("ica_bimestral", iva_bimestral)
    ∷ []

unfoldable pub calendar_in : List (String × List Due) → String → List Due
calendar_in [] form = []
calendar_in ((f, t) ∷ ts) form = if str_eq f form then t else calendar_in ts form

-- What `get_deadline` and `list_obligations` answer.
pub data Answer {ℓ} (A : Type ℓ) : Type ℓ where
  answer : A → Answer A
  bad_nit unsupported_year unsupported_regime unsupported_ica : Answer A

abbrev pub entry_or_error : Option CalendarEntry → Answer (Option CalendarEntry)
entry_or_error none = bad_nit
entry_or_error (some e) = answer (some e)

unfoldable pub get_deadline :
    (Date → Date → ℤ) → String → String → List ℕ → Date → ℤ → Answer (Option CalendarEntry)
get_deadline days form period nit today alert_days =
    elim (get_due (calendar_in calendars form) period) [
      | none ↦ answer none
      | some d ↦ entry_or_error (make_entry days form d nit today alert_days)
    ]

-- The texts that the loops over months, bimesters, four-month periods and instalments format, for the
-- one year that is supported.
abbrev pub months : List String
months =
    "2026-01" ∷ "2026-02" ∷ "2026-03" ∷ "2026-04" ∷ "2026-05" ∷ "2026-06" ∷ "2026-07" ∷ "2026-08"
    ∷ "2026-09" ∷ "2026-10" ∷ "2026-11" ∷ "2026-12" ∷ []

abbrev pub bimesters : List String
bimesters = "2026-B1" ∷ "2026-B2" ∷ "2026-B3" ∷ "2026-B4" ∷ "2026-B5" ∷ "2026-B6" ∷ []

abbrev pub four_months : List String
four_months = "2026-C1" ∷ "2026-C2" ∷ "2026-C3" ∷ []

abbrev pub instalments : List String
instalments = "2026-cuota1" ∷ "2026-cuota2" ∷ []

abbrev pub calls_for : String → List String → List (String × String)
calls_for form periods = map (λ p. (form, p)) periods

-- The calls of `get_deadline`, in their order, for a regime of IVA and a frequency of ICA.
abbrev pub calls_of_iva : String → List (String × String)
calls_of_iva regime =
    if str_eq regime "bimestral"
    then calls_for "iva_bimestral" bimesters
    else calls_for "iva_cuatrimestral" four_months

abbrev pub calls_of_ica : Option String → List (String × String)
calls_of_ica none = []
calls_of_ica (some p) =
    if str_eq p "anual"
    then calls_for "ica_anual" ("2026-anual" ∷ [])
    else if str_eq p "bimestral"
    then calls_for "ica_bimestral" bimesters
    else []

unfoldable pub calls : String → Option String → List (String × String)
calls regime ica =
    calls_for "retefuente" months
    ++ (calls_of_iva regime ++ (calls_for "renta_pj" instalments ++ calls_of_ica ica))

abbrev pub append_entry : Option CalendarEntry → List CalendarEntry → List CalendarEntry
append_entry none es = es
append_entry (some e) es = e ∷ es

abbrev pub then_append :
    Answer (Option CalendarEntry) → Answer (List CalendarEntry) → Answer (List CalendarEntry)
then_append (answer e) (answer es) = answer (append_entry e es)
then_append (answer e) bad_nit = bad_nit
then_append (answer e) unsupported_year = unsupported_year
then_append (answer e) unsupported_regime = unsupported_regime
then_append (answer e) unsupported_ica = unsupported_ica
then_append bad_nit es = bad_nit
then_append unsupported_year es = unsupported_year
then_append unsupported_regime es = unsupported_regime
then_append unsupported_ica es = unsupported_ica

-- `e = get_deadline(...)` and `if e: entries.append(e)` for each call.
unfoldable pub collect :
    (Date → Date → ℤ) → List (String × String) → List ℕ → Date → ℤ → Answer (List CalendarEntry)
collect days [] nit today alert_days = answer []
collect days ((form, period) ∷ cs) nit today alert_days =
    then_append (get_deadline days form period nit today alert_days)
      (collect days cs nit today alert_days)

-- The order of dates, as one number.
abbrev pub date_key : Date → ℕ
date_key d = (d.year * 100 + d.month) * 100 + d.day

-- `entries.sort(key=...)`: by deadline, entries of one date in their order.
unfoldable pub insert_entry : CalendarEntry → List CalendarEntry → List CalendarEntry
insert_entry x [] = x ∷ []
insert_entry x (y ∷ ys) =
    let rest = insert_entry x ys in
    if leb (date_key x.deadline) (date_key y.deadline) then x ∷ y ∷ ys else y ∷ rest

unfoldable pub sort_entries : List CalendarEntry → List CalendarEntry
sort_entries [] = []
sort_entries (x ∷ xs) = insert_entry x (sort_entries xs)

abbrev pub is_regime : String → Bool
is_regime r = any (str_eq r) ("bimestral" ∷ "cuatrimestral" ∷ [])

abbrev pub is_periodicidad : Option String → Bool
is_periodicidad none = true
is_periodicidad (some p) = any (str_eq p) ("anual" ∷ "bimestral" ∷ [])

abbrev pub sorted_answer : Answer (List CalendarEntry) → Answer (List CalendarEntry)
sorted_answer (answer es) = answer (sort_entries es)
sorted_answer bad_nit = bad_nit
sorted_answer unsupported_year = unsupported_year
sorted_answer unsupported_regime = unsupported_regime
sorted_answer unsupported_ica = unsupported_ica

unfoldable pub list_obligations :
    (Date → Date → ℤ) → List ℕ → ℕ → String → ℤ → Date → Option String → Answer (List CalendarEntry)
list_obligations days nit year regime alert_days today ica =
    if not (year == 2026)
    then unsupported_year
    else if not (is_regime regime)
    then unsupported_regime
    else if not (is_periodicidad ica)
    then unsupported_ica
    else sorted_answer (collect days (calls regime ica) nit today alert_days)
