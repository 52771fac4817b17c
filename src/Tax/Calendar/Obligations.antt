-- ===== src/Tax/Calendar/Obligations.antt =====
-- The list of obligations: what it holds, its order, and the refused NITs.
use mathlib.Core.List.{Perm}
use backend_pae_account_mult.Prelude.{
  ℕ, ◌≡◌, refl, true, ◌&&◌, Option, none, some, List, [], ◌∷◌, ◌++◌, map, All, inl, inr, Bool-cases,
  if◌then◌else◌,
}
use backend_pae_account_mult.Prelude.Int.{ℤ, pos, leb_ℤ}
use backend_pae_account_mult.Prelude.Texts.{String, str_eq}
use backend_pae_account_mult.Tax.Nit.{last_digit}
use backend_pae_account_mult.Tax.Calendar.{
  Date, Due, retefuente, iva_bimestral, iva_cuatrimestral, renta_pj, ica_anual, get_due,
  CalendarEntry, deadline_of, make_entry, calendars, calendar_in, answer, bad_nit, get_deadline,
  calls, calls_of_ica, calls_of_iva, collect, sort_entries, is_regime, is_periodicidad,
  list_obligations,
}
use backend_pae_account_mult.Tax.Calendar.Order.{IsSorted, sort_entries-IsSorted, sort_entries-Perm}

module _ (days : Date → Date → ℤ) (nit : List ℕ) (today : Date) (alert_days : ℤ) where
  -- The entry of a due date, for a last digit.
  abbrev pub entry_of : ℕ → String → Due → CalendarEntry
  entry_of digit form d = record {
    form_type = form;
    period = d.period;
    deadline = deadline_of d digit;
    days_until = days (deadline_of d digit) today;
    alert =
        leb_ℤ (pos 0) (days (deadline_of d digit) today)
        && leb_ℤ (days (deadline_of d digit) today) alert_days;
  }

  get_deadline-found :
      (form : String) (ds : List Due) (d : Due) {digit : ℕ}
      → last_digit nit ≡ some digit
      → calendar_in calendars form ≡ ds
      → get_due ds d.period ≡ some d
      → get_deadline days form d.period nit today alert_days ≡ answer (some (entry_of digit form d))
  unfolding get_deadline make_entry
  get_deadline-found form ds d {digit} e c g =
      let g' : get_due (calendar_in calendars form) d.period ≡ some d = rw c g in
      rw (g', e, get_deadline, make_entry) refl

  abbrev keys : String → List Due → List (String × String)
  keys form ds = map (λ d. (form, d.period)) ds

  collect-keys :
      (form : String) (table ds : List Due) (rest : List (String × String)) {digit : ℕ}
      {es : List CalendarEntry}
      → last_digit nit ≡ some digit
      → calendar_in calendars form ≡ table
      → All (λ d. get_due table d.period ≡ some d) ds
      → collect days rest nit today alert_days ≡ answer es
      → collect days (keys form ds ++ rest) nit today alert_days
        ≡ answer (map (entry_of digit form) ds ++ es)
  unfolding collect
  collect-keys form table [] rest {digit} {es} e c g r = r
  collect-keys form table (d ∷ ds) rest {digit} {es} e c g r =
      rw (get_deadline-found form table d e c g.0, collect-keys form table ds rest e c g.1 r) refl

  -- What is due in the year, in the order of the calls.
  abbrev pub obligations_of_iva : ℕ → String → List CalendarEntry
  obligations_of_iva digit regime =
      if str_eq regime "bimestral"
      then map (entry_of digit "iva_bimestral") iva_bimestral
      else map (entry_of digit "iva_cuatrimestral") iva_cuatrimestral

  abbrev pub obligations_of_ica : ℕ → Option String → List CalendarEntry
  obligations_of_ica digit none = []
  obligations_of_ica digit (some p) =
      if str_eq p "anual"
      then map (entry_of digit "ica_anual") ica_anual
      else if str_eq p "bimestral"
      then map (entry_of digit "ica_bimestral") iva_bimestral
      else []

  abbrev pub obligations : ℕ → String → Option String → List CalendarEntry
  obligations digit regime ica =
      map (entry_of digit "retefuente") retefuente
      ++ (obligations_of_iva digit regime
          ++ (map (entry_of digit "renta_pj") renta_pj ++ obligations_of_ica digit ica))

  -- Each period of a table is found in it.
  abbrev IsTable : List Due → Type 0
  IsTable ds = All (λ d. get_due ds d.period ≡ some d) ds

  collect-calendar :
      (form : String) (ds : List Due) (rest : List (String × String)) {digit : ℕ}
      {es : List CalendarEntry}
      → last_digit nit ≡ some digit
      → calendar_in calendars form ≡ ds
      → IsTable ds
      → collect days rest nit today alert_days ≡ answer es
      → collect days (keys form ds ++ rest) nit today alert_days
        ≡ answer (map (entry_of digit form) ds ++ es)
  collect-calendar form ds rest {digit} e c g r =
      collect-keys form ds ds rest {digit = digit} e c g r

  retefuente-IsTable : IsTable retefuente
  unfolding get_due
  retefuente-IsTable = (
    refl,
    (refl, (refl, (refl, (refl, (refl, (refl, (refl, (refl, (refl, (refl, (refl, tt))))))))))),
  )

  iva_bimestral-IsTable : IsTable iva_bimestral
  unfolding get_due
  iva_bimestral-IsTable = (refl, (refl, (refl, (refl, (refl, (refl, tt))))))

  iva_cuatrimestral-IsTable : IsTable iva_cuatrimestral
  unfolding get_due
  iva_cuatrimestral-IsTable = (refl, (refl, (refl, tt)))

  renta_pj-IsTable : IsTable renta_pj
  unfolding get_due
  renta_pj-IsTable = (refl, (refl, tt))

  ica_anual-IsTable : IsTable ica_anual
  unfolding get_due
  ica_anual-IsTable = (refl, tt)

  collect-ica :
      (ica : Option String) {digit : ℕ}
      → last_digit nit ≡ some digit
      → collect days (calls_of_ica ica) nit today alert_days ≡ answer (obligations_of_ica digit ica)
  unfolding collect calendar_in
  collect-ica none {digit} e = refl
  collect-ica (some p) {digit} e = elim (Bool-cases (str_eq p "anual")) [
    | inl k ↦ rw k (collect-calendar "ica_anual" ica_anual [] e refl ica_anual-IsTable refl)
    | inr k ↦ elim (Bool-cases (str_eq p "bimestral")) [
      | inl l ↦
          rw (k, l)
            (collect-calendar "ica_bimestral" iva_bimestral [] e refl iva_bimestral-IsTable refl)
      | inr l ↦ rw (k, l) refl
    ]
  ]

  collect-iva :
      (regime : String) (rest : List (String × String)) {digit : ℕ} {es : List CalendarEntry}
      → last_digit nit ≡ some digit
      → collect days rest nit today alert_days ≡ answer es
      → collect days (calls_of_iva regime ++ rest) nit today alert_days
        ≡ answer (obligations_of_iva digit regime ++ es)
  unfolding calendar_in
  collect-iva regime rest {digit} {es} e r = elim (Bool-cases (str_eq regime "bimestral")) [
    | inl k ↦
        rw k (collect-calendar "iva_bimestral" iva_bimestral rest e refl iva_bimestral-IsTable r)
    | inr k ↦ rw k (
        collect-calendar "iva_cuatrimestral" iva_cuatrimestral rest e refl iva_cuatrimestral-IsTable
          r)
  ]

  collect-calls :
      (regime : String) (ica : Option String) {digit : ℕ}
      → last_digit nit ≡ some digit
      → collect days (calls regime ica) nit today alert_days ≡ answer (obligations digit regime ica)
  unfolding calls calendar_in
  collect-calls regime ica {digit} e =
      let i = collect-ica ica {digit = digit} e in
      let r = collect-calendar "renta_pj" renta_pj (calls_of_ica ica) e refl renta_pj-IsTable i in
      let v = collect-iva regime (keys "renta_pj" renta_pj ++ calls_of_ica ica) e r in
      collect-calendar "retefuente" retefuente
        (calls_of_iva regime ++ (keys "renta_pj" renta_pj ++ calls_of_ica ica)) e refl
        retefuente-IsTable v

  -- For a NIT with a last digit, the year 2026 and a known regime and frequency, the list holds each
  -- obligation of the calendars once, on the day of that digit, in the order of deadlines.
  pub list_obligations-IsSorted :
      (regime : String) (ica : Option String) {digit : ℕ}
      → last_digit nit ≡ some digit
      → is_regime regime ≡ true
      → is_periodicidad ica ≡ true
      → (es : List CalendarEntry) × (list_obligations days nit 2026 regime alert_days today ica
          ≡ answer es)
        × IsSorted es
        × Perm es (obligations digit regime ica)
  unfolding list_obligations
  list_obligations-IsSorted regime ica {digit} e r i =
      let os = obligations digit regime ica in
      (
        sort_entries os,
        rw (r, i, collect-calls regime ica {digit = digit} e) refl,
        sort_entries-IsSorted os,
        sort_entries-Perm os,
      )

  get_deadline_refused :
      (form : String) (ds : List Due) (d : Due)
      → last_digit nit ≡ none
      → calendar_in calendars form ≡ ds
      → get_due ds d.period ≡ some d
      → get_deadline days form d.period nit today alert_days ≡ bad_nit
  unfolding get_deadline make_entry
  get_deadline_refused form ds d e c g =
      let g' : get_due (calendar_in calendars form) d.period ≡ some d = rw c g in
      rw (g', e, get_deadline, make_entry) refl

  january_refused :
      last_digit nit ≡ none
      → get_deadline days "retefuente" "2026-01" nit today alert_days ≡ bad_nit
  unfolding calendar_in
  january_refused e = get_deadline_refused "retefuente" retefuente _ e refl retefuente-IsTable.0

  -- A NIT without a last digit is refused, whatever the regime and the frequency, if these are known.
  pub list_obligations-bad_nit :
      (regime : String) (ica : Option String)
      → last_digit nit ≡ none
      → is_regime regime ≡ true
      → is_periodicidad ica ≡ true
      → list_obligations days nit 2026 regime alert_days today ica ≡ bad_nit
  unfolding list_obligations calls collect
  list_obligations-bad_nit regime ica e r i = rw (r, i, january_refused e) refl
