-- ===== src/Pipeline/Puc.antt =====
-- The PUC account helpers of app/agents/validation_rules.py. The table of accounts is a database
-- that the source only queries: `account` gives the name of an active account (none: no such row),
-- and `lookup_fails` says that the queries of `_missing_puc_codes` raise.
use backend_pae_account_mult.Prelude.{
  ℕ, Bool, true, false, not, ◌&&◌, Option, none, some, List, [], ◌∷◌, ◌++◌, map, length, take, any,
  filter, is_empty, ltb, leb, ◌==◌, if◌then◌else◌,
}
use backend_pae_account_mult.Prelude.Texts.{codes, codes_eq, strip}
use backend_pae_account_mult.Pipeline.State.{Asiento, Output, asientos_of, set_asientos}

abbrev pub Code : Type 0
Code = List ℕ

pub record PucDb : Type 0 where
  pub account : Code → Option Code
  pub lookup_fails : Bool

-- `validate_puc_exists(db, code)` is truthy.
abbrev pub exists : PucDb → Code → Bool
exists db code = elim (db.account code) [ none ↦ false | some name ↦ true ]

-- The shorter codes that `_resolve_puc_code` tries first, by the length of the code.
unfoldable pub prefixes : Code → List Code
prefixes code =
    if leb 6 (length code)
    then take 4 code ∷ take 2 code ∷ []
    else if length code == 5
    then take 4 code ∷ take 2 code ∷ []
    else if length code == 4
    then take 2 code ∷ []
    else []

-- `class_defaults.get(first_digit, [])`.
unfoldable pub class_defaults : Code → List Code
class_defaults [] = []
class_defaults (c ∷ cs) =
    if c == b'1'
    then codes "130505" ∷ codes "110505" ∷ codes "1305" ∷ codes "1105" ∷ []
    else if c == b'2'
    then codes "220505" ∷ codes "2205" ∷ codes "2105" ∷ codes "2335" ∷ []
    else if c == b'3'
    then codes "3105" ∷ []
    else if c == b'4'
    then codes "4170" ∷ codes "4135" ∷ []
    else if c == b'5'
    then codes "519595" ∷ codes "5195" ∷ codes "5135" ∷ codes "5110" ∷ []
    else if c == b'6'
    then codes "6170" ∷ codes "6135" ∷ []
    else []

-- The loop over the candidates; a repeated candidate would only be looked up twice, so the set
-- `seen` is left out.
unfoldable pub first_existing : PucDb → List Code → Option Code
first_existing db [] = none
first_existing db (candidate ∷ rest) =
    let cand = strip candidate in
    if not (is_empty cand) && exists db cand then some cand else first_existing db rest

-- The code of `_resolve_puc_code`; the name beside it is `name_of` that code.
unfoldable pub resolve_puc_code : PucDb → Code → Option Code
unfolding strip first_existing prefixes class_defaults
resolve_puc_code db raw =
    let code = strip raw in
    if is_empty code
    then none
    else if exists db code
    then some code
    else first_existing db (prefixes code ++ class_defaults code)

-- The stripped name of an account, none where it is empty.
unfoldable pub name_of : PucDb → Code → Option Code
unfolding strip
name_of db code = elim (db.account code) [
  | none ↦ none
  | some name ↦ if is_empty (strip name) then none else some (strip name)
]

abbrev pub or_code : Option Code → Code → Code
or_code none d = d
or_code (some c) d = c

-- The body of the loop of `_normalize_contador_puc_codes`: a code of more than six digits is an
-- auxiliary subaccount and stays.
unfoldable pub normalize_asiento : PucDb → Asiento → Asiento
unfolding strip resolve_puc_code name_of
normalize_asiento db a =
    let raw = strip a.cuenta_puc in
    if is_empty raw then a else if ltb 6 (length raw) then a else elim (resolve_puc_code db raw) [
      | none ↦ a
      | some code ↦ if codes_eq code raw then a else record a {
        cuenta_puc = code;
        nombre_cuenta = or_code (name_of db code) a.nombre_cuenta;
      }
    ]

unfoldable pub normalize_contador_puc_codes : PucDb → Output → Output
unfolding normalize_asiento
normalize_contador_puc_codes db o = set_asientos o (map (normalize_asiento db) (asientos_of o))

-- The codes that `_missing_puc_codes` collects, each stripped code once for each line.
unfoldable pub checked_codes : List Asiento → List Code
unfolding strip
checked_codes [] = []
checked_codes (a ∷ as') =
    let code = strip a.cuenta_puc in
    if not (is_empty a.cuenta_puc) && leb (length code) 6
    then code ∷ checked_codes as'
    else checked_codes as'

abbrev pub absent : PucDb → Code → Bool
absent db code = not (exists db code)

-- `_missing_puc_codes`; none where the lookup raises. The source sorts the codes and drops repeats,
-- which changes the text of the message and nothing else.
unfoldable pub missing_puc_codes : PucDb → Output → Option (List Code)
unfolding checked_codes
missing_puc_codes db o =
    let codes = checked_codes (asientos_of o) in
    if is_empty codes
    then some []
    else if db.lookup_fails
    then none
    else some (filter (absent db) codes)

-- The first non-empty text.
abbrev pub first_text : List Code → Code
first_text [] = codes "Cuenta contable"
first_text (t ∷ ts) = if is_empty t then first_text ts else t

-- The body of the loop of `_hydrate_contador_account_names`.
unfoldable pub hydrate_asiento : PucDb → Asiento → Asiento
unfolding strip name_of
hydrate_asiento db a =
    if not (is_empty (strip a.nombre_cuenta))
    then a
    else let cuenta = strip a.cuenta_puc in
      let nombre_puc = if is_empty cuenta then [] else or_code (name_of db cuenta) [] in
      record a { nombre_cuenta = first_text (nombre_puc ∷ strip a.descripcion ∷ cuenta ∷ []) }

unfoldable pub hydrate_contador_account_names : PucDb → Output → Output
unfolding hydrate_asiento
hydrate_contador_account_names db o = set_asientos o (map (hydrate_asiento db) (asientos_of o))

-- The remap under `force_persist`: lines with a missing code go to 519595.
unfoldable pub remap_asiento : List Code → Asiento → Asiento
unfolding strip
remap_asiento missing a =
    if any (codes_eq (strip a.cuenta_puc)) missing
    then record a { cuenta_puc = codes "519595"; nombre_cuenta = codes "Otros gastos diversos" }
    else a
