-- ===== src/Tax/Nit.antt =====
-- NITs, the numbers of taxpayers: nit_utils.py and tax_calendar_service.py (`_last_digit`), and the
-- normalization and check digit of exogena_service.py (all in app/services).
--
-- A NIT is a list of character codes of an ASCII text. An absent NIT reads as the empty text where the
-- code writes `nit or ""`.
pub mod CheckDigit
pub mod Normal
use mathlib.Core.List.{reverse}
use backend_pae_account_mult.Prelude.{
  ℕ, ◌+◌, ◌*◌, ◌-◌, ◌%◌, ◌==◌, leb, Bool, true, false, not, ◌&&◌, ◌||◌, Option, none, some, List,
  [], ◌∷◌, any, all, filter, is_empty, get_last?, if◌then◌else◌,
}
use backend_pae_account_mult.Prelude.Texts.{strip}

abbrev pub is_digit : ℕ → Bool
is_digit c = leb b'0' c && leb c b'9'

-- `_NIT_RE.sub("", nit)`
unfoldable pub normalize_nit_dian : List ℕ → List ℕ
normalize_nit_dian nit = filter is_digit nit

abbrev pub dv_weights : List ℕ
dv_weights = 3 ∷ 7 ∷ 13 ∷ 17 ∷ 19 ∷ 23 ∷ 29 ∷ 37 ∷ 41 ∷ 43 ∷ 47 ∷ 53 ∷ 59 ∷ 67 ∷ 71 ∷ []

-- The loop over the digits from the right; it ends with the weights or with the digits.
unfoldable pub weighted : List ℕ → List ℕ → ℕ
weighted [] ds = 0
weighted (w ∷ ws) [] = 0
weighted (w ∷ ws) (d ∷ ds) = (d - b'0') * w + weighted ws ds

-- `resto if resto <= 1 else 11 - resto`
abbrev pub dv_of : ℕ → ℕ
dv_of resto = if leb resto 1 then resto else 11 - resto

-- The check digit, none where the code returns the empty text.
unfoldable pub nit_dv : List ℕ → Option ℕ
nit_dv nit =
    let digits = normalize_nit_dian nit in
    if is_empty digits then none else some (dv_of (weighted dv_weights (reverse digits) % 11))

abbrev pub is_alnum : ℕ → Bool
is_alnum c = is_digit c || ((leb b'A' c && leb c b'Z') || (leb b'a' c && leb c b'z'))

abbrev pub is_kept : ℕ → Bool
is_kept c = is_alnum c || c == b'-'

-- `.replace(" ", "").replace(".", "")`
unfoldable pub without_marks : List ℕ → List ℕ
without_marks s = filter (λ c. not (c == b'.')) (filter (λ c. not (c == b' ')) s)

-- None where the code raises ValueError.
unfoldable pub normalize_nit : List ℕ → Option (List ℕ)
normalize_nit value =
    let cleaned = without_marks (strip value) in
    if is_empty cleaned then none else some (filter is_kept cleaned)

-- The outer option is the error, the inner one the answer None.
unfoldable pub normalize_optional_nit : Option (List ℕ) → Option (Option (List ℕ))
normalize_optional_nit none = some none
normalize_optional_nit (some value) =
    let raw = strip value in
    if is_empty raw
    then some none
    else elim (normalize_nit raw) [ none ↦ none | some nit ↦ some (some nit) ]

-- `raw.split("-", 1)[0]`
abbrev pub before_dash : List ℕ → List ℕ
before_dash [] = []
before_dash (c ∷ cs) = if c == b'-' then [] else c ∷ before_dash cs

-- The last digit of the NIT without its check digit; none where the code raises ValueError.
unfoldable pub last_digit : List ℕ → Option ℕ
last_digit nit =
    if is_empty (strip nit)
    then none
    else (let base = before_dash (without_marks (strip nit)) in
        if all is_digit base
        then elim (get_last? base) [ none ↦ none | some c ↦ some (c - b'0') ]
        else none)
