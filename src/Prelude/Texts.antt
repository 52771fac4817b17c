-- ===== src/Prelude/Texts.antt =====
-- Text in two forms: the native `String` where the program only compares or prints a text, and the
-- list of its character codes where it slices, strips or measures it.
use Prim.Native.Char.{code}
use Prim.Native.String.{String}
use text.Mathlib.Text.{◌==◌ as str_eq}
use mathlib.Core.List.{reverse}
use backend_pae_account_mult.Prelude.{
  ℕ, Bool, true, false, not, ◌&&◌, ◌||◌, leb, Option, none, some, List, [], ◌∷◌, ◌==◌,
  if◌then◌else◌,
}
pub use Prim.Native.String.{String}
pub use text.Mathlib.Text.{◌==◌ as str_eq}

-- The codes of an ASCII text.
abbrev pub codes : String → List ℕ
codes String.[] = []
codes (String.◌∷◌ c s) = code c ∷ codes s

-- Whether Python's `if s:` takes a text.
abbrev pub truthy : Option String → Bool
truthy none = false
truthy (some s) = not (str_eq s "")

-- Python's `a or b` on texts that may be missing.
abbrev pub or_else : Option String → Option String → Option String
or_else a b = if truthy a then a else b

-- `xs == ys` on texts as lists of codes.
abbrev pub codes_eq : List ℕ → List ℕ → Bool
codes_eq [] [] = true
codes_eq [] (y ∷ ys) = false
codes_eq (x ∷ xs) [] = false
codes_eq (x ∷ xs) (y ∷ ys) = (x == y) && codes_eq xs ys

abbrev pub is_space : ℕ → Bool
is_space c = c == b' ' || ((leb 9 c && leb c 13) || (leb 28 c && leb c 31))

abbrev pub lstrip : List ℕ → List ℕ
lstrip [] = []
lstrip (c ∷ cs) = if is_space c then lstrip cs else c ∷ cs

-- `s.strip()` on an ASCII text.
unfoldable pub strip : List ℕ → List ℕ
strip s = reverse (lstrip (reverse (lstrip s)))
