-- ===== src/Tax/Withholding/Rates.antt =====
-- What the two tables of withholding rates have in common, and how much is withheld.
use backend_pae_account_mult.Prelude.{
  ℕ, ◌+◌, ◌*◌, ◌≤◌, ◌≡◌, refl, ◌==◌, leb, Bool, true, false, ◌&&◌, Option, none, some, List, [],
  ◌∷◌, all, arith, inl, inr, Bool-cases, ==_iff, leb→le, if◌then◌else◌,
}
use mathlib.Core.Path.{subst}
use backend_pae_account_mult.Tax.Withholding.{
  RetencionConcepto, RetencionRegla, code_of, bool_eq, fecha_nueva_tabla, whole_pesos, from_db,
  year_of, get_base_minima_pesos, matches, rate_in, quantize,
}
use backend_pae_account_mult.Tax.Withholding.Tables.{
  tabla_original, tabla_mayo_2026, get_tabla, get_retencion_rate, withheld, calcular_retencion,
}

-- The rules of the second table are those of the first, with minimal bases that are no lower.
abbrev same_scope : Option Bool → Option Bool → Bool
same_scope none none = true
same_scope none (some b) = false
same_scope (some a) none = false
same_scope (some a) (some b) = bool_eq a b

unfoldable raises : RetencionRegla → RetencionRegla → Bool
raises r s =
    ((code_of r.concepto == code_of s.concepto) && (r.tarifa == s.tarifa))
    && (same_scope r.aplica_declarante s.aplica_declarante
        && leb r.base_minima_uvt s.base_minima_uvt)

abbrev only_raises : List RetencionRegla → List RetencionRegla → Bool
only_raises [] [] = true
only_raises [] (s ∷ ss) = false
only_raises (r ∷ rs) [] = false
only_raises (r ∷ rs) (s ∷ ss) = raises r s && only_raises rs ss

raises-matches :
    (c : RetencionConcepto) (e : Bool) (r s : RetencionRegla)
    → raises r s ≡ true
    → matches c e r ≡ matches c e s
unfolding matches raises
raises-matches c e r s h = ground arith

raises-tarifa : (r s : RetencionRegla) → raises r s ≡ true → r.tarifa ≡ s.tarifa
unfolding raises
raises-tarifa r s h = (==_iff r.tarifa s.tarifa).0 (ground arith)

raises-base : (r s : RetencionRegla) → raises r s ≡ true → r.base_minima_uvt ≤ s.base_minima_uvt
unfolding raises
raises-base r s h = leb→le r.base_minima_uvt s.base_minima_uvt (ground arith)

-- Any rate of the second table is the rate of the first.
rate_step :
    (r s : RetencionRegla) (rs ss : List RetencionRegla) (c : RetencionConcepto) (e : Bool)
    (base : ℕ) (minima : ℕ → ℕ) {t : ℕ}
    → matches c e r ≡ matches c e s
    → r.tarifa ≡ s.tarifa
    → minima r.base_minima_uvt ≤ minima s.base_minima_uvt
    → (rate_in ss c e base minima ≡ some t → rate_in rs c e base minima ≡ some t)
    → rate_in (s ∷ ss) c e base minima ≡ some t
    → rate_in (r ∷ rs) c e base minima ≡ some t
unfolding rate_in
rate_step r s rs ss c e base minima {t} m q l rest k = ground arith

rate_in-raises :
    (rs ss : List RetencionRegla) (c : RetencionConcepto) (e : Bool) (base : ℕ) (minima : ℕ → ℕ)
    {t : ℕ}
    → ((n m : ℕ) → n ≤ m → minima n ≤ minima m)
    → only_raises rs ss ≡ true
    → rate_in ss c e base minima ≡ some t
    → rate_in rs c e base minima ≡ some t
rate_in-raises [] [] c e base minima {t} mono h k = k
rate_in-raises [] (s ∷ ss) c e base minima {t} mono h k = ground arith
rate_in-raises (r ∷ rs) [] c e base minima {t} mono h k = ground arith
rate_in-raises (r ∷ rs) (s ∷ ss) c e base minima {t} mono h k =
    let u : raises r s ≡ true = ground arith in
    let v : only_raises rs ss ≡ true = ground arith in
    rate_step r s rs ss c e base minima (raises-matches c e r s u) (raises-tarifa r s u)
      (mono r.base_minima_uvt s.base_minima_uvt (raises-base r s u))
      (rate_in-raises rs ss c e base minima {t = t} mono v) k

whole_pesos_mono : (c d : ℕ) → c ≤ d → whole_pesos c ≤ whole_pesos d
whole_pesos_mono c d h = omega arith

from_db_mono : (n m : ℕ) (o : Option ℕ) → n ≤ m → from_db n o ≤ from_db m o
from_db_mono n m none h = omega arith
from_db_mono n m (some u) h = whole_pesos_mono (n * u) (m * u) (grind arith)

pub base_mono :
    (n m : ℕ) (uvt fiscal_year : Option ℕ) (db : ℕ → Option ℕ) (today : ℕ)
    → n ≤ m
    → get_base_minima_pesos n uvt fiscal_year db today
      ≤ get_base_minima_pesos m uvt fiscal_year db today
unfolding get_base_minima_pesos
base_mono n m (some u) fiscal_year db today h = whole_pesos_mono (n * u) (m * u) (grind arith)
base_mono n m none fiscal_year db today h = from_db_mono n m (db (year_of fiscal_year today)) h

-- Half-even rounding moves an amount by at most half a centavo.
quantize_bounds : (n : ℕ) → (quantize n * 1000 ≤ n + 500) × (n ≤ quantize n * 1000 + 500)
unfolding quantize
quantize_bounds n = ground arith

tables_raise : only_raises tabla_original tabla_mayo_2026 ≡ true
unfolding raises
tables_raise = refl

-- The second table withholds nothing that the first does not: a payment that has a rate on or after
-- 8 May 2026 has the same rate under the first table.
pub get_retencion_rate-raises :
    (c : RetencionConcepto) (e : Bool) (base fecha : ℕ) (uvt fiscal_year : Option ℕ)
    (db : ℕ → Option ℕ) (today : ℕ) {t : ℕ}
    → get_retencion_rate c e base (some fecha) uvt fiscal_year db today ≡ some t
    → get_retencion_rate c e base none uvt fiscal_year db today ≡ some t
unfolding get_retencion_rate get_tabla
get_retencion_rate-raises c e base fecha uvt fiscal_year db today {t} k =
    elim (Bool-cases (leb fecha_nueva_tabla fecha)) [
      | inl h ↦
          let minima : ℕ → ℕ = λ n. get_base_minima_pesos n uvt fiscal_year db today in
          rate_in-raises tabla_original tabla_mayo_2026 c e base minima {t = t}
            (λ n m l. base_mono n m uvt fiscal_year db today l) tables_raise
            (subst
              (λ b.
                rate_in (if b then tabla_mayo_2026 else tabla_original) c e base minima ≡ some t)
              h k)
      | inr h ↦
          let minima : ℕ → ℕ = λ n. get_base_minima_pesos n uvt fiscal_year db today in
          subst
            (λ b. rate_in (if b then tabla_mayo_2026 else tabla_original) c e base minima ≡ some t)
            h k
    ]

-- The highest rate, and the highest minimal base, of a list of rules.
abbrev pub within : ℕ → ℕ → List RetencionRegla → Bool
within rate base rs = all (λ r. leb r.tarifa rate && leb r.base_minima_uvt base) rs

rate_in-within :
    (rate top : ℕ) (rs : List RetencionRegla) (c : RetencionConcepto) (e : Bool) (base : ℕ)
    (minima : ℕ → ℕ) {t : ℕ}
    → within rate top rs ≡ true
    → rate_in rs c e base minima ≡ some t
    → t ≤ rate
unfolding rate_in
rate_in-within rate top [] c e base minima {t} w k = ground arith
rate_in-within rate top (r ∷ rs) c e base minima {t} w k =
    ground (arith, rate_in-within rate top rs c e base minima {t = t})

pub get_tabla-within : (fecha : Option ℕ) → within 200 92 (get_tabla fecha) ≡ true
unfolding get_tabla
get_tabla-within none = refl
get_tabla-within (some fecha) = elim (Bool-cases (leb fecha_nueva_tabla fecha)) [
  | inl h ↦ rw h refl
  | inr h ↦ rw h refl
]

-- At most a fifth of the base is withheld, to half a centavo.
withheld_bounds :
    (base : ℕ) (o : Option ℕ)
    → ((t : ℕ) → o ≡ some t → t ≤ 200)
    → withheld base o * 1000 ≤ base * 200 + 500
withheld_bounds base none h = omega arith
withheld_bounds base (some t) h =
    let l : base * t ≤ base * 200 = (let q = h t refl in grind arith) in
    omega (arith, l, quantize_bounds (base * t))

-- At most a fifth of the base of a payment is withheld, up to half a centavo of rounding.
pub calcular_retencion-bounds :
    (c : RetencionConcepto) (e : Bool) (base : ℕ) (fecha : Option ℕ) (db : ℕ → Option ℕ) (today : ℕ)
    → calcular_retencion c e base fecha db today * 1000 ≤ base * 200 + 500
unfolding calcular_retencion get_retencion_rate
calcular_retencion-bounds c e base fecha db today =
    withheld_bounds base (get_retencion_rate c e base fecha none none db today)
      (λ t k. rate_in-within 200 92 (get_tabla fecha) c e base _ (get_tabla-within fecha) k)
