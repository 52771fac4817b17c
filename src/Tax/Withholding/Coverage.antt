-- ===== src/Tax/Withholding/Coverage.antt =====
-- From which base on a withholding rate is in force.
use backend_pae_account_mult.Prelude.{
  ℕ, ◌≤◌, ◌≡◌, leb, Bool, true, false, ◌&&◌, Option, none, some, List, [], ◌∷◌, any, arith, inl,
  inr, Bool-cases,
}
use backend_pae_account_mult.Tax.Withholding.{
  RetencionConcepto, RetencionRegla, fecha_nueva_tabla, get_base_minima_pesos, matches, rate_in,
}
use backend_pae_account_mult.Tax.Withholding.Rates.{within, base_mono, get_tabla-within}
use backend_pae_account_mult.Tax.Withholding.Tables.{
  tabla_original, tabla_mayo_2026, get_tabla, get_retencion_rate,
}

-- A rate is in force from its minimal base on.
rate_in_mono :
    (rs : List RetencionRegla) (c : RetencionConcepto) (e : Bool) (base base' : ℕ) (minima : ℕ → ℕ)
    {t : ℕ}
    → base ≤ base'
    → rate_in rs c e base minima ≡ some t
    → rate_in rs c e base' minima ≡ some t
unfolding rate_in
rate_in_mono [] c e base base' minima {t} l k = k
rate_in_mono (r ∷ rs) c e base base' minima {t} l k =
    ground (arith, rate_in_mono rs c e base base' minima {t = t} l)

-- Both tables have a rule for every concept and recipient.
abbrev covers : RetencionConcepto → List RetencionRegla → Bool
covers c rs = any (matches c true) rs && any (matches c false) rs

original_covers : (c : RetencionConcepto) → covers c tabla_original ≡ true
unfolding matches
original_covers c = ground arith

mayo_covers : (c : RetencionConcepto) → covers c tabla_mayo_2026 ≡ true
unfolding matches
mayo_covers c = ground arith

any_of_covers :
    (c : RetencionConcepto) (e : Bool) (rs : List RetencionRegla)
    → covers c rs ≡ true
    → any (matches c e) rs ≡ true
any_of_covers c true rs h = ground arith
any_of_covers c false rs h = ground arith

get_tabla-covers :
    (c : RetencionConcepto) (e : Bool) (fecha : Option ℕ)
    → any (matches c e) (get_tabla fecha) ≡ true
unfolding get_tabla
get_tabla-covers c e none = any_of_covers c e tabla_original (original_covers c)
get_tabla-covers c e (some fecha) = elim (Bool-cases (leb fecha_nueva_tabla fecha)) [
  | inl h ↦ rw h (any_of_covers c e tabla_mayo_2026 (mayo_covers c))
  | inr h ↦ rw h (any_of_covers c e tabla_original (original_covers c))
]

rate_in-covered :
    (rate top : ℕ) (rs : List RetencionRegla) (c : RetencionConcepto) (e : Bool) (base : ℕ)
    (minima : ℕ → ℕ)
    → ((n m : ℕ) → n ≤ m → minima n ≤ minima m)
    → within rate top rs ≡ true
    → any (matches c e) rs ≡ true
    → minima top ≤ base
    → (t : ℕ) × (rate_in rs c e base minima ≡ some t) × (t ≤ rate)
unfolding rate_in
rate_in-covered rate top [] c e base minima mono w a l = ground arith
rate_in-covered rate top (r ∷ rs) c e base minima mono w a l =
    let m = mono r.base_minima_uvt top in
    elim (Bool-cases (matches c e r)) [
      | inl k ↦ (r.tarifa, ground (arith, m), ground arith)
      | inr k ↦
          let (t, q, b) =
            rate_in-covered rate top rs c e base minima mono (ground arith) (ground arith) l in
          (t, ground arith, b)
    ]

-- Every concept has a rate, of at most 20 %, for both kinds of recipient and at every date, on a base of
-- at least 92 UVT.
pub get_retencion_rate-covered :
    (c : RetencionConcepto) (e : Bool) (base : ℕ) (fecha uvt fiscal_year : Option ℕ)
    (db : ℕ → Option ℕ) (today : ℕ)
    → get_base_minima_pesos 92 uvt fiscal_year db today ≤ base
    → (t : ℕ) × (get_retencion_rate c e base fecha uvt fiscal_year db today ≡ some t) × (t ≤ 200)
unfolding get_retencion_rate
get_retencion_rate-covered c e base fecha uvt fiscal_year db today l =
    rate_in-covered 200 92 (get_tabla fecha) c e base _
      (λ n m h. base_mono n m uvt fiscal_year db today h) (get_tabla-within fecha)
      (get_tabla-covers c e fecha) l

-- A rate that is in force for a base is in force, unchanged, for every larger base.
pub get_retencion_rate_mono :
    (c : RetencionConcepto) (e : Bool) (base base' : ℕ) (fecha uvt fiscal_year : Option ℕ)
    (db : ℕ → Option ℕ) (today : ℕ) {t : ℕ}
    → base ≤ base'
    → get_retencion_rate c e base fecha uvt fiscal_year db today ≡ some t
    → get_retencion_rate c e base' fecha uvt fiscal_year db today ≡ some t
unfolding get_retencion_rate
get_retencion_rate_mono c e base base' fecha uvt fiscal_year db today {t} l k =
    rate_in_mono (get_tabla fecha) c e base base' _ {t = t} l k
