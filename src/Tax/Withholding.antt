-- ===== src/Tax/Withholding.antt =====
-- retencion_table.py (app/services): the withholding rates of 2026, their two tables and the amount that
-- is withheld.
--
-- A rate is in thousandths, an amount of money a number of centavos, not negative, and a UVT a number of
-- centavos. A date is its year, month and day as one number (20260508). What the table of parameters
-- of the database answers for a year is an argument, none also where the query fails.
pub mod Tables
pub mod Rates
pub mod Coverage
use backend_pae_account_mult.Prelude.{
  ℕ, ◌+◌, ◌*◌, ◌/◌, ◌%◌, ◌==◌, ltb, leb, Bool, true, false, not, ◌&&◌, Option, none, some, List, [],
  ◌∷◌, if◌then◌else◌,
}

pub data RetencionConcepto : Type 0 where
  compras_generales : RetencionConcepto
  compras_tarjeta : RetencionConcepto
  compras_agricolas_sin_proceso : RetencionConcepto
  compras_agricolas_con_proceso : RetencionConcepto
  compras_combustibles : RetencionConcepto
  compras_vehiculos : RetencionConcepto
  compras_bienes_raices_vivienda : RetencionConcepto
  compras_bienes_raices_no_vivienda : RetencionConcepto
  servicios_generales : RetencionConcepto
  servicios_transporte_carga : RetencionConcepto
  servicios_transporte_terrestre : RetencionConcepto
  servicios_transporte_aereo_maritimo : RetencionConcepto
  servicios_temporales : RetencionConcepto
  servicios_vigilancia_aseo : RetencionConcepto
  servicios_ips : RetencionConcepto
  servicios_hoteles_restaurantes : RetencionConcepto
  arrendamiento_muebles : RetencionConcepto
  arrendamiento_inmuebles : RetencionConcepto
  otros_ingresos : RetencionConcepto
  honorarios_comisiones : RetencionConcepto
  software_licenciamiento : RetencionConcepto
  software_desarrollo : RetencionConcepto
  intereses_rendimientos : RetencionConcepto
  rendimientos_renta_fija : RetencionConcepto
  loterias_rifas : RetencionConcepto
  construccion_urbanizacion : RetencionConcepto
  retencion_iva_servicios : RetencionConcepto
  retencion_iva_compras : RetencionConcepto

-- The place of a concept in the enumeration, by which two are compared.
abbrev pub code_of : RetencionConcepto → ℕ
code_of RetencionConcepto.compras_generales = 0
code_of RetencionConcepto.compras_tarjeta = 1
code_of RetencionConcepto.compras_agricolas_sin_proceso = 2
code_of RetencionConcepto.compras_agricolas_con_proceso = 3
code_of RetencionConcepto.compras_combustibles = 4
code_of RetencionConcepto.compras_vehiculos = 5
code_of RetencionConcepto.compras_bienes_raices_vivienda = 6
code_of RetencionConcepto.compras_bienes_raices_no_vivienda = 7
code_of RetencionConcepto.servicios_generales = 8
code_of RetencionConcepto.servicios_transporte_carga = 9
code_of RetencionConcepto.servicios_transporte_terrestre = 10
code_of RetencionConcepto.servicios_transporte_aereo_maritimo = 11
code_of RetencionConcepto.servicios_temporales = 12
code_of RetencionConcepto.servicios_vigilancia_aseo = 13
code_of RetencionConcepto.servicios_ips = 14
code_of RetencionConcepto.servicios_hoteles_restaurantes = 15
code_of RetencionConcepto.arrendamiento_muebles = 16
code_of RetencionConcepto.arrendamiento_inmuebles = 17
code_of RetencionConcepto.otros_ingresos = 18
code_of RetencionConcepto.honorarios_comisiones = 19
code_of RetencionConcepto.software_licenciamiento = 20
code_of RetencionConcepto.software_desarrollo = 21
code_of RetencionConcepto.intereses_rendimientos = 22
code_of RetencionConcepto.rendimientos_renta_fija = 23
code_of RetencionConcepto.loterias_rifas = 24
code_of RetencionConcepto.construccion_urbanizacion = 25
code_of RetencionConcepto.retencion_iva_servicios = 26
code_of RetencionConcepto.retencion_iva_compras = 27

pub record RetencionRegla : Type 0 where
  pub concepto : RetencionConcepto
  pub tarifa : ℕ
  pub base_minima_uvt : ℕ
  pub aplica_declarante : Option Bool

abbrev pub regla : RetencionConcepto → ℕ → ℕ → Option Bool → RetencionRegla
regla c t b a = record { concepto = c; tarifa = t; base_minima_uvt = b; aplica_declarante = a }

abbrev pub fecha_nueva_tabla : ℕ
fecha_nueva_tabla = 20260508

-- `UVT_2026`, in centavos.
abbrev pub uvt_2026 : ℕ
uvt_2026 = 5237400

-- `int(base_minima_uvt * uvt)`, a whole number of pesos, in centavos.
abbrev pub whole_pesos : ℕ → ℕ
whole_pesos c = c / 100 * 100

abbrev pub from_db : ℕ → Option ℕ → ℕ
from_db base (some uvt) = whole_pesos (base * uvt)
from_db base none = base * uvt_2026

abbrev pub year_of : Option ℕ → ℕ → ℕ
year_of (some year) today = year
year_of none today = today

-- The minimal base for a UVT that is given, or else for the one the database has for the year, or else
-- for that of 2026. The last two arguments are the database and the year of today.
unfoldable pub get_base_minima_pesos : ℕ → Option ℕ → Option ℕ → (ℕ → Option ℕ) → ℕ → ℕ
get_base_minima_pesos base (some uvt) fiscal_year db today = whole_pesos (base * uvt)
get_base_minima_pesos base none fiscal_year db today = from_db base (db (year_of fiscal_year today))

abbrev pub bool_eq : Bool → Bool → Bool
bool_eq true b = b
bool_eq false b = not b

-- A rule applies to a concept and a recipient.
abbrev pub applies_to : Option Bool → Bool → Bool
applies_to none es_declarante = true
applies_to (some a) es_declarante = bool_eq a es_declarante

unfoldable pub matches : RetencionConcepto → Bool → RetencionRegla → Bool
matches c es_declarante r =
    (code_of r.concepto == code_of c) && applies_to r.aplica_declarante es_declarante

-- The loop of `get_retencion_rate`, with the minimal base in pesos of each number of UVT.
unfoldable pub rate_in : List RetencionRegla → RetencionConcepto → Bool → ℕ → (ℕ → ℕ) → Option ℕ
rate_in [] c es_declarante base minima = none
rate_in (r ∷ rs) c es_declarante base minima =
    let rest = rate_in rs c es_declarante base minima in
    if not (matches c es_declarante r)
    then rest
    else if ltb base (minima r.base_minima_uvt)
    then none
    else some r.tarifa

-- `Decimal.quantize` to centavos of an amount in thousandths of a centavo: half to even.
unfoldable pub quantize : ℕ → ℕ
quantize n =
    if ltb (n % 1000) 500
    then n / 1000
    else if ltb 500 (n % 1000)
    then n / 1000 + 1
    else n / 1000 + n / 1000 % 2
