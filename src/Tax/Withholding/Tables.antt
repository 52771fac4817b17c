-- ===== src/Tax/Withholding/Tables.antt =====
-- The two tables of retencion_table.py (app/services), and the functions that read them.
use backend_pae_account_mult.Prelude.{
  ℕ, ◌*◌, leb, Bool, true, false, Option, none, some, List, [], ◌∷◌, if◌then◌else◌,
}
use backend_pae_account_mult.Tax.Withholding.{
  RetencionConcepto, RetencionRegla, regla, fecha_nueva_tabla, get_base_minima_pesos, rate_in,
  quantize,
}

abbrev pub tabla_original : List RetencionRegla
tabla_original =
    regla RetencionConcepto.compras_generales 25 10 (some true)
    ∷ regla RetencionConcepto.compras_generales 35 10 (some false)
    ∷ regla RetencionConcepto.compras_tarjeta 15 0 none
    ∷ regla RetencionConcepto.compras_agricolas_sin_proceso 15 70 none
    ∷ regla RetencionConcepto.compras_agricolas_con_proceso 25 10 (some true)
    ∷ regla RetencionConcepto.compras_agricolas_con_proceso 35 10 (some false)
    ∷ regla RetencionConcepto.compras_combustibles 1 0 none
    ∷ regla RetencionConcepto.compras_vehiculos 10 0 none
    ∷ regla RetencionConcepto.compras_bienes_raices_vivienda 10 0 none
    ∷ regla RetencionConcepto.compras_bienes_raices_no_vivienda 25 0 none
    ∷ regla RetencionConcepto.servicios_generales 40 2 (some true)
    ∷ regla RetencionConcepto.servicios_generales 60 2 (some false)
    ∷ regla RetencionConcepto.servicios_transporte_carga 10 2 none
    ∷ regla RetencionConcepto.servicios_transporte_terrestre 35 10 none
    ∷ regla RetencionConcepto.servicios_transporte_aereo_maritimo 10 2 none
    ∷ regla RetencionConcepto.servicios_temporales 10 2 none
    ∷ regla RetencionConcepto.servicios_vigilancia_aseo 20 2 none
    ∷ regla RetencionConcepto.servicios_ips 20 2 none
    ∷ regla RetencionConcepto.servicios_hoteles_restaurantes 35 2 none
    ∷ regla RetencionConcepto.arrendamiento_muebles 40 0 none
    ∷ regla RetencionConcepto.arrendamiento_inmuebles 35 10 none
    ∷ regla RetencionConcepto.otros_ingresos 25 10 (some true)
    ∷ regla RetencionConcepto.otros_ingresos 35 10 (some false)
    ∷ regla RetencionConcepto.honorarios_comisiones 110 0 (some true)
    ∷ regla RetencionConcepto.honorarios_comisiones 100 0 (some false)
    ∷ regla RetencionConcepto.software_licenciamiento 35 0 none
    ∷ regla RetencionConcepto.software_desarrollo 35 0 (some true)
    ∷ regla RetencionConcepto.software_desarrollo 110 0 (some false)
    ∷ regla RetencionConcepto.intereses_rendimientos 70 0 none
    ∷ regla RetencionConcepto.rendimientos_renta_fija 40 0 none
    ∷ regla RetencionConcepto.loterias_rifas 200 48 none
    ∷ regla RetencionConcepto.construccion_urbanizacion 20 10 none
    ∷ regla RetencionConcepto.retencion_iva_servicios 150 2 none
    ∷ regla RetencionConcepto.retencion_iva_compras 150 10 none
    ∷ []

abbrev pub tabla_mayo_2026 : List RetencionRegla
tabla_mayo_2026 =
    regla RetencionConcepto.compras_generales 25 27 (some true)
    ∷ regla RetencionConcepto.compras_generales 35 27 (some false)
    ∷ regla RetencionConcepto.compras_tarjeta 15 0 none
    ∷ regla RetencionConcepto.compras_agricolas_sin_proceso 15 92 none
    ∷ regla RetencionConcepto.compras_agricolas_con_proceso 25 27 (some true)
    ∷ regla RetencionConcepto.compras_agricolas_con_proceso 35 27 (some false)
    ∷ regla RetencionConcepto.compras_combustibles 1 0 none
    ∷ regla RetencionConcepto.compras_vehiculos 10 0 none
    ∷ regla RetencionConcepto.compras_bienes_raices_vivienda 10 0 none
    ∷ regla RetencionConcepto.compras_bienes_raices_no_vivienda 25 0 none
    ∷ regla RetencionConcepto.servicios_generales 40 4 (some true)
    ∷ regla RetencionConcepto.servicios_generales 60 4 (some false)
    ∷ regla RetencionConcepto.servicios_transporte_carga 10 4 none
    ∷ regla RetencionConcepto.servicios_transporte_terrestre 35 27 none
    ∷ regla RetencionConcepto.servicios_transporte_aereo_maritimo 10 4 none
    ∷ regla RetencionConcepto.servicios_temporales 10 4 none
    ∷ regla RetencionConcepto.servicios_vigilancia_aseo 20 4 none
    ∷ regla RetencionConcepto.servicios_ips 20 4 none
    ∷ regla RetencionConcepto.servicios_hoteles_restaurantes 35 4 none
    ∷ regla RetencionConcepto.arrendamiento_muebles 40 0 none
    ∷ regla RetencionConcepto.arrendamiento_inmuebles 35 27 none
    ∷ regla RetencionConcepto.otros_ingresos 25 27 (some true)
    ∷ regla RetencionConcepto.otros_ingresos 35 27 (some false)
    ∷ regla RetencionConcepto.honorarios_comisiones 110 0 (some true)
    ∷ regla RetencionConcepto.honorarios_comisiones 100 0 (some false)
    ∷ regla RetencionConcepto.software_licenciamiento 35 0 none
    ∷ regla RetencionConcepto.software_desarrollo 35 0 (some true)
    ∷ regla RetencionConcepto.software_desarrollo 110 0 (some false)
    ∷ regla RetencionConcepto.intereses_rendimientos 70 0 none
    ∷ regla RetencionConcepto.rendimientos_renta_fija 40 0 none
    ∷ regla RetencionConcepto.loterias_rifas 200 48 none
    ∷ regla RetencionConcepto.construccion_urbanizacion 20 27 none
    ∷ regla RetencionConcepto.retencion_iva_servicios 150 4 none
    ∷ regla RetencionConcepto.retencion_iva_compras 150 27 none
    ∷ []

unfoldable pub get_tabla : Option ℕ → List RetencionRegla
get_tabla none = tabla_original
get_tabla (some fecha) = if leb fecha_nueva_tabla fecha then tabla_mayo_2026 else tabla_original

unfoldable pub get_retencion_rate :
    RetencionConcepto → Bool → ℕ → Option ℕ → Option ℕ → Option ℕ → (ℕ → Option ℕ) → ℕ → Option ℕ
get_retencion_rate c es_declarante base fecha uvt fiscal_year db today =
    rate_in (get_tabla fecha) c es_declarante base
      (λ n. get_base_minima_pesos n uvt fiscal_year db today)

abbrev pub withheld : ℕ → Option ℕ → ℕ
withheld base none = 0
withheld base (some rate) = quantize (base * rate)

unfoldable pub calcular_retencion : RetencionConcepto → Bool → ℕ → Option ℕ → (ℕ → Option ℕ) → ℕ → ℕ
calcular_retencion c es_declarante base fecha db today =
    withheld base (get_retencion_rate c es_declarante base fecha none none db today)
