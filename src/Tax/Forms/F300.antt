-- ===== src/Tax/Forms/F300.antt =====
-- app/services/dian_forms/f300_2025.py: the declaration of IVA, boxes 27 to 93.
use backend_pae_account_mult.Prelude.{List, [], ◌∷◌, ◌++◌}
use backend_pae_account_mult.Prelude.Int.{◌+ℤ◌, ◌-ℤ◌}
use backend_pae_account_mult.Tax.Catalog.{Casilla, subtotal_box, manual_box, box}
use backend_pae_account_mult.Tax.Forms.{sum_from, at_least_0, boxes}

abbrev pub ingresos : List Casilla
ingresos =
    boxes 27 14
    ++ (subtotal_box 41 (λ v. sum_from v 27 14) ∷ box 42 ∷ subtotal_box 43 (λ v. v 41 -ℤ v 42) ∷ [])

abbrev pub compras : List Casilla
compras =
    boxes 44 11
    ++ (subtotal_box 55 (λ v. sum_from v 44 11) ∷ box 56 ∷ subtotal_box 57 (λ v. v 55 -ℤ v 56) ∷ [])

abbrev pub generado : List Casilla
generado = boxes 58 9 ++ (subtotal_box 67 (λ v. sum_from v 58 9) ∷ [])

abbrev pub descontable : List Casilla
descontable =
    boxes 68 9
    ++ (subtotal_box 77 (λ v. sum_from v 68 9)
        ∷ box 78
        ∷ box 79
        ∷ box 80
        ∷ subtotal_box 81 (λ v. v 77 +ℤ v 78 +ℤ v 79 -ℤ v 80)
        ∷ [])

abbrev pub liquidacion : List Casilla
liquidacion =
    subtotal_box 82 (λ v. at_least_0 (v 67 -ℤ v 81))
    ∷ subtotal_box 83 (λ v. at_least_0 (v 81 -ℤ v 67))
    ∷ manual_box 84
    ∷ manual_box 85
    ∷ subtotal_box 86 (λ v. at_least_0 (v 82 -ℤ v 84 -ℤ v 85))
    ∷ manual_box 87
    ∷ subtotal_box 88 (λ v. at_least_0 (v 82 +ℤ v 87 -ℤ v 84 -ℤ v 85))
    ∷ subtotal_box 89 (λ v. at_least_0 (v 83 +ℤ v 84 +ℤ v 85 -ℤ v 87))
    ∷ manual_box 90
    ∷ manual_box 91
    ∷ manual_box 92
    ∷ manual_box 93
    ∷ []

abbrev pub catalog_f300 : List Casilla
catalog_f300 = ingresos ++ (compras ++ (generado ++ (descontable ++ liquidacion)))
