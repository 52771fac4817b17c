-- ===== src/Tax/Forms/F110.antt =====
-- app/services/dian_forms/f110_2024.py: the declaration of income tax, boxes 36 to 114.
use backend_pae_account_mult.Prelude.{List, [], ◌∷◌, ◌++◌}
use backend_pae_account_mult.Prelude.Int.{◌+ℤ◌, ◌-ℤ◌, max}
use backend_pae_account_mult.Tax.Catalog.{Casilla, Formula, subtotal_box, manual_box, box}
use backend_pae_account_mult.Tax.Forms.{sum_from, at_least_0, boxes}

abbrev pub patrimonio : List Casilla
patrimonio =
    boxes 36 8
    ++ (subtotal_box 44 (λ v. sum_from v 36 8) ∷ box 45 ∷ subtotal_box 46 (λ v. v 44 -ℤ v 45) ∷ [])

abbrev pub ingresos_renta : List Casilla
ingresos_renta =
    boxes 47 11
    ++ (subtotal_box 58 (λ v. sum_from v 47 11)
        ∷ box 59
        ∷ box 60
        ∷ subtotal_box 61 (λ v. v 58 -ℤ v 59 -ℤ v 60)
        ∷ [])

abbrev pub costos : List Casilla
costos = boxes 62 5 ++ (subtotal_box 67 (λ v. sum_from v 62 5) ∷ [])

abbrev pub renta_liquida : Formula
renta_liquida v =
    v 61 +ℤ v 69 +ℤ v 70 +ℤ v 71 -ℤ v 52 -ℤ v 53 -ℤ v 54 -ℤ v 55 -ℤ v 56 -ℤ v 67 -ℤ v 68

abbrev pub perdida_liquida : Formula
perdida_liquida v =
    v 52 +ℤ v 53 +ℤ v 54 +ℤ v 55 +ℤ v 56 +ℤ v 67 +ℤ v 68 -ℤ v 61 -ℤ v 69 -ℤ v 70 -ℤ v 71

abbrev pub renta : List Casilla
renta =
    boxes 68 4
    ++ (subtotal_box 72 (λ v. at_least_0 (renta_liquida v))
        ∷ subtotal_box 73 (λ v. at_least_0 (perdida_liquida v))
        ∷ manual_box 74
        ∷ subtotal_box 75 (λ v. at_least_0 (v 72 -ℤ v 74))
        ∷ box 76
        ∷ manual_box 77
        ∷ manual_box 78
        ∷ subtotal_box 79 (λ v. at_least_0 (max (v 75) (v 76) -ℤ v 77 +ℤ v 78))
        ∷ box 80
        ∷ box 81
        ∷ box 82
        ∷ subtotal_box 83 (λ v. at_least_0 (v 80 -ℤ v 81 -ℤ v 82))
        ∷ [])

abbrev pub impuesto : List Casilla
impuesto =
    boxes 84 7
    ++ (subtotal_box 91 (λ v. sum_from v 84 7)
        ∷ box 92
        ∷ manual_box 93
        ∷ subtotal_box 94 (λ v. at_least_0 (v 91 +ℤ v 92 -ℤ v 93))
        ∷ box 95
        ∷ subtotal_box 96 (λ v. v 94 +ℤ v 95)
        ∷ box 97
        ∷ box 98
        ∷ subtotal_box 99 (λ v. at_least_0 (v 96 +ℤ v 97 -ℤ v 98))
        ∷ [])

abbrev pub anticipos : List Casilla
anticipos =
    manual_box 100
    ∷ manual_box 101
    ∷ manual_box 102
    ∷ manual_box 103
    ∷ manual_box 104
    ∷ box 105
    ∷ box 106
    ∷ subtotal_box 107 (λ v. v 105 +ℤ v 106)
    ∷ box 108
    ∷ manual_box 109
    ∷ manual_box 110
    ∷ []

abbrev pub saldo_impuesto : Formula
saldo_impuesto v =
    v 99 +ℤ v 108 +ℤ v 110 -ℤ v 100 -ℤ v 101 -ℤ v 102 -ℤ v 103 -ℤ v 104 -ℤ v 107 -ℤ v 109

abbrev pub saldo_a_pagar : Formula
saldo_a_pagar v =
    v 99 +ℤ v 108 +ℤ v 110 +ℤ v 112 -ℤ v 100 -ℤ v 101 -ℤ v 102 -ℤ v 103 -ℤ v 104 -ℤ v 107 -ℤ v 109

abbrev pub saldo_a_favor : Formula
saldo_a_favor v =
    v 100 +ℤ v 101 +ℤ v 102 +ℤ v 103 +ℤ v 104 +ℤ v 107 +ℤ v 109 -ℤ v 99 -ℤ v 108 -ℤ v 110 -ℤ v 112

abbrev pub saldo : List Casilla
saldo =
    subtotal_box 111 (λ v. at_least_0 (saldo_impuesto v))
    ∷ manual_box 112
    ∷ subtotal_box 113 (λ v. at_least_0 (saldo_a_pagar v))
    ∷ subtotal_box 114 (λ v. at_least_0 (saldo_a_favor v))
    ∷ []

abbrev pub catalog_f110 : List Casilla
catalog_f110 =
    patrimonio ++ (ingresos_renta ++ (costos ++ (renta ++ (impuesto ++ (anticipos ++ saldo)))))
