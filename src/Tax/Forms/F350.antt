-- ===== src/Tax/Forms/F350.antt =====
-- app/services/dian_forms/f350_2026.py: the declaration of withholding, boxes 29 to 138. The concept
-- rows are blocks of boxes; which concept goes to which box is `concept_casillas`.
use backend_pae_account_mult.Prelude.{ℕ, List, [], ◌∷◌, ◌++◌, Option, none, some, if◌then◌else◌}
use backend_pae_account_mult.Prelude.Int.{ℤ, ◌+ℤ◌, ◌-ℤ◌}
use backend_pae_account_mult.Prelude.Texts.{String, str_eq}
use backend_pae_account_mult.Tax.Catalog.{Casilla, subtotal_box, manual_box, box}
use backend_pae_account_mult.Tax.Forms.{sum_from, at_least_0, boxes}

-- The boxes of retentions that add up to box 130.
abbrev pub ret_renta : (ℕ → ℤ) → ℤ
ret_renta v =
    sum_from v 42 13
    +ℤ sum_from v 57 2
    +ℤ sum_from v 68 9
    +ℤ sum_from v 93 16
    +ℤ sum_from v 111 2
    +ℤ sum_from v 121 8

abbrev pub concept_boxes : List Casilla
concept_boxes =
    boxes 29 13
    ++ (boxes 42 13
        ++ (boxes 55 2
            ++ (boxes 57 2
                ++ (boxes 59 9
                    ++ (boxes 68 9
                        ++ (boxes 77 16
                            ++ (boxes 93 16
                                ++ (boxes 109 2
                                    ++ (boxes 111 2 ++ (boxes 113 8 ++ boxes 121 8))))))))))

abbrev pub totals : List Casilla
totals =
    manual_box 129
    ∷ subtotal_box 130 (λ v. at_least_0 (ret_renta v -ℤ v 129))
    ∷ box 131
    ∷ box 132
    ∷ manual_box 133
    ∷ subtotal_box 134 (λ v. at_least_0 (v 131 +ℤ v 132 -ℤ v 133))
    ∷ box 135
    ∷ subtotal_box 136 (λ v. v 130 +ℤ v 134 +ℤ v 135)
    ∷ manual_box 137
    ∷ subtotal_box 138 (λ v. v 136 +ℤ v 137)
    ∷ []

abbrev pub catalog_f350 : List Casilla
catalog_f350 = concept_boxes ++ totals

-- `CONCEPT_CASILLAS`: the base box and the retention box of a category and a kind of person.
unfoldable pub concept_casillas : String → String → Option (ℕ × ℕ)
concept_casillas categoria aplica_a =
    if str_eq aplica_a "PJ"
    then pj categoria
    else if str_eq aplica_a "PN"
    then pn categoria
    else none
  where
    pj : String → Option (ℕ × ℕ)
    pj c =
        if str_eq c "honorarios"
        then some (29, 42)
        else if str_eq c "comisiones"
        then some (30, 43)
        else if str_eq c "servicios"
        then some (31, 44)
        else if str_eq c "arrendamiento"
        then some (33, 46)
        else if str_eq c "compras"
        then some (36, 49)
        else none

    pn : String → Option (ℕ × ℕ)
    pn c =
        if str_eq c "honorarios"
        then some (79, 95)
        else if str_eq c "comisiones"
        then some (80, 96)
        else if str_eq c "servicios"
        then some (81, 97)
        else if str_eq c "arrendamiento"
        then some (83, 99)
        else if str_eq c "compras"
        then some (86, 102)
        else if str_eq c "salarios"
        then some (77, 93)
        else none
