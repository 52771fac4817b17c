-- ===== src/Tax/Forms/Ica.antt =====
-- app/services/dian_forms/ica_generic.py: the municipal declaration of industry and commerce.
use backend_pae_account_mult.Prelude.{List, [], ◌∷◌}
use backend_pae_account_mult.Prelude.Int.{◌+ℤ◌, ◌-ℤ◌}
use backend_pae_account_mult.Tax.Catalog.{Casilla, subtotal_box, manual_box, box}
use backend_pae_account_mult.Tax.Forms.{at_least_0}

abbrev pub catalog_ica : List Casilla
catalog_ica =
    box 1
    ∷ manual_box 2
    ∷ subtotal_box 3 (λ v. at_least_0 (v 1 -ℤ v 2))
    ∷ box 4
    ∷ box 5
    ∷ manual_box 6
    ∷ subtotal_box 7 (λ v. v 4 +ℤ v 5 +ℤ v 6)
    ∷ box 8
    ∷ manual_box 9
    ∷ manual_box 10
    ∷ manual_box 11
    ∷ subtotal_box 12 (λ v. at_least_0 (v 7 -ℤ v 8 -ℤ v 9) +ℤ v 10 +ℤ v 11)
    ∷ []
