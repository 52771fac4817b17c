-- ===== src/Tax/Forms.antt =====
-- The official forms of app/services/dian_forms: F300 (IVA), F350 (withholding), F110 (income tax)
-- and the generic municipal ICA, as lists of boxes with their formulas.
pub mod F300
pub mod F350
pub mod F110
pub mod Ica
pub mod Local
pub mod Settlement
use backend_pae_account_mult.Prelude.{ℕ, zero, suc, ◌+◌, ◌-◌, List, [], ◌∷◌, ◌++◌}
use backend_pae_account_mult.Prelude.Int.{ℤ, pos, ◌+ℤ◌, max}
use backend_pae_account_mult.Tax.Catalog.{Casilla, box}

-- The sum of so many boxes from one on; the source adds `v(lo)` to `v(hi)`.
abbrev pub sum_from : (ℕ → ℤ) → ℕ → ℕ → ℤ
sum_from v n zero = pos 0
sum_from v n (suc k) = v n +ℤ sum_from v (n + 1) k

-- `max(0.0, x)`.
abbrev pub at_least_0 : ℤ → ℤ
at_least_0 x = max (pos 0) x

-- So many boxes from one on.
abbrev pub boxes : ℕ → ℕ → List Casilla
boxes n zero = []
boxes n (suc k) = box n ∷ boxes (n + 1) k
