-- ===== src/Tax/Builders/Booked.antt =====
-- From the journal to the return: F300 drafted from the general ledger of a period.
use backend_pae_account_mult.Prelude.{
  ℕ, ◌≡◌, ◌⊎◌, refl, ap, ◌∙◌, Bool, List, [], ◌∷◌, if◌then◌else◌,
}
use backend_pae_account_mult.Prelude.Int.{ℤ, pos, ◌+ℤ◌, ◌-ℤ◌}
use backend_pae_account_mult.Prelude.Texts.{codes, codes_eq}
use backend_pae_account_mult.Books.{
  Database, Query, LedgerRow, get_general_ledger, get_subsidiary_journal,
}
use backend_pae_account_mult.Books.Grouping.{sum_lines, exact}
use backend_pae_account_mult.Books.Amounts.{exact-get_general_ledger}
use backend_pae_account_mult.Tax.Catalog.{value_in, build_draft_from_catalog}
use backend_pae_account_mult.Tax.Forms.F300.{catalog_f300}
use backend_pae_account_mult.Tax.Builders.{exact_credit, get_computed}
use backend_pae_account_mult.Tax.Builders.F300.{
  Revenue, exact_debit, compute_prorrateo_factor, deductible, build_f300, iva_neto,
}
use backend_pae_account_mult.Tax.Builders.Balance.{f300_balance}

exact_credit-exact :
    (rs : List LedgerRow) (a : List ℕ) → exact_credit rs a ≡ exact (λ r. r.total_credit) rs a
unfolding exact_credit exact
exact_credit-exact [] a = refl
exact_credit-exact (r ∷ rs) a =
    ap (λ x. if codes_eq r.account a then r.total_credit else x) (exact_credit-exact rs a)

exact_debit-exact :
    (rs : List LedgerRow) (a : List ℕ) → exact_debit rs a ≡ exact (λ r. r.total_debit) rs a
unfolding exact_debit exact
exact_debit-exact [] a = refl
exact_debit-exact (r ∷ rs) a =
    ap (λ x. if codes_eq r.account a then r.total_debit else x) (exact_debit-exact rs a)

-- What the lines of an account in a period come to.
abbrev pub credits_of : Database → Query → List ℕ → ℤ
credits_of db q account = sum_lines (λ l. l.credito) (get_subsidiary_journal db q account)

abbrev pub debits_of : Database → Query → List ℕ → ℤ
debits_of db q account = sum_lines (λ l. l.debito) (get_subsidiary_journal db q account)

-- What the builders of returns read off the general ledger for an account is the sum of the credits,
-- or of the debits, of the account's subsidiary journal under the same filters.
pub exact-subsidiary :
    (db : Database) (q : Query) (account : List ℕ)
    → (exact_credit (get_general_ledger db q) account ≡ credits_of db q account)
      × (exact_debit (get_general_ledger db q) account ≡ debits_of db q account)
exact-subsidiary db q account =
    let ledger = get_general_ledger db q in
    (
      exact_credit-exact ledger account
          ∙ exact-get_general_ledger (λ r. r.total_credit) (λ r l. refl) db q account,
      exact_debit-exact ledger account
          ∙ exact-get_general_ledger (λ r. r.total_debit) (λ r l. refl) db q account,
    )

-- F300 drafted from the general ledger of a period has one of the boxes 82 and 83 at zero, and their
-- difference is the credits that the posted lines of the period put on accounts 240805 and 240807,
-- less the deductible part of what they put on the debit of account 240802.
pub f300_from_journal :
    (db : Database) (q : Query) (responsable : Bool) (r : Revenue) {v : ℕ → ℤ}
    → v
      ≡ value_in (
          build_draft_from_catalog catalog_f300
            (get_computed (build_f300 (get_general_ledger db q) responsable r)))
    → ((v 82 ≡ pos 0) ⊎ (v 83 ≡ pos 0))
      × (v 82 -ℤ v 83
          ≡ credits_of db q (codes "240805")
            +ℤ credits_of db q (codes "240807")
            -ℤ deductible responsable
                (compute_prorrateo_factor r)
                (debits_of db q (codes "240802")))
unfolding iva_neto
f300_from_journal db q responsable r e =
    let (one_side, balance) = f300_balance (get_general_ledger db q) responsable r e in
    let c19 = (exact-subsidiary db q (codes "240805")).0 in
    let c5 = (exact-subsidiary db q (codes "240807")).0 in
    let d = (exact-subsidiary db q (codes "240802")).1 in
    let p = compute_prorrateo_factor r in
    (
      one_side,
      balance
          ∙ ap
              (λ x.
                x
                +ℤ exact_credit (get_general_ledger db q) (codes "240807")
                -ℤ deductible responsable p
                    (exact_debit (get_general_ledger db q) (codes "240802")))
              c19
          ∙ ap
              (λ x.
                credits_of db q (codes "240805")
                +ℤ x
                -ℤ deductible responsable p
                    (exact_debit (get_general_ledger db q) (codes "240802")))
              c5
          ∙ ap
              (λ x.
                credits_of db q (codes "240805")
                +ℤ credits_of db q (codes "240807")
                -ℤ deductible responsable p x)
              d,
    )
