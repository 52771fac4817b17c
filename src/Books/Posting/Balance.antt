-- ===== src/Books/Posting/Balance.antt =====
-- Double entry of a list of lines, and the lines that balanced entries give.
use backend_pae_account_mult.Prelude.{
  ℕ, ◌≡◌, refl, sym, ap, ◌∙◌, Bool, true, Option, some, List, [], ◌∷◌, ◌++◌, filter, All, arith,
  if◌then◌else◌, Bool-cases, inl, inr,
}
use backend_pae_account_mult.Prelude.Int.{ℤ, pos, ◌+ℤ◌, ◌-ℤ◌, int_laws}
use backend_pae_account_mult.Prelude.Texts.{String}
use backend_pae_account_mult.Ledger.Journal.{JournalEntry, sum_debito, sum_credito}
use backend_pae_account_mult.Books.{JournalEntryLine}
use backend_pae_account_mult.Books.Grouping.{sum_lines}
use backend_pae_account_mult.Books.Sheet.{has_clase}
use backend_pae_account_mult.Books.Sheet.Equation.{net_of}
use backend_pae_account_mult.Books.Posting.{line_of}

-- A choice of lines by transaction, date and company.
abbrev pub Choice : Type 0
Choice = String → ℕ → Option String → Bool

unfoldable pub chosen : Choice → List JournalEntryLine → List JournalEntryLine
chosen k ls = filter (λ l. k l.transaction_posted_id l.fecha l.company_nit) ls

-- However lines are chosen by transaction, date and company, their debits equal their credits.
abbrev pub IsDoubleEntry : List JournalEntryLine → Type 0
IsDoubleEntry ls = (k : Choice) → net_of (chosen k ls) ≡ pos 0

-- Entries that balance to the centavo, bear one date and stand on accounts of classes 1 to 6.
pub record IsPostable (es : List JournalEntry) : Type 0 where
  pub fecha : String
  pub dated : All (λ e. e.fecha ≡ fecha) es
  pub balanced : sum_debito es ≡ sum_credito es
  pub classed : All (λ e. has_clase e.cuenta ≡ true) es

regroup : (a b c : ℤ) → a +ℤ (b +ℤ c) ≡ a +ℤ b +ℤ c
regroup a b c = omega int_laws

zero_add : (a : ℤ) → pos 0 +ℤ a ≡ a
zero_add a = omega int_laws

pub net_of-append : (xs ys : List JournalEntryLine) → net_of (xs ++ ys) ≡ net_of xs +ℤ net_of ys
unfolding net_of sum_lines
net_of-append [] ys = sym (zero_add (net_of ys))
net_of-append (x ∷ xs) ys =
    let a = if has_clase x.cuenta_puc then x.debito -ℤ x.credito else pos 0 in
    ap (λ z. a +ℤ z) (net_of-append xs ys) ∙ regroup a (net_of xs) (net_of ys)

pub chosen-append :
    (k : Choice) (xs ys : List JournalEntryLine) → chosen k (xs ++ ys) ≡ chosen k xs ++ chosen k ys
unfolding chosen
chosen-append k [] ys = refl
chosen-append k (x ∷ xs) ys = ground (arith, chosen-append k xs ys)

pub IsDoubleEntry-append :
    (xs ys : List JournalEntryLine) → IsDoubleEntry xs → IsDoubleEntry ys → IsDoubleEntry (xs ++ ys)
IsDoubleEntry-append xs ys hx hy k =
    rw (chosen-append k xs ys, net_of-append (chosen k xs) (chosen k ys), hx k, hy k)
      (zero_add (pos 0))

-- The lines of entries that bear one date, as a list.
abbrev pub lines_at : String → String → ℕ → List JournalEntry → List JournalEntryLine
lines_at id nit fecha [] = []
lines_at id nit fecha (e ∷ es) = line_of id nit fecha e ∷ lines_at id nit fecha es

pub chosen_all :
    (k : Choice) (id nit : String) (fecha : ℕ) (es : List JournalEntry)
    → chosen k (lines_at id nit fecha es)
      ≡ (if k id fecha (some nit) then lines_at id nit fecha es else [])
unfolding chosen
chosen_all k id nit fecha [] = ground arith
chosen_all k id nit fecha (e ∷ es) = ground (arith, chosen_all k id nit fecha es)

step_net : (d c ds cs : ℤ) → (d -ℤ c) +ℤ (ds -ℤ cs) ≡ (d +ℤ ds) -ℤ (c +ℤ cs)
step_net d c ds cs = omega int_laws

nothing : pos 0 ≡ pos 0 -ℤ pos 0
nothing = omega int_laws

pub net_of-lines_at :
    (id nit : String) (fecha : ℕ) (es : List JournalEntry)
    → All (λ e. has_clase e.cuenta ≡ true) es
    → net_of (lines_at id nit fecha es) ≡ sum_debito es -ℤ sum_credito es
unfolding net_of sum_lines sum_debito sum_credito
net_of-lines_at id nit fecha [] c = nothing
net_of-lines_at id nit fecha (e ∷ es) (c, cs) = rw c (
    ap (λ z. (e.debito -ℤ e.credito) +ℤ z) (net_of-lines_at id nit fecha es cs)
    ∙ step_net e.debito e.credito (sum_debito es) (sum_credito es))

pub lines_at-IsDoubleEntry :
    (id nit : String) (fecha : ℕ) {es : List JournalEntry}
    → IsPostable es
    → IsDoubleEntry (lines_at id nit fecha es)
lines_at-IsDoubleEntry id nit fecha {es} p k =
    rw (chosen_all k id nit fecha es) (elim (Bool-cases (k id fecha (some nit))) [
      | inl e ↦ rw (e, net_of-lines_at id nit fecha es p.classed, p.balanced) (omega int_laws)
      | inr e ↦ rw e (unfold net_of sum_lines in refl)
    ])
