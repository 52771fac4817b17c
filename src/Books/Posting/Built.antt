-- ===== src/Books/Posting/Built.antt =====
-- What the corrections of the ingest mode do to entries: to their date, accounts and balance.
use backend_pae_account_mult.Prelude.{
  ◌≡◌, refl, sym, ◌∙◌, Bool, true, false, ◌&&◌, ◌⊎◌, List, [], ◌∷◌, map, All, arith, if◌then◌else◌,
  inl, inr, Bool-cases,
}
use backend_pae_account_mult.Prelude.Int.{ℤ, pos, ltb_ℤ}
use backend_pae_account_mult.Prelude.Texts.{String, codes, codes_eq}
use backend_pae_account_mult.Ledger.Journal.{JournalEntry, Text, sum_debito, sum_credito}
use backend_pae_account_mult.Books.Sheet.{clase_of, has_clase}
use backend_pae_account_mult.Books.Posting.{
  swap_cxp, swap_sides, specialize, is_bank_document, Document, correct_entry, corrected,
  is_respecialized, is_fallback, is_inflow,
}

-- An entry that bears the date and stands on a known account.
abbrev pub IsPlaced : (Text → Bool) → String → JournalEntry → Type 0
IsPlaced known fecha e = (e.fecha ≡ fecha) × (known e.cuenta ≡ true)

-- The accounts of the six classes are known.
abbrev pub KnowsClasses : (Text → Bool) → Type 0
KnowsClasses known = (c : Text) → has_clase c ≡ true → known c ≡ true

-- The payables that a bank document settles are banks.
banks_classed : has_clase (codes "111005") ≡ true
unfolding has_clase clase_of
banks_classed = refl

module _ (known : Text → Bool) (six : KnowsClasses known) (fecha : String) where
  swap_cxp-IsPlaced :
      (e : JournalEntry) → IsPlaced known fecha e → IsPlaced known fecha (swap_cxp e)
  swap_cxp-IsPlaced e (d, c) =
      elim (Bool-cases (codes_eq e.cuenta (codes "220505") && ltb_ℤ (pos 0) e.credito)) [
        | inl k ↦ rw k (d, six (codes "111005") banks_classed)
        | inr k ↦ rw k (d, c)
      ]

  specialize-IsPlaced :
      (suggested : Text) (e : JournalEntry)
      → known suggested ≡ true
      → IsPlaced known fecha e
      → IsPlaced known fecha (specialize suggested e)
  specialize-IsPlaced suggested e s (d, c) = elim (Bool-cases (is_fallback e.cuenta)) [
    | inl k ↦ rw k (d, s)
    | inr k ↦ rw k (d, c)
  ]

  correct_entry-IsPlaced :
      (bank inflow fallback : Bool) (suggested : Text) (e : JournalEntry)
      → (known suggested ≡ true) ⊎ (fallback ≡ false)
      → IsPlaced known fecha e
      → IsPlaced known fecha (correct_entry bank inflow fallback suggested e)
  unfolding correct_entry
  correct_entry-IsPlaced true true true suggested e (inl s) p =
      specialize-IsPlaced suggested (swap_sides (swap_cxp e)) s (swap_cxp-IsPlaced e p)
  correct_entry-IsPlaced true false true suggested e (inl s) p =
      specialize-IsPlaced suggested (swap_cxp e) s (swap_cxp-IsPlaced e p)
  correct_entry-IsPlaced false true true suggested e (inl s) p =
      specialize-IsPlaced suggested (swap_sides e) s p
  correct_entry-IsPlaced false false true suggested e (inl s) p =
      specialize-IsPlaced suggested e s p
  correct_entry-IsPlaced bank inflow true suggested e (inr s) p = cc
  correct_entry-IsPlaced true true false suggested e s p = swap_cxp-IsPlaced e p
  correct_entry-IsPlaced true false false suggested e s p = swap_cxp-IsPlaced e p
  correct_entry-IsPlaced false true false suggested e s p = p
  correct_entry-IsPlaced false false false suggested e s p = p

  pub corrected-All :
      (d : Document) (es : List JournalEntry)
      → (known d.suggested ≡ true) ⊎ (is_respecialized d ≡ false)
      → All (IsPlaced known fecha) es
      → All (IsPlaced known fecha) (map (corrected d) es)
  unfolding corrected
  corrected-All d [] s p = tt
  corrected-All d (e ∷ es) s (p, ps) =
      (correct_entry-IsPlaced _ _ _ d.suggested e s p, corrected-All d es s ps)

  pub unzip_placed :
      (es : List JournalEntry)
      → All (IsPlaced known fecha) es
      → All (λ e. e.fecha ≡ fecha) es × All (λ e. known e.cuenta ≡ true) es
  unzip_placed [] h = (tt, tt)
  unzip_placed (e ∷ es) ((d, c), h) = let (ds, cs) = unzip_placed es h in ((d, ds), (c, cs))

module _ (bank inflow fallback : Bool) (suggested : Text) where
  abbrev fix : JournalEntry → JournalEntry
  fix = correct_entry bank inflow fallback suggested

  correct_entry-debito :
      (e : JournalEntry) → (fix e).debito ≡ (if inflow then e.credito else e.debito)
  unfolding correct_entry
  correct_entry-debito e = ground arith

  correct_entry-credito :
      (e : JournalEntry) → (fix e).credito ≡ (if inflow then e.debito else e.credito)
  unfolding correct_entry
  correct_entry-credito e = ground arith

module _ (bank fallback : Bool) (suggested : Text) where
  correct_entry-sum_debito :
      (inflow : Bool) (es : List JournalEntry)
      → sum_debito (map (correct_entry bank inflow fallback suggested) es)
        ≡ (if inflow then sum_credito es else sum_debito es)
  unfolding sum_debito sum_credito
  correct_entry-sum_debito true [] = refl
  correct_entry-sum_debito false [] = refl
  correct_entry-sum_debito true (e ∷ es) =
      rw (correct_entry-debito bank true fallback suggested e, correct_entry-sum_debito true es)
        refl
  correct_entry-sum_debito false (e ∷ es) =
      rw (correct_entry-debito bank false fallback suggested e, correct_entry-sum_debito false es)
        refl

  correct_entry-sum_credito :
      (inflow : Bool) (es : List JournalEntry)
      → sum_credito (map (correct_entry bank inflow fallback suggested) es)
        ≡ (if inflow then sum_debito es else sum_credito es)
  unfolding sum_debito sum_credito
  correct_entry-sum_credito true [] = refl
  correct_entry-sum_credito false [] = refl
  correct_entry-sum_credito true (e ∷ es) =
      rw (correct_entry-credito bank true fallback suggested e, correct_entry-sum_credito true es)
        refl
  correct_entry-sum_credito false (e ∷ es) =
      rw (correct_entry-credito bank false fallback suggested e, correct_entry-sum_credito false es)
        refl

if_swap : (b : Bool) {x y : ℤ} → x ≡ y → (if b then y else x) ≡ (if b then x else y)
if_swap true e = sym e
if_swap false e = e

-- The corrections of balanced entries leave them in balance.
pub corrected-balanced :
    (d : Document) (es : List JournalEntry)
    → sum_debito es ≡ sum_credito es
    → sum_debito (map (corrected d) es) ≡ sum_credito (map (corrected d) es)
unfolding corrected
corrected-balanced d es h =
    let bank = is_bank_document d.doc_type in
    let fallback = is_respecialized d in
    correct_entry-sum_debito bank fallback d.suggested (is_inflow d) es
    ∙ if_swap (is_inflow d) h
    ∙ sym (correct_entry-sum_credito bank fallback d.suggested (is_inflow d) es)
