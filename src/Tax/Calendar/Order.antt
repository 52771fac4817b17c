-- ===== src/Tax/Calendar/Order.antt =====
-- The sort of the entries of the calendar: by deadline, and a permutation of them.
use mathlib.Core.List.{Perm}
use mathlib.Core.List.Perm
use backend_pae_account_mult.Prelude.{
  ℕ, ◌≤◌, leb, leb→le, List, [], ◌∷◌, All, arith, inl, inr, Bool-cases,
}
use backend_pae_account_mult.Tax.Calendar.{CalendarEntry, date_key, insert_entry, sort_entries}

-- In the order of deadlines.
abbrev pub IsSorted : List CalendarEntry → Type 0
IsSorted [] = Unit
IsSorted (x ∷ xs) = All (λ y. date_key x.deadline ≤ date_key y.deadline) xs × IsSorted xs

-- No entry is before a date.
abbrev NotBefore : ℕ → List CalendarEntry → Type 0
NotBefore k es = All (λ y. k ≤ date_key y.deadline) es

NotBefore-later : (k m : ℕ) (es : List CalendarEntry) → k ≤ m → NotBefore m es → NotBefore k es
NotBefore-later k m [] l h = tt
NotBefore-later k m (e ∷ es) l h = (omega (arith, h.0), NotBefore-later k m es l h.1)

insert_entry-NotBefore :
    (k : ℕ) (x : CalendarEntry) (es : List CalendarEntry)
    → k ≤ date_key x.deadline
    → NotBefore k es
    → NotBefore k (insert_entry x es)
unfolding insert_entry
insert_entry-NotBefore k x [] l h = (l, tt)
insert_entry-NotBefore k x (y ∷ ys) l h = ground (arith, insert_entry-NotBefore k x ys)

insert_entry-IsSorted :
    (x : CalendarEntry) (es : List CalendarEntry) → IsSorted es → IsSorted (insert_entry x es)
unfolding insert_entry
insert_entry-IsSorted x [] h = (tt, tt)
insert_entry-IsSorted x (y ∷ ys) h =
    elim (Bool-cases (leb (date_key x.deadline) (date_key y.deadline))) [
      | inl k ↦
          let l = leb→le (date_key x.deadline) (date_key y.deadline) k in
          let n = NotBefore-later (date_key x.deadline) (date_key y.deadline) ys l h.0 in
          rw k ((l, n), h)
      | inr k ↦
          let l : date_key y.deadline ≤ date_key x.deadline = ground arith in
          rw k (
            insert_entry-NotBefore (date_key y.deadline) x ys l h.0,
            insert_entry-IsSorted x ys h.1,
          )
    ]

pub sort_entries-IsSorted : (es : List CalendarEntry) → IsSorted (sort_entries es)
unfolding sort_entries
sort_entries-IsSorted [] = tt
sort_entries-IsSorted (x ∷ xs) =
    insert_entry-IsSorted x (sort_entries xs) (sort_entries-IsSorted xs)

insert_entry-Perm :
    (x : CalendarEntry) (es : List CalendarEntry) → Perm (insert_entry x es) (x ∷ es)
unfolding insert_entry
insert_entry-Perm x [] = Perm.refl (x ∷ [])
insert_entry-Perm x (y ∷ ys) = elim (Bool-cases (leb (date_key x.deadline) (date_key y.deadline))) [
  | inl k ↦ rw k (Perm.refl (x ∷ y ∷ ys))
  | inr k ↦ rw k (Perm.trans (Perm.cons y (insert_entry-Perm x ys)) (Perm.swap x y ys))
]

pub sort_entries-Perm : (es : List CalendarEntry) → Perm (sort_entries es) es
unfolding sort_entries
sort_entries-Perm [] = Perm.refl []
sort_entries-Perm (x ∷ xs) =
    Perm.trans (insert_entry-Perm x (sort_entries xs)) (Perm.cons x (sort_entries-Perm xs))
