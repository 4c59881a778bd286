-- ===== src/Ledger/Corrections.antt =====
-- The loop of `reverseEntries` of ledgerService.ts: what it writes for rows that nothing offsets yet.
use o_artiste.Prelude.{
  ℕ, ℤ, pos, neg, neg_parts, suc, eqb_ℤ, ◌≤◌, ◌<◌, ◌≡◌, refl, ◌∙◌, ◌==◌, Bool, true, false, none,
  some, List, [], ◌∷◌, ◌++◌, find, length, All, Bool-cases, inl, inr, arith,
}
use mathlib.Core.List.{append-nil, append_assoc}
use o_artiste.Schema.{correction, entry_eq}
use o_artiste.Errors.{ok}
use o_artiste.Ledger.Append.{length-snoc}
use o_artiste.Ledger.{
  Ledger, LedgerEntry, transaction, record_entry, record_correction, has_id, is_offset_of,
  already_offset, reverse_from,
}

-- The database numbers the rows by their places, and no row is of nothing.
abbrev pub Numbered : ℕ → List LedgerEntry → Type 0
Numbered n [] = Unit
Numbered n (e ∷ es) = (e.id ≡ n) × (eqb_ℤ e.amount_kobo (pos 0) ≡ false) × Numbered (suc n) es

-- The row that offsets another.
abbrev pub correction_row : ℕ → LedgerEntry → LedgerEntry
correction_row n e = record {
  id = n;
  booking_id = e.booking_id;
  entry_type = correction;
  party = e.party;
  amount_kobo = neg e.amount_kobo;
  offsets_entry_id = some e.id;
}

abbrev pub corrections : ℕ → List LedgerEntry → List LedgerEntry
corrections n [] = []
corrections n (e ∷ es) = correction_row n e ∷ corrections (suc n) es

-- A row in the table that is not a correction and that nothing offsets.
pub record Pending (l : Ledger) (e : LedgerEntry) : Type 0 where
  pub stands : find (has_id e.id) l ≡ some e
  pub unoffset : find (is_offset_of e.id) l ≡ none
  pub plain : entry_eq e.entry_type correction ≡ false
  pub nonzero : eqb_ℤ e.amount_kobo (pos 0) ≡ false

-- Rows in the order of their ids.
abbrev pub Rising : ℕ → List LedgerEntry → Type 0
Rising n [] = Unit
Rising n (e ∷ es) = (n ≤ e.id) × Rising (suc e.id) es

find-append_some :
    (p : LedgerEntry → Bool) (xs ys : List LedgerEntry) {e : LedgerEntry}
    → find p xs ≡ some e
    → find p (xs ++ ys) ≡ some e
find-append_some p [] ys h = cc
find-append_some p (x ∷ xs) ys {e} h = elim (Bool-cases (p x)) [
  | inl c ↦ let same : some x ≡ some e = rw c at h in rw c same
  | inr c ↦ let later : find p xs ≡ some e = rw c at h in rw c (find-append_some p xs ys later)
]

pub find-append_none :
    (p : LedgerEntry → Bool) (xs ys : List LedgerEntry)
    → find p xs ≡ none
    → find p (xs ++ ys) ≡ find p ys
find-append_none p [] ys h = refl
find-append_none p (x ∷ xs) ys h = elim (Bool-cases (p x)) [
  | inl c ↦ absurd (let impossible : some x ≡ none = rw c at h in cc)
  | inr c ↦ let later : find p xs ≡ none = rw c at h in rw c (find-append_none p xs ys later)
]

neg-nonzero : (x : ℤ) → eqb_ℤ x (pos 0) ≡ false → eqb_ℤ (neg x) (pos 0) ≡ false
neg-nonzero x h = ground (arith, neg_parts x)

-- Behind the correction of a row of lower id, a pending row is still pending.
Pending-after :
    (l : Ledger) (x e : LedgerEntry)
    → x.id < e.id
    → Pending l e
    → Pending (l ++ correction_row (length l) x ∷ []) e
Pending-after l x e below p =
    let other : (x.id == e.id) ≡ false = ground (arith, below) in
    record {
      stands = find-append_some (has_id e.id) l (correction_row (length l) x ∷ []) p.stands;
      unoffset =
          find-append_none (is_offset_of e.id) l (correction_row (length l) x ∷ []) p.unoffset
          ∙ rw other refl;
      plain = p.plain;
      nonzero = p.nonzero;
    }

All-Pending-after :
    (l : Ledger) (x : LedgerEntry) (n : ℕ) (es : List LedgerEntry)
    → x.id < n
    → Rising n es
    → All (Pending l) es
    → All (Pending (l ++ correction_row (length l) x ∷ [])) es
All-Pending-after l x n [] below rising h = tt
All-Pending-after l x n (e ∷ es) below rising h =
    let (low, rest) = rising in
    (
      Pending-after l x e (omega (arith, below, low)) h.0,
      All-Pending-after l x (suc e.id) es (omega (arith, below, low)) rest h.1,
    )

record_correction_lem :
    (l : Ledger) (e : LedgerEntry)
    → Pending l e
    → record_correction transaction e.id true l
      ≡ ok (correction_row (length l) e, l ++ correction_row (length l) e ∷ [])
unfolding record_correction record_entry
record_correction_lem l e p =
    rw
      (
        record_correction,
        p.stands,
        p.plain,
        p.unoffset,
        record_entry,
        neg-nonzero e.amount_kobo p.nonzero,
      )
      refl

-- The loop writes the exact negation of each pending row, in order, behind what is there.
pub reverse_from_lem :
    (booking_id : ℕ) (seen l : Ledger) (n : ℕ) (es : List LedgerEntry)
    → All (λ e. already_offset booking_id e.id seen ≡ false) es
    → Rising n es
    → All (Pending l) es
    → reverse_from transaction booking_id true seen es l
      ≡ ok (corrections (length l) es, l ++ corrections (length l) es)
unfolding reverse_from
reverse_from_lem booking_id seen l n [] unseen rising pending = rw append-nil
reverse_from_lem booking_id seen l n (e ∷ es) unseen (low, rest) pending =
    let row = correction_row (length l) e in
    let later = All-Pending-after l e (suc e.id) es (omega arith) rest pending.1 in
    rw
      (
        reverse_from,
        unseen.0,
        record_correction_lem l e pending.0,
        reverse_from_lem booking_id seen (l ++ row ∷ []) (suc e.id) es unseen.1 rest later,
      )
      (rw (length-snoc l row, append_assoc) refl)
