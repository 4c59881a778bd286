-- ===== src/Ledger/Originals.antt =====
-- The rows that `reverseEntries` of ledgerService.ts starts from, and those it has offset.
use o_artiste.Prelude.{
  ℕ, pos, neg, suc, eqb_ℤ, ◌≤◌, ◌≡◌, refl, sym, ◌==◌, ==_refl, Bool, true, false, ◌&&◌, none, some,
  List, [], ◌∷◌, ◌++◌, keep, find, All, Bool-cases, inl, inr, arith, int_laws, neg-+ℤ, neg-+ℤ,
}
use o_artiste.Schema.{EntryType, correction, entry_eq}
use o_artiste.Errors.{ok}
use o_artiste.Ledger.{
  Ledger, LedgerEntry, transaction, has_id, is_offset_of, already_offset, reverse_from, is_original,
  includes_type,
}
use o_artiste.Ledger.Append.{total}
use o_artiste.Ledger.Corrections.{Numbered, correction_row, corrections, Pending, Rising}

abbrev pub Stands : Ledger → LedgerEntry → Type 0
Stands l e = find (has_id e.id) l ≡ some e

abbrev pub StandsFrom : ℕ → Ledger → LedgerEntry → Type 0
StandsFrom n l e = (n ≤ e.id) × Stands l e × (eqb_ℤ e.amount_kobo (pos 0) ≡ false)

pub weaken-StandsFrom :
    (n : ℕ) (x : LedgerEntry) (l es : Ledger)
    → x.id ≡ n
    → All (StandsFrom (suc n) l) es
    → All (StandsFrom n (x ∷ l)) es
weaken-StandsFrom n x l [] at h = tt
weaken-StandsFrom n x l (e ∷ es) at ((low, stands, nonzero), hs) =
    let other : (x.id == e.id) ≡ false = ground (arith, at, low) in
    ((omega (arith, low), rw other stands, nonzero), weaken-StandsFrom n x l es at hs)

pub Numbered-StandsFrom : (n : ℕ) (l : Ledger) → Numbered n l → All (StandsFrom n l) l
Numbered-StandsFrom n [] h = tt
Numbered-StandsFrom n (e ∷ es) (at, nonzero, rest) = (
  (omega (arith, at), rw (==_refl e.id) refl, nonzero),
  weaken-StandsFrom n e es es at (Numbered-StandsFrom (suc n) es rest),
)

pub Rising-from : (n m : ℕ) (es : Ledger) → n ≤ m → Rising m es → Rising n es
Rising-from n m [] le h = tt
Rising-from n m (e ∷ es) le (low, h) = (omega (arith, le, low), h)

pub keep-Rising : (q : LedgerEntry → Bool) (n : ℕ) (l : Ledger) → Numbered n l → Rising n (keep q l)
keep-Rising q n [] h = tt
keep-Rising q n (e ∷ es) (at, nonzero, rest) = elim (Bool-cases (q e)) [
  | inl c ↦
      let from : Rising (suc e.id) (keep q es) = rw at (keep-Rising q (suc n) es rest) in
      rw c (omega (arith, at), from)
  | inr c ↦ rw c (Rising-from n (suc n) (keep q es) (omega arith) (keep-Rising q (suc n) es rest))
]

pub plain_type :
    (types : List EntryType) (t : EntryType)
    → includes_type types correction ≡ false
    → includes_type types t ≡ true
    → entry_eq t correction ≡ false
plain_type [] t none_in h = cc
plain_type (u ∷ us) t none_in h = elim (Bool-cases (entry_eq u t)) [
  | inl e ↦ let here : entry_eq u correction ≡ false = ground arith in ground (arith, e, here)
  | inr e ↦
      let later : includes_type us t ≡ true = rw e at h in
      let none_later : includes_type us correction ≡ false = ground arith in
      plain_type us t none_later later
]

-- The originals of a reversal, none of which is offset, are pending.
module _ (booking_id : ℕ) (types : List EntryType)
    (no_corrections : includes_type types correction ≡ false) where
  abbrev pub originals : Ledger → List LedgerEntry
  originals l = keep (is_original booking_id types) l

  pub pending :
      (l es : Ledger)
      → All (StandsFrom 0 l) es
      → All (λ e. find (is_offset_of e.id) l ≡ none) (originals es)
      → All (Pending l) (originals es)
  pending l [] h unoffset = tt
  pending l (e ∷ es) (stands, h) unoffset = elim (Bool-cases (is_original booking_id types e)) [
    | inl c ↦
        let free = rw c at unoffset in
        let kind : includes_type types e.entry_type ≡ true = ground (arith, c) in
        rw c (
          record {
            stands = stands.1;
            unoffset = free.0;
            plain = plain_type types e.entry_type no_corrections kind;
            nonzero = stands.2;
          },
          pending l es h free.1,
        )
    | inr c ↦ let free = rw c at unoffset in rw c (pending l es h free)
  ]

pub find_weaker :
    (p q : LedgerEntry → Bool) (l : Ledger)
    → ((e : LedgerEntry) → q e ≡ false → p e ≡ false)
    → find q l ≡ none
    → find p l ≡ none
find_weaker p q [] h e = refl
find_weaker p q (x ∷ l) h e = elim (Bool-cases (q x)) [
  | inl c ↦ absurd (let impossible : some x ≡ none = rw c at e in cc)
  | inr c ↦ let later : find q l ≡ none = rw c at e in rw (h x c) (find_weaker p q l h later)
]

pub unseen :
    (booking_id : ℕ) (l es : Ledger)
    → All (λ e. find (is_offset_of e.id) l ≡ none) es
    → All (λ e. already_offset booking_id e.id l ≡ false) es
unseen booking_id l [] h = tt
unseen booking_id l (e ∷ es) h =
    let none_there =
      find_weaker (λ c. c.booking_id == booking_id && is_offset_of e.id c) (is_offset_of e.id) l
        (λ c f. ground (arith, f)) h.0 in
    (rw none_there refl, unseen booking_id l es h.1)

-- The rows that pass a test on booking and party, against their corrections.
pub corrections-total :
    (q : LedgerEntry → Bool) (n : ℕ) (es : List LedgerEntry)
    → ((m : ℕ) (e : LedgerEntry) → q (correction_row m e) ≡ q e)
    → total q (corrections n es) ≡ neg (total q es)
corrections-total q n [] same = omega int_laws
corrections-total q n (e ∷ es) same = elim (Bool-cases (q e)) [
  | inl c ↦
      rw (same n e, c, corrections-total q (suc n) es same)
        (sym (neg-+ℤ e.amount_kobo (total q es)))
  | inr c ↦ rw (same n e, c) (corrections-total q (suc n) es same)
]

module _ (booking_id : ℕ) (types : List EntryType) where
  -- A correction is no original, so the originals of the table are what they were.
  pub corrections_are_not :
      (n : ℕ) (es : List LedgerEntry) → keep (is_original booking_id types) (corrections n es) ≡ []
  corrections_are_not n [] = refl
  corrections_are_not n (e ∷ es) =
      let no : is_original booking_id types (correction_row n e) ≡ false = ground arith in
      rw no (corrections_are_not (suc n) es)

  pub keep-append :
      (xs ys : Ledger)
      → keep (is_original booking_id types) (xs ++ ys)
        ≡ keep (is_original booking_id types) xs ++ keep (is_original booking_id types) ys
  keep-append [] ys = refl
  keep-append (x ∷ xs) ys = elim (Bool-cases (is_original booking_id types x)) [
    | inl c ↦ rw (c, keep-append xs ys) refl
    | inr c ↦ rw (c, keep-append xs ys) refl
  ]

-- All rows of a list are offset in a table.
abbrev pub AllSeen : ℕ → Ledger → List LedgerEntry → Type 0
AllSeen booking_id seen es = All (λ e. already_offset booking_id e.id seen ≡ true) es

pub nothing_left :
    (booking_id : ℕ) (seen l : Ledger) (es : List LedgerEntry)
    → AllSeen booking_id seen es
    → reverse_from transaction booking_id true seen es l ≡ ok ([], l)
unfolding reverse_from
nothing_left booking_id seen l [] h = refl
nothing_left booking_id seen l (e ∷ es) h =
    rw (reverse_from, h.0) (nothing_left booking_id seen l es h.1)

pub seen-cons :
    (booking_id k : ℕ) (x : LedgerEntry) (l : Ledger)
    → already_offset booking_id k l ≡ true
    → already_offset booking_id k (x ∷ l) ≡ true
seen-cons booking_id k x l h = elim (Bool-cases (x.booking_id == booking_id && is_offset_of k x)) [
  | inl c ↦ rw c refl
  | inr c ↦ rw c h
]

pub seen-behind :
    (booking_id k : ℕ) (xs ys : Ledger)
    → already_offset booking_id k ys ≡ true
    → already_offset booking_id k (xs ++ ys) ≡ true
seen-behind booking_id k [] ys h = h
seen-behind booking_id k (x ∷ xs) ys h =
    seen-cons booking_id k x (xs ++ ys) (seen-behind booking_id k xs ys h)

pub AllSeen-cons :
    (booking_id : ℕ) (x : LedgerEntry) (l : Ledger) (es : List LedgerEntry)
    → AllSeen booking_id l es
    → AllSeen booking_id (x ∷ l) es
AllSeen-cons booking_id x l [] h = tt
AllSeen-cons booking_id x l (e ∷ es) h =
    (seen-cons booking_id e.id x l h.0, AllSeen-cons booking_id x l es h.1)

pub AllSeen-corrections :
    (booking_id n : ℕ) (es : List LedgerEntry)
    → All (λ e. (e.booking_id == booking_id) ≡ true) es
    → AllSeen booking_id (corrections n es) es
AllSeen-corrections booking_id n [] h = tt
AllSeen-corrections booking_id n (e ∷ es) h = (
  rw (h.0, ==_refl e.id) refl,
  AllSeen-cons booking_id (correction_row n e) (corrections (suc n) es) es
      (AllSeen-corrections booking_id (suc n) es h.1),
)

pub AllSeen-behind :
    (booking_id : ℕ) (xs ys : Ledger) (es : List LedgerEntry)
    → AllSeen booking_id ys es
    → AllSeen booking_id (xs ++ ys) es
AllSeen-behind booking_id xs ys [] h = tt
AllSeen-behind booking_id xs ys (e ∷ es) h =
    (seen-behind booking_id e.id xs ys h.0, AllSeen-behind booking_id xs ys es h.1)
