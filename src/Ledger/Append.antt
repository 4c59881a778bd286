-- ===== src/Ledger/Append.antt =====
-- What the write path of ledgerService.ts adds to the table, and how `reconcile` sums it.
use o_artiste.Prelude.{
  ℕ, ℤ, pos, ◌+ℤ◌, eqb_ℤ, ◌==◌, suc, if◌then◌else◌, Bool, true, false, ◌&&◌, List, [], ◌∷◌, ◌++◌,
  keep, length, ◌≡◌, ◌≢◌, refl, arith, Bool-cases, inl, inr, none, +ℤ_assoc, zero-+ℤ, +ℤ_zero, sym,
  ap, ◌∙◌, ==_refl,
}
use o_artiste.Schema.{Party, client, artist, platform, provider}
use mathlib.Core.List.{append-nil, append_assoc}
use o_artiste.Errors.{ok}
use o_artiste.Ledger.{
  LedgerEntry, Leg, Ledger, transaction, record_entry, append_all, tally, add_to, reconcile,
  of_booking, ByParty, nothing,
}

-- The amounts of the rows that pass a test, added up.
abbrev pub total : (LedgerEntry → Bool) → List LedgerEntry → ℤ
total q [] = pos 0
total q (e ∷ es) = let rest = total q es in if q e then e.amount_kobo +ℤ rest else rest

abbrev pub party_eq : Party → Party → Bool
party_eq client client = true
party_eq artist artist = true
party_eq platform platform = true
party_eq provider provider = true
party_eq p q = false

-- The rows of a booking that concern one party.
abbrev pub of_party : ℕ → Party → LedgerEntry → Bool
of_party booking_id p e = of_booking booking_id e && party_eq e.party p

pub total-append :
    (q : LedgerEntry → Bool) (xs ys : List LedgerEntry)
    → total q (xs ++ ys) ≡ total q xs +ℤ total q ys
total-append q [] ys = sym (zero-+ℤ (total q ys))
total-append q (x ∷ xs) ys = elim (Bool-cases (q x)) [
  | inl e ↦ rw (e, total-append q xs ys) (sym (+ℤ_assoc x.amount_kobo (total q xs) (total q ys)))
  | inr e ↦ rw e (total-append q xs ys)
]

-- The row that a leg becomes, numbered by its place.
abbrev pub row : ℕ → ℕ → Leg → LedgerEntry
row booking_id n leg = record {
  id = n;
  booking_id = booking_id;
  entry_type = leg.entry_type;
  party = leg.party;
  amount_kobo = leg.amount_kobo;
  offsets_entry_id = none;
}

-- The rows of a list of legs, those of nothing left out.
abbrev pub rows : ℕ → ℕ → List Leg → List LedgerEntry
rows booking_id n [] = []
rows booking_id n (leg ∷ legs) = elim (eqb_ℤ leg.amount_kobo (pos 0)) [
  | true ↦ rows booking_id n legs
  | false ↦ row booking_id n leg ∷ rows booking_id (suc n) legs
]

pub length-snoc : (l : Ledger) (e : LedgerEntry) → length (l ++ e ∷ []) ≡ suc (length l)
length-snoc [] e = refl
length-snoc (x ∷ l) e = ap suc (length-snoc l e)

record_entry_lem :
    (booking_id : ℕ) (leg : Leg) (l : Ledger)
    → eqb_ℤ leg.amount_kobo (pos 0) ≡ false
    → record_entry transaction booking_id leg none l
      ≡ ok (row booking_id (length l) leg, l ++ row booking_id (length l) leg ∷ [])
unfolding record_entry
record_entry_lem booking_id leg l e = rw e

-- Inside a transaction the legs are appended as they stand, and nothing before them changes.
pub append_all_lem :
    (booking_id : ℕ) (legs : List Leg) (l : Ledger)
    → append_all transaction booking_id legs l
      ≡ ok (rows booking_id (length l) legs, l ++ rows booking_id (length l) legs)
unfolding append_all
append_all_lem booking_id [] l = rw append-nil
append_all_lem booking_id (leg ∷ legs) l = elim (Bool-cases (eqb_ℤ leg.amount_kobo (pos 0))) [
  | inl e ↦ rw (e, append_all, rows) (append_all_lem booking_id legs l)
  | inr e ↦
      let r = row booking_id (length l) leg in
      rw
        (
          e,
          append_all,
          rows,
          record_entry_lem booking_id leg l e,
          append_all_lem booking_id legs (l ++ r ∷ []),
        )
        (rw (length-snoc l r, append_assoc) refl)
]

-- The amounts of the legs that pass a test, added up.
abbrev pub legs_total : (Leg → Bool) → List Leg → ℤ
legs_total f [] = pos 0
legs_total f (leg ∷ legs) =
    let rest = legs_total f legs in if f leg then leg.amount_kobo +ℤ rest else rest

eqb_ℤ-zero : (a : ℤ) → eqb_ℤ a (pos 0) ≡ true → a ≡ pos 0
eqb_ℤ-zero a h = ground arith

-- A test on rows that agrees with one on legs sums the rows of the legs as it sums the legs.
module _ (booking_id : ℕ) (q : LedgerEntry → Bool) (f : Leg → Bool)
    (agree : (n : ℕ) (leg : Leg) → q (row booking_id n leg) ≡ f leg) where
  pub total-rows : (n : ℕ) (legs : List Leg) → total q (rows booking_id n legs) ≡ legs_total f legs
  total-rows n [] = refl
  total-rows n (leg ∷ legs) = elim (Bool-cases (eqb_ℤ leg.amount_kobo (pos 0))) [
    | inl e ↦ elim (Bool-cases (f leg)) [
      | inl yes_f ↦
          rw (e, rows, yes_f, eqb_ℤ-zero leg.amount_kobo e) (rw zero-+ℤ (total-rows n legs))
      | inr no_f ↦ rw (e, rows, no_f) (total-rows n legs)
    ]
    | inr e ↦ elim (Bool-cases (f leg)) [
      | inl yes_f ↦
          rw (e, rows, agree n leg, yes_f)
            (ap (λ x. leg.amount_kobo +ℤ x) (total-rows (suc n) legs))
      | inr no_f ↦ rw (e, rows, agree n leg, no_f) (total-rows (suc n) legs)
    ]
  ]

-- The loop of `reconcile` adds up the rows, and those of each party.
abbrev pub for_party : Party → LedgerEntry → Bool
for_party p e = party_eq e.party p

abbrev pub of : Party → ByParty → ℤ
of client t = t.client_kobo
of artist t = t.artist_kobo
of platform t = t.platform_kobo
of provider t = t.provider_kobo

tally-total :
    (s : ℤ) (t : ByParty) (es : List LedgerEntry) → (tally (s, t) es).0 ≡ s +ℤ total (λ e. true) es
unfolding tally
tally-total s t [] = sym (+ℤ_zero s)
tally-total s t (e ∷ es) =
    tally-total (s +ℤ e.amount_kobo) (add_to e.party e.amount_kobo t) es
    ∙ +ℤ_assoc s e.amount_kobo (total (λ x. true) es)

of-add_to :
    (p q : Party) (x : ℤ) (t : ByParty) (rest : ℤ)
    → of p (add_to q x t) +ℤ rest ≡ of p t +ℤ (if party_eq q p then x +ℤ rest else rest)
of-add_to p q x t rest = ground (arith, +ℤ_assoc (of p t) x rest)

tally-party :
    (p : Party) (s : ℤ) (t : ByParty) (es : List LedgerEntry)
    → of p (tally (s, t) es).1 ≡ of p t +ℤ total (for_party p) es
unfolding tally
tally-party p s t [] = sym (+ℤ_zero (of p t))
tally-party p s t (e ∷ es) =
    tally-party p (s +ℤ e.amount_kobo) (add_to e.party e.amount_kobo t) es
    ∙ of-add_to p e.party e.amount_kobo t (total (for_party p) es)

-- Filtering first and summing is summing under both tests.
total-keep :
    (q r : LedgerEntry → Bool) (l : Ledger) → total r (keep q l) ≡ total (λ e. q e && r e) l
total-keep q r [] = refl
total-keep q r (e ∷ l) = elim (Bool-cases (q e)) [
  | inl h ↦ rw h (ground (arith, total-keep q r l))
  | inr h ↦ rw h (total-keep q r l)
]

total-ext :
    (q r : LedgerEntry → Bool)
    → ((e : LedgerEntry) → q e ≡ r e)
    → (l : Ledger) → total q l ≡ total r l
total-ext q r h [] = refl
total-ext q r h (e ∷ l) = rw (h e, total-ext q r h l)

and_true : (b : Bool) → (b && true) ≡ b
and_true true = refl
and_true false = refl

of-nothing : (p : Party) (x : ℤ) → of p nothing +ℤ x ≡ x
of-nothing client x = zero-+ℤ x
of-nothing artist x = zero-+ℤ x
of-nothing platform x = zero-+ℤ x
of-nothing provider x = zero-+ℤ x

-- `reconcile` reports the total of the booking's rows, and of each party's.
pub reconcile_sum :
    (booking_id : ℕ) (l : Ledger)
    → (reconcile booking_id l).sum_kobo ≡ total (of_booking booking_id) l
unfolding reconcile
reconcile_sum booking_id l =
    tally-total (pos 0) nothing (keep (of_booking booking_id) l)
    ∙ (zero-+ℤ (total (λ e. true) (keep (of_booking booking_id) l))
        ∙ (total-keep (of_booking booking_id) (λ e. true) l
            ∙ total-ext (λ e. of_booking booking_id e && true) (of_booking booking_id)
                (λ e. and_true (of_booking booking_id e)) l))

pub reconcile_party :
    (p : Party) (booking_id : ℕ) (l : Ledger)
    → of p (reconcile booking_id l).by_party ≡ total (of_party booking_id p) l
unfolding reconcile
reconcile_party p booking_id l =
    tally-party p (pos 0) nothing (keep (of_booking booking_id) l)
    ∙ (of-nothing p (total (for_party p) (keep (of_booking booking_id) l))
        ∙ total-keep (of_booking booking_id) (for_party p) l)

abbrev pub leg_of : Party → Leg → Bool
leg_of p leg = party_eq leg.party p

legs_total_none : (legs : List Leg) → legs_total (λ leg. false) legs ≡ pos 0
legs_total_none [] = refl
legs_total_none (leg ∷ legs) = legs_total_none legs

==_ne : (a b : ℕ) → a ≢ b → (a == b) ≡ false
==_ne a b h = ground arith

-- Appending the rows of some legs moves the booking's sum by their total, and each party's.
pub reconcile_sum-rows :
    (b n : ℕ) (legs : List Leg) (l : Ledger)
    → (reconcile b (l ++ rows b n legs)).sum_kobo
      ≡ (reconcile b l).sum_kobo +ℤ legs_total (λ leg. true) legs
reconcile_sum-rows b n legs l = rw (
  reconcile_sum,
  total-append (of_booking b) l (rows b n legs),
  total-rows b (of_booking b) (λ leg. true) (λ n leg. ==_refl b) n legs,
  reconcile_sum,
)

pub reconcile_party-rows :
    (p : Party) (b n : ℕ) (legs : List Leg) (l : Ledger)
    → of p (reconcile b (l ++ rows b n legs)).by_party
      ≡ of p (reconcile b l).by_party +ℤ legs_total (leg_of p) legs
reconcile_party-rows p b n legs l = rw (
  reconcile_party p b (l ++ rows b n legs),
  total-append (of_party b p) l (rows b n legs),
  total-rows b (of_party b p) (leg_of p) (λ n leg. rw (==_refl b)) n legs,
  reconcile_party p b l,
)

pub legs_total-append :
    (f : Leg → Bool) (xs ys : List Leg)
    → legs_total f (xs ++ ys) ≡ legs_total f xs +ℤ legs_total f ys
legs_total-append f [] ys = sym (zero-+ℤ (legs_total f ys))
legs_total-append f (x ∷ xs) ys = elim (Bool-cases (f x)) [
  | inl e ↦
      rw (e, legs_total-append f xs ys)
        (sym (+ℤ_assoc x.amount_kobo (legs_total f xs) (legs_total f ys)))
  | inr e ↦ rw e (legs_total-append f xs ys)
]

-- Rows of one booking leave the sum of another alone.
pub reconcile_sum-rows_ne :
    (k b n : ℕ) (legs : List Leg) (l : Ledger)
    → k ≢ b
    → (reconcile k (l ++ rows b n legs)).sum_kobo ≡ (reconcile k l).sum_kobo
reconcile_sum-rows_ne k b n legs l ne =
    rw
      (
        reconcile_sum k (l ++ rows b n legs),
        total-append (of_booking k) l (rows b n legs),
        total-rows b (of_booking k) (λ leg. false) (λ n leg. ==_ne b k (λ e. ne (sym e))) n legs,
        legs_total_none legs,
        reconcile_sum k l,
      )
      (+ℤ_zero (total (of_booking k) l))
