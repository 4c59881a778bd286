-- ===== src/Books/Transactions.antt =====
-- What the steps of a transaction do to the two tables that the books compare.
use o_artiste.Prelude.{
  ℕ, ◌≡◌, ◌≢◌, refl, sym, ap, ◌∙◌, true, false, Option, some, Bool-cases, Option-cases, inl, inr,
  ◌==◌, ==_iff, arith, Option-cases,
}
use o_artiste.Schema.{BookingState}
use o_artiste.Errors.{Result, ok, booking_not_found, >>=-eq-ok, ok-injective}
use o_artiste.Booking.{Booking, can_transition, assert_transition}
use o_artiste.Ledger.{Ledger, reconcile}
use o_artiste.Store.{Db, find_booking, transition, on_ledger, put, create_liability}
use o_artiste.Books.{Fits, Agree, IsSound}

assert_transition_passes :
    (from to : BookingState) → assert_transition from to ≡ ok tt → can_transition from to ≡ true
unfolding assert_transition
assert_transition_passes from to h = ground arith

pub find_booking_finds :
    (k : ℕ) (db : Db) (b : Booking) → find_booking k db ≡ ok b → db.bookings k ≡ some b
unfolding find_booking
find_booking_finds k db b h = elim (Option-cases (db.bookings k)) [
  | inl e ↦
      absurd
        (let impossible : Result.err booking_not_found ≡ ok b = rw (find_booking, e) at h in cc)
  | inr (c, e) ↦ e ∙ ap some (let same : Result.ok c ≡ ok b = rw (find_booking, e) at h in cc)
]

-- What a transition that succeeds has done.
abbrev pub Moved : ℕ → BookingState → (Booking → Booking) → Db → Booking × Db → Type 0
Moved k to data_of db r =
    (b : Booking) × (db.bookings k ≡ some b)
    × (can_transition b.state to ≡ true)
    × (r.1.bookings ≡ put k (data_of (record b { state = to })) db.bookings)
    × (r.1.ledger ≡ db.ledger)

pub transition-Moved :
    (k : ℕ) (to : BookingState) (data_of : Booking → Booking) (db : Db) {r : Booking × Db}
    → transition k to data_of db ≡ ok r
    → Moved k to data_of db r
unfolding transition
transition-Moved k to data_of db {r} h =
    let (b, at, checked) = >>=-eq-ok (find_booking k db) _ h in
    let (u, allowed, same) = >>=-eq-ok (assert_transition b.state to) _ checked in
    let e = ok-injective same in
    (
      b,
      find_booking_finds k db b at,
      assert_transition_passes b.state to allowed,
      sym (ap (λ q. q.1.bookings) e),
      sym (ap (λ q. q.1.ledger) e),
    )

-- A step on the ledger that succeeds has moved the sum of one booking.
pub on_ledger-Moves :
    {A : Type 0} (step : Ledger → Result (A × Ledger)) (db : Db) {r : A × Db}
    → on_ledger step db ≡ ok r
    → (w : A × Ledger) × (step db.ledger ≡ ok w) × (r.1.ledger ≡ w.1) × (r.1.bookings ≡ db.bookings)
unfolding on_ledger
on_ledger-Moves step db h =
    let (w, stepped, same) = >>=-eq-ok (step db.ledger) _ h in
    let e = ok-injective same in
    (w, stepped, sym (ap (λ q. q.1.ledger) e), sym (ap (λ q. q.1.bookings) e))

-- The tables that the books compare are those of another database.
abbrev pub Same : Db → Db → Type 0
Same db db' = (db'.bookings ≡ db.bookings) × (db'.ledger ≡ db.ledger)

pub Same-IsSound : (db db' : Db) → Same db db' → IsSound db → IsSound db'
Same-IsSound db db' same sound = rw (same.0, same.1) sound

pub create_liability-Same :
    (user booking_id amount : ℕ) (db : Db) → Same db (create_liability user booking_id amount db)
unfolding create_liability
create_liability-Same user booking_id amount db = elim (Bool-cases (amount == 0)) [
  | inl e ↦ rw e (refl, refl)
  | inr e ↦ rw e (refl, refl)
]

pub some-injective {ℓ} : {A : Type ℓ} {b c : A} → Option.some b ≡ some c → b ≡ c
some-injective h = cc

pub apart : (j k : ℕ) → (j == k) ≡ false → j ≢ k
apart j k h = ground arith

-- A row replaced by one that fits leaves books that agree.
pub put-Agree :
    (k : ℕ) (b : Booking) (bookings : ℕ → Option Booking) (l l' : Ledger)
    → Agree bookings l
    → Fits k b l'
    → ((j : ℕ) → j ≢ k → (reconcile j l').sum_kobo ≡ (reconcile j l).sum_kobo)
    → Agree (put k b bookings) l'
put-Agree k b bookings l l' agree fits others j c at = elim (Bool-cases (j == k)) [
  | inl e ↦
      let same : j ≡ k = (==_iff j k).0 e in
      let hit : some b ≡ some c = rw e at at in rw (same, ← some-injective hit) fits
  | inr e ↦
      let row : bookings j ≡ some c = rw e at at in
      let (id, terms, sum) = agree j c row in (id, terms, others j (apart j k e) ∙ sum)
]
