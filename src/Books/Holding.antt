-- ===== src/Books/Holding.antt =====
-- The transactions between the funding of a booking and the end of its event, and those that leave
-- the state alone, keep the books in agreement.
use o_artiste.Prelude.{
  ℕ, pos, neg, ◌≡◌, refl, sym, ◌∙◌, Bool, true, false, List, is_some, Bool-cases, Option-cases, inl,
  inr, arith, int_laws, find,
}
use o_artiste.Schema.{BookingState, disputed, awaiting_confirmation, checked_in, funded_held}
use o_artiste.Errors.{ok, err, >>=-eq-ok, ok-injective}
use o_artiste.Booking.{Booking, can_transition}
use o_artiste.Ledger.{transaction, record_funding, reconcile}
use o_artiste.Ledger.Balance.{funding-Moves}
use o_artiste.Store.{Db, Dispute, transition, on_ledger, no_data, find_booking, put, amend}
use o_artiste.Disputes.{open_dispute, create_dispute, move_if, is_live}
use o_artiste.CheckIn.{issue_for_booking, redeem_tx, check_in_data, with_code}
use o_artiste.Webhooks.{fund_tx}
use o_artiste.Books.{is_held, Fits, IsSound}
use o_artiste.Books.Transactions.{transition-Moved, on_ledger-Moves, put-Agree, some-injective}
use o_artiste.Books.Concluding.{
  Keeps, Read, passage-Agree, no_data-Keeps, step_writes, Read-find_booking,
}

-- The transition was allowed from the state of the row that the request has read.
allowed_from :
    (b : Booking) (to : BookingState) (data_of : Booking → Booking) (db : Db) {n : Booking × Db}
    → Read b db
    → transition b.id to data_of db ≡ ok n
    → can_transition b.state to ≡ true
allowed_from b to data_of db read moved =
    let (row, found, allowed, bookings, ledger) = transition-Moved b.id to data_of db moved in
    rw (some-injective (sym found ∙ read.1)) at allowed

-- A step between two states that hold the money.
pub held-IsSound :
    (b : Booking) (to : BookingState) (data_of : Booking → Booking) (db : Db) {n : Booking × Db}
    → Read b db
    → Keeps data_of
    → is_held to ≡ true
    → (can_transition b.state to ≡ true → is_held b.state ≡ true)
    → transition b.id to data_of db ≡ ok n
    → IsSound n.1
held-IsSound b to data_of db {n} read keeps to_held from_held moved =
    let held = from_held (allowed_from b to data_of db read moved) in
    let (id, terms, old) = read.0 b.id b read.1 in
    let owed : (reconcile b.id db.ledger).sum_kobo ≡ neg (pos b.amount_kobo) = rw held at old in
    let kept : n.1.ledger ≡ db.ledger = (transition-Moved b.id to data_of db moved).4 in
    rw kept (
      passage-Agree b to data_of db db.ledger read keeps moved (λ h. terms.2 held)
        (λ allowed. rw to_held owed) (λ j other. refl))

-- A row amended in columns that the books do not read.
pub amend-IsSound :
    (k : ℕ) (data_of : Booking → Booking) (db : Db) {r : Booking × Db}
    → IsSound db
    → Keeps data_of
    → amend k data_of db ≡ ok r
    → IsSound r.1
unfolding amend
amend-IsSound k data_of db {r} sound keeps h = elim (Option-cases (db.bookings k)) [
  | inl e ↦ absurd (let impossible = rw (amend, find_booking, e) at h in cc)
  | inr (b, e) ↦
      let same : ok (data_of b, record db { bookings = put k (data_of b) db.bookings }) ≡ ok r =
        rw (amend, find_booking, e) at h in
      let (id, terms, sum) = sound k b e in
      let (id', state, amount, rate, tiers, escrow) = keeps b in
      let fits : Fits k (data_of b) db.ledger =
        rw (id', state, amount, rate, tiers, escrow) (id, terms, sum) in
      rw (← ok-injective same)
        (put-Agree k (data_of b) db.bookings db.ledger db.ledger sound fits (λ j other. refl))
]

dispute_from_held : (s : BookingState) → can_transition s disputed ≡ true → is_held s ≡ true
unfolding can_transition
dispute_from_held s h = ground arith

check_in_from_held : (s : BookingState) → can_transition s checked_in ≡ true → is_held s ≡ true
unfolding can_transition
check_in_from_held s h = ground arith

pub window_from_held :
    (s : BookingState) → can_transition s awaiting_confirmation ≡ true → is_held s ≡ true
unfolding can_transition
window_from_held s h = ground arith

fund_from_unheld : (s : BookingState) → can_transition s funded_held ≡ true → is_held s ≡ false
unfolding can_transition
fund_from_unheld s h = ground arith

move_if-IsSound :
    (may : Bool) (b : Booking) (db : Db) {r : Unit × Db}
    → Read b db
    → move_if may b.id db ≡ ok r
    → IsSound r.1
move_if-IsSound true b db {r} read h =
    let (n, moved, same) = >>=-eq-ok (transition b.id disputed no_data db) _ h in
    rw (← ok-injective same)
      (held-IsSound b disputed no_data db read no_data-Keeps refl (dispute_from_held b.state) moved)
move_if-IsSound false b db {r} read h = rw (← ok-injective h) read.0

create_dispute-IsSound :
    (b : Booking) (opened_by : ℕ) (db : Db) {r : Dispute × Db}
    → Read b db
    → create_dispute b opened_by db ≡ ok r
    → IsSound r.1
unfolding create_dispute
create_dispute-IsSound b opened_by db {r} read h =
    let (m, moved, same) = >>=-eq-ok (move_if (can_transition b.state disputed) b.id _) _ h in
    rw (← ok-injective same) (move_if-IsSound (can_transition b.state disputed) b _ read moved)

pub open_dispute-IsSound :
    (booking_id opened_by : ℕ) (has_reason : Bool) (db : Db) {r : Dispute × Db}
    → IsSound db
    → open_dispute booking_id opened_by has_reason db ≡ ok r
    → IsSound r.1
unfolding open_dispute
open_dispute-IsSound booking_id opened_by false db {r} sound h = absurd cc
open_dispute-IsSound booking_id opened_by true db {r} sound h =
    let (b, at, rest) = >>=-eq-ok (find_booking booking_id db) _ h in
    elim (Option-cases (find (is_live booking_id) db.disputes)) [
      | inr (existing, e) ↦
          let same : ok (existing, db) ≡ ok r = rw e at rest in rw (← ok-injective same) sound
      | inl e ↦
          let created : create_dispute b opened_by db ≡ ok r = rw e at rest in
          create_dispute-IsSound b opened_by db (Read-find_booking booking_id db b sound at) created
    ]

check_in-Keeps : (now : ℕ) → Keeps (check_in_data now)
check_in-Keeps now b = (refl, refl, refl, refl, refl, refl)

with_code-Keeps : (code : List ℕ) → Keeps (with_code code)
with_code-Keeps code b = (refl, refl, refl, refl, refl, refl)

issue_for_booking-IsSound :
    (code : List ℕ) (b : Booking) (db : Db) {r : Unit × Db}
    → IsSound db
    → issue_for_booking code b db ≡ ok r
    → IsSound r.1
unfolding issue_for_booking
issue_for_booking-IsSound code b db {r} sound h = elim (Bool-cases (is_some b.check_in_code)) [
  | inl e ↦
      let same : ok (tt, db) ≡ ok r = rw (issue_for_booking, e) at h in
      rw (← ok-injective same) sound
  | inr e ↦
      elim (amend b.id (with_code code) db)
          as (λ x. amend b.id (with_code code) db ≡ x → IsSound r.1) [
            | err f ↦
                λ amended. absurd (let impossible = rw (issue_for_booking, e, amended) at h in cc)
            | ok s ↦ λ amended.
                let same : ok (tt, s.1) ≡ ok r = rw (issue_for_booking, e, amended) at h in
                rw (← ok-injective same)
                  (amend-IsSound b.id (with_code code) db sound (with_code-Keeps code) amended)
          ]
        refl
]

-- The entries of a funding bring a booking that nobody has paid for to what is held.
pub fund_tx-IsSound :
    (code : List ℕ) (b : Booking) (db : Db) {r : Unit × Db}
    → Read b db
    → is_some b.escrow_id ≡ true
    → fund_tx code b db ≡ ok r
    → IsSound r.1
unfolding fund_tx
fund_tx-IsSound code b db {r} read escrow h =
    let (n, moved, rest) = >>=-eq-ok (transition b.id funded_held no_data db) _ h in
    let (e, stepped, issued) = >>=-eq-ok (on_ledger (record_funding transaction b) n.1) _ rest in
    let kept : n.1.ledger ≡ db.ledger = (transition-Moved b.id funded_held no_data db moved).4 in
    let (w, wrote, ledger, bookings) = on_ledger-Moves (record_funding transaction b) n.1 stepped in
    let wrote' : record_funding transaction b db.ledger ≡ ok w = rw kept at wrote in
    let (v, writes, grows, sum, others) = funding-Moves b db.ledger in
    let out : v.1 ≡ w.1 = step_writes (record_funding transaction b db.ledger) wrote' writes in
    let (id, terms, old) = read.0 b.id b read.1 in
    let unheld = fund_from_unheld b.state (allowed_from b funded_held no_data db read moved) in
    let empty : (reconcile b.id db.ledger).sum_kobo ≡ pos 0 = rw unheld at old in
    let owed : (reconcile b.id v.1).sum_kobo ≡ neg (pos b.amount_kobo) =
      sum ∙ rw empty (omega int_laws) in
    let sound : IsSound e.1 =
      rw (bookings, ledger, ← out)
        (passage-Agree b funded_held no_data db v.1 read no_data-Keeps moved (λ h. escrow)
          (λ allowed. owed) others) in
    issue_for_booking-IsSound code b e.1 sound issued

pub redeem_tx-IsSound :
    (now booking_id : ℕ) (db : Db) {r : Booking × Db}
    → IsSound db
    → redeem_tx now booking_id db ≡ ok r
    → IsSound r.1
redeem_tx-IsSound now booking_id db {r} sound h =
    elim (find_booking booking_id db) as (λ x. find_booking booking_id db ≡ x → IsSound r.1) [
      | err f ↦ λ found. absurd (let impossible = rw (redeem_tx, found) at h in cc)
      | ok b ↦ λ found. elim (Bool-cases (is_some b.check_in)) [
        | inl e ↦ absurd (let impossible = rw (redeem_tx, found, e) at h in cc)
        | inr e ↦
            let moved : transition b.id checked_in (check_in_data now) db ≡ ok r =
              rw (redeem_tx, found, e) at h in
            held-IsSound b checked_in (check_in_data now) db
              (Read-find_booking booking_id db b sound found) (check_in-Keeps now) refl
              (check_in_from_held b.state) moved
      ]
    ]
      refl
