-- ===== src/Books/Cancelling.antt =====
-- The transactions of a cancellation and a refund keep the books in agreement; strikes
-- and the standings that follow from them do not touch the books.
use o_artiste.Prelude.{
  ℕ, ℤ, pos, ◌≡◌, refl, Bool, false, Option, some, none, Bool-cases, Option-cases, inl, inr, leb,
}
use o_artiste.Schema.{refunded, cancelled, pending_payment, state_eq}
use o_artiste.Errors.{ok, >>=-eq-ok, ok-injective}
use o_artiste.Fees.{ClientCancellation}
use o_artiste.Tiers.{Tier}
use o_artiste.Booking.{Booking}
use o_artiste.Ledger.{
  transaction, record_artist_cancellation, record_client_cancellation, reconcile,
}
use o_artiste.Ledger.Balance.{artist_cancellation-Moves, client_cancellation-Moves}
use o_artiste.Store.{
  Db, StrikeRule, EnforcementParty, transition, on_ledger, create_liability, CancellationInitiator,
  by_artist,
}
use o_artiste.Enforcement.{
  apply_standing, ladder_of, rung_for, resolve_ladders, active_weight, severity,
}
use o_artiste.Strikes.{
  accrue, accrue_if, with_strike, accrue_for_cancellation, accrue_for_dispute, resolve_rules,
  trigger_for_cancellation, trigger_for_dispute,
}
use o_artiste.Escrow.Records.{
  withdraw_by_client_tx, cancel_by_client_tx, withdraw_by_artist_tx, refund_tx,
  artist_cancellation_rows, artist_fault, artist_row, cancelled_at_data, refunded_at_data,
}
use o_artiste.Books.{is_held, IsWhole, IsSound}
use o_artiste.Books.Transactions.{Same, Same-IsSound, create_liability-Same, transition-Moved}
use o_artiste.Books.Concluding.{
  Keeps, Read, passage-Agree, concluded-IsSound, held_before, held_before_refund,
}

apply_standing-Same :
    (user_id : ℕ) (party : EnforcementParty) (at : ℕ) (db : Db)
    → Same db (apply_standing user_id party at db).1
unfolding apply_standing
apply_standing-Same user_id party at db = elim (Option-cases (db.users user_id)) [
  | inl e ↦ rw (apply_standing, e) (refl, refl)
  | inr (u, e) ↦
      elim (Option-cases (rung_for (resolve_ladders at db) party (active_weight user_id db))) [
        | inl none_matches ↦ rw (apply_standing, e, none_matches) (refl, refl)
        | inr (rung, picked) ↦
            elim (Bool-cases (leb (severity rung.standing) (severity u.account_standing))) [
              | inl mild ↦ rw (apply_standing, e, picked, mild) (refl, refl)
              | inr harsh ↦ rw (apply_standing, e, picked, harsh) (refl, refl)
            ]
      ]
]

accrue-Same :
    (user_id : ℕ) (rule : StrikeRule) (booking_id at : ℕ) (db : Db)
    → Same db (accrue user_id rule booking_id at db)
unfolding accrue
accrue-Same user_id rule booking_id at db = elim (Option-cases (db.users user_id)) [
  | inl e ↦ rw (accrue, e) (refl, refl)
  | inr (u, e) ↦
      rw (accrue, e)
        (apply_standing-Same user_id (ladder_of u) at (with_strike user_id rule booking_id db))
]

accrue_if-Same :
    (rule : Option StrikeRule) (user_id booking_id at : ℕ) (db : Db)
    → Same db (accrue_if rule user_id booking_id at db)
accrue_if-Same none user_id booking_id at db = (refl, refl)
accrue_if-Same (some rule) user_id booking_id at db = accrue-Same user_id rule booking_id at db

pub accrue_for_cancellation-Same :
    (user_id : ℕ) (by : CancellationInitiator) (days : ℤ) (booking_id at : ℕ) (db : Db)
    → Same db (accrue_for_cancellation user_id by days booking_id at db)
unfolding accrue_for_cancellation
accrue_for_cancellation-Same user_id by days booking_id at db =
    accrue_if-Same (trigger_for_cancellation (resolve_rules at db) by days) user_id booking_id at db

pub accrue_for_dispute-Same :
    (user_id : ℕ) (false_claim : Bool) (booking_id at : ℕ) (db : Db)
    → Same db (accrue_for_dispute user_id false_claim booking_id at db)
unfolding accrue_for_dispute
accrue_for_dispute-Same user_id false_claim booking_id at db =
    accrue_if-Same (trigger_for_dispute (resolve_rules at db) false_claim) user_id booking_id at db

cancelled_at-Keeps : (now : ℕ) → Keeps (cancelled_at_data now)
cancelled_at-Keeps now b = (refl, refl, refl, refl, refl, refl)

pub refunded_at-Keeps : (now : ℕ) → Keeps (refunded_at_data now)
refunded_at-Keeps now b = (refl, refl, refl, refl, refl, refl)

-- A booking from which no money is held is withdrawn without an entry.
withdrawn-Agree :
    (now : ℕ) (b : Booking) (db : Db) {n : Booking × Db}
    → Read b db
    → is_held b.state ≡ false
    → transition b.id cancelled (cancelled_at_data now) db ≡ ok n
    → IsSound n.1
withdrawn-Agree now b db {n} read unheld moved =
    let (id, terms, old) = read.0 b.id b read.1 in
    let empty : (reconcile b.id db.ledger).sum_kobo ≡ pos 0 = rw unheld at old in
    let (row, found, allowed, bookings, ledger) =
      transition-Moved b.id cancelled (cancelled_at_data now) db moved in
    rw ledger (
      passage-Agree b cancelled (cancelled_at_data now) db db.ledger read (cancelled_at-Keeps now)
        moved (λ h. absurd cc) (λ allowed. empty) (λ j other. refl))

pub withdraw_by_client_tx-IsSound :
    (now : ℕ) (b : Booking) (tier : Tier) (days : ℤ) (db : Db) {r : Booking × Db}
    → Read b db
    → is_held b.state ≡ false
    → withdraw_by_client_tx now b tier days db ≡ ok r
    → IsSound r.1
unfolding withdraw_by_client_tx
withdraw_by_client_tx-IsSound now b tier days db {r} read unheld h =
    let (n, moved, same) = >>=-eq-ok (transition b.id cancelled (cancelled_at_data now) db) _ h in
    rw (← ok-injective same) (withdrawn-Agree now b db read unheld moved)

pub withdraw_by_artist_tx-IsSound :
    (now : ℕ) (b : Booking) (days : ℤ) (db : Db) {r : Booking × Db}
    → Read b db
    → is_held b.state ≡ false
    → withdraw_by_artist_tx now b days db ≡ ok r
    → IsSound r.1
unfolding withdraw_by_artist_tx
withdraw_by_artist_tx-IsSound now b days db {r} read unheld h =
    let (n, moved, same) = >>=-eq-ok (transition b.id cancelled (cancelled_at_data now) db) _ h in
    rw (← ok-injective same) (
      let row = artist_row b days 0 0 n.1 in
      Same-IsSound n.1 (accrue_for_cancellation b.artist_user_id by_artist days b.id now row)
        (accrue_for_cancellation-Same b.artist_user_id by_artist days b.id now row)
        (withdrawn-Agree now b db read unheld moved))

pub cancel_by_client_tx-IsSound :
    (now : ℕ) (b : Booking) (tier : Tier) (days : ℤ) (c : ClientCancellation) (db : Db)
    {r : Booking × Db}
    → Read b db
    → state_eq b.state pending_payment ≡ false
    → IsWhole tier
    → cancel_by_client_tx now b tier days c db ≡ ok r
    → IsSound r.1
unfolding cancel_by_client_tx
cancel_by_client_tx-IsSound now b tier days c db {r} read funded whole h =
    let data_of = cancelled_at_data now in
    let (n, moved, rest) = >>=-eq-ok (transition b.id cancelled data_of db) _ h in
    let step = record_client_cancellation transaction b tier in
    let (e, stepped, same) = >>=-eq-ok (on_ledger step n.1) _ rest in
    let bps = (read.0 b.id b read.1).1.0 in
    rw (← ok-injective same) (
      concluded-IsSound b cancelled data_of step db read (cancelled_at-Keeps now)
        (λ allowed. held_before b.state cancelled allowed funded) refl
        (client_cancellation-Moves b tier db.ledger bps whole) moved stepped)

pub refund_tx-IsSound :
    (now : ℕ) (b : Booking) (also_record : Db → Db) (db : Db) {r : Booking × Db}
    → ((d : Db) → Same d (also_record d))
    → Read b db
    → refund_tx now b also_record db ≡ ok r
    → IsSound r.1
unfolding refund_tx
refund_tx-IsSound now b also_record db {r} also read h =
    let data_of = refunded_at_data now in
    let (n, moved, rest) = >>=-eq-ok (transition b.id refunded data_of db) _ h in
    let step = record_artist_cancellation transaction b in
    let (e, stepped, same) = >>=-eq-ok (on_ledger step n.1) _ rest in
    let owing = create_liability b.artist_user_id b.id (artist_fault b).fee_liability e.1 in
    let sound =
      concluded-IsSound b refunded data_of step db read (refunded_at-Keeps now)
        (held_before_refund b.state) refl (artist_cancellation-Moves b db.ledger) moved stepped in
    rw (← ok-injective same) (
      Same-IsSound owing (also_record owing) (also owing) (
        Same-IsSound e.1 owing
          (create_liability-Same b.artist_user_id b.id (artist_fault b).fee_liability e.1) sound))

pub artist_cancellation_rows-Same :
    (now : ℕ) (b : Booking) (days : ℤ) (db : Db) → Same db (artist_cancellation_rows now b days db)
unfolding artist_cancellation_rows
artist_cancellation_rows-Same now b days db =
    let c = artist_fault b in
    accrue_for_cancellation-Same b.artist_user_id by_artist days b.id now
      (artist_row b days c.client_total_returned c.fee_liability db)
