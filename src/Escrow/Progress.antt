-- ===== src/Escrow/Progress.antt =====
-- A release that may be made goes through when the provider and the database do their part.
use o_artiste.Prelude.{
  ℕ, ℤ, pos, ltb_ℤ, ◌≡◌, refl, ap, ◌∙◌, true, false, some, is_some, List, [], ◌∷◌, ◌++◌, length,
  Bool-cases, inl, inr, ==_refl, arith,
}
use mathlib.Core.List.{append_assoc}
use o_artiste.Schema.{BookingState, released, state_eq}
use o_artiste.Errors.{ok}
use o_artiste.Booking.{Booking, assert_transition, can_transition}
use o_artiste.Ledger.{
  record_release, release_legs, record_fee_liability_settlement, settlement_legs, completion_for,
}
use o_artiste.Ledger.Append.{append_all_lem, rows}
use o_artiste.Store.{Db, FeeLiability, Passage, find_booking, transition, no_data, on_ledger, put}
use o_artiste.Request.{
  leg_of, release_leg, to_wallet, cancel_auto_release, World, Env, ◌>>=◌, emit, done, Instruction,
}
use o_artiste.Request.Runs.{check-then, query-then, transact-then, instruct-then, bind-run}
use o_artiste.Payouts.{pay_out, went_out}
use o_artiste.Payouts.Progress.{row_after, legs_after, pay_out-goes}
use o_artiste.Escrow.Records.{release_tx, settle_tx, settle_rows}
use o_artiste.Escrow.Operations.{
  ReleaseSummary, funded_check, party_check, select_settleable, settlement_of, release_now,
  release_booking,
}

assert_transition-ok :
    (from to : BookingState) → can_transition from to ≡ true → assert_transition from to ≡ ok tt
unfolding assert_transition
assert_transition-ok from to h = rw h refl

-- The row that a release leaves.
abbrev pub as_released : Booking → Booking
as_released b = record b { state = released }

transition-goes :
    (b : Booking) (db : Db)
    → db.bookings b.id ≡ some b
    → can_transition b.state released ≡ true
    → (db' : Db) × (transition b.id released no_data db ≡ ok (as_released b, db'))
      × (db'.bookings ≡ put b.id (as_released b) db.bookings)
      × (db'.artists ≡ db.artists)
unfolding transition find_booking
transition-goes b db at allowed =
    let passage : Passage = record {
      booking_id = b.id;
      from_state = some b.state;
      to_state = released;
    } in
    (
      record db {
        bookings = put b.id (as_released b) db.bookings;
        passages = db.passages ++ passage ∷ [];
      },
      rw (transition, find_booking, at, assert_transition-ok b.state released allowed) refl,
      refl,
      refl,
    )

settle_tx-goes :
    (b : Booking) (chosen : List FeeLiability) (settled_kobo : ℤ) (db : Db)
    → (db' : Db) × (settle_tx b chosen settled_kobo db ≡ ok (tt, db'))
      × (db'.bookings ≡ db.bookings)
      × (db'.artists ≡ db.artists)
unfolding settle_tx on_ledger record_fee_liability_settlement
settle_tx-goes b chosen settled_kobo db = elim (Bool-cases (ltb_ℤ (pos 0) settled_kobo)) [
  | inl e ↦
      let written = rows b.id (length db.ledger) (settlement_legs settled_kobo) in
      (
        record db {
          ledger = db.ledger ++ written;
          liabilities = settle_rows chosen b.id db.liabilities;
        },
        rw
            (
              settle_tx,
              e,
              on_ledger,
              record_fee_liability_settlement,
              append_all_lem b.id (settlement_legs settled_kobo) db.ledger,
            )
            refl,
        refl,
        refl,
      )
  | inr e ↦ (db, rw (settle_tx, e) refl, refl, refl)
]

release_tx-goes :
    (b : Booking) (chosen : List FeeLiability) (settled_kobo : ℤ) (db : Db)
    → db.bookings b.id ≡ some b
    → can_transition b.state released ≡ true
    → (db' : Db) × (release_tx b chosen settled_kobo db ≡ ok (as_released b, db'))
      × (db'.bookings b.id ≡ some (as_released b))
      × (db'.artists ≡ db.artists)
unfolding release_tx on_ledger record_release
release_tx-goes b chosen settled_kobo db at allowed =
    let (db1, moved, bookings, artists) = transition-goes b db at allowed in
    let written = rows b.id (length db1.ledger) (release_legs b) in
    let db2 = record db1 { ledger = db1.ledger ++ written } in
    let (db3, settled, same, artists') = settle_tx-goes b chosen settled_kobo db2 in
    (
      db3,
      rw
          (
            release_tx,
            moved,
            on_ledger,
            record_release,
            append_all_lem b.id (release_legs b) db1.ledger,
            settled,
          )
          refl,
      rw (same, bookings) (rw (==_refl b.id) refl),
      artists' ∙ artists,
    )

not_yet_released :
    (s : BookingState) → can_transition s released ≡ true → state_eq s released ≡ false
unfolding can_transition
not_yet_released s h = ground arith

-- What the request has done once it returns.
abbrev pub Releases : Env → Booking → World → ReleaseSummary → World → Type 0
Releases env b w s v =
    let payout = (settlement_of b w.db).payout in
    let artist = w.db.artists b.artist_user_id in
    (s.state ≡ released)
    × (v.db.bookings b.id ≡ some (row_after env (as_released b) payout artist))
    × (v.instructed
        ≡ w.instructed
          ++ leg_of b to_wallet release_leg b.amount_kobo
            ∷ legs_after env (as_released b) payout artist)

release_now-goes :
    (env : Env) (b : Booking) (w : World)
    → w.db.bookings b.id ≡ some b
    → can_transition b.state released ≡ true
    → is_some b.escrow_id ≡ true
    → is_some b.artist_party_id ≡ true
    → ((i : Instruction) → env.accepts i ≡ true)
    → ((db : Db) → env.commits db ≡ true)
    → (s : ReleaseSummary) × (v : World) × (release_now env b w ≡ (ok s, v)) × Releases env b w s v
unfolding release_now emit done ◌>>=◌
release_now-goes env b w at allowed funded has_party accepts commits =
    let net = (completion_for b).artist_net in
    let chosen = (select_settleable b.artist_user_id net w.db).0 in
    let settlement = settlement_of b w.db in
    let commission = some (completion_for b).commission_kobo in
    let leg = leg_of b to_wallet release_leg b.amount_kobo in
    let called = record w { instructed = w.instructed ++ leg ∷ [] } in
    let (db, wrote, stands, artists) =
      release_tx-goes b chosen settlement.settled_kobo w.db at allowed in
    let committed = record called {
      db = db;
      effects = w.effects ++ cancel_auto_release b.id ∷ [];
    } in
    let (result, ended, paid, row, calls) =
      pay_out-goes env (as_released b) settlement.payout commission accepts commits committed
        stands in
    let summary : ReleaseSummary = record {
      state = released;
      already_released = false;
      artist_net_kobo = net;
      liability_settled_kobo = settlement.settled_kobo;
      payout_kobo = settlement.payout;
      paid_out = went_out result;
    } in
    let ran : release_now env b w ≡ (ok summary, ended) =
      check-then (assert_transition b.state released) _ w
        (assert_transition-ok b.state released allowed)
      ∙ (check-then (funded_check b) _ w (rw funded refl)
          ∙ (check-then (party_check b) _ w (rw has_party refl)
              ∙ (query-then (λ d. ok (select_settleable b.artist_user_id net d).0) _ w refl
                  ∙ (query-then (λ d. ok (settlement_of b d)) _ w refl
                      ∙ (instruct-then env leg _ w (accepts leg)
                          ∙ (transact-then env (release_tx b chosen settlement.settled_kobo) _
                                called wrote (commits db)
                              ∙ bind-run (pay_out env b.id settlement.payout commission) _
                                  paid)))))) in
    let artist = ap (λ f. f b.artist_user_id) artists in
    let all = rw artist at calls in
    (
      summary,
      ended,
      ran,
      (
        refl,
        rw artist at row,
        all
            ∙ append_assoc w.instructed (leg ∷ [])
                (legs_after env (as_released b) settlement.payout (w.db.artists b.artist_user_id)),
      ),
    )

-- A booking that stands under its id in a state from which it may be released, with an escrow and an
-- artist who can receive, is released when the provider takes the calls and the database commits:
-- the request returns, the provider has been asked once to move the whole amount out of the
-- escrow, and the artist's payout has followed. That payout is not made where the booking has a
-- payout id or nothing is left to pay, and then the row is in RELEASED and otherwise as it was; it
-- fails where there is no account or no wallet, and then the row keeps the reason besides; and else
-- the provider has been asked once more, for what is left, and the row is marked paid besides.
pub release_booking_goes_through :
    (env : Env) (k : ℕ) (w : World) {b : Booking}
    → w.db.bookings k ≡ some b
    → b.id ≡ k
    → can_transition b.state released ≡ true
    → is_some b.escrow_id ≡ true
    → is_some b.artist_party_id ≡ true
    → ((i : Instruction) → env.accepts i ≡ true)
    → ((db : Db) → env.commits db ≡ true)
    → (s : ReleaseSummary) × (v : World) × (release_booking env k w ≡ (ok s, v))
      × Releases env b w s v
unfolding release_booking find_booking
release_booking_goes_through env k w {b} at id allowed funded has_party accepts commits =
    let stands : w.db.bookings b.id ≡ some b = ap w.db.bookings id ∙ at in
    let (s, v, ran, facts) =
      release_now-goes env b w stands allowed funded has_party accepts commits in
    let read : find_booking k w.db ≡ ok b = rw (find_booking, at) refl in
    let fresh = not_yet_released b.state allowed in
    (s, v, query-then (find_booking k) _ w read ∙ rw fresh ran, facts)
