-- ===== src/Webhooks.antt =====
-- apps/backend/src/services/webhookService.ts: the bookings that events are about, and the
-- transactions of the two handlers that move a booking. What
-- `GET /transactions/{id}` answers is given with the request, and so is the code to issue. Of what
-- follows a funding, the queueing of the code's message and the client's notice are left out.
pub mod Handlers
pub mod Reports
pub mod Intake
pub mod Events
pub mod Kept
pub mod Once
use o_artiste.Prelude.{ℕ, ltb, ◌==◌, Bool, true, false, Option, none, some, List, if◌then◌else◌}
use o_artiste.Schema.{BookingState, funded_held, cancelled, state_eq}
use o_artiste.Errors.{Result, ok, err, throw_if, underfunded, ◌>>=◌}
use o_artiste.Booking.{Booking, can_transition}
use o_artiste.Ledger.{transaction, record_funding}
use o_artiste.Store.{Db, Tx, find_first, transition, no_data, on_ledger}
use o_artiste.Request.{World, Env, Action, transact}
use o_artiste.CheckIn.{issue_for_booking}

pub data FailedLeg : Type 0 where
  a_release a_refund a_payout : FailedLeg

-- `note` of a handler
pub data Note : Type 0 where
  no_booking already_funded funded already_cancelled left_alone cancelled_booking : Note
  partial_funding escrow_expired payout_arrived issue_reported : Note
  confirmed unconfirmed : BookingState → Note
  -- what failed, and the booking where there is one
  failed_leg : FailedLeg → Option ℕ → Note

abbrev pub has_escrow : ℕ → Booking → Bool
has_escrow escrow_id b = elim b.escrow_id [ none ↦ false | some e ↦ e == escrow_id ]

-- `bookingForEscrow`
abbrev pub booking_for_escrow : ℕ → Db → Option Booking
booking_for_escrow escrow_id db = find_first (has_escrow escrow_id) db.booking_ids db

unfoldable pub fund_tx : List ℕ → Booking → Tx (Unit {0})
fund_tx code b db = do
  next ← transition b.id funded_held no_data db
  entries ← on_ledger (record_funding transaction b) next.1
  issue_for_booking code b entries.1

abbrev pub cancel_tx : Booking → Tx (Unit {0})
cancel_tx b db = transition b.id cancelled no_data db >>= λ next. ok (tt, next.1)
