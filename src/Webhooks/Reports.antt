-- ===== src/Webhooks/Reports.antt =====
-- The handlers of apps/backend/src/services/webhookService.ts that report and do not move a booking.
-- What the provider says the transaction of a release or a refund is comes with the request.
use o_artiste.Prelude.{ℕ, ◌==◌, Bool, false, Option, none, some, if◌then◌else◌}
use o_artiste.Schema.{BookingState, state_eq}
use o_artiste.Errors.{Result, ok, err, unresolved_object}
use o_artiste.Booking.{Booking, reported_failed}
use o_artiste.Store.{
  Db, Payload, EventObject, transaction_object, release_object, refund_object, payout_object,
  other_object, find_first, amend,
}
use o_artiste.Request.{Env, Action, ◌>>=◌, ◌>>◌, done, query, transact}
use o_artiste.Webhooks.{
  Note, no_booking, partial_funding, escrow_expired, payout_arrived, issue_reported, confirmed,
  unconfirmed, failed_leg, FailedLeg, a_payout, booking_for_escrow,
}

-- `objectId`
abbrev pub object_id_of : Payload → Option ℕ
object_id_of p = elim p.object_id [ some id ↦ some id | none ↦ p.transaction_id ]

abbrev pub booking_of_escrow : Option ℕ → Db → Option Booking
booking_of_escrow none db = none
booking_of_escrow (some escrow_id) db = booking_for_escrow escrow_id db

-- `bookingForEscrow`
abbrev pub booking_for_payload : Payload → Db → Option Booking
booking_for_payload p = booking_of_escrow (object_id_of p)

abbrev has_payout : ℕ → Booking → Bool
has_payout payout_id b = elim b.payout_id [ none ↦ false | some p ↦ p == payout_id ]

-- The transaction of a release or a refund: what the payload carries, else what the provider says,
-- which is nothing when the call throws.
abbrev own_transaction : Payload → Option (Option ℕ) → Result (Option ℕ)
own_transaction p asked = elim p.transaction_id [
  | some id ↦ ok (some id)
  | none ↦ elim asked [ none ↦ err unresolved_object | some answer ↦ ok answer ]
]

abbrev booking_of_own : Payload → Option (Option ℕ) → Db → Result (Option Booking)
booking_of_own p asked db = elim (own_transaction p asked) [
  | err e ↦ err e
  | ok id ↦ ok (booking_of_escrow id db)
]

-- The lookup by the kind of the object, for an event that names one.
abbrev booking_of_object :
    EventObject → ℕ → Payload → Option (Option ℕ) → Db → Result (Option Booking)
booking_of_object payout_object id p asked db = ok (find_first (has_payout id) db.booking_ids db)
booking_of_object release_object id p asked db = booking_of_own p asked db
booking_of_object refund_object id p asked db = booking_of_own p asked db
booking_of_object transaction_object id p asked db = ok (booking_for_payload p db)
booking_of_object other_object id p asked db = ok (booking_for_payload p db)

unfoldable pub booking_for_event : Payload → Option (Option ℕ) → Db → Result (Option Booking)
booking_for_event p asked db = elim p.object_id [
  | none ↦ ok (booking_for_payload p db)
  | some id ↦ booking_of_object p.object id p asked db
]

-- A handler that answers one note without a booking and another with one.
abbrev reports : Option Booking → (Booking → Note) → Note
reports none note = no_booking
reports (some b) note = note b

unfoldable pub handle_partially_funded : Payload → Action Note
handle_partially_funded p =
    query (λ db. ok (reports (booking_for_payload p db) λ b. partial_funding))

unfoldable pub handle_transaction_expired : Payload → Action Note
handle_transaction_expired p =
    query (λ db. ok (reports (booking_for_payload p db) λ b. escrow_expired))

unfoldable pub confirmation_handler : BookingState → Payload → Option (Option ℕ) → Action Note
unfolding booking_for_event
confirmation_handler expected p asked = do
  found ← query (booking_for_event p asked)
  done (
      reports found
        λ b. if state_eq b.state expected then confirmed expected else unconfirmed b.state)

abbrev pub payout_failed_data : Booking → Booking
payout_failed_data b = record b { paid_out_at = none; payout_failure_reason = some reported_failed }

-- A failed payout is taken off the row; its id is kept.
abbrev pub unpay : Env → FailedLeg → Option Booking → Action (Unit {0})
unpay env a_payout (some b) = transact env (amend b.id payout_failed_data) >>= λ row. done tt
unpay env what found = done tt

abbrev id_of : Option Booking → Option ℕ
id_of none = none
id_of (some b) = some b.id

unfoldable pub failure_handler : Env → FailedLeg → Payload → Option (Option ℕ) → Action Note
unfolding booking_for_event
failure_handler env what p asked = do
  found ← query (booking_for_event p asked)
  unpay env what found
  done (failed_leg what (id_of found))

unfoldable pub handle_payout_completed : Payload → Option (Option ℕ) → Action Note
unfolding booking_for_event
handle_payout_completed p asked = do
  found ← query (booking_for_event p asked)
  done (reports found λ b. payout_arrived)

unfoldable pub handle_reconciliation_issue : Action Note
handle_reconciliation_issue = done issue_reported
