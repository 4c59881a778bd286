-- ===== src/Disputes.antt =====
-- apps/backend/src/services/disputeService.ts: the states of a dispute, opening one, and evidence.
-- The view that a party reads, and the check on the scheme of a file's address, are left out.
pub mod Requests
use o_artiste.Prelude.{
  ℕ, ◌==◌, if◌then◌else◌, Bool, true, false, not, ◌&&◌, ◌||◌, Option, none, some, List, [], ◌∷◌,
  ◌++◌, length, map, find,
}
use o_artiste.Schema.{
  BookingState, pending_payment, released, refunded, cancelled, resolved, disputed, state_eq,
  DisputeState, open_state, under_review, resolved_release, resolved_refund, resolved_split,
}
use o_artiste.Errors.{
  Result, ok, err, ◌>>=◌, ◌>>◌, throw_if, illegal_dispute_step, dispute_reason_missing,
  booking_not_found, dispute_not_found, dispute_decided, dispute_closed, dispute_unpaid,
  evidence_missing,
}
use o_artiste.Booking.{Booking, can_transition}
use o_artiste.Store.{
  Db, Tx, Dispute, find_booking, transition, no_data, record_audit, dispute_opened,
}

-- `ALLOWED_DISPUTE_TRANSITIONS`
abbrev pub allowed_dispute_transitions : DisputeState → List DisputeState
allowed_dispute_transitions open_state =
    under_review ∷ resolved_release ∷ resolved_refund ∷ resolved_split ∷ []
allowed_dispute_transitions under_review = resolved_release ∷ resolved_refund ∷ resolved_split ∷ []
allowed_dispute_transitions resolved_release = []
allowed_dispute_transitions resolved_refund = []
allowed_dispute_transitions resolved_split = []

abbrev dispute_code : DisputeState → ℕ
dispute_code open_state = 0
dispute_code under_review = 1
dispute_code resolved_release = 2
dispute_code resolved_refund = 3
dispute_code resolved_split = 4

abbrev pub dispute_eq : DisputeState → DisputeState → Bool
dispute_eq a b = dispute_code a == dispute_code b

abbrev has_state : List DisputeState → DisputeState → Bool
has_state [] s = false
has_state (t ∷ ts) s = dispute_eq t s || has_state ts s

-- `isResolved`, by membership in `RESOLVED_STATES`
abbrev pub is_resolved : DisputeState → Bool
is_resolved s = has_state (resolved_release ∷ resolved_refund ∷ resolved_split ∷ []) s

unfoldable pub assert_dispute_transition : DisputeState → DisputeState → Result (Unit {0})
assert_dispute_transition from to =
    throw_if (not (has_state (allowed_dispute_transitions from) to)) (illegal_dispute_step from to)

-- The disputes of a booking that are not decided.
abbrev pub is_live : ℕ → Dispute → Bool
is_live booking_id d = d.booking_id == booking_id && not (is_resolved d.state)

-- `if (canTransition(…)) await transition(…)`
abbrev pub move_if : Bool → ℕ → Tx (Unit {0})
move_if true booking_id db = transition booking_id disputed no_data db >>= λ w. ok (tt, w.1)
move_if false booking_id db = ok (tt, db)

unfoldable pub create_dispute : Booking → ℕ → Tx Dispute
create_dispute b opened_by db = do
  let dispute : Dispute = record {
    id = length db.disputes;
    booking_id = b.id;
    opened_by_user_id = opened_by;
    state = open_state;
    check_in = b.check_in;
    resolved_by_user_id = none;
    split_client_kobo = none;
    split_artist_kobo = none;
  }
  let db1 = record db { disputes = db.disputes ++ dispute ∷ [] }
  moved ← move_if (can_transition b.state disputed) b.id db1
  ok (dispute, record_audit (some opened_by) dispute_opened dispute.id moved.1)

-- `openDispute`. The reason is read only for whether there is one.
unfoldable pub open_dispute : ℕ → ℕ → Bool → Tx Dispute
unfolding create_dispute
open_dispute booking_id opened_by has_reason db = do
  throw_if (not has_reason) dispute_reason_missing
  b ← find_booking booking_id db
  elim (find (is_live booking_id) db.disputes) [
    | some existing ↦ ok (existing, db)
    | none ↦ create_dispute b opened_by db
  ]

-- `partyOf`, as whether the user is a party at all
abbrev pub is_party : Booking → ℕ → Bool
is_party b user_id = b.client_user_id == user_id || b.artist_user_id == user_id

abbrev pub is_closed : BookingState → Bool
is_closed s =
    state_eq s released || (state_eq s refunded || (state_eq s cancelled || state_eq s resolved))
