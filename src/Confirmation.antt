-- ===== src/Confirmation.antt =====
-- apps/backend/src/services/confirmationService.ts: who has said what about the event, what follows
-- from it, and the requests that record a statement and act on the verdict. Reasons and the
-- client's account are texts and are left out.
pub mod Matrix
use o_artiste.Prelude.{
  ℕ, ltb, ◌==◌, if◌then◌else◌, Bool, true, false, not, ◌&&◌, ◌||◌, Option, none, some, is_some,
}
use o_artiste.Schema.{
  BookingState, pending_payment, funded_held, checked_in, awaiting_confirmation, released, refunded,
  cancelled, resolved, disputed, state_eq,
}
use o_artiste.Errors.{
  Result, ok, err, throw_if, booking_not_found, event_not_over, not_actionable, no_show_claimed,
  already_confirmed,
}
use o_artiste.Booking.{Booking}
use o_artiste.Store.{Db, Tx, find_booking, amend, transition, no_data}
use o_artiste.Request.{World, Env, Action, ◌>>=◌, ◌>>◌, done, check, query, transact}
use o_artiste.Disputes.{open_dispute}
use o_artiste.Escrow.Operations.{release_booking, refund_booking}

-- `ConfirmationFacts`
pub record Facts : Type 0 where
  pub client_confirmed : Bool
  pub client_claimed_no_show : Bool
  pub artist_confirmed : Bool
  pub has_check_in : Bool

pub data Verdict : Type 0 where
  release_funds refund_funds open_a_dispute awaiting_auto_release awaiting_response : Verdict

unfoldable pub evaluate : Facts → Verdict
evaluate f =
    if f.client_confirmed && f.client_claimed_no_show
    then open_a_dispute
    else if f.client_claimed_no_show
    then (if f.has_check_in then open_a_dispute else refund_funds)
    else if f.client_confirmed
    then release_funds
    else if f.has_check_in
    then awaiting_auto_release
    else awaiting_response

unfoldable pub facts_for : Booking → Facts
facts_for b = record {
  client_confirmed = is_some b.client_confirmed_at;
  client_claimed_no_show = is_some b.client_no_show_claimed_at;
  artist_confirmed = is_some b.artist_confirmed_at;
  has_check_in = is_some b.check_in;
}

-- The booking of `participantBooking`, and whether the caller is its client.
unfoldable pub participant_booking : ℕ → ℕ → Db → Result (Booking × Bool)
participant_booking booking_id user_id db = elim (find_booking booking_id db) [
  | err e ↦ err e
  | ok b ↦
      if b.client_user_id == user_id
      then ok (b, true)
      else if b.artist_user_id == user_id
      then ok (b, false)
      else err booking_not_found
]

abbrev pub assert_event_is_over : ℕ → Booking → Result (Unit {0})
assert_event_is_over now b = throw_if (ltb now b.event_end_at) event_not_over

-- The states that `assertActionable` has no message for.
abbrev pub is_actionable : BookingState → Bool
is_actionable funded_held = true
is_actionable checked_in = true
is_actionable awaiting_confirmation = true
is_actionable s = false

abbrev pub assert_actionable : Booking → Result (Unit {0})
assert_actionable b = throw_if (not (is_actionable b.state)) not_actionable

-- Keeps a statement that is there, and records one that is not.
abbrev pub state_once : Bool → Env → Booking → (Booking → Booking) → Action Booking
state_once true env b data_of = done b
state_once false env b data_of = transact env (amend b.id data_of)

-- `transition` to the window in which the parties respond, from the two states before it.
abbrev pub is_before_window : BookingState → Bool
is_before_window s = state_eq s funded_held || state_eq s checked_in

abbrev pub open_window : Env → Booking → Action (Unit {0})
open_window env b = elim (is_before_window b.state) [
  | true ↦ transact env (transition b.id awaiting_confirmation no_data) >>= λ next. done tt
  | false ↦ done tt
]

abbrev pub nothing_more : Booking → (Db → Db)
nothing_more b db = db

-- The switch of `act`: the state of the booking afterwards.
unfoldable pub execute : Env → Booking → Verdict → Action BookingState
execute env b release_funds = do summary ← release_booking env b.id; done summary.state
execute env b refund_funds = do summary ← refund_booking env b.id nothing_more; done summary.state
execute env b open_a_dispute = do
  dispute ← transact env (open_dispute b.id b.client_user_id true)
  done disputed
execute env b verdict = do current ← query (find_booking b.id); done current.state

unfoldable pub act : Env → Booking → Action (Verdict × BookingState)
unfolding execute evaluate facts_for
act env b = do
  let verdict = evaluate (facts_for b)
  open_window env b
  state ← execute env b verdict
  done (verdict, state)

abbrev pub client_confirms : ℕ → Booking → Booking
client_confirms now b = record b { client_confirmed_at = some now }

abbrev pub artist_confirms : ℕ → Booking → Booking
artist_confirms now b = record b { artist_confirmed_at = some now }

abbrev pub client_claims : ℕ → Booking → Booking
client_claims now b = record b { client_no_show_claimed_at = some now }

unfoldable pub confirm : Env → ℕ → ℕ → Action (Verdict × BookingState)
unfolding participant_booking act
confirm env booking_id user_id = do
  found ← query (participant_booking booking_id user_id)
  let b = found.0
  check (assert_event_is_over env.now b)
  check (assert_actionable b)
  check (throw_if (found.1 && is_some b.client_no_show_claimed_at) no_show_claimed)
  updated ← elim found.1 [
    | true ↦ state_once (is_some b.client_confirmed_at) env b (client_confirms env.now)
    | false ↦ state_once (is_some b.artist_confirmed_at) env b (artist_confirms env.now)
  ]
  act env updated

unfoldable pub claim_no_show : Env → ℕ → ℕ → Action (Verdict × BookingState)
unfolding participant_booking act
claim_no_show env booking_id client_user_id = do
  found ← query (participant_booking booking_id client_user_id)
  let b = found.0
  check (throw_if (not found.1) booking_not_found)
  check (assert_event_is_over env.now b)
  check (assert_actionable b)
  check (throw_if (is_some b.client_confirmed_at) already_confirmed)
  updated ← state_once (is_some b.client_no_show_claimed_at) env b (client_claims env.now)
  act env updated
