-- ===== src/Booking.antt =====
-- apps/backend/src/services/bookingService.ts: the booking row, the map of allowed transitions and
-- the guard over it. `Booking.Race` has the compare-and-swap of `transition` under concurrent
-- writers; `Store` has it as a step of a transaction.
pub mod Lifecycle
pub mod Race
use o_artiste.Prelude.{ℕ, Bool, true, false, not, ◌||◌, Option, List, [], ◌∷◌, if◌then◌else◌}
use o_artiste.Schema.{
  BookingState, pending_payment, funded_held, checked_in, awaiting_confirmation, released, refunded,
  cancelled, disputed, resolved, state_eq,
}
use o_artiste.Errors.{Result, ok, err, booking_concluded, illegal_transition}
use o_artiste.Tiers.{Tier}

-- What `payoutFailureReason` says.
pub data PayoutFailure : Type 0 where
  no_account_on_file provider_error reported_failed : PayoutFailure

-- The row with the relations that the services include: the two parties' user ids and provider
-- parties, and whether a check-in exists. An instant is in milliseconds.
pub record Booking : Type 0 where
  pub id : ℕ
  pub client_user_id : ℕ
  pub artist_user_id : ℕ
  pub client_party_id : Option ℕ
  pub artist_party_id : Option ℕ
  pub amount_kobo : ℕ
  pub commission_rate_bps_snapshot : ℕ
  pub cancellation_tiers_snapshot : List Tier
  pub event_date : ℕ
  pub event_end_at : ℕ
  pub state : BookingState
  pub escrow_reference : ℕ
  pub escrow_id : Option ℕ
  pub check_in : Option ℕ
  pub check_in_code : Option (List ℕ)
  pub check_in_code_valid_from : Option ℕ
  pub check_in_code_valid_to : Option ℕ
  pub client_confirmed_at : Option ℕ
  pub artist_confirmed_at : Option ℕ
  pub client_no_show_claimed_at : Option ℕ
  pub auto_release_at : Option ℕ
  pub cancelled_at : Option ℕ
  pub refunded_at : Option ℕ
  pub released_at : Option ℕ
  -- the relation `termsAcknowledgement`
  pub acknowledged_at : Option ℕ
  pub payout_id : Option ℕ
  pub paid_out_at : Option ℕ
  pub payout_failure_reason : Option PayoutFailure

-- `ALLOWED_TRANSITIONS`
abbrev pub allowed_transitions : BookingState → List BookingState
allowed_transitions pending_payment = funded_held ∷ cancelled ∷ []
allowed_transitions funded_held =
    checked_in ∷ awaiting_confirmation ∷ cancelled ∷ refunded ∷ disputed ∷ []
allowed_transitions checked_in = awaiting_confirmation ∷ released ∷ disputed ∷ []
allowed_transitions awaiting_confirmation = released ∷ refunded ∷ disputed ∷ []
allowed_transitions disputed = resolved ∷ []
allowed_transitions released = []
allowed_transitions refunded = []
allowed_transitions cancelled = []
allowed_transitions resolved = []

abbrev pub includes : List BookingState → BookingState → Bool
includes [] s = false
includes (t ∷ ts) s = state_eq t s || includes ts s

abbrev is_empty : List BookingState → Bool
is_empty [] = true
is_empty (s ∷ ss) = false

-- Membership in `TERMINAL_STATES`.
abbrev pub is_terminal : BookingState → Bool
is_terminal s = is_empty (allowed_transitions s)

unfoldable pub can_transition : BookingState → BookingState → Bool
can_transition from to = includes (allowed_transitions from) to

unfoldable pub assert_transition : BookingState → BookingState → Result (Unit {0})
unfolding can_transition
assert_transition from to =
    if can_transition from to
    then ok tt
    else if is_terminal from
    then err (booking_concluded from to)
    else err (illegal_transition from to)
