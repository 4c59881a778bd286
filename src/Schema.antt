-- ===== src/Schema.antt =====
-- The enums of apps/backend/prisma/schema.prisma, and `===` on them.
use o_artiste.Prelude.{ℕ, Bool, ◌==◌}

pub data BookingState : Type 0 where
  pending_payment funded_held checked_in awaiting_confirmation : BookingState
  released refunded cancelled disputed resolved : BookingState

pub data DisputeState : Type 0 where
  open_state under_review resolved_release resolved_refund resolved_split : DisputeState

pub data Party : Type 0 where
  client artist platform provider : Party

pub data EntryType : Type 0 where
  funded released_entry refunded_entry commission escrow_fee_in escrow_fee_out : EntryType
  artist_compensation fee_liability_accrued fee_liability_settled correction : EntryType

pub data LiabilityStatus : Type 0 where
  outstanding settled written_off : LiabilityStatus

pub data FeeBearer : Type 0 where
  client_bears artist_bears platform_bears : FeeBearer

pub data Standing : Type 0 where
  good warned restricted suspended removed : Standing

pub data StrikeTrigger : Type 0 where
  artist_cancel_3_6_days artist_cancel_1_2_days artist_cancel_day_of : StrikeTrigger
  client_cancel_1_2_days client_cancel_day_of : StrikeTrigger
  dispute_ruled_against dispute_false_no_show_claim : StrikeTrigger

pub data VerificationStatus : Type 0 where
  unverified pending verified retryable_failure rejected : VerificationStatus

-- The provider's closed set of event types, `KNOWN_EVENT_TYPES` of webhookService.ts, and any other.
pub data EventType : Type 0 where
  transaction_created transaction_funding_started transaction_partially_funded : EventType
  transaction_funded transaction_expired transaction_cancelled : EventType
  charge_pending charge_succeeded charge_failed charge_reversed : EventType
  payment_account_active payment_account_funded payment_account_expired : EventType
  milestone_funded milestone_release_scheduled milestone_released milestone_refunded : EventType
  release_created release_scheduled release_completed release_failed : EventType
  refund_created refund_processing refund_completed refund_failed : EventType
  refund_requires_action wallet_credited wallet_debited : EventType
  payout_created payout_processing payout_completed payout_failed payout_reversed : EventType
  business_verification_updated administrative_hold_applied administrative_hold_released : EventType
  reconciliation_issue_detected unknown_event : EventType

-- The position of a state in its enum, by which two states are compared.
abbrev pub state_code : BookingState → ℕ
state_code pending_payment = 0
state_code funded_held = 1
state_code checked_in = 2
state_code awaiting_confirmation = 3
state_code released = 4
state_code refunded = 5
state_code cancelled = 6
state_code disputed = 7
state_code resolved = 8

abbrev pub state_eq : BookingState → BookingState → Bool
state_eq a b = state_code a == state_code b

abbrev pub entry_code : EntryType → ℕ
entry_code funded = 0
entry_code released_entry = 1
entry_code refunded_entry = 2
entry_code commission = 3
entry_code escrow_fee_in = 4
entry_code escrow_fee_out = 5
entry_code artist_compensation = 6
entry_code fee_liability_accrued = 7
entry_code fee_liability_settled = 8
entry_code correction = 9

abbrev pub entry_eq : EntryType → EntryType → Bool
entry_eq a b = entry_code a == entry_code b

abbrev pub trigger_code : StrikeTrigger → ℕ
trigger_code artist_cancel_3_6_days = 0
trigger_code artist_cancel_1_2_days = 1
trigger_code artist_cancel_day_of = 2
trigger_code client_cancel_1_2_days = 3
trigger_code client_cancel_day_of = 4
trigger_code dispute_ruled_against = 5
trigger_code dispute_false_no_show_claim = 6

abbrev pub trigger_eq : StrikeTrigger → StrikeTrigger → Bool
trigger_eq a b = trigger_code a == trigger_code b
