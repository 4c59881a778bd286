-- ===== src/Store/Rows.antt =====
-- The tables of apps/backend/prisma/schema.prisma that the money operations read and write.
use o_artiste.Prelude.{ℕ, ℤ, Bool, Option, List}
use o_artiste.Schema.{
  BookingState, DisputeState, LiabilityStatus, FeeBearer, Standing, StrikeTrigger,
  VerificationStatus, EventType,
}
use o_artiste.Tiers.{Tier}
use o_artiste.Booking.{Booking}
use o_artiste.Ledger.{Ledger}

pub record FeeLiability : Type 0 where
  pub id : ℕ
  pub artist_user_id : ℕ
  pub origin_booking_id : ℕ
  pub amount_kobo : ℕ
  pub status : LiabilityStatus
  pub settled_against : Option ℕ

pub data CancellationInitiator : Type 0 where
  by_client by_artist : CancellationInitiator

-- `applied_tier` is `{}` in the source where no tier applies, and none here.
pub record Cancellation : Type 0 where
  pub id : ℕ
  pub booking_id : ℕ
  pub initiated_by : CancellationInitiator
  pub initiated_by_user_id : ℕ
  pub days_before_event : ℤ
  pub applied_tier : Option Tier
  pub client_refund_kobo : ℕ
  pub artist_compensation_kobo : ℤ
  pub escrow_fees_kobo : ℕ
  pub fee_bearer : FeeBearer
  pub reclassified_as_artist_fault : Bool
  pub reclassified_by_user_id : Option ℕ

pub record Dispute : Type 0 where
  pub id : ℕ
  pub booking_id : ℕ
  pub opened_by_user_id : ℕ
  pub state : DisputeState
  pub check_in : Option ℕ
  pub resolved_by_user_id : Option ℕ
  pub split_client_kobo : Option ℕ
  pub split_artist_kobo : Option ℕ

pub record DisputeEvidence : Type 0 where
  pub dispute_id : ℕ
  pub submitted_by_user_id : ℕ

pub record Strike : Type 0 where
  pub id : ℕ
  pub user_id : ℕ
  pub trigger : StrikeTrigger
  pub weight : ℕ
  pub booking_id : Option ℕ
  pub active : Bool

pub record User : Type 0 where
  pub id : ℕ
  pub is_artist : Bool
  pub account_standing : Standing
  pub restricted_min_lead_days : Option ℤ
  -- whether the `Client` row of the user exists
  pub has_client : Bool
  pub verification_status : VerificationStatus
  pub escrow_party_id : Option ℕ

-- An artist is named by its user here: `userId` is unique.
pub record Artist : Type 0 where
  pub user_id : ℕ
  pub profile_complete : Bool
  pub payout_account_id : Option ℕ
  pub payout_account_last4 : Option (List ℕ)

pub record CommissionRate : Type 0 where
  pub id : ℕ
  pub effective_from : ℕ
  pub rate_basis_points : ℕ

-- A row of `CancellationTier`: the version it belongs to, and the band.
pub record TierRow : Type 0 where
  pub version_id : ℕ
  pub effective_from : ℕ
  pub band : Tier

pub record ReputationConfig : Type 0 where
  pub effective_from : ℕ
  pub window_months : ℕ
  pub min_bookings : ℕ

-- What an event is about: the kind of its own object.
pub data EventObject : Type 0 where
  transaction_object release_object refund_object payout_object other_object : EventObject

-- `WebhookPayload`: the object, its id, and the transaction where the data carry it.
pub record Payload : Type 0 where
  pub id : Option ℕ
  pub event_type : EventType
  pub object : EventObject
  pub object_id : Option ℕ
  pub transaction_id : Option ℕ

pub data ProcessingStatus : Type 0 where
  received processed failed : ProcessingStatus

-- The stored bytes of an event are those of its payload.
pub record WebhookEvent : Type 0 where
  pub provider_event_id : ℕ
  pub event_type : EventType
  pub payload : Payload
  pub processing_status : ProcessingStatus
  pub attempts : ℕ

pub record StrikeRule : Type 0 where
  pub version_id : ℕ
  pub effective_from : ℕ
  pub trigger : StrikeTrigger
  pub weight : ℕ
  pub min_days_before : Option ℕ
  pub max_days_before : Option ℕ

pub data EnforcementParty : Type 0 where
  artist_ladder client_ladder : EnforcementParty

pub record EnforcementRule : Type 0 where
  pub version_id : ℕ
  pub effective_from : ℕ
  pub party : EnforcementParty
  pub min_weight : ℕ
  pub standing : Standing
  pub min_lead_days : Option ℤ

-- `BookingStateTransition`
pub record Passage : Type 0 where
  pub booking_id : ℕ
  -- none for the row that a creation writes
  pub from_state : Option BookingState
  pub to_state : BookingState

pub data AuditAction : Type 0 where
  strike_accrued account_standing_changed strike_overridden : AuditAction
  cancellation_reclassified dispute_resolved dispute_opened liabilities_written_off : AuditAction
  commission_rate_changed cancellation_tiers_changed strike_rules_updated : AuditAction
  enforcement_ladders_updated reputation_config_updated : AuditAction

-- An audit row: who acted (none for the system), the action, and the row it is about.
pub record Audit : Type 0 where
  pub actor_user_id : Option ℕ
  pub action : AuditAction
  pub entity_id : ℕ

pub record Db : Type 0 where
  pub bookings : ℕ → Option Booking
  -- the ids of the table's rows, in the order in which a query meets them
  pub booking_ids : List ℕ
  pub ledger : Ledger
  pub liabilities : List FeeLiability
  pub cancellations : List Cancellation
  pub disputes : List Dispute
  pub evidence : List DisputeEvidence
  pub strikes : List Strike
  pub users : ℕ → Option User
  pub strike_rules : List StrikeRule
  pub enforcement_rules : List EnforcementRule
  pub artists : ℕ → Option Artist
  pub commission_rates : List CommissionRate
  pub tier_rows : List TierRow
  pub reputation_configs : List ReputationConfig
  pub webhook_events : List WebhookEvent
  pub passages : List Passage
  pub audits : List Audit
