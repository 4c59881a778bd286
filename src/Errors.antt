-- ===== src/Errors.antt =====
-- `AppError` of apps/backend/src/lib/errors.ts as a value. A constructor stands for one message of
-- the source; the status is the number that the source passes with that message.
use o_artiste.Prelude.{Bool, true, false, ◌≡◌, refl}
use o_artiste.Schema.{BookingState, DisputeState}

pub data AppError : Type 0 where
  -- ledgerService
  not_a_transaction zero_entry split_not_exact correction_without_reason entry_missing : AppError
  correction_of_correction already_corrected unbalanced : AppError
  -- bookingService
  booking_not_found changed_in_flight : AppError
  booking_concluded illegal_transition : BookingState → BookingState → AppError
  -- feeService
  bps_pair_not_whole : AppError
  -- cancellationTierService and cancellationService
  no_bands band_start_not_whole band_end_not_whole band_end_before_start bps_out_of_range
        split_not_whole no_open_band :
      AppError
  several_open_bands open_band_not_last day_zero_uncovered bands_overlap bands_gap : AppError
  no_terms event_passed no_band_covers : AppError
  -- escrowService
  never_funded artist_cannot_receive client_share_missing client_share_range : AppError
  reclassify_reason_missing cancellation_not_found not_a_client_cancellation : AppError
  already_reclassified negative_owed decision_reason_missing dispute_not_found : AppError
  dispute_decided dispute_unfunded write_off_reason_missing : AppError
  -- a call of the provider or a commit of the database that throws
  provider_failed commit_failed : AppError
  -- disputeService
  dispute_reason_missing dispute_closed dispute_unpaid evidence_missing : AppError
  illegal_dispute_step : DisputeState → DisputeState → AppError
  -- confirmationService
  event_not_over not_actionable no_show_claimed already_confirmed : AppError
  -- checkInService and webhookService
  no_code_yet code_used not_eligible wrong_code code_too_early code_expired underfunded : AppError
  -- strikeService and enforcementService
  no_rules trigger_twice weight_too_small band_reversed triggers_missing : AppError
  rung_without_party rung_to_good rung_without_lead lead_time_too_short column_refused : AppError
  override_reason_missing strike_not_found strike_overridden_before : AppError
  -- commissionService, cancellationTierService and reputationService
  commission_not_whole commission_range date_invalid effective_in_past no_tier_table : AppError
  window_too_short threshold_too_small : AppError
  -- createBooking and createEscrowForBooking
  amount_not_whole amount_range event_date_invalid event_in_past event_end_invalid : AppError
  event_ends_first not_a_client account_suspended artist_unavailable : AppError
  client_unverified artist_unverified artist_not_found artist_not_taking : AppError
  terms_not_valid id_taken already_paid payer_without_party terms_unacknowledged : AppError
  -- acknowledgementService
  terms_not_accepted booking_fixed terms_not_shown terms_changed : AppError
  -- payoutService
  no_artist_profile account_number_invalid bank_missing account_unverified : AppError
  no_payout_account_returned no_wallet : AppError
  -- webhookService
  no_such_event unresolved_object : AppError

-- What a service returns or throws. It is a `Promise` in the source; the order of the awaits is that
-- of the binds.
pub data Result {ℓ} (T : Type ℓ) : Type ℓ where
  err : AppError → Result T
  ok : T → Result T

-- `if (c) throw new AppError(…)`
abbrev pub throw_if : Bool → AppError → Result (Unit {0})
throw_if c e = elim c [ true ↦ err e | false ↦ ok tt ]

infixl 5 ◌>>=◌
abbrev pub ◌>>=◌ {κ ℓ} : {S : Type κ} {T : Type ℓ} → Result S → (S → Result T) → Result T
err e >>= next = err e
ok s >>= next = next s

infixl 5 ◌>>◌
abbrev pub ◌>>◌ {ℓ} : {T : Type ℓ} → Result (Unit {0}) → Result T → Result T
guard >> rest = guard >>= λ _. rest

-- A chain that returns has returned at each of its links.
pub >>=-eq-ok {κ ℓ} :
    {S : Type κ} {T : Type ℓ} (first : Result S) (next : S → Result T) {t : T}
    → (first >>= next) ≡ ok t
    → (s : S) × (first ≡ ok s) × (next s ≡ ok t)
>>=-eq-ok (err e) next h = cc
>>=-eq-ok (ok s) next h = (s, refl, h)

pub ok-injective {ℓ} : {T : Type ℓ} {s t : T} → Result.ok s ≡ ok t → s ≡ t
ok-injective h = cc
