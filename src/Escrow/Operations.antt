-- ===== src/Escrow/Operations.antt =====
-- The operations of escrowService.ts as requests.
use o_artiste.Prelude.{
  ℕ, ℤ, pos, ltb, ltb_ℤ, ◌+◌, ◌==◌, if◌then◌else◌, Bool, true, false, not, ◌&&◌, ◌||◌, Option, none,
  some, is_some, List, [], ◌∷◌, keep,
}
use o_artiste.Schema.{
  BookingState, pending_payment, released, refunded, cancelled, state_eq, LiabilityStatus,
  outstanding, settled, written_off,
}
use o_artiste.Errors.{
  Result, ok, throw_if, never_funded, artist_cannot_receive, booking_not_found, event_passed,
}
use o_artiste.Fees.{ArtistCancellation, LiabilitySettlement, apply_fee_liabilities}
use o_artiste.Tiers.{Tier, days_before_event, resolve_tier}
use o_artiste.Booking.{Booking, assert_transition}
use o_artiste.Ledger.{completion_for, client_breakdown}
use o_artiste.Store.{Db, FeeLiability, find_booking}
use o_artiste.Request.{
  release_leg, cxl_artist, cxl_client, refund_leg, to_wallet, to_client, leg_of,
  cancel_auto_release, cancellation_settled, Env, Action, ◌>>=◌, ◌>>◌, done, check, query, instruct,
  instruct_if, emit, transact,
}
use o_artiste.Payouts.{pay_out, went_out}
use o_artiste.Escrow.Records.{
  release_tx, withdraw_by_client_tx, cancel_by_client_tx, withdraw_by_artist_tx, artist_fault,
  refund_tx, artist_cancellation_rows,
}

-- `selectSettleableLiabilities`

abbrev is_outstanding : LiabilityStatus → Bool
is_outstanding outstanding = true
is_outstanding settled = false
is_outstanding written_off = false

abbrev pub owes : ℕ → FeeLiability → Bool
owes artist_user_id l = l.artist_user_id == artist_user_id && is_outstanding l.status

-- The loop, with what it has settled so far.
unfoldable pub select_from : ℤ → ℕ → List FeeLiability → List FeeLiability × ℕ
select_from ceiling so_far [] = ([], so_far)
select_from ceiling so_far (l ∷ ls) = elim (ltb_ℤ ceiling (pos (so_far + l.amount_kobo))) [
  | true ↦ select_from ceiling so_far ls
  | false ↦ let rest = select_from ceiling (so_far + l.amount_kobo) ls in (l ∷ rest.0, rest.1)
]

unfoldable pub select_settleable : ℕ → ℤ → Db → List FeeLiability × ℕ
unfolding select_from
select_settleable artist_user_id ceiling db =
    select_from ceiling 0 (keep (owes artist_user_id) db.liabilities)

-- `releaseBooking`

pub record ReleaseSummary : Type 0 where
  pub state : BookingState
  pub already_released : Bool
  pub artist_net_kobo : ℤ
  pub liability_settled_kobo : ℤ
  pub payout_kobo : ℤ
  pub paid_out : Bool

-- `if (!booking.escrowId) throw …`
abbrev pub funded_check : Booking → Result (Unit {0})
funded_check b = throw_if (not (is_some b.escrow_id)) never_funded

abbrev pub party_check : Booking → Result (Unit {0})
party_check b = throw_if (not (is_some b.artist_party_id)) artist_cannot_receive

-- What a release settles and pays, from the liabilities of the moment.
unfoldable pub settlement_of : Booking → Db → LiabilitySettlement
unfolding select_settleable
settlement_of b db =
    let net = (completion_for b).artist_net in
    apply_fee_liabilities net (pos (select_settleable b.artist_user_id net db).1)

-- The steps after the guard that the booking is not yet released.
unfoldable pub release_now : Env → Booking → Action ReleaseSummary
unfolding settlement_of
release_now env b = do
  check (assert_transition b.state released)
  check (funded_check b)
  check (party_check b)
  let net = (completion_for b).artist_net
  chosen ← query (λ db. ok (select_settleable b.artist_user_id net db).0)
  settlement ← query (λ db. ok (settlement_of b db))
  instruct env (leg_of b to_wallet release_leg b.amount_kobo)
  next ← transact env (release_tx b chosen settlement.settled_kobo)
  emit (cancel_auto_release b.id)
  payout ← pay_out env b.id settlement.payout (some (completion_for b).commission_kobo)
  done (record {
    state = next.state;
    already_released = false;
    artist_net_kobo = net;
    liability_settled_kobo = settlement.settled_kobo;
    payout_kobo = settlement.payout;
    paid_out = went_out payout;
  })

abbrev pub released_before : Booking → ReleaseSummary
released_before b =
    let net = (completion_for b).artist_net in
    record {
      state = b.state;
      already_released = true;
      artist_net_kobo = net;
      liability_settled_kobo = pos 0;
      payout_kobo = net;
      paid_out = is_some b.paid_out_at;
    }

unfoldable pub release_booking : Env → ℕ → Action ReleaseSummary
release_booking env booking_id = do
  b ← query (find_booking booking_id)
  elim (state_eq b.state released) [ true ↦ done (released_before b) | false ↦ release_now env b ]

-- `refundBooking`

pub record RefundSummary : Type 0 where
  pub state : BookingState
  pub already_refunded : Bool
  pub breakdown : Option ArtistCancellation

unfoldable pub refund_now : Env → Booking → (Booking → Db → Db) → Action RefundSummary
refund_now env b also_record = do
  check (assert_transition b.state refunded)
  check (funded_check b)
  let breakdown = artist_fault b
  instruct env (leg_of b to_client refund_leg breakdown.client_refund)
  next ← transact env (refund_tx env.now b (also_record b))
  emit (cancel_auto_release b.id)
  done (record { state = next.state; already_refunded = false; breakdown = some breakdown })

unfoldable pub refund_booking : Env → ℕ → (Booking → Db → Db) → Action RefundSummary
refund_booking env booking_id also_record = do
  b ← query (find_booking booking_id)
  elim (state_eq b.state refunded) [
    | true ↦ done (record { state = b.state; already_refunded = true; breakdown = none })
    | false ↦ refund_now env b also_record
  ]

-- `cancelByClient`

pub record CancellationSummary : Type 0 where
  pub state : BookingState
  pub already_cancelled : Bool
  pub unfunded : Bool
  pub client_refund_kobo : Option ℕ
  pub artist_compensation_kobo : Option ℤ

abbrev pub cancelled_before : Booking → CancellationSummary
cancelled_before b = record {
  state = b.state;
  already_cancelled = true;
  unfunded = false;
  client_refund_kobo = none;
  artist_compensation_kobo = none;
}

abbrev pub withdrawn : Booking → CancellationSummary
withdrawn b = record {
  state = b.state;
  already_cancelled = false;
  unfunded = true;
  client_refund_kobo = some 0;
  artist_compensation_kobo = some (pos 0);
}

abbrev pub is_unfunded : Booking → Bool
is_unfunded b = state_eq b.state pending_payment || not (is_some b.escrow_id)

unfoldable pub withdraw_by_client : Env → Booking → Tier → ℤ → Action CancellationSummary
withdraw_by_client env b tier days_before = do
  next ← transact env (withdraw_by_client_tx env.now b tier days_before)
  done (withdrawn next)

abbrev pub pay_out_if : Bool → Env → ℕ → ℤ → Option ℕ → Action (Unit {0})
pay_out_if true env booking_id amount_kobo commission_kobo =
    pay_out env booking_id amount_kobo commission_kobo >>= λ payout. done tt
pay_out_if false env booking_id amount_kobo commission_kobo = done tt

-- The two legs, the transaction and what follows it, for a booking that was funded.
unfoldable pub split_by_client : Env → Booking → Tier → ℤ → Action CancellationSummary
split_by_client env b tier days_before = do
  c ← check (client_breakdown b tier)
  check (throw_if (ltb 0 c.artist_share && not (is_some b.artist_party_id)) artist_cannot_receive)
  instruct_if (ltb 0 c.artist_share) env (leg_of b to_wallet cxl_artist c.artist_share)
  instruct_if (ltb 0 c.client_refund) env (leg_of b to_client cxl_client c.client_refund)
  next ← transact env (cancel_by_client_tx env.now b tier days_before c)
  pay_out_if (ltb_ℤ (pos 0) c.artist_compensation) env b.id c.artist_compensation
      (some c.commission_kobo)
  emit (cancellation_settled b.id c.client_refund c.artist_compensation)
  done (record {
    state = next.state;
    already_cancelled = false;
    unfunded = false;
    client_refund_kobo = some c.client_refund;
    artist_compensation_kobo = some c.artist_compensation;
  })

unfoldable pub cancel_uncancelled_by_client : Env → Booking → Action CancellationSummary
unfolding withdraw_by_client split_by_client
cancel_uncancelled_by_client env b = do
  check (assert_transition b.state cancelled)
  let days_before = days_before_event b.event_date env.now
  tier ← check (resolve_tier b.cancellation_tiers_snapshot days_before)
  elim (is_unfunded b) [
    | true ↦ withdraw_by_client env b tier days_before
    | false ↦ split_by_client env b tier days_before
  ]

unfoldable pub cancel_by_client : Env → ℕ → ℕ → Action CancellationSummary
unfolding cancel_uncancelled_by_client
cancel_by_client env booking_id client_user_id = do
  b ← query (find_booking booking_id)
  check (throw_if (not (b.client_user_id == client_user_id)) booking_not_found)
  elim (state_eq b.state cancelled) [
    | true ↦ done (cancelled_before b)
    | false ↦ cancel_uncancelled_by_client env b
  ]

-- `cancelByArtist`

abbrev pub artist_target : Booking → BookingState
artist_target b = if is_some b.escrow_id then refunded else cancelled

abbrev pub refund_figures : RefundSummary → Option ℕ
refund_figures r = elim r.breakdown [ none ↦ none | some c ↦ some c.client_refund ]

abbrev pub returned : RefundSummary → ℕ
returned r = elim r.breakdown [ none ↦ 0 | some c ↦ c.client_total_returned ]

unfoldable pub withdraw_by_artist : Env → Booking → ℤ → Action CancellationSummary
withdraw_by_artist env b days_before = do
  next ← transact env (withdraw_by_artist_tx env.now b days_before)
  done (withdrawn next)

unfoldable pub refund_by_artist : Env → Booking → ℤ → Action CancellationSummary
unfolding refund_booking
refund_by_artist env b days_before = do
  summary ← refund_booking env b.id (λ refunded_row. artist_cancellation_rows env.now b days_before)
  row ← query (find_booking b.id)
  emit (cancellation_settled b.id (returned summary) (pos 0))
  done (record {
    state = row.state;
    already_cancelled = false;
    unfunded = false;
    client_refund_kobo = refund_figures summary;
    artist_compensation_kobo = some (pos 0);
  })

unfoldable pub cancel_uncancelled_by_artist : Env → Booking → Action CancellationSummary
unfolding withdraw_by_artist refund_by_artist
cancel_uncancelled_by_artist env b = do
  check (assert_transition b.state (artist_target b))
  let days_before = days_before_event b.event_date env.now
  check (throw_if (ltb_ℤ days_before (pos 0)) event_passed)
  elim (is_unfunded b) [
    | true ↦ withdraw_by_artist env b days_before
    | false ↦ refund_by_artist env b days_before
  ]

unfoldable pub cancel_by_artist : Env → ℕ → ℕ → Action CancellationSummary
unfolding cancel_uncancelled_by_artist
cancel_by_artist env booking_id artist_user_id = do
  b ← query (find_booking booking_id)
  check (throw_if (not (b.artist_user_id == artist_user_id)) booking_not_found)
  elim (state_eq b.state cancelled || state_eq b.state refunded) [
    | true ↦ done (cancelled_before b)
    | false ↦ cancel_uncancelled_by_artist env b
  ]
