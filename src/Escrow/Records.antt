-- ===== src/Escrow/Records.antt =====
-- The transactions of escrowService.ts: what each operation writes, the state change included.
use o_artiste.Prelude.{
  pos_part, ℕ, ℤ, pos, ltb_ℤ, ◌+◌, ◌==◌, if◌then◌else◌, Bool, true, false, ◌&&◌, Option, none, some,
  is_some, List, [], ◌∷◌, ◌++◌, length, map, find,
}
use o_artiste.Schema.{
  released, refunded, cancelled, resolved, DisputeState, resolved_release, resolved_refund,
  resolved_split, settled, client_bears, artist_bears,
}
use o_artiste.Errors.{ok, ◌>>=◌}
use o_artiste.Fees.{
  ClientCancellation, ArtistCancellation, compute_artist_cancellation,
  refund_incurs_money_out_default,
}
use o_artiste.Tiers.{Tier}
use o_artiste.Booking.{Booking}
use o_artiste.Ledger.{
  LedgerEntry, transaction, record_release, record_fee_liability_settlement,
  record_client_cancellation, record_artist_cancellation, record_dispute_split,
}
use o_artiste.Store.{
  Db, Tx, FeeLiability, Cancellation, by_client, by_artist, Dispute, transition, no_data, on_ledger,
  create_liability, record_audit, dispute_resolved,
}
use o_artiste.Strikes.{accrue_for_cancellation, accrue_for_dispute}

abbrev has_liability : List FeeLiability → ℕ → Bool
has_liability ls k = is_some (find (λ l. l.id == k) ls)

-- `feeLiability.updateMany` on the chosen rows
abbrev pub settle_rows : List FeeLiability → ℕ → List FeeLiability → List FeeLiability
settle_rows chosen booking_id = map (λ l.
    if has_liability chosen l.id
    then record l { status = settled; settled_against = some booking_id }
    else l)

-- The second half of the transaction of `releaseBooking`, under its test.
unfoldable pub settle_tx : Booking → List FeeLiability → ℤ → Tx (Unit {0})
settle_tx b chosen settled_kobo db = elim (ltb_ℤ (pos 0) settled_kobo) [
  | true ↦ do
    w ← on_ledger (record_fee_liability_settlement transaction b.id settled_kobo) db
    ok (tt, record w.1 { liabilities = settle_rows chosen b.id w.1.liabilities })
  | false ↦ ok (tt, db)
]

unfoldable pub release_tx : Booking → List FeeLiability → ℤ → Tx Booking
unfolding settle_tx
release_tx b chosen settled_kobo db = do
  next ← transition b.id released no_data db
  entries ← on_ledger (record_release transaction b) next.1
  rest ← settle_tx b chosen settled_kobo entries.1
  ok (next.0, rest.1)

-- `recordCancellationRow`
abbrev pub client_row : Booking → Tier → ℤ → ℕ → ℤ → ℕ → Db → Db
client_row b tier days_before client_refund compensation fees db =
    let row : Cancellation = record {
      id = length db.cancellations;
      booking_id = b.id;
      initiated_by = by_client;
      initiated_by_user_id = b.client_user_id;
      days_before_event = days_before;
      applied_tier = some tier;
      client_refund_kobo = client_refund;
      artist_compensation_kobo = compensation;
      escrow_fees_kobo = fees;
      fee_bearer = client_bears;
      reclassified_as_artist_fault = false;
      reclassified_by_user_id = none;
    } in
    record db { cancellations = db.cancellations ++ row ∷ [] }

-- `recordArtistCancellationRow`
abbrev pub artist_row : Booking → ℤ → ℕ → ℕ → Db → Db
artist_row b days_before client_refund fees db =
    let row : Cancellation = record {
      id = length db.cancellations;
      booking_id = b.id;
      initiated_by = by_artist;
      initiated_by_user_id = b.artist_user_id;
      days_before_event = days_before;
      applied_tier = none;
      client_refund_kobo = client_refund;
      artist_compensation_kobo = pos 0;
      escrow_fees_kobo = fees;
      fee_bearer = artist_bears;
      reclassified_as_artist_fault = false;
      reclassified_by_user_id = none;
    } in
    record db { cancellations = db.cancellations ++ row ∷ [] }

abbrev pub cancelled_at_data : ℕ → Booking → Booking
cancelled_at_data now b = record b { cancelled_at = some now }

abbrev pub refunded_at_data : ℕ → Booking → Booking
refunded_at_data now b = record b { refunded_at = some now }

abbrev pub released_at_data : ℕ → Booking → Booking
released_at_data now b = record b { released_at = some now }

-- The transaction of `cancelByClient` for a booking that was never funded.
unfoldable pub withdraw_by_client_tx : ℕ → Booking → Tier → ℤ → Tx Booking
withdraw_by_client_tx now b tier days_before db = do
  next ← transition b.id cancelled (cancelled_at_data now) db
  ok (next.0, client_row b tier days_before 0 (pos 0) 0 next.1)

unfoldable pub cancel_by_client_tx : ℕ → Booking → Tier → ℤ → ClientCancellation → Tx Booking
cancel_by_client_tx now b tier days_before c db = do
  next ← transition b.id cancelled (cancelled_at_data now) db
  entries ← on_ledger (record_client_cancellation transaction b tier) next.1
  let fees = c.client_sunk_fee + c.money_out
  ok (next.0, client_row b tier days_before c.client_refund c.artist_compensation fees entries.1)

-- The transaction of `cancelByArtist` for a booking that was never funded.
unfoldable pub withdraw_by_artist_tx : ℕ → Booking → ℤ → Tx Booking
withdraw_by_artist_tx now b days_before db = do
  next ← transition b.id cancelled (cancelled_at_data now) db
  let db1 = artist_row b days_before 0 0 next.1
  ok (next.0, accrue_for_cancellation b.artist_user_id by_artist days_before b.id now db1)

-- The breakdown that a refund at the artist's cost uses.
abbrev pub artist_fault : Booking → ArtistCancellation
artist_fault b = compute_artist_cancellation b.amount_kobo refund_incurs_money_out_default

-- The transaction of `refundBooking`; `also_record` are the rows of the caller.
unfoldable pub refund_tx : ℕ → Booking → (Db → Db) → Tx Booking
refund_tx now b also_record db = do
  next ← transition b.id refunded (refunded_at_data now) db
  entries ← on_ledger (record_artist_cancellation transaction b) next.1
  let fee_liability = (artist_fault b).fee_liability
  ok (next.0, also_record (create_liability b.artist_user_id b.id fee_liability entries.1))

-- What `cancelByArtist` adds to the transaction of its refund.
unfoldable pub artist_cancellation_rows : ℕ → Booking → ℤ → Db → Db
artist_cancellation_rows now b days_before db =
    let c = artist_fault b in
    accrue_for_cancellation b.artist_user_id by_artist days_before b.id now
      (artist_row b days_before c.client_total_returned c.fee_liability db)

pub data DisputeOutcome : Type 0 where
  for_artist for_client split_funds : DisputeOutcome

-- `DISPUTE_STATE_FOR`
abbrev pub dispute_state_for : DisputeOutcome → DisputeState
dispute_state_for for_artist = resolved_release
dispute_state_for for_client = resolved_refund
dispute_state_for split_funds = resolved_split

-- `DisputeSplitPlan`
pub record SplitPlan : Type 0 where
  pub client_kobo : ℕ
  pub artist_kobo : ℤ
  pub commission_kobo : ℤ
  pub artist_net : ℤ

-- The ledger's part of a resolution. A plan that was accepted has no share below zero.
unfoldable pub resolution_entries : Booking → DisputeOutcome → SplitPlan → Tx (List LedgerEntry)
resolution_entries b for_artist plan = on_ledger (record_release transaction b)
resolution_entries b for_client plan = on_ledger (record_artist_cancellation transaction b)
resolution_entries b split_funds plan =
    on_ledger (record_dispute_split transaction b plan.client_kobo (pos_part plan.artist_kobo))

abbrev pub resolution_liability : Booking → DisputeOutcome → Db → Db
resolution_liability b for_client db =
    create_liability b.artist_user_id b.id (artist_fault b).fee_liability db
resolution_liability b outcome db = db

abbrev pub resolved_at_data : ℕ → DisputeOutcome → Booking → Booking
resolved_at_data now for_client = refunded_at_data now
resolved_at_data now outcome = released_at_data now

abbrev plan_for : DisputeOutcome → ℕ → Option ℕ
plan_for split_funds x = some x
plan_for outcome x = none

abbrev pub decide : Dispute → ℕ → DisputeOutcome → SplitPlan → List Dispute → List Dispute
decide d actor outcome plan = map (λ e.
    if e.id == d.id
    then record e {
      state = dispute_state_for outcome;
      resolved_by_user_id = some actor;
      split_client_kobo = plan_for outcome plan.client_kobo;
      split_artist_kobo = plan_for outcome (pos_part plan.artist_kobo);
    }
    else e)

-- The strike on the party that a ruling goes against.
abbrev pub ruling_strike : ℕ → Booking → DisputeOutcome → Db → Db
ruling_strike now b for_artist db =
    let false_claim = is_some b.check_in && is_some b.client_no_show_claimed_at in
    accrue_for_dispute b.client_user_id false_claim b.id now db
ruling_strike now b for_client db = accrue_for_dispute b.artist_user_id false b.id now db
ruling_strike now b split_funds db = db

unfoldable pub resolve_tx : ℕ → Booking → Dispute → ℕ → DisputeOutcome → SplitPlan → Tx Booking
unfolding resolution_entries
resolve_tx now b d actor outcome plan db = do
  next ← transition b.id resolved (resolved_at_data now outcome) db
  entries ← resolution_entries b outcome plan next.1
  let db1 = resolution_liability b outcome entries.1
  let db2 = record db1 { disputes = decide d actor outcome plan db1.disputes }
  ok (next.0, record_audit (some actor) dispute_resolved d.id (ruling_strike now b outcome db2))
