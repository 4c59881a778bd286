-- ===== src/Escrow/Rulings.antt =====
-- `resolveDispute` of apps/backend/src/services/escrowService.ts with its plan and its legs, and
-- the two acts of an administrator on what is owed: reclassifying a cancellation, and a write-off.
use o_artiste.Prelude.{
  ℕ, ℤ, pos, negsuc, ltb, ltb_ℤ, ◌+◌, ◌*◌, ◌/◌, sub_ℕ, neg, ◌-ℤ◌, pos_part, ◌==◌, if◌then◌else◌,
  Bool, true, not, Option, none, some, is_some, List, [], ◌∷◌, length, map, keep,
}
use o_artiste.Schema.{DisputeState, written_off}
use o_artiste.Errors.{
  Result, ok, err, throw_if, client_share_missing, client_share_range, decision_reason_missing,
  dispute_decided, dispute_unfunded, write_off_reason_missing,
}
use o_artiste.Fees.{apply_bps, bps_denominator}
use o_artiste.Booking.{Booking}
use o_artiste.Ledger.{completion_for}
use o_artiste.Disputes.{is_resolved, assert_dispute_transition}
use o_artiste.Disputes.Requests.{find_dispute}
use o_artiste.Store.{Tx, Dispute, FeeLiability, find_booking, record_audit, liabilities_written_off}
use o_artiste.Request.{
  dispute_release, dispute_refund, dispute_split_artist, dispute_split_client, to_wallet, to_client,
  leg_of, cancel_auto_release, dispute_resolved_notice, Env, Action, ◌>>=◌, ◌>>◌, done, check,
  query, instruct, instruct_if, emit, transact,
}
use o_artiste.Escrow.Records.{
  artist_fault, DisputeOutcome, for_artist, for_client, split_funds, dispute_state_for, SplitPlan,
  resolve_tx,
}
use o_artiste.Escrow.Operations.{owes, pay_out_if}

-- `applyBpsShare`: the floor, also below zero.
abbrev pub apply_bps_share : ℤ → ℕ → ℤ
apply_bps_share (pos n) bps = pos (apply_bps n bps)
apply_bps_share (negsuc n) bps = neg (pos (((n + 1) * bps + 9_999) / bps_denominator))

abbrev pub split_of : Booking → ℕ → SplitPlan
split_of b client_kobo =
    let artist_kobo = sub_ℕ b.amount_kobo client_kobo in
    let commission_kobo = apply_bps_share artist_kobo b.commission_rate_bps_snapshot in
    record {
      client_kobo = client_kobo;
      artist_kobo = artist_kobo;
      commission_kobo = commission_kobo;
      artist_net = artist_kobo -ℤ commission_kobo;
    }

-- `planSplit`: the share is absent or a whole number of any sign.
unfoldable pub plan_split : Booking → Option ℤ → Result SplitPlan
plan_split b none = err client_share_missing
plan_split b (some (negsuc n)) = err client_share_range
plan_split b (some (pos client_kobo)) =
    if ltb b.amount_kobo client_kobo then err client_share_range else ok (split_of b client_kobo)

-- The plan of an outcome; without a split it is not read.
unfoldable pub plan_of : Booking → DisputeOutcome → Option ℤ → Result SplitPlan
unfolding plan_split
plan_of b split_funds share = plan_split b share
plan_of b outcome share = ok (split_of b 0)

-- `instructProvider`: the client's and the artist's amounts.
unfoldable pub instruct_provider : Env → Booking → DisputeOutcome → SplitPlan → Action (ℕ × ℤ)
instruct_provider env b for_artist plan = do
  instruct env (leg_of b to_wallet dispute_release b.amount_kobo)
  done (0, (completion_for b).artist_net)
instruct_provider env b for_client plan = do
  instruct env (leg_of b to_client dispute_refund (artist_fault b).client_refund)
  done ((artist_fault b).client_refund, pos 0)
instruct_provider env b split_funds plan = do
  instruct_if (ltb_ℤ (pos 0) plan.artist_kobo) env
      (leg_of b to_wallet dispute_split_artist (pos_part plan.artist_kobo))
  instruct_if (ltb 0 plan.client_kobo) env
      (leg_of b to_client dispute_split_client plan.client_kobo)
  done (plan.client_kobo, plan.artist_net)

-- The money-out leg, where the artist got anything.
unfoldable pub pay_ruling : Env → Booking → DisputeOutcome → SplitPlan → Action (Unit {0})
pay_ruling env b for_artist plan =
    let c = completion_for b in pay_out_if true env b.id c.artist_net (some c.commission_kobo)
pay_ruling env b for_client plan = done tt
pay_ruling env b split_funds plan =
    pay_out_if (ltb_ℤ (pos 0) plan.artist_net) env b.id plan.artist_net none

-- The steps of `resolveDispute` once the plan is made.
unfoldable pub rule :
    Env → Booking → Dispute → ℕ → DisputeOutcome → SplitPlan → Action (DisputeState × ℕ × ℤ)
unfolding instruct_provider pay_ruling
rule env b d actor outcome plan = do
  moved ← instruct_provider env b outcome plan
  next ← transact env (resolve_tx env.now b d actor outcome plan)
  pay_ruling env b outcome plan
  emit (cancel_auto_release b.id)
  emit (dispute_resolved_notice b.id moved.0 moved.1)
  done (dispute_state_for outcome, moved.0, moved.1)

unfoldable pub resolve_dispute :
    Env → ℕ → DisputeOutcome → Bool → ℕ → Option ℤ → Action (DisputeState × ℕ × ℤ)
unfolding rule plan_of
resolve_dispute env dispute_id outcome has_reason actor share = do
  check (throw_if (not has_reason) decision_reason_missing)
  d ← query (find_dispute dispute_id)
  check (throw_if (is_resolved d.state) dispute_decided)
  b ← query (find_booking d.booking_id)
  check (throw_if (not (is_some b.escrow_id)) dispute_unfunded)
  check (assert_dispute_transition d.state (dispute_state_for outcome))
  plan ← check (plan_of b outcome share)
  rule env b d actor outcome plan

-- `writeOffLiabilities`

abbrev pub write_off_rows : ℕ → List FeeLiability → List FeeLiability
write_off_rows artist_user_id =
    map (λ l. if owes artist_user_id l then record l { status = written_off } else l)

abbrev pub owed : List FeeLiability → ℕ
owed [] = 0
owed (l ∷ ls) = l.amount_kobo + owed ls

-- The number of the liabilities written off and their sum.
unfoldable pub write_off_tx : ℕ → ℕ → Tx (ℕ × ℕ)
write_off_tx artist_user_id actor db =
    let outstanding = keep (owes artist_user_id) db.liabilities in
    if length outstanding == 0
    then ok ((0, 0), db)
    else ok (
      (length outstanding, owed outstanding),
      record_audit (some actor) liabilities_written_off artist_user_id
          (record db { liabilities = write_off_rows artist_user_id db.liabilities }),
    )

unfoldable pub write_off_liabilities : Env → ℕ → Bool → ℕ → Action (ℕ × ℕ)
unfolding write_off_tx
write_off_liabilities env artist_user_id has_reason actor = do
  check (throw_if (not has_reason) write_off_reason_missing)
  transact env (write_off_tx artist_user_id actor)
