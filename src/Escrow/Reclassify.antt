-- ===== src/Escrow/Reclassify.antt =====
-- `reclassifyAsArtistFault` of apps/backend/src/services/escrowService.ts as a request.
use o_artiste.Prelude.{ℕ, ℤ, pos, ltb_ℤ, pos_part, Bool, not}
use o_artiste.Errors.{
  throw_if, reclassify_reason_missing, not_a_client_cancellation, already_reclassified,
  negative_owed,
}
use o_artiste.Booking.{Booking}
use o_artiste.Store.{Cancellation, find_booking}
use o_artiste.Request.{
  leg_of, reclass, wallet_to_client, cancellation_settled, Env, Action, ◌>>=◌, ◌>>◌, done, check,
  query, instruct_if, emit, transact,
}
use o_artiste.Escrow.Records.{artist_fault}
use o_artiste.Escrow.Reclassification.{
  find_cancellation, is_by_client, original_of, additional_to_client, liability_of, reclassify_tx,
}

pub record ReclassificationSummary : Type 0 where
  pub cancellation_id : ℕ
  pub booking_id : ℕ
  pub reclassified_by_user_id : ℕ
  pub entries_reversed : ℕ
  pub additional_to_client_kobo : ℤ
  pub client_total_returned_kobo : ℕ
  pub artist_clawback_kobo : ℤ
  pub liability_kobo : ℤ

-- The refund out of the platform's wallet, the transaction and the notice.
unfoldable pub reclassify_now : Env → Booking → Cancellation → ℕ → Action ReclassificationSummary
unfolding reclassify_tx original_of
reclassify_now env b c actor = do
  original ← check (original_of b c)
  let additional = additional_to_client b original
  check (throw_if (ltb_ℤ additional (pos 0)) negative_owed)
  instruct_if (ltb_ℤ (pos 0) additional) env
      (leg_of b wallet_to_client reclass (pos_part additional))
  reversed ← transact env (reclassify_tx env.now b c original actor)
  emit (cancellation_settled b.id (artist_fault b).client_total_returned (pos 0))
  done (record {
    cancellation_id = c.id;
    booking_id = b.id;
    reclassified_by_user_id = actor;
    entries_reversed = reversed;
    additional_to_client_kobo = additional;
    client_total_returned_kobo = (artist_fault b).client_total_returned;
    artist_clawback_kobo = original.artist_compensation;
    liability_kobo = liability_of b original;
  })

unfoldable pub reclassify_as_artist_fault : Env → ℕ → ℕ → Bool → Action ReclassificationSummary
unfolding reclassify_now
reclassify_as_artist_fault env cancellation_id actor has_reason = do
  check (throw_if (not has_reason) reclassify_reason_missing)
  c ← query (find_cancellation cancellation_id)
  b ← query (find_booking c.booking_id)
  check (throw_if (not (is_by_client c.initiated_by)) not_a_client_cancellation)
  check (throw_if c.reclassified_as_artist_fault already_reclassified)
  reclassify_now env b c actor
