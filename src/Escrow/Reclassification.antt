-- ===== src/Escrow/Reclassification.antt =====
-- `reclassifyAsArtistFault` of apps/backend/src/services/escrowService.ts.
use o_artiste.Prelude.{
  ℕ, ℤ, pos, neg, ltb_ℤ, sub_ℕ, pos_part, ◌+ℤ◌, ◌==◌, if◌then◌else◌, Bool, true, false, none, some,
  List, [], ◌∷◌, map, find, length,
}
use o_artiste.Schema.{
  EntryType, refunded_entry, artist_compensation, commission, escrow_fee_out, fee_liability_accrued,
  artist, platform, artist_bears,
}
use o_artiste.Errors.{Result, ok, err, ◌>>=◌, cancellation_not_found, bps_pair_not_whole}
use o_artiste.Fees.{ClientCancellation, ArtistCancellation}
use o_artiste.Booking.{Booking}
use o_artiste.Ledger.{
  LedgerEntry, transaction, record_entry, reverse_entries, record_artist_cancellation,
  client_breakdown,
}
use o_artiste.Store.{
  Db, Tx, Cancellation, CancellationInitiator, by_client, by_artist, on_ledger, create_liability,
  record_audit, cancellation_reclassified,
}
use o_artiste.Strikes.{accrue_for_cancellation}
use o_artiste.Escrow.Records.{artist_fault}

-- The entries of a client's cancellation.
abbrev pub reversed_types : List EntryType
reversed_types = refunded_entry ∷ artist_compensation ∷ commission ∷ escrow_fee_out ∷ []

abbrev pub is_by_client : CancellationInitiator → Bool
is_by_client by_client = true
is_by_client by_artist = false

abbrev pub find_cancellation : ℕ → Db → Result Cancellation
find_cancellation cancellation_id db = elim (find (λ c. c.id == cancellation_id) db.cancellations) [
  | none ↦ err cancellation_not_found
  | some c ↦ ok c
]

-- The figures that the cancellation had; without a tier the rates are undefined and their sum is no
-- whole.
unfoldable pub original_of : Booking → Cancellation → Result ClientCancellation
original_of b c = elim c.applied_tier [
  | none ↦ err bps_pair_not_whole
  | some tier ↦ client_breakdown b tier
]

-- The client's total, less what was returned.
abbrev pub additional_to_client : Booking → ClientCancellation → ℤ
additional_to_client b original =
    sub_ℕ (artist_fault b).client_total_returned original.client_refund

-- The artist keeps neither the compensation nor the cost of the fees.
abbrev pub liability_of : Booking → ClientCancellation → ℤ
liability_of b original = pos (artist_fault b).fee_liability +ℤ original.artist_compensation

-- The pair of entries for the compensation that is recovered, under its test.
unfoldable pub clawback_entries : Booking → ℤ → Tx (Unit {0})
clawback_entries b clawback db = elim (ltb_ℤ (pos 0) clawback) [
  | true ↦ do
    owed ←
        on_ledger
          (record_entry transaction b.id
            (record {
              entry_type = fee_liability_accrued;
              party = artist;
              amount_kobo = neg clawback;
            })
            none)
          db
    due ←
        on_ledger
          (record_entry transaction b.id
            (record {
              entry_type = fee_liability_accrued;
              party = platform;
              amount_kobo = clawback;
            })
            none)
          owed.1
    ok (tt, due.1)
  | false ↦ ok (tt, db)
]

-- The decision on the row of the cancellation.
abbrev pub reclassify_rows :
    Cancellation → ℕ → ArtistCancellation → List Cancellation → List Cancellation
reclassify_rows c actor corrected = map (λ r.
    if r.id == c.id
    then record r {
      reclassified_as_artist_fault = true;
      reclassified_by_user_id = some actor;
      fee_bearer = artist_bears;
      client_refund_kobo = corrected.client_total_returned;
      artist_compensation_kobo = pos 0;
      escrow_fees_kobo = corrected.fee_liability;
    }
    else r)

-- The entries of the transaction: the reversal, the position as it should have been, the clawback.
unfoldable pub corrected_entries : Booking → ClientCancellation → Tx (List LedgerEntry)
unfolding clawback_entries
corrected_entries b original db = do
  undone ← on_ledger (reverse_entries transaction b.id reversed_types true) db
  entries ← on_ledger (record_artist_cancellation transaction b) undone.1
  rest ← clawback_entries b original.artist_compensation entries.1
  ok (undone.0, rest.1)

-- The transaction; it gives the number of the entries reversed.
unfoldable pub reclassify_tx : ℕ → Booking → Cancellation → ClientCancellation → ℕ → Tx ℕ
unfolding corrected_entries
reclassify_tx now b c original actor db = do
  undone ← corrected_entries b original db
  let db1 = create_liability b.artist_user_id b.id (pos_part (liability_of b original)) undone.1
  let db2 = record db1 {
    cancellations = reclassify_rows c actor (artist_fault b) db1.cancellations;
  }
  let db3 = accrue_for_cancellation b.artist_user_id by_artist c.days_before_event b.id now db2
  ok (length undone.0, record_audit (some actor) cancellation_reclassified c.id db3)
