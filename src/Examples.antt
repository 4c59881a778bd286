-- ===== src/Examples.antt =====
-- Inputs on which the theorems are applied, and tests of the definitions by evaluation.
use o_artiste.Prelude.{
  ℕ, pos, neg, ◌+ℤ◌, ◌+◌, ◌≤◌, ◌≤ℤ◌, ◌≡◌, ◌≢◌, ◌⊎◌, refl, true, none, some, List, [], ◌∷◌, arith,
  length, if◌then◌else◌,
}
use o_artiste.Schema.{
  BookingState, pending_payment, funded_held, checked_in, awaiting_confirmation, released,
  cancelled, disputed, resolved,
}
use o_artiste.Errors.{ok, ◌>>=◌}
use o_artiste.Fees.{
  apply_bps, money_in_fee, compute_completion, client_figures, compute_client_cancellation,
  apply_fee_liabilities,
}
use o_artiste.Fees.Rounding.{money_in_fee_mono, money_in_fee_tiers}
use o_artiste.Fees.Shares.{
  compute_completion_reconciles, compute_client_cancellation_divides, apply_fee_liabilities_settles,
}
use o_artiste.Tiers.{
  Tier, TierInput, Field, absent, whole, validate_tier_set, resolve_tier, covers, tier_of,
  validate_row, validate_rows, insert_tier, sort_from, check_neighbours, check_sorted,
}
use o_artiste.Tiers.Coverage.{covering, validate_tier_set-covers}
use o_artiste.Booking.{Booking, assert_transition, can_transition, includes, is_terminal}
use o_artiste.Booking.Lifecycle.{final, life_of_booking}
use o_artiste.Booking.Race.{
  Writer, requests, conclusions, run, advance, advance_at, run_concludes_once,
}
use o_artiste.Ledger.{
  Ledger, transaction, record_funding, record_release, record_client_cancellation,
  record_artist_cancellation, record_dispute_split, record_fee_liability_settlement, reconcile,
}
use o_artiste.Ledger.Balance.{Moves, recorders-Moves}
use o_artiste.Ledger.Settled.{
  Balances, funded_and_concluded-Balances, artist_fault_makes_client_whole,
}
use o_artiste.Ledger.{LedgerEntry}

abbrev pub week : Tier
week = record { min_days = 7; max_days = none; client_bps = 10_000; artist_bps = 0 }

abbrev pub late : Tier
late = record { min_days = 1; max_days = some 6; client_bps = 7000; artist_bps = 3000 }

abbrev pub day_of : Tier
day_of = record { min_days = 0; max_days = some 0; client_bps = 0; artist_bps = 10_000 }

-- 200,000 naira at 15%.
abbrev pub booking : Booking
booking = record {
  id = 7;
  client_user_id = 1;
  artist_user_id = 2;
  client_party_id = some 10;
  artist_party_id = some 20;
  amount_kobo = 20_000_000;
  commission_rate_bps_snapshot = 1500;
  cancellation_tiers_snapshot = week ∷ late ∷ day_of ∷ [];
  event_date = 1_900_000_000_000;
  event_end_at = 1_900_010_800_000;
  state = awaiting_confirmation;
  escrow_reference = 700;
  escrow_id = some 70;
  check_in = some 1_900_000_100_000;
  check_in_code = none;
  check_in_code_valid_from = none;
  check_in_code_valid_to = none;
  client_confirmed_at = none;
  artist_confirmed_at = none;
  client_no_show_claimed_at = none;
  auto_release_at = none;
  cancelled_at = none;
  refunded_at = none;
  released_at = none;
  acknowledged_at = none;
  payout_id = none;
  paid_out_at = none;
  payout_failure_reason = none;
}

compute_completion_reconciles_example :
    let c = compute_completion 20_000_000 1500 in
    (c.parts.0 +ℤ c.parts.1 +ℤ c.parts.2 ≡ pos c.client_pays)
    × (c.artist_net +ℤ pos c.commission_kobo ≡ pos 20_000_000)
    × (pos 0 ≤ℤ c.artist_net)
    × (c.client_pays ≡ 20_000_000 + money_in_fee 20_000_000)
compute_completion_reconciles_example = compute_completion_reconciles 20_000_000 1500 (omega arith)

compute_client_cancellation_divides_example :
    let c = client_figures 20_000_001 1500 7000 true in
    (compute_client_cancellation 20_000_001 1500 7000 3000 true ≡ ok c)
    × (pos c.client_refund +ℤ c.artist_compensation +ℤ pos c.commission_kobo ≡ pos 20_000_001)
    × (c.client_refund ≡ apply_bps 20_000_001 7000)
    × (apply_bps 20_000_001 3000 ≤ c.artist_share)
    × (c.artist_share ≤ apply_bps 20_000_001 3000 + 1)
    × (pos 0 ≤ℤ c.artist_compensation)
compute_client_cancellation_divides_example =
    (compute_client_cancellation_divides 20_000_001 1500 7000 3000 true (omega arith)).1
      (omega arith)

apply_fee_liabilities_settles_example :
    let s = apply_fee_liabilities (pos 17_000_000) (pos 207_000) in
    (s.payout +ℤ s.settled_kobo ≡ pos 17_000_000)
    × (s.remaining_liability +ℤ s.settled_kobo ≡ pos 207_000)
    × (pos 0 ≤ℤ s.payout)
    × (pos 0 ≤ℤ s.remaining_liability)
    × ((s.payout ≡ pos 0) ⊎ (s.remaining_liability ≡ pos 0))
apply_fee_liabilities_settles_example =
    apply_fee_liabilities_settles (pos 17_000_000) (pos 207_000) (omega arith) (omega arith)

money_in_fee_mono_example : money_in_fee 25_000_000 ≤ money_in_fee 25_000_001
money_in_fee_mono_example = money_in_fee_mono 25_000_000 25_000_001 (omega arith)

money_in_fee_tiers_example :
    (30_000_000 ≤ 25_000_000
      → (10_000 ≤ money_in_fee 30_000_000) × (money_in_fee 30_000_000 ≤ 200_000))
    × (25_000_001 ≤ 30_000_000 → 210_000 ≤ money_in_fee 30_000_000)
money_in_fee_tiers_example = money_in_fee_tiers 30_000_000

-- Three bands, given out of order.
abbrev band : ℕ → Field → ℕ → ℕ → TierInput
band start end client artist = record {
  min_days_before = whole (pos start);
  max_days_before = end;
  client_refund_bps = whole (pos client);
  artist_compensation_bps = whole (pos artist);
}

abbrev pub inputs : List TierInput
inputs =
    band 7 absent 10_000 0 ∷ band 0 (whole (pos 0)) 0 10_000 ∷ band 1 (whole (pos 6)) 7000 3000 ∷ []

inputs_accepted : validate_tier_set inputs ≡ ok (day_of ∷ late ∷ week ∷ [])
unfolding validate_tier_set validate_rows validate_row tier_of sort_from insert_tier check_sorted
    check_neighbours
inputs_accepted = refl

validate_tier_set-covers_example :
    (covering 3 (day_of ∷ late ∷ week ∷ []) ≡ 1)
    × ((u : Tier) × (resolve_tier (day_of ∷ late ∷ week ∷ []) (pos 3) ≡ ok u)
        × (covers 3 u ≡ true)
        × (u.client_bps + u.artist_bps ≡ 10_000))
validate_tier_set-covers_example = validate_tier_set-covers inputs inputs_accepted 3

abbrev life : List BookingState
life = funded_held ∷ checked_in ∷ awaiting_confirmation ∷ disputed ∷ resolved ∷ []

life_of_booking_example :
    (length life ≤ 5)
    × (final pending_payment life ≢ pending_payment
        → final pending_payment life ≢ cancelled
        → includes life funded_held ≡ true)
    × (final pending_payment life ≡ resolved → includes life disputed ≡ true)
unfolding assert_transition
life_of_booking_example = life_of_booking life (refl, (refl, (refl, (refl, (refl, tt)))))

-- Three releases and a dispute, their reads first and their writes after.
abbrev race : BookingState × List Writer
race =
    run (0 ∷ 1 ∷ 2 ∷ 3 ∷ 1 ∷ 0 ∷ 2 ∷ 3 ∷ []) awaiting_confirmation
      (requests (released ∷ released ∷ released ∷ disputed ∷ []))

race_released : race.0 ≡ released
unfolding run advance_at advance can_transition
race_released = refl

run_concludes_once_example : conclusions race.1 ≡ (if is_terminal race.0 then 1 else 0)
run_concludes_once_example =
    run_concludes_once (0 ∷ 1 ∷ 2 ∷ 3 ∷ 1 ∷ 0 ∷ 2 ∷ 3 ∷ []) awaiting_confirmation
      (released ∷ released ∷ released ∷ disputed ∷ []) refl

recorders-Moves_example :
    Moves (record_funding transaction booking []) 7 [] (neg (pos 20_000_000))
    × Moves (record_release transaction booking []) 7 [] (pos 20_000_000)
    × Moves (record_client_cancellation transaction booking late []) 7 [] (pos 20_000_000)
    × Moves (record_artist_cancellation transaction booking []) 7 [] (pos 20_000_000)
    × Moves (record_dispute_split transaction booking 5_000_000 15_000_000 []) 7 [] (pos 20_000_000)
    × Moves (record_fee_liability_settlement transaction 7 (pos 207_000) []) 7 [] (pos 0)
recorders-Moves_example =
    recorders-Moves booking late 5_000_000 15_000_000 (pos 207_000) [] (omega arith) (omega arith)
      (omega arith)

funded_and_concluded-Balances_example :
    let funded = record_funding transaction booking [] in
    Balances 7 (funded >>= λ w. record_release transaction booking w.1)
    × Balances 7 (funded >>= λ w. record_client_cancellation transaction booking late w.1)
    × Balances 7 (funded >>= λ w. record_artist_cancellation transaction booking w.1)
    × Balances 7 (funded >>= λ w. record_dispute_split transaction booking 5_000_000 15_000_000 w.1)
unfolding reconcile
funded_and_concluded-Balances_example =
    funded_and_concluded-Balances booking late 5_000_000 15_000_000 [] (omega arith) (omega arith)
      (omega arith) refl

artist_fault_makes_client_whole_example :
    (w : List LedgerEntry × Ledger) × ((record_funding transaction booking [] >>= λ f.
    record_artist_cancellation transaction booking f.1)
      ≡ ok w)
    × ((reconcile 7 w.1).by_party.client_kobo ≡ (reconcile 7 []).by_party.client_kobo)
artist_fault_makes_client_whole_example = artist_fault_makes_client_whole booking []
