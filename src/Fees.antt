-- ===== src/Fees.antt =====
-- apps/backend/src/services/feeService.ts: the arithmetic of every money movement. An amount or a
-- rate that the source takes is a natural number of kobo or basis points; a difference that the
-- source takes is an integer, since it can fall below zero.
pub mod Rounding
pub mod Shares
use o_artiste.Prelude.{
  ℕ, ℤ, pos, sub_ℕ, ltb, ltb_ℤ, ◌-ℤ◌, ◌==◌, if◌then◌else◌, ◌+◌, ◌-◌, ◌*◌, ◌/◌, min, Bool, true,
  false, not, ◌&&◌,
}
use o_artiste.Errors.{Result, err, ok, bps_pair_not_whole, throw_if, ◌>>◌, ◌>>=◌}

abbrev pub bps_denominator : ℕ
bps_denominator = 10_000

abbrev money_in_threshold_kobo : ℕ
money_in_threshold_kobo = 25_000_000

abbrev money_in_low_bps : ℕ
money_in_low_bps = 150

abbrev money_in_flat_kobo : ℕ
money_in_flat_kobo = 10_000

abbrev money_in_cap_kobo : ℕ
money_in_cap_kobo = 200_000

abbrev money_in_high_bps : ℕ
money_in_high_bps = 80

abbrev money_out_threshold_kobo : ℕ
money_out_threshold_kobo = 5_000_000

abbrev money_out_low_kobo : ℕ
money_out_low_kobo = 4_000

abbrev money_out_high_kobo : ℕ
money_out_high_kobo = 7_000

-- The default of `refundIncursMoneyOut`.
abbrev pub refund_incurs_money_out_default : Bool
refund_incurs_money_out_default = true

unfoldable pub apply_bps : ℕ → ℕ → ℕ
apply_bps base_kobo bps = base_kobo * bps / bps_denominator

unfoldable pub money_in_fee : ℕ → ℕ
unfolding apply_bps
money_in_fee amount_kobo =
    if ltb money_in_threshold_kobo amount_kobo
    then apply_bps amount_kobo money_in_high_bps + money_in_flat_kobo
    else min (apply_bps amount_kobo money_in_low_bps + money_in_flat_kobo) money_in_cap_kobo

unfoldable pub money_out_fee : ℤ → ℕ
money_out_fee payout_kobo =
    if ltb_ℤ (pos money_out_threshold_kobo) payout_kobo
    then money_out_high_kobo
    else money_out_low_kobo

pub record CompletionBreakdown : Type 0 where
  pub amount : ℕ
  pub client_pays : ℕ
  pub commission_kobo : ℕ
  pub money_in : ℕ
  pub money_out : ℕ
  pub artist_net : ℤ
  pub platform_net : ℤ
  -- the figures of `parts`, in its order: artist, platform, provider
  pub parts : ℤ × ℤ × ℤ

unfoldable pub compute_completion : ℕ → ℕ → CompletionBreakdown
compute_completion amount_kobo commission_bps =
    let fee_in = money_in_fee amount_kobo in
    let commission = apply_bps amount_kobo commission_bps in
    let net = sub_ℕ amount_kobo commission in
    let fee_out = money_out_fee net in
    let take = sub_ℕ commission fee_out in
    record {
      amount = amount_kobo;
      client_pays = amount_kobo + fee_in;
      commission_kobo = commission;
      money_in = fee_in;
      money_out = fee_out;
      artist_net = net;
      platform_net = take;
      parts = (net, take, pos (fee_in + fee_out));
    }

pub record ClientCancellation : Type 0 where
  pub amount : ℕ
  pub client_share : ℕ
  pub artist_share : ℕ
  pub money_in : ℕ
  pub money_out : ℕ
  pub client_sunk_fee : ℕ
  pub client_refund : ℕ
  pub unrecovered_shortfall : ℕ
  pub commission_kobo : ℕ
  pub artist_compensation : ℤ

-- The figures once the pair of rates is known to be whole, so that `amount - share` is exact.
unfoldable pub client_figures : ℕ → ℕ → ℕ → Bool → ClientCancellation
client_figures amount_kobo commission_bps client_refund_bps refund_incurs_money_out =
    let client_part = apply_bps amount_kobo client_refund_bps in
    let artist_part = amount_kobo - client_part in
    let fee_in = money_in_fee amount_kobo in
    let commission = apply_bps artist_part commission_bps in
    record {
      amount = amount_kobo;
      client_share = client_part;
      artist_share = artist_part;
      money_in = fee_in;
      money_out =
          if refund_incurs_money_out && ltb 0 client_part
          then money_out_fee (pos client_part)
          else 0;
      client_sunk_fee = fee_in;
      client_refund = client_part;
      unrecovered_shortfall = 0;
      commission_kobo = commission;
      artist_compensation = sub_ℕ artist_part commission;
    }

-- `assertBpsPairSums`
unfoldable pub assert_bps_pair_sums : ℕ → ℕ → Result (Unit {0})
assert_bps_pair_sums a b = throw_if (not (a + b == bps_denominator)) bps_pair_not_whole

unfoldable pub compute_client_cancellation : ℕ → ℕ → ℕ → ℕ → Bool → Result ClientCancellation
unfolding assert_bps_pair_sums
compute_client_cancellation amount commission_bps client_bps artist_bps refund_incurs_money_out = do
  assert_bps_pair_sums client_bps artist_bps
  ok (client_figures amount commission_bps client_bps refund_incurs_money_out)

pub record ArtistCancellation : Type 0 where
  pub amount : ℕ
  pub client_refund : ℕ
  pub client_fee_reimbursement : ℕ
  pub client_total_returned : ℕ
  pub money_in : ℕ
  pub money_out : ℕ
  pub fee_liability : ℕ
  pub artist_compensation : ℕ
  pub commission_kobo : ℕ

unfoldable pub compute_artist_cancellation : ℕ → Bool → ArtistCancellation
compute_artist_cancellation amount_kobo refund_incurs_money_out =
    let fee_in = money_in_fee amount_kobo in
    let fee_out = if refund_incurs_money_out then money_out_fee (pos amount_kobo) else 0 in
    record {
      amount = amount_kobo;
      client_refund = amount_kobo;
      client_fee_reimbursement = fee_in;
      client_total_returned = amount_kobo + fee_in;
      money_in = fee_in;
      money_out = fee_out;
      fee_liability = fee_in + fee_out;
      artist_compensation = 0;
      commission_kobo = 0;
    }

pub record LiabilitySettlement : Type 0 where
  pub payout : ℤ
  pub settled_kobo : ℤ
  pub remaining_liability : ℤ

-- `Math.min` on integers
abbrev min_ℤ : ℤ → ℤ → ℤ
min_ℤ a b = if ltb_ℤ b a then b else a

unfoldable pub apply_fee_liabilities : ℤ → ℤ → LiabilitySettlement
apply_fee_liabilities payout_kobo liabilities_kobo =
    let settled_now = min_ℤ payout_kobo liabilities_kobo in
    record {
      payout = payout_kobo -ℤ settled_now;
      settled_kobo = settled_now;
      remaining_liability = liabilities_kobo -ℤ settled_now;
    }
