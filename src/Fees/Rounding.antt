-- ===== src/Fees/Rounding.antt =====
-- The rounding rule R1 of feeService.ts, and the provider's fee schedule.
use o_artiste.Prelude.{ℕ, ◌+◌, ◌*◌, ◌^◌, ◌≤◌, ◌<◌, arith}
use o_artiste.Fees.{apply_bps, money_in_fee}

-- A percentage is the whole number of kobo at or just below the exact value.
pub apply_bps_floor :
    (base bps : ℕ)
    → (apply_bps base bps * 10_000 ≤ base * bps)
      × (base * bps < apply_bps base bps * 10_000 + 10_000)
unfolding apply_bps
apply_bps_floor base bps = omega arith

pub apply_bps-le : (base bps : ℕ) → bps ≤ 10_000 → apply_bps base bps ≤ base
unfolding apply_bps
apply_bps-le base bps h = grind arith

pub apply_bps_mono : (a b bps : ℕ) → a ≤ b → apply_bps a bps ≤ apply_bps b bps
unfolding apply_bps
apply_bps_mono a b bps h = grind arith

-- Within the largest booking and a rate of at most 100%, the product that `applyBps` forms is at
-- most 2^53 - 1, the last integer up to which the source's numbers are exact.
pub apply_bps_exact : (base bps : ℕ) → base ≤ 300_000_000 → bps ≤ 10_000 → base * bps < 2 ^ 53
apply_bps_exact base bps h k = grind arith

-- The fee for money coming in never falls as the amount grows, across its cap and its two tiers.
pub money_in_fee_mono : (a b : ℕ) → a ≤ b → money_in_fee a ≤ money_in_fee b
unfolding money_in_fee
money_in_fee_mono a b h = ground arith

-- At most 250,000 naira the fee lies between 100 and 2,000 naira; above, it is at
-- least 2,100 naira.
pub money_in_fee_tiers :
    (a : ℕ)
    → (a ≤ 25_000_000 → (10_000 ≤ money_in_fee a) × (money_in_fee a ≤ 200_000))
      × (25_000_000 < a → 210_000 ≤ money_in_fee a)
unfolding money_in_fee
money_in_fee_tiers a = ground arith
