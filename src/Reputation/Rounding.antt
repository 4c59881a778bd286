-- ===== src/Reputation/Rounding.antt =====
-- The doublings that bring a count up to the total, in the percentage of reputationService.ts.
use o_artiste.Prelude.{ℕ, zero, suc, leb, ◌+◌, ◌*◌, ◌≤◌, inl, inr, Bool-cases, arith}
use o_artiste.Reputation.{scale}

-- As many doublings as the total are enough for any count above zero.
pub scale_reaches : (fuel c t : ℕ) → 1 ≤ c → t ≤ fuel + c → t ≤ (scale fuel c t).1
unfolding scale
scale_reaches zero c t some_count enough = omega (arith, enough)
scale_reaches (suc fuel) c t some_count enough = elim (Bool-cases (leb t c)) [
  | inl e ↦ let there : t ≤ c = ground (arith, e) in rw (scale, e) there
  | inr e ↦
      let more : t ≤ fuel + 2 * c = ground (arith, e, enough, some_count) in
      rw (scale, e) (scale_reaches fuel (2 * c) t (omega (arith, some_count)) more)
]
