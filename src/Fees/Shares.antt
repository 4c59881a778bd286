-- ===== src/Fees/Shares.antt =====
-- The rule R2 of feeService.ts: each split accounts for every kobo.
use o_artiste.Prelude.{
  ℕ, ℤ, pos, ◌+◌, ◌-◌, ◌*◌, ◌≤◌, ◌+ℤ◌, ◌-ℤ◌, ◌≤ℤ◌, ◌≡◌, ◌≢◌, ◌⊎◌, Bool, refl, ap, arith,
}
use o_artiste.Errors.{ok, err, bps_pair_not_whole}
use o_artiste.Fees.{
  apply_bps, money_in_fee, compute_completion, client_figures, compute_client_cancellation,
  apply_fee_liabilities,
}
use o_artiste.Fees.Rounding.{apply_bps-le, apply_bps_floor}

-- The three parts of a completed booking add up to exactly what the client pays, the artist and
-- the commission divide the escrow, and at a rate of at most 100% the artist's net is not
-- negative.
pub compute_completion_reconciles :
    (amount bps : ℕ)
    → bps ≤ 10_000
    → let c = compute_completion amount bps in
      (c.parts.0 +ℤ c.parts.1 +ℤ c.parts.2 ≡ pos c.client_pays)
      × (c.artist_net +ℤ pos c.commission_kobo ≡ pos amount)
      × (pos 0 ≤ℤ c.artist_net)
      × (c.client_pays ≡ amount + money_in_fee amount)
unfolding compute_completion ◌+ℤ◌
compute_completion_reconciles amount bps h = ground (arith, apply_bps-le amount bps h)

-- The residual share is the floor of the other rate, or one kobo more.
residual_near :
    (a c r : ℕ)
    → c + r ≡ 10_000
    → (apply_bps a r ≤ a - apply_bps a c) × (a - apply_bps a c ≤ apply_bps a r + 1)
residual_near a c r h =
    omega (arith, ap (λ (t : ℕ). a * t) h, apply_bps_floor a c, apply_bps_floor a r)

-- A pair of rates that is not whole is refused; otherwise the client's refund, the artist's
-- compensation and the commission divide the escrow exactly. The client's share is the floor of
-- its own rate, the artist's share is the floor of its rate or one kobo more, and with a
-- commission of at most 100% the compensation is not negative.
pub compute_client_cancellation_divides :
    (amount commission_bps client_bps artist_bps : ℕ) (incurs : Bool)
    → commission_bps ≤ 10_000
    → (client_bps + artist_bps ≢ 10_000
        → compute_client_cancellation amount commission_bps client_bps artist_bps incurs
          ≡ err bps_pair_not_whole)
      × (client_bps + artist_bps ≡ 10_000
          → let c = client_figures amount commission_bps client_bps incurs in
            (compute_client_cancellation amount commission_bps client_bps artist_bps incurs ≡ ok c)
            × (pos c.client_refund +ℤ c.artist_compensation +ℤ pos c.commission_kobo ≡ pos amount)
            × (c.client_refund ≡ apply_bps amount client_bps)
            × (apply_bps amount artist_bps ≤ c.artist_share)
            × (c.artist_share ≤ apply_bps amount artist_bps + 1)
            × (pos 0 ≤ℤ c.artist_compensation))
unfolding compute_client_cancellation client_figures ◌+ℤ◌
compute_client_cancellation_divides amount commission_bps client_bps artist_bps incurs h = (
  λ ne. ground arith,
  λ e.
      let near = residual_near amount client_bps artist_bps e in
      let le : apply_bps amount client_bps ≤ amount =
        apply_bps-le amount client_bps (omega arith) in
      let le' = apply_bps-le (amount - apply_bps amount client_bps) commission_bps h in
      (ground arith, ground arith, refl, near.0, near.1, ground arith),
)

-- Netting a debt off a payout loses nothing: the payout and the debt both fall by what is
-- settled, neither falls below zero, and one of them is used up.
pub apply_fee_liabilities_settles :
    (payout debt : ℤ)
    → pos 0 ≤ℤ payout
    → pos 0 ≤ℤ debt
    → let s = apply_fee_liabilities payout debt in
      (s.payout +ℤ s.settled_kobo ≡ payout)
      × (s.remaining_liability +ℤ s.settled_kobo ≡ debt)
      × (pos 0 ≤ℤ s.payout)
      × (pos 0 ≤ℤ s.remaining_liability)
      × ((s.payout ≡ pos 0) ⊎ (s.remaining_liability ≡ pos 0))
unfolding apply_fee_liabilities ◌+ℤ◌ ◌-ℤ◌
apply_fee_liabilities_settles payout debt h k = ground arith
