-- ===== src/Ledger/Balance.antt =====
-- The figures that the composite recorders of ledgerService.ts write, against `reconcile`.
use o_artiste.Prelude.{
  ℕ, ℤ, pos, neg, ◌+ℤ◌, sub_ℕ, ◌+◌, ◌≤◌, ◌≡◌, ◌≢◌, refl, true, false, Bool, List, ◌++◌, arith,
  int_laws, length, ltb, ltb_ℤ, +ℤ_zero, if◌then◌else◌, sub_ℕ_parts, ◌≤ℤ◌, sym, ◌∙◌, ==_refl,
}
use o_artiste.Schema.{
  client, artist, platform, provider, Party, EntryType, released_entry, refunded_entry, commission,
  escrow_fee_out,
}
use o_artiste.Errors.{ok, Result}
use o_artiste.Fees.{
  apply_bps, money_out_fee, compute_completion, compute_client_cancellation,
  compute_artist_cancellation, client_figures, ClientCancellation, refund_incurs_money_out_default,
}
use o_artiste.Fees.Rounding.{apply_bps-le}
use o_artiste.Fees.Shares.{compute_client_cancellation_divides}
use o_artiste.Tiers.{Tier}
use o_artiste.Booking.{Booking}
use o_artiste.Ledger.{
  Ledger, Leg, LedgerEntry, transaction, record_funding, append_all, funding_legs, record_release,
  release_legs, record_client_cancellation, client_legs, split_entries, record_artist_cancellation,
  artist_cancellation_legs, record_dispute_split, split_legs, record_fee_liability_settlement,
  settlement_legs, reconcile, leg_if,
}
use o_artiste.Ledger.Append.{
  append_all_lem, rows, legs_total, legs_total-append, reconcile_sum-rows_ne, reconcile_sum-rows,
}

abbrev all_legs : List Leg → ℤ
all_legs = legs_total (λ leg. true)

funding-total : (b : Booking) → all_legs (funding_legs b) ≡ neg (pos b.amount_kobo)
unfolding funding_legs compute_completion
funding-total b = omega int_laws

release-total : (b : Booking) → all_legs (release_legs b) ≡ pos b.amount_kobo
unfolding release_legs compute_completion
release-total b =
    omega
      (int_laws, sub_ℕ_parts b.amount_kobo (apply_bps b.amount_kobo b.commission_rate_bps_snapshot))

artist_cancellation-total :
    (b : Booking) → all_legs (artist_cancellation_legs b) ≡ pos b.amount_kobo
unfolding artist_cancellation_legs compute_artist_cancellation
artist_cancellation-total b = omega int_laws

settlement-total : (k : ℤ) → all_legs (settlement_legs k) ≡ pos 0
unfolding settlement_legs
settlement-total k = omega int_laws

client_legs-total :
    (c : ClientCancellation)
    → all_legs (client_legs c)
      ≡ pos c.client_refund +ℤ c.artist_compensation +ℤ pos c.commission_kobo
unfolding client_legs
client_legs-total c = omega int_laws

-- A leg that is left out is one of nothing.
leg_if-total :
    (t : Bool) (e : EntryType) (p : Party) (x : ℤ)
    → (t ≡ false → x ≡ pos 0)
    → all_legs (leg_if t e p x) ≡ x
leg_if-total true e p x h = +ℤ_zero x
leg_if-total false e p x h = sym (h refl)

neg_zero : (n : ℕ) → ltb 0 n ≡ false → neg (pos n) ≡ pos 0
unfolding neg
neg_zero n k = ground arith

split_entries-total :
    (c : ℕ) (net : ℤ) (share money_out : ℕ)
    → pos 0 ≤ℤ net
    → all_legs (split_entries c net share money_out) ≡ pos c +ℤ net +ℤ pos share
unfolding split_entries
split_entries-total c net share money_out h =
    simp
      (
        legs_total-append,
        leg_if-total (ltb 0 c) refunded_entry client (pos c) (λ k. ground arith),
        leg_if-total (ltb_ℤ (pos 0) net) released_entry artist net (λ k. ground arith),
        leg_if-total (ltb 0 share) commission platform (pos share) (λ k. ground arith),
        leg_if-total (ltb 0 money_out) escrow_fee_out platform (neg (pos money_out))
            (λ k. neg_zero money_out k),
        leg_if-total (ltb 0 money_out) escrow_fee_out provider (pos money_out) (λ k. ground arith),
      )
      (omega int_laws)

split-total :
    (b : Booking) (client_kobo artist_kobo : ℕ)
    → b.commission_rate_bps_snapshot ≤ 10_000
    → client_kobo + artist_kobo ≡ b.amount_kobo
    → all_legs (split_legs b client_kobo artist_kobo) ≡ pos b.amount_kobo
unfolding split_legs
split-total b client_kobo artist_kobo h e =
    let share = apply_bps artist_kobo b.commission_rate_bps_snapshot in
    let net = sub_ℕ artist_kobo share in
    let le = apply_bps-le artist_kobo b.commission_rate_bps_snapshot h in
    let fee = if ltb_ℤ (pos 0) net then money_out_fee net else 0 in
    split_entries-total client_kobo net share fee (omega (arith, sub_ℕ_parts artist_kobo share, le))
    ∙ omega (int_laws, sub_ℕ_parts artist_kobo share)

-- A write that succeeds: it only appends, moves the booking's sum by an amount, and leaves the sums
-- of other bookings alone.
abbrev pub Moves : Result (List LedgerEntry × Ledger) → ℕ → Ledger → ℤ → Type 0
Moves r booking_id l x =
    (w : List LedgerEntry × Ledger) × (r ≡ ok w)
    × (w.1 ≡ l ++ w.0)
    × ((reconcile booking_id w.1).sum_kobo ≡ (reconcile booking_id l).sum_kobo +ℤ x)
    × ((k : ℕ) → k ≢ booking_id → (reconcile k w.1).sum_kobo ≡ (reconcile k l).sum_kobo)

append_all-Moves :
    (booking_id : ℕ) (legs : List Leg) (l : Ledger) {x : ℤ}
    → all_legs legs ≡ x
    → Moves (append_all transaction booking_id legs l) booking_id l x
append_all-Moves booking_id legs l e =
    let new = rows booking_id (length l) legs in
    (
      (new, l ++ new),
      append_all_lem booking_id legs l,
      refl,
      rw (← e) (reconcile_sum-rows booking_id (length l) legs l),
      λ k ne. reconcile_sum-rows_ne k booking_id (length l) legs l ne,
    )

pub funding-Moves :
    (b : Booking) (l : Ledger)
    → Moves (record_funding transaction b l) b.id l (neg (pos b.amount_kobo))
funding-Moves b l =
    unfold record_funding in append_all-Moves b.id (funding_legs b) l (funding-total b)

pub release-Moves :
    (b : Booking) (l : Ledger) → Moves (record_release transaction b l) b.id l (pos b.amount_kobo)
release-Moves b l =
    unfold record_release in append_all-Moves b.id (release_legs b) l (release-total b)

pub artist_cancellation-Moves :
    (b : Booking) (l : Ledger)
    → Moves (record_artist_cancellation transaction b l) b.id l (pos b.amount_kobo)
artist_cancellation-Moves b l =
    unfold record_artist_cancellation in
    append_all-Moves b.id (artist_cancellation_legs b) l (artist_cancellation-total b)

pub settlement-Moves :
    (booking_id : ℕ) (debt : ℤ) (l : Ledger)
    → Moves (record_fee_liability_settlement transaction booking_id debt l) booking_id l (pos 0)
settlement-Moves booking_id debt l =
    unfold record_fee_liability_settlement in
    append_all-Moves booking_id (settlement_legs debt) l (settlement-total debt)

Moves-eq :
    {r r' : Result (List LedgerEntry × Ledger)} (booking_id : ℕ) (l : Ledger) (x : ℤ)
    → r ≡ r'
    → Moves r' booking_id l x
    → Moves r booking_id l x
Moves-eq booking_id l x e m = (m.0, e ∙ m.1, m.2, m.3, m.4)

client_cancellation_writes :
    (b : Booking) (tier : Tier) (l : Ledger) (c : ClientCancellation)
    → compute_client_cancellation b.amount_kobo b.commission_rate_bps_snapshot tier.client_bps
        tier.artist_bps refund_incurs_money_out_default
      ≡ ok c
    → record_client_cancellation transaction b tier l
      ≡ append_all transaction b.id (client_legs c) l
unfolding record_client_cancellation
client_cancellation_writes b tier l c e = rw e

split_writes :
    (b : Booking) (client_kobo artist_kobo : ℕ) (l : Ledger)
    → client_kobo + artist_kobo ≡ b.amount_kobo
    → record_dispute_split transaction b client_kobo artist_kobo l
      ≡ append_all transaction b.id (split_legs b client_kobo artist_kobo) l
unfolding record_dispute_split
split_writes b client_kobo artist_kobo l e = rw (e, ==_refl b.amount_kobo)

pub client_cancellation-Moves :
    (b : Booking) (tier : Tier) (l : Ledger)
    → b.commission_rate_bps_snapshot ≤ 10_000
    → tier.client_bps + tier.artist_bps ≡ 10_000
    → Moves (record_client_cancellation transaction b tier l) b.id l (pos b.amount_kobo)
client_cancellation-Moves b tier l bps whole =
    let c =
      client_figures b.amount_kobo b.commission_rate_bps_snapshot tier.client_bps
        refund_incurs_money_out_default in
    let parts =
      (compute_client_cancellation_divides b.amount_kobo b.commission_rate_bps_snapshot
          tier.client_bps tier.artist_bps refund_incurs_money_out_default bps).1
        whole in
    Moves-eq b.id l (pos b.amount_kobo) (client_cancellation_writes b tier l c parts.0)
      (append_all-Moves b.id (client_legs c) l (client_legs-total c ∙ parts.1))

pub split-Moves :
    (b : Booking) (client_kobo artist_kobo : ℕ) (l : Ledger)
    → b.commission_rate_bps_snapshot ≤ 10_000
    → client_kobo + artist_kobo ≡ b.amount_kobo
    → Moves
        (record_dispute_split transaction b client_kobo artist_kobo l)
        b.id
        l
        (pos b.amount_kobo)
split-Moves b client_kobo artist_kobo l bps exact =
    Moves-eq b.id l (pos b.amount_kobo) (split_writes b client_kobo artist_kobo l exact) (
      append_all-Moves b.id (split_legs b client_kobo artist_kobo) l
        (split-total b client_kobo artist_kobo bps exact))

-- The figures of the recorders, for a commission of at most 100%: funding takes the amount out of
-- balance, each of the four ways to conclude a booking brings it back, and the settlement of a
-- debt leaves the sum alone. Each only appends, and touches no other booking's sum. A client's
-- cancellation wants a tier whose rates make up the whole, a split wants shares that make up the
-- amount.
pub recorders-Moves :
    (b : Booking) (tier : Tier) (client_kobo artist_kobo : ℕ) (debt : ℤ) (l : Ledger)
    → b.commission_rate_bps_snapshot ≤ 10_000
    → tier.client_bps + tier.artist_bps ≡ 10_000
    → client_kobo + artist_kobo ≡ b.amount_kobo
    → Moves (record_funding transaction b l) b.id l (neg (pos b.amount_kobo))
      × Moves (record_release transaction b l) b.id l (pos b.amount_kobo)
      × Moves (record_client_cancellation transaction b tier l) b.id l (pos b.amount_kobo)
      × Moves (record_artist_cancellation transaction b l) b.id l (pos b.amount_kobo)
      × Moves
          (record_dispute_split transaction b client_kobo artist_kobo l)
          b.id
          l
          (pos b.amount_kobo)
      × Moves (record_fee_liability_settlement transaction b.id debt l) b.id l (pos 0)
recorders-Moves b tier client_kobo artist_kobo debt l bps whole exact = (
  funding-Moves b l,
  release-Moves b l,
  client_cancellation-Moves b tier l bps whole,
  artist_cancellation-Moves b l,
  split-Moves b client_kobo artist_kobo l bps exact,
  settlement-Moves b.id debt l,
)
