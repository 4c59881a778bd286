-- ===== src/Ledger/Settled.antt =====
-- A booking that was funded and then concluded, as `assertBalanced` of ledgerService.ts sees it.
use o_artiste.Prelude.{
  ℕ, pos, neg, ◌+ℤ◌, ◌+◌, ◌≤◌, ◌≡◌, refl, List, ◌++◌, int_laws, eqb_ℤ, ap, length, ◌∙◌,
}
use o_artiste.Schema.{client}
use o_artiste.Errors.{Result, ok, ◌>>=◌}
use o_artiste.Fees.{compute_completion, compute_artist_cancellation}
use o_artiste.Tiers.{Tier}
use o_artiste.Booking.{Booking}
use o_artiste.Ledger.{
  Ledger, LedgerEntry, transaction, record_funding, funding_legs, record_release,
  record_client_cancellation, record_artist_cancellation, artist_cancellation_legs,
  record_dispute_split, reconcile, assert_balanced,
}
use o_artiste.Ledger.Append.{append_all_lem, rows, legs_total, leg_of, reconcile_party-rows}
use o_artiste.Ledger.Balance.{
  Moves, funding-Moves, release-Moves, client_cancellation-Moves, artist_cancellation-Moves,
  split-Moves,
}

-- A run that ends with a table on which the booking balances.
abbrev pub Balances : ℕ → Result (List LedgerEntry × Ledger) → Type 0
Balances booking_id r =
    (w : List LedgerEntry × Ledger) × (r ≡ ok w)
    × (assert_balanced booking_id w.1 ≡ ok (reconcile booking_id w.1))

balanced_lem :
    (booking_id : ℕ) (l : Ledger)
    → (reconcile booking_id l).balanced ≡ eqb_ℤ (reconcile booking_id l).sum_kobo (pos 0)
unfolding reconcile
balanced_lem booking_id l = refl

assert_balanced-ok :
    (booking_id : ℕ) (l : Ledger)
    → (reconcile booking_id l).sum_kobo ≡ pos 0
    → assert_balanced booking_id l ≡ ok (reconcile booking_id l)
unfolding assert_balanced
assert_balanced-ok booking_id l e = rw (balanced_lem booking_id l, e)

-- Two writes, the first of which takes an amount out and the second of which brings it back.
then-Balances :
    (booking_id amount : ℕ) (l : Ledger) (first : Result (List LedgerEntry × Ledger))
    (second : Ledger → Result (List LedgerEntry × Ledger))
    → (reconcile booking_id l).sum_kobo ≡ pos 0
    → Moves first booking_id l (neg (pos amount))
    → ((l' : Ledger) → Moves (second l') booking_id l' (pos amount))
    → Balances booking_id (first >>= λ w. second w.1)
then-Balances booking_id amount l first second start m m' =
    let w = m.0 in
    let n = m' w.1 in
    (n.0, rw m.1 n.1, assert_balanced-ok booking_id n.0.1 (n.3 ∙ rw (m.3, start) (omega int_laws)))

-- A booking that balances before, with a commission of at most the whole, is balanced again once it
-- is funded and then concluded, whichever
-- of the four ways that is: release, the client's cancellation under a tier whose rates make up
-- the whole, a refund at the artist's cost, or a split whose shares make up the amount.
pub funded_and_concluded-Balances :
    (b : Booking) (tier : Tier) (client_kobo artist_kobo : ℕ) (l : Ledger)
    → b.commission_rate_bps_snapshot ≤ 10_000
    → tier.client_bps + tier.artist_bps ≡ 10_000
    → client_kobo + artist_kobo ≡ b.amount_kobo
    → (reconcile b.id l).sum_kobo ≡ pos 0
    → let funded = record_funding transaction b l in
      Balances b.id (funded >>= λ w. record_release transaction b w.1)
      × Balances b.id (funded >>= λ w. record_client_cancellation transaction b tier w.1)
      × Balances b.id (funded >>= λ w. record_artist_cancellation transaction b w.1)
      × Balances b.id
          (funded >>= λ w. record_dispute_split transaction b client_kobo artist_kobo w.1)
funded_and_concluded-Balances b tier client_kobo artist_kobo l bps whole exact start = (
  concluded (record_release transaction b) (release-Moves b),
  concluded (record_client_cancellation transaction b tier)
      (λ l'. client_cancellation-Moves b tier l' bps whole),
  concluded (record_artist_cancellation transaction b) (artist_cancellation-Moves b),
  concluded (record_dispute_split transaction b client_kobo artist_kobo)
      (λ l'. split-Moves b client_kobo artist_kobo l' bps exact),
)
  where
    concluded :
        (second : Ledger → Result (List LedgerEntry × Ledger))
        → ((l' : Ledger) → Moves (second l') b.id l' (pos b.amount_kobo))
        → Balances b.id (record_funding transaction b l >>= λ w. second w.1)
    concluded second m =
        then-Balances b.id b.amount_kobo l (record_funding transaction b l) second start
          (funding-Moves b l) m

-- Funding and then a refund at the artist's cost leave the client's position on the booking where
-- it was before the funding: the escrow and the fee for money coming in both come back.
pub artist_fault_makes_client_whole :
    (b : Booking) (l : Ledger)
    → (w : List LedgerEntry × Ledger) × ((record_funding transaction b l >>= λ f.
          record_artist_cancellation transaction b f.1)
        ≡ ok w)
      × ((reconcile b.id w.1).by_party.client_kobo ≡ (reconcile b.id l).by_party.client_kobo)
unfolding record_funding record_artist_cancellation
artist_fault_makes_client_whole b l =
    let paid = l ++ rows b.id (length l) (funding_legs b) in
    let back = rows b.id (length paid) (artist_cancellation_legs b) in
    (
      (back, paid ++ back),
      rw (
        append_all_lem b.id (funding_legs b) l,
        append_all_lem b.id (artist_cancellation_legs b) paid,
      ),
      reconcile_party-rows client b.id (length paid) (artist_cancellation_legs b) paid
          ∙ (ap (λ x. x +ℤ legs_total (leg_of client) (artist_cancellation_legs b))
                (reconcile_party-rows client b.id (length l) (funding_legs b) l)
              ∙ unfold funding_legs artist_cancellation_legs compute_completion
                  compute_artist_cancellation in
                omega int_laws),
    )
