-- ===== src/Books.antt =====
-- What the books must say of a booking in each state: the promise that ledgerService.ts,
-- escrowService.ts and the state machine of bookingService.ts keep together.
pub mod Transactions
pub mod Concluding
pub mod Cancelling
pub mod Disputing
pub mod Holding
pub mod Logic
pub mod Paying
pub mod Requests
pub mod Cancellations
pub mod Resolutions
pub mod Events
pub mod Beginnings
pub mod Reachable
use o_artiste.Prelude.{
  ℕ, ℤ, pos, neg, ◌≤◌, ◌+◌, ◌≡◌, Bool, true, false, Option, some, List, All, is_some, if◌then◌else◌,
}
use o_artiste.Schema.{
  BookingState, pending_payment, funded_held, checked_in, awaiting_confirmation, released, refunded,
  cancelled, disputed, resolved,
}
use o_artiste.Tiers.{Tier}
use o_artiste.Booking.{Booking}
use o_artiste.Ledger.{Ledger, reconcile}
use o_artiste.Store.{Db}

-- The states in which the client's money is in the escrow.
abbrev pub is_held : BookingState → Bool
is_held pending_payment = false
is_held funded_held = true
is_held checked_in = true
is_held awaiting_confirmation = true
is_held disputed = true
is_held released = false
is_held refunded = false
is_held cancelled = false
is_held resolved = false

-- What the entries of a booking sum to: the money that is held is owed, and nothing else is open.
abbrev pub position : BookingState → ℕ → ℤ
position s amount_kobo = if is_held s then neg (pos amount_kobo) else pos 0

-- The shares of a tier make the whole.
abbrev pub IsWhole : Tier → Type 0
IsWhole t = t.client_bps + t.artist_bps ≡ 10_000

-- The terms frozen on a booking are such as its creation accepts, and money is only held for a
-- booking that has an escrow.
abbrev pub HasTerms : Booking → Type 0
HasTerms b =
    (b.commission_rate_bps_snapshot ≤ 10_000)
    × All IsWhole b.cancellation_tiers_snapshot
    × (is_held b.state ≡ true → is_some b.escrow_id ≡ true)

-- A row stands under its id, its terms are in order, and the ledger says of it what its state says.
abbrev pub Fits : ℕ → Booking → Ledger → Type 0
Fits k b l = (b.id ≡ k) × HasTerms b × ((reconcile k l).sum_kobo ≡ position b.state b.amount_kobo)

abbrev pub Agree : (ℕ → Option Booking) → Ledger → Type 0
Agree bookings l = (k : ℕ) (b : Booking) → bookings k ≡ some b → Fits k b l

-- The books agree with the states of all bookings.
abbrev pub IsSound : Db → Type 0
IsSound db = Agree db.bookings db.ledger
