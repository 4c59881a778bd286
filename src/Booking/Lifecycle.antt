-- ===== src/Booking/Lifecycle.antt =====
-- Which lives a booking can have under the transition map of bookingService.ts.
use o_artiste.Prelude.{
  ℕ, ◌+◌, ◌≤◌, ◌<◌, true, ◌≡◌, refl, ◌⊎◌, inl, inr, ◌≢◌, arith, List, [], ◌∷◌, length,
}
use o_artiste.Schema.{
  BookingState, pending_payment, funded_held, checked_in, awaiting_confirmation, cancelled,
  disputed, resolved,
}
use o_artiste.Errors.{ok}
use o_artiste.Booking.{assert_transition, includes}

-- A list of states, each entered from the one before it by an accepted transition.
abbrev pub IsLife : BookingState → List BookingState → Type 0
IsLife s [] = Unit
IsLife s (t ∷ ts) = (assert_transition s t ≡ ok tt) × IsLife t ts

abbrev pub final : BookingState → List BookingState → BookingState
final s [] = s
final s (t ∷ ts) = final t ts

-- A rank that every accepted transition raises.
abbrev rank : BookingState → ℕ
rank pending_payment = 0
rank funded_held = 1
rank checked_in = 2
rank awaiting_confirmation = 3
rank disputed = 4
rank s = 5

rank-step : (s t : BookingState) → assert_transition s t ≡ ok tt → rank s < rank t
unfolding assert_transition
rank-step s t h = ground arith

rank-le : (s : BookingState) → rank s ≤ 5
rank-le s = ground arith

IsLife-length : (s : BookingState) (ts : List BookingState) → IsLife s ts → length ts + rank s ≤ 5
IsLife-length s [] h = omega (arith, rank-le s)
IsLife-length s (t ∷ ts) h = omega (arith, rank-step s t h.0, IsLife-length t ts h.1)

pending-step :
    (t : BookingState)
    → assert_transition pending_payment t ≡ ok tt
    → (t ≡ funded_held) ⊎ (t ≡ cancelled)
unfolding assert_transition
pending-step t h = ground arith

cancelled-step : (t : BookingState) → ¬ (assert_transition cancelled t ≡ ok tt)
unfolding assert_transition
cancelled-step t h = ground arith

paid_first :
    (ts : List BookingState)
    → IsLife pending_payment ts
    → (final pending_payment ts ≡ pending_payment)
      ⊎ ((final pending_payment ts ≡ cancelled) ⊎ (includes ts funded_held ≡ true))
paid_first [] h = inl refl
paid_first (t ∷ []) h = ground (arith, pending-step t h.0)
paid_first (t ∷ u ∷ us) h = elim (pending-step t h.0) [
  | inl e ↦ rw e (inr (inr refl))
  | inr e ↦ absurd (cancelled-step u (rw e at h.1.0))
]

resolved-step : (s : BookingState) → assert_transition s resolved ≡ ok tt → s ≡ disputed
unfolding assert_transition
resolved-step s h = ground arith

disputed_first :
    (s : BookingState) (ts : List BookingState)
    → IsLife s ts
    → final s ts ≡ resolved
    → (s ≡ resolved) ⊎ ((s ≡ disputed) ⊎ (includes ts disputed ≡ true))
disputed_first s [] h e = inl e
disputed_first s (t ∷ ts) h e = elim (disputed_first t ts h.1 e) [
  | inl at_end ↦ inr (inl (resolved-step s (rw at_end at h.0)))
  | inr (inl here) ↦ inr (inr (rw here refl))
  | inr (inr past) ↦ inr (inr (ground arith))
]

-- A booking's life from its creation has at most five transitions. One that ends in a state other
-- than waiting for payment or cancelled has been funded on the way, and one that ends as settled
-- by support has been under dispute.
pub life_of_booking :
    (ts : List BookingState)
    → IsLife pending_payment ts
    → (length ts ≤ 5)
      × (final pending_payment ts ≢ pending_payment
          → final pending_payment ts ≢ cancelled
          → includes ts funded_held ≡ true)
      × (final pending_payment ts ≡ resolved → includes ts disputed ≡ true)
life_of_booking ts h = (
  omega (arith, IsLife-length pending_payment ts h),
  λ ne ne'. ground (arith, paid_first ts h),
  λ e. ground (arith, disputed_first pending_payment ts h e),
)
