-- ===== src/Booking/Race.antt =====
-- The compare-and-swap of `transition` (bookingService.ts) when several requests run at once. A
-- writer reads the state and checks the transition, and later writes under the condition that the
-- state is still the one that it read; the database runs each of the two steps whole.
use o_artiste.Prelude.{
  ℕ, zero, suc, ◌+◌, ◌≡◌, refl, true, false, List, [], ◌∷◌, if◌then◌else◌, All, arith, Bool-cases,
  inl, inr,
}
use o_artiste.Schema.{BookingState, state_eq}
use o_artiste.Booking.{can_transition, is_terminal}

pub data Writer : Type 0 where
  -- wants to move the booking to a state, and has read nothing
  waiting : BookingState → Writer
  -- has read a state from which its move is allowed
  checked : BookingState → BookingState → Writer
  -- its update matched the row: the state before and after
  won : BookingState → BookingState → Writer
  -- refused by the guard, or its update matched no row
  lost : BookingState → Writer

-- The next step of a writer: the state of the row afterwards, and the writer.
unfoldable pub advance : BookingState → Writer → BookingState × Writer
advance row (waiting to) = (row, if can_transition row to then checked row to else lost to)
advance row (checked read to) = if state_eq row read then (to, won read to) else (row, lost to)
advance row (won read to) = (row, won read to)
advance row (lost to) = (row, lost to)

-- The writer at a position takes its next step.
unfoldable pub advance_at : ℕ → BookingState → List Writer → BookingState × List Writer
advance_at i row [] = (row, [])
advance_at zero row (w ∷ ws) = let (row', w') = advance row w in (row', w' ∷ ws)
advance_at (suc i) row (w ∷ ws) = let (row', ws') = advance_at i row ws in (row', w ∷ ws')

-- A schedule names the writer that takes each step.
unfoldable pub run : List ℕ → BookingState → List Writer → BookingState × List Writer
run [] row ws = (row, ws)
run (i ∷ is) row ws = let (row', ws') = advance_at i row ws in run is row' ws'

-- How many writers have moved the booking into a final state.
abbrev pub conclusion : Writer → ℕ
conclusion (won read to) = if is_terminal to then 1 else 0
conclusion w = 0

abbrev pub conclusions : List Writer → ℕ
conclusions [] = 0
conclusions (w ∷ ws) = conclusion w + conclusions ws

-- What a writer has checked is allowed.
abbrev IsSound : Writer → Type 0
IsSound (checked read to) = can_transition read to ≡ true
IsSound w = Unit

-- 1 for a row in a final state.
abbrev concluded : BookingState → ℕ
concluded s = if is_terminal s then 1 else 0

state_eq-eq : (s t : BookingState) → state_eq s t ≡ true → s ≡ t
state_eq-eq s t h = ground arith

can_transition-not_terminal :
    (s t : BookingState) → can_transition s t ≡ true → is_terminal s ≡ false
unfolding can_transition
can_transition-not_terminal s t h = ground arith

advance-IsSound : (row : BookingState) (w : Writer) → IsSound w → IsSound (advance row w).1
unfolding advance
advance-IsSound row (waiting to) h = elim (Bool-cases (can_transition row to)) [
  | inl e ↦ rw e e
  | inr e ↦ rw e tt
]
advance-IsSound row (checked read to) h = elim (Bool-cases (state_eq row read)) [
  | inl e ↦ rw e tt
  | inr e ↦ rw e tt
]
advance-IsSound row (won read to) h = tt
advance-IsSound row (lost to) h = tt

-- A step concludes the row if and only if it makes its writer one that concluded it.
advance-conclusion :
    (row : BookingState) (w : Writer)
    → IsSound w
    → conclusion (advance row w).1 + concluded row ≡ conclusion w + concluded (advance row w).0
unfolding advance
advance-conclusion row (waiting to) h = elim (Bool-cases (can_transition row to)) [
  | inl e ↦ rw e refl
  | inr e ↦ rw e refl
]
advance-conclusion row (checked read to) h = elim (Bool-cases (state_eq row read)) [
  | inl e ↦ rw (e, state_eq-eq row read e, can_transition-not_terminal read to h) (omega arith)
  | inr e ↦ rw e refl
]
advance-conclusion row (won read to) h = refl
advance-conclusion row (lost to) h = refl

advance_at_lem :
    (i : ℕ) (row : BookingState) (ws : List Writer)
    → All IsSound ws
    → let (row', ws') = advance_at i row ws in
      All IsSound ws' × (conclusions ws' + concluded row ≡ conclusions ws + concluded row')
unfolding advance_at
advance_at_lem i row [] h = (tt, refl)
advance_at_lem zero row (w ∷ ws) h =
    ((advance-IsSound row w h.0, h.1), omega (arith, advance-conclusion row w h.0))
advance_at_lem (suc i) row (w ∷ ws) h =
    let (sound, kept) = advance_at_lem i row ws h.1 in ((h.0, sound), omega (arith, kept))

run_lem :
    (is : List ℕ) (row : BookingState) (ws : List Writer)
    → All IsSound ws
    → let (row', ws') = run is row ws in
      conclusions ws' + concluded row ≡ conclusions ws + concluded row'
unfolding run
run_lem [] row ws h = refl
run_lem (i ∷ is) row ws h =
    let (sound, kept) = advance_at_lem i row ws h in
    let (row', ws') = advance_at i row ws in omega (arith, kept, run_lem is row' ws' sound)

-- Every writer at its start, with the state that it asks for.
abbrev pub requests : List BookingState → List Writer
requests [] = []
requests (to ∷ tos) = waiting to ∷ requests tos

requests-IsSound : (tos : List BookingState) → All IsSound (requests tos)
requests-IsSound [] = tt
requests-IsSound (to ∷ tos) = (tt, requests-IsSound tos)

conclusions-requests : (tos : List BookingState) → conclusions (requests tos) ≡ 0
conclusions-requests [] = refl
conclusions-requests (to ∷ tos) = omega (arith, conclusions-requests tos)

-- Whatever requests run against an unfinished booking, and in whatever order their steps fall,
-- the requests that moved it into a final state are exactly one if it ends in a final state, and
-- none if it does not.
pub run_concludes_once :
    (schedule : List ℕ) (row : BookingState) (tos : List BookingState)
    → is_terminal row ≡ false
    → let (row', ws) = run schedule row (requests tos) in
      conclusions ws ≡ (if is_terminal row' then 1 else 0)
run_concludes_once schedule row tos h =
    let none_yet : concluded row ≡ 0 = rw h refl in
    omega (
      arith,
      run_lem schedule row (requests tos) (requests-IsSound tos),
      conclusions-requests tos,
      none_yet,
    )
