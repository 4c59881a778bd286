-- ===== src/Webhooks/Handlers.antt =====
-- `handleTransactionFunded` and `handleTransactionCancelled` of
-- apps/backend/src/services/webhookService.ts as requests.
use o_artiste.Prelude.{ℕ, ltb, Bool, true, false, none, some, List}
use o_artiste.Schema.{funded_held, cancelled, state_eq}
use o_artiste.Errors.{ok, throw_if, underfunded}
use o_artiste.Booking.{Booking, can_transition}
use o_artiste.Request.{Env, Action, ◌>>=◌, ◌>>◌, done, check, query, transact}
use o_artiste.AutoRelease.{schedule}
use o_artiste.Webhooks.{
  Note, no_booking, already_funded, funded, already_cancelled, left_alone, cancelled_booking,
  booking_for_escrow, fund_tx, cancel_tx,
}

-- The steps for a booking that is not funded yet.
unfoldable pub fund_now : Env → List ℕ → ℕ → Bool → ℕ → Booking → Action Note
unfolding fund_tx
fund_now env code funded_minor queue_up grace_hours b = do
  check (throw_if (ltb funded_minor b.amount_kobo) underfunded)
  transact env (fund_tx code b)
  schedule env queue_up grace_hours b
  done funded

unfoldable pub handle_transaction_funded : Env → List ℕ → ℕ → Bool → ℕ → ℕ → Action Note
unfolding fund_now
handle_transaction_funded env code funded_minor queue_up grace_hours escrow_id = do
  found ← query (λ db. ok (booking_for_escrow escrow_id db))
  elim found [
    | none ↦ done no_booking
    | some b ↦ elim (state_eq b.state funded_held) [
      | true ↦ done already_funded
      | false ↦ fund_now env code funded_minor queue_up grace_hours b
    ]
  ]

unfoldable pub cancel_now : Env → Booking → Action Note
cancel_now env b = do transact env (cancel_tx b); done cancelled_booking

unfoldable pub handle_transaction_cancelled : Env → ℕ → Action Note
unfolding cancel_now
handle_transaction_cancelled env escrow_id = do
  found ← query (λ db. ok (booking_for_escrow escrow_id db))
  elim found [
    | none ↦ done no_booking
    | some b ↦ elim (state_eq b.state cancelled) [
      | true ↦ done already_cancelled
      | false ↦ elim (can_transition b.state cancelled) [
        | true ↦ cancel_now env b
        | false ↦ done left_alone
      ]
    ]
  ]
