-- ===== src/Creation/Funding.antt =====
-- `createEscrowForBooking` and `fundingInstructionFor` of apps/backend/src/services/escrowService.ts.
-- What the provider answers to the three calls comes with the request; a call that throws has no
-- answer. Account names and the expiry of a session are left out.
use o_artiste.Prelude.{ℕ, ◌+◌, ◌==◌, Bool, not, Option, none, some, is_some, [], ◌∷◌, ◌++◌}
use o_artiste.Schema.{BookingState, pending_payment, state_eq}
use o_artiste.Errors.{
  Result, ok, err, throw_if, booking_not_found, already_paid, payer_without_party,
  artist_cannot_receive, provider_failed,
}
use o_artiste.Fees.{money_in_fee}
use o_artiste.Booking.{Booking}
use o_artiste.Store.{Db, User, find_booking, amend}
use o_artiste.Request.{
  Effect, open_escrow, activate_escrow, open_checkout, Env, Action, ◌>>=◌, ◌>>◌, done, check, query,
  transact,
}
use o_artiste.Creation.{as_client, as_artist, assert_can_transact}
use o_artiste.Creation.Terms.{assert_acknowledged}

-- `CheckoutSession`: the amount of its payment instructions, where it has them.
pub record Session : Type 0 where
  pub amount_minor : Option ℕ

pub record Answers : Type 0 where
  -- the id of the transaction that `createEscrow` gives
  pub opened : Option ℕ
  -- the status that `activateEscrow` gives
  pub activated : Option ℕ
  pub session : Option Session

pub record FundingInstruction : Type 0 where
  pub booking_id : ℕ
  pub escrow_reference : ℕ
  pub escrow_id : Option ℕ
  pub state : BookingState
  pub escrow_state : Option ℕ
  pub booking_amount_kobo : ℕ
  pub provider_fee_kobo : ℕ
  pub amount_to_transfer_kobo : ℕ
  pub has_bank_transfer : Bool

-- `instructions?.amount_minor`
abbrev told_amount : Option Session → Option ℕ
told_amount none = none
told_amount (some s) = s.amount_minor

unfoldable pub funding_instruction_for : Booking → Option Session → Option ℕ → FundingInstruction
funding_instruction_for b session activated =
    let fee = money_in_fee b.amount_kobo in
    record {
      booking_id = b.id;
      escrow_reference = b.escrow_reference;
      escrow_id = b.escrow_id;
      state = b.state;
      escrow_state = activated;
      booking_amount_kobo = b.amount_kobo;
      provider_fee_kobo = fee;
      amount_to_transfer_kobo = elim (told_amount session) [
        | none ↦ b.amount_kobo + fee
        | some told ↦ told
      ];
      has_bank_transfer = is_some (told_amount session);
    }

-- A call that is made, or throws.
unfoldable pub call {ℓ} : {A : Type ℓ} → Option A → Effect → Action A
call none e w = (err provider_failed, w)
call (some a) e w = (ok a, record w { effects = w.effects ++ e ∷ [] })

-- `withCheckoutSession`: a call that throws leaves the instruction without a session.
unfoldable pub with_checkout_session : Answers → ℕ → Booking → Action FundingInstruction
with_checkout_session answers escrow_id b w = elim answers.session [
  | none ↦ (ok (funding_instruction_for b none none), w)
  | some s ↦ (
    ok (funding_instruction_for b (some s) none),
    record w { effects = w.effects ++ open_checkout escrow_id ∷ [] },
  )
]

-- The user of a party of a booking, which its foreign key says to exist.
abbrev pub user_of : ℕ → Db → Result User
user_of user_id db = elim (db.users user_id) [ none ↦ err booking_not_found | some u ↦ ok u ]

abbrev payer_of : Booking → Result ℕ
payer_of b = elim b.client_party_id [ none ↦ err payer_without_party | some p ↦ ok p ]

abbrev beneficiary_of : Booking → Result ℕ
beneficiary_of b = elim b.artist_party_id [ none ↦ err artist_cannot_receive | some p ↦ ok p ]

abbrev pub escrow_data : ℕ → Booking → Booking
escrow_data escrow_id b = record b { escrow_id = some escrow_id }

-- The three calls, and the id that is kept once all have succeeded.
unfoldable pub open_now : Env → Answers → Booking → Action FundingInstruction
unfolding call
open_now env answers b = do
  payer ← check (payer_of b)
  beneficiary ← check (beneficiary_of b)
  transaction ← call answers.opened (open_escrow b.escrow_reference b.amount_kobo payer beneficiary)
  activated ← call answers.activated (activate_escrow transaction)
  session ← call answers.session (open_checkout transaction)
  updated ← transact env (amend b.id (escrow_data transaction))
  done (funding_instruction_for updated (some session) (some activated))

unfoldable pub create_escrow : Env → Answers → ℕ → ℕ → Action FundingInstruction
unfolding open_now with_checkout_session
create_escrow env answers booking_id client_user_id = do
  b ← query (find_booking booking_id)
  check (throw_if (not (b.client_user_id == client_user_id)) booking_not_found)
  check (assert_acknowledged b)
  client_user ← query (user_of b.client_user_id)
  check (assert_can_transact client_user as_client)
  artist_user ← query (user_of b.artist_user_id)
  check (assert_can_transact artist_user as_artist)
  check (throw_if (not (state_eq b.state pending_payment)) already_paid)
  elim b.escrow_id [
    | some escrow_id ↦ with_checkout_session answers escrow_id b
    | none ↦ open_now env answers b
  ]
