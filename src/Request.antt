-- ===== src/Request.antt =====
-- What a request of escrowService.ts acts on: the database, the calls of the provider's client
-- (apps/backend/src/lib/escrowpay) that succeeded, and what is done after a commit, all of it in
-- the order in which it happened.
pub mod Runs
pub mod Atomic
use o_artiste.Prelude.{ℕ, ℤ, Bool, Option, List, [], ◌∷◌, ◌++◌, if◌then◌else◌}
use o_artiste.Booking.{Booking}
use o_artiste.Errors.{AppError, Result, ok, err, provider_failed, commit_failed}
use o_artiste.Store.{Db, Tx}

-- The ending of a reference, which tells the legs of one booking apart.
pub data Suffix : Type 0 where
  release_leg cxl_artist cxl_client reclass refund_leg : Suffix
  dispute_release dispute_refund dispute_split_artist dispute_split_client : Suffix
  payout_leg : Suffix

pub data Direction : Type 0 where
  -- `escrowpay.release`: out of the escrow into the platform's wallet
  to_wallet : Direction
  -- `escrowpay.refund`: out of the escrow to the client
  to_client : Direction
  -- `escrowpay.refund` with `source: 'wallet_available'`
  wallet_to_client : Direction
  -- `escrowpay.walletPayout`: out of the platform's wallet to an artist's account
  wallet_to_artist : Direction

-- A call of the provider. The reference is the booking's own with the leg; it is the provider's
-- idempotency key.
pub record Instruction : Type 0 where
  pub direction : Direction
  pub transaction_id : Option ℕ
  pub reference : ℕ
  pub suffix : Suffix
  pub amount_kobo : ℕ

-- The call for a leg of a booking.
abbrev pub leg_of : Booking → Direction → Suffix → ℕ → Instruction
leg_of b direction suffix amount_kobo = record {
  direction = direction;
  transaction_id = b.escrow_id;
  reference = b.escrow_reference;
  suffix = suffix;
  amount_kobo = amount_kobo;
}

-- Calls of the provider that move no money, and what is done once a transaction has committed.
pub data Effect : Type 0 where
  -- `createEscrow`: reference, amount, payer and beneficiary
  open_escrow : ℕ → ℕ → ℕ → ℕ → Effect
  -- `activateEscrow` and `createCheckoutSession` of a transaction
  activate_escrow open_checkout : ℕ → Effect
  -- `cancel` of autoReleaseJob
  cancel_auto_release : ℕ → Effect
  -- notificationService: booking, the client's amount, the artist's amount
  cancellation_settled : ℕ → ℕ → ℤ → Effect
  dispute_resolved_notice : ℕ → ℕ → ℤ → Effect
  dispute_opened_notice dispute_evidence_notice : ℕ → Effect
  payout_sent_notice : ℕ → ℤ → Option ℕ → Effect
  -- `createPayoutAccount` of payoutService: party, bank code, account number
  register_account : ℕ → List ℕ → List ℕ → Effect
  -- `queueRetry` of webhookService
  queue_retry : ℕ → Effect

pub record World : Type 0 where
  pub db : Db
  pub instructed : List Instruction
  pub effects : List Effect

-- The instant of a request, which calls the provider takes, and which transactions commit; and what
-- the provider gives a payout: the wallet it comes out of and its id, where it gives them.
pub record Env : Type 0 where
  pub now : ℕ
  pub accepts : Instruction → Bool
  pub commits : Db → Bool
  pub wallet : Option ℕ
  pub payout_given : Option ℕ

-- A request: what has been done stays done when a later step throws.
abbrev pub Action {ℓ} : Type ℓ → Type ℓ
Action A = World → Result A × World

-- The rest of a request, unless it has thrown.
abbrev pub after {ℓ κ} :
    {S : Type ℓ} {T : Type κ} → Result S × World → (S → Action T) → Result T × World
after (err e, w) next = (err e, w)
after (ok s, w) next = next s w

infixl 5 ◌>>=◌ ◌>>◌
unfoldable pub ◌>>=◌ {ℓ κ} : {S : Type ℓ} {T : Type κ} → Action S → (S → Action T) → Action T
(act >>= next) w = after (act w) next

abbrev pub ◌>>◌ {ℓ} : {T : Type ℓ} → Action (Unit {0}) → Action T → Action T
act >> rest = act >>= λ _. rest

unfoldable pub done {ℓ} : {T : Type ℓ} → T → Action T
done t w = (ok t, w)

-- A step that only computes.
unfoldable pub check {ℓ} : {T : Type ℓ} → Result T → Action T
check r w = (r, w)

-- A query outside a transaction.
unfoldable pub query {ℓ} : {T : Type ℓ} → (Db → Result T) → Action T
query read w = (read w.db, w)

unfoldable pub instruct : Env → Instruction → Action (Unit {0})
instruct env i w =
    if env.accepts i
    then (ok tt, record w { instructed = w.instructed ++ i ∷ [] })
    else (err provider_failed, w)

unfoldable pub instruct_if : Bool → Env → Instruction → Action (Unit {0})
unfolding instruct
instruct_if b env i w = if b then instruct env i w else (ok tt, w)

unfoldable pub emit : Effect → Action (Unit {0})
emit e w = (ok tt, record w { effects = w.effects ++ e ∷ [] })

-- The database takes what a transaction has written, or nothing of it.
abbrev pub settle {ℓ} : {T : Type ℓ} → Env → World → Result (T × Db) → Result T × World
settle env w (err e) = (err e, w)
settle env w (ok r) =
    if env.commits r.1 then (ok r.0, record w { db = r.1 }) else (err commit_failed, w)

-- `prisma.$transaction`
unfoldable pub transact {ℓ} : {T : Type ℓ} → Env → Tx T → Action T
transact env tx w = settle env w (tx w.db)

abbrev pub caught {ℓ} : {T : Type ℓ} → Result T × World → (AppError → Action T) → Result T × World
caught (err e, v) handler = handler e v
caught (ok t, v) handler = (ok t, v)

-- `try` and `catch`: what the first request has done stays done.
unfoldable pub rescue {ℓ} : {T : Type ℓ} → Action T → (AppError → Action T) → Action T
rescue act handler w = caught (act w) handler
