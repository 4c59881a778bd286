-- ===== src/Payouts.antt =====
-- apps/backend/src/services/payoutService.ts: the bank account that an artist registers, and the
-- payout of a booking out of the platform's wallet. A text is the list of its ASCII codes. What the
-- provider answers comes with the request; the wallet's id is looked up at each payout here, where
-- the source keeps it for the life of the process.
pub mod Outcomes
pub mod Failures
pub mod Progress
use o_artiste.Prelude.{
  ℕ, ℤ, pos, ltb, leb, ltb_ℤ, pos_part, ◌+◌, ◌-◌, ◌==◌, if◌then◌else◌, Bool, true, false, not, ◌&&◌,
  ◌||◌, Option, none, some, is_some, List, [], ◌∷◌, ◌++◌, keep, length,
}
use o_artiste.Schema.{
  Party, BookingState, released, cancelled, resolved, artist, client, platform, provider,
}
use o_artiste.Errors.{
  AppError, Result, ok, err, throw_if, booking_not_found, no_artist_profile, account_number_invalid,
  bank_missing, account_unverified, no_payout_account_returned, no_wallet, provider_failed,
}
use o_artiste.Booking.{Booking, PayoutFailure, no_account_on_file, provider_error, reported_failed}
use o_artiste.Ledger.{LedgerEntry}
use o_artiste.Store.{Db, Tx, User, Artist, Cancellation, put, find_booking, amend}
use o_artiste.Request.{
  leg_of, Instruction, payout_leg, wallet_to_artist, Effect, payout_sent_notice, register_account,
  World, Env, Action, ◌>>=◌, ◌>>◌, done, check, query, instruct, emit, transact, rescue,
}

-- `NUBAN_LENGTH`
abbrev pub nuban_length : ℕ
nuban_length = 10

-- `\s` on ASCII
abbrev is_space : ℕ → Bool
is_space c = c == 32 || (leb 9 c && leb c 13)

abbrev pub is_digit : ℕ → Bool
is_digit c = leb 48 c && leb c 57

abbrev pub all_digits : List ℕ → Bool
all_digits [] = true
all_digits (c ∷ cs) = is_digit c && all_digits cs

-- `String(accountNumber ?? '').replace(/\s/g, '')`
abbrev pub without_spaces : List ℕ → List ℕ
without_spaces = keep (λ c. not (is_space c))

unfoldable pub validate_account_number : List ℕ → Result (List ℕ)
validate_account_number input =
    let digits = without_spaces input in
    if not (all_digits digits) || not (length digits == nuban_length)
    then err account_number_invalid
    else ok digits

-- `digits.slice(-4)`
abbrev last_from : ℕ → List ℕ → List ℕ
last_from n [] = []
last_from n (c ∷ cs) = let rest = last_from n cs in if leb (length (c ∷ cs)) n then c ∷ cs else rest

abbrev pub last_four : List ℕ → List ℕ
last_four = last_from 4

abbrev find_artist : ℕ → Db → Result (Artist × User)
find_artist user_id db = elim (db.artists user_id) [
  | none ↦ err no_artist_profile
  | some a ↦ elim (db.users user_id) [ none ↦ err no_artist_profile | some u ↦ ok (a, u) ]
]

abbrev party_of : User → Result ℕ
party_of u = elim u.escrow_party_id [ none ↦ err account_unverified | some p ↦ ok p ]

-- A call of the provider: no answer when it throws.
abbrev answered : Option (Option ℕ) → Action (Option ℕ)
answered none w = (err provider_failed, w)
answered (some id) w = (ok id, w)

abbrev returned_account : Option ℕ → Result ℕ
returned_account none = err no_payout_account_returned
returned_account (some id) = ok id

-- The columns of the account; the number itself is not kept.
abbrev pub with_account : ℕ → List ℕ → Artist → Artist
with_account account_id digits a = record a {
  payout_account_id = some account_id;
  payout_account_last4 = some (last_four digits);
}

abbrev account_tx : Artist → Tx Artist
account_tx a db = ok (a, record db { artists = put a.user_id a db.artists })

-- `created` is what the provider answers: nothing when it throws, else the id if it gives one.
unfoldable pub register_payout_account :
    Env → Option (Option ℕ) → ℕ → List ℕ → List ℕ → Action Artist
unfolding validate_account_number
register_payout_account env created artist_user_id bank_code account_number = do
  row ← query (find_artist artist_user_id)
  digits ← check (validate_account_number account_number)
  check (throw_if (length (without_spaces bank_code) == 0) bank_missing)
  party ← check (party_of row.1)
  answer ← answered created
  emit (register_account party bank_code digits)
  account_id ← check (returned_account answer)
  transact env (account_tx (with_account account_id digits row.0))

pub data PayoutResult : Type 0 where
  already_paid : ℕ → PayoutResult
  nothing_to_pay no_payout_account not_paid : PayoutResult
  paid : Option ℕ → PayoutResult

abbrev pub failure_data : PayoutFailure → Booking → Booking
failure_data reason b = record b { payout_failure_reason = some reason }

abbrev pub paid_data : ℕ → Option ℕ → Booking → Booking
paid_data now payout_id b = record b {
  payout_id = payout_id;
  paid_out_at = some now;
  payout_failure_reason = none;
}

abbrev pub wallet_of : Option ℕ → Result ℕ
wallet_of none = err no_wallet
wallet_of (some id) = ok id

-- The `try` of `payOut`: the wallet, the transfer, the row and the notice.
unfoldable pub send_payout :
    Env → Option ℕ → Option ℕ → Booking → ℤ → Option ℕ → Action PayoutResult
send_payout env wallet payout_id b amount_kobo commission_kobo = do
  from ← check (wallet_of wallet)
  instruct env (leg_of b wallet_to_artist payout_leg (pos_part amount_kobo))
  updated ← transact env (amend b.id (paid_data env.now payout_id))
  emit (payout_sent_notice b.id amount_kobo commission_kobo)
  done (paid payout_id)

-- `recordFailure` and the answer that goes with it.
unfoldable pub record_failure : Env → Booking → PayoutFailure → PayoutResult → Action PayoutResult
record_failure env b reason result = do
  updated ← transact env (amend b.id (failure_data reason))
  done result

-- `booking.artist.payoutAccountId`
abbrev pub account_of : Option Artist → Option ℕ
account_of none = none
account_of (some a) = a.payout_account_id

unfoldable pub pay_unpaid : Env → Option ℕ → Option ℕ → Booking → ℤ → Option ℕ → Action PayoutResult
unfolding send_payout record_failure
pay_unpaid env wallet payout_id b amount_kobo commission_kobo = do
  row ← query (λ db. ok (db.artists b.artist_user_id))
  elim (account_of row) [
    | none ↦ record_failure env b no_account_on_file no_payout_account
    | some account_id ↦
        rescue (send_payout env wallet payout_id b amount_kobo commission_kobo)
          (λ e. record_failure env b provider_error not_paid)
  ]

-- `payOut`; `wallet` and `payout_id` are the ids that the provider gives, where it gives them.
unfoldable pub pay_out_booking : Env → Option ℕ → Option ℕ → ℕ → ℤ → Option ℕ → Action PayoutResult
unfolding pay_unpaid
pay_out_booking env wallet payout_id booking_id amount_kobo commission_kobo = do
  b ← query (find_booking booking_id)
  elim b.payout_id [
    | some paid_before ↦ done (already_paid paid_before)
    | none ↦ elim (ltb_ℤ (pos 0) amount_kobo) [
      | false ↦ done nothing_to_pay
      | true ↦ pay_unpaid env wallet payout_id b amount_kobo commission_kobo
    ]
  ]

-- `payOut` with what the provider gives at the request.
unfoldable pub pay_out : Env → ℕ → ℤ → Option ℕ → Action PayoutResult
unfolding pay_out_booking
pay_out env booking_id amount_kobo commission_kobo =
    pay_out_booking env env.wallet env.payout_given booking_id amount_kobo commission_kobo

-- `payout.paid`
abbrev pub went_out : PayoutResult → Bool
went_out (already_paid id) = false
went_out nothing_to_pay = false
went_out no_payout_account = false
went_out not_paid = false
went_out (paid id) = true

abbrev is_artist_party : Party → Bool
is_artist_party client = false
is_artist_party artist = true
is_artist_party platform = false
is_artist_party provider = false

abbrev some_compensated : ℕ → List Cancellation → Bool
some_compensated booking_id [] = false
some_compensated booking_id (c ∷ cs) =
    (c.booking_id == booking_id && ltb_ℤ (pos 0) c.artist_compensation_kobo)
    || some_compensated booking_id cs

abbrev some_credit : ℕ → List LedgerEntry → Bool
some_credit booking_id [] = false
some_credit booking_id (e ∷ es) =
    (e.booking_id == booking_id && (is_artist_party e.party && ltb_ℤ (pos 0) e.amount_kobo))
    || some_credit booking_id es

-- The three ways in which an artist is owed a payout.
abbrev owed_by_state : Db → ℕ → BookingState → Bool
owed_by_state db booking_id released = true
owed_by_state db booking_id cancelled = some_compensated booking_id db.cancellations
owed_by_state db booking_id resolved = some_credit booking_id db.ledger
owed_by_state db booking_id s = false

unfoldable pub is_awaiting : Db → Booking → Bool
is_awaiting db b = not (is_some b.paid_out_at) && owed_by_state db b.id b.state

-- The `where` of `awaitingPayout` over the rows of the table.
unfoldable pub awaiting_from : List ℕ → Db → List Booking
awaiting_from [] db = []
awaiting_from (k ∷ ks) db =
    let rest = awaiting_from ks db in
    elim (db.bookings k) [ none ↦ rest | some b ↦ if is_awaiting db b then b ∷ rest else rest ]

unfoldable pub awaiting_payout : Db → List Booking
unfolding awaiting_from
awaiting_payout db = awaiting_from db.booking_ids db
