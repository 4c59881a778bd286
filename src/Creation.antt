-- ===== src/Creation.antt =====
-- How a booking begins: `createBooking` of apps/backend/src/services/bookingService.ts. The id of the
-- row and the escrow reference are drawn outside and come as arguments; the place of the event is
-- a text and is left out.
pub mod Terms
pub mod Funding
pub mod Sound
use o_artiste.Prelude.{
  ℕ, pos, negsuc, ltb, leb, ◌+◌, ◌*◌, ◌==◌, if◌then◌else◌, Bool, true, false, not, ◌||◌, Option,
  none, some, is_some, List, [], ◌∷◌, ◌++◌, map,
}
use o_artiste.Schema.{
  pending_payment, Standing, suspended, removed, good, warned, restricted, VerificationStatus,
  unverified, pending, verified, retryable_failure, rejected,
}
use o_artiste.Errors.{
  Result, ok, err, throw_if, amount_not_whole, amount_range, event_date_invalid, event_in_past,
  event_end_invalid, event_ends_first, not_a_client, account_suspended, artist_unavailable,
  client_unverified, artist_unverified, artist_not_found, artist_not_taking, terms_not_valid,
  id_taken,
}
use o_artiste.Tiers.{Field, whole, Tier, validate_tier_set, input_of}
use o_artiste.Booking.{Booking}
use o_artiste.Store.{Db, Tx, User, Artist, Passage, put}
use o_artiste.Request.{Env, Action, ◌>>=◌, ◌>>◌, check, query, transact}
use o_artiste.Enforcement.{assert_within_lead_time}
use o_artiste.Versions.{Instant, missing, invalid, date, resolve_commission_rate, resolve_tier_set}

-- The two limits of apps/backend/src/lib/escrowpay.ts.
abbrev pub min_transaction_kobo : ℕ
min_transaction_kobo = 2_000_000

abbrev pub max_transaction_kobo : ℕ
max_transaction_kobo = 300_000_000

pub data Role : Type 0 where
  as_client as_artist : Role

abbrev is_barred : Standing → Bool
is_barred good = false
is_barred warned = false
is_barred restricted = false
is_barred suspended = true
is_barred removed = true

abbrev is_verified : VerificationStatus → Bool
is_verified unverified = false
is_verified pending = false
is_verified verified = true
is_verified retryable_failure = false
is_verified rejected = false

-- `assertCanTransact`
unfoldable pub assert_can_transact : User → Role → Result (Unit {0})
assert_can_transact u as_client =
    if is_barred u.account_standing
    then err account_suspended
    else throw_if (not (is_verified u.verification_status)) client_unverified
assert_can_transact u as_artist =
    if is_barred u.account_standing
    then err artist_unavailable
    else throw_if (not (is_verified u.verification_status)) artist_unverified

unfoldable pub validate_amount : Field → Result ℕ
validate_amount (whole (pos n)) =
    if ltb n min_transaction_kobo || ltb max_transaction_kobo n then err amount_range else ok n
validate_amount (whole (negsuc n)) = err amount_range
validate_amount f = err amount_not_whole

-- Three hours, in milliseconds.
abbrev default_length_ms : ℕ
default_length_ms = 3 * 3_600_000

abbrev end_of : ℕ → Instant → Result ℕ
end_of start missing = ok (start + default_length_ms)
end_of start invalid = err event_end_invalid
end_of start (date end) = ok end

-- The end, once the start is known to lie ahead.
abbrev window_from : ℕ → Result ℕ → Result (ℕ × ℕ)
window_from start (err e) = err e
window_from start (ok end) = if leb end start then err event_ends_first else ok (start, end)

-- `validateEventWindow`; a start that is missing is undefined, which parses to no date.
unfoldable pub validate_event_window : ℕ → Instant → Instant → Result (ℕ × ℕ)
validate_event_window now (date start) end =
    if leb start now then err event_in_past else window_from start (end_of start end)
validate_event_window now start end = err event_date_invalid

pub record NewBooking : Type 0 where
  pub client_user_id : ℕ
  pub artist_id : ℕ
  pub amount_kobo : Field
  pub event_date : Instant
  pub event_end_at : Instant

-- `if (!clientUser?.client) throw …`
abbrev pub find_client : ℕ → Db → Result User
find_client user_id db = elim (db.users user_id) [
  | none ↦ err not_a_client
  | some u ↦ if u.has_client then ok u else err not_a_client
]

-- The artist with its user.
abbrev pub find_artist : ℕ → Db → Result (Artist × User)
find_artist artist_id db = elim (db.artists artist_id) [
  | none ↦ err artist_not_found
  | some a ↦ elim (db.users a.user_id) [ none ↦ err artist_not_found | some u ↦ ok (a, u) ]
]

-- The `try` around the validation of the terms that are to be frozen.
unfoldable pub check_terms : List Tier → Result (Unit {0})
check_terms tiers = elim (validate_tier_set (map input_of tiers)) [
  | err e ↦ err terms_not_valid
  | ok ts ↦ ok tt
]

-- The row that a creation writes.
abbrev pub new_booking : ℕ → ℕ → User → User → ℕ → ℕ × ℕ → ℕ → List Tier → Booking
new_booking id reference client_user artist_user amount window rate tiers = record {
  id = id;
  client_user_id = client_user.id;
  artist_user_id = artist_user.id;
  client_party_id = client_user.escrow_party_id;
  artist_party_id = artist_user.escrow_party_id;
  amount_kobo = amount;
  commission_rate_bps_snapshot = rate;
  cancellation_tiers_snapshot = tiers;
  event_date = window.0;
  event_end_at = window.1;
  state = pending_payment;
  escrow_reference = reference;
  escrow_id = none;
  check_in = none;
  check_in_code = none;
  check_in_code_valid_from = none;
  check_in_code_valid_to = none;
  client_confirmed_at = none;
  artist_confirmed_at = none;
  client_no_show_claimed_at = none;
  auto_release_at = none;
  cancelled_at = none;
  refunded_at = none;
  released_at = none;
  acknowledged_at = none;
  payout_id = none;
  paid_out_at = none;
  payout_failure_reason = none;
}

-- `booking.create` with the first row of the history: an id that is taken is refused.
unfoldable pub insert_tx : Booking → Tx Booking
insert_tx b db =
    let passage : Passage = record {
      booking_id = b.id;
      from_state = none;
      to_state = pending_payment;
    } in
    elim (db.bookings b.id) [
      | some taken ↦ err id_taken
      | none ↦ ok (
        b,
        record db {
          bookings = put b.id b db.bookings;
          booking_ids = db.booking_ids ++ b.id ∷ [];
          passages = db.passages ++ passage ∷ [];
        },
      )
    ]

unfoldable pub create_booking : Env → ℕ → ℕ → NewBooking → Action Booking
unfolding check_terms insert_tx
create_booking env id reference asked = do
  amount ← check (validate_amount asked.amount_kobo)
  window ← check (validate_event_window env.now asked.event_date asked.event_end_at)
  client_user ← query (find_client asked.client_user_id)
  check (assert_can_transact client_user as_client)
  check (assert_within_lead_time client_user window.0 env.now)
  artist ← query (find_artist asked.artist_id)
  check (assert_can_transact artist.1 as_artist)
  check (throw_if (not artist.0.profile_complete) artist_not_taking)
  rate ← query (λ db. ok (resolve_commission_rate env.now db))
  terms ← query (resolve_tier_set env.now)
  check (check_terms terms.1)
  transact env
      (insert_tx (new_booking id reference client_user artist.1 amount window rate.0 terms.1))
