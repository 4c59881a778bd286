-- ===== src/CheckIn.antt =====
-- apps/backend/src/services/checkInService.ts: the code that the client gives to the artist at the
-- event, its window, and its redemption. A text is the list of its ASCII codes. The random code is
-- drawn outside the model, and the place where a code was redeemed is left out.
pub mod Codes
use o_artiste.Prelude.{
  ℕ, leb, ltb, ◌+◌, ◌-◌, ◌*◌, ◌==◌, if◌then◌else◌, Bool, true, false, not, ◌&&◌, ◌||◌, Option, none,
  some, is_some, List, [], ◌∷◌, ◌++◌, keep, map, length,
}
use o_artiste.Schema.{checked_in}
use o_artiste.Errors.{
  Result, ok, err, throw_if, booking_not_found, no_code_yet, code_used, not_eligible, wrong_code,
  code_too_early, code_expired,
}
use o_artiste.Booking.{Booking, can_transition}
use o_artiste.Store.{Db, Tx, find_booking, amend, transition}
use o_artiste.Request.{World, Env, Action, ◌>>=◌, ◌>>◌, done, check, query, transact}

abbrev pub code_length : ℕ
code_length = 8

abbrev hour_ms : ℕ
hour_ms = 3_600_000

abbrev window_before_hours : ℕ
window_before_hours = 2

abbrev window_after_hours : ℕ
window_after_hours = 12

abbrev between : ℕ → ℕ → ℕ → Bool
between low high c = leb low c && leb c high

-- `toUpperCase` on one character
abbrev pub upper : ℕ → ℕ
upper c = if between 97 122 c then c - 32 else c

-- `[0-9A-Z]`
abbrev pub is_code_char : ℕ → Bool
is_code_char c = between 48 57 c || between 65 90 c

unfoldable pub normalise_code : List ℕ → List ℕ
normalise_code input = keep is_code_char (map upper input)

-- A dash after the fourth character of a code of the usual length.
unfoldable pub format_code : List ℕ → List ℕ
format_code (a ∷ b ∷ c ∷ d ∷ e ∷ f ∷ g ∷ h ∷ []) = a ∷ b ∷ c ∷ d ∷ 45 ∷ e ∷ f ∷ g ∷ h ∷ []
format_code code = code

-- The first and the last instant at which a code of the event is valid.
unfoldable pub window_for : ℕ → ℕ → ℕ × ℕ
window_for event_date event_end_at =
    (event_date - window_before_hours * hour_ms, event_end_at + window_after_hours * hour_ms)

abbrev pub with_code : List ℕ → Booking → Booking
with_code code b =
    let window = window_for b.event_date b.event_end_at in
    record b {
      check_in_code = some code;
      check_in_code_valid_from = some window.0;
      check_in_code_valid_to = some window.1;
    }

-- `issueForBooking`, of the row that the caller has read; `code` is the one drawn.
unfoldable pub issue_for_booking : List ℕ → Booking → Tx (Unit {0})
issue_for_booking code b db = elim (is_some b.check_in_code) [
  | true ↦ ok (tt, db)
  | false ↦ elim (amend b.id (with_code code) db) [ err e ↦ err e | ok r ↦ ok (tt, r.1) ]
]

abbrev before : ℕ → Option ℕ → Bool
before now limit = elim limit [ none ↦ false | some at ↦ ltb now at ]

abbrev after : ℕ → Option ℕ → Bool
after now limit = elim limit [ none ↦ false | some at ↦ ltb at now ]

unfoldable pub validity_of : ℕ → Booking → Result (Unit {0})
validity_of now b =
    if is_some b.check_in
    then err code_used
    else if before now b.check_in_code_valid_from
    then err code_too_early
    else if after now b.check_in_code_valid_to
    then err code_expired
    else ok tt

abbrev same_codes : List ℕ → List ℕ → Bool
same_codes [] [] = true
same_codes [] (d ∷ ds) = false
same_codes (c ∷ cs) [] = false
same_codes (c ∷ cs) (d ∷ ds) = c == d && same_codes cs ds

unfoldable pub codes_match : List ℕ → List ℕ → Bool
unfolding normalise_code
codes_match stored supplied = same_codes (normalise_code supplied) (normalise_code stored)

-- `checkIn.create`; the unique constraint on the booking refuses a second row. The place of the row
-- is the instant that the database gives it.
abbrev pub check_in_data : ℕ → Booking → Booking
check_in_data now b = record b { check_in = some now }

abbrev pub redeem_tx : ℕ → ℕ → Tx Booking
redeem_tx now booking_id db = elim (find_booking booking_id db) [
  | err e ↦ err e
  | ok b ↦
      if is_some b.check_in
      then err code_used
      else transition b.id checked_in (check_in_data now) db
]

unfoldable pub redeem : Env → ℕ → ℕ → List ℕ → Action Booking
unfolding codes_match validity_of
redeem env booking_id artist_user_id code = do
  b ← query (find_booking booking_id)
  check (throw_if (not (b.artist_user_id == artist_user_id)) booking_not_found)
  stored ← check (elim b.check_in_code [ none ↦ err no_code_yet | some c ↦ ok c ])
  check (throw_if (is_some b.check_in) code_used)
  check (throw_if (not (can_transition b.state checked_in)) not_eligible)
  check (throw_if (not (codes_match stored code)) wrong_code)
  check (validity_of env.now b)
  transact env (redeem_tx env.now booking_id)
