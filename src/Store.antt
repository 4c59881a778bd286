-- ===== src/Store.antt =====
-- The tables, in `Rows`, and `transition` of apps/backend/src/services/bookingService.ts as a step
-- of a transaction. A transaction is a function from the database to a result: an error leaves no
-- database behind, and so nothing of it is kept. The database numbers a row of a table by its place.
mod Rows
pub use Rows.*
use o_artiste.Prelude.{
  ℕ, ℤ, ◌==◌, if◌then◌else◌, Bool, Option, none, some, List, [], ◌∷◌, ◌++◌, length,
}
use o_artiste.Schema.{
  BookingState, DisputeState, LiabilityStatus, outstanding, FeeBearer, Standing, StrikeTrigger,
}
use o_artiste.Errors.{Result, ok, err, ◌>>=◌, ◌>>◌, booking_not_found}
use o_artiste.Tiers.{Tier}
use o_artiste.Booking.{Booking, assert_transition}
use o_artiste.Ledger.{Ledger}

-- A step of a transaction that gives a value.
abbrev pub Tx {ℓ} : Type ℓ → Type ℓ
Tx A = Db → Result (A × Db)

-- A table as a function of the id, with one row replaced.
abbrev pub put {ℓ} : {A : Type ℓ} → ℕ → A → (ℕ → Option A) → ℕ → Option A
put k row table j = if j == k then some row else table j

-- `findUnique` on a booking that must exist
unfoldable pub find_booking : ℕ → Db → Result Booking
find_booking booking_id db = elim (db.bookings booking_id) [
  | none ↦ err booking_not_found
  | some b ↦ ok b
]

-- `findFirst` on the bookings
abbrev pub find_first : (Booking → Bool) → List ℕ → Db → Option Booking
find_first p [] db = none
find_first p (k ∷ ks) db =
    let rest = find_first p ks db in
    elim (db.bookings k) [ none ↦ rest | some b ↦ if p b then some b else rest ]

-- `booking.update` on a booking that exists
unfoldable pub amend : ℕ → (Booking → Booking) → Tx Booking
unfolding find_booking
amend booking_id data_of db = elim (find_booking booking_id db) [
  | err e ↦ err e
  | ok b ↦ ok (data_of b, record db { bookings = put booking_id (data_of b) db.bookings })
]

-- `transition` inside a transaction. The condition of its update, that the state is the one just
-- read, holds here, since a step of a transaction runs whole; `Booking.Race` has it when it fails.
unfoldable pub transition : ℕ → BookingState → (Booking → Booking) → Tx Booking
unfolding find_booking
transition booking_id to data_of db = do
  b ← find_booking booking_id db
  assert_transition b.state to
  let moved = data_of (record b { state = to })
  let passage : Passage = record {
    booking_id = booking_id;
    from_state = some b.state;
    to_state = to;
  }
  ok (
    moved,
    record db {
      bookings = put booking_id moved db.bookings;
      passages = db.passages ++ passage ∷ [];
    },
  )

-- `data` of a transition: nothing more than the state.
abbrev pub no_data : Booking → Booking
no_data b = b

-- A step on the ledger as a step on the database.
unfoldable pub on_ledger {ℓ} : {A : Type ℓ} → (Ledger → Result (A × Ledger)) → Tx A
on_ledger step db = step db.ledger >>= λ w. ok (w.0, record db { ledger = w.1 })

-- `feeLiability.create`, under the test that there is something to owe
unfoldable pub create_liability : ℕ → ℕ → ℕ → Db → Db
create_liability artist_user_id booking_id amount_kobo db =
    let row : FeeLiability = record {
      id = length db.liabilities;
      artist_user_id = artist_user_id;
      origin_booking_id = booking_id;
      amount_kobo = amount_kobo;
      status = outstanding;
      settled_against = none;
    } in
    if amount_kobo == 0 then db else record db { liabilities = db.liabilities ++ row ∷ [] }

-- `recordAudit`
abbrev pub record_audit : Option ℕ → AuditAction → ℕ → Db → Db
record_audit actor action entity_id db =
    let row : Audit = record { actor_user_id = actor; action = action; entity_id = entity_id } in
    record db { audits = db.audits ++ row ∷ [] }
