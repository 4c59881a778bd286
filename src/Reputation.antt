-- ===== src/Reputation.antt =====
-- apps/backend/src/services/reputationService.ts: the share of a party's concluded bookings that
-- it cancelled. `months_before` stands for `setMonth` of the language's dates: the instant a number
-- of months before another.
pub mod Listing
pub mod Rounding
use o_artiste.Prelude.{
  ℕ, zero, suc, ltb, leb, ◌+◌, ◌*◌, ◌/◌, ◌%◌, ◌^◌, ◌==◌, if◌then◌else◌, Bool, true, false, ◌&&◌,
  ◌||◌, Option, none, some, List, [], ◌∷◌, keep, map, find, length,
}
use o_artiste.Booking.{Booking}
use o_artiste.Store.{Db, Cancellation, CancellationInitiator, by_client, by_artist}
use o_artiste.Disputes.{is_closed}
use o_artiste.Versions.{resolve_config}

pub data ReputationParty : Type 0 where
  of_artist of_client : ReputationParty

pub record CancellationRate : Type 0 where
  pub rate : Option ℕ
  pub concluded : ℕ
  pub cancelled : ℕ
  pub min_bookings : ℕ
  pub window_months : ℕ
  pub below_threshold : Bool

abbrev within : ℕ → ℕ → Option ℕ → Bool
within since at none = false
within since at (some t) = leb since t && leb t at

-- A booking that reached an outcome inside the window.
unfoldable pub concluded_within : ℕ → ℕ → Booking → Bool
concluded_within since at b =
    is_closed b.state
    && (within since at b.cancelled_at
        || (within since at b.refunded_at || within since at b.released_at))

-- The rows of the table.
abbrev pub all_bookings : List ℕ → Db → List Booking
all_bookings [] db = []
all_bookings (k ∷ ks) db =
    let rest = all_bookings ks db in elim (db.bookings k) [ none ↦ rest | some b ↦ b ∷ rest ]

abbrev pub party_id : ReputationParty → Booking → ℕ
party_id of_artist b = b.artist_user_id
party_id of_client b = b.client_user_id

-- The relation `cancellation` of a booking.
abbrev pub cancellation_of : Db → Booking → Option Cancellation
cancellation_of db b = find (λ c. c.booking_id == b.id) db.cancellations

abbrev initiated : CancellationInitiator → ReputationParty → Bool
initiated by_artist of_artist = true
initiated by_artist of_client = false
initiated by_client of_artist = false
initiated by_client of_client = true

abbrev is_artist_side : ReputationParty → Bool
is_artist_side of_artist = true
is_artist_side of_client = false

unfoldable pub attributable_to : Db → ReputationParty → Booking → Bool
attributable_to db party b = elim (cancellation_of db b) [
  | none ↦ false
  | some c ↦
      if c.reclassified_as_artist_fault
      then is_artist_side party
      else initiated c.initiated_by party
]

-- The whole number nearest to a quotient, a tie going to the even one.
abbrev pub nearest_even : ℕ → ℕ → ℕ
nearest_even n d =
    let q = n / d in
    let twice = 2 * (n % d) in if ltb twice d || (twice == d && q % 2 == 0) then q else q + 1

-- Doublings of a number until it is no less than another: how many, and the number.
unfoldable pub scale : ℕ → ℕ → ℕ → ℕ × ℕ
scale zero c t = (0, c)
scale (suc fuel) c t = elim (leb t c) [
  | true ↦ (0, c)
  | false ↦ let rest = scale fuel (2 * c) t in (rest.0 + 1, rest.1)
]

-- `cancelled / total` as a double, for 0 < cancelled ≤ total: its 53 bits, and the power of two that
-- they are over.
abbrev pub quotient : ℕ → ℕ → ℕ × ℕ
quotient c t = let scaled = scale t c t in (nearest_even (scaled.1 * 2 ^ 52) t, 52 + scaled.0)

-- The bits of a double times a hundred, rounded to 53 again.
abbrev pub times_hundred : ℕ → ℕ
times_hundred m =
    let dropped = if ltb (100 * m) (2 ^ 59) then 2 ^ 6 else 2 ^ 7 in
    nearest_even (100 * m) dropped * dropped

-- `Math.round((cancelled / total) * 100)` in the doubles of the language, a half being rounded up
-- at the end.
unfoldable pub percent : ℕ → ℕ → ℕ
unfolding scale
percent zero total = 0
percent cancelled total =
    let (m, e) = quotient cancelled total in (2 * times_hundred m + 2 ^ e) / (2 * 2 ^ e)

abbrev pub concluded_of : ReputationParty → ℕ → ℕ → ℕ → Booking → Bool
concluded_of party user_id since at b = party_id party b == user_id && concluded_within since at b

-- The buckets of `ratesForArtists`: total and cancelled, by artist.
abbrev pub Buckets : Type 0
Buckets = ℕ → ℕ × ℕ

abbrev pub includes_id : ℕ → List ℕ → Bool
includes_id k [] = false
includes_id k (j ∷ js) = j == k || includes_id k js

abbrev count_into : Bool → ℕ × ℕ → ℕ × ℕ
count_into counts bucket = (bucket.0 + 1, if counts then bucket.1 + 1 else bucket.1)

-- The loop over the bookings; an artist that was not asked for has no bucket.
unfoldable pub fill : Db → List ℕ → List Booking → Buckets → Buckets
unfolding attributable_to
fill db ids [] buckets = buckets
fill db ids (b ∷ bs) buckets = fill db ids bs (λ k.
    if k == b.artist_user_id && includes_id k ids
    then count_into (attributable_to db of_artist b) (buckets k)
    else buckets k)

abbrev no_buckets : Buckets
no_buckets k = (0, 0)

abbrev rate_of_bucket : ℕ → ℕ × ℕ → Option ℕ
rate_of_bucket min_bookings bucket =
    if ltb bucket.0 min_bookings then none else some (percent bucket.1 bucket.0)

-- The bookings that the query of many artists finds.
abbrev concluded_of_any : List ℕ → ℕ → ℕ → Booking → Bool
concluded_of_any ids since at b = includes_id b.artist_user_id ids && concluded_within since at b

module _ (months_before : ℕ → ℕ → ℕ) where
  -- `rateFor`
  unfoldable pub rate_for : ℕ → ReputationParty → ℕ → Db → CancellationRate
  unfolding attributable_to percent
  rate_for user_id party at db =
      let config = resolve_config at db in
      let since = months_before config.0 at in
      let concluded = keep (concluded_of party user_id since at) (all_bookings db.booking_ids db) in
      let cancelled = length (keep (attributable_to db party) concluded) in
      if ltb (length concluded) config.1
      then record {
        rate = none;
        concluded = length concluded;
        cancelled = 0;
        min_bookings = config.1;
        window_months = config.0;
        below_threshold = true;
      }
      else record {
        rate = some (percent cancelled (length concluded));
        concluded = length concluded;
        cancelled = cancelled;
        min_bookings = config.1;
        window_months = config.0;
        below_threshold = false;
      }

  -- `ratesForArtists`
  unfoldable pub rates_for_artists : List ℕ → ℕ → Db → List (ℕ × Option ℕ)
  unfolding fill percent
  rates_for_artists ids at db =
      let config = resolve_config at db in
      let since = months_before config.0 at in
      let found = keep (concluded_of_any ids since at) (all_bookings db.booking_ids db) in
      let buckets = fill db ids found no_buckets in
      map (λ k. (k, rate_of_bucket config.1 (buckets k))) ids
