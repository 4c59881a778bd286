-- ===== src/Tiers.antt =====
-- apps/backend/src/services/cancellationTierService.ts (the validation of a tier set) and
-- cancellationService.ts (which band applies to a cancellation). Bands and rates are numbers of
-- days and basis points; the fields of a row that comes in can be anything, see `Field`.
pub mod Sorting
pub mod Coverage
pub mod Complete
use o_artiste.Prelude.{
  ℕ, ℤ, pos, negsuc, suc, ◌+◌, ◌-◌, ◌/◌, ltb, leb, ltb_ℤ, ◌==◌, if◌then◌else◌, Bool, true, false,
  not, ◌&&◌, ◌||◌, Option, none, some, List, [], ◌∷◌, find, keep, length, sub_ℕ, map,
}
use o_artiste.Errors.{
  Result, ok, err, ◌>>=◌, ◌>>◌, throw_if, no_bands, band_start_not_whole, band_end_not_whole,
  band_end_before_start, bps_out_of_range, split_not_whole, no_open_band, several_open_bands,
  open_band_not_last, day_zero_uncovered, bands_overlap, bands_gap, no_terms, event_passed,
  no_band_covers,
}

-- A field of a row as it arrives: null or undefined, a whole number, or anything else.
pub data Field : Type 0 where
  absent : Field
  whole : ℤ → Field
  other : Field

pub record TierInput : Type 0 where
  pub min_days_before : Field
  pub max_days_before : Field
  pub client_refund_bps : Field
  pub artist_compensation_bps : Field

-- `CancellationTierSnapshot`; an absent upper limit is an open-ended band.
pub record Tier : Type 0 where
  pub min_days : ℕ
  pub max_days : Option ℕ
  pub client_bps : ℕ
  pub artist_bps : ℕ

-- `isNonNegativeInteger`
abbrev is_non_negative_integer : Field → Bool
is_non_negative_integer (whole (pos n)) = true
is_non_negative_integer _ = false

-- The number that a field holds, once it is known to be a non-negative one.
abbrev number : Field → ℕ
number (whole (pos n)) = n
number _ = 0

abbrev pub limit : Field → Option ℕ
limit absent = none
limit f = some (number f)

abbrev is_absent : Field → Bool
is_absent absent = true
is_absent _ = false

abbrev total_bps : ℕ
total_bps = 10_000

-- The row as the numbers that it holds.
unfoldable pub tier_of : TierInput → Tier
tier_of t = record {
  min_days = number t.min_days_before;
  max_days = limit t.max_days_before;
  client_bps = number t.client_refund_bps;
  artist_bps = number t.artist_compensation_bps;
}

abbrev valid_bps : Field → Bool
valid_bps f = is_non_negative_integer f && leb (number f) total_bps

unfoldable pub validate_row : TierInput → Result (Unit {0})
validate_row t = do
  throw_if (not (is_non_negative_integer t.min_days_before)) band_start_not_whole
  throw_if (not (is_absent t.max_days_before) && not (is_non_negative_integer t.max_days_before))
      band_end_not_whole
  throw_if
      (not (is_absent t.max_days_before)
        && ltb (number t.max_days_before) (number t.min_days_before))
      band_end_before_start
  throw_if (not (valid_bps t.client_refund_bps)) bps_out_of_range
  throw_if (not (valid_bps t.artist_compensation_bps)) bps_out_of_range
  throw_if (not (number t.client_refund_bps + number t.artist_compensation_bps == total_bps))
      split_not_whole

-- `tiers.forEach(validateRow)`
unfoldable pub validate_rows : List TierInput → Result (Unit {0})
validate_rows [] = ok tt
validate_rows (t ∷ ts) = do validate_row t; validate_rows ts

abbrev pub is_open_ended : Tier → Bool
is_open_ended t = elim t.max_days [ none ↦ true | some _ ↦ false ]

-- The sort by `minDaysBefore` is stable: a row goes behind those of the same start.
unfoldable pub insert_tier : Tier → List Tier → List Tier
insert_tier t [] = t ∷ []
insert_tier t (u ∷ us) =
    let rest = insert_tier t us in if ltb t.min_days u.min_days then t ∷ u ∷ us else u ∷ rest

unfoldable pub sort_from : List Tier → List Tier → List Tier
sort_from sorted [] = sorted
sort_from sorted (t ∷ ts) = sort_from (insert_tier t sorted) ts

-- The loop over neighbours, `previous` being `sorted[i - 1]`.
unfoldable pub check_neighbours : Tier → List Tier → Result (Unit {0})
check_neighbours previous [] = ok tt
check_neighbours previous (current ∷ rest) =
    let later = check_neighbours current rest in
    elim previous.max_days [
      | none ↦ err bands_overlap
      | some end ↦
          if leb current.min_days end
          then err bands_overlap
          else if ltb (end + 1) current.min_days
          then err bands_gap
          else later
    ]

-- `sorted[sorted.length - 1]`, of a list that begins with the given row
abbrev last_of : Tier → List Tier → Tier
last_of t [] = t
last_of t (u ∷ us) = last_of u us

-- The tests on the sorted rows.
unfoldable pub check_sorted : List Tier → Result (List Tier)
check_sorted [] = err no_bands
check_sorted (t ∷ ts) = do
  throw_if (not (is_open_ended (last_of t ts))) open_band_not_last
  throw_if (not (t.min_days == 0)) day_zero_uncovered
  check_neighbours t ts
  ok (t ∷ ts)

-- The number of open-ended rows.
abbrev open_count : List Tier → ℕ
open_count ts = length (keep is_open_ended ts)

unfoldable pub validate_tier_set : List TierInput → Result (List Tier)
validate_tier_set inputs = do
  throw_if (length inputs == 0) no_bands
  validate_rows inputs
  let tiers = map tier_of inputs
  throw_if (open_count tiers == 0) no_open_band
  throw_if (ltb 1 (open_count tiers)) several_open_bands
  check_sorted (sort_from [] tiers)

-- A row of the table as the validation reads it: its columns are whole numbers, the limit may be
-- null.
abbrev pub input_of : Tier → TierInput
input_of t = record {
  min_days_before = whole (pos t.min_days);
  max_days_before = elim t.max_days [ none ↦ absent | some m ↦ whole (pos m) ];
  client_refund_bps = whole (pos t.client_bps);
  artist_compensation_bps = whole (pos t.artist_bps);
}

-- cancellationService.ts

abbrev lagos_offset_ms : ℕ
lagos_offset_ms = 3_600_000

abbrev day_ms : ℕ
day_ms = 86_400_000

-- The date in Lagos, as a number of days since 1970; an instant is in milliseconds.
unfoldable pub lagos_day : ℕ → ℕ
lagos_day instant = (instant + lagos_offset_ms) / day_ms

unfoldable pub days_before_event : ℕ → ℕ → ℤ
unfolding lagos_day
days_before_event event_date at = sub_ℕ (lagos_day event_date) (lagos_day at)

-- Whether a band covers a day.
abbrev pub covers : ℕ → Tier → Bool
covers days t = leb t.min_days days && elim t.max_days [ none ↦ true | some end ↦ leb days end ]

unfoldable pub resolve_tier : List Tier → ℤ → Result Tier
resolve_tier [] days = err no_terms
resolve_tier (t ∷ ts) (negsuc n) = err event_passed
resolve_tier (t ∷ ts) (pos days) = elim (find (covers days) (t ∷ ts)) [
  | none ↦ err no_band_covers
  | some u ↦ ok u
]
