-- ===== src/Versions.antt =====
-- Configuration that is published as versions and read as of an instant: commissionService.ts, the
-- versions of cancellationTierService.ts, and the settings of reputationService.ts. Who set a
-- version and the texts of reasons are left out; a version id is made outside, from the time and a
-- random number, and comes as an argument.
pub mod History
pub mod Newest
pub mod Terms
pub mod Rules
pub mod Published
use o_artiste.Prelude.{
  ℕ, pos, negsuc, ltb, ◌+◌, ◌==◌, if◌then◌else◌, Bool, true, false, Option, none, some, List, [],
  ◌∷◌, ◌++◌, keep, map, length, sort_by, latest_from,
}
use o_artiste.Errors.{
  Result, ok, err, commission_not_whole, commission_range, date_invalid, effective_in_past,
  no_tier_table, window_too_short, threshold_too_small,
}
use o_artiste.Tiers.{Field, whole, Tier, TierInput, validate_tier_set}
use o_artiste.Store.{
  Db, Tx, CommissionRate, TierRow, ReputationConfig, record_audit, commission_rate_changed,
  cancellation_tiers_changed, reputation_config_updated,
}
use o_artiste.Request.{Env, Action, ◌>>=◌, ◌>>◌, check, transact}

-- A date as it arrives: null or undefined, one that does not parse, or an instant in milliseconds.
pub data Instant : Type 0 where
  missing invalid : Instant
  date : ℕ → Instant

-- `validateEffectiveFrom`, of which the two services have the same copy.
unfoldable pub effective_from : ℕ → Instant → Result ℕ
effective_from now missing = ok now
effective_from now invalid = err date_invalid
effective_from now (date t) = if ltb (t + 1000) now then err effective_in_past else ok t

abbrev default_bps : ℕ
default_bps = 500

abbrev max_bps : ℕ
max_bps = 10_000

unfoldable pub validate_bps : Field → Result ℕ
validate_bps (whole (pos n)) = if ltb max_bps n then err commission_range else ok n
validate_bps (whole (negsuc n)) = err commission_range
validate_bps f = err commission_not_whole

-- `resolveCommissionRate`: the rate in force, and whether it is the default.
unfoldable pub resolve_commission_rate : ℕ → Db → ℕ × Bool
resolve_commission_rate at db =
    elim (latest_from (λ r. r.effective_from) at none db.commission_rates) [
      | none ↦ (default_bps, true)
      | some r ↦ (r.rate_basis_points, false)
    ]

abbrev pub rate_tx : ℕ → ℕ → ℕ → Tx CommissionRate
rate_tx bps from actor db =
    let row : CommissionRate = record {
      id = length db.commission_rates;
      effective_from = from;
      rate_basis_points = bps;
    } in
    ok (
      row,
      record_audit (some actor) commission_rate_changed row.id
          (record db { commission_rates = db.commission_rates ++ row ∷ [] }),
    )

unfoldable pub set_commission_rate : Env → Field → Instant → ℕ → Action CommissionRate
set_commission_rate env rate effective actor = do
  bps ← check (validate_bps rate)
  from ← check (effective_from env.now effective)
  transact env (rate_tx bps from actor)

-- `currentVersionId`
unfoldable pub current_version_id : ℕ → Db → Option ℕ
current_version_id at db = elim (latest_from (λ r. r.effective_from) at none db.tier_rows) [
  | none ↦ none
  | some r ↦ some r.version_id
]

-- The rows of a version, in the order of their first days.
abbrev pub tiers_of : ℕ → Db → List Tier
tiers_of version db =
    sort_by (λ t. t.min_days) (map (λ r. r.band) (keep (λ r. r.version_id == version) db.tier_rows))

unfoldable pub resolve_tier_set : ℕ → Db → Result (ℕ × List Tier)
unfolding current_version_id
resolve_tier_set at db = elim (current_version_id at db) [
  | none ↦ err no_tier_table
  | some version ↦ ok (version, tiers_of version db)
]

-- `tierSetOrNull`
unfoldable pub tier_set_or_null : ℕ → Db → Result (Option (ℕ × List Tier))
unfolding current_version_id resolve_tier_set
tier_set_or_null at db = elim (current_version_id at db) [
  | none ↦ ok none
  | some version ↦ elim (resolve_tier_set at db) [ err e ↦ err e | ok set ↦ ok (some set) ]
]

abbrev pub tier_row : ℕ → ℕ → Tier → TierRow
tier_row version from t = record { version_id = version; effective_from = from; band = t }

abbrev pub tiers_tx : ℕ → List Tier → ℕ → ℕ → Tx (List Tier)
tiers_tx version tiers from actor db =
    let next = record db { tier_rows = db.tier_rows ++ map (tier_row version from) tiers } in
    ok (tiers_of version next, record_audit (some actor) cancellation_tiers_changed version next)

unfoldable pub set_cancellation_tiers : Env → ℕ → List TierInput → Instant → ℕ → Action (List Tier)
set_cancellation_tiers env version tiers effective actor = do
  validated ← check (validate_tier_set tiers)
  from ← check (effective_from env.now effective)
  transact env (tiers_tx version validated from actor)

abbrev pub default_window_months : ℕ
default_window_months = 12

abbrev pub default_min_bookings : ℕ
default_min_bookings = 5

-- `resolveConfig`: the months of the window and the number of bookings.
unfoldable pub resolve_config : ℕ → Db → ℕ × ℕ
resolve_config at db = elim (latest_from (λ c. c.effective_from) at none db.reputation_configs) [
  | none ↦ (default_window_months, default_min_bookings)
  | some c ↦ (c.window_months, c.min_bookings)
]

-- `!Number.isInteger(x) || x < 1`
abbrev pub at_least_one : Field → Bool
at_least_one (whole (pos n)) = ltb 0 n
at_least_one f = false

abbrev pub count_of : Field → ℕ
count_of (whole (pos n)) = n
count_of f = 0

abbrev pub config_tx : ℕ → ℕ → ℕ → ℕ → Tx ReputationConfig
config_tx months bookings from actor db =
    let row : ReputationConfig = record {
      effective_from = from;
      window_months = months;
      min_bookings = bookings;
    } in
    ok (
      row,
      record_audit (some actor) reputation_config_updated (length db.reputation_configs)
          (record db { reputation_configs = db.reputation_configs ++ row ∷ [] }),
    )

-- The instant from which the settings hold is not validated here.
unfoldable pub set_reputation_config : Env → Field → Field → ℕ → ℕ → Action ReputationConfig
set_reputation_config env months bookings from actor = do
  check (if at_least_one months then ok tt else err window_too_short)
  check (if at_least_one bookings then ok tt else err threshold_too_small)
  transact env (config_tx (count_of months) (count_of bookings) from actor)
