-- ===== src/Enforcement.antt =====
-- apps/backend/src/services/enforcementService.ts: the ladders that turn the weight of a user's
-- active strikes into a standing. Messages to users and the time of an override are left out.
pub mod Ladders
use o_artiste.Prelude.{
  ℕ, ℤ, pos, ltb_ℤ, ltb, leb, ◌+◌, ◌==◌, if◌then◌else◌, Bool, true, false, not, ◌&&◌, ◌||◌, Option,
  none, some, is_some, List, [], ◌∷◌, keep, map, find, sort_by, latest_from,
}
use o_artiste.Schema.{Standing, good, warned, restricted, suspended, removed}
use o_artiste.Errors.{
  Result, ok, err, ◌>>=◌, ◌>>◌, throw_if, no_rules, weight_too_small, rung_to_good,
  rung_without_party, rung_without_lead, lead_time_too_short, override_reason_missing,
  strike_not_found, strike_overridden_before,
}
use o_artiste.Tiers.{Field, whole, days_before_event}
use o_artiste.Store.{
  Db, Tx, User, Strike, EnforcementRule, EnforcementParty, artist_ladder, client_ladder, put,
  record_audit, account_standing_changed, strike_overridden,
}

abbrev party_eq : EnforcementParty → EnforcementParty → Bool
party_eq artist_ladder artist_ladder = true
party_eq artist_ladder client_ladder = false
party_eq client_ladder artist_ladder = false
party_eq client_ladder client_ladder = true

-- `SEVERITY`
abbrev pub severity : Standing → ℕ
severity good = 0
severity warned = 1
severity restricted = 2
severity suspended = 3
severity removed = 4

abbrev default_rung : EnforcementParty → ℕ → Standing → Option ℤ → EnforcementRule
default_rung party min_weight standing min_lead_days = record {
  version_id = 0;
  effective_from = 0;
  party = party;
  min_weight = min_weight;
  standing = standing;
  min_lead_days = min_lead_days;
}

abbrev pub default_ladders : List EnforcementRule
default_ladders =
    default_rung artist_ladder 3 suspended none
    ∷ default_rung artist_ladder 6 removed none
    ∷ default_rung client_ladder 1 warned none
    ∷ default_rung client_ladder 3 restricted (some (pos 14))
    ∷ default_rung client_ladder 5 suspended none
    ∷ []

-- The ladders in force at an instant.
unfoldable pub resolve_ladders : ℕ → Db → List EnforcementRule
resolve_ladders at db = elim (latest_from (λ r. r.effective_from) at none db.enforcement_rules) [
  | none ↦ default_ladders
  | some latest ↦
      sort_by (λ r. r.min_weight)
        (keep (λ r. r.version_id == latest.version_id) db.enforcement_rules)
]

-- The test of `rungFor` on one rung.
abbrev pub matches : EnforcementParty → ℕ → EnforcementRule → Bool
matches party weight r = party_eq r.party party && leb r.min_weight weight

-- The `reduce` of `rungFor`, `worst` being what it has reached.
unfoldable pub harshest : EnforcementRule → List EnforcementRule → EnforcementRule
harshest worst [] = worst
harshest worst (r ∷ rs) =
    harshest (if ltb (severity worst.standing) (severity r.standing) then r else worst) rs

abbrev pub harshest_of : List EnforcementRule → Option EnforcementRule
harshest_of [] = none
harshest_of (r ∷ rs) = some (harshest r rs)

unfoldable pub rung_for : List EnforcementRule → EnforcementParty → ℕ → Option EnforcementRule
unfolding harshest
rung_for rules party weight = harshest_of (keep (matches party weight) rules)

abbrev weights : List Strike → ℕ
weights [] = 0
weights (s ∷ ss) = s.weight + weights ss

-- The sum of the weights of a user's active strikes.
unfoldable pub active_weight : ℕ → Db → ℕ
active_weight user_id db = weights (keep (λ s. s.user_id == user_id && s.active) db.strikes)

abbrev pub is_restricted : Standing → Bool
is_restricted s = severity s == severity restricted

abbrev pub set_standing : Standing → Option ℤ → User → User
set_standing standing min_lead_days u = record u {
  account_standing = standing;
  restricted_min_lead_days = if is_restricted standing then min_lead_days else none;
}

-- `applyStanding`: it gives no change, or the standing before and after.
unfoldable pub apply_standing : ℕ → EnforcementParty → ℕ → Db → Option (Standing × Standing) × Db
unfolding resolve_ladders rung_for active_weight
apply_standing user_id party at db = elim (db.users user_id) [
  | none ↦ (none, db)
  | some u ↦ elim (rung_for (resolve_ladders at db) party (active_weight user_id db)) [
    | none ↦ (none, db)
    | some rung ↦
        if leb (severity rung.standing) (severity u.account_standing)
        then (none, db)
        else let users = put user_id (set_standing rung.standing rung.min_lead_days u) db.users in
          (
            some (u.account_standing, rung.standing),
            record_audit none account_standing_changed user_id (record db { users = users }),
          )
  ]
]

abbrev pub ladder_of : User → EnforcementParty
ladder_of u = if u.is_artist then artist_ladder else client_ladder

-- `assertWithinLeadTime`
unfoldable pub assert_within_lead_time : User → ℕ → ℕ → Result (Unit {0})
unfolding days_before_event
assert_within_lead_time u event_date now =
    if not (is_restricted u.account_standing) then ok tt else elim u.restricted_min_lead_days [
      | none ↦ ok tt
      | some min_days ↦
          throw_if (ltb_ℤ (days_before_event event_date now) min_days) lead_time_too_short
    ]

abbrev deactivate : ℕ → Strike → Strike
deactivate strike_id s = if s.id == strike_id then record s { active = false } else s

abbrev standing_of : Option EnforcementRule → Standing
standing_of none = good
standing_of (some rung) = rung.standing

abbrev lead_of : Option EnforcementRule → Option ℤ
lead_of none = none
lead_of (some rung) = rung.min_lead_days

-- `reviewStrike`: the standing afterwards and the weight that remains.
unfoldable pub review_strike : ℕ → ℕ → Bool → ℕ → Tx (Standing × ℕ)
unfolding resolve_ladders rung_for active_weight
review_strike strike_id actor_user_id has_reason now db = do
  throw_if (not has_reason) override_reason_missing
  elim (find (λ s. s.id == strike_id) db.strikes) [
    | none ↦ err strike_not_found
    | some strike ↦ elim (db.users strike.user_id) [
      | none ↦ err strike_not_found
      | some u ↦ do
        throw_if (not strike.active) strike_overridden_before
        let db1 = record db { strikes = map (deactivate strike_id) db.strikes }
        let weight = active_weight strike.user_id db1
        let rung = rung_for (resolve_ladders now db1) (ladder_of u) weight
        let users = put strike.user_id (set_standing (standing_of rung) (lead_of rung) u) db1.users
        ok (
          (standing_of rung, weight),
          record_audit (some actor_user_id) strike_overridden strike_id
              (record db1 { users = users }),
        )
    ]
  ]

-- `EnforcementRuleInput` as it arrives: no party where the word is another.
pub record RungInput : Type 0 where
  pub party : Option EnforcementParty
  pub min_weight : Field
  pub standing : Standing
  pub min_lead_days : Field

-- `!Number.isInteger(rule.minWeight) || rule.minWeight < 1`, denied
abbrev pub is_weight : Field → Bool
is_weight (whole (pos n)) = ltb 0 n
is_weight f = false

-- `Number.isInteger(rule.minLeadDays)`
abbrev pub is_whole : Field → Bool
is_whole (whole z) = true
is_whole f = false

unfoldable pub validate_rung : RungInput → Result (Unit {0})
validate_rung r = do
  throw_if (not (is_some r.party)) rung_without_party
  throw_if (not (is_weight r.min_weight)) weight_too_small
  throw_if (severity r.standing == 0) rung_to_good
  throw_if (is_restricted r.standing && not (is_whole r.min_lead_days)) rung_without_lead

abbrev pub validate_each : List RungInput → Result (Unit {0})
validate_each [] = ok tt
validate_each (r ∷ rs) = validate_rung r >> validate_each rs

unfoldable pub validate_ladders : List RungInput → Result (Unit {0})
validate_ladders [] = err no_rules
validate_ladders (r ∷ rs) = validate_each (r ∷ rs)
