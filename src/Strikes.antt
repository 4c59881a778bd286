-- ===== src/Strikes.antt =====
-- apps/backend/src/services/strikeService.ts: the rules that price misconduct, and the accrual of a
-- strike inside the caller's transaction. Texts, and the messages after a commit, are left out.
pub mod Rules
use o_artiste.Prelude.{
  ℕ, ℤ, pos, negsuc, ltb, leb, ◌+◌, ◌==◌, if◌then◌else◌, Bool, true, false, not, ◌&&◌, ◌||◌, Option,
  none, some, is_some, List, [], ◌∷◌, ◌++◌, keep, find, length, sort_by, latest_from,
}
use o_artiste.Schema.{
  StrikeTrigger, artist_cancel_3_6_days, artist_cancel_1_2_days, artist_cancel_day_of,
  client_cancel_1_2_days, client_cancel_day_of, dispute_ruled_against, dispute_false_no_show_claim,
  trigger_code, trigger_eq,
}
use o_artiste.Errors.{
  Result, ok, err, ◌>>=◌, ◌>>◌, throw_if, no_rules, trigger_twice, weight_too_small, band_reversed,
  triggers_missing,
}
use o_artiste.Store.{
  Db, Tx, Strike, StrikeRule, CancellationInitiator, by_client, by_artist, record_audit,
  strike_accrued,
}
use o_artiste.Enforcement.{apply_standing, ladder_of}

abbrev priced : StrikeTrigger → ℕ → Option ℕ → Option ℕ → StrikeRule
priced trigger weight min_days_before max_days_before = record {
  version_id = 0;
  effective_from = 0;
  trigger = trigger;
  weight = weight;
  min_days_before = min_days_before;
  max_days_before = max_days_before;
}

-- `DEFAULT_RULES`
abbrev pub default_rules : List StrikeRule
default_rules =
    priced artist_cancel_3_6_days 1 (some 3) (some 6)
    ∷ priced artist_cancel_1_2_days 2 (some 1) (some 2)
    ∷ priced artist_cancel_day_of 3 (some 0) (some 0)
    ∷ priced client_cancel_1_2_days 1 (some 1) (some 2)
    ∷ priced client_cancel_day_of 1 (some 0) (some 0)
    ∷ priced dispute_ruled_against 1 none none
    ∷ priced dispute_false_no_show_claim 3 none none
    ∷ []

-- The rules in force at an instant.
unfoldable pub resolve_rules : ℕ → Db → List StrikeRule
resolve_rules at db = elim (latest_from (λ r. r.effective_from) at none db.strike_rules) [
  | none ↦ default_rules
  | some latest ↦
      sort_by (λ r. trigger_code r.trigger)
        (keep (λ r. r.version_id == latest.version_id) db.strike_rules)
]

-- `ARTIST_CANCELLATION_TRIGGERS` and `CLIENT_CANCELLATION_TRIGGERS`
abbrev pub cancellation_triggers : CancellationInitiator → List StrikeTrigger
cancellation_triggers by_artist =
    artist_cancel_3_6_days ∷ artist_cancel_1_2_days ∷ artist_cancel_day_of ∷ []
cancellation_triggers by_client = client_cancel_1_2_days ∷ client_cancel_day_of ∷ []

abbrev pub names : List StrikeTrigger → StrikeTrigger → Bool
names [] t = false
names (u ∷ us) t = trigger_eq u t || names us t

-- Whether the band of a rule holds a day; a rule without a first day holds none.
abbrev pub holds_day : ℤ → StrikeRule → Bool
holds_day (negsuc n) r = false
holds_day (pos days) r = elim r.min_days_before [
  | none ↦ false
  | some start ↦ leb start days && elim r.max_days_before [ none ↦ true | some end ↦ leb days end ]
]

unfoldable pub trigger_for_cancellation :
    List StrikeRule → CancellationInitiator → ℤ → Option StrikeRule
trigger_for_cancellation rules by days_before =
    find (λ r. names (cancellation_triggers by) r.trigger && holds_day days_before r) rules

abbrev pub dispute_trigger : Bool → StrikeTrigger
dispute_trigger true = dispute_false_no_show_claim
dispute_trigger false = dispute_ruled_against

unfoldable pub trigger_for_dispute : List StrikeRule → Bool → Option StrikeRule
trigger_for_dispute rules false_no_show_claim =
    find (λ r. trigger_eq r.trigger (dispute_trigger false_no_show_claim)) rules

-- `consequenceOfArtistCancellation`: the weight, whether it suspends, whether it publishes the rate.
unfoldable pub consequence_of_artist_cancellation : Option StrikeRule → ℕ × Bool × Bool
consequence_of_artist_cancellation none = (0, false, false)
consequence_of_artist_cancellation (some r) = elim r.trigger [
  | artist_cancel_day_of ↦ (r.weight, true, true)
  | artist_cancel_1_2_days ↦ (r.weight, false, true)
  | _ ↦ (r.weight, false, false)
]

-- The strike and its audit row.
abbrev pub with_strike : ℕ → StrikeRule → ℕ → Db → Db
with_strike user_id rule booking_id db =
    let strike : Strike = record {
      id = length db.strikes;
      user_id = user_id;
      trigger = rule.trigger;
      weight = rule.weight;
      booking_id = some booking_id;
      active = true;
    } in
    record_audit none strike_accrued strike.id (record db { strikes = db.strikes ++ strike ∷ [] })

-- `accrue`: the strike, its audit row, and the standing that follows from it.
unfoldable pub accrue : ℕ → StrikeRule → ℕ → ℕ → Db → Db
unfolding apply_standing
accrue user_id rule booking_id at db =
    let db1 = with_strike user_id rule booking_id db in
    elim (db1.users user_id) [
      | none ↦ db1
      | some u ↦ (apply_standing user_id (ladder_of u) at db1).1
    ]

abbrev pub accrue_if : Option StrikeRule → ℕ → ℕ → ℕ → Db → Db
accrue_if none user_id booking_id at db = db
accrue_if (some rule) user_id booking_id at db = accrue user_id rule booking_id at db

unfoldable pub accrue_for_cancellation : ℕ → CancellationInitiator → ℤ → ℕ → ℕ → Db → Db
unfolding accrue resolve_rules trigger_for_cancellation
accrue_for_cancellation user_id by days_before booking_id at db =
    accrue_if (trigger_for_cancellation (resolve_rules at db) by days_before) user_id booking_id at
      db

unfoldable pub accrue_for_dispute : ℕ → Bool → ℕ → ℕ → Db → Db
unfolding accrue resolve_rules trigger_for_dispute
accrue_for_dispute user_id false_no_show_claim booking_id at db =
    accrue_if (trigger_for_dispute (resolve_rules at db) false_no_show_claim) user_id booking_id at
      db

-- The tests on one rule; `seen` are the triggers before it.
unfoldable pub validate_rule : List StrikeTrigger → StrikeRule → Result (Unit {0})
validate_rule seen r = do
  throw_if (names seen r.trigger) trigger_twice
  throw_if (ltb r.weight 1) weight_too_small
  elim r.min_days_before [
    | none ↦ ok tt
    | some start ↦ elim r.max_days_before [
      | none ↦ ok tt
      | some end ↦ throw_if (ltb end start) band_reversed
    ]
  ]

-- The loop: it gives the triggers seen.
unfoldable pub validate_from : List StrikeTrigger → List StrikeRule → Result (List StrikeTrigger)
unfolding validate_rule
validate_from seen [] = ok seen
validate_from seen (r ∷ rs) = validate_rule seen r >> validate_from (r.trigger ∷ seen) rs

abbrev pub all_triggers : List StrikeTrigger
all_triggers =
    artist_cancel_3_6_days ∷ artist_cancel_1_2_days ∷ artist_cancel_day_of ∷ client_cancel_1_2_days
    ∷ client_cancel_day_of ∷ dispute_ruled_against ∷ dispute_false_no_show_claim ∷ []

-- `validateRules`. That a weight or a day is a whole number of zero or more is in the types.
unfoldable pub validate_rules : List StrikeRule → Result (Unit {0})
unfolding validate_from
validate_rules rules = do
  throw_if (length rules == 0) no_rules
  seen ← validate_from [] rules
  throw_if (not (length (keep (λ t. not (names seen t)) all_triggers) == 0)) triggers_missing
