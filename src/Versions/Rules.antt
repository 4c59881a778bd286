-- ===== src/Versions/Rules.antt =====
-- The sets of rules that an administrator publishes: `setStrikeRules` of strikeService.ts and
-- `setEnforcementLadders` of enforcementService.ts. A version id is made outside, from the time and a
-- random number; the date from which a set holds comes with the request and is not validated.
use o_artiste.Prelude.{ℤ, pos, Option, none, [], ◌∷◌, ℕ, ◌==◌, ◌++◌, List, some, keep, map, sort_by}
use o_artiste.Schema.{trigger_code}
use o_artiste.Errors.{Result, ok, err, column_refused, ◌>>=◌}
use o_artiste.Store.{
  Db, Tx, StrikeRule, EnforcementRule, EnforcementParty, record_audit, strike_rules_updated,
  enforcement_ladders_updated,
}
use o_artiste.Strikes.{validate_rules}
use o_artiste.Enforcement.{RungInput, validate_ladders}
use o_artiste.Tiers.{Field, absent, whole, other}
use o_artiste.Request.{Env, Action, ◌>>◌, check, transact}

abbrev pub published_rule : ℕ → ℕ → StrikeRule → StrikeRule
published_rule version from r = record r { version_id = version; effective_from = from }

-- The rows of a version, in the order of their triggers.
abbrev pub rules_of : ℕ → Db → List StrikeRule
rules_of version db =
    sort_by (λ r. trigger_code r.trigger) (keep (λ r. r.version_id == version) db.strike_rules)

abbrev pub rules_tx : ℕ → ℕ → List StrikeRule → ℕ → Tx (List StrikeRule)
rules_tx version from rules actor db =
    let next = record db {
      strike_rules = db.strike_rules ++ map (published_rule version from) rules;
    } in
    ok (rules_of version next, record_audit (some actor) strike_rules_updated version next)

unfoldable pub set_strike_rules : Env → ℕ → List StrikeRule → ℕ → ℕ → Action (List StrikeRule)
set_strike_rules env version rules from actor = do
  check (validate_rules rules)
  transact env (rules_tx version from rules actor)

-- The values of the columns; one that the table cannot hold makes the write throw.
abbrev pub party_column : Option EnforcementParty → Result EnforcementParty
party_column none = err column_refused
party_column (some p) = ok p

abbrev pub weight_column : Field → Result ℕ
weight_column (whole (pos n)) = ok n
weight_column f = err column_refused

abbrev pub lead_column : Field → Result (Option ℤ)
lead_column absent = ok none
lead_column (whole z) = ok (some z)
lead_column other = err column_refused

unfoldable pub published_rung : ℕ → ℕ → RungInput → Result EnforcementRule
published_rung version from r = do
  party ← party_column r.party
  min_weight ← weight_column r.min_weight
  min_lead_days ← lead_column r.min_lead_days
  ok (record {
    version_id = version;
    effective_from = from;
    party = party;
    min_weight = min_weight;
    standing = r.standing;
    min_lead_days = min_lead_days;
  })

unfoldable pub published_rungs : ℕ → ℕ → List RungInput → Result (List EnforcementRule)
unfolding published_rung
published_rungs version from [] = ok []
published_rungs version from (r ∷ rs) = do
  row ← published_rung version from r
  rows ← published_rungs version from rs
  ok (row ∷ rows)

-- The rungs of a version, in the order of their weights.
abbrev pub rungs_of : ℕ → Db → List EnforcementRule
rungs_of version db =
    sort_by (λ r. r.min_weight) (keep (λ r. r.version_id == version) db.enforcement_rules)

unfoldable pub ladders_tx : ℕ → ℕ → List RungInput → ℕ → Tx (List EnforcementRule)
unfolding published_rungs
ladders_tx version from rules actor db = do
  rows ← published_rungs version from rules
  let next = record db { enforcement_rules = db.enforcement_rules ++ rows }
  ok (rungs_of version next, record_audit (some actor) enforcement_ladders_updated version next)

unfoldable pub set_enforcement_ladders :
    Env → ℕ → List RungInput → ℕ → ℕ → Action (List EnforcementRule)
unfolding ladders_tx
set_enforcement_ladders env version rules from actor = do
  check (validate_ladders rules)
  transact env (ladders_tx version from rules actor)
