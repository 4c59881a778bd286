-- ===== src/Versions/Published.antt =====
-- The sets of rules in force after `setStrikeRules` of strikeService.ts and `setEnforcementLadders` of
-- enforcementService.ts.
use o_artiste.Prelude.{
  ℕ, some, leb, ◌≤◌, ◌≡◌, ◌≢◌, ◌==◌, refl, ap, ◌∙◌, true, false, List, [], ◌∷◌, ◌++◌, keep, map,
  sort_by, insert_by, arith, Bool-cases, inl, inr, All, All-sort_by, is_some,
}
use o_artiste.Schema.{StrikeTrigger, artist_cancel_day_of, trigger_code, trigger_eq}
use o_artiste.Errors.{◌>>=◌, ok, ok-injective, >>=-eq-ok}
use o_artiste.Store.{StrikeRule, EnforcementRule, record_audit, enforcement_ladders_updated}
use o_artiste.Enforcement.{
  RungInput, severity, resolve_ladders, is_restricted, validate_rung, validate_each,
  validate_ladders,
}
use o_artiste.Strikes.{resolve_rules, validate_rules}
use o_artiste.Strikes.Rules.{prices, validate_rules-prices}
use o_artiste.Request.{World, Env}
use o_artiste.Request.Runs.{check-eq-ok, transact-eq-ok}
use o_artiste.Versions.Newest.{AreOf, keep-added, latest_from-AreOf}
use o_artiste.Versions.Rules.{
  published_rule, rules_tx, set_strike_rules, published_rung, ladders_tx, published_rungs, rungs_of,
  set_enforcement_ladders,
}

prices_cons :
    (s : StrikeTrigger) (r : StrikeRule) (rs qs : List StrikeRule)
    → prices s rs ≡ prices s qs
    → prices s (r ∷ rs) ≡ prices s (r ∷ qs)
prices_cons s r rs qs h = elim (Bool-cases (trigger_eq r.trigger s)) [
  | inl e ↦ rw e (omega (arith, h))
  | inr e ↦ rw e h
]

prices_swap :
    (s : StrikeTrigger) (r q : StrikeRule) (rs : List StrikeRule)
    → prices s (q ∷ r ∷ rs) ≡ prices s (r ∷ q ∷ rs)
prices_swap s r q rs = elim (Bool-cases (trigger_eq r.trigger s)) [
  | inl e ↦ elim (Bool-cases (trigger_eq q.trigger s)) [
    | inl f ↦ rw (e, f) refl
    | inr f ↦ rw (e, f) refl
  ]
  | inr e ↦ elim (Bool-cases (trigger_eq q.trigger s)) [
    | inl f ↦ rw (e, f) refl
    | inr f ↦ rw (e, f) refl
  ]
]

prices-insert_by :
    (key : StrikeRule → ℕ) (s : StrikeTrigger) (r : StrikeRule) (rs : List StrikeRule)
    → prices s (insert_by key r rs) ≡ prices s (r ∷ rs)
prices-insert_by key s r [] = refl
prices-insert_by key s r (q ∷ rs) = elim (Bool-cases (leb (key r) (key q))) [
  | inl e ↦ rw e refl
  | inr e ↦
      let deeper = prices_cons s q (insert_by key r rs) (r ∷ rs) (prices-insert_by key s r rs) in
      rw e (deeper ∙ prices_swap s r q rs)
]

prices-sort_by :
    (key : StrikeRule → ℕ) (s : StrikeTrigger) (rs : List StrikeRule)
    → prices s (sort_by key rs) ≡ prices s rs
prices-sort_by key s [] = refl
prices-sort_by key s (r ∷ rs) =
    prices-insert_by key s r (sort_by key rs)
    ∙ prices_cons s r (sort_by key rs) rs (prices-sort_by key s rs)

module _ (version from : ℕ) where
  abbrev published : List StrikeRule → List StrikeRule
  published = map (published_rule version from)

  prices-published :
      (s : StrikeTrigger) (rs : List StrikeRule) → prices s (published rs) ≡ prices s rs
  prices-published s [] = refl
  prices-published s (r ∷ rs) = elim (Bool-cases (trigger_eq r.trigger s)) [
    | inl e ↦ let rest = prices-published s rs in rw e (omega (arith, rest))
    | inr e ↦ rw e (prices-published s rs)
  ]

  published-AreOf :
      (rs : List StrikeRule)
      → AreOf (λ r. r.effective_from) (λ r. r.version_id) version from (published rs)
  published-AreOf [] = tt
  published-AreOf (r ∷ rs) = ((refl, refl), published-AreOf rs)

  published_some : (s : StrikeTrigger) (rs : List StrikeRule) → prices s rs ≡ 1 → published rs ≢ []
  published_some s [] one e = omega (arith, one)
  published_some s (r ∷ rs) one e = cc

-- When a request to set the strike rules returns, with a version id that no row bears, the rules in
-- force from its date on, as long as no row of a later date stands in the table, are the ones
-- returned, and they price every trigger, each by one rule.
pub set_strike_rules_takes_effect :
    (env : Env) (version : ℕ) (rules : List StrikeRule) (from actor : ℕ) (w : World)
    {rows : List StrikeRule} {v : World} (t : ℕ)
    → All (λ r. (r.version_id == version) ≡ false) w.db.strike_rules
    → All (λ r. r.effective_from ≤ from) w.db.strike_rules
    → from ≤ t
    → set_strike_rules env version rules from actor w ≡ (ok rows, v)
    → (resolve_rules t v.db ≡ rows) × ((s : StrikeTrigger) → prices s rows ≡ 1)
unfolding set_strike_rules resolve_rules
set_strike_rules_takes_effect env version rules from actor w {rows} {v} t fresh older due returned =
    let (u, valid, rest) = check-eq-ok (validate_rules rules) _ w returned in
    let (db, wrote, there) = transact-eq-ok env (rules_tx version from rules actor) w rest in
    let once = (validate_rules-prices rules valid).0 in
    let new = published version from rules in
    let all_of = published-AreOf version from rules in
    let (r, found, mine) =
      latest_from-AreOf (λ (x : StrikeRule). x.effective_from) (λ x. x.version_id) version from t
        w.db.strike_rules new due
        (published_some version from artist_cancel_day_of rules (once artist_cancel_day_of)) older
        all_of in
    let both = ok-injective wrote in
    let kept : keep (λ x. x.version_id == version) (w.db.strike_rules ++ new) ≡ new =
      keep-added (λ (x : StrikeRule). x.effective_from) (λ x. x.version_id) version from
        w.db.strike_rules new fresh all_of in
    let set : sort_by (λ x. trigger_code x.trigger) new ≡ rows = rw kept at (ap (λ p. p.0) both) in
    (
      rw (there, ← ap (λ p. p.1) both) (rw (resolve_rules, found, mine, kept) set),
      λ s. rw (← set) (prices-sort_by _ s new ∙ prices-published version from s rules ∙ once s),
    )

-- A rung with a consequence: some weight reaches it, it does not set a standing back to good, and
-- one that restricts says how many days ahead.
abbrev pub IsRung : EnforcementRule → Type 0
IsRung r =
    (1 ≤ r.min_weight)
    × (1 ≤ severity r.standing)
    × (is_restricted r.standing ≡ true → is_some r.min_lead_days ≡ true)

-- What is written for an input that was accepted.
published_rung-IsRung :
    (version from : ℕ) (r : RungInput) (row : EnforcementRule)
    → validate_rung r ≡ ok tt
    → published_rung version from r ≡ ok row
    → IsRung row × (row.version_id ≡ version) × (row.effective_from ≡ from)
unfolding published_rung validate_rung
published_rung-IsRung version from r row h e = ground arith

published_rungs-IsRung :
    (version from : ℕ) (rs : List RungInput) (rows : List EnforcementRule)
    → validate_each rs ≡ ok tt
    → published_rungs version from rs ≡ ok rows
    → All IsRung rows × AreOf (λ r. r.effective_from) (λ r. r.version_id) version from rows
unfolding published_rungs
published_rungs-IsRung version from [] rows h e = rw (← ok-injective e) (tt, tt)
published_rungs-IsRung version from (r ∷ rs) rows h e =
    let (u, first, rest) = >>=-eq-ok (validate_rung r) (λ _. validate_each rs) h in
    let (row, written, e1) =
      >>=-eq-ok (published_rung version from r)
        (λ x. published_rungs version from rs >>= λ xs. ok (x ∷ xs)) e in
    let (others, made, e2) = >>=-eq-ok (published_rungs version from rs) (λ xs. ok (row ∷ xs)) e1 in
    let (rung, mine, dated) = published_rung-IsRung version from r row first written in
    let (rungs, theirs) = published_rungs-IsRung version from rs others rest made in
    rw (← ok-injective e2) ((rung, rungs), ((mine, dated), theirs))

published_rungs_some :
    (version from : ℕ) (rs : List RungInput) (rows : List EnforcementRule)
    → validate_ladders rs ≡ ok tt
    → published_rungs version from rs ≡ ok rows
    → (rows ≢ []) × (validate_each rs ≡ ok tt)
unfolding validate_ladders published_rungs
published_rungs_some version from [] rows h e = absurd cc
published_rungs_some version from (r ∷ rs) rows h e =
    let (row, written, e1) =
      >>=-eq-ok (published_rung version from r)
        (λ x. published_rungs version from rs >>= λ xs. ok (x ∷ xs)) e in
    let (others, made, e2) = >>=-eq-ok (published_rungs version from rs) (λ xs. ok (row ∷ xs)) e1 in
    let given : row ∷ others ≢ [] = cc in (rw (← ok-injective e2) given, h)

-- When a request to set the ladders returns, with a version id that no row bears, the ladders in
-- force from its date on, as long as no row of a later date stands in the table, are the ones
-- returned, and each of their rungs has a consequence: it takes a weight of at least 1, it never
-- sets a standing back to good, and one that restricts says how many days ahead.
pub set_enforcement_ladders_takes_effect :
    (env : Env) (version : ℕ) (rules : List RungInput) (from actor : ℕ) (w : World)
    {rows : List EnforcementRule} {v : World} (t : ℕ)
    → All (λ r. (r.version_id == version) ≡ false) w.db.enforcement_rules
    → All (λ r. r.effective_from ≤ from) w.db.enforcement_rules
    → from ≤ t
    → set_enforcement_ladders env version rules from actor w ≡ (ok rows, v)
    → (resolve_ladders t v.db ≡ rows) × All IsRung rows
unfolding set_enforcement_ladders resolve_ladders ladders_tx
set_enforcement_ladders_takes_effect env version rules from actor w {rows} {v} t fresh older due
      returned =
    let (u, valid, rest) = check-eq-ok (validate_ladders rules) _ w returned in
    let (db, wrote, there) = transact-eq-ok env (ladders_tx version from rules actor) w rest in
    let (new, made, written) =
      >>=-eq-ok (published_rungs version from rules)
        (λ rows.
          let next = record w.db { enforcement_rules = w.db.enforcement_rules ++ rows } in
          ok (
            rungs_of version next,
            record_audit (some actor) enforcement_ladders_updated version next,
          ))
        wrote in
    let (given, each) = published_rungs_some version from rules new valid made in
    let (sound, all_of) = published_rungs-IsRung version from rules new each made in
    let (r, found, mine) =
      latest_from-AreOf (λ (x : EnforcementRule). x.effective_from) (λ x. x.version_id) version from
        t w.db.enforcement_rules new due given older all_of in
    let both = ok-injective written in
    let kept : keep (λ x. x.version_id == version) (w.db.enforcement_rules ++ new) ≡ new =
      keep-added (λ (x : EnforcementRule). x.effective_from) (λ x. x.version_id) version from
        w.db.enforcement_rules new fresh all_of in
    let set : sort_by (λ x. x.min_weight) new ≡ rows = rw kept at (ap (λ p. p.0) both) in
    (
      rw (there, ← ap (λ p. p.1) both) (rw (resolve_ladders, found, mine, kept) set),
      rw (← set) (All-sort_by IsRung (λ x. x.min_weight) new sound),
    )
