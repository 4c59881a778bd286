-- ===== src/Enforcement/Ladders.antt =====
-- The ladders of enforcementService.ts: which rung `rungFor` picks, and what `applyStanding` does.
use o_artiste.Prelude.{
  ℕ, ◌≤◌, ◌≡◌, refl, true, false, ltb, leb, List, [], ◌∷◌, keep, arith, Option, none, some,
  Bool-cases, Option-cases, inl, inr, leb→le, ap, ◌∙◌, sym, ◌≢◌, if◌then◌else◌, max, ==_refl, ◌==◌,
}
use o_artiste.Store.{Db, User, EnforcementRule, EnforcementParty}
use o_artiste.Enforcement.{
  severity, matches, harshest, harshest_of, rung_for, apply_standing, resolve_ladders,
  active_weight, set_standing,
}

-- How harsh the rung is that applies, 0 where none does.
abbrev pub harshness : Option EnforcementRule → ℕ
harshness none = 0
harshness (some r) = severity r.standing

-- The greatest severity of the rungs of a party that a weight has reached.
abbrev pub reached : EnforcementParty → ℕ → List EnforcementRule → ℕ
reached party weight [] = 0
reached party weight (r ∷ rs) =
    let rest = reached party weight rs in
    if matches party weight r then max (severity r.standing) rest else rest

abbrev top : List EnforcementRule → ℕ
top [] = 0
top (r ∷ rs) = max (severity r.standing) (top rs)

harshest_lem :
    (worst : EnforcementRule) (rs : List EnforcementRule)
    → severity (harshest worst rs).standing ≡ max (severity worst.standing) (top rs)
unfolding harshest
harshest_lem worst [] = omega arith
harshest_lem worst (r ∷ rs) =
    let next = if ltb (severity worst.standing) (severity r.standing) then r else worst in
    let greater : severity next.standing ≡ max (severity worst.standing) (severity r.standing) =
      ground arith in
    omega (arith, harshest_lem next rs, greater)

top-keep :
    (party : EnforcementParty) (weight : ℕ) (rs : List EnforcementRule)
    → top (keep (matches party weight) rs) ≡ reached party weight rs
top-keep party weight [] = refl
top-keep party weight (r ∷ rs) = elim (Bool-cases (matches party weight r)) [
  | inl e ↦ rw (e, top-keep party weight rs) refl
  | inr e ↦ rw (e, top-keep party weight rs) refl
]

harshest_of_lem : (rs : List EnforcementRule) → harshness (harshest_of rs) ≡ top rs
harshest_of_lem [] = refl
harshest_of_lem (r ∷ rs) = harshest_lem r rs

pub rung_for-reached :
    (rules : List EnforcementRule) (party : EnforcementParty) (weight : ℕ)
    → harshness (rung_for rules party weight) ≡ reached party weight rules
unfolding rung_for
rung_for-reached rules party weight =
    harshest_of_lem (keep (matches party weight) rules) ∙ top-keep party weight rules

matches_mono :
    (party : EnforcementParty) (w w' : ℕ) (r : EnforcementRule)
    → w ≤ w'
    → matches party w r ≡ true
    → matches party w' r ≡ true
matches_mono party w w' r h e = ground arith

reached_mono :
    (party : EnforcementParty) (w w' : ℕ) (rs : List EnforcementRule)
    → w ≤ w'
    → reached party w rs ≤ reached party w' rs
reached_mono party w w' [] h = omega arith
reached_mono party w w' (r ∷ rs) h =
    let rest = reached_mono party w w' rs h in
    elim (Bool-cases (matches party w r)) [
      | inl e ↦ rw (e, matches_mono party w w' r h e) (omega (arith, rest))
      | inr e ↦ elim (Bool-cases (matches party w' r)) [
        | inl e' ↦ rw (e, e') (omega (arith, rest))
        | inr e' ↦ rw (e, e') (omega (arith, rest))
      ]
    ]

-- The rung that `rung_for` picks is as harsh as the harshest of the party's rungs that the weight
-- has reached, and a greater weight never leads to a milder rung.
pub rung_for_mono :
    (rules : List EnforcementRule) (party : EnforcementParty) (w w' : ℕ)
    → w ≤ w'
    → (harshness (rung_for rules party w) ≡ reached party w rules)
      × (harshness (rung_for rules party w) ≤ harshness (rung_for rules party w'))
rung_for_mono rules party w w' h = (
  rung_for-reached rules party w,
  omega (
    arith,
    rung_for-reached rules party w,
    rung_for-reached rules party w',
    reached_mono party w w' rules h,
  ),
)

other_id : (k j : ℕ) → k ≢ j → (k == j) ≡ false
other_id k j h = ground arith

-- What became of a user: the new severity, and that no other user has changed.
abbrev pub Escalates : ℕ → ℕ → (ℕ → Option User) → (ℕ → Option User) → Type 0
Escalates user_id level before after =
    ((u : User) × (after user_id ≡ some u) × (severity u.account_standing ≡ level))
    × ((k : ℕ) → k ≢ user_id → after k ≡ before k)

-- The standing of a user after `apply_standing` is the harsher of the standing before and the
-- harshest rung that the weight of the active strikes reaches: it is never lowered. No other user
-- changes, nor do the strikes.
pub apply_standing-Escalates :
    (user_id : ℕ) (party : EnforcementParty) (at : ℕ) (db : Db) (u : User)
    → db.users user_id ≡ some u
    → let after = (apply_standing user_id party at db).1 in
      Escalates user_id
        (max
          (severity u.account_standing)
          (reached party (active_weight user_id db) (resolve_ladders at db)))
        db.users
        after.users
      × (after.strikes ≡ db.strikes)
unfolding apply_standing
apply_standing-Escalates user_id party at db u h =
    let rules = resolve_ladders at db in
    let weight = active_weight user_id db in
    let level = rung_for-reached rules party weight in
    elim (Option-cases (rung_for rules party weight)) [
      | inl e ↦
          let zero_level = ap harshness (sym e) ∙ level in
          rw (apply_standing, h, e) (((u, h, omega (arith, zero_level)), λ k other. refl), refl)
      | inr (rung, e) ↦
          let rung_level = ap harshness (sym e) ∙ level in
          elim (Bool-cases (leb (severity rung.standing) (severity u.account_standing))) [
            | inl mild ↦
                let low = leb→le (severity rung.standing) (severity u.account_standing) mild in
                rw (apply_standing, h, e, mild)
                  (((u, h, omega (arith, rung_level, low)), λ k other. refl), refl)
            | inr harsh ↦
                let high : severity u.account_standing ≤ severity rung.standing = ground arith in
                rw (apply_standing, h, e, harsh)
                  (
                    (
                      (
                        set_standing rung.standing rung.min_lead_days u,
                        rw (==_refl user_id) refl,
                        omega (arith, rung_level, high),
                      ),
                      λ k other. rw (other_id k user_id other) refl,
                    ),
                    refl,
                  )
          ]
    ]
