-- ===== src/Versions/Terms.antt =====
-- The terms in force before and after `setCancellationTiers` of cancellationTierService.ts.
use o_artiste.Prelude.{
  ℕ, pos, ◌+◌, ◌<◌, ◌≤◌, ◌≡◌, ◌≢◌, refl, sym, ap, ◌∙◌, Bool, true, false, none, some, List, [], ◌∷◌,
  ◌++◌, map, latest_from, sort_by, arith, All, ◌==◌,
}
use mathlib.Core.List.{append-nil}
use o_artiste.Errors.{ok, ok-injective}
use o_artiste.Tiers.{Tier, TierInput, covers, resolve_tier, validate_tier_set}
use o_artiste.Tiers.Complete.{
  IsComplete, sort_by-IsComplete, validate_tier_set-IsComplete, IsComplete-resolve_tier,
}
use o_artiste.Store.{Db, TierRow}
use o_artiste.Request.{World, Env}
use o_artiste.Books.Logic.{Leads, check-Leads, transact-Leads}
use o_artiste.Request.Runs.{check-eq-ok, transact-eq-ok}
use o_artiste.Versions.{
  Instant, effective_from, current_version_id, resolve_tier_set, tiers_of, tier_row, tiers_tx,
  set_cancellation_tiers,
}
use o_artiste.Versions.History.{effective_from-le, latest_from-later}
use o_artiste.Versions.Newest.{
  AreOf, keep-added, keep-++, keep_nothing, latest_from-All, latest_from-AreOf,
}

-- No row of the table bears the version.
abbrev pub IsNew : ℕ → List TierRow → Type 0
IsNew version rows = All (λ r. (r.version_id == version) ≡ false) rows

abbrev of_version : ℕ → TierRow → Bool
of_version version r = r.version_id == version

tier_row-AreOf :
    (version from : ℕ) (ts : List Tier)
    → AreOf
        (λ r. r.effective_from)
        (λ r. r.version_id)
        version
        from
        (map (tier_row version from) ts)
tier_row-AreOf version from [] = tt
tier_row-AreOf version from (t ∷ ts) = ((refl, refl), tier_row-AreOf version from ts)

map-tier_row :
    (version from : ℕ) (ts : List Tier) → map (λ r. r.band) (map (tier_row version from) ts) ≡ ts
map-tier_row version from [] = refl
map-tier_row version from (t ∷ ts) = rw (map-tier_row version from ts) refl

map-tier_row_some :
    (version from : ℕ) (ts : List Tier) → ts ≢ [] → map (tier_row version from) ts ≢ []
map-tier_row_some version from [] some_row e = some_row refl
map-tier_row_some version from (t ∷ ts) some_row e = cc

other-tier_row :
    (v version from : ℕ) (ts : List Tier)
    → (version == v) ≡ false
    → All (λ r. of_version v r ≡ false) (map (tier_row version from) ts)
other-tier_row v version from [] ne = tt
other-tier_row v version from (t ∷ ts) ne = (ne, other-tier_row v version from ts ne)

later-tier_row :
    (bound version from : ℕ) (ts : List Tier)
    → bound < from
    → All (λ r. bound < r.effective_from) (map (tier_row version from) ts)
later-tier_row bound version from [] h = tt
later-tier_row bound version from (t ∷ ts) h = (h, later-tier_row bound version from ts h)

module _ (version from : ℕ) (ts : List Tier) (db : Db) (fresh : IsNew version db.tier_rows) where
  abbrev added : Db
  added = record db { tier_rows = db.tier_rows ++ map (tier_row version from) ts }

  tiers_of-added : tiers_of version added ≡ sort_by (λ t. t.min_days) ts
  tiers_of-added =
      rw
        (
          keep-added (λ (r : TierRow). r.effective_from) (λ r. r.version_id) version from
              db.tier_rows (map (tier_row version from) ts) fresh (tier_row-AreOf version from ts),
          map-tier_row version from ts,
        )
        refl

  tiers_of-others : (v : ℕ) → (version == v) ≡ false → tiers_of v added ≡ tiers_of v db
  tiers_of-others v ne =
      rw
        (
          keep-++ (of_version v) db.tier_rows (map (tier_row version from) ts),
          keep_nothing (of_version v) (map (tier_row version from) ts)
              (other-tier_row v version from ts ne),
          append-nil,
        )
        refl

  resolve-before : (t : ℕ) → t < from → resolve_tier_set t added ≡ resolve_tier_set t db
  unfolding resolve_tier_set current_version_id
  resolve-before t past =
      let same : latest_from (λ r. r.effective_from) t none added.tier_rows
          ≡ latest_from (λ r. r.effective_from) t none db.tier_rows =
        latest_from-later (λ r. r.effective_from) t db.tier_rows none
          (map (tier_row version from) ts) (later-tier_row t version from ts past) in
      elim (latest_from (λ r. r.effective_from) t none db.tier_rows)
          as (λ x.
            latest_from (λ r. r.effective_from) t none db.tier_rows ≡ x
            → resolve_tier_set t added ≡ resolve_tier_set t db) [
              | none ↦ λ e. rw (resolve_tier_set, current_version_id, same, e) refl
              | some r ↦ λ e.
                  let other =
                    latest_from-All (λ x. x.effective_from) (λ x. (x.version_id == version) ≡ false)
                      t db.tier_rows none fresh (λ b f. absurd cc) e in
                  let ne : (version == r.version_id) ≡ false = ground (arith, other) in
                  rw
                    (resolve_tier_set, current_version_id, same, e, tiers_of-others r.version_id ne)
                    refl
            ]
        refl

  resolve-after :
      (t : ℕ)
      → from ≤ t
      → ts ≢ []
      → All (λ r. r.effective_from ≤ from) db.tier_rows
      → resolve_tier_set t added ≡ ok (version, sort_by (λ u. u.min_days) ts)
  unfolding resolve_tier_set current_version_id
  resolve-after t due some_row older =
      let (r, found, mine) =
        latest_from-AreOf (λ (x : TierRow). x.effective_from) (λ x. x.version_id) version from t
          db.tier_rows (map (tier_row version from) ts) due
          (map-tier_row_some version from ts some_row) older (tier_row-AreOf version from ts) in
      rw (resolve_tier_set, current_version_id, found, mine, tiers_of-added) refl

-- Whatever set of terms is asked for under a version id that no row bears, from whatever date, and
-- whether it is accepted or not: the terms in force at any instant more than a second before the
-- request stay what they were.
pub set_cancellation_tiers_keeps_history :
    (env : Env) (version : ℕ) (inputs : List TierInput) (effective : Instant) (actor : ℕ)
    (w : World) (t : ℕ)
    → IsNew version w.db.tier_rows
    → t + 1000 < env.now
    → resolve_tier_set t (set_cancellation_tiers env version inputs effective actor w).1.db
      ≡ resolve_tier_set t w.db
unfolding set_cancellation_tiers resolve_tier_set current_version_id Leads
set_cancellation_tiers_keeps_history env version inputs effective actor w t fresh past =
    check-Leads Known Kept (validate_tier_set inputs) _ (λ db h. h.0)
      (λ ts valid.
        check-Leads Known Kept (effective_from env.now effective) _ (λ db h. h.0)
          (λ from later.
            transact-Leads Known Kept env (tiers_tx version ts from actor) (λ db h. h.0)
              (λ db v h e.
                let after : t < from =
                  omega (arith, past, effective_from-le env.now effective later) in
                rw (← ok-injective e) (resolve-before version from ts db h.1 t after ∙ h.0))))
      w (refl, fresh)
  where
    Kept : Db → Type 0
    Kept db = resolve_tier_set t db ≡ resolve_tier_set t w.db

    Known : Db → Type 0
    Known db = Kept db × IsNew version db.tier_rows

IsComplete-some : (ts : List Tier) → IsComplete ts → ts ≢ []
IsComplete-some [] c e = let one = c.one 0 in omega (arith, one)
IsComplete-some (t ∷ ts) c e = cc

-- When a request to set the terms returns, with a version id that no row bears, the terms in force
-- from the accepted date on, as long as no row of a later date stands in the table, are the ones
-- returned, and a cancellation on any day from day 0 on finds a band of them whose two rates make
-- up the whole.
pub set_cancellation_tiers_takes_effect :
    (env : Env) (version : ℕ) (inputs : List TierInput) (effective : Instant) (actor : ℕ)
    (w : World) {tiers : List Tier} {v : World} {from : ℕ} (t : ℕ)
    → IsNew version w.db.tier_rows
    → All (λ r. r.effective_from ≤ from) w.db.tier_rows
    → effective_from env.now effective ≡ ok from
    → from ≤ t
    → set_cancellation_tiers env version inputs effective actor w ≡ (ok tiers, v)
    → (resolve_tier_set t v.db ≡ ok (version, tiers))
      × ((d : ℕ)
          → (u : Tier) × (resolve_tier tiers (pos d) ≡ ok u)
            × (covers d u ≡ true)
            × (u.client_bps + u.artist_bps ≡ 10_000))
unfolding set_cancellation_tiers resolve_tier_set
set_cancellation_tiers_takes_effect env version inputs effective actor w {tiers} {v} {from} t fresh
      older accepted due returned =
    let (ts, valid, rest) = check-eq-ok (validate_tier_set inputs) _ w returned in
    let (from', accepted', rest') = check-eq-ok (effective_from env.now effective) _ w rest in
    let (db, wrote, there) = transact-eq-ok env (tiers_tx version ts from' actor) w rest' in
    let same : from' ≡ from = ok-injective (sym accepted' ∙ accepted) in
    let complete = validate_tier_set-IsComplete inputs valid in
    let older' : All (λ r. r.effective_from ≤ from') w.db.tier_rows = rw same older in
    let due' : from' ≤ t = rw same due in
    let in_force =
      resolve-after version from' ts w.db fresh t due' (IsComplete-some ts complete) older' in
    let both = ok-injective wrote in
    let set : sort_by (λ u. u.min_days) ts ≡ tiers =
      sym (tiers_of-added version from' ts w.db fresh) ∙ ap (λ p. p.0) both in
    (
      rw (there, ← set, ← ap (λ p. p.1) both) in_force,
      IsComplete-resolve_tier tiers (rw (← set) (sort_by-IsComplete ts complete)),
    )
