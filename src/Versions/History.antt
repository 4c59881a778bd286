-- ===== src/Versions/History.antt =====
-- Publishing a version leaves what was in force at earlier instants as it was.
use o_artiste.Prelude.{
  ℕ, length, leb, le→leb, ◌&&◌, ◌+◌, ◌<◌, ◌≤◌, ◌≡◌, refl, false, Option, none, some, List, [], ◌∷◌,
  ◌++◌, latest_from, arith, Bool-cases, inl, inr, All,
}
use o_artiste.Errors.{ok, ok-injective}
use o_artiste.Tiers.{Field}
use o_artiste.Store.{Db, CommissionRate}
use o_artiste.Request.{World, Env}
use o_artiste.Books.Logic.{Leads, check-Leads, transact-Leads}
use o_artiste.Versions.{
  Instant, effective_from, validate_bps, resolve_commission_rate, rate_tx, set_commission_rate,
}

-- An instant that is accepted is no more than a second before the publication.
pub effective_from-le :
    (now : ℕ) (i : Instant) {t : ℕ} → effective_from now i ≡ ok t → now ≤ t + 1000
unfolding effective_from
effective_from-le now i e = ground arith

module _ {A : Type 0} (key : A → ℕ) (bound : ℕ) where
  pub later-latest_from :
      (best : Option A) (ys : List A)
      → All (λ y. bound < key y) ys
      → latest_from key bound best ys ≡ best
  later-latest_from best [] later = refl
  later-latest_from none (y ∷ ys) later =
      let no : leb (key y) bound ≡ false = ground (arith, later.0) in
      rw no (later-latest_from none ys later.1)
  later-latest_from (some b) (y ∷ ys) later =
      let no : leb (key y) bound ≡ false = ground (arith, later.0) in
      rw no (later-latest_from (some b) ys later.1)

  -- Rows of a later date do not count at an earlier one.
  pub latest_from-later :
      (xs : List A) (best : Option A) (ys : List A)
      → All (λ y. bound < key y) ys
      → latest_from key bound best (xs ++ ys) ≡ latest_from key bound best xs
  latest_from-later [] best ys later = later-latest_from best ys later
  latest_from-later (x ∷ xs) best ys later = latest_from-later xs _ ys later

  abbrev pub NotAfter : A → Option A → Type 0
  NotAfter y none = Unit
  NotAfter y (some b) = key b ≤ key y

  pub latest_from-append :
      (xs : List A) (best : Option A) (ys : List A)
      → latest_from key bound best (xs ++ ys)
        ≡ latest_from key bound (latest_from key bound best xs) ys
  latest_from-append [] best ys = refl
  latest_from-append (x ∷ xs) best ys = latest_from-append xs _ ys

  -- A row that is due, behind rows of which none is of a later date, is the one in force.
  pub latest_from-newest :
      (xs : List A) (best : Option A) (y : A)
      → key y ≤ bound
      → All (λ x. key x ≤ key y) xs
      → NotAfter y best
      → latest_from key bound best (xs ++ y ∷ []) ≡ some y
  latest_from-newest [] none y due older best_older = rw (le→leb (key y) bound due) refl
  latest_from-newest [] (some b) y due older best_older =
      rw (le→leb (key y) bound due, le→leb (key b) (key y) best_older) refl
  latest_from-newest (x ∷ xs) none y due older h = elim (Bool-cases (leb (key x) bound)) [
    | inl e ↦ rw (latest_from, e) (latest_from-newest xs (some x) y due older.1 older.0)
    | inr e ↦ rw (latest_from, e) (latest_from-newest xs none y due older.1 h)
  ]
  latest_from-newest (x ∷ xs) (some b) y due older best_older =
      elim (Bool-cases (leb (key x) bound && leb (key b) (key x))) [
        | inl e ↦ rw (latest_from, e) (latest_from-newest xs (some x) y due older.1 older.0)
        | inr e ↦ rw (latest_from, e) (latest_from-newest xs (some b) y due older.1 best_older)
      ]

-- Whatever rate is asked for, from whatever date, and whether it is accepted or not: the rate in
-- force at any instant more than a second before the request stays what it was.
pub set_commission_rate_keeps_history :
    (env : Env) (rate : Field) (effective : Instant) (actor : ℕ) (w : World) (t : ℕ)
    → t + 1000 < env.now
    → resolve_commission_rate t (set_commission_rate env rate effective actor w).1.db
      ≡ resolve_commission_rate t w.db
unfolding set_commission_rate resolve_commission_rate Leads
set_commission_rate_keeps_history env rate effective actor w t past =
    check-Leads Kept Kept (validate_bps rate) _ (λ db h. h)
      (λ bps valid.
        check-Leads Kept Kept (effective_from env.now effective) _ (λ db h. h)
          (λ from later.
            transact-Leads Kept Kept env (rate_tx bps from actor) (λ db h. h)
              (λ db v h e.
                let after : t < from =
                  omega (arith, past, effective_from-le env.now effective later) in
                let row : CommissionRate = record {
                  id = length db.commission_rates;
                  effective_from = from;
                  rate_basis_points = bps;
                } in
                rw (← ok-injective e) (
                  rw
                    (
                      resolve_commission_rate,
                      latest_from-later (λ r. r.effective_from) t db.commission_rates none
                          (row ∷ []) (after, tt),
                    )
                    h))))
      w refl
  where
    Kept : Db → Type 0
    Kept db = resolve_commission_rate t db ≡ resolve_commission_rate t w.db
