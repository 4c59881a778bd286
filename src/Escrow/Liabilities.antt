-- ===== src/Escrow/Liabilities.antt =====
-- `selectSettleableLiabilities` of apps/backend/src/services/escrowService.ts.
use o_artiste.Prelude.{
  ℕ, ℤ, pos, ◌≤ℤ◌, ◌+◌, ◌≡◌, refl, false, List, [], ◌∷◌, Bool-cases, inl, inr, ltb_ℤ, arith, keep,
  ap,
}
use o_artiste.Store.{Db, FeeLiability}
use o_artiste.Escrow.Operations.{select_from, select_settleable, owes}
use o_artiste.Escrow.Rulings.{owed}

select_from_lem :
    (ceiling : ℤ) (so_far : ℕ) (ls : List FeeLiability)
    → pos so_far ≤ℤ ceiling
    → let (chosen, total) = select_from ceiling so_far ls in
      (total ≡ so_far + owed chosen) × (pos total ≤ℤ ceiling)
unfolding select_from
select_from_lem ceiling so_far [] h = (omega arith, h)
select_from_lem ceiling so_far (l ∷ ls) h =
    elim (Bool-cases (ltb_ℤ ceiling (pos (so_far + l.amount_kobo)))) [
      | inl e ↦ rw (select_from, e) (select_from_lem ceiling so_far ls h)
      | inr e ↦
          let fits : pos (so_far + l.amount_kobo) ≤ℤ ceiling = ground arith in
          let (sum, below) = select_from_lem ceiling (so_far + l.amount_kobo) ls fits in
          rw (select_from, e) (omega (arith, sum), below)
    ]

select_from_all :
    (ceiling : ℤ) (so_far : ℕ) (ls : List FeeLiability)
    → pos (so_far + owed ls) ≤ℤ ceiling
    → select_from ceiling so_far ls ≡ (ls, so_far + owed ls)
unfolding select_from
select_from_all ceiling so_far [] h =
    let same : so_far ≡ so_far + 0 = omega arith in ap (λ n. ([], n)) same
select_from_all ceiling so_far (l ∷ ls) h =
    let fits : ltb_ℤ ceiling (pos (so_far + l.amount_kobo)) ≡ false = ground arith in
    let below : pos (so_far + l.amount_kobo + owed ls) ≤ℤ ceiling = omega (arith, h) in
    let sum : so_far + l.amount_kobo + owed ls ≡ so_far + (l.amount_kobo + owed ls) = omega arith in
    rw (select_from, fits, select_from_all ceiling (so_far + l.amount_kobo) ls below, sum) refl

-- For a payout that is not negative, the liabilities that a release settles sum to what it reports
-- and to no more than the payout, and if the payout covers all that the artist owes, all of it is
-- settled.
pub select_settleable_fits :
    (artist_user_id : ℕ) (ceiling : ℤ) (db : Db)
    → pos 0 ≤ℤ ceiling
    → let (chosen, total) = select_settleable artist_user_id ceiling db in
      let all = keep (owes artist_user_id) db.liabilities in
      (total ≡ owed chosen)
      × (pos total ≤ℤ ceiling)
      × (pos (owed all) ≤ℤ ceiling → (chosen ≡ all) × (total ≡ owed all))
unfolding select_settleable
select_settleable_fits artist_user_id ceiling db h =
    let all = keep (owes artist_user_id) db.liabilities in
    let (sum, below) = select_from_lem ceiling 0 all h in
    (
      omega (arith, sum),
      below,
      λ covered.
          let e = select_from_all ceiling 0 all (omega (arith, covered)) in
          let total = ap (λ p. p.1) e in (ap (λ p. p.0) e, omega (arith, total)),
    )
