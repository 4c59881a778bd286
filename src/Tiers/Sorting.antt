-- ===== src/Tiers/Sorting.antt =====
-- The rows of a tier set through validation and sorting (cancellationTierService.ts).
use o_artiste.Prelude.{
  ℕ, ◌+◌, ◌≤◌, ◌≡◌, some, List, [], ◌∷◌, All, map, arith, Bool-cases, ltb, inl, inr,
}
use o_artiste.Errors.{ok, >>=-eq-ok}
use o_artiste.Tiers.{Tier, TierInput, tier_of, validate_row, validate_rows, insert_tier, sort_from}

-- A band ends no sooner than it starts, and its two rates make up the whole.
pub record IsBand (t : Tier) : Type 0 where
  pub whole_split : t.client_bps + t.artist_bps ≡ 10_000
  pub runs_forward : (m : ℕ) → t.max_days ≡ some m → t.min_days ≤ m

validate_row-IsBand : (t : TierInput) → validate_row t ≡ ok tt → IsBand (tier_of t)
unfolding validate_row tier_of
validate_row-IsBand t h = ground arith

pub validate_rows-IsBand :
    (ts : List TierInput) → validate_rows ts ≡ ok tt → All IsBand (map tier_of ts)
unfolding validate_rows
validate_rows-IsBand [] h = tt
validate_rows-IsBand (t ∷ ts) h =
    let (u, row, rest) = >>=-eq-ok (validate_row t) (λ _. validate_rows ts) h in
    (validate_row-IsBand t row, validate_rows-IsBand ts rest)

module _ (P : Tier → Type 0) where
  All-insert_tier : (t : Tier) (us : List Tier) → P t → All P us → All P (insert_tier t us)
  unfolding insert_tier
  All-insert_tier t [] h hs = (h, tt)
  All-insert_tier t (u ∷ us) h hs = elim (Bool-cases (ltb t.min_days u.min_days)) [
    | inl e ↦ rw e (h, hs)
    | inr e ↦ rw e (hs.0, All-insert_tier t us h hs.1)
  ]

  pub All-sort_from :
      (sorted ts : List Tier) → All P sorted → All P ts → All P (sort_from sorted ts)
  unfolding sort_from
  All-sort_from sorted [] h hs = h
  All-sort_from sorted (t ∷ ts) h hs =
      All-sort_from (insert_tier t sorted) ts (All-insert_tier t sorted hs.0 h) hs.1
