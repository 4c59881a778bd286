-- ===== src/Tiers/Complete.antt =====
-- Tier sets that have one band for each day, and what keeps them so: the order of the rows does not
-- matter to `resolveTier` of cancellationService.ts.
use o_artiste.Prelude.{
  ℕ, pos, ltb, leb, ◌+◌, ◌≡◌, refl, ◌∙◌, ap, Bool, true, Option, none, some, List, [], ◌∷◌, map,
  All, Bool-cases, inl, inr, arith, if◌then◌else◌, insert_by, sort_by, All-sort_by,
}
use o_artiste.Errors.{ok}
use o_artiste.Tiers.{
  Tier, TierInput, tier_of, input_of, insert_tier, sort_from, covers, resolve_tier,
  validate_tier_set, limit, absent, whole, check_sorted,
}
use o_artiste.Tiers.Sorting.{IsBand, validate_rows-IsBand, All-sort_from}
use o_artiste.Tiers.Coverage.{
  covering, find_one, check_sorted-covers, validate_tier_set-parts, resolve_tier-find,
}

-- Each band is in order, and each day has exactly one.
pub record IsComplete (ts : List Tier) : Type 0 where
  pub bands : All IsBand ts
  pub one : (d : ℕ) → covering d ts ≡ 1

-- Whether a row counts.
abbrev tick : Bool → ℕ
tick b = if b then 1 else 0

covering-cons :
    (d : ℕ) (t : Tier) (ts : List Tier) → covering d (t ∷ ts) ≡ tick (covers d t) + covering d ts
covering-cons d t ts = elim (Bool-cases (covers d t)) [
  | inl e ↦ rw e (omega arith)
  | inr e ↦ rw e (omega arith)
]

covering-insert_tier :
    (d : ℕ) (t : Tier) (us : List Tier)
    → covering d (insert_tier t us) ≡ tick (covers d t) + covering d us
unfolding insert_tier
covering-insert_tier d t [] = covering-cons d t []
covering-insert_tier d t (u ∷ us) = elim (Bool-cases (ltb t.min_days u.min_days)) [
  | inl e ↦ rw e (covering-cons d t (u ∷ us))
  | inr e ↦
      rw
        (e, covering-cons d u (insert_tier t us), covering-insert_tier d t us, covering-cons d u us)
        (omega arith)
]

covering-sort_from :
    (d : ℕ) (sorted ts : List Tier)
    → covering d (sort_from sorted ts) ≡ covering d sorted + covering d ts
unfolding sort_from
covering-sort_from d sorted [] = omega arith
covering-sort_from d sorted (t ∷ ts) =
    rw
      (
        covering-sort_from d (insert_tier t sorted) ts,
        covering-insert_tier d t sorted,
        covering-cons d t ts,
      )
      (omega arith)

covering-insert_by :
    (d : ℕ) (t : Tier) (us : List Tier)
    → covering d (insert_by (λ u. u.min_days) t us) ≡ tick (covers d t) + covering d us
covering-insert_by d t [] = covering-cons d t []
covering-insert_by d t (u ∷ us) = elim (Bool-cases (leb t.min_days u.min_days)) [
  | inl e ↦ rw e (covering-cons d t (u ∷ us))
  | inr e ↦
      rw
        (
          e,
          covering-cons d u (insert_by (λ u. u.min_days) t us),
          covering-insert_by d t us,
          covering-cons d u us,
        )
        (omega arith)
]

covering-sort_by :
    (d : ℕ) (ts : List Tier) → covering d (sort_by (λ u. u.min_days) ts) ≡ covering d ts
covering-sort_by d [] = refl
covering-sort_by d (t ∷ ts) =
    rw
      (
        covering-insert_by d t (sort_by (λ u. u.min_days) ts),
        covering-sort_by d ts,
        covering-cons d t ts,
      )
      refl

-- A query for the rows in the order of their days keeps a complete set complete.
pub sort_by-IsComplete :
    (ts : List Tier) → IsComplete ts → IsComplete (sort_by (λ u. u.min_days) ts)
sort_by-IsComplete ts c = record {
  bands = All-sort_by IsBand (λ u. u.min_days) ts c.bands;
  one = λ d. covering-sort_by d ts ∙ c.one d;
}

-- What validation gives is complete.
pub validate_tier_set-IsComplete :
    (inputs : List TierInput) {ts : List Tier} → validate_tier_set inputs ≡ ok ts → IsComplete ts
validate_tier_set-IsComplete inputs {ts} e =
    let (rows, sorted) = validate_tier_set-parts inputs e in
    let bands =
      All-sort_from IsBand [] (map tier_of inputs) tt (validate_rows-IsBand inputs rows) in
    record {
      bands = (check_sorted-covers 0 (sort_from [] (map tier_of inputs)) ts bands sorted).0;
      one = λ d. (check_sorted-covers d (sort_from [] (map tier_of inputs)) ts bands sorted).1;
    }

limit_back : (o : Option ℕ) → limit (elim o [ none ↦ absent | some m ↦ whole (pos m) ]) ≡ o
limit_back none = refl
limit_back (some m) = refl

tier_of-input_of : (t : Tier) → tier_of (input_of t) ≡ t
unfolding tier_of
tier_of-input_of t = rw (limit_back t.max_days) refl

check_sorted-same : (ts : List Tier) {us : List Tier} → check_sorted ts ≡ ok us → ts ≡ us
unfolding check_sorted
check_sorted-same ts e = ground arith

map-tier_of : (ts : List Tier) → map tier_of (map input_of ts) ≡ ts
map-tier_of [] = refl
map-tier_of (t ∷ ts) = rw (tier_of-input_of t, map-tier_of ts) refl

-- A set that is validated as it stands in the table is complete as it stands.
pub stored-IsComplete :
    (tiers : List Tier) {ts : List Tier}
    → validate_tier_set (map input_of tiers) ≡ ok ts
    → IsComplete tiers
stored-IsComplete tiers {ts} e =
    let (rows, sorted) = validate_tier_set-parts (map input_of tiers) e in
    let stored = validate_rows-IsBand (map input_of tiers) rows in
    let bands : All IsBand tiers = rw (map-tier_of tiers) at stored in
    let sorted' : check_sorted (sort_from [] tiers) ≡ ok ts = rw (map-tier_of tiers) at sorted in
    let bands' = All-sort_from IsBand [] tiers tt bands in
    record {
      bands = bands;
      one = λ d.
          let (all, one) = check_sorted-covers d (sort_from [] tiers) ts bands' sorted' in
          let same : covering d (sort_from [] tiers) ≡ covering d ts =
            ap (covering d) (check_sorted-same (sort_from [] tiers) sorted') in
          omega (arith, same, covering-sort_from d [] tiers, one);
    }

-- A cancellation on any day from day 0 on finds the band of a complete set, and its two rates make
-- up the whole.
pub IsComplete-resolve_tier :
    (ts : List Tier)
    → IsComplete ts
    → (d : ℕ)
    → (u : Tier) × (resolve_tier ts (pos d) ≡ ok u)
      × (covers d u ≡ true)
      × (u.client_bps + u.artist_bps ≡ 10_000)
IsComplete-resolve_tier ts c d =
    let (u, found, covered, band) = find_one (covers d) ts c.bands (c.one d) in
    (u, resolve_tier-find d ts found, covered, band.whole_split)
