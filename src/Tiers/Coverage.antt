-- ===== src/Tiers/Coverage.antt =====
-- What the validation of a tier set guarantees to a later cancellation.
use o_artiste.Prelude.{
  ℕ, pos, ◌+◌, ◌≤◌, ◌<◌, ◌≡◌, Bool, true, some, List, [], ◌∷◌, All, keep, find, length, map, arith,
  Bool-cases, Option-cases, inl, inr,
}
use o_artiste.Errors.{ok}
use o_artiste.Tiers.{
  Tier, TierInput, tier_of, validate_rows, check_neighbours, check_sorted, sort_from, last_of,
  is_open_ended, covers, validate_tier_set, resolve_tier,
}
use o_artiste.Tiers.Sorting.{IsBand, validate_rows-IsBand, All-sort_from}

-- How many of the rows cover a day.
abbrev pub covering : ℕ → List Tier → ℕ
covering d ts = length (keep (covers d) ts)

abbrev Covered : ℕ → ℕ → List Tier → Type 0
Covered d start ts = (start ≤ d → covering d ts ≡ 1) × (d < start → covering d ts ≡ 0)

Covered-cons :
    (d : ℕ) (t : Tier) (m next : ℕ) (ts : List Tier)
    → IsBand t
    → t.max_days ≡ some m
    → next ≡ m + 1
    → Covered d next ts
    → Covered d t.min_days (t ∷ ts)
Covered-cons d t m next ts band closed e h = ground (arith, band.runs_forward m closed)

Covered-last : (d : ℕ) (t : Tier) → is_open_ended t ≡ true → Covered d t.min_days (t ∷ [])
Covered-last d t open_end = ground arith

-- A neighbour that passes begins on the day after the row before it ends.
check_neighbours-step :
    (t u : Tier) (us : List Tier)
    → check_neighbours t (u ∷ us) ≡ ok tt
    → (m : ℕ) × (t.max_days ≡ some m) × (u.min_days ≡ m + 1) × (check_neighbours u us ≡ ok tt)
unfolding check_neighbours
check_neighbours-step t u us e = elim (Option-cases t.max_days) [
  | inl open_end ↦ absurd (ground arith)
  | inr (m, closed) ↦ (m, closed, ground arith, ground arith)
]

-- The loop over neighbours that passes leaves every day from the first start on to one row.
check_neighbours-Covered :
    (d : ℕ) (t : Tier) (ts : List Tier)
    → All IsBand (t ∷ ts)
    → check_neighbours t ts ≡ ok tt
    → is_open_ended (last_of t ts) ≡ true
    → Covered d t.min_days (t ∷ ts)
check_neighbours-Covered d t [] h e o = Covered-last d t o
check_neighbours-Covered d t (u ∷ us) h e o =
    let (m, closed, next, later) = check_neighbours-step t u us e in
    let rest = check_neighbours-Covered d u us h.1 later o in
    Covered-cons d t m u.min_days (u ∷ us) h.0 closed next rest

-- A search among rows of which one satisfies the test finds it.
pub find_one :
    (p : Tier → Bool) (ts : List Tier)
    → All IsBand ts
    → length (keep p ts) ≡ 1
    → (u : Tier) × (find p ts ≡ some u) × (p u ≡ true) × IsBand u
find_one p [] h e = absurd (omega arith)
find_one p (t ∷ ts) h e = elim (Bool-cases (p t)) [
  | inl here ↦ (t, rw here, here, h.0)
  | inr past ↦ rw past (find_one p ts h.1 (rw past at e))
]

check_sorted-parts :
    (t : Tier) (ts us : List Tier)
    → check_sorted (t ∷ ts) ≡ ok us
    → (us ≡ t ∷ ts)
      × (is_open_ended (last_of t ts) ≡ true)
      × (t.min_days ≡ 0)
      × (check_neighbours t ts ≡ ok tt)
unfolding check_sorted
check_sorted-parts t ts us e = ground arith

pub check_sorted-covers :
    (d : ℕ) (ts us : List Tier)
    → All IsBand ts
    → check_sorted ts ≡ ok us
    → All IsBand us × (covering d us ≡ 1)
check_sorted-covers d [] us h e = absurd (unfold check_sorted in cc)
check_sorted-covers d (t ∷ ts) us h e =
    let (same, open_end, zeroth, loop) = check_sorted-parts t ts us e in
    rw same (h, (check_neighbours-Covered d t ts h loop open_end).0 (omega arith))

pub validate_tier_set-parts :
    (inputs : List TierInput) {ts : List Tier}
    → validate_tier_set inputs ≡ ok ts
    → (validate_rows inputs ≡ ok tt) × (check_sorted (sort_from [] (map tier_of inputs)) ≡ ok ts)
unfolding validate_tier_set
validate_tier_set-parts inputs e = ground arith

pub resolve_tier-find :
    (d : ℕ) (ts : List Tier) {u : Tier}
    → find (covers d) ts ≡ some u
    → resolve_tier ts (pos d) ≡ ok u
unfolding resolve_tier
resolve_tier-find d [] e = cc
resolve_tier-find d (t ∷ ts) e = rw (e, resolve_tier)

-- A tier set that is accepted has exactly one row for each day from day 0 on; a cancellation on
-- any such day finds that row, and its two rates make up the whole.
pub validate_tier_set-covers :
    (inputs : List TierInput) {ts : List Tier}
    → validate_tier_set inputs ≡ ok ts
    → (d : ℕ)
    → (covering d ts ≡ 1)
      × ((u : Tier) × (resolve_tier ts (pos d) ≡ ok u)
          × (covers d u ≡ true)
          × (u.client_bps + u.artist_bps ≡ 10_000))
validate_tier_set-covers inputs {ts} e d =
    let (rows, sorted) = validate_tier_set-parts inputs e in
    let bands =
      All-sort_from IsBand [] (map tier_of inputs) tt (validate_rows-IsBand inputs rows) in
    let (bands', one) = check_sorted-covers d (sort_from [] (map tier_of inputs)) ts bands sorted in
    let (u, found, covered, band) = find_one (covers d) ts bands' one in
    (one, (u, resolve_tier-find d ts found, covered, band.whole_split))
