-- ===== src/Reputation/Listing.antt =====
-- The figures of a listing against those of one artist: one pass with buckets, and one query each.
use o_artiste.Prelude.{
  ℕ, ltb, ◌+◌, ◌≡◌, refl, ap, ◌∙◌, ◌==◌, ==_refl, Bool, true, false, Option, some, List, [], ◌∷◌,
  keep, map, find, length, Bool-cases, inl, inr, arith, ==_iff,
}
use o_artiste.Booking.{Booking}
use o_artiste.Store.{Db}
use o_artiste.Versions.{resolve_config}
use o_artiste.Reputation.{
  of_artist, attributable_to, concluded_within, concluded_of, all_bookings, rate_for, Buckets,
  includes_id, fill, rates_for_artists, concluded_of_any, rate_of_bucket,
}

abbrev is_of : ℕ → Booking → Bool
is_of k b = b.artist_user_id == k

-- What the loop has counted for an artist that was asked for.
fill_lem :
    (db : Db) (ids : List ℕ) (k : ℕ) (bs : List Booking) (buckets : Buckets)
    → includes_id k ids ≡ true
    → fill db ids bs buckets k ≡ (
      (buckets k).0 + length (keep (is_of k) bs),
      (buckets k).1 + length (keep (attributable_to db of_artist) (keep (is_of k) bs)),
    )
unfolding fill
fill_lem db ids k [] buckets asked = ground arith
fill_lem db ids k (b ∷ bs) buckets asked = elim (Bool-cases (is_of k b)) [
  | inr other ↦
      let ne : (k == b.artist_user_id) ≡ false = ground (arith, other) in
      rw (fill, other, fill_lem db ids k bs _ asked, ne) refl
  | inl own ↦
      let eq : (k == b.artist_user_id) ≡ true = ground (arith, own) in
      elim (Bool-cases (attributable_to db of_artist b)) [
        | inl counts ↦
            rw (fill, own, fill_lem db ids k bs _ asked, eq, asked, counts) (ground arith)
        | inr not_its ↦
            rw (fill, own, fill_lem db ids k bs _ asked, eq, asked, not_its) (ground arith)
      ]
]

asked_own :
    (ids : List ℕ) (since at k : ℕ) (bs : List Booking)
    → includes_id k ids ≡ true
    → keep (is_of k) (keep (concluded_of_any ids since at) bs)
      ≡ keep (concluded_of of_artist k since at) bs
asked_own ids since at k [] asked = refl
asked_own ids since at k (b ∷ bs) asked = elim (Bool-cases (is_of k b)) [
  | inl own ↦
      let same : b.artist_user_id ≡ k = (==_iff b.artist_user_id k).0 own in
      let there : includes_id b.artist_user_id ids ≡ true = rw same asked in
      elim (Bool-cases (concluded_within since at b)) [
        | inl c ↦ rw (there, c, own, asked_own ids since at k bs asked) refl
        | inr c ↦ rw (there, c, own, asked_own ids since at k bs asked) refl
      ]
  | inr other ↦ elim (Bool-cases (concluded_of_any ids since at b)) [
    | inl c ↦ rw (c, other, asked_own ids since at k bs asked) refl
    | inr c ↦ rw (c, other, asked_own ids since at k bs asked) refl
  ]
]

abbrev pub is_for : ℕ → ℕ × Option ℕ → Bool
is_for k p = p.0 == k

find-map :
    (f : ℕ → Option ℕ) (k : ℕ) (ids : List ℕ)
    → includes_id k ids ≡ true
    → find (is_for k) (map (λ j. (j, f j)) ids) ≡ some (k, f k)
find-map f k [] asked = cc
find-map f k (j ∷ js) asked = elim (Bool-cases (j == k)) [
  | inl e ↦ let same : j ≡ k = (==_iff j k).0 e in rw (same, ==_refl k) refl
  | inr e ↦ let later : includes_id k js ≡ true = rw e at asked in rw e (find-map f k js later)
]

-- For each artist of the list, whatever the months of the window come to, the one pass of the
-- listing gives the rate that the query for that artist alone gives.
pub rates_for_artists-rate_for :
    (months_before : ℕ → ℕ → ℕ) (ids : List ℕ) (at : ℕ) (db : Db) (k : ℕ)
    → includes_id k ids ≡ true
    → find (is_for k) (rates_for_artists months_before ids at db)
      ≡ some (k, (rate_for months_before k of_artist at db).rate)
unfolding rates_for_artists rate_for
rates_for_artists-rate_for months_before ids at db k asked =
    let config = resolve_config at db in
    let since = months_before config.0 at in
    let found = keep (concluded_of_any ids since at) (all_bookings db.booking_ids db) in
    let own = keep (concluded_of of_artist k since at) (all_bookings db.booking_ids db) in
    let bucket : fill db ids found (λ j. (0, 0)) k
        ≡ (length own, length (keep (attributable_to db of_artist) own)) =
      rw
        (
          fill_lem db ids k found (λ j. (0, 0)) asked,
          asked_own ids since at k (all_bookings db.booking_ids db) asked,
        )
        (ground arith) in
    find-map (λ j. rate_of_bucket config.1 (fill db ids found (λ j. (0, 0)) j)) k ids asked
    ∙ (ap (λ x. Option.some (k, rate_of_bucket config.1 x)) bucket
        ∙ elim (Bool-cases (ltb (length own) config.1)) [
          | inl few ↦ rw (rate_for, few) refl
          | inr enough ↦ rw (rate_for, enough) refl
        ])
