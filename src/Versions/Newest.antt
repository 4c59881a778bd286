-- ===== src/Versions/Newest.antt =====
-- The rows that a publication adds to a table of versions, whatever the table: a row has a date from
-- which it holds and the number of its version.
use o_artiste.Prelude.{
  ℕ, leb, le→leb, ◌≤◌, ◌≡◌, ◌≢◌, refl, true, false, Option, none, some, List, [], ◌∷◌, ◌++◌, keep,
  latest_from, arith, Bool, Bool-cases, inl, inr, All, ◌==◌, ==_refl, ◌&&◌,
}
use o_artiste.Books.Transactions.{some-injective}
use o_artiste.Versions.History.{latest_from-append}

module _ {A : Type 0} where
  pub keep-++ : (p : A → Bool) (xs ys : List A) → keep p (xs ++ ys) ≡ keep p xs ++ keep p ys
  keep-++ p [] ys = refl
  keep-++ p (x ∷ xs) ys = elim (Bool-cases (p x)) [
    | inl e ↦ rw (e, keep-++ p xs ys) refl
    | inr e ↦ rw (e, keep-++ p xs ys) refl
  ]

  pub keep_nothing : (p : A → Bool) (xs : List A) → All (λ x. p x ≡ false) xs → keep p xs ≡ []
  keep_nothing p [] h = refl
  keep_nothing p (x ∷ xs) h = rw (h.0) (keep_nothing p xs h.1)

  -- The row that a query finds is one of the table.
  pub latest_from-All :
      (key : A → ℕ) (P : A → Type 0) (bound : ℕ) (xs : List A) (best : Option A) {r : A}
      → All P xs
      → ((b : A) → best ≡ some b → P b)
      → latest_from key bound best xs ≡ some r
      → P r
  latest_from-All key P bound [] best hs h e = h _ e
  latest_from-All key P bound (x ∷ xs) none hs h e = elim (Bool-cases (leb (key x) bound)) [
    | inl c ↦
        let e' = rw (latest_from, c) at e in
        latest_from-All key P bound xs (some x) hs.1 (λ b f. rw (← some-injective f) hs.0) e'
    | inr c ↦ let e' = rw (latest_from, c) at e in latest_from-All key P bound xs none hs.1 h e'
  ]
  latest_from-All key P bound (x ∷ xs) (some b) hs h e =
      elim (Bool-cases (leb (key x) bound && leb (key b) (key x))) [
        | inl c ↦
            let e' = rw (latest_from, c) at e in
            latest_from-All key P bound xs (some x) hs.1 (λ b f. rw (← some-injective f) hs.0) e'
        | inr c ↦
            let e' = rw (latest_from, c) at e in latest_from-All key P bound xs (some b) hs.1 h e'
      ]

module _ {A : Type 0} (key number : A → ℕ) (version from : ℕ) where
  -- All rows are of the version and hold from its date.
  abbrev pub AreOf : List A → Type 0
  AreOf = All (λ r. (number r ≡ version) × (key r ≡ from))

  pub keep-AreOf : (ys : List A) → AreOf ys → keep (λ r. number r == version) ys ≡ ys
  keep-AreOf [] h = refl
  keep-AreOf (y ∷ ys) h = rw (h.0.0, ==_refl version, keep-AreOf ys h.1) refl

  newest_behind :
      (bound : ℕ) (best : A) (ys : List A)
      → from ≤ bound
      → number best ≡ version
      → key best ≡ from
      → AreOf ys
      → (r : A) × (latest_from key bound (some best) ys ≡ some r) × (number r ≡ version)
  newest_behind bound best [] due v f h = (best, refl, v)
  newest_behind bound best (y ∷ ys) due v f h =
      let (r, found, mine) = newest_behind bound y ys due h.0.0 h.0.1 h.1 in
      let now : leb (key y) bound ≡ true = rw (h.0.1) (le→leb from bound due) in
      let level : leb (key best) (key y) ≡ true = ground (arith, f, h.0.1) in
      (r, rw (latest_from, now, level) found, mine)

  -- Once they are due, behind rows that are no later, one of them is found.
  pub latest_from-AreOf :
      (bound : ℕ) (xs ys : List A)
      → from ≤ bound
      → ys ≢ []
      → All (λ x. key x ≤ from) xs
      → AreOf ys
      → (r : A) × (latest_from key bound none (xs ++ ys) ≡ some r) × (number r ≡ version)
  latest_from-AreOf bound xs [] due some_row older h = absurd (some_row refl)
  latest_from-AreOf bound xs (y ∷ ys) due some_row older h =
      let (r, found, mine) = newest_behind bound y ys due h.0.0 h.0.1 h.1 in
      let now : leb (key y) bound ≡ true = rw (h.0.1) (le→leb from bound due) in
      let best = latest_from key bound none xs in
      let next : latest_from key bound best (y ∷ ys) ≡ some r =
        elim best as (λ b. best ≡ b → latest_from key bound b (y ∷ ys) ≡ some r) [
          | none ↦ λ e. rw (latest_from, now) found
          | some b ↦ λ e.
              let low : key b ≤ from =
                latest_from-All key (λ x. key x ≤ from) bound xs none older (λ c f. absurd cc) e in
              let level : leb (key b) (key y) ≡ true = ground (arith, low, h.0.1) in
              rw (latest_from, now, level) found
        ]
          refl in
      (r, rw (latest_from-append key bound xs none (y ∷ ys)) next, mine)

  -- The rows of a version that no row bore are the ones added.
  pub keep-added :
      (xs ys : List A)
      → All (λ x. (number x == version) ≡ false) xs
      → AreOf ys
      → keep (λ r. number r == version) (xs ++ ys) ≡ ys
  keep-added xs ys fresh of =
      rw
        (keep-++ (λ r. number r == version) xs ys, keep_nothing (λ r. number r == version) xs fresh)
        (keep-AreOf ys of)
