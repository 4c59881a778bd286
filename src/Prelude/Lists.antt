-- ===== src/Prelude/Lists.antt =====
-- Lists measured by native numbers, and predicates on their members.
use Prim.Native.Nat.{ℕ, zero, suc, ◌+◌}
use mathlib.Core.Path.{◌≡◌}
use mathlib.Core.Logic.{inl, inr}
use mathlib.Core.Bool.{Bool, true, ◌&&◌}
use mathlib.Core.Option.{Option, none, some}
use mathlib.Core.List.{List, [], ◌∷◌, ◌++◌}
use native.Mathlib.Omega.{arith}
use o_artiste.Prelude.Tests.{leb, if◌then◌else◌, Bool-cases}

module _ {ℓ} {A : Type ℓ} where
  abbrev pub length : List A → ℕ
  length [] = 0
  length (x ∷ xs) = suc (length xs)

  -- Array.prototype.filter
  abbrev pub keep : (A → Bool) → List A → List A
  keep p [] = []
  keep p (x ∷ xs) = let rest = keep p xs in if p x then x ∷ rest else rest

  -- Array.prototype.find
  abbrev pub find : (A → Bool) → List A → Option A
  find p [] = none
  find p (x ∷ xs) = let rest = find p xs in if p x then some x else rest

  abbrev pub take : ℕ → List A → List A
  take n [] = []
  take zero (x ∷ xs) = []
  take (suc n) (x ∷ xs) = x ∷ take n xs

  pub length-append : (xs ys : List A) → length (xs ++ ys) ≡ length xs + length ys
  length-append [] ys = omega arith
  length-append (x ∷ xs) ys = omega (arith, length-append xs ys)

module _ {ℓ} {A : Type ℓ} (key : A → ℕ) where
  abbrev pub insert_by : A → List A → List A
  insert_by x [] = x ∷ []
  insert_by x (y ∷ ys) =
      let rest = insert_by x ys in if leb (key x) (key y) then x ∷ y ∷ ys else y ∷ rest

  -- `orderBy: { key: 'asc' }`
  abbrev pub sort_by : List A → List A
  sort_by [] = []
  sort_by (x ∷ xs) = insert_by x (sort_by xs)

  -- The row that a query for the last one in force finds: the greatest key that is at most the
  -- bound, and of rows with that key the one created last. The first argument is the best so far.
  abbrev pub latest_from : ℕ → Option A → List A → Option A
  latest_from bound best [] = best
  latest_from bound best (x ∷ xs) =
      let kept : Bool = elim best [
        | none ↦ leb (key x) bound
        | some b ↦ leb (key x) bound && leb (key b) (key x)
      ] in
      latest_from bound (if kept then some x else best) xs

abbrev pub All {ℓ κ} : {A : Type ℓ} → (A → Type κ) → List A → Type κ
All P [] = Unit
All P (x ∷ xs) = P x × All P xs

module _ {ℓ κ} {A : Type ℓ} (P : A → Type κ) where
  pub All-keep : (p : A → Bool) (xs : List A) → ((x : A) → p x ≡ true → P x) → All P (keep p xs)
  All-keep p [] h = _
  All-keep p (x ∷ xs) h = elim (Bool-cases (p x)) [
    | inl e ↦ rw e (h x e, All-keep p xs h)
    | inr e ↦ rw e (All-keep p xs h)
  ]

  pub All-take : (n : ℕ) (xs : List A) → All P xs → All P (take n xs)
  All-take n [] h = _
  All-take zero (x ∷ xs) h = _
  All-take (suc n) (x ∷ xs) h = (h.0, All-take n xs h.1)

  module _ (key : A → ℕ) where
    pub All-insert_by : (x : A) (ys : List A) → P x → All P ys → All P (insert_by key x ys)
    All-insert_by x [] h hs = (h, _)
    All-insert_by x (y ∷ ys) h hs = elim (Bool-cases (leb (key x) (key y))) [
      | inl e ↦ rw e (h, hs)
      | inr e ↦ rw e (hs.0, All-insert_by x ys h hs.1)
    ]

    pub All-sort_by : (xs : List A) → All P xs → All P (sort_by key xs)
    All-sort_by [] hs = _
    All-sort_by (x ∷ xs) hs = All-insert_by x (sort_by key xs) hs.0 (All-sort_by xs hs.1)
