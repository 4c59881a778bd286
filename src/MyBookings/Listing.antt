-- ===== src/MyBookings/Listing.antt =====
-- The list of a person's bookings: what stands in it, in which order, and that nothing is missing.
use o_artiste.Prelude.{
  ℕ, zero, suc, ◌+◌, ◌≡◌, ◌≤◌, ◌⊎◌, inl, inr, refl, sym, ap, ◌∙◌, All, All-keep, All-take,
  All-sort_by, Bool, true, Option, some, none, List, [], ◌∷◌, keep, map, take, length, sort_by,
  insert_by, leb, Bool-cases, arith,
}
use o_artiste.Booking.{Booking}
use o_artiste.Store.{Db}
use o_artiste.Creation.{Role}
use o_artiste.Reputation.{all_bookings}
use o_artiste.MyBookings.{
  Row, before_or_level, insert_row, sort_rows, list_my_bookings, is_own, row_of, next_action_for,
  group_for,
}
use o_artiste.MyBookings.Offers.{InOrder, sort_rows-InOrder, All-sort_rows}

-- A row of the list: the person's own booking, with the action of the moment and its group.
abbrev pub IsOwnRow : ℕ → Role → ℕ → Row → Type 0
IsOwnRow user_id role t r =
    (is_own user_id role r.booking ≡ true)
    × (r.action ≡ next_action_for r.booking role t)
    × (r.group ≡ group_for r.booking r.action t)

rows_of :
    (user_id : ℕ) (role : Role) (t : ℕ) (bs : List Booking)
    → All (λ b. is_own user_id role b ≡ true) bs
    → All (IsOwnRow user_id role t) (map (row_of role t) bs)
rows_of user_id role t [] h = tt
rows_of user_id role t (b ∷ bs) h = ((h.0, refl, refl), rows_of user_id role t bs h.1)

length-insert_row : (r : Row) (ss : List Row) → length (insert_row r ss) ≡ length ss + 1
unfolding insert_row
length-insert_row r [] = refl
length-insert_row r (s ∷ ss) = elim (Bool-cases (before_or_level r s)) [
  | inl e ↦ rw e (omega arith)
  | inr e ↦ rw e (omega (arith, length-insert_row r ss))
]

length-sort_rows : (rs : List Row) → length (sort_rows rs) ≡ length rs
unfolding sort_rows
length-sort_rows [] = refl
length-sort_rows (r ∷ rs) = omega (arith, length-insert_row r (sort_rows rs), length-sort_rows rs)

length-map : {A C : Type 0} (f : A → C) (xs : List A) → length (map f xs) ≡ length xs
length-map f [] = refl
length-map f (x ∷ xs) = omega (arith, length-map f xs)

module _ {A : Type 0} (key : A → ℕ) where
  length-insert_by : (x : A) (ys : List A) → length (insert_by key x ys) ≡ length ys + 1
  length-insert_by x [] = refl
  length-insert_by x (y ∷ ys) = elim (Bool-cases (leb (key x) (key y))) [
    | inl e ↦ rw e (omega arith)
    | inr e ↦ rw e (omega (arith, length-insert_by x ys))
  ]

  length-sort_by : (xs : List A) → length (sort_by key xs) ≡ length xs
  length-sort_by [] = refl
  length-sort_by (x ∷ xs) = omega (arith, length-insert_by x (sort_by key xs), length-sort_by xs)

length-take : {A : Type 0} (n : ℕ) (xs : List A) → length xs ≤ n → length (take n xs) ≡ length xs
length-take n [] h = refl
length-take zero (x ∷ xs) h = omega (arith, h)
length-take (suc n) (x ∷ xs) h = omega (arith, length-take n xs (omega (arith, h)))

-- That a value is in a list.
abbrev pub Among : {A : Type 0} → A → List A → Type 0
Among x [] = ⊥
Among x (y ∷ ys) = (x ≡ y) ⊎ Among x ys

Among-insert_row : (x r : Row) (ss : List Row) → (x ≡ r) ⊎ Among x ss → Among x (insert_row r ss)
unfolding insert_row
Among-insert_row x r [] h = h
Among-insert_row x r (s ∷ ss) h = elim (Bool-cases (before_or_level r s)) [
  | inl e ↦ rw e h
  | inr e ↦ elim h [
    | inl same ↦ rw e (inr (Among-insert_row x r ss (inl same)))
    | inr (inl same) ↦ rw e (inl same)
    | inr (inr there) ↦ rw e (inr (Among-insert_row x r ss (inr there)))
  ]
]

Among-sort_rows : (x : Row) (rs : List Row) → Among x rs → Among x (sort_rows rs)
unfolding sort_rows
Among-sort_rows x [] there = absurd there
Among-sort_rows x (r ∷ rs) (inl same) = Among-insert_row x r (sort_rows rs) (inl same)
Among-sort_rows x (r ∷ rs) (inr there) =
    Among-insert_row x r (sort_rows rs) (inr (Among-sort_rows x rs there))

Among-map : {A C : Type 0} (f : A → C) (x : A) (xs : List A) → Among x xs → Among (f x) (map f xs)
Among-map f x [] there = absurd there
Among-map f x (y ∷ ys) (inl same) = inl (ap f same)
Among-map f x (y ∷ ys) (inr there) = inr (Among-map f x ys there)

Among-take :
    {A : Type 0} (n : ℕ) (x : A) (xs : List A) → length xs ≤ n → Among x xs → Among x (take n xs)
Among-take n x [] h there = absurd there
Among-take zero x (y ∷ ys) h there = omega (arith, h)
Among-take (suc n) x (y ∷ ys) h (inl same) = inl same
Among-take (suc n) x (y ∷ ys) h (inr there) = inr (Among-take n x ys (omega (arith, h)) there)

module _ {A : Type 0} (key : A → ℕ) where
  Among-insert_by : (x y : A) (zs : List A) → (x ≡ y) ⊎ Among x zs → Among x (insert_by key y zs)
  Among-insert_by x y [] h = h
  Among-insert_by x y (z ∷ zs) h = elim (Bool-cases (leb (key y) (key z))) [
    | inl e ↦ rw e h
    | inr e ↦ elim h [
      | inl same ↦ rw e (inr (Among-insert_by x y zs (inl same)))
      | inr (inl same) ↦ rw e (inl same)
      | inr (inr there) ↦ rw e (inr (Among-insert_by x y zs (inr there)))
    ]
  ]

  Among-sort_by : (x : A) (ys : List A) → Among x ys → Among x (sort_by key ys)
  Among-sort_by x [] there = absurd there
  Among-sort_by x (y ∷ ys) (inl same) = Among-insert_by x y (sort_by key ys) (inl same)
  Among-sort_by x (y ∷ ys) (inr there) =
      Among-insert_by x y (sort_by key ys) (inr (Among-sort_by x ys there))

Among-keep :
    {A : Type 0} (p : A → Bool) (x : A) (xs : List A)
    → p x ≡ true
    → Among x xs
    → Among x (keep p xs)
Among-keep p x [] h there = absurd there
Among-keep p x (y ∷ ys) h (inl same) =
    let kept : p y ≡ true = ap p (sym same) ∙ h in rw kept (inl same)
Among-keep p x (y ∷ ys) h (inr there) = elim (Bool-cases (p y)) [
  | inl e ↦ rw e (inr (Among-keep p x ys h there))
  | inr e ↦ rw e (Among-keep p x ys h there)
]

Among-behind :
    (b : Booking) (row : Option Booking) (rest : List Booking)
    → Among b rest
    → Among b (elim row [ none ↦ rest | some c ↦ c ∷ rest ])
Among-behind b none rest there = there
Among-behind b (some c) rest there = inr there

Among-all_bookings :
    (ids : List ℕ) (db : Db) (k : ℕ) (b : Booking)
    → Among k ids
    → db.bookings k ≡ some b
    → Among b (all_bookings ids db)
Among-all_bookings [] db k b there at = absurd there
Among-all_bookings (j ∷ js) db k b (inl same) at =
    let found : db.bookings j ≡ some b = ap db.bookings (sym same) ∙ at in
    rw (all_bookings, found) (inl refl)
Among-all_bookings (j ∷ js) db k b (inr there) at =
    Among-behind b (db.bookings j) (all_bookings js db) (Among-all_bookings js db k b there at)

-- The list of a person has no booking but the person's own in that role, each with the action that
-- waits on the person at that instant and the group that follows from it, and each row may stand
-- before the next: what needs attention first, then what is ahead, both with the soonest first,
-- then what is past with the most recent first.
pub list_my_bookings-InOrder :
    (user_id : ℕ) (role : Role) (t : ℕ) (db : Db)
    → InOrder (list_my_bookings user_id role t db)
      × All (IsOwnRow user_id role t) (list_my_bookings user_id role t db)
unfolding list_my_bookings
list_my_bookings-InOrder user_id role t db =
    let all = all_bookings db.booking_ids db in
    let own = keep (is_own user_id role) all in
    let sorted = sort_by (λ b. b.event_date) own in
    let mine =
      All-sort_by (λ b. is_own user_id role b ≡ true) (λ b. b.event_date) own
        (All-keep (λ b. is_own user_id role b ≡ true) (is_own user_id role) all (λ b e. e)) in
    (
      sort_rows-InOrder (map (row_of role t) (take 200 sorted)),
      All-sort_rows (IsOwnRow user_id role t) (map (row_of role t) (take 200 sorted)) (
          rows_of user_id role t (take 200 sorted)
            (All-take (λ b. is_own user_id role b ≡ true) 200 sorted mine)),
    )

-- A person with no more than 200 bookings in a role finds every one of them in the list, and the list
-- is as long as there are such bookings in the table.
pub list_my_bookings_complete :
    (user_id : ℕ) (role : Role) (t : ℕ) (db : Db) (k : ℕ) (b : Booking)
    → Among k db.booking_ids
    → db.bookings k ≡ some b
    → is_own user_id role b ≡ true
    → length (keep (is_own user_id role) (all_bookings db.booking_ids db)) ≤ 200
    → Among (row_of role t b) (list_my_bookings user_id role t db)
      × (length (list_my_bookings user_id role t db)
          ≡ length (keep (is_own user_id role) (all_bookings db.booking_ids db)))
unfolding list_my_bookings
list_my_bookings_complete user_id role t db k b known at mine few =
    let own = keep (is_own user_id role) (all_bookings db.booking_ids db) in
    let sorted = sort_by (λ (c : Booking). c.event_date) own in
    let same : length sorted ≡ length own = length-sort_by (λ (c : Booking). c.event_date) own in
    let fits : length sorted ≤ 200 = rw same few in
    let there =
      Among-keep (is_own user_id role) b (all_bookings db.booking_ids db) mine
        (Among-all_bookings db.booking_ids db k b known at) in
    (
      Among-sort_rows (row_of role t b) (map (row_of role t) (take 200 sorted)) (
          Among-map (row_of role t) b (take 200 sorted) (
            Among-take 200 b sorted fits
              (Among-sort_by (λ (c : Booking). c.event_date) b own there))),
      length-sort_rows (map (row_of role t) (take 200 sorted))
          ∙ (length-map (row_of role t) (take 200 sorted) ∙ (length-take 200 sorted fits ∙ same)),
    )
