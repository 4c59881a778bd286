-- ===== src/MyBookings/Offers.antt =====
-- What a person is told to do, against what the services accept, and the order of the list.
use o_artiste.Prelude.{
  ℕ, ◌≡◌, inl, inr, All, true, false, is_some, List, [], ◌∷◌, Bool-cases, arith, ◌≤◌, ◌&&◌, ◌==◌,
  if◌then◌else◌, ltb, leb, Bool,
}
use o_artiste.Schema.{pending_payment, disputed, checked_in, state_eq}
use o_artiste.Errors.{ok, throw_if, no_show_claimed}
use o_artiste.Booking.{Booking, can_transition}
use o_artiste.Confirmation.{assert_event_is_over, assert_actionable}
use o_artiste.CheckIn.{validity_of}
use o_artiste.Creation.{Role, as_client, as_artist}
use o_artiste.Creation.Terms.{assert_acknowledged}
use o_artiste.MyBookings.{
  NextAction, accept_terms, pay, check_in, dispute_open, confirm_it, Row, before_or_level,
  insert_row, sort_rows, Group, attention, upcoming, past, group_order,
}

abbrev pub is_client : Role → Bool
is_client as_client = true
is_client as_artist = false

-- That the guards of the service behind an action which read the booking let it through.
abbrev pub Accepts : Role → ℕ → Booking → NextAction → Type 0
Accepts role t b accept_terms =
    (state_eq b.state pending_payment ≡ true) × (is_some b.acknowledged_at ≡ false)
Accepts role t b pay = (state_eq b.state pending_payment ≡ true) × (assert_acknowledged b ≡ ok tt)
Accepts role t b check_in = (can_transition b.state checked_in ≡ true) × (validity_of t b ≡ ok tt)
Accepts role t b dispute_open = state_eq b.state disputed ≡ true
Accepts role t b (confirm_it deadline) =
    (assert_event_is_over t b ≡ ok tt)
    × (assert_actionable b ≡ ok tt)
    × (throw_if (is_client role && is_some b.client_no_show_claimed_at) no_show_claimed ≡ ok tt)

-- A client who has reported a no-show is told to confirm the event.
abbrev pub Contradicts : Role → Booking → NextAction → Type 0
Contradicts as_client b (confirm_it deadline) = is_some b.client_no_show_claimed_at ≡ true
Contradicts role b action = ⊥

-- That one row may stand before another: what needs attention before what is ahead, and that
-- before what is past; of two that need attention or are ahead the sooner first, of two that are
-- past the later first.
abbrev pub MayPrecede : Group → Group → ℕ → ℕ → Type 0
MayPrecede attention attention d e = d ≤ e
MayPrecede attention upcoming d e = Unit {0}
MayPrecede attention past d e = Unit {0}
MayPrecede upcoming attention d e = ⊥
MayPrecede upcoming upcoming d e = d ≤ e
MayPrecede upcoming past d e = Unit {0}
MayPrecede past attention d e = ⊥
MayPrecede past upcoming d e = ⊥
MayPrecede past past d e = e ≤ d

abbrev pub Precedes : Row → Row → Type 0
Precedes r s = MayPrecede r.group s.group r.booking.event_date s.booking.event_date

-- That each row may stand before the next.
abbrev pub InOrder : List Row → Type 0
InOrder [] = Unit
InOrder (r ∷ []) = Unit
InOrder (r ∷ s ∷ ss) = Precedes r s × InOrder (s ∷ ss)

before_or_level-Precedes : (r s : Row) → before_or_level r s ≡ true → Precedes r s
unfolding before_or_level
before_or_level-Precedes r s h = groups r.group s.group h
  where
    groups :
        (g g' : Group)
        → (if group_order g == group_order g'
            then elim g [
              | past ↦ leb s.booking.event_date r.booking.event_date
              | _ ↦ leb r.booking.event_date s.booking.event_date
            ]
            else ltb (group_order g) (group_order g'))
          ≡ true
        → MayPrecede g g' r.booking.event_date s.booking.event_date
    groups attention attention e = ground arith
    groups attention upcoming e = tt
    groups attention past e = tt
    groups upcoming attention e = absurd cc
    groups upcoming upcoming e = ground arith
    groups upcoming past e = tt
    groups past attention e = absurd cc
    groups past upcoming e = absurd cc
    groups past past e = ground arith

before_or_level-total : (r s : Row) → before_or_level r s ≡ false → before_or_level s r ≡ true
unfolding before_or_level
before_or_level-total r s h = ground arith

insert_row-InOrder : (r : Row) (ss : List Row) → InOrder ss → InOrder (insert_row r ss)
unfolding insert_row
insert_row-InOrder r [] h = tt
insert_row-InOrder r (s ∷ ss) h = elim (Bool-cases (before_or_level r s)) [
  | inl e ↦ rw (insert_row, e) (before_or_level-Precedes r s e, h)
  | inr e ↦ rw (insert_row, e) (behind r s ss (before_or_level-total r s e) h)
]
  where
    behind :
        (r s : Row) (ss : List Row)
        → before_or_level s r ≡ true
        → InOrder (s ∷ ss)
        → InOrder (s ∷ insert_row r ss)
    behind r s [] e h = (before_or_level-Precedes s r e, tt)
    behind r s (u ∷ us) e h = elim (Bool-cases (before_or_level r u)) [
      | inl f ↦
          rw (insert_row, f) (before_or_level-Precedes s r e, (before_or_level-Precedes r u f, h.1))
      | inr f ↦ rw (insert_row, f) (h.0, behind r u us (before_or_level-total r u f) h.1)
    ]

pub sort_rows-InOrder : (rs : List Row) → InOrder (sort_rows rs)
unfolding sort_rows
sort_rows-InOrder [] = tt
sort_rows-InOrder (r ∷ rs) = insert_row-InOrder r (sort_rows rs) (sort_rows-InOrder rs)

module _ (P : Row → Type 0) where
  All-insert_row : (r : Row) (ss : List Row) → P r → All P ss → All P (insert_row r ss)
  unfolding insert_row
  All-insert_row r [] h hs = (h, tt)
  All-insert_row r (s ∷ ss) h hs = elim (Bool-cases (before_or_level r s)) [
    | inl e ↦ rw e (h, hs)
    | inr e ↦ rw e (hs.0, All-insert_row r ss h hs.1)
  ]

  pub All-sort_rows : (rs : List Row) → All P rs → All P (sort_rows rs)
  unfolding sort_rows
  All-sort_rows [] hs = tt
  All-sort_rows (r ∷ rs) hs = All-insert_row r (sort_rows rs) hs.0 (All-sort_rows rs hs.1)
