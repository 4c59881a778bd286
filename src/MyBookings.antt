-- ===== src/MyBookings.antt =====
-- apps/backend/src/services/myBookingsService.ts: what waits on a person, and the order in which the
-- person's bookings are listed. Labels and the names of the other party are texts and are left out.
pub mod Offers
pub mod Listing
use o_artiste.Prelude.{
  ℕ, ltb, leb, ◌==◌, if◌then◌else◌, Bool, true, false, not, ◌&&◌, ◌||◌, Option, none, some, is_some,
  List, [], ◌∷◌, keep, map, take, sort_by,
}
use o_artiste.Schema.{
  BookingState, pending_payment, funded_held, checked_in, awaiting_confirmation, released, refunded,
  cancelled, disputed, resolved, state_eq,
}
use o_artiste.Booking.{Booking}
use o_artiste.Store.{Db}
use o_artiste.Disputes.{is_closed}
use o_artiste.Confirmation.{is_actionable}
use o_artiste.Creation.{Role, as_client, as_artist}
use o_artiste.Reputation.{all_bookings}

pub data NextAction : Type 0 where
  accept_terms pay check_in dispute_open : NextAction
  -- with the instant at which silence decides
  confirm_it : Option ℕ → NextAction

abbrev opens_and_closes : ℕ → Option ℕ → Option ℕ → Bool
opens_and_closes t (some opens) (some closes) = leb opens t && leb t closes
opens_and_closes t opens closes = false

-- `['CHECKED_IN', 'AWAITING_CONFIRMATION'].includes(b.state)`
abbrev artist_may_confirm : BookingState → Bool
artist_may_confirm s = state_eq s checked_in || state_eq s awaiting_confirmation

abbrev for_the_client : ℕ → Booking → Option NextAction
for_the_client t b =
    if state_eq b.state pending_payment
    then some (if is_some b.acknowledged_at then pay else accept_terms)
    else if leb b.event_end_at t && (not (is_some b.client_confirmed_at) && is_actionable b.state)
    then some (confirm_it b.auto_release_at)
    else none

abbrev for_the_artist : ℕ → Booking → Option NextAction
for_the_artist t b =
    if state_eq b.state funded_held
      && opens_and_closes t b.check_in_code_valid_from b.check_in_code_valid_to
    then some check_in
    else if leb b.event_end_at t
        && (not (is_some b.artist_confirmed_at) && artist_may_confirm b.state)
    then some (confirm_it none)
    else none

-- `nextActionFor`
unfoldable pub next_action_for : Booking → Role → ℕ → Option NextAction
next_action_for b role t =
    if state_eq b.state disputed
    then some dispute_open
    else elim role [ as_client ↦ for_the_client t b | as_artist ↦ for_the_artist t b ]

pub data Group : Type 0 where
  attention upcoming past : Group

unfoldable pub group_for : Booking → Option NextAction → ℕ → Group
group_for b (some action) t = attention
group_for b none t =
    if is_closed b.state then past else if ltb t b.event_end_at then upcoming else past

-- `GROUP_ORDER`
abbrev group_order : Group → ℕ
group_order attention = 0
group_order upcoming = 1
group_order past = 2

pub record Row : Type 0 where
  pub booking : Booking
  pub action : Option NextAction
  pub group : Group

-- Whether the comparator puts one row before another or leaves them as they are.
unfoldable pub before_or_level : Row → Row → Bool
before_or_level r s =
    if group_order r.group == group_order s.group
    then elim r.group [
      | past ↦ leb s.booking.event_date r.booking.event_date
      | _ ↦ leb r.booking.event_date s.booking.event_date
    ]
    else ltb (group_order r.group) (group_order s.group)

unfoldable pub insert_row : Row → List Row → List Row
insert_row r [] = r ∷ []
insert_row r (s ∷ ss) =
    let rest = insert_row r ss in if before_or_level r s then r ∷ s ∷ ss else s ∷ rest

unfoldable pub sort_rows : List Row → List Row
unfolding insert_row before_or_level
sort_rows [] = []
sort_rows (r ∷ rs) = insert_row r (sort_rows rs)

abbrev pub is_own : ℕ → Role → Booking → Bool
is_own user_id as_client b = b.client_user_id == user_id
is_own user_id as_artist b = b.artist_user_id == user_id

abbrev pub row_of : Role → ℕ → Booking → Row
row_of role t b =
    let action = next_action_for b role t in
    record { booking = b; action = action; group = group_for b action t }

-- `listMyBookings`: the first 200 by date, then in the order of their groups.
unfoldable pub list_my_bookings : ℕ → Role → ℕ → Db → List Row
unfolding next_action_for group_for sort_rows
list_my_bookings user_id role t db =
    let own = keep (is_own user_id role) (all_bookings db.booking_ids db) in
    sort_rows (map (row_of role t) (take 200 (sort_by (λ b. b.event_date) own)))
