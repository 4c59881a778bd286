-- ===== src/Creation/Sound.antt =====
-- What a booking that `createBooking` returns is like.
use o_artiste.Prelude.{
  ℕ, pos, leb, ◌+◌, ◌≤◌, ◌<◌, ◌≡◌, refl, sym, ap, true, none, List, map, arith, Bool-cases,
  Option-cases, inl, inr,
}
use o_artiste.Schema.{pending_payment}
use o_artiste.Errors.{Result, ok, err, ok-injective}
use o_artiste.Tiers.{Field, Tier, input_of, resolve_tier, covers, validate_tier_set}
use o_artiste.Tiers.Complete.{IsComplete, stored-IsComplete, IsComplete-resolve_tier}
use o_artiste.Booking.{Booking}
use o_artiste.Store.{Db, put}
use o_artiste.Request.{World, Env}
use o_artiste.Request.Runs.{check-eq-ok, query-eq-ok, transact-eq-ok}
use o_artiste.Enforcement.{assert_within_lead_time}
use o_artiste.Versions.{Instant, resolve_commission_rate, resolve_tier_set}
use o_artiste.Creation.{
  NewBooking, as_client, as_artist, assert_can_transact, validate_amount, validate_event_window,
  end_of, window_from, find_client, find_artist, check_terms, new_booking, insert_tx,
  create_booking,
}

validate_amount-bounds :
    (f : Field) {n : ℕ} → validate_amount f ≡ ok n → (2_000_000 ≤ n) × (n ≤ 300_000_000)
unfolding validate_amount
validate_amount-bounds f h = ground arith

window_from-bounds :
    (start : ℕ) (r : Result ℕ) {p : ℕ × ℕ}
    → window_from start r ≡ ok p
    → (p.0 ≡ start) × (start < p.1)
window_from-bounds start (err e) h = cc
window_from-bounds start (ok end) {p} h = elim (Bool-cases (leb end start)) [
  | inl e ↦ absurd (let impossible = rw e at h in cc)
  | inr e ↦
      let run : ok (start, end) ≡ ok p = rw e at h in
      let later : start < end = ground (arith, e) in rw (← ok-injective run) (refl, later)
]

validate_event_window-bounds :
    (now : ℕ) (start end : Instant) {p : ℕ × ℕ}
    → validate_event_window now start end ≡ ok p
    → (now < p.0) × (p.0 < p.1)
unfolding validate_event_window
validate_event_window-bounds now Instant.missing end h = absurd cc
validate_event_window-bounds now Instant.invalid end h = absurd cc
validate_event_window-bounds now (Instant.date start) end h = elim (Bool-cases (leb start now)) [
  | inl e ↦ absurd (let impossible = rw (validate_event_window, e) at h in cc)
  | inr e ↦
      let (same, later) =
        window_from-bounds start (end_of start end) (rw (validate_event_window, e) at h) in
      let ahead : now < start = ground (arith, e) in (rw same ahead, rw same later)
]

pub check_terms-IsComplete : (tiers : List Tier) → check_terms tiers ≡ ok tt → IsComplete tiers
unfolding check_terms
check_terms-IsComplete tiers h =
    elim (validate_tier_set (map input_of tiers))
        as (λ x. validate_tier_set (map input_of tiers) ≡ x → IsComplete tiers) [
          | err e ↦ λ f. absurd (let impossible = rw (check_terms, f) at h in cc)
          | ok ts ↦ λ f. stored-IsComplete tiers f
        ]
      refl

pub insert_tx-puts :
    (b : Booking) (db : Db) {r : Booking × Db}
    → insert_tx b db ≡ ok r
    → (r.0 ≡ b)
      × (db.bookings b.id ≡ none)
      × (r.1.bookings ≡ put b.id b db.bookings)
      × (r.1.ledger ≡ db.ledger)
unfolding insert_tx
insert_tx-puts b db h = elim (Option-cases (db.bookings b.id)) [
  | inl e ↦
      let run = ok-injective (rw (insert_tx, e) at h) in
      (sym (ap (λ r. r.0) run), e, sym (ap (λ r. r.1.bookings) run), sym (ap (λ r. r.1.ledger) run))
  | inr (c, e) ↦ absurd (let impossible = rw (insert_tx, e) at h in cc)
]

-- A booking as it begins: within the limits, ahead in time, unpaid, at the rate in force, and with
-- terms that give every day a band.
pub record IsBegun (now : ℕ) (db : Db) (id : ℕ) (b : Booking) : Type 0 where
  pub named : b.id ≡ id
  pub at_least : 2_000_000 ≤ b.amount_kobo
  pub at_most : b.amount_kobo ≤ 300_000_000
  pub ahead : now < b.event_date
  pub ends_after : b.event_date < b.event_end_at
  pub unpaid : b.state ≡ pending_payment
  pub no_escrow : b.escrow_id ≡ none
  pub priced : b.commission_rate_bps_snapshot ≡ (resolve_commission_rate now db).0
  pub terms : IsComplete b.cancellation_tiers_snapshot

-- What the request has done: `b` is what it returned and `v` the world after it.
abbrev pub Begins : ℕ → ℕ → World → Booking → World → Type 0
Begins now id w b v =
    IsBegun now w.db id b
    × (w.db.bookings id ≡ none)
    × (v.db.bookings ≡ put id b w.db.bookings)
    × (v.db.ledger ≡ w.db.ledger)
    × (v.instructed ≡ w.instructed)
    × ((d : ℕ)
        → (u : Tier) × (resolve_tier b.cancellation_tiers_snapshot (pos d) ≡ ok u)
          × (covers d u ≡ true)
          × (u.client_bps + u.artist_bps ≡ 10_000))

carry-Begins :
    (now id : ℕ) (w : World) {b row : Booking} {v : World} {db : Db}
    → b ≡ row
    → v ≡ record w { db = db }
    → Begins now id w row (record w { db = db })
    → Begins now id w b v
carry-Begins now id w same there h = rw (same, there) h

-- When `createBooking` returns a booking, the booking is as `IsBegun` says, its id was free, the
-- table of bookings has it under the id and is unchanged elsewhere, the ledger and the calls of the
-- provider are untouched, and a cancellation on any day from day 0 on finds a band of the terms
-- frozen on it, the rates of which make up the whole.
pub create_booking-IsBegun :
    (env : Env) (id reference : ℕ) (asked : NewBooking) (w : World) {b : Booking} {v : World}
    → create_booking env id reference asked w ≡ (ok b, v)
    → Begins env.now id w b v
unfolding create_booking
create_booking-IsBegun env id reference asked w h =
    let (amount, amount_ok, h1) = check-eq-ok (validate_amount asked.amount_kobo) _ w h in
    let (window, window_ok, h2) =
      check-eq-ok (validate_event_window env.now asked.event_date asked.event_end_at) _ w h1 in
    let (cu, found, h3) = query-eq-ok (find_client asked.client_user_id) _ w h2 in
    let (u1, may, h4) = check-eq-ok (assert_can_transact cu as_client) _ w h3 in
    let (u2, lead, h5) = check-eq-ok (assert_within_lead_time cu window.0 env.now) _ w h4 in
    let (artist, artist_found, h6) = query-eq-ok (find_artist asked.artist_id) _ w h5 in
    let (u3, artist_may, h7) = check-eq-ok (assert_can_transact artist.1 as_artist) _ w h6 in
    let (u4, complete, h8) = check-eq-ok _ _ w h7 in
    let (rate, rated, h9) = query-eq-ok (λ db. ok (resolve_commission_rate env.now db)) _ w h8 in
    let (terms, set, h10) = query-eq-ok (resolve_tier_set env.now) _ w h9 in
    let (u5, valid, h11) = check-eq-ok (check_terms terms.1) _ w h10 in
    let row = new_booking id reference cu artist.1 amount window rate.0 terms.1 in
    let (db, wrote, there) = transact-eq-ok env (insert_tx row) w h11 in
    let (same, free, bookings, ledger) = insert_tx-puts row w.db wrote in
    let (low, high) = validate_amount-bounds asked.amount_kobo amount_ok in
    let (ahead, ends) =
      validate_event_window-bounds env.now asked.event_date asked.event_end_at window_ok in
    let complete = check_terms-IsComplete terms.1 valid in
    carry-Begins env.now id w same there (
      record {
        named = refl;
        at_least = low;
        at_most = high;
        ahead = ahead;
        ends_after = ends;
        unpaid = refl;
        no_escrow = refl;
        priced = ap (λ r. r.0) (ok-injective (sym rated));
        terms = complete;
      },
      free,
      bookings,
      ledger,
      refl,
      IsComplete-resolve_tier terms.1 complete,
    )
