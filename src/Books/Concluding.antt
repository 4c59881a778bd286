-- ===== src/Books/Concluding.antt =====
-- The transactions of escrowService.ts keep the books in agreement with the states.
use o_artiste.Prelude.{
  ℕ, ℤ, pos, neg, ◌+ℤ◌, ◌≡◌, ◌≢◌, refl, sym, ap, ◌∙◌, true, false, some, List, is_some, Bool-cases,
  inl, inr, ◌==◌, ==_iff, arith, int_laws, +ℤ_zero, ltb_ℤ,
}
use o_artiste.Schema.{BookingState, released, refunded, resolved, pending_payment, state_eq}
use o_artiste.Errors.{Result, ok, ◌>>=◌, >>=-eq-ok, ok-injective}
use o_artiste.Booking.{Booking, can_transition}
use o_artiste.Ledger.{
  Ledger, LedgerEntry, reconcile, transaction, record_release, record_fee_liability_settlement,
}
use o_artiste.Ledger.Balance.{Moves, release-Moves, settlement-Moves}
use o_artiste.Store.{Db, FeeLiability, transition, on_ledger, no_data, find_booking}
use o_artiste.Escrow.Records.{release_tx, settle_tx, settle_rows}
use o_artiste.Books.{is_held, position, HasTerms, Fits, Agree, IsSound}
use o_artiste.Books.Transactions.{
  transition-Moved, on_ledger-Moves, put-Agree, some-injective, apart, find_booking_finds,
}

-- The other columns of a transition leave what the books read as it is.
abbrev pub Keeps : (Booking → Booking) → Type 0
Keeps data_of =
    (b : Booking)
    → ((data_of b).id ≡ b.id)
      × ((data_of b).state ≡ b.state)
      × ((data_of b).amount_kobo ≡ b.amount_kobo)
      × ((data_of b).commission_rate_bps_snapshot ≡ b.commission_rate_bps_snapshot)
      × ((data_of b).cancellation_tiers_snapshot ≡ b.cancellation_tiers_snapshot)
      × ((data_of b).escrow_id ≡ b.escrow_id)

-- The row that a request has read is the one in the table.
abbrev pub Read : Booking → Db → Type 0
Read b db = IsSound db × (db.bookings b.id ≡ some b)

pub Read-find_booking :
    (k : ℕ) (db : Db) (b : Booking) → IsSound db → find_booking k db ≡ ok b → Read b db
Read-find_booking k db b sound h =
    let at = find_booking_finds k db b h in (sound, ap db.bookings (sound k b at).0 ∙ at)

pub moved-Fits :
    (b : Booking) (to : BookingState) (data_of : Booking → Booking) (l : Ledger)
    → Keeps data_of
    → HasTerms b
    → (is_held to ≡ true → is_some b.escrow_id ≡ true)
    → (reconcile b.id l).sum_kobo ≡ position to b.amount_kobo
    → Fits b.id (data_of (record b { state = to })) l
moved-Fits b to data_of l keeps terms escrow sum =
    let (id, state, amount, rate, tiers, escrow_kept) = keeps (record b { state = to }) in
    rw (id, state, amount, rate, tiers, escrow_kept) (refl, (terms.0, terms.1, escrow), sum)

-- A transition, and entries that bring the sum to what the new state says.
pub passage-Agree :
    (b : Booking) (to : BookingState) (data_of : Booking → Booking) (db : Db) {r : Booking × Db}
    (l : Ledger)
    → Read b db
    → Keeps data_of
    → transition b.id to data_of db ≡ ok r
    → (is_held to ≡ true → is_some b.escrow_id ≡ true)
    → (can_transition b.state to ≡ true → (reconcile b.id l).sum_kobo ≡ position to b.amount_kobo)
    → ((j : ℕ) → j ≢ b.id → (reconcile j l).sum_kobo ≡ (reconcile j db.ledger).sum_kobo)
    → Agree r.1.bookings l
passage-Agree b to data_of db {r} l (sound, at) keeps moved escrow sum others =
    let (row, found, allowed, bookings, ledger) = transition-Moved b.id to data_of db moved in
    let same : row ≡ b = some-injective (sym found ∙ at) in
    let allowed' : can_transition b.state to ≡ true = rw same at allowed in
    let (id, terms, old) = sound b.id b at in
    let next = data_of (record row { state = to }) in
    let fits : Fits b.id next l =
      rw same (moved-Fits b to data_of l keeps terms escrow (sum allowed')) in
    rw bookings (put-Agree b.id next db.bookings db.ledger l sound fits others)

-- What a step writes, given what it moves.
pub step_writes :
    {A : Type 0} (r : Result (A × Ledger)) {w v : A × Ledger} → r ≡ ok w → r ≡ ok v → v.1 ≡ w.1
step_writes r h h' = ap (λ q. q.1) (ok-injective (sym h' ∙ h))

cancels :
    (x : ℤ) (s : BookingState) (n : ℕ) → is_held s ≡ true → x ≡ position s n → x +ℤ pos n ≡ pos 0
cancels x s n held h = let owed : x ≡ neg (pos n) = rw held at h in rw owed (omega int_laws)

-- A transition out of a state that holds money, and entries that pay the whole of it out.
pub concluded-IsSound :
    (b : Booking) (to : BookingState) (data_of : Booking → Booking)
    (step : Ledger → Result (List LedgerEntry × Ledger)) (db : Db) {n : Booking × Db}
    {e : List LedgerEntry × Db}
    → Read b db
    → Keeps data_of
    → (can_transition b.state to ≡ true → is_held b.state ≡ true)
    → is_held to ≡ false
    → Moves (step db.ledger) b.id db.ledger (pos b.amount_kobo)
    → transition b.id to data_of db ≡ ok n
    → on_ledger step n.1 ≡ ok e
    → IsSound e.1
concluded-IsSound b to data_of step db {n} {e} read keeps held ends moves moved stepped =
    let kept : n.1.ledger ≡ db.ledger = (transition-Moved b.id to data_of db moved).4 in
    let (w, wrote, ledger, bookings) = on_ledger-Moves step n.1 stepped in
    let wrote' : step db.ledger ≡ ok w = rw kept at wrote in
    let (v, writes, grows, sum, others) = moves in
    let out : v.1 ≡ w.1 = step_writes (step db.ledger) wrote' writes in
    let (id, terms, old) = read.0 b.id b read.1 in
    rw (bookings, ledger, ← out)
      (passage-Agree b to data_of db v.1 read keeps moved
        (λ still. absurd (let impossible = sym ends ∙ still in cc))
        (λ allowed. rw ends (
          sum
          ∙ cancels (reconcile b.id db.ledger).sum_kobo b.state b.amount_kobo (held allowed) old))
        others)

-- Entries that move nothing.
pub level-IsSound :
    (k : ℕ) (step : Ledger → Result (List LedgerEntry × Ledger)) (db : Db)
    {e : List LedgerEntry × Db}
    → IsSound db
    → Moves (step db.ledger) k db.ledger (pos 0)
    → on_ledger step db ≡ ok e
    → IsSound e.1
level-IsSound k step db {e} sound moves stepped j c at =
    let (w, wrote, ledger, bookings) = on_ledger-Moves step db stepped in
    let (v, writes, grows, sum, others) = moves in
    let out : v.1 ≡ w.1 = step_writes (step db.ledger) wrote writes in
    let (id, terms, old) = sound j c (rw bookings at at) in
    let still : (reconcile j v.1).sum_kobo ≡ (reconcile j db.ledger).sum_kobo =
      elim (Bool-cases (j == k)) [
        | inl e ↦ rw ((==_iff j k).0 e) (sum ∙ +ℤ_zero (reconcile k db.ledger).sum_kobo)
        | inr e ↦ others j (apart j k e)
      ] in
    rw (ledger, ← out) (id, terms, still ∙ old)

-- Which states lead to a conclusion.
pub held_before :
    (s to : BookingState)
    → can_transition s to ≡ true
    → state_eq s pending_payment ≡ false
    → is_held s ≡ true
unfolding can_transition
held_before s to h funded = ground arith

held_before_release : (s : BookingState) → can_transition s released ≡ true → is_held s ≡ true
unfolding can_transition
held_before_release s h = ground arith

pub held_before_refund : (s : BookingState) → can_transition s refunded ≡ true → is_held s ≡ true
unfolding can_transition
held_before_refund s h = ground arith

pub held_before_ruling : (s : BookingState) → can_transition s resolved ≡ true → is_held s ≡ true
unfolding can_transition
held_before_ruling s h = ground arith

pub no_data-Keeps : Keeps no_data
no_data-Keeps b = (refl, refl, refl, refl, refl, refl)

-- The settlement of liabilities moves nothing in the booking's sum.
settle_tx-IsSound :
    (b : Booking) (chosen : List FeeLiability) (settled : ℤ) (db : Db) {r : Unit × Db}
    → IsSound db
    → settle_tx b chosen settled db ≡ ok r
    → IsSound r.1
unfolding settle_tx
settle_tx-IsSound b chosen settled db {r} sound h = elim (Bool-cases (ltb_ℤ (pos 0) settled)) [
  | inl e ↦
      let step = record_fee_liability_settlement transaction b.id settled in
      let h' : (on_ledger step db >>= λ w.
      ok (tt, record w.1 { liabilities = settle_rows chosen b.id w.1.liabilities }))
          ≡ ok r =
        rw (settle_tx, e) at h in
      let (w, stepped, same) = >>=-eq-ok (on_ledger step db) _ h' in
      rw (← ok-injective same)
        (level-IsSound b.id step db sound (settlement-Moves b.id settled db.ledger) stepped)
  | inr e ↦ let same : ok (tt, db) ≡ ok r = rw (settle_tx, e) at h in rw (← ok-injective same) sound
]

pub release_tx-IsSound :
    (b : Booking) (chosen : List FeeLiability) (settled : ℤ) (db : Db) {r : Booking × Db}
    → Read b db
    → release_tx b chosen settled db ≡ ok r
    → IsSound r.1
unfolding release_tx
release_tx-IsSound b chosen settled db {r} read h =
    let (n, moved, rest) = >>=-eq-ok (transition b.id released no_data db) _ h in
    let (e, stepped, rest') = >>=-eq-ok (on_ledger (record_release transaction b) n.1) _ rest in
    let (s, settled_now, same) = >>=-eq-ok (settle_tx b chosen settled e.1) _ rest' in
    let sound =
      concluded-IsSound b released no_data (record_release transaction b) db read no_data-Keeps
        (held_before_release b.state) refl (release-Moves b db.ledger) moved stepped in
    rw (← ok-injective same) (settle_tx-IsSound b chosen settled e.1 sound settled_now)
