-- ===== src/Books/Events.antt =====
-- The requests around the event and its payment keep the books in agreement: confirmationService.ts,
-- autoReleaseJob.ts, checkInService.ts, and the funding handler of webhookService.ts.
use o_artiste.Prelude.{
  ℕ, ◌≡◌, refl, ◌∙◌, ap, Bool, true, false, Option, some, none, List, [], ◌∷◌, is_some, Bool-cases,
  Option-cases, inl, inr,
}
use o_artiste.Schema.{awaiting_confirmation, funded_held, state_eq}
use o_artiste.Errors.{ok, ok-injective}
use o_artiste.Booking.{Booking}
use o_artiste.Store.{Db, Dispute, amend, transition, no_data, find_first}
use o_artiste.Request.{Env, Action, ◌>>=◌, query, done}
use o_artiste.Confirmation.{
  Verdict, release_funds, refund_funds, open_a_dispute, awaiting_auto_release, awaiting_response,
  evaluate, facts_for, state_once, is_before_window, open_window, nothing_more, execute, act,
  confirm, claim_no_show, client_confirms, artist_confirms, client_claims,
}
use o_artiste.AutoRelease.{
  schedule, due_at, deadline_for, Outcome, booking_missing, skip_reason, pay_on_silence, run_job,
}
use o_artiste.CheckIn.{redeem}
use o_artiste.Webhooks.{no_booking, already_funded, booking_for_escrow, has_escrow}
use o_artiste.Webhooks.Handlers.{fund_now, handle_transaction_funded}
use o_artiste.Books.{IsSound}
use o_artiste.Books.Transactions.{transition-Moved, some-injective}
use o_artiste.Books.Concluding.{Read, Keeps, no_data-Keeps}
use o_artiste.Books.Holding.{
  held-IsSound, amend-IsSound, open_dispute-IsSound, redeem_tx-IsSound, fund_tx-IsSound,
  window_from_held,
}
use o_artiste.Books.Logic.{
  Leads, quiet-Leads, check-Leads, query-Leads, bind-Leads, transact-Leads, query-IsQuiet,
  done-Leads, from-Leads,
}
use o_artiste.Books.Requests.{
  the_books, finished, with_row-Leads, either_way, release_booking-Leads, refund_booking-Leads,
}
use o_artiste.Books.Resolutions.{as_is}

pub redeem-Leads :
    (env : Env) (booking_id artist_user_id : ℕ) (code : List ℕ)
    → Leads IsSound (redeem env booking_id artist_user_id code) IsSound
unfolding redeem
redeem-Leads env booking_id artist_user_id code = with_row-Leads booking_id _ λ b.
    check-Leads (Read b) IsSound _ _ (the_books b) λ a _.
      check-Leads (Read b) IsSound _ _ (the_books b) λ (stored : List ℕ) _.
        check-Leads (Read b) IsSound _ _ (the_books b) λ a _.
          check-Leads (Read b) IsSound _ _ (the_books b) λ a _.
            check-Leads (Read b) IsSound _ _ (the_books b) λ a _.
              check-Leads (Read b) IsSound _ _ (the_books b) λ a _.
                transact-Leads (Read b) IsSound env _ (the_books b)
                  (λ db v read h. redeem_tx-IsSound env.now booking_id db read.0 h)

-- A transition reads the row again, so the row that the request has may be older.
transition_window :
    (k : ℕ) (db : Db) {v : Booking × Db}
    → IsSound db
    → transition k awaiting_confirmation no_data db ≡ ok v
    → IsSound v.1
transition_window k db {v} sound h =
    let (c, at, allowed, bookings, ledger) =
      transition-Moved k awaiting_confirmation no_data db h in
    let id = (sound k c at).0 in
    let again : transition c.id awaiting_confirmation no_data db ≡ ok v = rw id h in
    held-IsSound c awaiting_confirmation no_data db (sound, ap db.bookings id ∙ at) no_data-Keeps
      refl (window_from_held c.state) again

open_window-Leads : (env : Env) (b : Booking) → Leads IsSound (open_window env b) IsSound
open_window-Leads env b =
    either_way IsSound (is_before_window b.state) _ _
      (λ h.
        bind-Leads IsSound IsSound _ _
          (transact-Leads IsSound IsSound env _ as_is
            (λ db v sound g. transition_window b.id db sound g))
          λ (next : Booking). finished _)
      (λ h. finished _)

execute-Leads :
    (env : Env) (b : Booking) (verdict : Verdict) → Leads IsSound (execute env b verdict) IsSound
unfolding execute
execute-Leads env b release_funds =
    bind-Leads IsSound IsSound _ _ (release_booking-Leads env b.id) λ s. finished _
execute-Leads env b refund_funds =
    bind-Leads IsSound IsSound _ _
      (refund_booking-Leads env b.id nothing_more (λ c db. (refl, refl))) λ s. finished _
execute-Leads env b open_a_dispute =
    bind-Leads IsSound IsSound _ _
      (transact-Leads IsSound IsSound env _ as_is
        (λ db v sound h. open_dispute-IsSound b.id b.client_user_id true db sound h))
      λ (d : Dispute). finished _
execute-Leads env b awaiting_auto_release =
    quiet-Leads IsSound IsSound _ _ as_is (query-IsQuiet _) λ (c : Booking). finished _
execute-Leads env b awaiting_response =
    quiet-Leads IsSound IsSound _ _ as_is (query-IsQuiet _) λ (c : Booking). finished _

act-Leads : (env : Env) (b : Booking) → Leads IsSound (act env b) IsSound
unfolding act
act-Leads env b = bind-Leads IsSound IsSound _ _ (open_window-Leads env b) λ a.
    bind-Leads IsSound IsSound _ _ (execute-Leads env b (evaluate (facts_for b))) λ s. finished _

state_once-Leads :
    (said : Bool) (env : Env) (b : Booking) (data_of : Booking → Booking)
    → Keeps data_of
    → Leads IsSound (state_once said env b data_of) IsSound
state_once-Leads true env b data_of keeps = finished b
state_once-Leads false env b data_of keeps =
    transact-Leads IsSound IsSound env _ as_is
      (λ db v sound h. amend-IsSound b.id data_of db sound keeps h)

said-Leads :
    (test : Bool) (a c : Action Booking)
    → Leads IsSound a IsSound
    → Leads IsSound c IsSound
    → Leads IsSound (elim test [ true ↦ a | false ↦ c ]) IsSound
said-Leads true a c h k = h
said-Leads false a c h k = k

pub confirm-Leads :
    (env : Env) (booking_id user_id : ℕ) → Leads IsSound (confirm env booking_id user_id) IsSound
unfolding confirm
confirm-Leads env booking_id user_id =
    quiet-Leads IsSound IsSound _ _ as_is (query-IsQuiet _) λ (found : Booking × Bool).
      check-Leads IsSound IsSound _ _ as_is λ a _. check-Leads IsSound IsSound _ _ as_is λ a _.
        check-Leads IsSound IsSound _ _ as_is λ a _.
          bind-Leads IsSound IsSound _ _
            (said-Leads found.1 _ _
              (state_once-Leads _ env found.0 (client_confirms env.now)
                (λ b. (refl, refl, refl, refl, refl, refl)))
              (state_once-Leads _ env found.0 (artist_confirms env.now)
                (λ b. (refl, refl, refl, refl, refl, refl))))
            λ updated. act-Leads env updated

pub claim_no_show-Leads :
    (env : Env) (booking_id client_user_id : ℕ)
    → Leads IsSound (claim_no_show env booking_id client_user_id) IsSound
unfolding claim_no_show
claim_no_show-Leads env booking_id client_user_id =
    quiet-Leads IsSound IsSound _ _ as_is (query-IsQuiet _) λ (found : Booking × Bool).
      check-Leads IsSound IsSound _ _ as_is λ a _. check-Leads IsSound IsSound _ _ as_is λ a _.
        check-Leads IsSound IsSound _ _ as_is λ a _. check-Leads IsSound IsSound _ _ as_is λ a _.
          bind-Leads IsSound IsSound _ _
            (state_once-Leads _ env found.0 (client_claims env.now)
              (λ b. (refl, refl, refl, refl, refl, refl)))
            λ updated. act-Leads env updated

pay_on_silence-Leads : (env : Env) (b : Booking) → Leads IsSound (pay_on_silence env b) IsSound
unfolding pay_on_silence
pay_on_silence-Leads env b =
    bind-Leads IsSound IsSound _ _ (open_window-Leads env b)
      λ a. bind-Leads IsSound IsSound _ _ (release_booking-Leads env b.id) λ s. finished _

pub run_job-Leads :
    (env : Env) (grace_hours booking_id : ℕ)
    → Leads IsSound (run_job env grace_hours booking_id) IsSound
unfolding run_job
run_job-Leads env grace_hours booking_id =
    quiet-Leads IsSound IsSound _ _ as_is (query-IsQuiet _) λ (row : Option Booking). on_row row
  where
    on_reason :
        (b : Booking) (reason : Option Outcome)
        → Leads IsSound (elim reason [ some o ↦ done o | none ↦ pay_on_silence env b ]) IsSound
    on_reason b none = pay_on_silence-Leads env b
    on_reason b (some o) = finished o

    on_row :
        (row : Option Booking)
        → Leads IsSound
            (elim row [
              | none ↦ done booking_missing
              | some b ↦ query (λ db. ok (skip_reason env.now grace_hours db b)) >>= λ reason.
                  elim reason [ some o ↦ done o | none ↦ pay_on_silence env b ]
            ])
            IsSound
    on_row none = finished booking_missing
    on_row (some b) =
        quiet-Leads IsSound IsSound _ _ as_is (query-IsQuiet _)
          λ (reason : Option Outcome). on_reason b reason

-- The row that is found for an escrow is in the table and has that escrow.
found_row :
    (escrow_id : ℕ) (ks : List ℕ) (db : Db) (b : Booking)
    → IsSound db
    → find_first (has_escrow escrow_id) ks db ≡ some b
    → Read b db × (is_some b.escrow_id ≡ true)
found_row escrow_id [] db b sound h = absurd cc
found_row escrow_id (k ∷ ks) db b sound h = elim (Option-cases (db.bookings k)) [
  | inl e ↦ found_row escrow_id ks db b sound (rw (find_first, e) at h)
  | inr (c, e) ↦ elim (Bool-cases (has_escrow escrow_id c)) [
    | inr other ↦ found_row escrow_id ks db b sound (rw (find_first, e, other) at h)
    | inl has ↦
        let hit : some c ≡ some b = rw (find_first, e, has) at h in
        let same : c ≡ b = some-injective hit in
        let read : Read c db = (sound, ap db.bookings (sound k c e).0 ∙ e) in
        rw (← same) (read, has_some c has)
  ]
]
  where
    has_some : (c : Booking) → has_escrow escrow_id c ≡ true → is_some c.escrow_id ≡ true
    has_some c h = elim (Option-cases c.escrow_id) [
      | inl e ↦ absurd (let impossible = rw e at h in cc)
      | inr (j, e) ↦ rw e refl
    ]

schedule-Leads :
    (env : Env) (queue_up : Bool) (grace_hours : ℕ) (b : Booking)
    → Leads IsSound (schedule env queue_up grace_hours b) IsSound
unfolding schedule Leads
schedule-Leads env false grace_hours b w sound = sound
schedule-Leads env true grace_hours b w sound =
    let set = due_at (deadline_for b.event_end_at grace_hours) in
    let keeps : Keeps set = λ c. (refl, refl, refl, refl, refl, refl) in
    transact-Leads IsSound IsSound env (amend b.id set) as_is
      (λ db v s h. amend-IsSound b.id set db s keeps h) w sound

-- What the handler has found for an escrow.
abbrev Found : ℕ → Option Booking → Db → Type 0
Found escrow_id found db = IsSound db × (booking_for_escrow escrow_id db ≡ found)

fund_now-Leads :
    (env : Env) (code : List ℕ) (funded_minor : ℕ) (queue_up : Bool) (grace_hours escrow_id : ℕ)
    (b : Booking)
    → Leads
        (Found escrow_id (some b))
        (fund_now env code funded_minor queue_up grace_hours b)
        IsSound
unfolding fund_now
fund_now-Leads env code funded_minor queue_up grace_hours escrow_id b =
    let P = Found escrow_id (some b) in
    check-Leads P IsSound _ _ (λ db p. p.0)
      λ a _.
        bind-Leads P IsSound _ _
          (transact-Leads P IsSound env _ (λ db p. p.0)
            (λ db v p h.
              let (read, has) = found_row escrow_id db.booking_ids db b p.0 p.1 in
              fund_tx-IsSound code b db read has h))
          λ a.
            bind-Leads IsSound IsSound _ _ (schedule-Leads env queue_up grace_hours b)
              λ a. finished _

pub handle_transaction_funded-Leads :
    (env : Env) (code : List ℕ) (funded_minor : ℕ) (queue_up : Bool) (grace_hours escrow_id : ℕ)
    → Leads IsSound
        (handle_transaction_funded env code funded_minor queue_up grace_hours escrow_id)
        IsSound
unfolding handle_transaction_funded
handle_transaction_funded-Leads env code funded_minor queue_up grace_hours escrow_id =
    query-Leads IsSound IsSound _ _ as_is λ (found : Option Booking).
      from-Leads (Found escrow_id found) _ IsSound _ (λ db p. (p.0, ok-injective p.1))
        (on_found found)
  where
    on_found :
        (found : Option Booking)
        → Leads
            (Found escrow_id found)
            (elim found [
              | none ↦ done no_booking
              | some b ↦ elim (state_eq b.state funded_held) [
                | true ↦ done already_funded
                | false ↦ fund_now env code funded_minor queue_up grace_hours b
              ]
            ])
            IsSound
    on_found none = done-Leads (Found escrow_id none) IsSound _ (λ db p. p.0)
    on_found (some b) =
        either_way (Found escrow_id (some b)) (state_eq b.state funded_held) _ _
          (λ h. done-Leads (Found escrow_id (some b)) IsSound _ (λ db p. p.0))
          (λ h. fund_now-Leads env code funded_minor queue_up grace_hours escrow_id b)
