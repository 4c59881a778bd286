-- ===== src/Webhooks/Events.antt =====
-- What the transactions of webhookService.ts do to the table of events: nothing, but for a mark.
use o_artiste.Prelude.{
  ℕ, ◌≡◌, refl, sym, ap, ◌∙◌, true, is_some, List, [], ◌∷◌, ◌++◌, map, find, Bool-cases,
  Option-cases, inl, inr, ==_refl, if◌then◌else◌,
}
use o_artiste.Schema.{BookingState, funded_held, cancelled}
use o_artiste.Errors.{AppError, Result, ok, err, >>=-eq-ok, ok-injective}
use o_artiste.Booking.{Booking, assert_transition}
use o_artiste.Ledger.{Ledger, transaction, record_funding}
use o_artiste.Store.{Db, Tx, WebhookEvent, find_booking, amend, transition, on_ledger, no_data}
use o_artiste.Request.{World, Action, rescue, caught}
use o_artiste.CheckIn.{issue_for_booking, with_code}
use o_artiste.Books.Logic.{Leads}
use o_artiste.Webhooks.{fund_tx, cancel_tx}
use o_artiste.Webhooks.Intake.{has_event}

-- Some row bears the event's id.
abbrev pub Claimed : ℕ → Db → Type 0
Claimed id db = is_some (find (has_event id) db.webhook_events) ≡ true

-- A step of a transaction that leaves the table of events alone.
abbrev pub LeavesEvents : {A : Type 0} → Tx A → Type 0
LeavesEvents {A} tx = (db : Db) (r : A × Db) → tx db ≡ ok r → r.1.webhook_events ≡ db.webhook_events

pub transition-LeavesEvents :
    (k : ℕ) (to : BookingState) (data_of : Booking → Booking)
    → LeavesEvents (transition k to data_of)
unfolding transition
transition-LeavesEvents k to data_of db r h =
    let (b, at, checked) = >>=-eq-ok (find_booking k db) _ h in
    let (u, allowed, same) = >>=-eq-ok (assert_transition b.state to) _ checked in
    sym (ap (λ q. q.1.webhook_events) (ok-injective same))

pub on_ledger-LeavesEvents :
    {A : Type 0} (step : Ledger → Result (A × Ledger)) → LeavesEvents (on_ledger step)
unfolding on_ledger
on_ledger-LeavesEvents step db r h =
    let (w, stepped, same) = >>=-eq-ok (step db.ledger) _ h in
    sym (ap (λ q. q.1.webhook_events) (ok-injective same))

pub amend-LeavesEvents : (k : ℕ) (data_of : Booking → Booking) → LeavesEvents (amend k data_of)
unfolding amend find_booking
amend-LeavesEvents k data_of db r h = elim (Option-cases (db.bookings k)) [
  | inl e ↦ absurd (let impossible = rw (amend, find_booking, e) at h in cc)
  | inr (b, e) ↦
      sym (ap (λ q. q.1.webhook_events) (ok-injective (rw (amend, find_booking, e) at h)))
]

pub issue-LeavesEvents : (code : List ℕ) (b : Booking) → LeavesEvents (issue_for_booking code b)
unfolding issue_for_booking
issue-LeavesEvents code b db r h = elim (Bool-cases (is_some b.check_in_code)) [
  | inl e ↦ sym (ap (λ q. q.1.webhook_events) (ok-injective (rw (issue_for_booking, e) at h)))
  | inr e ↦
      elim (amend b.id (with_code code) db)
          as (λ x. amend b.id (with_code code) db ≡ x → r.1.webhook_events ≡ db.webhook_events) [
            | err f ↦
                λ amended. absurd (let impossible = rw (issue_for_booking, e, amended) at h in cc)
            | ok s ↦ λ amended.
                let same = ok-injective (rw (issue_for_booking, e, amended) at h) in
                sym (ap (λ q. q.1.webhook_events) same)
                ∙ amend-LeavesEvents b.id (with_code code) db s amended
          ]
        refl
]

pub fund_tx-LeavesEvents : (code : List ℕ) (b : Booking) → LeavesEvents (fund_tx code b)
unfolding fund_tx
fund_tx-LeavesEvents code b db r h =
    let (n, moved, rest) = >>=-eq-ok (transition b.id funded_held no_data db) _ h in
    let (e, stepped, issued) = >>=-eq-ok (on_ledger (record_funding transaction b) n.1) _ rest in
    issue-LeavesEvents code b e.1 r issued
    ∙ (on_ledger-LeavesEvents (record_funding transaction b) n.1 e stepped
        ∙ transition-LeavesEvents b.id funded_held no_data db n moved)

pub cancel_tx-LeavesEvents : (b : Booking) → LeavesEvents (cancel_tx b)
cancel_tx-LeavesEvents b db r h =
    let (n, moved, same) = >>=-eq-ok (transition b.id cancelled no_data db) _ h in
    sym (ap (λ q. q.1.webhook_events) (ok-injective same))
    ∙ transition-LeavesEvents b.id cancelled no_data db n moved

pub find-mark :
    (id j : ℕ) (change : WebhookEvent → WebhookEvent) (l : List WebhookEvent)
    → ((e : WebhookEvent) → (change e).provider_event_id ≡ e.provider_event_id)
    → is_some (find (has_event id) (map (λ e. if has_event j e then change e else e) l))
      ≡ is_some (find (has_event id) l)
find-mark id j change [] keeps = refl
find-mark id j change (e ∷ l) keeps = elim (Bool-cases (has_event j e)) [
  | inl m ↦ elim (Bool-cases (has_event id e)) [
    | inl h ↦ rw (m, keeps e, h) refl
    | inr h ↦ rw (m, keeps e, h) (find-mark id j change l keeps)
  ]
  | inr m ↦ elim (Bool-cases (has_event id e)) [
    | inl h ↦ rw (m, h) refl
    | inr h ↦ rw (m, h) (find-mark id j change l keeps)
  ]
]

pub find-snoc :
    (id : ℕ) (l : List WebhookEvent) (e : WebhookEvent)
    → e.provider_event_id ≡ id
    → is_some (find (has_event id) (l ++ e ∷ [])) ≡ true
find-snoc id [] e same = rw (same, ==_refl id) refl
find-snoc id (x ∷ l) e same = elim (Bool-cases (has_event id x)) [
  | inl h ↦ rw h refl
  | inr h ↦ rw h (find-snoc id l e same)
]

pub rescue-Leads :
    {T : Type 0} (P : Db → Type 0) (act : Action T) (handler : AppError → Action T)
    → Leads P act P
    → ((e : AppError) → Leads P (handler e) P)
    → Leads P (rescue act handler) P
unfolding Leads rescue
rescue-Leads P act handler first rest w p = either (act w) (first w p)
  where
    either : (r : Result _ × World) → P r.1.db → P (caught r handler).1.db
    either (err e, v) q = rest e v q
    either (ok t, v) q = q
