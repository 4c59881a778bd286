-- ===== src/Webhooks/Intake.antt =====
-- The receipt of a delivery, its dispatch and its replay (apps/backend/src/services/webhookService.ts).
-- The verdict on the signature comes from the provider's client; a body that does not parse has no
-- payload, and the body that is stored is the payload it parses to.
use o_artiste.Prelude.{
  ℕ, ◌+◌, ◌==◌, if◌then◌else◌, Bool, true, false, Option, none, some, List, [], ◌∷◌, ◌++◌, map,
  find,
}
use o_artiste.Schema.{
  BookingState, EventType, transaction_funded, transaction_partially_funded, transaction_expired,
  transaction_cancelled, release_completed, refund_completed, payout_completed, release_failed,
  refund_failed, payout_failed, reconciliation_issue_detected, unknown_event, released, refunded,
}
use o_artiste.Errors.{Result, ok, err, no_such_event}
use o_artiste.Store.{Db, Tx, Payload, WebhookEvent, ProcessingStatus, received, processed, failed}
use o_artiste.Request.{queue_retry, Env, Action, ◌>>=◌, ◌>>◌, done, query, emit, transact, rescue}
use o_artiste.Webhooks.{FailedLeg, Note, no_booking, a_release, a_refund, a_payout}
use o_artiste.Webhooks.Handlers.{handle_transaction_funded, handle_transaction_cancelled}
use o_artiste.Webhooks.Reports.{
  object_id_of, handle_partially_funded, handle_transaction_expired, confirmation_handler,
  failure_handler, handle_payout_completed, handle_reconciliation_issue,
}

-- What the handlers are given besides the payload: the code to issue, the provider's answers, and
-- the configuration of the release on silence.
pub record Inputs : Type 0 where
  pub code : List ℕ
  pub funded_minor : ℕ
  pub queue_up : Bool
  pub grace_hours : ℕ
  pub own_transaction : Option (Option ℕ)

-- An event that names no object is about no booking.
abbrev pub on_escrow : Option ℕ → (ℕ → Action Note) → Action Note
on_escrow none handler = done no_booking
on_escrow (some escrow_id) handler = handler escrow_id

-- The entries of `HANDLERS`, and its lack of one.
pub data Handler : Type 0 where
  on_funded on_partially_funded on_expired on_cancelled on_payout on_issue no_handler : Handler
  on_confirmation : BookingState → Handler
  on_failure : FailedLeg → Handler

-- `HANDLERS`
unfoldable pub handler_for : EventType → Handler
handler_for transaction_funded = on_funded
handler_for transaction_partially_funded = on_partially_funded
handler_for transaction_expired = on_expired
handler_for transaction_cancelled = on_cancelled
handler_for release_completed = on_confirmation released
handler_for refund_completed = on_confirmation refunded
handler_for payout_completed = on_payout
handler_for release_failed = on_failure a_release
handler_for refund_failed = on_failure a_refund
handler_for payout_failed = on_failure a_payout
handler_for reconciliation_issue_detected = on_issue
handler_for event_type = no_handler

abbrev is_known : EventType → Bool
is_known unknown_event = false
is_known event_type = true

-- `WebhookOutcome`
pub data Outcome : Type 0 where
  rejected malformed duplicate acknowledged unknown_type retry_queued : Outcome
  handled : Note → Outcome

abbrev pub has_event : ℕ → WebhookEvent → Bool
has_event id e = e.provider_event_id == id

abbrev pub set_event : ℕ → (WebhookEvent → WebhookEvent) → Db → Db
set_event id change db = record db {
  webhook_events =
      map (λ (e : WebhookEvent). if has_event id e then change e else e) db.webhook_events;
}

abbrev pub as_processed : WebhookEvent → WebhookEvent
as_processed e = record e { processing_status = processed }

abbrev pub as_failed : WebhookEvent → WebhookEvent
as_failed e = record e { processing_status = failed; attempts = e.attempts + 1 }

abbrev pub event_tx : ℕ → (WebhookEvent → WebhookEvent) → Tx (Unit {0})
event_tx id change db = ok (tt, set_event id change db)

-- `markProcessed`
abbrev pub mark_processed : Env → ℕ → Action (Unit {0})
mark_processed env id = transact env (event_tx id as_processed)

-- A handler that has answered is marked processed.
abbrev pub then_mark : Env → ℕ → Action Note → Action Outcome
then_mark env id handler = do note ← handler; mark_processed env id; done (handled note)

-- The `try` of `runHandler`.
unfoldable pub attempt : Env → Inputs → ℕ → Payload → EventType → Handler → Action Outcome
attempt env i id p t on_funded = then_mark env id (
    on_escrow (object_id_of p)
      (handle_transaction_funded env i.code i.funded_minor i.queue_up i.grace_hours))
attempt env i id p t on_partially_funded = then_mark env id (handle_partially_funded p)
attempt env i id p t on_expired = then_mark env id (handle_transaction_expired p)
attempt env i id p t on_cancelled =
    then_mark env id (on_escrow (object_id_of p) (handle_transaction_cancelled env))
attempt env i id p t on_payout = then_mark env id (handle_payout_completed p i.own_transaction)
attempt env i id p t on_issue = then_mark env id handle_reconciliation_issue
attempt env i id p t (on_confirmation expected) =
    then_mark env id (confirmation_handler expected p i.own_transaction)
attempt env i id p t (on_failure what) =
    then_mark env id (failure_handler env what p i.own_transaction)
attempt env i id p t no_handler = do
  mark_processed env id
  done (if is_known t then acknowledged else unknown_type)

-- Its `catch`: the failure is recorded and a retry queued, under the flag of the caller.
unfoldable pub record_attempt : Env → ℕ → Bool → Action Outcome
record_attempt env id queues = do
  transact env (event_tx id as_failed)
  elim queues [ true ↦ emit (queue_retry id) | false ↦ done tt ]
  done retry_queued

unfoldable pub run_handler : Env → Inputs → WebhookEvent → Bool → Action Outcome
unfolding handler_for attempt record_attempt
run_handler env i e queues =
    let id = e.provider_event_id in
    rescue (attempt env i id e.payload e.event_type (handler_for e.event_type))
      (λ thrown. record_attempt env id queues)

abbrev pub insert_event : WebhookEvent → Tx Bool
insert_event e db = ok (true, record db { webhook_events = db.webhook_events ++ e ∷ [] })

-- `webhookEvent.create` under the unique constraint on the id, which decides at once: whether this
-- delivery has claimed it.
unfoldable pub claim : Env → WebhookEvent → Action Bool
claim env e w = elim (find (has_event e.provider_event_id) w.db.webhook_events) [
  | some claimed ↦ (ok false, w)
  | none ↦ transact env (insert_event e) w
]

abbrev pub event_of : ℕ → Payload → WebhookEvent
event_of id p = record {
  provider_event_id = id;
  event_type = p.event_type;
  payload = p;
  processing_status = received;
  attempts = 0;
}

unfoldable pub claim_and_run : Env → Inputs → ℕ → Payload → Action Outcome
unfolding claim run_handler
claim_and_run env i id p = do
  claimed ← claim env (event_of id p)
  elim claimed [ false ↦ done duplicate | true ↦ run_handler env i (event_of id p) true ]

-- The id of the header is authoritative, and then that of the payload.
abbrev pub delivery_id : Option ℕ → Payload → Option ℕ
delivery_id (some id) p = some id
delivery_id none p = p.id

unfoldable pub receive : Env → Inputs → Bool → Option Payload → Option ℕ → Action Outcome
unfolding claim_and_run
receive env i signed none header = done (if signed then malformed else rejected)
receive env i signed (some p) header = elim signed [
  | false ↦ done rejected
  | true ↦ elim (delivery_id header p) [
    | none ↦ done malformed
    | some id ↦ claim_and_run env i id p
  ]
]

abbrev is_processed : ProcessingStatus → Bool
is_processed processed = true
is_processed received = false
is_processed failed = false

abbrev pub find_event : ℕ → Db → Result WebhookEvent
find_event id db = elim (find (has_event id) db.webhook_events) [
  | none ↦ err no_such_event
  | some e ↦ ok e
]

-- `reprocess`, with the queue that it does nothing on.
unfoldable pub reprocess : Env → Inputs → ℕ → Action Outcome
unfolding run_handler
reprocess env i id = do
  e ← query (find_event id)
  elim (is_processed e.processing_status) [
    | true ↦ done duplicate
    | false ↦ run_handler env i e false
  ]
