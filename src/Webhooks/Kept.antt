-- ===== src/Webhooks/Kept.antt =====
-- An event that was claimed stays claimed through every handler of webhookService.ts.
use o_artiste.Prelude.{ℕ, ◌≡◌, refl, ◌∙◌, Bool, true, false, Option, none, some, List}
use o_artiste.Schema.{BookingState, EventType, funded_held, cancelled, state_eq}
use o_artiste.Errors.{ok-injective}
use o_artiste.Booking.{Booking, can_transition}
use o_artiste.Store.{Db, Tx, Payload, WebhookEvent, amend}
use o_artiste.Request.{Env, Action, ◌>>=◌, done, transact}
use o_artiste.AutoRelease.{schedule, due_at, deadline_for}
use o_artiste.Books.Logic.{
  Leads, IsQuiet, quiet-Leads, check-Leads, chain-Leads, transact-Leads, query-IsQuiet,
  emit-IsQuiet, still-Leads, done-Leads,
}
use o_artiste.Webhooks.{Note, fund_tx, cancel_tx, FailedLeg, a_release, a_refund, a_payout}
use o_artiste.Webhooks.Handlers.{
  fund_now, handle_transaction_funded, cancel_now, handle_transaction_cancelled,
}
use o_artiste.Webhooks.Reports.{
  object_id_of, handle_partially_funded, handle_transaction_expired, confirmation_handler,
  failure_handler, handle_payout_completed, handle_reconciliation_issue, unpay, payout_failed_data,
}
use o_artiste.Webhooks.Intake.{
  Inputs, Handler, on_funded, on_partially_funded, on_expired, on_cancelled, on_payout, on_issue,
  no_handler, on_confirmation, on_failure, on_escrow, as_processed, as_failed, event_tx, then_mark,
  attempt, record_attempt, run_handler, handler_for,
}
use o_artiste.Webhooks.Events.{
  Claimed, LeavesEvents, amend-LeavesEvents, fund_tx-LeavesEvents, cancel_tx-LeavesEvents,
  find-mark, rescue-Leads,
}

-- What the handlers and the marks do with a claimed id: it stays claimed.
module _ (id : ℕ) where
  abbrev Kept : {T : Type 0} → Action T → Type 0
  Kept act = Leads (Claimed id) act (Claimed id)

  same : (db : Db) → Claimed id db → Claimed id db
  same db claimed = claimed

  leaves-Kept : {A : Type 0} (env : Env) (tx : Tx A) → LeavesEvents tx → Kept (transact env tx)
  leaves-Kept env tx leaves =
      transact-Leads (Claimed id) (Claimed id) env tx same
        (λ db v claimed h. let there = leaves db v h in rw there claimed)

  mark-Kept :
      (env : Env) (j : ℕ) (change : WebhookEvent → WebhookEvent)
      → ((e : WebhookEvent) → (change e).provider_event_id ≡ e.provider_event_id)
      → Kept (transact env (event_tx j change))
  mark-Kept env j change keeps =
      transact-Leads (Claimed id) (Claimed id) env (event_tx j change) same (λ db v claimed h.
        rw (← ok-injective h) (find-mark id j change db.webhook_events keeps ∙ claimed))

  finish : {T : Type 0} (t : T) → Kept (done t)
  finish t = done-Leads (Claimed id) (Claimed id) t same

  then_finish : {S T : Type 0} (act : Action S) (t : T) → Kept act → Kept (act >>= λ s. done t)
  then_finish act t first = chain-Leads (Claimed id) (Claimed id) act _ same first (λ s. finish t)

  schedule-Kept :
      (env : Env) (queue_up : Bool) (grace_hours : ℕ) (b : Booking)
      → Kept (schedule env queue_up grace_hours b)
  unfolding schedule Leads
  schedule-Kept env true grace_hours b w claimed =
      leaves-Kept env (amend b.id (due_at (deadline_for b.event_end_at grace_hours)))
        (amend-LeavesEvents b.id (due_at (deadline_for b.event_end_at grace_hours))) w claimed
  schedule-Kept env false grace_hours b w claimed = claimed

  fund_now-Kept :
      (env : Env) (code : List ℕ) (minor : ℕ) (up : Bool) (hours : ℕ) (b : Booking)
      → Kept (fund_now env code minor up hours b)
  unfolding fund_now
  fund_now-Kept env code minor up hours b = check-Leads (Claimed id) (Claimed id) _ _ same λ a _.
      chain-Leads (Claimed id) (Claimed id) _ _ same
        (leaves-Kept env (fund_tx code b) (fund_tx-LeavesEvents code b))
        λ a. then_finish (schedule env up hours b) _ (schedule-Kept env up hours b)

  quiet-Kept :
      {S T : Type 0} (act : Action S) (next : S → Action T)
      → IsQuiet act
      → ((s : S) → Kept (next s))
      → Kept (act >>= next)
  quiet-Kept act next quiet rest = quiet-Leads (Claimed id) (Claimed id) act next same quiet rest

  still-Kept : {T : Type 0} (act : Action T) → IsQuiet act → Kept act
  still-Kept act quiet = still-Leads (Claimed id) act quiet

  on_escrow-Kept :
      (o : Option ℕ) (handler : ℕ → Action Note)
      → ((escrow : ℕ) → Kept (handler escrow))
      → Kept (on_escrow o handler)
  on_escrow-Kept none handler each = finish _
  on_escrow-Kept (some escrow) handler each = each escrow

  either_found :
      (found : Option Booking) (none_case : Action Note) (some_case : Booking → Action Note)
      → Kept none_case
      → ((b : Booking) → Kept (some_case b))
      → Kept (elim found [ none ↦ none_case | some b ↦ some_case b ])
  either_found none none_case some_case n s = n
  either_found (some b) none_case some_case n s = s b

  either_way :
      (test : Bool) (a c : Action Note)
      → Kept a
      → Kept c
      → Kept (elim test [ true ↦ a | false ↦ c ])
  either_way true a c h k = h
  either_way false a c h k = k

  funded-Kept :
      (env : Env) (code : List ℕ) (minor : ℕ) (up : Bool) (hours escrow : ℕ)
      → Kept (handle_transaction_funded env code minor up hours escrow)
  unfolding handle_transaction_funded
  funded-Kept env code minor up hours escrow =
      quiet-Kept _ _ (query-IsQuiet _) λ (found : Option Booking).
        either_found found _ _ (finish _) λ b.
          either_way (state_eq b.state funded_held) _ _ (finish _)
            (fund_now-Kept env code minor up hours b)

  cancelled-Kept : (env : Env) (escrow : ℕ) → Kept (handle_transaction_cancelled env escrow)
  unfolding handle_transaction_cancelled cancel_now
  cancelled-Kept env escrow = quiet-Kept _ _ (query-IsQuiet _) λ (found : Option Booking).
      either_found found _ _ (finish _) λ b.
        either_way (state_eq b.state cancelled) _ _ (finish _) (
          either_way (can_transition b.state cancelled) _ _
            (then_finish _ _ (leaves-Kept env (cancel_tx b) (cancel_tx-LeavesEvents b))) (finish _))

  unpay-Kept : (env : Env) (what : FailedLeg) (found : Option Booking) → Kept (unpay env what found)
  unpay-Kept env a_release found = finish _
  unpay-Kept env a_refund found = finish _
  unpay-Kept env a_payout none = finish _
  unpay-Kept env a_payout (some b) =
      then_finish _ _ (
        leaves-Kept env (amend b.id payout_failed_data)
          (amend-LeavesEvents b.id payout_failed_data))

  failure-Kept :
      (env : Env) (what : FailedLeg) (p : Payload) (asked : Option (Option ℕ))
      → Kept (failure_handler env what p asked)
  unfolding failure_handler
  failure-Kept env what p asked =
      quiet-Kept _ _ (query-IsQuiet _)
        λ (found : Option Booking). then_finish (unpay env what found) _ (unpay-Kept env what found)

  confirmation-Kept :
      (expected : BookingState) (p : Payload) (asked : Option (Option ℕ))
      → Kept (confirmation_handler expected p asked)
  unfolding confirmation_handler
  confirmation-Kept expected p asked =
      quiet-Kept _ _ (query-IsQuiet _) λ (found : Option Booking). finish _

  payout-Kept : (p : Payload) (asked : Option (Option ℕ)) → Kept (handle_payout_completed p asked)
  unfolding handle_payout_completed
  payout-Kept p asked = quiet-Kept _ _ (query-IsQuiet _) λ (found : Option Booking). finish _

  partial-Kept : (p : Payload) → Kept (handle_partially_funded p)
  unfolding handle_partially_funded
  partial-Kept p = still-Kept _ (query-IsQuiet _)

  expired-Kept : (p : Payload) → Kept (handle_transaction_expired p)
  unfolding handle_transaction_expired
  expired-Kept p = still-Kept _ (query-IsQuiet _)

  issue-Kept : Kept handle_reconciliation_issue
  unfolding handle_reconciliation_issue
  issue-Kept = finish _

  then_mark-Kept :
      (env : Env) (j : ℕ) (handler : Action Note) → Kept handler → Kept (then_mark env j handler)
  then_mark-Kept env j handler first =
      chain-Leads (Claimed id) (Claimed id) handler _ same first
        λ (note : Note). then_finish _ _ (mark-Kept env j as_processed λ e. refl)

  attempt-Kept :
      (env : Env) (i : Inputs) (j : ℕ) (p : Payload) (t : EventType) (h : Handler)
      → Kept (attempt env i j p t h)
  unfolding attempt
  attempt-Kept env i j p t on_funded = then_mark-Kept env j _ (
      on_escrow-Kept (object_id_of p) _
        (funded-Kept env i.code i.funded_minor i.queue_up i.grace_hours))
  attempt-Kept env i j p t on_partially_funded = then_mark-Kept env j _ (partial-Kept p)
  attempt-Kept env i j p t on_expired = then_mark-Kept env j _ (expired-Kept p)
  attempt-Kept env i j p t on_cancelled =
      then_mark-Kept env j _ (on_escrow-Kept (object_id_of p) _ (cancelled-Kept env))
  attempt-Kept env i j p t on_payout = then_mark-Kept env j _ (payout-Kept p i.own_transaction)
  attempt-Kept env i j p t on_issue = then_mark-Kept env j _ issue-Kept
  attempt-Kept env i j p t (on_confirmation expected) =
      then_mark-Kept env j _ (confirmation-Kept expected p i.own_transaction)
  attempt-Kept env i j p t (on_failure what) =
      then_mark-Kept env j _ (failure-Kept env what p i.own_transaction)
  attempt-Kept env i j p t no_handler = then_finish _ _ (mark-Kept env j as_processed λ e. refl)

  record_attempt-Kept : (env : Env) (j : ℕ) (queues : Bool) → Kept (record_attempt env j queues)
  unfolding record_attempt
  record_attempt-Kept env j true =
      chain-Leads (Claimed id) (Claimed id) _ _ same (mark-Kept env j as_failed λ e. refl)
        λ a. then_finish _ _ (still-Kept _ (emit-IsQuiet _))
  record_attempt-Kept env j false =
      chain-Leads (Claimed id) (Claimed id) _ _ same (mark-Kept env j as_failed λ e. refl)
        λ a. then_finish _ _ (finish tt)

  pub run_handler-Kept :
      (env : Env) (i : Inputs) (e : WebhookEvent) (queues : Bool)
      → Leads (Claimed id) (run_handler env i e queues) (Claimed id)
  unfolding run_handler
  run_handler-Kept env i e queues =
      rescue-Leads (Claimed id) _ _
        (attempt-Kept env i e.provider_event_id e.payload e.event_type (handler_for e.event_type))
        (λ thrown. record_attempt-Kept env e.provider_event_id queues)
