-- ===== src/AutoRelease.antt =====
-- apps/backend/src/jobs/autoReleaseJob.ts: the scheduling and the run of the job that pays on
-- silence. The queue is outside the model; `grace_hours` is the configuration that is in force.
pub mod Silence
use o_artiste.Prelude.{
  ℕ, ltb, ◌+◌, ◌*◌, ◌==◌, if◌then◌else◌, Bool, true, false, not, ◌&&◌, ◌||◌, Option, none, some,
  is_some, find, List,
}
use o_artiste.Schema.{disputed, state_eq, DisputeState, open_state}
use o_artiste.Errors.{Result, ok, err}
use o_artiste.Booking.{Booking}
use o_artiste.Store.{Db, Dispute, amend}
use o_artiste.Request.{World, Env, Action, ◌>>=◌, ◌>>◌, done, query, transact}
use o_artiste.Disputes.{is_closed, dispute_eq}
use o_artiste.Confirmation.{open_window}
use o_artiste.Escrow.Operations.{ReleaseSummary, release_booking}

abbrev pub default_grace_hours : ℕ
default_grace_hours = 48

-- `deadlineFor`, in milliseconds
abbrev pub deadline_for : ℕ → ℕ → ℕ
deadline_for event_end_at hours = event_end_at + hours * 3_600_000

-- `schedule`: a queue that is down, or a write that fails, is reported and not thrown.
abbrev swallow : Result Booking × World → Result (Unit {0}) × World
swallow r = (ok tt, r.1)

abbrev pub due_at : ℕ → Booking → Booking
due_at deadline b = record b { auto_release_at = some deadline }

unfoldable pub schedule : Env → Bool → ℕ → Booking → Action (Unit {0})
schedule env queue_up grace_hours b w = elim queue_up [
  | false ↦ (ok tt, w)
  | true ↦
      let deadline = deadline_for b.event_end_at grace_hours in
      swallow (transact env (amend b.id (due_at deadline)) w)
]

pub data Outcome : Type 0 where
  booking_missing already_settled dispute_open no_check_in client_claimed_no_show : Outcome
  not_yet_due : Outcome
  -- whether this run is the one that released
  paid : Bool → Outcome

abbrev pub is_open_on : ℕ → Dispute → Bool
is_open_on booking_id d = d.booking_id == booking_id && dispute_eq d.state open_state

abbrev pub deadline_of : ℕ → Booking → ℕ
deadline_of grace_hours b = elim b.auto_release_at [
  | none ↦ deadline_for b.event_end_at grace_hours
  | some at ↦ at
]

-- The reasons for which a run stops before it pays, in the order of the tests.
unfoldable pub skip_reason : ℕ → ℕ → Db → Booking → Option Outcome
skip_reason now grace_hours db b =
    if is_closed b.state
    then some already_settled
    else if state_eq b.state disputed || is_some (find (is_open_on b.id) db.disputes)
    then some dispute_open
    else if not (is_some b.check_in)
    then some no_check_in
    else if is_some b.client_no_show_claimed_at
    then some client_claimed_no_show
    else if ltb now (deadline_of grace_hours b)
    then some not_yet_due
    else none

unfoldable pub pay_on_silence : Env → Booking → Action Outcome
pay_on_silence env b = do
  open_window env b
  release ← release_booking env b.id
  done (paid (not release.already_released))

unfoldable pub run_job : Env → ℕ → ℕ → Action Outcome
unfolding skip_reason pay_on_silence
run_job env grace_hours booking_id = do
  row ← query (λ db. ok (db.bookings booking_id))
  elim row [
    | none ↦ done booking_missing
    | some b ↦ do
      reason ← query (λ db. ok (skip_reason env.now grace_hours db b))
      elim reason [ some outcome ↦ done outcome | none ↦ pay_on_silence env b ]
  ]
