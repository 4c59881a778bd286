-- ===== src/AutoRelease/Silence.antt =====
-- What a payment on silence by autoReleaseJob.ts rests on.
use o_artiste.Prelude.{
  ℕ, ◌≡◌, ◌≤◌, ◌⊎◌, inl, inr, refl, Bool, true, false, Option, none, some, is_some, find, arith,
  not, ◌||◌, ltb, if◌then◌else◌, List, [], ◌∷◌, All, Bool-cases,
}
use o_artiste.Schema.{disputed, state_eq}
use o_artiste.Errors.{ok}
use o_artiste.Booking.{Booking}
use o_artiste.Store.{Db, Dispute}
use o_artiste.Disputes.{is_closed}
use o_artiste.Request.{World, Env, Action, ◌>>=◌, query, done}
use o_artiste.AutoRelease.{
  Outcome, skip_reason, deadline_of, is_open_on, already_settled, dispute_open, no_check_in,
  client_claimed_no_show, not_yet_due, booking_missing, pay_on_silence, run_job,
}

-- What a payment on silence needs of the booking and of the disputes.
abbrev pub IsDue : ℕ → ℕ → List Dispute → Booking → Type 0
IsDue now grace_hours disputes b =
    (is_closed b.state ≡ false)
    × (state_eq b.state disputed ≡ false)
    × All (λ d. is_open_on b.id d ≡ false) disputes
    × ((at : ℕ) × (b.check_in ≡ some at))
    × (b.client_no_show_claimed_at ≡ none)
    × (deadline_of grace_hours b ≤ now)

nothing_open :
    (k : ℕ) (ds : List Dispute)
    → is_some (find (is_open_on k) ds) ≡ false
    → All (λ d. is_open_on k d ≡ false) ds
nothing_open k [] h = tt
nothing_open k (d ∷ ds) h = elim (Bool-cases (is_open_on k d)) [
  | inl e ↦ absurd (let impossible = rw e at h in cc)
  | inr e ↦ (e, nothing_open k ds (rw e at h))
]

there_is : {A : Type 0} (x : Option A) → is_some x ≡ true → (a : A) × (x ≡ some a)
there_is none h = absurd cc
there_is (some a) h = (a, refl)

there_is_none : {A : Type 0} (x : Option A) → is_some x ≡ false → x ≡ none
there_is_none none h = refl
there_is_none (some a) h = absurd cc

skip_reason-IsDue :
    (now grace_hours : ℕ) (db : Db) (b : Booking)
    → skip_reason now grace_hours db b ≡ none
    → IsDue now grace_hours db.disputes b
unfolding skip_reason
skip_reason-IsDue now grace_hours db b h =
    let (live, quiet, closed, attended, silent, due) =
      go (is_closed b.state) (state_eq b.state disputed)
        (is_some (find (is_open_on b.id) db.disputes)) (is_some b.check_in)
        (is_some b.client_no_show_claimed_at) (deadline_of grace_hours b) h in
    (
      live,
      quiet,
      nothing_open b.id db.disputes closed,
      there_is b.check_in attended,
      there_is_none b.client_no_show_claimed_at silent,
      due,
    )
  where
    go :
        (closed under_dispute contested attended reported : Bool) (deadline : ℕ)
        → (if closed
            then some already_settled
            else if under_dispute || contested
            then some dispute_open
            else if not attended
            then some no_check_in
            else if reported
            then some client_claimed_no_show
            else if ltb now deadline
            then some not_yet_due
            else none)
          ≡ none
        → (closed ≡ false)
          × (under_dispute ≡ false)
          × (contested ≡ false)
          × (attended ≡ true)
          × (reported ≡ false)
          × (deadline ≤ now)
    go closed under_dispute contested attended reported deadline e = ground arith

-- A run of the job leaves the world as it was, with no call of the provider, nothing written and
-- nothing sent, unless there is a booking that is not concluded, over which no dispute is open, for
-- which a check-in is recorded and no no-show is reported, and whose deadline has passed. That
-- holds whether the run returns or throws.
pub run_job_needs_silence :
    (env : Env) (grace_hours k : ℕ) (w : World)
    → ((run_job env grace_hours k w).1 ≡ w)
      ⊎ ((b : Booking) × (w.db.bookings k ≡ some b) × IsDue env.now grace_hours w.db.disputes b)
unfolding run_job ◌>>=◌ query done
run_job_needs_silence env grace_hours k w = with_row (w.db.bookings k) refl
  where
    reasons :
        (b : Booking) (reason : Option Outcome)
        → skip_reason env.now grace_hours w.db b ≡ reason
        → ((elim reason as (λ x. Action Outcome) [
          | some outcome ↦ done outcome
          | none ↦ pay_on_silence env b
        ]
              w).1
            ≡ w)
          ⊎ IsDue env.now grace_hours w.db.disputes b
    reasons b (some outcome) e = inl refl
    reasons b none e = inr (skip_reason-IsDue env.now grace_hours w.db b e)

    with_row :
        (row : Option Booking)
        → w.db.bookings k ≡ row
        → ((elim row as (λ x. Action Outcome) [
          | none ↦ done booking_missing
          | some b ↦ query (λ db. ok (skip_reason env.now grace_hours db b)) >>= λ reason.
              elim reason [ some outcome ↦ done outcome | none ↦ pay_on_silence env b ]
        ]
              w).1
            ≡ w)
          ⊎ ((b : Booking) × (w.db.bookings k ≡ some b) × IsDue env.now grace_hours w.db.disputes b)
    with_row none at = inl refl
    with_row (some b) at = elim (reasons b (skip_reason env.now grace_hours w.db b) refl) [
      | inl same ↦ inl same
      | inr due ↦ inr (b, at, due)
    ]
