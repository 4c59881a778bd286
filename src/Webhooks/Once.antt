-- ===== src/Webhooks/Once.antt =====
-- A delivery of an event that was received before does nothing (webhookService.ts).
use o_artiste.Prelude.{
  ℕ, ◌≡◌, refl, ap, Bool, true, false, Option, some, List, [], ◌∷◌, find, Bool-cases, Option-cases,
  inl, inr, All, ◌⊎◌,
}
use o_artiste.Errors.{ok, ok-injective}
use o_artiste.Store.{Payload}
use o_artiste.Request.{World, Env, Action, done}
use o_artiste.Request.Runs.{bind-eq-ok, bind-run, transact-eq-ok, done-eq-ok}
use o_artiste.Books.Logic.{Leads}
use o_artiste.Webhooks.Intake.{
  Inputs, Outcome, duplicate, has_event, run_handler, insert_event, claim, event_of, claim_and_run,
  delivery_id, receive,
}
use o_artiste.Webhooks.Events.{Claimed, find-snoc}
use o_artiste.Webhooks.Kept.{run_handler-Kept}

claim-Claimed :
    (env : Env) (id : ℕ) (p : Payload) (w : World) {mine : Bool} {u : World}
    → claim env (event_of id p) w ≡ (ok mine, u)
    → Claimed id u.db
unfolding claim
claim-Claimed env id p w h = elim (Option-cases (find (has_event id) w.db.webhook_events)) [
  | inr (e, found) ↦
      let run : (ok false, w) ≡ _ = rw (claim, found) at h in
      let there : w ≡ _ = ap (λ r. r.1) run in rw (← there) (rw found refl)
  | inl found ↦
      let run = rw (claim, found) at h in
      let (db, wrote, there) = transact-eq-ok env (insert_event (event_of id p)) w run in
      rw there (
        rw (← ap (λ r. r.1) (ok-injective wrote))
          (find-snoc id w.db.webhook_events (event_of id p) refl))
]

-- Whether the id was free or taken, it is claimed afterwards.
claim_and_run-Claimed :
    (env : Env) (i : Inputs) (id : ℕ) (p : Payload) (w : World) {o : Outcome} {v : World}
    → claim_and_run env i id p w ≡ (ok o, v)
    → Claimed id v.db
unfolding claim_and_run Leads
claim_and_run-Claimed env i id p w {o} {v} h =
    let (mine, u, claimed, rest) = bind-eq-ok (claim env (event_of id p)) _ w h in
    ran mine u (claim-Claimed env id p w claimed) rest
  where
    ran :
        (mine : Bool) (u : World)
        → Claimed id u.db
        → elim mine as (λ x. Action Outcome) [
          | false ↦ done duplicate
          | true ↦ run_handler env i (event_of id p) true
        ]
            u
          ≡ (ok o, v)
        → Claimed id v.db
    ran false u there h = let (same, last) = done-eq-ok duplicate u h in rw last there
    ran true u there h =
        let kept = run_handler-Kept id env i (event_of id p) true u there in
        let last = ap (λ r. r.1) h in rw (← last) kept

receive-Claimed :
    (env : Env) (i : Inputs) (id : ℕ) (p : Payload) (header : Option ℕ) (w : World)
    → delivery_id header p ≡ some id
    → Claimed id w.db
    → receive env i true (some p) header w ≡ (ok duplicate, w)
unfolding receive claim_and_run claim done
receive-Claimed env i id p header w names there =
    elim (Option-cases (find (has_event id) w.db.webhook_events)) [
      | inl e ↦ absurd (let impossible : false ≡ true = rw e at there in cc)
      | inr (e, found) ↦
          let taken : claim env (event_of id p) w ≡ (ok false, w) = rw (claim, found) refl in
          rw (receive, names, claim_and_run) (bind-run (claim env (event_of id p)) _ taken)
    ]

-- What arrives at the endpoint, with the environment of the moment.
pub record Delivery : Type 0 where
  pub env : Env
  pub inputs : Inputs
  pub signed : Bool
  pub payload : Payload
  pub header : Option ℕ

-- The world after deliveries one after the other.
abbrev pub deliver : List Delivery → World → World
deliver [] w = w
deliver (d ∷ ds) w = deliver ds (receive d.env d.inputs d.signed (some d.payload) d.header w).1

-- A delivery of the event, or one that the provider did not sign.
abbrev pub IsRepeat : ℕ → Delivery → Type 0
IsRepeat id d = (d.signed ≡ false) ⊎ (delivery_id d.header d.payload ≡ some id)

repeats_do_nothing :
    (id : ℕ) (ds : List Delivery) (w : World)
    → Claimed id w.db
    → All (IsRepeat id) ds
    → deliver ds w ≡ w
unfolding receive done
repeats_do_nothing id [] w there repeats = refl
repeats_do_nothing id (d ∷ ds) w there repeats = elim repeats.0 [
  | inl unsigned ↦ rw (deliver, receive, unsigned) (repeats_do_nothing id ds w there repeats.1)
  | inr names ↦ elim (Bool-cases d.signed) [
    | inr unsigned ↦ rw (deliver, receive, unsigned) (repeats_do_nothing id ds w there repeats.1)
    | inl signed ↦
        let same = receive-Claimed d.env d.inputs id d.payload d.header w names there in
        rw (deliver, signed, same) (repeats_do_nothing id ds w there repeats.1)
  ]
]

-- Once a signed delivery of an event has been received, whatever came of it, no later deliveries of
-- the same event and no unsigned ones, however many and with whatever bodies, change anything: not
-- the database, not what the provider was asked, and not what was sent or queued.
pub receive_once :
    (env : Env) (i : Inputs) (p : Payload) (header : Option ℕ) (id : ℕ) (w : World)
    (ds : List Delivery) {o : Outcome} {v : World}
    → delivery_id header p ≡ some id
    → receive env i true (some p) header w ≡ (ok o, v)
    → All (IsRepeat id) ds
    → deliver ds v ≡ v
unfolding receive
receive_once env i p header id w ds {o} {v} names h repeats =
    let run : claim_and_run env i id p w ≡ (ok o, v) = rw (receive, names) at h in
    repeats_do_nothing id ds v (claim_and_run-Claimed env i id p w run) repeats
