-- ===== src/Books/Reachable.antt =====
-- Requests one after the other, of any users, with any answers of the provider and of the database.
use o_artiste.Prelude.{ℕ, ℤ, pos, ◌≤◌, ◌≡◌, Bool, Option, some, List}
use o_artiste.Request.{World, Env, Action}
use o_artiste.Ledger.{reconcile}
use o_artiste.Booking.{Booking}
use o_artiste.Escrow.Records.{DisputeOutcome}
use o_artiste.Escrow.Operations.{release_booking, cancel_by_client, cancel_by_artist}
use o_artiste.Escrow.Rulings.{resolve_dispute, write_off_liabilities}
use o_artiste.Disputes.Requests.{raise, submit_evidence}
use o_artiste.Confirmation.{confirm, claim_no_show}
use o_artiste.AutoRelease.{run_job}
use o_artiste.CheckIn.{redeem}
use o_artiste.Webhooks.Handlers.{handle_transaction_funded}
use o_artiste.Books.{IsSound, position}
use o_artiste.Books.Logic.{Leads}
use o_artiste.Tiers.{Tier}
use o_artiste.Versions.{resolve_commission_rate}
use o_artiste.Creation.{NewBooking, create_booking}
use o_artiste.Creation.Terms.{acknowledge_terms}
use o_artiste.Creation.Funding.{Answers, create_escrow}
use o_artiste.Books.Beginnings.{
  IsReady, create_booking-Leads, acknowledge_terms-Leads, create_escrow-Leads,
}
use o_artiste.Books.Requests.{release_booking-Leads}
use o_artiste.Books.Cancellations.{cancel_by_client-Leads, cancel_by_artist-Leads}
use o_artiste.Books.Resolutions.{
  resolve_dispute-Leads, write_off_liabilities-Leads, raise-Leads, submit_evidence-Leads,
}
use o_artiste.Books.Events.{
  confirm-Leads, claim_no_show-Leads, run_job-Leads, redeem-Leads, handle_transaction_funded-Leads,
}

-- The requests that are followed here, with the arguments that the source reads. The event that an
-- escrow was cancelled is not one of them.
pub data Demand : Type 0 where
  funded_event : List ℕ → ℕ → Bool → ℕ → ℕ → Demand
  redeem_code : ℕ → ℕ → List ℕ → Demand
  confirm_event report_no_show : ℕ → ℕ → Demand
  auto_release : ℕ → ℕ → Demand
  release_it : ℕ → Demand
  client_cancels artist_cancels : ℕ → ℕ → Demand
  raise_dispute : ℕ → ℕ → Bool → Demand
  give_evidence : ℕ → ℕ → Bool → Bool → Demand
  rule_on : ℕ → DisputeOutcome → Bool → ℕ → Option ℤ → Demand
  write_off : ℕ → Bool → ℕ → Demand
  accept_terms : ℕ → ℕ → Bool → Option (List Tier) → Demand
  open_its_escrow : Answers → ℕ → ℕ → Demand

-- The world after a demand, whether it was met or refused.
abbrev pub answer : Env → Demand → World → World
answer env (funded_event code minor up hours escrow) w =
    (handle_transaction_funded env code minor up hours escrow w).1
answer env (redeem_code k user code) w = (redeem env k user code w).1
answer env (confirm_event k user) w = (confirm env k user w).1
answer env (report_no_show k user) w = (claim_no_show env k user w).1
answer env (auto_release hours k) w = (run_job env hours k w).1
answer env (release_it k) w = (release_booking env k w).1
answer env (client_cancels k user) w = (cancel_by_client env k user w).1
answer env (artist_cancels k user) w = (cancel_by_artist env k user w).1
answer env (raise_dispute k user reason) w = (raise env k user reason w).1
answer env (give_evidence d user statement file) w = (submit_evidence env d user statement file w).1
answer env (rule_on d outcome reason actor share) w =
    (resolve_dispute env d outcome reason actor share w).1
answer env (write_off user reason actor) w = (write_off_liabilities env user reason actor w).1
answer env (accept_terms k user accepted displayed) w =
    (acknowledge_terms env k user accepted displayed w).1
answer env (open_its_escrow answers k user) w = (create_escrow env answers k user w).1

-- One world leads to another by demands and by creations of bookings, each in an environment of its
-- own. The id of a new booking is one that no row bears, and the rate in force is at most the whole.
pub data Reaches : World → World → Type 0 where
  stay : {w : World} → Reaches w w
  step : (env : Env) (d : Demand) {v w : World} → Reaches v w → Reaches v (answer env d w)
  begin :
      (env : Env) (id reference : ℕ) (asked : NewBooking) {v w : World}
      → (reconcile id w.db.ledger).sum_kobo ≡ pos 0
      → (resolve_commission_rate env.now w.db).0 ≤ 10_000
      → Reaches v w
      → Reaches v (create_booking env id reference asked w).1

run_Leads :
    {T : Type 0} (act : Action T) (w : World)
    → Leads IsSound act IsSound
    → IsSound w.db
    → IsSound (act w).1.db
unfolding Leads
run_Leads act w leads sound = leads w sound

answer-IsSound : (env : Env) (d : Demand) (w : World) → IsSound w.db → IsSound (answer env d w).db
answer-IsSound env (funded_event code minor up hours escrow) w =
    run_Leads _ w (handle_transaction_funded-Leads env code minor up hours escrow)
answer-IsSound env (redeem_code k user code) w = run_Leads _ w (redeem-Leads env k user code)
answer-IsSound env (confirm_event k user) w = run_Leads _ w (confirm-Leads env k user)
answer-IsSound env (report_no_show k user) w = run_Leads _ w (claim_no_show-Leads env k user)
answer-IsSound env (auto_release hours k) w = run_Leads _ w (run_job-Leads env hours k)
answer-IsSound env (release_it k) w = run_Leads _ w (release_booking-Leads env k)
answer-IsSound env (client_cancels k user) w = run_Leads _ w (cancel_by_client-Leads env k user)
answer-IsSound env (artist_cancels k user) w = run_Leads _ w (cancel_by_artist-Leads env k user)
answer-IsSound env (raise_dispute k user reason) w = run_Leads _ w (raise-Leads env k user reason)
answer-IsSound env (give_evidence d user statement file) w =
    run_Leads _ w (submit_evidence-Leads env d user statement file)
answer-IsSound env (rule_on d outcome reason actor share) w =
    run_Leads _ w (resolve_dispute-Leads env d outcome reason actor share)
answer-IsSound env (write_off user reason actor) w =
    run_Leads _ w (write_off_liabilities-Leads env user reason actor)
answer-IsSound env (accept_terms k user accepted displayed) w =
    run_Leads _ w (acknowledge_terms-Leads env k user accepted displayed)
answer-IsSound env (open_its_escrow answers k user) w =
    run_Leads _ w (create_escrow-Leads env answers k user)

created :
    (env : Env) (id reference : ℕ) (asked : NewBooking) (w : World)
    → IsReady env.now id w.db
    → IsSound (create_booking env id reference asked w).1.db
unfolding Leads
created env id reference asked w ready = create_booking-Leads env id reference asked w ready

-- From a world whose books agree with the states of its bookings, whatever demands of the type
-- `Demand` are made and bookings created, in whatever order, and whatever the provider answers and
-- the database commits: the entries of each booking sum to minus its amount while its money is
-- held, and to zero before it is funded and after it is concluded.
pub Reaches-position :
    (v w : World)
    → IsSound v.db
    → Reaches v w
    → (k : ℕ) (b : Booking) → w.db.bookings k ≡ some b
    → (reconcile k w.db.ledger).sum_kobo ≡ position b.state b.amount_kobo
Reaches-position v w sound path k b at = (reaches sound path k b at).2
  where
    reaches : {v w : World} → IsSound v.db → Reaches v w → IsSound w.db
    reaches sound stay = sound
    reaches sound (step env d {v} {w} path) = answer-IsSound env d w (reaches sound path)
    reaches sound (begin env id reference asked {v} {w} unused rated path) =
        created env id reference asked w
          (record { sound = reaches sound path; unused = unused; rated = rated })
