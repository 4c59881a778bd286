-- ===== src/Escrow/Failures.antt =====
-- When an operation of escrowService.ts throws, whatever threw.
use o_artiste.Prelude.{ℕ, ℤ, ◌≡◌, refl, Bool, true, false, Option}
use o_artiste.Schema.{released, refunded, cancelled, state_eq}
use o_artiste.Fees.{ClientCancellation, LiabilitySettlement}
use o_artiste.Tiers.{Tier, days_before_event}
use o_artiste.Booking.{Booking}
use o_artiste.Errors.{ok, ok-injective}
use o_artiste.Ledger.{completion_for, client_breakdown}
use o_artiste.Disputes.Requests.{find_dispute}
use o_artiste.Payouts.{PayoutResult}
use o_artiste.Payouts.Failures.{pay_out-IsAtomic}
use o_artiste.Store.{Db, Dispute, Cancellation, find_booking}
use o_artiste.Request.{Env, Action, ◌>>=◌, done}
use o_artiste.Request.Atomic.{
  IsAtomic, IsSure, quiet-IsAtomic, check-IsAtomic, then_sure-IsAtomic, transact-IsAtomic,
  bind-IsSure, emit-IsSure, done-IsSure, sure-IsAtomic, either-IsAtomic, Throws, atomic-Throws,
  map-Throws, either-Throws, quiet-Throws, check-Throws, query-Throws, transact-Throws,
}
use o_artiste.Books.Logic.{
  Leads, IsQuiet, instruct-IsQuiet, instruct_if-IsQuiet, query-IsQuiet, emit-IsQuiet,
}
use o_artiste.Books.Resolutions.{instruct_provider-Leads}
use o_artiste.Escrow.Records.{
  DisputeOutcome, for_artist, for_client, split_funds, SplitPlan, release_tx, cancel_by_client_tx,
  resolve_tx,
}
use o_artiste.Escrow.Operations.{
  release_now, release_booking, refund_now, refund_booking, withdraw_by_client, pay_out_if,
  split_by_client, cancel_uncancelled_by_client, cancel_by_client, is_unfunded, select_settleable,
  settlement_of,
}
use o_artiste.Escrow.Rulings.{
  instruct_provider, pay_ruling, rule, resolve_dispute, write_off_liabilities, plan_of,
}
use o_artiste.Escrow.Reclassify.{reclassify_now, reclassify_as_artist_fault}

then_done :
    {S T : Type 0} (act : Action S) (t : S → T) → IsSure act → IsSure (act >>= λ s. done (t s))
then_done act t sure = bind-IsSure act _ sure λ s. done-IsSure (t s)

-- The database after the transaction of a release, which ran on the one before.
abbrev pub Released : ℕ → Db → Db → Type 0
Released k d d' =
    (b : Booking) × (find_booking k d ≡ ok b)
    × ((r : Booking) × (release_tx b
            (select_settleable b.artist_user_id (completion_for b).artist_net d).0
            (settlement_of b d).settled_kobo d
          ≡ ok (r, d')))

release_now-Throws :
    (env : Env) (k : ℕ) (b : Booking)
    → Throws (λ d d'. find_booking k d ≡ ok b → Released k d d') (release_now env b)
unfolding release_now
release_now-Throws env k b = check-Throws _ _ _ λ a _. check-Throws _ _ _ λ a _.
    check-Throws _ _ _ λ a _. query-Throws _ _ _ λ chosen.
      query-Throws _ _ _ λ (settlement : LiabilitySettlement).
        quiet-Throws _ _ _ (instruct-IsQuiet env _) λ a.
          map-Throws _ _ _
            (λ d d' wrote settled chose found.
              (b, found, (wrote.0, rw (ok-injective chose, ok-injective settled) wrote.1)))
            (transact-Throws env (release_tx b chosen settlement.settled_kobo) _ λ (next : Booking).
              quiet-IsAtomic _ _ (emit-IsQuiet _) λ a.
                then_sure-IsAtomic _ _ (pay_out-IsAtomic env b.id _ _)
                  λ (payout : PayoutResult). done-IsSure _)

release_booking-Throws : (env : Env) (k : ℕ) → Throws (Released k) (release_booking env k)
unfolding release_booking
release_booking-Throws env k = query-Throws _ (find_booking k) _ λ (b : Booking).
    either-Throws _ (state_eq b.state released) _ _
      (atomic-Throws _ _ (sure-IsAtomic _ (done-IsSure _))) (release_now-Throws env k b)

refund_booking-IsAtomic :
    (env : Env) (k : ℕ) (also_record : Booking → Db → Db)
    → IsAtomic (refund_booking env k also_record)
unfolding refund_booking refund_now
refund_booking-IsAtomic env k also_record = quiet-IsAtomic _ _ (query-IsQuiet _) λ (b : Booking).
    either-IsAtomic (state_eq b.state refunded) _ _ (sure-IsAtomic _ (done-IsSure _)) (
      check-IsAtomic _ _ λ a _. check-IsAtomic _ _ λ a _.
        quiet-IsAtomic _ _ (instruct-IsQuiet env _) λ a.
          then_sure-IsAtomic _ _ (transact-IsAtomic env _)
            λ (next : Booking). then_done _ _ (emit-IsSure _))

pay_out_if-IsAtomic :
    (may : Bool) (env : Env) (k : ℕ) (amount : ℤ) (commission : Option ℕ)
    → IsAtomic (pay_out_if may env k amount commission)
pay_out_if-IsAtomic true env k amount commission =
    then_sure-IsAtomic _ _ (pay_out-IsAtomic env k amount commission)
      λ (payout : PayoutResult). done-IsSure tt
pay_out_if-IsAtomic false env k amount commission = sure-IsAtomic _ (done-IsSure tt)

-- The database after the transaction of a client's cancellation with shares.
abbrev pub CancelledByClient : ℕ → ℕ → Db → Db → Type 0
CancelledByClient now k d d' =
    (b : Booking) × (find_booking k d ≡ ok b)
    × ((tier : Tier) × (c : ClientCancellation) × (client_breakdown b tier ≡ ok c)
        × ((r : Booking) × (cancel_by_client_tx now b tier (days_before_event b.event_date now) c d
              ≡ ok (r, d'))))

split_by_client-Throws :
    (env : Env) (k : ℕ) (b : Booking) (tier : Tier)
    → Throws
        (λ d d'. find_booking k d ≡ ok b → CancelledByClient env.now k d d')
        (split_by_client env b tier (days_before_event b.event_date env.now))
unfolding split_by_client
split_by_client-Throws env k b tier = check-Throws _ _ _ λ (c : ClientCancellation) split.
    check-Throws _ _ _ λ a _. quiet-Throws _ _ _ (instruct_if-IsQuiet _ env _) λ a.
      quiet-Throws _ _ _ (instruct_if-IsQuiet _ env _) λ a.
        map-Throws _ _ _ (λ d d' wrote found. (b, found, (tier, c, split, wrote)))
          (transact-Throws env
            (cancel_by_client_tx env.now b tier (days_before_event b.event_date env.now) c) _
            λ (next : Booking).
              then_sure-IsAtomic _ _ (pay_out_if-IsAtomic _ env b.id _ _)
                λ a. then_done _ _ (emit-IsSure _))

cancel_by_client-Throws :
    (env : Env) (k user : ℕ) → Throws (CancelledByClient env.now k) (cancel_by_client env k user)
unfolding cancel_by_client cancel_uncancelled_by_client withdraw_by_client
cancel_by_client-Throws env k user = query-Throws _ (find_booking k) _ λ (b : Booking).
    check-Throws _ _ _ λ a _.
      either-Throws _ (state_eq b.state cancelled) _ _
        (atomic-Throws _ _ (sure-IsAtomic _ (done-IsSure _)))
        (check-Throws _ _ _ λ a _. check-Throws _ _ _ λ (tier : Tier) _.
          either-Throws _ (is_unfunded b) _ _
            (atomic-Throws _ _
              (then_sure-IsAtomic _ _ (transact-IsAtomic env _) λ (next : Booking). done-IsSure _))
            (split_by_client-Throws env k b tier))

pay_ruling-IsAtomic :
    (env : Env) (b : Booking) (outcome : DisputeOutcome) (plan : SplitPlan)
    → IsAtomic (pay_ruling env b outcome plan)
unfolding pay_ruling
pay_ruling-IsAtomic env b for_artist plan = pay_out_if-IsAtomic true env b.id _ _
pay_ruling-IsAtomic env b for_client plan = sure-IsAtomic _ (done-IsSure tt)
pay_ruling-IsAtomic env b split_funds plan = pay_out_if-IsAtomic _ env b.id _ _

instruct_provider-IsQuiet :
    (env : Env) (b : Booking) (outcome : DisputeOutcome) (plan : SplitPlan)
    → IsQuiet (instruct_provider env b outcome plan)
unfolding Leads
instruct_provider-IsQuiet env b outcome plan w =
    instruct_provider-Leads env b outcome plan (λ db. db ≡ w.db) w refl

-- The database after the transaction of a ruling.
abbrev pub Ruled : ℕ → ℕ → DisputeOutcome → ℕ → Option ℤ → Db → Db → Type 0
Ruled now k outcome actor share d d' =
    (dispute : Dispute) × (find_dispute k d ≡ ok dispute)
    × ((b : Booking) × (find_booking dispute.booking_id d ≡ ok b)
        × ((plan : SplitPlan) × (plan_of b outcome share ≡ ok plan)
            × ((r : Booking) × (resolve_tx now b dispute actor outcome plan d ≡ ok (r, d')))))

resolve_dispute-Throws :
    (env : Env) (k : ℕ) (outcome : DisputeOutcome) (has_reason : Bool) (actor : ℕ)
    (share : Option ℤ)
    → Throws
        (Ruled env.now k outcome actor share)
        (resolve_dispute env k outcome has_reason actor share)
unfolding resolve_dispute rule
resolve_dispute-Throws env k outcome has_reason actor share = check-Throws _ _ _ λ a _.
    query-Throws _ (find_dispute k) _ λ (dispute : Dispute). check-Throws _ _ _ λ a _.
      query-Throws _ (find_booking dispute.booking_id) _ λ (b : Booking). check-Throws _ _ _ λ a _.
        check-Throws _ _ _ λ a _. check-Throws _ _ _ λ (plan : SplitPlan) planned.
          quiet-Throws _ _ _ (instruct_provider-IsQuiet env b outcome plan) λ (moved : ℕ × ℤ).
            map-Throws _ _ _
              (λ d d' wrote read found. (dispute, found, (b, read, (plan, planned, wrote))))
              (transact-Throws env (resolve_tx env.now b dispute actor outcome plan) _
                λ (next : Booking).
                  then_sure-IsAtomic _ _ (pay_ruling-IsAtomic env b outcome plan)
                    λ a. bind-IsSure _ _ (emit-IsSure _) λ a. then_done _ _ (emit-IsSure _))

write_off_liabilities-IsAtomic :
    (env : Env) (user : ℕ) (has_reason : Bool) (actor : ℕ)
    → IsAtomic (write_off_liabilities env user has_reason actor)
unfolding write_off_liabilities
write_off_liabilities-IsAtomic env user has_reason actor =
    check-IsAtomic _ _ λ a _. transact-IsAtomic env _

reclassify-IsAtomic :
    (env : Env) (c actor : ℕ) (has_reason : Bool)
    → IsAtomic (reclassify_as_artist_fault env c actor has_reason)
unfolding reclassify_as_artist_fault reclassify_now
reclassify-IsAtomic env c actor has_reason = check-IsAtomic _ _ λ a _.
    quiet-IsAtomic _ _ (query-IsQuiet _) λ (row : Cancellation).
      quiet-IsAtomic _ _ (query-IsQuiet _) λ (b : Booking). check-IsAtomic _ _ λ a _.
        check-IsAtomic _ _ λ a _. check-IsAtomic _ _ λ (original : ClientCancellation) _.
          check-IsAtomic _ _ λ a _. quiet-IsAtomic _ _ (instruct_if-IsQuiet _ env _) λ a.
            then_sure-IsAtomic _ _ (transact-IsAtomic env _)
              λ (reversed : ℕ). then_done _ _ (emit-IsSure _)

-- When an operation throws, by a guard, a missing row, the provider or a transaction that does not
-- commit, it has written all of its one transaction or nothing. A refund, a
-- write-off and a reclassification leave the database as it was. A release, a client's
-- cancellation and a ruling leave it as it was or, where what follows the commit threw, as their
-- transaction made it out of the database before, with what it read there.
pub operations-Throws :
    (env : Env) (k user actor : ℕ) (has_reason : Bool) (outcome : DisputeOutcome) (share : Option ℤ)
    (also_record : Booking → Db → Db)
    → Throws (Released k) (release_booking env k)
      × Throws (CancelledByClient env.now k) (cancel_by_client env k user)
      × Throws
          (Ruled env.now k outcome actor share)
          (resolve_dispute env k outcome has_reason actor share)
      × IsAtomic (refund_booking env k also_record)
      × IsAtomic (write_off_liabilities env user has_reason actor)
      × IsAtomic (reclassify_as_artist_fault env k actor has_reason)
operations-Throws env k user actor has_reason outcome share also_record = (
  release_booking-Throws env k,
  cancel_by_client-Throws env k user,
  resolve_dispute-Throws env k outcome has_reason actor share,
  refund_booking-IsAtomic env k also_record,
  write_off_liabilities-IsAtomic env user has_reason actor,
  reclassify-IsAtomic env k actor has_reason,
)
