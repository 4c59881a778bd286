-- ===== src/Books/Disputing.antt =====
-- The transactions of a dispute, its ruling, and the steps between funding and the end of an event
-- keep the books in agreement.
use o_artiste.Prelude.{ℕ, pos, pos_part, ◌≡◌, ◌≤◌, ◌+◌, refl, sym, ◌∙◌, false, List}
use o_artiste.Schema.{resolved}
use o_artiste.Errors.{Result, ok, >>=-eq-ok, ok-injective}
use o_artiste.Booking.{Booking}
use o_artiste.Ledger.{
  Ledger, LedgerEntry, transaction, record_release, record_artist_cancellation,
  record_dispute_split,
}
use o_artiste.Ledger.Balance.{Moves, release-Moves, artist_cancellation-Moves, split-Moves}
use o_artiste.Store.{Db, Dispute, transition, on_ledger}
use o_artiste.Escrow.Records.{
  resolve_tx, artist_fault, resolution_entries, resolution_liability, resolved_at_data,
  ruling_strike, decide, DisputeOutcome, for_artist, for_client, split_funds, SplitPlan,
}
use o_artiste.Books.{IsSound}
use o_artiste.Books.Transactions.{Same, Same-IsSound, create_liability-Same}
use o_artiste.Books.Concluding.{Keeps, Read, concluded-IsSound, held_before_ruling}
use o_artiste.Books.Cancelling.{accrue_for_dispute-Same}

resolved_at-Keeps : (now : ℕ) (outcome : DisputeOutcome) → Keeps (resolved_at_data now outcome)
resolved_at-Keeps now for_artist b = (refl, refl, refl, refl, refl, refl)
resolved_at-Keeps now for_client b = (refl, refl, refl, refl, refl, refl)
resolved_at-Keeps now split_funds b = (refl, refl, refl, refl, refl, refl)

-- What a ruling writes on the ledger.
abbrev ruling_step :
    Booking → DisputeOutcome → SplitPlan → Ledger → Result (List LedgerEntry × Ledger)
ruling_step b for_artist plan = record_release transaction b
ruling_step b for_client plan = record_artist_cancellation transaction b
ruling_step b split_funds plan =
    record_dispute_split transaction b plan.client_kobo (pos_part plan.artist_kobo)

resolution_entries_lem :
    (b : Booking) (outcome : DisputeOutcome) (plan : SplitPlan) (db : Db)
    → resolution_entries b outcome plan db ≡ on_ledger (ruling_step b outcome plan) db
unfolding resolution_entries
resolution_entries_lem b for_artist plan db = refl
resolution_entries_lem b for_client plan db = refl
resolution_entries_lem b split_funds plan db = refl

ruling_step-Moves :
    (b : Booking) (outcome : DisputeOutcome) (plan : SplitPlan) (l : Ledger)
    → b.commission_rate_bps_snapshot ≤ 10_000
    → plan.client_kobo + pos_part plan.artist_kobo ≡ b.amount_kobo
    → Moves (ruling_step b outcome plan l) b.id l (pos b.amount_kobo)
ruling_step-Moves b for_artist plan l bps exact = release-Moves b l
ruling_step-Moves b for_client plan l bps exact = artist_cancellation-Moves b l
ruling_step-Moves b split_funds plan l bps exact =
    split-Moves b plan.client_kobo (pos_part plan.artist_kobo) l bps exact

resolution_liability-Same :
    (b : Booking) (outcome : DisputeOutcome) (db : Db) → Same db (resolution_liability b outcome db)
resolution_liability-Same b for_artist db = (refl, refl)
resolution_liability-Same b for_client db =
    create_liability-Same b.artist_user_id b.id (artist_fault b).fee_liability db
resolution_liability-Same b split_funds db = (refl, refl)

ruling_strike-Same :
    (now : ℕ) (b : Booking) (outcome : DisputeOutcome) (db : Db)
    → Same db (ruling_strike now b outcome db)
ruling_strike-Same now b for_artist db = accrue_for_dispute-Same b.client_user_id _ b.id now db
ruling_strike-Same now b for_client db = accrue_for_dispute-Same b.artist_user_id false b.id now db
ruling_strike-Same now b split_funds db = (refl, refl)

pub resolve_tx-IsSound :
    (now : ℕ) (b : Booking) (d : Dispute) (actor : ℕ) (outcome : DisputeOutcome) (plan : SplitPlan)
    (db : Db) {r : Booking × Db}
    → Read b db
    → plan.client_kobo + pos_part plan.artist_kobo ≡ b.amount_kobo
    → resolve_tx now b d actor outcome plan db ≡ ok r
    → IsSound r.1
unfolding resolve_tx
resolve_tx-IsSound now b d actor outcome plan db {r} read exact h =
    let data_of = resolved_at_data now outcome in
    let (n, moved, rest) = >>=-eq-ok (transition b.id resolved data_of db) _ h in
    let (e, wrote, same) = >>=-eq-ok (resolution_entries b outcome plan n.1) _ rest in
    let stepped : on_ledger (ruling_step b outcome plan) n.1 ≡ ok e =
      sym (resolution_entries_lem b outcome plan n.1) ∙ wrote in
    let bps = (read.0 b.id b read.1).1.0 in
    let sound =
      concluded-IsSound b resolved data_of (ruling_step b outcome plan) db read
        (resolved_at-Keeps now outcome) (held_before_ruling b.state) refl
        (ruling_step-Moves b outcome plan db.ledger bps exact) moved stepped in
    let db1 = resolution_liability b outcome e.1 in
    let db2 : Db = record db1 { disputes = decide d actor outcome plan db1.disputes } in
    let owing = Same-IsSound e.1 db1 (resolution_liability-Same b outcome e.1) sound in
    rw (← ok-injective same) (
      Same-IsSound db2 (ruling_strike now b outcome db2) (ruling_strike-Same now b outcome db2)
        owing)
