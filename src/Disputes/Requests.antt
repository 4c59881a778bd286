-- ===== src/Disputes/Requests.antt =====
-- `raise` and `submitEvidence` of apps/backend/src/services/disputeService.ts as requests.
use o_artiste.Prelude.{
  ℕ, ◌==◌, if◌then◌else◌, Bool, true, false, not, ◌||◌, none, some, [], ◌∷◌, ◌++◌, map, find,
}
use o_artiste.Schema.{pending_payment, state_eq, open_state, under_review}
use o_artiste.Errors.{
  Result, ok, err, throw_if, booking_not_found, dispute_not_found, dispute_decided, dispute_closed,
  dispute_unpaid, evidence_missing,
}
use o_artiste.Store.{Db, Tx, Dispute, DisputeEvidence, find_booking}
use o_artiste.Request.{
  Env, Action, ◌>>=◌, ◌>>◌, transact, emit, query, check, done, cancel_auto_release,
  dispute_opened_notice, dispute_evidence_notice,
}
use o_artiste.Disputes.{
  open_dispute, is_party, is_closed, is_resolved, dispute_eq, assert_dispute_transition,
}

unfoldable pub raise : Env → ℕ → ℕ → Bool → Action Dispute
unfolding open_dispute
raise env booking_id user_id has_reason = do
  b ← query (find_booking booking_id)
  check (throw_if (not (is_party b user_id)) booking_not_found)
  check (throw_if (state_eq b.state pending_payment) dispute_unpaid)
  check (throw_if (is_closed b.state) dispute_closed)
  dispute ← transact env (open_dispute booking_id user_id has_reason)
  emit (cancel_auto_release booking_id)
  emit (dispute_opened_notice booking_id)
  done dispute

unfoldable pub find_dispute : ℕ → Db → Result Dispute
find_dispute dispute_id db = elim (find (λ d. d.id == dispute_id) db.disputes) [
  | none ↦ err dispute_not_found
  | some d ↦ ok d
]

abbrev pub review : ℕ → Dispute → Dispute
review dispute_id d = if d.id == dispute_id then record d { state = under_review } else d

-- The transaction of `submitEvidence`; the step to `under_review` is allowed from `open_state`.
unfoldable pub evidence_tx : Dispute → ℕ → Tx (Unit {0})
evidence_tx d user_id db =
    let row : DisputeEvidence = record { dispute_id = d.id; submitted_by_user_id = user_id } in
    let db1 = record db { evidence = db.evidence ++ row ∷ [] } in
    elim (dispute_eq d.state open_state) [
      | true ↦ elim (assert_dispute_transition d.state under_review) [
        | err e ↦ err e
        | ok u ↦ ok (tt, record db1 { disputes = map (review d.id) db1.disputes })
      ]
      | false ↦ ok (tt, db1)
    ]

-- The statement and the file are read only for whether there is one.
unfoldable pub submit_evidence : Env → ℕ → ℕ → Bool → Bool → Action (Unit {0})
unfolding find_dispute evidence_tx
submit_evidence env dispute_id user_id has_statement has_file = do
  check (throw_if (not (has_statement || has_file)) evidence_missing)
  d ← query (find_dispute dispute_id)
  b ← query (find_booking d.booking_id)
  check (throw_if (not (is_party b user_id)) dispute_not_found)
  check (throw_if (is_resolved d.state) dispute_decided)
  transact env (evidence_tx d user_id)
  emit (dispute_evidence_notice d.booking_id)
