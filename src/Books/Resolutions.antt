-- ===== src/Books/Resolutions.antt =====
-- The rulings of escrowService.ts, its write-offs, and the requests of disputeService.ts keep the
-- books in agreement.
use o_artiste.Prelude.{
  ℕ, ℤ, ◌≤◌, ◌<◌, ◌≤ℤ◌, ◌+ℤ◌, -ℤ_parts, int_laws, sub_ℕ, pos_part, pos, negsuc, ◌≡◌, ◌+◌, ◌-◌, refl,
  Bool, true, Option, some, none, Bool-cases, inl, inr, arith, ltb, length, keep, ◌==◌,
}
use o_artiste.Schema.{open_state, under_review}
use o_artiste.Errors.{Result, ok, err, ok-injective}
use o_artiste.Fees.{apply_bps}
use o_artiste.Fees.Rounding.{apply_bps-le}
use o_artiste.Booking.{Booking}
use o_artiste.Store.{Db, Dispute}
use o_artiste.Request.{Env}
use o_artiste.Disputes.{dispute_eq, assert_dispute_transition}
use o_artiste.Disputes.Requests.{raise, submit_evidence, evidence_tx}
use o_artiste.Escrow.Records.{DisputeOutcome, for_artist, for_client, split_funds, SplitPlan}
use o_artiste.Escrow.Operations.{owes}
use o_artiste.Escrow.Rulings.{
  plan_split, plan_of, split_of, instruct_provider, pay_ruling, rule, resolve_dispute, write_off_tx,
  write_off_liabilities,
}
use o_artiste.Books.{IsSound}
use o_artiste.Books.Concluding.{Read}
use o_artiste.Books.Disputing.{resolve_tx-IsSound}
use o_artiste.Books.Holding.{open_dispute-IsSound}
use o_artiste.Books.Paying.{pay_out_if-Leads}
use o_artiste.Books.Logic.{
  Leads, quiet-Leads, chain-Leads, check-Leads, bind-Leads, transact-Leads, instruct-IsQuiet,
  instruct_if-IsQuiet, query-IsQuiet, emit-IsQuiet, still-Leads, done-Leads,
}
use o_artiste.Books.Requests.{the_books, after_commit, finished, with_row-Leads}

abbrev pub as_is : (db : Db) → IsSound db → IsSound db
as_is db sound = sound

-- A share that is missing or lies outside the amount.
abbrev pub IsOutside : ℕ → Option ℤ → Type 0
IsOutside amount none = Unit {0}
IsOutside amount (some (negsuc n)) = Unit {0}
IsOutside amount (some (pos n)) = amount < n

-- What a plan that is accepted says: the client's share is the one asked for, the artist's is the
-- rest, neither is below zero, and the artist's is divided into the commission and the net.
abbrev pub Divides : ℕ → Option ℤ → Result SplitPlan → Type 0
Divides amount share (err e) = IsOutside amount share
Divides amount share (ok plan) =
    (share ≡ some (pos plan.client_kobo))
    × ((m : ℕ) × (plan.artist_kobo ≡ pos m)
        × (plan.client_kobo + m ≡ amount)
        × (pos 0 ≤ℤ plan.commission_kobo)
        × (pos 0 ≤ℤ plan.artist_net)
        × (plan.commission_kobo +ℤ plan.artist_net ≡ pos m))

split_of-Divides :
    (b : Booking) (n : ℕ)
    → b.commission_rate_bps_snapshot ≤ 10_000
    → n ≤ b.amount_kobo
    → Divides b.amount_kobo (some (pos n)) (ok (split_of b n))
split_of-Divides b n bps le =
    let m = b.amount_kobo - n in
    let rest : sub_ℕ b.amount_kobo n ≡ pos m = ground (arith, le) in
    let share = apply_bps m b.commission_rate_bps_snapshot in
    let less = apply_bps-le m b.commission_rate_bps_snapshot bps in
    (
      refl,
      (
        m,
        rest,
        omega (arith, le),
        rw rest (omega arith),
        rw rest (omega (arith, -ℤ_parts (pos m) (pos share), less)),
        rw rest (omega int_laws),
      ),
    )

-- With a commission of at most the whole, a split is refused only where the client's share is missing
-- or lies outside 0 to the booking's amount; one that is accepted gives the client the share asked
-- for and the artist the rest, which falls into a commission and a net, none of them below zero.
pub plan_split-Divides :
    (b : Booking) (share : Option ℤ)
    → b.commission_rate_bps_snapshot ≤ 10_000
    → Divides b.amount_kobo share (plan_split b share)
unfolding plan_split
plan_split-Divides b none bps = tt
plan_split-Divides b (some (negsuc n)) bps = tt
plan_split-Divides b (some (pos n)) bps = elim (Bool-cases (ltb b.amount_kobo n)) [
  | inl e ↦ let outside : b.amount_kobo < n = ground (arith, e) in rw e outside
  | inr e ↦
      let inside : n ≤ b.amount_kobo = ground (arith, e) in rw e (split_of-Divides b n bps inside)
]

plan_split-exact :
    (b : Booking) (share : Option ℤ) (plan : SplitPlan)
    → plan_split b share ≡ ok plan
    → plan.client_kobo + pos_part plan.artist_kobo ≡ b.amount_kobo
unfolding plan_split
plan_split-exact b none plan h = absurd cc
plan_split-exact b (some (negsuc n)) plan h = absurd cc
plan_split-exact b (some (pos n)) plan h = elim (Bool-cases (ltb b.amount_kobo n)) [
  | inl e ↦ absurd (let impossible = rw e at h in cc)
  | inr e ↦
      let same : ok (split_of b n) ≡ ok plan = rw e at h in
      let within : n + pos_part (sub_ℕ b.amount_kobo n) ≡ b.amount_kobo = ground arith in
      rw (← ok-injective same) within
]

all_to_artist : (b : Booking) → 0 + pos_part (sub_ℕ b.amount_kobo 0) ≡ b.amount_kobo
all_to_artist b = ground arith

plan_of-exact :
    (b : Booking) (outcome : DisputeOutcome) (share : Option ℤ) (plan : SplitPlan)
    → plan_of b outcome share ≡ ok plan
    → plan.client_kobo + pos_part plan.artist_kobo ≡ b.amount_kobo
unfolding plan_of
plan_of-exact b for_artist share plan h = rw (← ok-injective h) (all_to_artist b)
plan_of-exact b for_client share plan h = rw (← ok-injective h) (all_to_artist b)
plan_of-exact b split_funds share plan h = plan_split-exact b share plan h

pub instruct_provider-Leads :
    (env : Env) (b : Booking) (outcome : DisputeOutcome) (plan : SplitPlan) (P : Db → Type 0)
    → Leads P (instruct_provider env b outcome plan) P
unfolding instruct_provider
instruct_provider-Leads env b for_artist plan P =
    quiet-Leads P P _ _ (λ db p. p) (instruct-IsQuiet env _) λ a. done-Leads P P _ (λ db p. p)
instruct_provider-Leads env b for_client plan P =
    quiet-Leads P P _ _ (λ db p. p) (instruct-IsQuiet env _) λ a. done-Leads P P _ (λ db p. p)
instruct_provider-Leads env b split_funds plan P =
    quiet-Leads P P _ _ (λ db p. p) (instruct_if-IsQuiet _ env _)
      λ a.
        quiet-Leads P P _ _ (λ db p. p) (instruct_if-IsQuiet _ env _)
          λ a. done-Leads P P _ (λ db p. p)

pay_ruling-Leads :
    (env : Env) (b : Booking) (outcome : DisputeOutcome) (plan : SplitPlan)
    → Leads IsSound (pay_ruling env b outcome plan) IsSound
unfolding pay_ruling
pay_ruling-Leads env b for_artist plan = pay_out_if-Leads true env b.id _ _
pay_ruling-Leads env b for_client plan = finished tt
pay_ruling-Leads env b split_funds plan = pay_out_if-Leads _ env b.id _ _

rule-Leads :
    (env : Env) (b : Booking) (d : Dispute) (actor : ℕ) (outcome : DisputeOutcome)
    (plan : SplitPlan)
    → plan.client_kobo + pos_part plan.artist_kobo ≡ b.amount_kobo
    → Leads (Read b) (rule env b d actor outcome plan) IsSound
unfolding rule
rule-Leads env b d actor outcome plan exact =
    chain-Leads (Read b) IsSound _ _ (the_books b)
      (instruct_provider-Leads env b outcome plan (Read b))
      λ moved.
        bind-Leads (Read b) IsSound _ _
          (transact-Leads (Read b) IsSound env _ (the_books b)
            (λ db v read h. resolve_tx-IsSound env.now b d actor outcome plan db read exact h))
          λ next.
            bind-Leads IsSound IsSound _ _ (pay_ruling-Leads env b outcome plan)
              λ a. after_commit _ _ λ a. after_commit _ _ λ a. finished _

pub resolve_dispute-Leads :
    (env : Env) (dispute_id : ℕ) (outcome : DisputeOutcome) (has_reason : Bool) (actor : ℕ)
    (share : Option ℤ)
    → Leads IsSound (resolve_dispute env dispute_id outcome has_reason actor share) IsSound
unfolding resolve_dispute
resolve_dispute-Leads env dispute_id outcome has_reason actor share =
    check-Leads IsSound IsSound _ _ as_is λ a _.
      quiet-Leads IsSound IsSound _ _ as_is (query-IsQuiet _) λ (d : Dispute).
        check-Leads IsSound IsSound _ _ as_is λ a _. with_row-Leads d.booking_id _ λ b.
          check-Leads (Read b) IsSound _ _ (the_books b) λ a _.
            check-Leads (Read b) IsSound _ _ (the_books b) λ a _.
              check-Leads (Read b) IsSound _ _ (the_books b) λ (plan : SplitPlan) planned.
                rule-Leads env b d actor outcome plan (plan_of-exact b outcome share plan planned)

write_off_tx-IsSound :
    (artist_user_id actor : ℕ) (db : Db) {r : (ℕ × ℕ) × Db}
    → IsSound db
    → write_off_tx artist_user_id actor db ≡ ok r
    → IsSound r.1
unfolding write_off_tx
write_off_tx-IsSound artist_user_id actor db {r} sound h =
    elim (Bool-cases (length (keep (owes artist_user_id) db.liabilities) == 0)) [
      | inl e ↦ let same : ok ((0, 0), db) ≡ ok r = rw e at h in rw (← ok-injective same) sound
      | inr e ↦ let same = rw e at h in rw (← ok-injective same) sound
    ]

pub write_off_liabilities-Leads :
    (env : Env) (artist_user_id : ℕ) (has_reason : Bool) (actor : ℕ)
    → Leads IsSound (write_off_liabilities env artist_user_id has_reason actor) IsSound
unfolding write_off_liabilities
write_off_liabilities-Leads env artist_user_id has_reason actor =
    check-Leads IsSound IsSound _ _ as_is λ a _.
      transact-Leads IsSound IsSound env _ as_is
        (λ db v sound h. write_off_tx-IsSound artist_user_id actor db sound h)

pub raise-Leads :
    (env : Env) (booking_id user_id : ℕ) (has_reason : Bool)
    → Leads IsSound (raise env booking_id user_id has_reason) IsSound
unfolding raise
raise-Leads env booking_id user_id has_reason = with_row-Leads booking_id _ λ b.
    check-Leads (Read b) IsSound _ _ (the_books b) λ a _.
      check-Leads (Read b) IsSound _ _ (the_books b) λ a _.
        check-Leads (Read b) IsSound _ _ (the_books b) λ a _.
          bind-Leads (Read b) IsSound _ _
            (transact-Leads (Read b) IsSound env _ (the_books b)
              (λ db v read h. open_dispute-IsSound booking_id user_id has_reason db read.0 h))
            λ (d : Dispute). after_commit _ _ λ a. after_commit _ _ λ a. finished _

evidence_tx-IsSound :
    (d : Dispute) (user_id : ℕ) (db : Db) {r : Unit × Db}
    → IsSound db
    → evidence_tx d user_id db ≡ ok r
    → IsSound r.1
unfolding evidence_tx
evidence_tx-IsSound d user_id db {r} sound h = elim (Bool-cases (dispute_eq d.state open_state)) [
  | inr e ↦ let same = rw (evidence_tx, e) at h in rw (← ok-injective same) sound
  | inl e ↦
      elim (assert_dispute_transition d.state under_review)
          as (λ x. assert_dispute_transition d.state under_review ≡ x → IsSound r.1) [
            | err f ↦ λ g. absurd (let impossible = rw (evidence_tx, e, g) at h in cc)
            | ok u ↦ λ g. let same = rw (evidence_tx, e, g) at h in rw (← ok-injective same) sound
          ]
        refl
]

pub submit_evidence-Leads :
    (env : Env) (dispute_id user_id : ℕ) (has_statement has_file : Bool)
    → Leads IsSound (submit_evidence env dispute_id user_id has_statement has_file) IsSound
unfolding submit_evidence
submit_evidence-Leads env dispute_id user_id has_statement has_file =
    check-Leads IsSound IsSound _ _ as_is λ a _.
      quiet-Leads IsSound IsSound _ _ as_is (query-IsQuiet _) λ (d : Dispute).
        quiet-Leads IsSound IsSound _ _ as_is (query-IsQuiet _) λ (b : Booking).
          check-Leads IsSound IsSound _ _ as_is λ a _. check-Leads IsSound IsSound _ _ as_is λ a _.
            bind-Leads IsSound IsSound _ _
              (transact-Leads IsSound IsSound env _ as_is
                (λ db v sound h. evidence_tx-IsSound d user_id db sound h))
              λ u. still-Leads IsSound _ (emit-IsQuiet _)
