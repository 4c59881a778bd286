-- ===== src/Scenarios.antt =====
-- A booking's database, requests on it, and inputs on which the theorems about them are applied.
use o_artiste.Prelude.{
  ◌⊎◌, ℕ, pos, neg, ◌≡◌, ◌≤ℤ◌, ◌≤◌, ◌↔◌, ◌-◌, refl, Bool, true, false, Option, none, some, List, [],
  ◌∷◌, arith, max, Bool-cases, inl, inr, keep, ◌==◌, ==_iff,
}
use o_artiste.Schema.{
  pending_payment, funded_held, good, verified, StrikeTrigger, client_cancel_day_of, outstanding,
}
use o_artiste.Errors.{ok}
use o_artiste.Fees.{compute_completion, money_in_fee}
use o_artiste.Booking.{Booking, assert_transition, can_transition}
use o_artiste.Ledger.{reconcile, record_funding, append_all, record_entry, funding_legs}
use o_artiste.Store.{
  Db, User, Artist, Strike, StrikeRule, FeeLiability, put, client_ladder, transition, find_booking,
  on_ledger, amend,
}
use o_artiste.Request.{World, Env, ◌>>=◌, query, check, done, transact}
use o_artiste.Enforcement.{
  default_ladders, rung_for, apply_standing, active_weight, resolve_ladders, severity,
}
use o_artiste.Enforcement.Ladders.{
  harshness, reached, rung_for_mono, Escalates, apply_standing-Escalates,
}
use o_artiste.Strikes.{
  default_rules, validate_rules, validate_from, validate_rule, trigger_for_dispute, dispute_trigger,
}
use o_artiste.Strikes.Rules.{prices, validate_rules-prices}
use o_artiste.Escrow.Operations.{select_settleable, owes}
use o_artiste.Escrow.Rulings.{owed, plan_split}
use o_artiste.Books.Resolutions.{plan_split-Divides, Divides}
use o_artiste.Escrow.Liabilities.{select_settleable_fits}
use o_artiste.Confirmation.{Facts, evaluate, release_funds, refund_funds, awaiting_auto_release}
use o_artiste.Confirmation.Matrix.{evaluate_matrix}
use o_artiste.AutoRelease.{run_job, schedule}
use o_artiste.AutoRelease.Silence.{IsDue, run_job_needs_silence}
use o_artiste.CheckIn.{codes_match, format_code, normalise_code, issue_for_booking, window_for}
use o_artiste.CheckIn.Codes.{AreCodeChars, codes_match-format_code}
use o_artiste.Webhooks.{fund_tx}
use o_artiste.Webhooks.Handlers.{handle_transaction_funded, fund_now}
use o_artiste.Books.{IsSound, position}
use o_artiste.Books.Transactions.{some-injective}
use o_artiste.Books.Reachable.{funded_event, answer, Reaches, stay, step, Reaches-position}
use o_artiste.Examples.{booking}

abbrev pub unpaid : Booking
unpaid = record booking { state = pending_payment; check_in = none }

abbrev pub held : Booking
held = record booking { state = funded_held; check_in = none }

abbrev liability : ℕ → ℕ → FeeLiability
liability id amount_kobo = record {
  id = id;
  artist_user_id = 2;
  origin_booking_id = 5;
  amount_kobo = amount_kobo;
  status = outstanding;
  settled_against = none;
}

abbrev strike : Strike
strike = record {
  id = 0;
  user_id = 1;
  trigger = client_cancel_day_of;
  weight = 3;
  booking_id = none;
  active = true;
}

abbrev pub user : User
user = record {
  id = 1;
  is_artist = false;
  account_standing = good;
  restricted_min_lead_days = none;
  has_client = true;
  verification_status = verified;
  escrow_party_id = some 10;
}

abbrev nobody : ℕ → Option Booking
nobody k = none

abbrev no_user : ℕ → Option User
no_user k = none

abbrev no_artist : ℕ → Option Artist
no_artist k = none

abbrev pub db_of : Booking → Db
db_of b = record {
  bookings = put 7 b nobody;
  booking_ids = 7 ∷ [];
  ledger = [];
  liabilities = liability 0 150_000 ∷ liability 1 400_000 ∷ liability 2 60_000 ∷ [];
  cancellations = [];
  disputes = [];
  evidence = [];
  strikes = strike ∷ [];
  users = put 1 user no_user;
  strike_rules = [];
  enforcement_rules = [];
  artists = no_artist;
  commission_rates = [];
  tier_rows = [];
  reputation_configs = [];
  webhook_events = [];
  passages = [];
  audits = [];
}

abbrev pub world_of : Booking → World
world_of b = record { db = db_of b; instructed = []; effects = [] }

-- Every call of the provider succeeds and every transaction commits.
abbrev pub fair : ℕ → Env
fair now = record {
  now = now;
  accepts = λ i. true;
  commits = λ db. true;
  wallet = some 1;
  payout_given = some 44;
}

-- Eight characters.
abbrev pub code : List ℕ
code = 75 ∷ 55 ∷ 81 ∷ 88 ∷ 77 ∷ 50 ∷ 70 ∷ 57 ∷ []

select_settleable_fits_example :
    let (chosen, total) = select_settleable 2 (pos 300_000) (db_of unpaid) in
    let all = keep (owes 2) (db_of unpaid).liabilities in
    (total ≡ owed chosen)
    × (pos total ≤ℤ pos 300_000)
    × (pos (owed all) ≤ℤ pos 300_000 → (chosen ≡ all) × (total ≡ owed all))
select_settleable_fits_example = select_settleable_fits 2 (pos 300_000) (db_of unpaid) (omega arith)

abbrev silent : Facts
silent = record {
  client_confirmed = false;
  client_claimed_no_show = false;
  artist_confirmed = true;
  has_check_in = true;
}

evaluate_matrix_example :
    ((evaluate silent ≡ release_funds)
      ↔ ((silent.client_confirmed ≡ true) × (silent.client_claimed_no_show ≡ false)))
    × ((evaluate silent ≡ refund_funds) ↔ (
        (silent.client_confirmed ≡ false)
        × (silent.client_claimed_no_show ≡ true)
        × (silent.has_check_in ≡ false)))
    × ((evaluate silent ≡ awaiting_auto_release) ↔ (
        (silent.client_confirmed ≡ false)
        × (silent.client_claimed_no_show ≡ false)
        × (silent.has_check_in ≡ true)))
evaluate_matrix_example = evaluate_matrix silent

code_chars : AreCodeChars code
code_chars = (refl, (refl, (refl, (refl, (refl, (refl, (refl, (refl, tt))))))))

codes_match-format_code_example :
    (codes_match code (format_code code) ≡ true) × (normalise_code (format_code code) ≡ code)
codes_match-format_code_example = codes_match-format_code code code_chars

defaults_accepted : validate_rules default_rules ≡ ok tt
unfolding validate_rules validate_from validate_rule
defaults_accepted = refl

validate_rules-prices_example :
    ((t : StrikeTrigger) → prices t default_rules ≡ 1)
    × ((false_claim : Bool)
        → (r : StrikeRule) × (trigger_for_dispute default_rules false_claim ≡ some r)
          × (r.trigger ≡ dispute_trigger false_claim)
          × (1 ≤ r.weight))
validate_rules-prices_example = validate_rules-prices default_rules defaults_accepted

rung_for_mono_example :
    (harshness (rung_for default_ladders client_ladder 1) ≡ reached client_ladder 1 default_ladders)
    × (harshness (rung_for default_ladders client_ladder 1)
        ≤ harshness (rung_for default_ladders client_ladder 5))
rung_for_mono_example = rung_for_mono default_ladders client_ladder 1 5 (omega arith)

unpaid-IsSound : IsSound (db_of unpaid)
unfolding reconcile
unpaid-IsSound k b h = elim (Bool-cases (k == 7)) [
  | inl e ↦
      let hit : some unpaid ≡ some b = rw e at h in
      let same : unpaid ≡ b = some-injective hit in
      rw ((==_iff k 7).0 e, ← same)
        (refl, (omega arith, (refl, (refl, (refl, tt))), λ p. refl), refl)
  | inr e ↦ absurd (let impossible : none ≡ some b = rw e at h in cc)
]

abbrev paid : World
paid = answer (fair 0) (funded_event code 20_000_000 true 48 70) (world_of unpaid)

funding : Reaches (world_of unpaid) paid
funding = step (fair 0) (funded_event code 20_000_000 true 48 70) stay

abbrev paid_booking : Booking
paid_booking = record unpaid {
  state = funded_held;
  check_in_code = some code;
  check_in_code_valid_from = some (1_900_000_000_000 - 7_200_000);
  check_in_code_valid_to = some 1_900_054_000_000;
  auto_release_at = some 1_900_183_600_000;
}

paid_row : paid.db.bookings 7 ≡ some paid_booking
unfolding handle_transaction_funded fund_now fund_tx query check done transact ◌>>=◌ transition
    find_booking on_ledger amend assert_transition can_transition record_funding append_all
    record_entry funding_legs issue_for_booking window_for schedule neg compute_completion
    money_in_fee
paid_row = refl

Reaches-position_example :
    (reconcile 7 paid.db.ledger).sum_kobo ≡ position paid_booking.state paid_booking.amount_kobo
Reaches-position_example =
    Reaches-position (world_of unpaid) paid unpaid-IsSound funding 7 paid_booking paid_row

apply_standing-Escalates_example :
    let after = (apply_standing 1 client_ladder 0 (db_of unpaid)).1 in
    Escalates 1
      (max
        (severity good)
        (reached client_ladder (active_weight 1 (db_of unpaid)) (resolve_ladders 0 (db_of unpaid))))
      (db_of unpaid).users
      after.users
    × (after.strikes ≡ (db_of unpaid).strikes)
apply_standing-Escalates_example =
    apply_standing-Escalates 1 client_ladder 0 (db_of unpaid) user refl

run_job_needs_silence_example :
    ((run_job (fair 1_900_300_000_000) 48 7 (world_of booking)).1 ≡ world_of booking)
    ⊎ ((b : Booking) × ((world_of booking).db.bookings 7 ≡ some b)
        × IsDue 1_900_300_000_000 48 (world_of booking).db.disputes b)
run_job_needs_silence_example =
    run_job_needs_silence (fair 1_900_300_000_000) 48 7 (world_of booking)

plan_split-Divides_example :
    Divides booking.amount_kobo (some (pos 5_000_000)) (plan_split booking (some (pos 5_000_000)))
plan_split-Divides_example = plan_split-Divides booking (some (pos 5_000_000)) (omega arith)
