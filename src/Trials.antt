-- ===== src/Trials.antt =====
-- More inputs on which the theorems about requests are applied: a creation, the publication of
-- terms, deliveries of events, payouts, listings and reversals.
use o_artiste.Prelude.{
  ℕ, ℤ, pos, neg, ◌+ℤ◌, ◌+◌, ◌≡◌, refl, true, false, Option, none, some, List, [], ◌∷◌, ◌++◌, keep,
  find, length, arith, All, inl, inr, map, sort_by,
}
use o_artiste.Schema.{
  restricted, client, platform, refunded_entry, commission, transaction_funded, StrikeTrigger,
  trigger_code,
}
use o_artiste.Errors.{ok}
use o_artiste.Tiers.{
  Tier, whole, resolve_tier, covers, validate_tier_set, validate_rows, validate_row, tier_of,
  check_sorted, sort_from, insert_tier, check_neighbours, days_before_event, lagos_day,
}
use o_artiste.Fees.{compute_completion, money_in_fee}
use o_artiste.CheckIn.{issue_for_booking, window_for}
use o_artiste.AutoRelease.{schedule}
use o_artiste.Webhooks.Handlers.{handle_transaction_funded, fund_now}
use o_artiste.Booking.{Booking, can_transition, assert_transition}
use o_artiste.Ledger.{
  Ledger, LedgerEntry, transaction, reverse_entries, reconcile, is_original, of_booking,
  record_funding, append_all, funding_legs, record_entry,
}
use o_artiste.Ledger.Append.{total, of, of_party}
use o_artiste.Ledger.Corrections.{corrections}
use o_artiste.Ledger.Reversal.{reverse_entries_reverses}
use o_artiste.Store.{
  client_ladder, EnforcementRule, transition, on_ledger, User, Artist, Payload, transaction_object,
  put, find_booking, amend,
}
use o_artiste.Request.{World, ◌>>=◌, query, rescue, check, instruct, transact, emit, done}
use o_artiste.Versions.{
  missing, date, set_commission_rate, resolve_commission_rate, set_cancellation_tiers,
  resolve_tier_set, tier_row, effective_from, current_version_id,
}
use o_artiste.Versions.History.{set_commission_rate_keeps_history}
use o_artiste.Strikes.{default_rules, resolve_rules, validate_rules, validate_from, validate_rule}
use o_artiste.Strikes.Rules.{prices}
use o_artiste.Enforcement.{
  assert_within_lead_time, RungInput, resolve_ladders, validate_ladders, validate_rung,
}
use o_artiste.Versions.Rules.{
  published_rule, set_strike_rules, published_rung, published_rungs, ladders_tx,
  set_enforcement_ladders,
}
use o_artiste.Versions.Published.{
  set_strike_rules_takes_effect, set_enforcement_ladders_takes_effect, IsRung,
}
use o_artiste.Versions.Terms.{
  set_cancellation_tiers_keeps_history, set_cancellation_tiers_takes_effect,
}
use o_artiste.Creation.{
  NewBooking, create_booking, new_booking, as_client, validate_amount, validate_event_window,
  assert_can_transact, check_terms, insert_tx,
}
use o_artiste.Creation.Sound.{Begins, create_booking-IsBegun}
use o_artiste.Escrow.Records.{for_artist}
use o_artiste.Escrow.Operations.{ReleaseSummary, release_booking, refund_booking, cancel_by_client}
use o_artiste.Escrow.Rulings.{resolve_dispute, write_off_liabilities}
use o_artiste.Escrow.Reclassify.{reclassify_as_artist_fault}
use o_artiste.Escrow.Reclassification.{reversed_types}
use o_artiste.Escrow.Failures.{Released, CancelledByClient, Ruled, operations-Throws}
use o_artiste.Request.Atomic.{Throws, IsAtomic}
use o_artiste.Escrow.Progress.{Releases, release_booking_goes_through}
use o_artiste.Payouts.{already_paid, pay_out_booking}
use o_artiste.Payouts.Outcomes.{pay_out_booking_once}
use o_artiste.Reputation.{all_bookings, percent, scale, of_artist, rate_for, rates_for_artists}
use o_artiste.Reputation.Listing.{is_for, rates_for_artists-rate_for}
use o_artiste.MyBookings.{list_my_bookings, row_of, is_own}
use o_artiste.MyBookings.Offers.{InOrder}
use o_artiste.MyBookings.Listing.{
  IsOwnRow, Among, list_my_bookings-InOrder, list_my_bookings_complete,
}
use o_artiste.Webhooks.{funded, fund_tx}
use o_artiste.Webhooks.Intake.{
  Inputs, handled, receive, claim_and_run, claim, run_handler, handler_for, attempt, record_attempt,
}
use o_artiste.Webhooks.Once.{Delivery, deliver, receive_once}
use o_artiste.Examples.{booking, week, late, day_of, inputs}
use o_artiste.Scenarios.{unpaid, held, user, db_of, world_of, fair, code}

abbrev artist_user : User
artist_user = record user {
  id = 2;
  is_artist = true;
  has_client = false;
  escrow_party_id = some 20;
}

abbrev users : ℕ → Option User
users = put 1 user (put 2 artist_user (λ k. none))

abbrev stage : Artist
stage = record {
  user_id = 2;
  profile_complete = true;
  payout_account_id = some 33;
  payout_account_last4 = none;
}

abbrev bands : List Tier
bands = day_of ∷ late ∷ week ∷ []

abbrev market : Booking → World
market b = record (world_of b) {
  db = record (db_of b) {
    users = users;
    artists = put 2 stage (λ k. none);
    tier_rows = tier_row 1 0 week ∷ tier_row 1 0 late ∷ tier_row 1 0 day_of ∷ [];
  };
}

abbrev asked : NewBooking
asked = record {
  client_user_id = 1;
  artist_id = 2;
  amount_kobo = whole (pos 20_000_000);
  event_date = date 1_900_000_000_000;
  event_end_at = missing;
}

abbrev begun : Booking
begun =
    new_booking 9 900 user artist_user 20_000_000 (1_900_000_000_000, 1_900_010_800_000) 500 bands

set_commission_rate_keeps_history_example :
    resolve_commission_rate 5
      (set_commission_rate (fair 2_000) (whole (pos 700)) missing 3 (market booking)).1.db
    ≡ resolve_commission_rate 5 (market booking).db
set_commission_rate_keeps_history_example =
    set_commission_rate_keeps_history (fair 2_000) (whole (pos 700)) missing 3 (market booking) 5
      (omega arith)

set_cancellation_tiers_keeps_history_example :
    resolve_tier_set 5
      (set_cancellation_tiers (fair 2_000) 2 inputs missing 3 (market booking)).1.db
    ≡ resolve_tier_set 5 (market booking).db
set_cancellation_tiers_keeps_history_example =
    set_cancellation_tiers_keeps_history (fair 2_000) 2 inputs missing 3 (market booking) 5
      (refl, (refl, (refl, tt))) (omega arith)

rates_for_artists-rate_for_example :
    find (is_for 2) (rates_for_artists (λ months at. 0) (2 ∷ []) 5 (db_of booking))
    ≡ some (2, (rate_for (λ months at. 0) 2 of_artist 5 (db_of booking)).rate)
rates_for_artists-rate_for_example =
    rates_for_artists-rate_for (λ months at. 0) (2 ∷ []) 5 (db_of booking) 2 refl

pay_out_booking_once_example :
    let v =
      (pay_out_booking (fair 5) (some 1) (some 44) 7 (pos 17_000_000) none (market booking)).1 in
    pay_out_booking (fair 6) none none 7 (pos 1) none v ≡ (ok (already_paid 44), v)
unfolding pay_out_booking ◌>>=◌ query find_booking rescue check instruct transact amend emit done
pay_out_booking_once_example =
    pay_out_booking_once (fair 5) (fair 6) (some 1) none 44 none 7 (pos 17_000_000) (pos 1) none
      none (market booking) {b = booking} refl refl refl

abbrev entry : ℕ → ℤ → LedgerEntry
entry id amount = record {
  id = id;
  booking_id = 7;
  entry_type = refunded_entry;
  party = client;
  amount_kobo = amount;
  offsets_entry_id = none;
}

abbrev two_rows : Ledger
two_rows =
    entry 0 (pos 70) ∷ record (entry 1 (pos 30)) { entry_type = commission; party = platform } ∷ []

reverse_entries_reverses_example :
    let es = keep (is_original 7 reversed_types) two_rows in
    let written = corrections (length two_rows) es in
    (reverse_entries transaction 7 reversed_types true two_rows ≡ ok (written, two_rows ++ written))
    × ((reconcile 7 (two_rows ++ written)).sum_kobo
        ≡ (reconcile 7 two_rows).sum_kobo +ℤ neg (total (of_booking 7) es))
    × (of client (reconcile 7 (two_rows ++ written)).by_party
        ≡ of client (reconcile 7 two_rows).by_party +ℤ neg (total (of_party 7 client) es))
    × (reverse_entries transaction 7 reversed_types true (two_rows ++ written)
        ≡ ok ([], two_rows ++ written))
reverse_entries_reverses_example =
    reverse_entries_reverses 7 reversed_types two_rows client ((refl, refl, (refl, refl, tt))) refl
      (refl, (refl, tt))

set_cancellation_tiers_takes_effect_example :
    (resolve_tier_set 6_000
        (set_cancellation_tiers (fair 2_000) 2 inputs missing 3 (market booking)).1.db
      ≡ ok (2, bands))
    × ((d : ℕ)
        → (u : Tier) × (resolve_tier bands (pos d) ≡ ok u)
          × (covers d u ≡ true)
          × (u.client_bps + u.artist_bps ≡ 10_000))
unfolding effective_from set_cancellation_tiers ◌>>=◌ check transact validate_tier_set validate_rows
    validate_row tier_of check_sorted sort_from insert_tier check_neighbours
set_cancellation_tiers_takes_effect_example =
    set_cancellation_tiers_takes_effect (fair 2_000) 2 inputs missing 3 (market booking)
      {from = 2_000} 6_000 (refl, (refl, (refl, tt)))
      (omega arith, (omega arith, (omega arith, tt))) refl (omega arith) refl

create_booking-IsBegun_example :
    Begins 5 9 (market booking) begun (create_booking (fair 5) 9 900 asked (market booking)).1
unfolding create_booking ◌>>=◌ check validate_amount validate_event_window query assert_can_transact
    assert_within_lead_time resolve_tier_set check_terms insert_tx transact days_before_event
    lagos_day current_version_id resolve_commission_rate validate_tier_set validate_rows
    validate_row tier_of check_sorted sort_from insert_tier check_neighbours
create_booking-IsBegun_example = create_booking-IsBegun (fair 5) 9 900 asked (market booking) refl

abbrev arrived : Payload
arrived = record {
  id = some 81;
  event_type = transaction_funded;
  object = transaction_object;
  object_id = some 70;
  transaction_id = none;
}

abbrev given : Inputs
given = record {
  code = code;
  funded_minor = 20_000_000;
  queue_up = true;
  grace_hours = 48;
  own_transaction = none;
}

-- The same event from another delivery, and a body that nobody signed.
abbrev again : List Delivery
again =
    record { env = fair 9; inputs = given; signed = true; payload = arrived; header = some 81 }
    ∷ record { env = fair 9; inputs = given; signed = false; payload = arrived; header = some 82 }
    ∷ []

receive_once_example :
    let v = (receive (fair 5) given true (some arrived) (some 81) (world_of unpaid)).1 in
    deliver again v ≡ v
unfolding receive claim_and_run claim run_handler handler_for attempt record_attempt ◌>>=◌ transact
    rescue handle_transaction_funded fund_now fund_tx query check transition assert_transition
    can_transition on_ledger record_funding neg compute_completion money_in_fee issue_for_booking
    amend schedule window_for append_all funding_legs record_entry done emit find_booking
receive_once_example =
    receive_once (fair 5) given arrived (some 81) 81 (world_of unpaid) again {o = handled funded}
      refl refl (inr refl, (inl refl, tt))

set_strike_rules_takes_effect_example :
    (resolve_rules 6_000
        (set_strike_rules (fair 2_000) 4 default_rules 2_000 3 (world_of held)).1.db
      ≡ sort_by (λ r. trigger_code r.trigger) (map (published_rule 4 2_000) default_rules))
    × ((s : StrikeTrigger)
        → prices s
            (sort_by (λ r. trigger_code r.trigger) (map (published_rule 4 2_000) default_rules))
          ≡ 1)
unfolding set_strike_rules ◌>>=◌ check transact validate_rules validate_from validate_rule
set_strike_rules_takes_effect_example =
    set_strike_rules_takes_effect (fair 2_000) 4 default_rules 2_000 3 (world_of held) 6_000 tt tt
      (omega arith) refl

abbrev rung_inputs : List RungInput
rung_inputs =
    record {
      party = some client_ladder;
      min_weight = whole (pos 3);
      standing = restricted;
      min_lead_days = whole (pos 14);
    }
    ∷ []

abbrev rung_rows : List EnforcementRule
rung_rows =
    record {
      version_id = 4;
      effective_from = 2_000;
      party = client_ladder;
      min_weight = 3;
      standing = restricted;
      min_lead_days = some (pos 14);
    }
    ∷ []

set_enforcement_ladders_takes_effect_example :
    let after = set_enforcement_ladders (fair 2_000) 4 rung_inputs 2_000 3 (world_of held) in
    (resolve_ladders 6_000 after.1.db ≡ rung_rows) × All IsRung rung_rows
unfolding set_enforcement_ladders ◌>>=◌ check transact validate_ladders validate_rung ladders_tx
    published_rungs published_rung
set_enforcement_ladders_takes_effect_example =
    set_enforcement_ladders_takes_effect (fair 2_000) 4 rung_inputs 2_000 3 (world_of held) 6_000 tt
      tt (omega arith) refl

operations-Throws_example :
    Throws (Released 7) (release_booking (fair 5) 7)
    × Throws (CancelledByClient 5 7) (cancel_by_client (fair 5) 7 1)
    × Throws (Ruled 5 7 for_artist 3 none) (resolve_dispute (fair 5) 7 for_artist true 3 none)
    × IsAtomic (refund_booking (fair 5) 7 (λ b db. db))
    × IsAtomic (write_off_liabilities (fair 5) 1 true 3)
    × IsAtomic (reclassify_as_artist_fault (fair 5) 7 3 true)
operations-Throws_example = operations-Throws (fair 5) 7 1 3 true for_artist none (λ b db. db)

release_booking_goes_through_example :
    (s : ReleaseSummary) × (v : World) × (release_booking (fair 5) 7 (market booking) ≡ (ok s, v))
    × Releases (fair 5) booking (market booking) s v
unfolding can_transition
release_booking_goes_through_example =
    release_booking_goes_through (fair 5) 7 (market booking) {b = booking} refl refl refl refl refl
      (λ i. refl) (λ db. refl)

list_my_bookings-InOrder_example :
    InOrder (list_my_bookings 1 as_client 5 (db_of booking))
    × All (IsOwnRow 1 as_client 5) (list_my_bookings 1 as_client 5 (db_of booking))
list_my_bookings-InOrder_example = list_my_bookings-InOrder 1 as_client 5 (db_of booking)

list_my_bookings_complete_example :
    Among (row_of as_client 5 booking) (list_my_bookings 1 as_client 5 (db_of booking))
    × (length (list_my_bookings 1 as_client 5 (db_of booking))
        ≡ length
            (keep (is_own 1 as_client) (all_bookings (db_of booking).booking_ids (db_of booking))))
list_my_bookings_complete_example =
    list_my_bookings_complete 1 as_client 5 (db_of booking) 7 booking (inl refl) refl refl
      (omega arith)

-- A quotient that a double cannot hold: 57.49… where the exact value is 57.5.
percent_of_doubles : percent 23 40 ≡ 57
unfolding percent scale
percent_of_doubles = refl
