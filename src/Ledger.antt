-- ===== src/Ledger.antt =====
-- apps/backend/src/services/ledgerService.ts: the append-only ledger. The table is the list of its
-- rows, oldest first; the database numbers a row by its place. Texts of descriptions are left out.
pub mod Append
pub mod Balance
pub mod Settled
pub mod Corrections
pub mod Originals
pub mod Reversal
use o_artiste.Prelude.{
  ℕ, ℤ, pos, neg, ◌+ℤ◌, eqb_ℤ, ltb, ltb_ℤ, sub_ℕ, ◌+◌, suc, ◌==◌, if◌then◌else◌, Bool, true, false,
  not, ◌&&◌, ◌||◌, Option, none, some, is_some, List, [], ◌∷◌, ◌++◌, keep, find, length,
}
use o_artiste.Schema.{
  Party, client, artist, platform, provider, EntryType, funded, released_entry, refunded_entry,
  commission, escrow_fee_in, escrow_fee_out, artist_compensation, fee_liability_accrued,
  fee_liability_settled, correction, entry_eq,
}
use o_artiste.Errors.{
  Result, ok, err, ◌>>=◌, ◌>>◌, throw_if, not_a_transaction, zero_entry, split_not_exact,
  correction_without_reason, entry_missing, correction_of_correction, already_corrected, unbalanced,
}
use o_artiste.Fees.{
  CompletionBreakdown, ClientCancellation, compute_completion, compute_client_cancellation,
  compute_artist_cancellation, apply_bps, money_out_fee, refund_incurs_money_out_default,
}
use o_artiste.Tiers.{Tier}
use o_artiste.Booking.{Booking}

pub record LedgerEntry : Type 0 where
  pub id : ℕ
  pub booking_id : ℕ
  pub entry_type : EntryType
  pub party : Party
  pub amount_kobo : ℤ
  pub offsets_entry_id : Option ℕ

-- `LedgerLeg`
pub record Leg : Type 0 where
  pub entry_type : EntryType
  pub party : Party
  pub amount_kobo : ℤ

-- Which Prisma client a write is given: the base client, or that of a transaction.
pub data Client : Type 0 where
  base transaction : Client

abbrev pub Ledger : Type 0
Ledger = List LedgerEntry

-- `assertTransactionClient`
abbrev assert_transaction_client : Client → Result (Unit {0})
assert_transaction_client base = err not_a_transaction
assert_transaction_client transaction = ok tt

unfoldable pub record_entry : Client → ℕ → Leg → Option ℕ → Ledger → Result (LedgerEntry × Ledger)
record_entry tx booking_id leg offsets l = do
  assert_transaction_client tx
  throw_if (eqb_ℤ leg.amount_kobo (pos 0)) zero_entry
  let entry : LedgerEntry = record {
    id = length l;
    booking_id = booking_id;
    entry_type = leg.entry_type;
    party = leg.party;
    amount_kobo = leg.amount_kobo;
    offsets_entry_id = offsets;
  }
  ok (entry, l ++ entry ∷ [])

unfoldable pub append_all : Client → ℕ → List Leg → Ledger → Result (List LedgerEntry × Ledger)
unfolding record_entry
append_all tx booking_id [] l = ok ([], l)
append_all tx booking_id (leg ∷ legs) l = elim (eqb_ℤ leg.amount_kobo (pos 0)) [
  | true ↦ append_all tx booking_id legs l
  | false ↦ record_entry tx booking_id leg none l >>= λ w.
      append_all tx booking_id legs w.1 >>= λ ws. ok (w.0 ∷ ws.0, ws.1)
]

-- `completionFor`
abbrev pub completion_for : Booking → CompletionBreakdown
completion_for b = compute_completion b.amount_kobo b.commission_rate_bps_snapshot

unfoldable pub funding_legs : Booking → List Leg
funding_legs b =
    let c = completion_for b in
    record { entry_type = funded; party = client; amount_kobo = neg (pos c.client_pays) }
    ∷ record { entry_type = escrow_fee_in; party = provider; amount_kobo = pos c.money_in }
    ∷ []

unfoldable pub record_funding : Client → Booking → Ledger → Result (List LedgerEntry × Ledger)
unfolding append_all funding_legs
record_funding tx b = append_all tx b.id (funding_legs b)

unfoldable pub release_legs : Booking → List Leg
release_legs b =
    let c = completion_for b in
    record { entry_type = commission; party = platform; amount_kobo = pos c.commission_kobo }
    ∷ record { entry_type = escrow_fee_out; party = platform; amount_kobo = neg (pos c.money_out) }
    ∷ record { entry_type = escrow_fee_out; party = provider; amount_kobo = pos c.money_out }
    ∷ record { entry_type = released_entry; party = artist; amount_kobo = c.artist_net }
    ∷ []

unfoldable pub record_release : Client → Booking → Ledger → Result (List LedgerEntry × Ledger)
unfolding append_all release_legs
record_release tx b = append_all tx b.id (release_legs b)

unfoldable pub client_legs : ClientCancellation → List Leg
client_legs c =
    record { entry_type = refunded_entry; party = client; amount_kobo = pos c.client_refund }
    ∷ record {
      entry_type = artist_compensation;
      party = artist;
      amount_kobo = c.artist_compensation;
    }
    ∷ record { entry_type = commission; party = platform; amount_kobo = pos c.commission_kobo }
    ∷ record { entry_type = escrow_fee_out; party = platform; amount_kobo = neg (pos c.money_out) }
    ∷ record { entry_type = escrow_fee_out; party = provider; amount_kobo = pos c.money_out }
    ∷ []

-- `computeClientCancellation` on the snapshot of a booking and a tier
unfoldable pub client_breakdown : Booking → Tier → Result ClientCancellation
client_breakdown b tier =
    compute_client_cancellation b.amount_kobo b.commission_rate_bps_snapshot tier.client_bps
      tier.artist_bps refund_incurs_money_out_default

unfoldable pub record_client_cancellation :
    Client → Booking → Tier → Ledger → Result (List LedgerEntry × Ledger)
unfolding append_all client_legs client_breakdown
record_client_cancellation tx b tier l =
    client_breakdown b tier >>= λ c. append_all tx b.id (client_legs c) l

unfoldable pub artist_cancellation_legs : Booking → List Leg
artist_cancellation_legs b =
    let c = compute_artist_cancellation b.amount_kobo refund_incurs_money_out_default in
    record { entry_type = refunded_entry; party = client; amount_kobo = pos c.client_refund }
    ∷ record {
      entry_type = escrow_fee_in;
      party = client;
      amount_kobo = pos c.client_fee_reimbursement;
    }
    ∷ record {
      entry_type = escrow_fee_in;
      party = platform;
      amount_kobo = neg (pos c.client_fee_reimbursement);
    }
    ∷ record { entry_type = escrow_fee_out; party = platform; amount_kobo = neg (pos c.money_out) }
    ∷ record { entry_type = escrow_fee_out; party = provider; amount_kobo = pos c.money_out }
    ∷ record {
      entry_type = fee_liability_accrued;
      party = artist;
      amount_kobo = neg (pos c.fee_liability);
    }
    ∷ record {
      entry_type = fee_liability_accrued;
      party = platform;
      amount_kobo = pos c.fee_liability;
    }
    ∷ []

unfoldable pub record_artist_cancellation :
    Client → Booking → Ledger → Result (List LedgerEntry × Ledger)
unfolding append_all artist_cancellation_legs
record_artist_cancellation tx b = append_all tx b.id (artist_cancellation_legs b)

-- `entries.push(…)` under a test
abbrev pub leg_if : Bool → EntryType → Party → ℤ → List Leg
leg_if true entry_type party amount =
    record { entry_type = entry_type; party = party; amount_kobo = amount } ∷ []
leg_if false entry_type party amount = []

-- The entries of a split: the client's share, the artist's net, the commission and the payout fee.
unfoldable pub split_entries : ℕ → ℤ → ℕ → ℕ → List Leg
split_entries client_kobo artist_net share money_out =
    leg_if (ltb 0 client_kobo) refunded_entry client (pos client_kobo)
    ++ (leg_if (ltb_ℤ (pos 0) artist_net) released_entry artist artist_net
        ++ (leg_if (ltb 0 share) commission platform (pos share)
            ++ (leg_if (ltb 0 money_out) escrow_fee_out platform (neg (pos money_out))
                ++ leg_if (ltb 0 money_out) escrow_fee_out provider (pos money_out))))

unfoldable pub split_legs : Booking → ℕ → ℕ → List Leg
split_legs b client_kobo artist_kobo =
    let share = apply_bps artist_kobo b.commission_rate_bps_snapshot in
    let artist_net = sub_ℕ artist_kobo share in
    let money_out = if ltb_ℤ (pos 0) artist_net then money_out_fee artist_net else 0 in
    split_entries client_kobo artist_net share money_out

unfoldable pub record_dispute_split :
    Client → Booking → ℕ → ℕ → Ledger → Result (List LedgerEntry × Ledger)
unfolding append_all split_legs split_entries
record_dispute_split tx b client_kobo artist_kobo l = do
  throw_if (not (client_kobo + artist_kobo == b.amount_kobo)) split_not_exact
  append_all tx b.id (split_legs b client_kobo artist_kobo) l

unfoldable pub settlement_legs : ℤ → List Leg
settlement_legs settled_kobo =
    record { entry_type = fee_liability_settled; party = artist; amount_kobo = neg settled_kobo }
    ∷ record { entry_type = fee_liability_settled; party = platform; amount_kobo = settled_kobo }
    ∷ []

unfoldable pub record_fee_liability_settlement :
    Client → ℕ → ℤ → Ledger → Result (List LedgerEntry × Ledger)
unfolding append_all settlement_legs
record_fee_liability_settlement tx booking_id settled_kobo =
    append_all tx booking_id (settlement_legs settled_kobo)

abbrev pub has_id : ℕ → LedgerEntry → Bool
has_id k e = e.id == k

abbrev pub is_offset_of : ℕ → LedgerEntry → Bool
is_offset_of k e = elim e.offsets_entry_id [ none ↦ false | some j ↦ j == k ]

abbrev pub corrects : LedgerEntry → Leg
corrects e = record { entry_type = correction; party = e.party; amount_kobo = neg e.amount_kobo }

-- The `reason` is read only for whether there is one.
unfoldable pub record_correction : Client → ℕ → Bool → Ledger → Result (LedgerEntry × Ledger)
unfolding record_entry
record_correction tx offsets has_reason l = do
  assert_transaction_client tx
  throw_if (not has_reason) correction_without_reason
  elim (find (has_id offsets) l) [
    | none ↦ err entry_missing
    | some original ↦ do
      throw_if (entry_eq original.entry_type correction) correction_of_correction
      throw_if (is_some (find (is_offset_of offsets) l)) already_corrected
      record_entry tx original.booking_id (corrects original) (some offsets) l
  ]

abbrev pub includes_type : List EntryType → EntryType → Bool
includes_type [] t = false
includes_type (u ∷ us) t = entry_eq u t || includes_type us t

-- The rows that a reversal starts from.
abbrev pub is_original : ℕ → List EntryType → LedgerEntry → Bool
is_original booking_id types e =
    e.booking_id == booking_id
    && (includes_type types e.entry_type && not (is_some e.offsets_entry_id))

-- Whether a row of the booking already offsets the one with this id.
abbrev pub already_offset : ℕ → ℕ → Ledger → Bool
already_offset booking_id k l =
    is_some (find (λ e. e.booking_id == booking_id && is_offset_of k e) l)

-- The loop over the originals; the set of offset ids was read before it, from `seen`.
unfoldable pub reverse_from :
    Client → ℕ → Bool → Ledger → List LedgerEntry → Ledger → Result (List LedgerEntry × Ledger)
reverse_from tx booking_id has_reason seen [] l = ok ([], l)
reverse_from tx booking_id has_reason seen (e ∷ es) l = elim (already_offset booking_id e.id seen) [
  | true ↦ reverse_from tx booking_id has_reason seen es l
  | false ↦ record_correction tx e.id has_reason l >>= λ w.
      reverse_from tx booking_id has_reason seen es w.1 >>= λ ws. ok (w.0 ∷ ws.0, ws.1)
]

unfoldable pub reverse_entries :
    Client → ℕ → List EntryType → Bool → Ledger → Result (List LedgerEntry × Ledger)
reverse_entries tx booking_id types has_reason l = do
  assert_transaction_client tx
  reverse_from tx booking_id has_reason l (keep (is_original booking_id types) l) l

pub record ByParty : Type 0 where
  pub client_kobo : ℤ
  pub artist_kobo : ℤ
  pub platform_kobo : ℤ
  pub provider_kobo : ℤ

pub record Reconciliation : Type 0 where
  pub entry_count : ℕ
  pub sum_kobo : ℤ
  pub balanced : Bool
  pub by_party : ByParty

-- `byParty[e.party] += e.amountKobo`
abbrev pub add_to : Party → ℤ → ByParty → ByParty
add_to client x p = record p { client_kobo = p.client_kobo +ℤ x }
add_to artist x p = record p { artist_kobo = p.artist_kobo +ℤ x }
add_to platform x p = record p { platform_kobo = p.platform_kobo +ℤ x }
add_to provider x p = record p { provider_kobo = p.provider_kobo +ℤ x }

-- The loop of `reconcile` over the rows of a booking.
unfoldable pub tally : ℤ × ByParty → List LedgerEntry → ℤ × ByParty
tally acc [] = acc
tally (sum_kobo, parties) (e ∷ es) =
    tally (sum_kobo +ℤ e.amount_kobo, add_to e.party e.amount_kobo parties) es

abbrev pub of_booking : ℕ → LedgerEntry → Bool
of_booking booking_id e = e.booking_id == booking_id

abbrev pub nothing : ByParty
nothing = record {
  client_kobo = pos 0;
  artist_kobo = pos 0;
  platform_kobo = pos 0;
  provider_kobo = pos 0;
}

unfoldable pub reconcile : ℕ → Ledger → Reconciliation
unfolding tally
reconcile booking_id l =
    let entries = keep (of_booking booking_id) l in
    let totals = tally (pos 0, nothing) entries in
    record {
      entry_count = length entries;
      sum_kobo = totals.0;
      balanced = eqb_ℤ totals.0 (pos 0);
      by_party = totals.1;
    }

unfoldable pub assert_balanced : ℕ → Ledger → Result Reconciliation
assert_balanced booking_id l =
    let result = reconcile booking_id l in if result.balanced then ok result else err unbalanced
