-- ===== src/Creation/Terms.antt =====
-- apps/backend/src/services/acknowledgementService.ts: the client accepts the terms as displayed,
-- and the gate that a funding passes. A displayed row is four whole numbers, of which the upper
-- limit may be null; the address and the browser of the client are left out.
use o_artiste.Prelude.{
  ℕ, ◌==◌, Bool, true, false, not, ◌&&◌, Option, none, some, is_some, List, [], ◌∷◌, sort_by,
}
use o_artiste.Schema.{pending_payment, state_eq}
use o_artiste.Errors.{
  Result, err, throw_if, booking_not_found, terms_not_accepted, booking_fixed, terms_not_shown,
  terms_changed, terms_unacknowledged,
}
use o_artiste.Tiers.{Tier}
use o_artiste.Booking.{Booking}
use o_artiste.Store.{find_booking, amend}
use o_artiste.Request.{Env, Action, ◌>>=◌, ◌>>◌, done, check, query, transact}

abbrev same_limit : Option ℕ → Option ℕ → Bool
same_limit none none = true
same_limit none (some n) = false
same_limit (some m) none = false
same_limit (some m) (some n) = m == n

abbrev pub tier_eq : Tier → Tier → Bool
tier_eq t u =
    (t.min_days == u.min_days && same_limit t.max_days u.max_days)
    && (t.client_bps == u.client_bps && t.artist_bps == u.artist_bps)

-- `JSON.stringify(a) === JSON.stringify(b)`
unfoldable pub tiers_eq : List Tier → List Tier → Bool
tiers_eq [] [] = true
tiers_eq [] (u ∷ us) = false
tiers_eq (t ∷ ts) [] = false
tiers_eq (t ∷ ts) (u ∷ us) = tier_eq t u && tiers_eq ts us

-- `normaliseTiers`
abbrev pub normalise_tiers : List Tier → List Tier
normalise_tiers = sort_by (λ t. t.min_days)

-- `assertMatchesSnapshot`; what is displayed may be no list.
unfoldable pub assert_matches_snapshot : Option (List Tier) → List Tier → Result (Unit {0})
unfolding tiers_eq
assert_matches_snapshot none snapshot = err terms_not_shown
assert_matches_snapshot (some displayed) snapshot =
    throw_if (not (tiers_eq (normalise_tiers displayed) (normalise_tiers snapshot))) terms_changed

-- `assertAcknowledged`
abbrev pub assert_acknowledged : Booking → Result (Unit {0})
assert_acknowledged b = throw_if (not (is_some b.acknowledged_at)) terms_unacknowledged

abbrev pub acknowledged_data : ℕ → Booking → Booking
acknowledged_data now b = record b { acknowledged_at = some now }

unfoldable pub acknowledge_now : Env → Option (List Tier) → Booking → Action Booking
unfolding assert_matches_snapshot
acknowledge_now env displayed b = do
  check (assert_matches_snapshot displayed b.cancellation_tiers_snapshot)
  transact env (amend b.id (acknowledged_data env.now))

unfoldable pub acknowledge_terms : Env → ℕ → ℕ → Bool → Option (List Tier) → Action Booking
unfolding acknowledge_now
acknowledge_terms env booking_id client_user_id accepted displayed = do
  check (throw_if (not accepted) terms_not_accepted)
  b ← query (find_booking booking_id)
  check (throw_if (not (b.client_user_id == client_user_id)) booking_not_found)
  check (throw_if (not (state_eq b.state pending_payment)) booking_fixed)
  elim (is_some b.acknowledged_at) [ true ↦ done b | false ↦ acknowledge_now env displayed b ]
