-- ===== src/Books/Cancellations.antt =====
-- The cancellations of escrowService.ts keep the books in agreement, whatever the provider answers
-- and whether or not the database commits.
use o_artiste.Prelude.{
  ℕ, ℤ, pos, negsuc, ◌≡◌, true, false, ◌||◌, Option, some, none, List, [], ◌∷◌, All, is_some,
  Bool-cases, inl, inr, arith, find,
}
use o_artiste.Schema.{refunded, cancelled, pending_payment, state_eq}
use o_artiste.Errors.{ok, err, no_band_covers}
use o_artiste.Fees.{ClientCancellation}
use o_artiste.Tiers.{Tier, resolve_tier, covers, days_before_event}
use o_artiste.Booking.{Booking}
use o_artiste.Store.{Db}
use o_artiste.Request.{Env}
use o_artiste.Escrow.Operations.{
  withdraw_by_client, split_by_client, cancel_uncancelled_by_client, cancel_by_client,
  withdraw_by_artist, refund_by_artist, cancel_uncancelled_by_artist, cancel_by_artist, is_unfunded,
}
use o_artiste.Books.{IsSound, IsWhole, is_held}
use o_artiste.Books.Concluding.{Read}
use o_artiste.Books.Cancelling.{
  cancel_by_client_tx-IsSound, withdraw_by_client_tx-IsSound, withdraw_by_artist_tx-IsSound,
  artist_cancellation_rows-Same,
}
use o_artiste.Books.Paying.{pay_out_if-Leads}
use o_artiste.Books.Logic.{
  Leads, quiet-Leads, check-Leads, bind-Leads, transact-Leads, instruct_if-IsQuiet, query-IsQuiet,
  done-Leads, from-Leads,
}
use o_artiste.Books.Requests.{
  the_books, after_commit, finished, with_row-Leads, either_way, refund_booking-Leads,
}

not_held :
    (b : Booking)
    → (is_held b.state ≡ true → is_some b.escrow_id ≡ true)
    → is_unfunded b ≡ true
    → is_held b.state ≡ false
not_held b escrow unfunded = elim (Bool-cases (is_held b.state)) [
  | inr e ↦ e
  | inl e ↦ absurd (let paid = escrow e in ground arith)
]

-- No money is held for a booking that counts as never funded.
unheld : (b : Booking) (db : Db) → Read b db → is_unfunded b ≡ true → is_held b.state ≡ false
unheld b db read unfunded = not_held b (read.0 b.id b read.1).1.2 unfunded

withdraw_by_client-Leads :
    (env : Env) (b : Booking) (tier : Tier) (days : ℤ)
    → is_unfunded b ≡ true
    → Leads (Read b) (withdraw_by_client env b tier days) IsSound
unfolding withdraw_by_client
withdraw_by_client-Leads env b tier days unfunded =
    bind-Leads (Read b) IsSound _ _
      (transact-Leads (Read b) IsSound env _ (the_books b) (λ db v read h.
        withdraw_by_client_tx-IsSound env.now b tier days db read (unheld b db read unfunded) h))
      λ next. finished _

-- The tier that is found for a day is one of the booking's.
find-IsWhole :
    (days : ℕ) (ts : List Tier) (t : Tier)
    → All IsWhole ts
    → find (covers days) ts ≡ some t
    → IsWhole t
find-IsWhole days [] t all h = absurd cc
find-IsWhole days (u ∷ us) t all h = elim (Bool-cases (covers days u)) [
  | inl e ↦ let hit : some u ≡ some t = rw e at h in let same : u ≡ t = cc in rw (← same) all.0
  | inr e ↦ find-IsWhole days us t all.1 (rw e at h)
]

tier_found :
    (o : Option Tier) (t : Tier)
    → elim o [ none ↦ err no_band_covers | some u ↦ ok u ] ≡ ok t
    → o ≡ some t
tier_found none t h = absurd cc
tier_found (some u) t h = cc

resolve_tier-IsWhole :
    (ts : List Tier) (days : ℤ) (t : Tier)
    → All IsWhole ts
    → resolve_tier ts days ≡ ok t
    → IsWhole t
unfolding resolve_tier
resolve_tier-IsWhole [] days t all h = absurd cc
resolve_tier-IsWhole (u ∷ us) (negsuc n) t all h = absurd cc
resolve_tier-IsWhole (u ∷ us) (pos days) t all h =
    find-IsWhole days (u ∷ us) t all (tier_found (find (covers days) (u ∷ us)) t h)

split_by_client-Leads :
    (env : Env) (b : Booking) (tier : Tier) (days : ℤ)
    → state_eq b.state pending_payment ≡ false
    → (All IsWhole b.cancellation_tiers_snapshot → IsWhole tier)
    → Leads (Read b) (split_by_client env b tier days) IsSound
unfolding split_by_client
split_by_client-Leads env b tier days funded whole =
    check-Leads (Read b) IsSound _ _ (the_books b) λ (c : ClientCancellation) _.
      check-Leads (Read b) IsSound _ _ (the_books b) λ a _.
        quiet-Leads (Read b) IsSound _ _ (the_books b) (instruct_if-IsQuiet _ env _) λ a.
          quiet-Leads (Read b) IsSound _ _ (the_books b) (instruct_if-IsQuiet _ env _) λ a.
            bind-Leads (Read b) IsSound _ _
              (transact-Leads (Read b) IsSound env _ (the_books b) (λ db v read h.
                cancel_by_client_tx-IsSound env.now b tier days c db read funded
                  (whole (read.0 b.id b read.1).1.1) h))
              λ next.
                bind-Leads IsSound IsSound _ _ (pay_out_if-Leads _ env b.id _ _)
                  λ a. after_commit _ _ λ a. finished _

was_funded : (b : Booking) → is_unfunded b ≡ false → state_eq b.state pending_payment ≡ false
was_funded b h = ground arith

cancel_uncancelled_by_client-Leads :
    (env : Env) (b : Booking) → Leads (Read b) (cancel_uncancelled_by_client env b) IsSound
unfolding cancel_uncancelled_by_client
cancel_uncancelled_by_client-Leads env b =
    let days = days_before_event b.event_date env.now in
    check-Leads (Read b) IsSound _ _ (the_books b) λ a _.
      check-Leads (Read b) IsSound _ _ (the_books b) λ (tier : Tier) found.
        either_way (Read b) (is_unfunded b) _ _ (λ h. withdraw_by_client-Leads env b tier days h)
          (λ h.
            split_by_client-Leads env b tier days (was_funded b h)
              (λ all. resolve_tier-IsWhole b.cancellation_tiers_snapshot days tier all found))

pub cancel_by_client-Leads :
    (env : Env) (booking_id client_user_id : ℕ)
    → Leads IsSound (cancel_by_client env booking_id client_user_id) IsSound
unfolding cancel_by_client
cancel_by_client-Leads env booking_id client_user_id = with_row-Leads booking_id _ λ b.
    check-Leads (Read b) IsSound _ _ (the_books b) λ a _.
      either_way (Read b) (state_eq b.state cancelled) _ _
        (λ h. done-Leads (Read b) IsSound _ (the_books b))
        (λ h. cancel_uncancelled_by_client-Leads env b)

withdraw_by_artist-Leads :
    (env : Env) (b : Booking) (days : ℤ)
    → is_unfunded b ≡ true
    → Leads (Read b) (withdraw_by_artist env b days) IsSound
unfolding withdraw_by_artist
withdraw_by_artist-Leads env b days unfunded =
    bind-Leads (Read b) IsSound _ _
      (transact-Leads (Read b) IsSound env _ (the_books b) (λ db v read h.
        withdraw_by_artist_tx-IsSound env.now b days db read (unheld b db read unfunded) h))
      λ next. finished _

refund_by_artist-Leads :
    (env : Env) (b : Booking) (days : ℤ) → Leads (Read b) (refund_by_artist env b days) IsSound
unfolding refund_by_artist
refund_by_artist-Leads env b days =
    bind-Leads (Read b) IsSound _ _
      (from-Leads IsSound (Read b) IsSound _ (the_books b)
        (refund_booking-Leads env b.id _ (λ c db. artist_cancellation_rows-Same env.now b days db)))
      λ summary.
        quiet-Leads IsSound IsSound _ _ (λ db sound. sound) (query-IsQuiet _)
          λ (row : Booking). after_commit _ _ λ a. finished _

pub cancel_by_artist-Leads :
    (env : Env) (booking_id artist_user_id : ℕ)
    → Leads IsSound (cancel_by_artist env booking_id artist_user_id) IsSound
unfolding cancel_by_artist cancel_uncancelled_by_artist
cancel_by_artist-Leads env booking_id artist_user_id = with_row-Leads booking_id _ λ b.
    check-Leads (Read b) IsSound _ _ (the_books b) λ a _.
      either_way (Read b) (state_eq b.state cancelled || state_eq b.state refunded) _ _
        (λ h. done-Leads (Read b) IsSound _ (the_books b))
        λ h. check-Leads (Read b) IsSound _ _ (the_books b) λ a _.
          check-Leads (Read b) IsSound _ _ (the_books b) λ a _.
            either_way (Read b) (is_unfunded b) _ _ (λ h. withdraw_by_artist-Leads env b _ h)
              (λ h. refund_by_artist-Leads env b _)
