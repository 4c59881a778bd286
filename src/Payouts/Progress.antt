-- ===== src/Payouts/Progress.antt =====
-- What a payout comes to when the provider takes the call and the database commits.
use o_artiste.Prelude.{
  ℕ, ℤ, pos, pos_part, ltb_ℤ, ◌≡◌, refl, sym, ◌∙◌, Bool, true, false, Option, none, some, List, [],
  ◌∷◌, ◌++◌, ==_refl,
}
use mathlib.Core.List.{append-nil}
use o_artiste.Errors.{ok}
use o_artiste.Booking.{Booking, no_account_on_file, provider_error}
use o_artiste.Store.{Db, Artist, find_booking, amend, put}
use o_artiste.Request.{
  leg_of, Instruction, payout_leg, wallet_to_artist, payout_sent_notice, World, Env, Action, ◌>>=◌,
  done, check, rescue, emit,
}
use o_artiste.Request.Runs.{query-then, transact-then, instruct-then}
use o_artiste.Payouts.{
  PayoutResult, already_paid, nothing_to_pay, no_payout_account, not_paid, paid, failure_data,
  paid_data, send_payout, record_failure, account_of, pay_unpaid, pay_out_booking, pay_out,
}

-- The row afterwards, by whether the booking is unpaid and the amount above zero, the account, and
-- the wallet.
abbrev pub settled_row : Env → Booking → Option ℕ → Bool → Option ℕ → Option ℕ → Booking
settled_row env b (some id) positive account wallet = b
settled_row env b none false account wallet = b
settled_row env b none true none wallet = failure_data no_account_on_file b
settled_row env b none true (some account_id) none = failure_data provider_error b
settled_row env b none true (some account_id) (some id) = paid_data env.now env.payout_given b

-- The calls of the provider for it.
abbrev pub payout_legs : Booking → ℤ → Option ℕ → Bool → Option ℕ → Option ℕ → List Instruction
payout_legs b amount none true (some account_id) (some id) =
    leg_of b wallet_to_artist payout_leg (pos_part amount) ∷ []
payout_legs b amount payout_id positive account wallet = []

abbrev pub row_after : Env → Booking → ℤ → Option Artist → Booking
row_after env b amount artist =
    settled_row env b b.payout_id (ltb_ℤ (pos 0) amount) (account_of artist) env.wallet

abbrev pub legs_after : Env → Booking → ℤ → Option Artist → List Instruction
legs_after env b amount artist =
    payout_legs b amount b.payout_id (ltb_ℤ (pos 0) amount) (account_of artist) env.wallet

module _ (env : Env) (b : Booking) (amount : ℤ) (commission : Option ℕ)
    (accepts : (i : Instruction) → env.accepts i ≡ true)
    (commits : (db : Db) → env.commits db ≡ true) where
  -- A run that ends with that row and those calls.
  abbrev EndsWith : World → Booking → List Instruction → Action PayoutResult → Type 0
  EndsWith w row legs act =
      (r : PayoutResult) × (v : World) × (act w ≡ (ok r, v))
      × (v.db.bookings b.id ≡ some row)
      × (v.instructed ≡ w.instructed ++ legs)

  abbrev written : Booking → Db → Db
  written row db = record db { bookings = put b.id row db.bookings }

  amend-goes :
      (data_of : Booking → Booking) (db : Db)
      → db.bookings b.id ≡ some b
      → amend b.id data_of db ≡ ok (data_of b, written (data_of b) db)
  unfolding amend find_booking
  amend-goes data_of db at = rw (amend, find_booking, at) refl

  record_failure-goes :
      (reason : _) (result : PayoutResult) (w : World)
      → w.db.bookings b.id ≡ some b
      → record_failure env b reason result w
        ≡ (ok result, record w { db = written (failure_data reason b) w.db })
  unfolding record_failure done
  record_failure-goes reason result w at =
      transact-then env (amend b.id (failure_data reason)) _ w
        (amend-goes (failure_data reason) w.db at) (commits (written (failure_data reason b) w.db))

  with_account :
      (account wallet : Option ℕ) (w : World)
      → w.db.bookings b.id ≡ some b
      → EndsWith w
          (settled_row env b none true account wallet)
          (payout_legs b amount none true account wallet)
          (elim account as (λ a. Action PayoutResult) [
            | none ↦ record_failure env b no_account_on_file no_payout_account
            | some account_id ↦
                rescue
                  (send_payout env wallet env.payout_given b amount commission)
                  (λ e. record_failure env b provider_error not_paid)
          ])
  unfolding rescue send_payout emit done ◌>>=◌ check record_failure
  with_account none wallet w at = (
    no_payout_account,
    record w { db = written (failure_data no_account_on_file b) w.db },
    record_failure-goes no_account_on_file no_payout_account w at,
    rw (==_refl b.id) refl,
    sym (append-nil w.instructed),
  )
  with_account (some account_id) none w at = (
    not_paid,
    record w { db = written (failure_data provider_error b) w.db },
    record_failure-goes provider_error not_paid w at,
    rw (==_refl b.id) refl,
    sym (append-nil w.instructed),
  )
  with_account (some account_id) (some id) w at =
      let leg = leg_of b wallet_to_artist payout_leg (pos_part amount) in
      let called = record w { instructed = w.instructed ++ leg ∷ [] } in
      let ended = record called {
        db = written (paid_data env.now env.payout_given b) w.db;
        effects = w.effects ++ payout_sent_notice b.id amount commission ∷ [];
      } in
      let sent : send_payout env (some id) env.payout_given b amount commission w
          ≡ (ok (paid env.payout_given), ended) =
        instruct-then env leg _ w (accepts leg)
        ∙ transact-then env (amend b.id (paid_data env.now env.payout_given)) _ called
            (amend-goes (paid_data env.now env.payout_given) w.db at)
            (commits (written (paid_data env.now env.payout_given b) w.db)) in
      (paid env.payout_given, ended, rw sent refl, rw (==_refl b.id) refl, refl)

  unpaid-goes :
      (w : World)
      → w.db.bookings b.id ≡ some b
      → EndsWith w
          (settled_row env b none true (account_of (w.db.artists b.artist_user_id)) env.wallet)
          (payout_legs b amount none true (account_of (w.db.artists b.artist_user_id)) env.wallet)
          (pay_unpaid env env.wallet env.payout_given b amount commission)
  unfolding pay_unpaid
  unpaid-goes w at =
      let (r, v, ran, row, calls) =
        with_account (account_of (w.db.artists b.artist_user_id)) env.wallet w at in
      (r, v, query-then (λ db. ok (db.artists b.artist_user_id)) _ w refl ∙ ran, row, calls)

  owed :
      (positive : Bool) (w : World)
      → w.db.bookings b.id ≡ some b
      → EndsWith w
          (settled_row env b none positive (account_of (w.db.artists b.artist_user_id)) env.wallet)
          (payout_legs b amount none positive
            (account_of (w.db.artists b.artist_user_id))
            env.wallet)
          (elim positive as (λ x. Action PayoutResult) [
            | false ↦ done nothing_to_pay
            | true ↦ pay_unpaid env env.wallet env.payout_given b amount commission
          ])
  unfolding done
  owed false w at = (nothing_to_pay, w, refl, at, sym (append-nil w.instructed))
  owed true w at = unpaid-goes w at

  from_row :
      (before : Option ℕ) (w : World)
      → w.db.bookings b.id ≡ some b
      → EndsWith w
          (settled_row env b before
            (ltb_ℤ (pos 0) amount)
            (account_of (w.db.artists b.artist_user_id))
            env.wallet)
          (payout_legs b amount before
            (ltb_ℤ (pos 0) amount)
            (account_of (w.db.artists b.artist_user_id))
            env.wallet)
          (elim before as (λ x. Action PayoutResult) [
            | some paid_before ↦ done (already_paid paid_before)
            | none ↦ elim (ltb_ℤ (pos 0) amount) as (λ x. Action PayoutResult) [
              | false ↦ done nothing_to_pay
              | true ↦ pay_unpaid env env.wallet env.payout_given b amount commission
            ]
          ])
  unfolding done
  from_row (some id) w at = (already_paid id, w, refl, at, sym (append-nil w.instructed))
  from_row none w at = owed (ltb_ℤ (pos 0) amount) w at

  pub pay_out-goes :
      (w : World)
      → w.db.bookings b.id ≡ some b
      → EndsWith w
          (row_after env b amount (w.db.artists b.artist_user_id))
          (legs_after env b amount (w.db.artists b.artist_user_id))
          (pay_out env b.id amount commission)
  unfolding pay_out pay_out_booking find_booking
  pay_out-goes w at =
      let (r, v, ran, row, calls) = from_row b.payout_id w at in
      let read : find_booking b.id w.db ≡ ok b = rw (find_booking, at) refl in
      (r, v, query-then (find_booking b.id) _ w read ∙ ran, row, calls)
