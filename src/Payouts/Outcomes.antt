-- ===== src/Payouts/Outcomes.antt =====
-- What is left of a payout, whether it went through or not.
use o_artiste.Prelude.{
  ℕ, ℤ, pos, ltb_ℤ, pos_part, ◌≡◌, ◌⊎◌, refl, sym, ap, ◌∙◌, Bool, true, false, Option, none, some,
  ◌++◌, [], ◌∷◌, inl, inr, ==_refl,
}
use o_artiste.Errors.{AppError, Result, ok, err, ok-injective}
use o_artiste.Booking.{Booking, PayoutFailure, no_account_on_file, provider_error}
use o_artiste.Store.{Db, find_booking, amend, put}
use o_artiste.Request.{
  leg_of, payout_leg, wallet_to_artist, payout_sent_notice, World, Env, Action, rescue, caught,
  done, query,
}
use o_artiste.Request.Runs.{
  bind-run, query-run, bind-eq-ok, check-eq-ok, query-eq-ok, instruct-eq-ok, transact-eq-ok,
  emit-eq-ok, done-eq-ok, called_and_wrote,
}
use o_artiste.Request.Atomic.{
  IsAtomic, quiet-IsAtomic, check-IsAtomic, then_sure-IsAtomic, transact-IsAtomic, bind-IsSure,
  emit-IsSure, done-IsSure,
}
use o_artiste.Books.Logic.{instruct-IsQuiet}
use o_artiste.Books.Transactions.{find_booking_finds, some-injective}
use o_artiste.Payouts.{
  PayoutResult, already_paid, nothing_to_pay, no_payout_account, not_paid, paid, failure_data,
  paid_data, wallet_of, send_payout, record_failure, account_of, pay_unpaid, pay_out_booking,
}

-- `try` and `catch` returned: either the request did, or the handler after it threw.
rescue-eq-ok :
    {T : Type 0} (r : Result T × World) (handler : AppError → Action T) {t : T} {v : World}
    → caught r handler ≡ (ok t, v)
    → (r ≡ (ok t, v))
      ⊎ ((e : AppError) × (u : World) × (r ≡ (err e, u)) × (handler e u ≡ (ok t, v)))
rescue-eq-ok (err e, u) handler h = inr (e, u, refl, h)
rescue-eq-ok (ok s, u) handler h = inl h

pub send_payout-IsAtomic :
    (env : Env) (wallet payout_id : Option ℕ) (b : Booking) (amount : ℤ) (commission : Option ℕ)
    → IsAtomic (send_payout env wallet payout_id b amount commission)
unfolding send_payout
send_payout-IsAtomic env wallet payout_id b amount commission =
    check-IsAtomic (wallet_of wallet) _ λ (from : ℕ) _.
      quiet-IsAtomic _ _ (instruct-IsQuiet env _) λ a.
        then_sure-IsAtomic _ _ (transact-IsAtomic env (amend b.id (paid_data env.now payout_id)))
          λ (updated : Booking). bind-IsSure _ _ (emit-IsSure _) λ a. done-IsSure _

-- A row that is amended stands under its id.
amend-puts :
    (k : ℕ) (data_of : Booking → Booking) (db : Db) {b : Booking} {r : Booking × Db}
    → db.bookings k ≡ some b
    → amend k data_of db ≡ ok r
    → r.1.bookings k ≡ some (data_of b)
unfolding amend find_booking
amend-puts k data_of db {b} found h =
    let same : ok (data_of b, record db { bookings = put k (data_of b) db.bookings }) ≡ ok _ =
      rw (amend, find_booking, found) at h in
    rw (← ok-injective same) (rw (==_refl k) refl)

-- What a payout that went through has done: the row has the id, and the provider was instructed
-- once, out of the wallet, for the amount.
send_payout-lem :
    (env : Env) (wallet payout_id : Option ℕ) (b : Booking) (amount : ℤ) (commission : Option ℕ)
    (w : World) {r : PayoutResult} {v : World}
    → w.db.bookings b.id ≡ some b
    → send_payout env wallet payout_id b amount commission w ≡ (ok r, v)
    → (r ≡ paid payout_id)
      × (v.db.bookings b.id ≡ some (paid_data env.now payout_id b))
      × (v.instructed ≡ w.instructed ++ leg_of b wallet_to_artist payout_leg (pos_part amount) ∷ [])
unfolding send_payout
send_payout-lem env wallet payout_id b amount commission w found h =
    let (from, has_wallet, h1) = check-eq-ok (wallet_of wallet) _ w h in
    let (x, u, called, h2) = bind-eq-ok _ _ w h1 in
    let there =
      instruct-eq-ok env (leg_of b wallet_to_artist payout_leg (pos_part amount)) w called in
    let (row, u2, wrote, h3) = bind-eq-ok _ _ u h2 in
    let (db, amended, there2) =
      transact-eq-ok env (amend b.id (paid_data env.now payout_id)) u wrote in
    let h4 = emit-eq-ok (payout_sent_notice b.id amount commission) _ u2 h3 in
    let (result, last) = done-eq-ok (paid payout_id) _ h4 in
    let (rows, calls) = called_and_wrote w u u2 there there2 last in
    let still : u.db.bookings b.id ≡ some b = rw there found in
    let stands = amend-puts b.id (paid_data env.now payout_id) u.db still amended in
    (result, rw rows stands, calls)

record_failure-lem :
    (env : Env) (b : Booking) (reason : PayoutFailure) (result : PayoutResult) (w : World)
    {r : PayoutResult} {v : World}
    → w.db.bookings b.id ≡ some b
    → record_failure env b reason result w ≡ (ok r, v)
    → (r ≡ result)
      × (v.db.bookings b.id ≡ some (failure_data reason b))
      × (v.instructed ≡ w.instructed)
unfolding record_failure
record_failure-lem env b reason result w found h =
    let (row, u, wrote, h1) = bind-eq-ok _ _ w h in
    let (db, amended, there) = transact-eq-ok env (amend b.id (failure_data reason)) w wrote in
    let (same, last) = done-eq-ok result u h1 in
    let stands = amend-puts b.id (failure_data reason) w.db found amended in
    (same, rw (last, there) stands, rw (last, there) refl)

-- A booking without a payout id, for an amount above zero: what is answered, and what is done, with
-- and without an account of the artist.
abbrev pub Attempts : ℕ → Option ℕ → Option ℕ → Booking → ℤ → World → World → PayoutResult → Type 0
Attempts now none payout_id b amount w v r =
    (r ≡ no_payout_account)
    × (v.db.bookings b.id ≡ some (failure_data no_account_on_file b))
    × (v.instructed ≡ w.instructed)
Attempts now (some account_id) payout_id b amount w v r =
    ((r ≡ paid payout_id)
      × (v.db.bookings b.id ≡ some (paid_data now payout_id b))
      × (v.instructed
          ≡ w.instructed ++ leg_of b wallet_to_artist payout_leg (pos_part amount) ∷ []))
    ⊎ ((r ≡ not_paid) × (v.db.bookings b.id ≡ some (failure_data provider_error b)))

-- What a payout answers and does, by the booking and the amount it is asked for.
abbrev pub Settles : ℕ → Option ℕ → Booking → ℤ → World → World → PayoutResult → Type 0
Settles now payout_id b amount w v r = elim b.payout_id [
  | some id ↦ (r ≡ already_paid id) × (v ≡ w)
  | none ↦ elim (ltb_ℤ (pos 0) amount) [
    | false ↦ (r ≡ nothing_to_pay) × (v ≡ w)
    | true ↦ Attempts now (account_of (w.db.artists b.artist_user_id)) payout_id b amount w v r
  ]
]

pay_unpaid-Attempts :
    (env : Env) (wallet payout_id : Option ℕ) (b : Booking) (amount : ℤ) (commission : Option ℕ)
    (w : World) {r : PayoutResult} {v : World}
    → w.db.bookings b.id ≡ some b
    → pay_unpaid env wallet payout_id b amount commission w ≡ (ok r, v)
    → Attempts env.now (account_of (w.db.artists b.artist_user_id)) payout_id b amount w v r
unfolding pay_unpaid rescue IsAtomic
pay_unpaid-Attempts env wallet payout_id b amount commission w {r} {v} found h =
    let (row, looked, h1) = query-eq-ok (λ db. ok (db.artists b.artist_user_id)) _ w h in
    rw (ok-injective looked) (with_account (account_of row) h1)
  where
    with_account :
        (account : Option ℕ)
        → elim account as (λ a. Action PayoutResult) [
          | none ↦ record_failure env b no_account_on_file no_payout_account
          | some account_id ↦
              rescue
                (send_payout env wallet payout_id b amount commission)
                (λ e. record_failure env b provider_error not_paid)
        ]
            w
          ≡ (ok r, v)
        → Attempts env.now account payout_id b amount w v r
    with_account none h1 = record_failure-lem env b no_account_on_file no_payout_account w found h1
    with_account (some account_id) h1 =
        let sent = send_payout env wallet payout_id b amount commission in
        elim (rescue-eq-ok (sent w) (λ e. record_failure env b provider_error not_paid) h1) [
          | inl went ↦ inl (send_payout-lem env wallet payout_id b amount commission w found went)
          | inr (e, u, threw, h2) ↦
              let kept : u.db ≡ w.db =
                send_payout-IsAtomic env wallet payout_id b amount commission w e u threw in
              let still : u.db.bookings b.id ≡ some b = rw kept found in
              let (same, stands, quiet) =
                record_failure-lem env b provider_error not_paid u still h2 in
              inr (same, stands)
        ]

pub pay_out_booking-Settles :
    (env : Env) (wallet payout_id : Option ℕ) (k : ℕ) (amount : ℤ) (commission : Option ℕ)
    (w : World) {b : Booking} {r : PayoutResult} {v : World}
    → w.db.bookings k ≡ some b
    → b.id ≡ k
    → pay_out_booking env wallet payout_id k amount commission w ≡ (ok r, v)
    → Settles env.now payout_id b amount w v r
unfolding pay_out_booking
pay_out_booking-Settles env wallet payout_id k amount commission w {b} {r} {v} found id h =
    let (c, read, h1) = query-eq-ok (find_booking k) _ w h in
    let same : c ≡ b = some-injective (sym (find_booking_finds k w.db c read) ∙ found) in
    let at_id : w.db.bookings b.id ≡ some b = ap w.db.bookings id ∙ found in
    let still : w.db.bookings c.id ≡ some c = rw same at_id in
    rw (← same) (unpaid c still c.payout_id h1)
  where
    unpaid :
        (c : Booking)
        → w.db.bookings c.id ≡ some c
        → (before : Option ℕ)
        → elim before as (λ x. Action PayoutResult) [
          | some paid_before ↦ done (already_paid paid_before)
          | none ↦ elim (ltb_ℤ (pos 0) amount) as (λ x. Action PayoutResult) [
            | false ↦ done nothing_to_pay
            | true ↦ pay_unpaid env wallet payout_id c amount commission
          ]
        ]
            w
          ≡ (ok r, v)
        → elim before as (λ x. Type 0) [
          | some id ↦ (r ≡ already_paid id) × (v ≡ w)
          | none ↦ elim (ltb_ℤ (pos 0) amount) as (λ x. Type 0) [
            | false ↦ (r ≡ nothing_to_pay) × (v ≡ w)
            | true ↦
                Attempts env.now
                  (account_of (w.db.artists c.artist_user_id))
                  payout_id
                  c
                  amount
                  w
                  v
                  r
          ]
        ]
    unpaid c still (some paid_before) h1 = done-eq-ok (already_paid paid_before) w h1
    unpaid c still none h1 = owed c still (ltb_ℤ (pos 0) amount) h1
      where
        owed :
            (c : Booking)
            → w.db.bookings c.id ≡ some c
            → (p : Bool)
            → elim p as (λ x. Action PayoutResult) [
              | false ↦ done nothing_to_pay
              | true ↦ pay_unpaid env wallet payout_id c amount commission
            ]
                w
              ≡ (ok r, v)
            → elim p as (λ x. Type 0) [
              | false ↦ (r ≡ nothing_to_pay) × (v ≡ w)
              | true ↦
                  Attempts env.now
                    (account_of (w.db.artists c.artist_user_id))
                    payout_id
                    c
                    amount
                    w
                    v
                    r
            ]
        owed c still true h1 =
            pay_unpaid-Attempts env wallet payout_id c amount commission w still h1
        owed c still false h1 = done-eq-ok nothing_to_pay w h1

-- A payout that went through has left the row marked paid.
Settles-paid :
    (now : ℕ) (payout_id : Option ℕ) (b : Booking) (amount : ℤ) (w v : World) (given : Option ℕ)
    → Settles now payout_id b amount w v (paid given)
    → v.db.bookings b.id ≡ some (paid_data now payout_id b)
Settles-paid now payout_id b amount w v given = before b.payout_id
  where
    attempted :
        (account : Option ℕ)
        → Attempts now account payout_id b amount w v (paid given)
        → v.db.bookings b.id ≡ some (paid_data now payout_id b)
    attempted none h = absurd (let impossible = h.0 in cc)
    attempted (some account_id) (inl h) = h.1
    attempted (some account_id) (inr h) = absurd (let impossible = h.0 in cc)

    owed :
        (p : Bool)
        → elim p as (λ x. Type 0) [
          | false ↦ (paid given ≡ nothing_to_pay) × (v ≡ w)
          | true ↦
              Attempts now
                (account_of (w.db.artists b.artist_user_id))
                payout_id
                b
                amount
                w
                v
                (paid given)
        ]
        → v.db.bookings b.id ≡ some (paid_data now payout_id b)
    owed false h = absurd (let impossible = h.0 in cc)
    owed true h = attempted _ h

    before :
        (p : Option ℕ)
        → elim p as (λ x. Type 0) [
          | some id ↦ (paid given ≡ already_paid id) × (v ≡ w)
          | none ↦ elim (ltb_ℤ (pos 0) amount) as (λ x. Type 0) [
            | false ↦ (paid given ≡ nothing_to_pay) × (v ≡ w)
            | true ↦
                Attempts now
                  (account_of (w.db.artists b.artist_user_id))
                  payout_id
                  b
                  amount
                  w
                  v
                  (paid given)
          ]
        ]
        → v.db.bookings b.id ≡ some (paid_data now payout_id b)
    before (some id) h = absurd (let impossible = h.0 in cc)
    before none h = owed _ h

-- A booking that has been paid out under an id is not paid again: whatever amount is asked for
-- afterwards, and whatever the provider would answer, the second request gives the id of the first
-- and changes nothing.
pub pay_out_booking_once :
    (env env' : Env) (wallet wallet' : Option ℕ) (payout_id : ℕ) (payout_id' : Option ℕ) (k : ℕ)
    (amount amount' : ℤ) (commission commission' : Option ℕ) (w : World) {b : Booking} {v : World}
    → w.db.bookings k ≡ some b
    → b.id ≡ k
    → pay_out_booking env wallet (some payout_id) k amount commission w
      ≡ (ok (paid (some payout_id)), v)
    → pay_out_booking env' wallet' payout_id' k amount' commission' v
      ≡ (ok (already_paid payout_id), v)
unfolding pay_out_booking find_booking done
pay_out_booking_once env env' wallet wallet' payout_id payout_id' k amount amount' commission
      commission' w {b} {v} found id h =
    let stands =
      Settles-paid env.now (some payout_id) b amount w v (some payout_id)
        (pay_out_booking-Settles env wallet (some payout_id) k amount commission w found id h) in
    let read : find_booking k v.db ≡ ok (paid_data env.now (some payout_id) b) =
      let at_k = ap v.db.bookings (sym id) ∙ stands in rw (find_booking, at_k) refl in
    bind-run (query (find_booking k)) _ (query-run (find_booking k) v read)
