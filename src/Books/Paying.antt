-- ===== src/Books/Paying.antt =====
-- A payout keeps the books in agreement, whether it goes through, fails or throws: it writes columns
-- that the books do not read.
use o_artiste.Prelude.{ℕ, ℤ, pos, ltb_ℤ, refl, Bool, true, false, Option, none, some}
use o_artiste.Errors.{AppError, Result, ok, err}
use o_artiste.Booking.{Booking, PayoutFailure, no_account_on_file, provider_error}
use o_artiste.Store.{Db, Artist, find_booking, amend}
use o_artiste.Request.{World, Env, Action, ◌>>=◌, done, rescue, caught, transact}
use o_artiste.Payouts.{
  PayoutResult, already_paid, nothing_to_pay, no_payout_account, not_paid, failure_data, paid_data,
  wallet_of, account_of, send_payout, record_failure, pay_unpaid, pay_out_booking, pay_out,
}
use o_artiste.Escrow.Operations.{pay_out_if}
use o_artiste.Books.{IsSound}
use o_artiste.Books.Concluding.{Keeps}
use o_artiste.Books.Holding.{amend-IsSound}
use o_artiste.Books.Logic.{
  Leads, quiet-Leads, check-Leads, bind-Leads, transact-Leads, instruct-IsQuiet, query-IsQuiet,
  emit-IsQuiet, done-Leads,
}

abbrev same_books : (db : Db) → IsSound db → IsSound db
same_books db sound = sound

ended : {T : Type 0} (t : T) → Leads IsSound (done t) IsSound
ended t = done-Leads IsSound IsSound t same_books

amend-Leads :
    (env : Env) (k : ℕ) (data_of : Booking → Booking) {T : Type 0} (next : Booking → Action T)
    → Keeps data_of
    → ((b : Booking) → Leads IsSound (next b) IsSound)
    → Leads IsSound (transact env (amend k data_of) >>= next) IsSound
amend-Leads env k data_of next keeps rest =
    bind-Leads IsSound IsSound _ _
      (transact-Leads IsSound IsSound env (amend k data_of) same_books
        (λ db v sound h. amend-IsSound k data_of db sound keeps h))
      rest

rescue-Leads :
    {T : Type 0} (act : Action T) (handler : AppError → Action T)
    → Leads IsSound act IsSound
    → ((e : AppError) → Leads IsSound (handler e) IsSound)
    → Leads IsSound (rescue act handler) IsSound
unfolding Leads rescue
rescue-Leads {T} act handler first second w sound = go (act w) (first w sound)
  where
    go : (r : Result T × World) → IsSound r.1.db → IsSound (caught r handler).1.db
    go (err e, v) s = second e v s
    go (ok t, v) s = s

record_failure-Leads :
    (env : Env) (b : Booking) (reason : PayoutFailure) (result : PayoutResult)
    → Leads IsSound (record_failure env b reason result) IsSound
unfolding record_failure
record_failure-Leads env b reason result =
    amend-Leads env b.id (failure_data reason) _ (λ c. (refl, refl, refl, refl, refl, refl))
      λ updated. ended result

send_payout-Leads :
    (env : Env) (wallet payout_id : Option ℕ) (b : Booking) (amount : ℤ) (commission : Option ℕ)
    → Leads IsSound (send_payout env wallet payout_id b amount commission) IsSound
unfolding send_payout
send_payout-Leads env wallet payout_id b amount commission =
    check-Leads IsSound IsSound (wallet_of wallet) _ same_books λ (from : ℕ) _.
      quiet-Leads IsSound IsSound _ _ same_books (instruct-IsQuiet env _) λ a.
        amend-Leads env b.id (paid_data env.now payout_id) _
          (λ c. (refl, refl, refl, refl, refl, refl))
          λ updated. quiet-Leads IsSound IsSound _ _ same_books (emit-IsQuiet _) λ a. ended _

pay_unpaid-Leads :
    (env : Env) (wallet payout_id : Option ℕ) (b : Booking) (amount : ℤ) (commission : Option ℕ)
    → Leads IsSound (pay_unpaid env wallet payout_id b amount commission) IsSound
unfolding pay_unpaid
pay_unpaid-Leads env wallet payout_id b amount commission =
    quiet-Leads IsSound IsSound _ _ same_books (query-IsQuiet _) λ (row : Option Artist).
      elim (account_of row)
        as (λ account.
          Leads IsSound
            (elim account as (λ a. Action PayoutResult) [
              | none ↦ record_failure env b no_account_on_file no_payout_account
              | some account_id ↦
                  rescue (send_payout env wallet payout_id b amount commission)
                    (λ e. record_failure env b provider_error not_paid)
            ])
            IsSound) [
              | none ↦ record_failure-Leads env b no_account_on_file no_payout_account
              | some account_id ↦
                  rescue-Leads _ _ (send_payout-Leads env wallet payout_id b amount commission)
                    (λ e. record_failure-Leads env b provider_error not_paid)
            ]

pub pay_out-Leads :
    (env : Env) (k : ℕ) (amount : ℤ) (commission : Option ℕ)
    → Leads IsSound (pay_out env k amount commission) IsSound
unfolding pay_out pay_out_booking
pay_out-Leads env k amount commission =
    quiet-Leads IsSound IsSound _ _ same_books (query-IsQuiet (find_booking k))
      λ (b : Booking). unpaid b b.payout_id
  where
    unpaid :
        (b : Booking) (before : Option ℕ)
        → Leads IsSound
            (elim before as (λ x. Action PayoutResult) [
              | some paid_before ↦ done (already_paid paid_before)
              | none ↦ elim (ltb_ℤ (pos 0) amount) as (λ x. Action PayoutResult) [
                | false ↦ done nothing_to_pay
                | true ↦ pay_unpaid env env.wallet env.payout_given b amount commission
              ]
            ])
            IsSound
    unpaid b (some paid_before) = ended (already_paid paid_before)
    unpaid b none =
        elim (ltb_ℤ (pos 0) amount)
          as (λ p.
            Leads IsSound
              (elim p as (λ x. Action PayoutResult) [
                | false ↦ done nothing_to_pay
                | true ↦ pay_unpaid env env.wallet env.payout_given b amount commission
              ])
              IsSound) [
                | false ↦ ended nothing_to_pay
                | true ↦ pay_unpaid-Leads env env.wallet env.payout_given b amount commission
              ]

pub pay_out_if-Leads :
    (may : Bool) (env : Env) (k : ℕ) (amount : ℤ) (commission : Option ℕ)
    → Leads IsSound (pay_out_if may env k amount commission) IsSound
pay_out_if-Leads true env k amount commission =
    bind-Leads IsSound IsSound _ _ (pay_out-Leads env k amount commission) λ payout. ended tt
pay_out_if-Leads false env k amount commission = ended tt
