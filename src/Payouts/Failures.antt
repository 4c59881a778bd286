-- ===== src/Payouts/Failures.antt =====
-- When `payOut` of payoutService.ts throws, it has written nothing.
use o_artiste.Prelude.{ℕ, ℤ, pos, ltb_ℤ, Bool, true, false, Option, none, some}
use o_artiste.Booking.{Booking, PayoutFailure, no_account_on_file, provider_error}
use o_artiste.Store.{Artist, find_booking, amend}
use o_artiste.Request.{Env, Action, done, rescue}
use o_artiste.Request.Atomic.{
  IsAtomic, quiet-IsAtomic, then_sure-IsAtomic, transact-IsAtomic, rescue-IsAtomic, sure-IsAtomic,
  done-IsSure,
}
use o_artiste.Books.Logic.{query-IsQuiet}
use o_artiste.Payouts.{
  PayoutResult, already_paid, nothing_to_pay, no_payout_account, not_paid, failure_data,
  record_failure, account_of, send_payout, pay_unpaid, pay_out_booking, pay_out,
}
use o_artiste.Payouts.Outcomes.{send_payout-IsAtomic}

record_failure-IsAtomic :
    (env : Env) (b : Booking) (reason : PayoutFailure) (result : PayoutResult)
    → IsAtomic (record_failure env b reason result)
unfolding record_failure
record_failure-IsAtomic env b reason result =
    then_sure-IsAtomic _ _ (transact-IsAtomic env (amend b.id (failure_data reason)))
      λ (updated : Booking). done-IsSure result

module _ (env : Env) (b : Booking) (amount : ℤ) (commission : Option ℕ) where
  with_account :
      (account : Option ℕ)
      → IsAtomic (elim account as (λ a. Action PayoutResult) [
        | none ↦ record_failure env b no_account_on_file no_payout_account
        | some account_id ↦
            rescue
              (send_payout env env.wallet env.payout_given b amount commission)
              (λ e. record_failure env b provider_error not_paid)
      ])
  with_account none = record_failure-IsAtomic env b no_account_on_file no_payout_account
  with_account (some account_id) =
      rescue-IsAtomic _ _ (send_payout-IsAtomic env env.wallet env.payout_given b amount commission)
        (λ e. record_failure-IsAtomic env b provider_error not_paid)

  pay_unpaid-IsAtomic : IsAtomic (pay_unpaid env env.wallet env.payout_given b amount commission)
  unfolding pay_unpaid
  pay_unpaid-IsAtomic =
      quiet-IsAtomic _ _ (query-IsQuiet _) λ (row : Option Artist). with_account (account_of row)

  owed :
      (p : Bool)
      → IsAtomic (elim p as (λ x. Action PayoutResult) [
        | false ↦ done nothing_to_pay
        | true ↦ pay_unpaid env env.wallet env.payout_given b amount commission
      ])
  owed false = sure-IsAtomic _ (done-IsSure nothing_to_pay)
  owed true = pay_unpaid-IsAtomic

  unpaid :
      (before : Option ℕ)
      → IsAtomic (elim before as (λ x. Action PayoutResult) [
        | some paid_before ↦ done (already_paid paid_before)
        | none ↦ elim (ltb_ℤ (pos 0) amount) as (λ x. Action PayoutResult) [
          | false ↦ done nothing_to_pay
          | true ↦ pay_unpaid env env.wallet env.payout_given b amount commission
        ]
      ])
  unpaid (some paid_before) = sure-IsAtomic _ (done-IsSure (already_paid paid_before))
  unpaid none = owed (ltb_ℤ (pos 0) amount)

pub pay_out-IsAtomic :
    (env : Env) (k : ℕ) (amount : ℤ) (commission : Option ℕ)
    → IsAtomic (pay_out env k amount commission)
unfolding pay_out pay_out_booking
pay_out-IsAtomic env k amount commission =
    quiet-IsAtomic _ _ (query-IsQuiet (find_booking k))
      λ (b : Booking). unpaid env b amount commission b.payout_id
