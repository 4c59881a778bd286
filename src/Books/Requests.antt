-- ===== src/Books/Requests.antt =====
-- The requests of escrowService.ts keep the books in agreement, whatever the provider answers and
-- whether or not the database commits.
use o_artiste.Prelude.{ℕ, ◌≡◌, refl, Bool, true, false}
use o_artiste.Schema.{released, refunded, state_eq}
use o_artiste.Fees.{LiabilitySettlement}
use o_artiste.Booking.{Booking}
use o_artiste.Store.{Db, find_booking}
use o_artiste.Request.{Env, Action, Effect, ◌>>=◌, query, done, emit}
use o_artiste.Escrow.Operations.{release_now, release_booking, refund_now, refund_booking}
use o_artiste.Payouts.{PayoutResult}
use o_artiste.Books.{IsSound}
use o_artiste.Books.Paying.{pay_out-Leads}
use o_artiste.Books.Transactions.{Same}
use o_artiste.Books.Concluding.{Read, Read-find_booking, release_tx-IsSound}
use o_artiste.Books.Cancelling.{refund_tx-IsSound}
use o_artiste.Books.Logic.{
  Leads, quiet-Leads, check-Leads, query-Leads, bind-Leads, transact-Leads, instruct-IsQuiet,
  query-IsQuiet, emit-IsQuiet, done-Leads, from-Leads,
}

abbrev pub the_books : (b : Booking) (db : Db) → Read b db → IsSound db
the_books b db read = read.0

-- What follows the transaction: an effect, and the value.
pub after_commit :
    {T : Type 0} (e : Effect) (next : Unit {0} → Action T)
    → ((a : Unit {0}) → Leads IsSound (next a) IsSound)
    → Leads IsSound (emit e >>= next) IsSound
after_commit e next rest = quiet-Leads IsSound IsSound _ _ (λ db sound. sound) (emit-IsQuiet e) rest

pub finished : {T : Type 0} (t : T) → Leads IsSound (done t) IsSound
finished t = done-Leads IsSound IsSound t (λ db sound. sound)

release_now-Leads : (env : Env) (b : Booking) → Leads (Read b) (release_now env b) IsSound
unfolding release_now
release_now-Leads env b = check-Leads (Read b) IsSound _ _ (the_books b) λ a _.
    check-Leads (Read b) IsSound _ _ (the_books b) λ a _.
      check-Leads (Read b) IsSound _ _ (the_books b) λ a _.
        quiet-Leads (Read b) IsSound _ _ (the_books b) (query-IsQuiet _) λ chosen.
          quiet-Leads (Read b) IsSound _ _ (the_books b) (query-IsQuiet _)
            λ (settlement : LiabilitySettlement).
              quiet-Leads (Read b) IsSound _ _ (the_books b) (instruct-IsQuiet env _) λ a.
                bind-Leads (Read b) IsSound _ _
                  (transact-Leads (Read b) IsSound env _ (the_books b)
                    (λ db v read h. release_tx-IsSound b chosen settlement.settled_kobo db read h))
                  λ next. after_commit _ _ λ a.
                    bind-Leads IsSound IsSound _ _ (pay_out-Leads env b.id _ _)
                      λ (payout : PayoutResult). finished _

-- A request that starts by reading a booking: the rest has its row as it is in the table.
pub with_row-Leads :
    {T : Type 0} (booking_id : ℕ) (next : Booking → Action T)
    → ((b : Booking) → Leads (Read b) (next b) IsSound)
    → Leads IsSound (query (find_booking booking_id) >>= next) IsSound
with_row-Leads booking_id next rest =
    query-Leads IsSound IsSound _ next (λ db sound. sound)
      λ b.
        from-Leads (Read b) _ IsSound (next b) (λ db p. Read-find_booking booking_id db b p.0 p.1)
          (rest b)

-- Returns, or goes on.
pub either_way :
    {T : Type 0} (P : Db → Type 0) (test : Bool) (a : Action T) (c : Action T)
    → (test ≡ true → Leads P a IsSound)
    → (test ≡ false → Leads P c IsSound)
    → Leads P (elim test [ true ↦ a | false ↦ c ]) IsSound
either_way P true a c h k = h refl
either_way P false a c h k = k refl

pub release_booking-Leads :
    (env : Env) (booking_id : ℕ) → Leads IsSound (release_booking env booking_id) IsSound
unfolding release_booking
release_booking-Leads env booking_id = with_row-Leads booking_id _ λ b.
    either_way (Read b) (state_eq b.state released) _ _
      (λ h. done-Leads (Read b) IsSound _ (the_books b)) (λ h. release_now-Leads env b)

refund_now-Leads :
    (env : Env) (b : Booking) (also_record : Booking → Db → Db)
    → ((db : Db) → Same db (also_record b db))
    → Leads (Read b) (refund_now env b also_record) IsSound
unfolding refund_now
refund_now-Leads env b also_record also = check-Leads (Read b) IsSound _ _ (the_books b) λ a _.
    check-Leads (Read b) IsSound _ _ (the_books b) λ a _.
      quiet-Leads (Read b) IsSound _ _ (the_books b) (instruct-IsQuiet env _) λ a.
        bind-Leads (Read b) IsSound _ _
          (transact-Leads (Read b) IsSound env _ (the_books b)
            (λ db v read h. refund_tx-IsSound env.now b (also_record b) db also read h))
          λ next. after_commit _ _ λ a. finished _

pub refund_booking-Leads :
    (env : Env) (booking_id : ℕ) (also_record : Booking → Db → Db)
    → ((b : Booking) (db : Db) → Same db (also_record b db))
    → Leads IsSound (refund_booking env booking_id also_record) IsSound
unfolding refund_booking
refund_booking-Leads env booking_id also_record also = with_row-Leads booking_id _ λ b.
    either_way (Read b) (state_eq b.state refunded) _ _
      (λ h. done-Leads (Read b) IsSound _ (the_books b))
      (λ h. refund_now-Leads env b also_record (also b))
