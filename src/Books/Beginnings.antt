-- ===== src/Books/Beginnings.antt =====
-- The requests before a funding keep the books in agreement: the creation of a booking, the
-- acceptance of its terms, and the creation of its escrow.
use o_artiste.Prelude.{
  ℕ, pos, ◌≤◌, ◌≡◌, refl, Bool, Option, none, some, is_some, List, [], ◌∷◌, All, Option-cases, inl,
  inr,
}
use o_artiste.Errors.{ok, ok-injective}
use o_artiste.Tiers.{Tier}
use o_artiste.Tiers.Sorting.{IsBand}
use o_artiste.Tiers.Complete.{IsComplete}
use o_artiste.Booking.{Booking}
use o_artiste.Ledger.{reconcile}
use o_artiste.Store.{Db, User, Artist, find_booking, amend, put}
use o_artiste.Request.{Env, Effect}
use o_artiste.Versions.{resolve_commission_rate}
use o_artiste.Creation.{NewBooking, create_booking, new_booking, insert_tx}
use o_artiste.Creation.Sound.{check_terms-IsComplete, insert_tx-puts}
use o_artiste.Creation.Terms.{acknowledge_terms, acknowledge_now, acknowledged_data}
use o_artiste.Creation.Funding.{
  Answers, Session, call, create_escrow, open_now, with_checkout_session, escrow_data,
}
use o_artiste.Books.{IsSound, Fits, IsWhole}
use o_artiste.Books.Transactions.{put-Agree}
use o_artiste.Books.Concluding.{Read, Keeps}
use o_artiste.Books.Holding.{amend-IsSound}
use o_artiste.Books.Logic.{
  Leads, IsQuiet, quiet-Leads, check-Leads, query-Leads, bind-Leads, transact-Leads, query-IsQuiet,
  done-Leads, still-Leads, from-Leads,
}
use o_artiste.Books.Requests.{the_books, finished, with_row-Leads, either_way}
use o_artiste.Books.Resolutions.{as_is}

-- No row of the database bears the id, and the rate in force is at most the whole.
pub record IsReady (now id : ℕ) (db : Db) : Type 0 where
  pub sound : IsSound db
  pub unused : (reconcile id db.ledger).sum_kobo ≡ pos 0
  pub rated : (resolve_commission_rate now db).0 ≤ 10_000

wholes : (ts : List Tier) → All IsBand ts → All IsWhole ts
wholes [] h = tt
wholes (t ∷ ts) h = (h.0.whole_split, wholes ts h.1)

new_booking-Fits :
    (now id reference : ℕ) (cu au : User) (amount : ℕ) (window : ℕ × ℕ) (rate : ℕ)
    (tiers : List Tier) (db : Db)
    → IsReady now id db
    → rate ≤ 10_000
    → IsComplete tiers
    → Fits id (new_booking id reference cu au amount window rate tiers) db.ledger
new_booking-Fits now id reference cu au amount window rate tiers db ready rated complete =
    (refl, (rated, wholes tiers complete.bands, λ h. absurd cc), ready.unused)

insert_tx-IsSound :
    (now id reference : ℕ) (cu au : User) (amount : ℕ) (window : ℕ × ℕ) (rate : ℕ)
    (tiers : List Tier) (db : Db) {v : Booking × Db}
    → IsReady now id db
    → rate ≤ 10_000
    → IsComplete tiers
    → insert_tx (new_booking id reference cu au amount window rate tiers) db ≡ ok v
    → IsSound v.1
insert_tx-IsSound now id reference cu au amount window rate tiers db {v} ready rated complete h =
    let row = new_booking id reference cu au amount window rate tiers in
    let (same, free, bookings, ledger) = insert_tx-puts row db h in
    let fits =
      new_booking-Fits now id reference cu au amount window rate tiers db ready rated complete in
    rw (bookings, ledger)
      (put-Agree id row db.bookings db.ledger db.ledger ready.sound fits (λ j other. refl))

pub create_booking-Leads :
    (env : Env) (id reference : ℕ) (asked : NewBooking)
    → Leads (IsReady env.now id) (create_booking env id reference asked) IsSound
unfolding create_booking
create_booking-Leads env id reference asked = check-Leads Ready IsSound _ _ sound λ (amount : ℕ) _.
    check-Leads Ready IsSound _ _ sound λ (window : ℕ × ℕ) _.
      quiet-Leads Ready IsSound _ _ sound (query-IsQuiet _) λ (cu : User).
        check-Leads Ready IsSound _ _ sound λ a _. check-Leads Ready IsSound _ _ sound λ a _.
          quiet-Leads Ready IsSound _ _ sound (query-IsQuiet _) λ (artist : Artist × User).
            check-Leads Ready IsSound _ _ sound λ a _. check-Leads Ready IsSound _ _ sound λ a _.
              query-Leads Ready IsSound _ _ sound λ (rate : ℕ × Bool).
                quiet-Leads (Priced rate) IsSound _ _ (λ db p. p.0.sound) (query-IsQuiet _)
                  λ (terms : ℕ × List Tier).
                    check-Leads (Priced rate) IsSound _ _ (λ db p. p.0.sound)
                      λ a valid.
                        transact-Leads (Priced rate) IsSound env _ (λ db p. p.0.sound)
                          λ db v p h.
                            let rated : rate.0 ≤ 10_000 = rw (ok-injective p.1) at p.0.rated in
                            insert_tx-IsSound env.now id reference cu artist.1 amount window rate.0
                              terms.1 db p.0 rated (check_terms-IsComplete terms.1 valid) h
  where
    Ready : Db → Type 0
    Ready = IsReady env.now id

    sound : (db : Db) → Ready db → IsSound db
    sound db ready = ready.sound

    Priced : ℕ × Bool → Db → Type 0
    Priced rate db = Ready db × (ok (resolve_commission_rate env.now db) ≡ ok rate)

acknowledged-Keeps : (now : ℕ) → Keeps (acknowledged_data now)
acknowledged-Keeps now b = (refl, refl, refl, refl, refl, refl)

pub acknowledge_terms-Leads :
    (env : Env) (booking_id client_user_id : ℕ) (accepted : Bool) (displayed : Option (List Tier))
    → Leads IsSound (acknowledge_terms env booking_id client_user_id accepted displayed) IsSound
unfolding acknowledge_terms acknowledge_now
acknowledge_terms-Leads env booking_id client_user_id accepted displayed =
    check-Leads IsSound IsSound _ _ as_is λ a _. with_row-Leads booking_id _ λ b.
      check-Leads (Read b) IsSound _ _ (the_books b) λ a _.
        check-Leads (Read b) IsSound _ _ (the_books b) λ a _.
          either_way (Read b) (is_some b.acknowledged_at) _ _
            (λ h. done-Leads (Read b) IsSound _ (the_books b))
            (λ h. check-Leads (Read b) IsSound _ _ (the_books b) λ a _.
              transact-Leads (Read b) IsSound env _ (the_books b) λ db v read h.
                amend-IsSound b.id (acknowledged_data env.now) db read.0
                  (acknowledged-Keeps env.now) h)

escrow_tx-IsSound :
    (b : Booking) (escrow_id : ℕ) (db : Db) {r : Booking × Db}
    → Read b db
    → amend b.id (escrow_data escrow_id) db ≡ ok r
    → IsSound r.1
unfolding amend find_booking
escrow_tx-IsSound b escrow_id db {r} read h =
    let next = escrow_data escrow_id b in
    let same : ok (next, record db { bookings = put b.id next db.bookings }) ≡ ok r =
      rw (amend, find_booking, read.1) at h in
    let (id, terms, sum) = read.0 b.id b read.1 in
    let fits : Fits b.id next db.ledger = (refl, (terms.0, terms.1, λ held. refl), sum) in
    rw (← ok-injective same)
      (put-Agree b.id next db.bookings db.ledger db.ledger read.0 fits (λ j other. refl))

call-IsQuiet : {A : Type 0} (answer : Option A) (e : Effect) → IsQuiet (call answer e)
unfolding call
call-IsQuiet none e w = refl
call-IsQuiet (some a) e w = refl

with_checkout_session-IsQuiet :
    (answers : Answers) (escrow_id : ℕ) (b : Booking)
    → IsQuiet (with_checkout_session answers escrow_id b)
unfolding with_checkout_session
with_checkout_session-IsQuiet answers escrow_id b w = elim (Option-cases answers.session) [
  | inl e ↦ rw e refl
  | inr (s, e) ↦ rw e refl
]

open_now-Leads :
    (env : Env) (answers : Answers) (b : Booking) → Leads (Read b) (open_now env answers b) IsSound
unfolding open_now
open_now-Leads env answers b = check-Leads (Read b) IsSound _ _ (the_books b) λ (payer : ℕ) _.
    check-Leads (Read b) IsSound _ _ (the_books b) λ (beneficiary : ℕ) _.
      quiet-Leads (Read b) IsSound _ _ (the_books b) (call-IsQuiet _ _) λ (escrow_id : ℕ).
        quiet-Leads (Read b) IsSound _ _ (the_books b) (call-IsQuiet _ _) λ (status : ℕ).
          quiet-Leads (Read b) IsSound _ _ (the_books b) (call-IsQuiet _ _) λ (session : Session).
            bind-Leads (Read b) IsSound _ _
              (transact-Leads (Read b) IsSound env _ (the_books b)
                λ db v read h. escrow_tx-IsSound b escrow_id db read h)
              λ (updated : Booking). finished _

pub create_escrow-Leads :
    (env : Env) (answers : Answers) (booking_id client_user_id : ℕ)
    → Leads IsSound (create_escrow env answers booking_id client_user_id) IsSound
unfolding create_escrow
create_escrow-Leads env answers booking_id client_user_id = with_row-Leads booking_id _ λ b.
    check-Leads (Read b) IsSound _ _ (the_books b) λ a _.
      check-Leads (Read b) IsSound _ _ (the_books b) λ a _.
        quiet-Leads (Read b) IsSound _ _ (the_books b) (query-IsQuiet _) λ (cu : User).
          check-Leads (Read b) IsSound _ _ (the_books b) λ a _.
            quiet-Leads (Read b) IsSound _ _ (the_books b) (query-IsQuiet _) λ (au : User).
              check-Leads (Read b) IsSound _ _ (the_books b)
                λ a _. check-Leads (Read b) IsSound _ _ (the_books b) λ a _. opened b b.escrow_id
  where
    opened :
        (b : Booking) (escrow : Option ℕ)
        → Leads
            (Read b)
            (elim escrow [
              | some escrow_id ↦ with_checkout_session answers escrow_id b
              | none ↦ open_now env answers b
            ])
            IsSound
    opened b none = open_now-Leads env answers b
    opened b (some escrow_id) =
        from-Leads IsSound (Read b) IsSound _ (the_books b)
          (still-Leads IsSound _ (with_checkout_session-IsQuiet answers escrow_id b))
