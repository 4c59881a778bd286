-- ===== src/Confirmation/Matrix.antt =====
-- The matrix of confirmationService.ts: what each outcome rests on.
use o_artiste.Prelude.{◌≡◌, ◌↔◌, true, false, arith}
use o_artiste.Confirmation.{Facts, evaluate, release_funds, refund_funds, awaiting_auto_release}

-- Money goes to the artist exactly when the client has confirmed and has not reported a no-show, and
-- back to the client exactly when a no-show is reported, nobody checked in and the client has not
-- confirmed. A booking is left to the automatic release exactly when a check-in is recorded and the
-- client has said nothing.
pub evaluate_matrix :
    (f : Facts)
    → ((evaluate f ≡ release_funds)
        ↔ ((f.client_confirmed ≡ true) × (f.client_claimed_no_show ≡ false)))
      × ((evaluate f ≡ refund_funds) ↔ (
          (f.client_confirmed ≡ false)
          × (f.client_claimed_no_show ≡ true)
          × (f.has_check_in ≡ false)))
      × ((evaluate f ≡ awaiting_auto_release) ↔ (
          (f.client_confirmed ≡ false)
          × (f.client_claimed_no_show ≡ false)
          × (f.has_check_in ≡ true)))
unfolding evaluate
evaluate_matrix f = ground arith
