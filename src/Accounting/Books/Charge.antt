-- ===== src/Accounting/Books/Charge.antt =====
-- Settling a reservation, of a request or of a contract, keeps the books.
use quiblyx.Common.{
  ℕ, ◌≤◌, ◌≡◌, refl, subst, >>=-eq-ok, some, List, [], ◌∷◌, arith, ◌==◌, ==_iff, &&_true, All,
  All-map, All-update, All-zip, Distinct-update, only_row, ok,
}
use quiblyx.Model.{Db, Budget, Reservation, ContractReservation, SpendContract}
use quiblyx.Accounting.Settlement.{Usage, charge, settle_all, budget_at}
use quiblyx.Accounting.Closing.{release_escrow, close_all}
use quiblyx.Accounting.Settlement.Rounds.{settle_reservation-IsCharged}
use quiblyx.Accounting.Closing.Rounds.{close_reservation-IsEscrowReleased}
use quiblyx.Accounting.Books.{IsExplained, AreBooked}

-- The budget of a reservation is the only row with its identifier.
budget_at-only :
    (db : Db) (t i n : ℕ) (b : Budget)
    → AreBooked db
    → budget_at db t i ≡ some b
    → n ≤ b.reserved
    → All (λ x. x.id ≡ i → n ≤ x.reserved) db.budgets
budget_at-only db t i n b h e covered =
    All-map _ _ db.budgets (λ x same k. rw (same k) covered)
      (only_row (λ x. x.id) _ i db.budgets b
        (λ x p. (==_iff x.id i).0 (&&_true _ (x.tenant_id == t) p).0) h.distinct e)

charge-AreBooked :
    (t q : ℕ) (r : Reservation) (actual : ℕ) (b : Budget) (db : Db)
    → AreBooked db
    → budget_at db t r.budget_id ≡ some b
    → actual ≤ r.amount
    → r.amount ≤ b.reserved
    → AreBooked (charge t q r actual db)
unfolding charge
charge-AreBooked t q r actual b db h e fits covered = record {
  distinct = Distinct-update (λ x. x.id) _ _ db.budgets (λ x. refl) h.distinct;
  audited =
      All-update (λ x. IsExplained db x × (x.id ≡ r.budget_id → r.amount ≤ x.reserved)) _
        (λ x. x.id == r.budget_id) _ db.budgets (λ x k. ground (arith, k.1))
        (All-zip _ _ db.budgets h.audited (budget_at-only db t r.budget_id r.amount b h e covered));
}

release_escrow-AreBooked :
    (t : ℕ) (c : SpendContract) (r : ContractReservation) (actual : ℕ) (b : Budget) (db : Db)
    → AreBooked db
    → budget_at db t r.budget_id ≡ some b
    → actual ≤ r.amount
    → r.amount ≤ b.reserved
    → AreBooked (release_escrow t c r actual db)
unfolding release_escrow
release_escrow-AreBooked t c r actual b db h e fits covered = record {
  distinct = Distinct-update (λ x. x.id) _ _ db.budgets (λ x. refl) h.distinct;
  audited =
      All-update (λ x. IsExplained db x × (x.id ≡ r.budget_id → r.amount ≤ x.reserved)) _
        (λ x. x.id == r.budget_id) _ db.budgets (λ x k. ground (arith, k.1))
        (All-zip _ _ db.budgets h.audited (budget_at-only db t r.budget_id r.amount b h e covered));
}

pub settle_all-AreBooked :
    (t q cost bound : ℕ) (u : Usage) (rs : List Reservation) (db db' : Db)
    → AreBooked db
    → settle_all t q cost bound u rs db ≡ ok db'
    → AreBooked db'
unfolding settle_all
settle_all-AreBooked t q cost bound u [] db db' h e = subst AreBooked (ground arith) h
settle_all-AreBooked t q cost bound u (r ∷ rs) db db' h e =
    let (mid, e1, rest) = >>=-eq-ok _ _ e in
    let round = settle_reservation-IsCharged t q cost bound u r db mid e1 in
    settle_all-AreBooked t q cost bound u rs mid db'
      (rw round.result (
        charge-AreBooked t q r round.actual round.budget db h round.found round.fits round.covered))
      rest

pub close_all-AreBooked :
    (t : ℕ) (c : SpendContract) (rs : List ContractReservation) (db db' : Db)
    → AreBooked db
    → close_all t c rs db ≡ ok db'
    → AreBooked db'
unfolding close_all
close_all-AreBooked t c [] db db' h e = subst AreBooked (ground arith) h
close_all-AreBooked t c (r ∷ rs) db db' h e =
    let (mid, e1, rest) = >>=-eq-ok _ _ e in
    let round = close_reservation-IsEscrowReleased t c r db mid e1 in
    close_all-AreBooked t c rs mid db'
      (rw round.result
        (release_escrow-AreBooked t c r _ round.budget db h round.found round.fits round.covered))
      rest
