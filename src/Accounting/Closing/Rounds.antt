-- ===== src/Accounting/Closing/Rounds.antt =====
-- What a successful round of the loop in `close_spend_contract` (packages/domain/accounting.py)
-- has checked.
use quiblyx.Common.{
  ℕ, ◌≤◌, ◌≡◌, some, arith, ltb_false→le, ok, >>=-eq-ok, or_raise-eq-ok, raise_if-eq-ok,
}
use quiblyx.Model.{Db, Budget, SpendContract, ContractReservation}
use quiblyx.Accounting.Budgets.{bound_of}
use quiblyx.Accounting.Settlement.{budget_at}
use quiblyx.Accounting.Closing.{actuals, release_escrow, close_reservation}

-- The budget of a reservation covers it, and the contract used no more than was reserved.
pub record IsEscrowReleased (t : ℕ) (c : SpendContract) (r : ContractReservation) (db db' : Db)
    : Type 0 where
  pub budget : Budget
  pub found : budget_at db t r.budget_id ≡ some budget
  pub fits : bound_of (actuals c) budget.unit ≤ r.amount
  pub covered : r.amount ≤ budget.reserved
  pub result : db' ≡ release_escrow t c r (bound_of (actuals c) budget.unit) db

pub close_reservation-IsEscrowReleased :
    (t : ℕ) (c : SpendContract) (r : ContractReservation) (db db' : Db)
    → close_reservation t c r db ≡ ok db'
    → IsEscrowReleased t c r db db'
unfolding close_reservation
close_reservation-IsEscrowReleased t c r db db' e =
    let (b, e1, k1) = >>=-eq-ok _ _ e in
    let (_, e2, k2) = >>=-eq-ok _ _ k1 in
    let (_, e3, k3) = >>=-eq-ok _ _ k2 in
    record {
      budget = b;
      found = or_raise-eq-ok _ _ e1;
      fits = ltb_false→le _ _ (raise_if-eq-ok _ _ e2);
      covered = ltb_false→le _ _ (raise_if-eq-ok _ _ e3);
      result = ground arith;
    }
