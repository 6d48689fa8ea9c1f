-- ===== src/Accounting/Settlement/Rounds.antt =====
-- What a successful round of the loop in `settle` (packages/domain/accounting.py) has checked.
use quiblyx.Common.{
  ℕ, ◌≤◌, ◌≡◌, some, arith, ltb_false→le, ℤ, pos, negsuc, String, ok, >>=-eq-ok, or_raise-eq-ok,
  raise_if-eq-ok,
}
use quiblyx.Model.{Db, Budget, Reservation}
use quiblyx.Accounting.Settlement.{
  Usage, within, actual_usage, budget_at, charge, settle_reservation,
}

-- A signed amount passes exactly if it lies between 0 and the limit.
pub within-eq-ok :
    (z : ℤ) (limit : ℕ) (d : String) (n : ℕ) → within z limit d ≡ ok n → (z ≡ pos n) × (n ≤ limit)
unfolding within
within-eq-ok (pos m) limit d n e = ground arith
within-eq-ok (negsuc m) limit d n e = cc

-- The budget that a reservation draws on covers it, and is charged no more than was reserved.
pub record IsCharged (t q cost bound : ℕ) (u : Usage) (r : Reservation) (db db' : Db) : Type 0 where
  pub budget : Budget
  pub actual : ℕ
  pub found : budget_at db t r.budget_id ≡ some budget
  pub usage : actual_usage cost bound u budget.unit r.amount ≡ pos actual
  pub fits : actual ≤ r.amount
  pub covered : r.amount ≤ budget.reserved
  pub result : db' ≡ charge t q r actual db

pub settle_reservation-IsCharged :
    (t q cost bound : ℕ) (u : Usage) (r : Reservation) (db db' : Db)
    → settle_reservation t q cost bound u r db ≡ ok db'
    → IsCharged t q cost bound u r db db'
unfolding settle_reservation
settle_reservation-IsCharged t q cost bound u r db db' e =
    let (b, e1, k1) = >>=-eq-ok _ _ e in
    let (n, e2, k2) = >>=-eq-ok _ _ k1 in
    let (_, e3, k3) = >>=-eq-ok _ _ k2 in
    let (usage, fits) = within-eq-ok _ _ _ _ e2 in
    record {
      budget = b;
      actual = n;
      found = or_raise-eq-ok _ _ e1;
      usage = usage;
      fits = fits;
      covered = ltb_false→le _ _ (raise_if-eq-ok _ _ e3);
      result = ground arith;
    }
