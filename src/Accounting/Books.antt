-- ===== src/Accounting/Books.antt =====
-- What the ledgers and the reservations say of a budget, for the functions of
-- packages/domain/accounting.py: the two invariants that every one of them keeps.
pub mod Reserve
pub mod Calls
pub mod Charge
use quiblyx.Common.{
  ℕ, ◌+◌, ◌≡◌, Bool, true, false, not, ◌&&◌, List, ◌==◌, if◌then◌else◌, sum_by, All, Distinct, map,
}
use quiblyx.Model.{
  Db, Budget, Reservation, ContractReservation, Ledger, ContractLedger, LedgerEvent,
}

abbrev pub event_eq : LedgerEvent → LedgerEvent → Bool
event_eq LedgerEvent.reserve LedgerEvent.reserve = true
event_eq LedgerEvent.settle LedgerEvent.settle = true
event_eq LedgerEvent.release LedgerEvent.release = true
event_eq _ _ = false

-- The sum of the entries of one event for one budget, in both ledgers.
abbrev pub booked : LedgerEvent → ℕ → Db → ℕ
booked ev i db =
    sum_by (λ l. if (l.budget_id == i) && event_eq l.event ev then l.amount else 0) db.ledger
    + sum_by (λ l. if (l.budget_id == i) && event_eq l.event ev then l.amount else 0)
        db.contract_ledger

-- The ledgers explain a budget: what was settled is what is spent, and what was reserved is what
-- is still reserved, settled or released.
pub record IsExplained (db : Db) (b : Budget) : Type 0 where
  pub spent_settled : b.spent ≡ booked LedgerEvent.settle b.id db
  pub reserved_open :
      b.reserved + booked LedgerEvent.settle b.id db + booked LedgerEvent.release b.id db
      ≡ booked LedgerEvent.reserve b.id db

-- The budgets' identifiers are a primary key, and the ledgers explain every budget.
pub record AreBooked (db : Db) : Type 0 where
  pub distinct : Distinct (map (λ b. b.id) db.budgets)
  pub audited : All (IsExplained db) db.budgets
