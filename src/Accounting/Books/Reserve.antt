-- ===== src/Accounting/Books/Reserve.antt =====
-- Reserving on budgets keeps the books, for a request and for a contract.
use quiblyx.Common.{ℕ, refl, List, [], ◌∷◌, arith, ◌==◌, All-update, Distinct-update}
use quiblyx.Model.{Db, Budget}
use quiblyx.Accounting.Budgets.{Bounds}
use quiblyx.Accounting.Budgets.Thresholds.{threshold_events-frame}
use quiblyx.Accounting.Admission.{reserve_budget, reserve_all}
use quiblyx.Accounting.Creation.{reserve_contract_budget, reserve_contract}
use quiblyx.Accounting.Books.{IsExplained, AreBooked}

reserve_budget-AreBooked :
    (t r : ℕ) (bs : Bounds) (b : Budget) (db : Db)
    → AreBooked db
    → AreBooked (reserve_budget t r bs b db)
unfolding reserve_budget
reserve_budget-AreBooked t r bs b db h = rw (threshold_events-frame) (record {
  distinct = Distinct-update (λ x. x.id) _ _ db.budgets (λ x. refl) h.distinct;
  audited =
      All-update (IsExplained db) _ (λ x. x.id == b.id) _ db.budgets (λ x e. ground arith)
        h.audited;
})

pub reserve_all-AreBooked :
    (t r : ℕ) (bs : Bounds) (rest : List Budget) (db : Db)
    → AreBooked db
    → AreBooked (reserve_all t r bs rest db)
unfolding reserve_all
reserve_all-AreBooked t r bs [] db h = h
reserve_all-AreBooked t r bs (b ∷ rest) db h =
    reserve_all-AreBooked t r bs rest _ (reserve_budget-AreBooked t r bs b db h)

reserve_contract_budget-AreBooked :
    (t c : ℕ) (bs : Bounds) (b : Budget) (db : Db)
    → AreBooked db
    → AreBooked (reserve_contract_budget t c bs b db)
unfolding reserve_contract_budget
reserve_contract_budget-AreBooked t c bs b db h = rw (threshold_events-frame) (record {
  distinct = Distinct-update (λ x. x.id) _ _ db.budgets (λ x. refl) h.distinct;
  audited =
      All-update (IsExplained db) _ (λ x. x.id == b.id) _ db.budgets (λ x e. ground arith)
        h.audited;
})

pub reserve_contract-AreBooked :
    (t c : ℕ) (bs : Bounds) (rest : List Budget) (db : Db)
    → AreBooked db
    → AreBooked (reserve_contract t c bs rest db)
unfolding reserve_contract
reserve_contract-AreBooked t c bs [] db h = h
reserve_contract-AreBooked t c bs (b ∷ rest) db h =
    reserve_contract-AreBooked t c bs rest _ (reserve_contract_budget-AreBooked t c bs b db h)
