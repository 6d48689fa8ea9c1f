-- ===== src/Accounting/Frames.antt =====
-- The tables that the loops of packages/domain/accounting.py leave alone.
use quiblyx.Common.{ℕ, ◌≡◌, refl, ◌∙◌, ap, List, [], ◌∷◌, arith, ok, >>=-eq-ok}
use quiblyx.Model.{Db, Budget, Reservation, ContractReservation, SpendContract}
use quiblyx.Accounting.Budgets.{Bounds}
use quiblyx.Accounting.Budgets.Thresholds.{threshold_events-frame}
use quiblyx.Accounting.Admission.{reserve_budget, reserve_all}
use quiblyx.Accounting.Settlement.{Usage, charge, settle_all}
use quiblyx.Accounting.Settlement.Rounds.{settle_reservation-IsCharged}
use quiblyx.Accounting.Creation.{reserve_contract_budget, reserve_contract}
use quiblyx.Accounting.Closing.{release_escrow, close_all}
use quiblyx.Accounting.Closing.Rounds.{close_reservation-IsEscrowReleased}

-- A request's reservations are written to these four tables.
abbrev reserved_part : Db → Db → Db
reserved_part db db' = record db {
  budgets = db'.budgets;
  reservations = db'.reservations;
  ledger = db'.ledger;
  events = db'.events;
}

reserve_budget-frame :
    (t q : ℕ) (bs : Bounds) (b : Budget) (db : Db)
    → reserve_budget t q bs b db ≡ reserved_part db (reserve_budget t q bs b db)
unfolding reserve_budget
reserve_budget-frame t q bs b db = rw threshold_events-frame

pub reserve_all-frame :
    (t q : ℕ) (bs : Bounds) (active : List Budget) (db : Db)
    → reserve_all t q bs active db ≡ reserved_part db (reserve_all t q bs active db)
unfolding reserve_all
reserve_all-frame t q bs [] db = refl
reserve_all-frame t q bs (b ∷ active) db =
    let mid = reserve_budget t q bs b db in
    reserve_all-frame t q bs active mid
    ∙ ap (λ d. reserved_part d (reserve_all t q bs active mid)) (reserve_budget-frame t q bs b db)

abbrev settled_part : Db → Db → Db
settled_part db db' = record db {
  budgets = db'.budgets;
  reservations = db'.reservations;
  ledger = db'.ledger;
}

pub settle_all-frame :
    (t q cost bound : ℕ) (u : Usage) (rs : List Reservation) (db db' : Db)
    → settle_all t q cost bound u rs db ≡ ok db'
    → db' ≡ settled_part db db'
unfolding settle_all charge
settle_all-frame t q cost bound u [] db db' e = ground arith
settle_all-frame t q cost bound u (r ∷ rs) db db' e =
    let (mid, e1, rest) = >>=-eq-ok _ _ e in
    let round = settle_reservation-IsCharged t q cost bound u r db mid e1 in
    settle_all-frame t q cost bound u rs mid db' rest ∙ ap (λ d. settled_part d db') round.result

abbrev escrow_part : Db → Db → Db
escrow_part db db' = record db {
  budgets = db'.budgets;
  contract_reservations = db'.contract_reservations;
  contract_ledger = db'.contract_ledger;
}

pub close_all-frame :
    (t : ℕ) (c : SpendContract) (rs : List ContractReservation) (db db' : Db)
    → close_all t c rs db ≡ ok db'
    → db' ≡ escrow_part db db'
unfolding close_all release_escrow
close_all-frame t c [] db db' e = ground arith
close_all-frame t c (r ∷ rs) db db' e =
    let (mid, e1, rest) = >>=-eq-ok _ _ e in
    let round = close_reservation-IsEscrowReleased t c r db mid e1 in
    close_all-frame t c rs mid db' rest ∙ ap (λ d. escrow_part d db') round.result

abbrev contract_part : Db → Db → Db
contract_part db db' = record db {
  budgets = db'.budgets;
  contract_reservations = db'.contract_reservations;
  contract_ledger = db'.contract_ledger;
  events = db'.events;
}

reserve_contract_budget-frame :
    (t c : ℕ) (bs : Bounds) (b : Budget) (db : Db)
    → reserve_contract_budget t c bs b db ≡ contract_part db (reserve_contract_budget t c bs b db)
unfolding reserve_contract_budget
reserve_contract_budget-frame t c bs b db = rw threshold_events-frame

pub reserve_contract-frame :
    (t c : ℕ) (bs : Bounds) (active : List Budget) (db : Db)
    → reserve_contract t c bs active db ≡ contract_part db (reserve_contract t c bs active db)
unfolding reserve_contract
reserve_contract-frame t c bs [] db = refl
reserve_contract-frame t c bs (b ∷ active) db =
    let mid = reserve_contract_budget t c bs b db in
    reserve_contract-frame t c bs active mid
    ∙ ap (λ d. contract_part d (reserve_contract t c bs active mid))
        (reserve_contract_budget-frame t c bs b db)
