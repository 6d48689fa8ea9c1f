-- ===== src/Accounting/Books/Calls.antt =====
-- Every call of packages/domain/accounting.py keeps the books, and so does every history.
use quiblyx.Common.{ℕ, ◌≡◌, refl, inl, inr, Option, List, [], ◌∷◌, arith, All-map, String, ℤ, ok}
use quiblyx.Model.{
  Db, transaction-keeps, EventPayload, SpendContract, RequestState, ContractState, Request,
}
use quiblyx.Chat.{Payload}
use quiblyx.Accounting.Clock.{Clock, month, today}
use quiblyx.Accounting.Admission.{admit, request_bounds, new_request}
use quiblyx.Accounting.Settlement.{
  Usage, transition, transition_body, settle_budgets, finish_request,
}
use quiblyx.Accounting.Contracts.{Claims, Step, admit_contract, allocate}
use quiblyx.Accounting.Creation.{
  Envelope, envelope_bounds, create_contract_body, create_spend_contract, new_contract,
}
use quiblyx.Accounting.Closing.{
  contract_reservations_of, settle, settle_body, settle_contract_request, close_spend_contract,
  finish_contract,
}
use quiblyx.Accounting.Calls.{Call, after, run}
use quiblyx.Accounting.Contracts.Cases.{create_contract_body-cases, admit_contract-keeps}
use quiblyx.Accounting.Budgets.{active_budgets}
use quiblyx.Accounting.Admission.Cases.{admit-keeps}
use quiblyx.Accounting.Closing.Cases.{
  settle_body-keeps, settle_budgets-cases, settle_contract_request-cases,
}
use quiblyx.Accounting.Closing.Closures.{close-keeps}
use quiblyx.Accounting.Books.{AreBooked}
use quiblyx.Accounting.Books.Reserve.{reserve_all-AreBooked, reserve_contract-AreBooked}
use quiblyx.Accounting.Books.Charge.{settle_all-AreBooked, close_all-AreBooked}

-- Only three tables matter to the books.
books_frame :
    (db db' : Db)
    → db'.budgets ≡ db.budgets
    → db'.ledger ≡ db.ledger
    → db'.contract_ledger ≡ db.contract_ledger
    → AreBooked db
    → AreBooked db'
books_frame db db' same ledger contract_ledger h = record {
  distinct = rw same h.distinct;
  audited = rw same (All-map _ _ db.budgets (λ x e. ground arith) h.audited);
}

admit-AreBooked :
    (digest : Payload → String) (clock : Clock) (uid t k a : ℕ) (idem : String) (p : Payload)
    (bound : ℤ) (token_bound : Option ℕ) (db : Db)
    → AreBooked db
    → AreBooked (admit digest clock uid t k a idem p bound token_bound db).1
admit-AreBooked digest clock uid t k a idem p bound token_bound db h =
    admit-keeps AreBooked digest clock uid t k a idem p bound token_bound db h λ n x db' fresh.
      rw fresh.result (
        reserve_all-AreBooked t uid (request_bounds n token_bound) fresh.budgets
          (record db { requests = new_request digest clock uid t k a idem p n ∷ db.requests })
          (books_frame db _ refl refl refl h))

transition-AreBooked :
    (t q : ℕ) (state : RequestState) (db : Db)
    → AreBooked db
    → AreBooked (transition t q state db).1
unfolding transition transition_body
transition-AreBooked t q state db h =
    transaction-keeps AreBooked (transition_body t q state) db h
      (λ _ db' e. books_frame db db' (ground arith) (ground arith) (ground arith) h)

finish_request-AreBooked :
    (t q cost : ℕ) (u : Usage) (payload : EventPayload) (db : Db)
    → AreBooked db
    → AreBooked (finish_request t q cost u payload db)
unfolding finish_request
finish_request-AreBooked t q cost u payload db h = books_frame db _ refl refl refl h

settle_contract_request-AreBooked :
    (req : Request) (u : Usage) (db db' : Db)
    → AreBooked db
    → settle_contract_request req u db ≡ ok (tt, db')
    → AreBooked db'
settle_contract_request-AreBooked req u db db' h e =
    elim (settle_contract_request-cases req u db db' e) [
      | inl (_, same) ↦ rw same h
      | inr s ↦
          rw s.result (finish_request-AreBooked _ _ _ u _ _ (books_frame db _ refl refl refl h))
    ]

settle_budgets-AreBooked :
    (t q : ℕ) (req : Request) (u : Usage) (db db' : Db)
    → AreBooked db
    → settle_budgets t q req u db ≡ ok (tt, db')
    → AreBooked db'
settle_budgets-AreBooked t q req u db db' h e = elim (settle_budgets-cases t q req u db db' e) [
  | inl (_, same) ↦ rw same h
  | inr s ↦ rw s.result (
      finish_request-AreBooked t q _ u _ s.charged
        (settle_all-AreBooked t q s.cost req.bound u _ db s.charged h s.rounds))
]

settle-AreBooked : (t q : ℕ) (u : Usage) (db : Db) → AreBooked db → AreBooked (settle t q u db).1
unfolding settle
settle-AreBooked t q u db h = transaction-keeps AreBooked (settle_body t q u) db h λ _ db' e.
    settle_body-keeps AreBooked t q u db db' e
      (λ req _. settle_contract_request-AreBooked req u db db' h)
      (λ req _. settle_budgets-AreBooked t q req u db db' h)

create_spend_contract-AreBooked :
    (clock : Clock) (uid t a k : ℕ) (env : Envelope) (db : Db)
    → AreBooked db
    → AreBooked (create_spend_contract clock uid t a k env db).1
unfolding create_spend_contract
create_spend_contract-AreBooked clock uid t a k env db h =
    transaction-keeps AreBooked (create_contract_body clock uid t a k env) db h λ x db' e.
      let made = create_contract_body-cases clock uid t a k env x db db' e in
      rw made.result (
        reserve_contract-AreBooked t uid (envelope_bounds env)
          (active_budgets db t (t ∷ a ∷ made.path) (month clock) (today clock))
          (record db { contracts = new_contract uid t a k env ∷ db.contracts })
          (books_frame db _ refl refl refl h))

admit_contract-AreBooked :
    (digest : Payload → String) (clock : Clock) (uid : ℕ) (claims : Claims) (idem : String)
    (p : Payload) (st : Step) (db : Db)
    → AreBooked db
    → AreBooked (admit_contract digest clock uid claims idem p st db).1
unfolding allocate
admit_contract-AreBooked digest clock uid claims idem p st db h =
    admit_contract-keeps AreBooked digest clock uid claims idem p st db h
      λ x db' made. rw made.result (books_frame db _ refl refl refl h)

finish_contract-AreBooked :
    (clock : Clock) (t : ℕ) (c : SpendContract) (state : ContractState) (db : Db)
    → AreBooked db
    → AreBooked (finish_contract clock t c state db)
unfolding finish_contract
finish_contract-AreBooked clock t c state db h = books_frame db _ refl refl refl h

close_spend_contract-AreBooked :
    (clock : Clock) (t i : ℕ) (state : ContractState) (db : Db)
    → AreBooked db
    → AreBooked (close_spend_contract clock t i state db).1
close_spend_contract-AreBooked clock t i state db h =
    close-keeps AreBooked clock t i state db h λ db' closed. rw closed.result (
      finish_contract-AreBooked clock t closed.contract _ closed.released (
        close_all-AreBooked t closed.contract (contract_reservations_of db t i) db closed.released h
          closed.rounds))

-- A call keeps the books, whether it succeeds or is refused.
pub after-AreBooked :
    (digest : Payload → String) (c : Call) (db : Db) → AreBooked db → AreBooked (after digest c db)
unfolding after
after-AreBooked digest (Call.admits clock uid t k a idem p b tb) db h =
    admit-AreBooked digest clock uid t k a idem p b tb db h
after-AreBooked digest (Call.transitions t q state) db h = transition-AreBooked t q state db h
after-AreBooked digest (Call.settles t q u) db h = settle-AreBooked t q u db h
after-AreBooked digest (Call.creates_contract clock uid t a k e) db h =
    create_spend_contract-AreBooked clock uid t a k e db h
after-AreBooked digest (Call.admits_step clock uid claims idem p st) db h =
    admit_contract-AreBooked digest clock uid claims idem p st db h
after-AreBooked digest (Call.closes_contract clock t i state) db h =
    close_spend_contract-AreBooked clock t i state db h

-- Whatever calls are made in whatever order, with whatever outcome, every budget is explained by
-- the two ledgers: it has spent what they settled, and reserved, settled and released amounts sum
-- to what they reserved. Budgets must have distinct identifiers and be explained at the start.
pub run-AreBooked :
    (digest : Payload → String) (cs : List Call) (db : Db)
    → AreBooked db
    → AreBooked (run digest cs db)
unfolding run
run-AreBooked digest [] db h = h
run-AreBooked digest (c ∷ cs) db h = run-AreBooked digest cs _ (after-AreBooked digest c db h)
