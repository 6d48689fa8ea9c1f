-- ===== src/Accounting/Contracts/Limits/Calls.antt =====
-- Every call of packages/domain/accounting.py keeps every contract within its maximum.
use quiblyx.Common.{
  scalar, ℕ, ◌≡◌, refl, ◌∙◌, ap, inl, inr, false, Option, List, [], ◌∷◌, contains, map, arith,
  String, ℤ, ok,
}
use quiblyx.Model.{Db, transaction-keeps, Request, RequestState, ContractState}
use quiblyx.Chat.{Payload}
use quiblyx.Accounting.Clock.{Clock, month, today}
use quiblyx.Accounting.Budgets.{active_budgets}
use quiblyx.Accounting.Admission.{admit}
use quiblyx.Accounting.Admission.Cases.{admit-keeps}
use quiblyx.Accounting.Settlement.{
  settle_budgets, Usage, transition, transition_body, finish_request,
}
use quiblyx.Accounting.Settlement.Rounds.{within-eq-ok}
use quiblyx.Accounting.Contracts.{Claims, Step, allocated, admit_contract, allocate, is_contract}
use quiblyx.Accounting.Creation.{
  Envelope, envelope_bounds, new_contract, create_contract_body, create_spend_contract,
}
use quiblyx.Accounting.Contracts.Cases.{create_contract_body-cases, admit_contract-keeps}
use quiblyx.Accounting.Contracts.Limits.{
  AreCapped, capped_frame, check_capacity-IsCapped, settled_contract-IsCapped,
  update_contract-AreCapped,
}
use quiblyx.Accounting.Closing.{
  settle, settle_body, settle_contract_request, settled_contract, step_tokens, close_spend_contract,
  finish_contract,
}
use quiblyx.Accounting.Closing.Cases.{
  settle_body-keeps, settle_contract_request-cases, settle_budgets-cases, contract_of-found,
}
use quiblyx.Accounting.Closing.Closures.{close-keeps}
use quiblyx.Accounting.Frames.{
  reserve_all-frame, reserve_contract-frame, settle_all-frame, close_all-frame,
}
use quiblyx.Accounting.Calls.{Call, after, run, IsFreshCall, AreFreshCalls}

admit-AreCapped :
    (digest : Payload → String) (clock : Clock) (uid t k a : ℕ) (idem : String) (p : Payload)
    (z : ℤ) (token_bound : Option ℕ) (db : Db)
    → AreCapped db
    → AreCapped (admit digest clock uid t k a idem p z token_bound db).1
admit-AreCapped digest clock uid t k a idem p z token_bound db h =
    admit-keeps AreCapped digest clock uid t k a idem p z token_bound db h λ n x db' fresh.
      capped_frame db db'
        (ap (λ d. d.contracts) (fresh.result ∙ reserve_all-frame t uid _ fresh.budgets _)) h

transition-AreCapped :
    (t q : ℕ) (state : RequestState) (db : Db)
    → AreCapped db
    → AreCapped (transition t q state db).1
unfolding transition transition_body
transition-AreCapped t q state db h =
    transaction-keeps AreCapped (transition_body t q state) db h
      (λ _ db' e. capped_frame db db' (ground arith) h)

settle_contract_request-AreCapped :
    (req : Request) (u : Usage) (db db' : Db)
    → AreCapped db
    → settle_contract_request req u db ≡ ok (tt, db')
    → AreCapped db'
unfolding finish_request
settle_contract_request-AreCapped req u db db' h e =
    elim (settle_contract_request-cases req u db db' e) [
      | inl (_, same) ↦ rw same h
      | inr s ↦
          let (i, _, found) = contract_of-found db req s.contract s.found_contract in
          update_contract-AreCapped db db' req.tenant_id i s.contract
            (settled_contract s.allocation u s.cost s.spent) h found (λ x. ground arith)
            (settled_contract-IsCapped s.allocation u s.cost s.spent
              (step_tokens u req.bound s.allocation.token_bound) s.contract
              (within-eq-ok _ _ _ _ s.in_bound).1 s.tokens_fit s.cost_covered s.tokens_covered
              s.spent_tokens)
            (ap (λ d. d.contracts) s.result)
    ]

settle_budgets-AreCapped :
    (t q : ℕ) (req : Request) (u : Usage) (db db' : Db)
    → AreCapped db
    → settle_budgets t q req u db ≡ ok (tt, db')
    → AreCapped db'
unfolding finish_request
settle_budgets-AreCapped t q req u db db' h e = elim (settle_budgets-cases t q req u db db' e) [
  | inl (_, same) ↦ rw same h
  | inr s ↦
      capped_frame db db'
        (ap (λ d. d.contracts) s.result
          ∙ ap (λ d. d.contracts) (settle_all-frame t q s.cost req.bound u _ db s.charged s.rounds))
        h
]

settle-AreCapped : (t q : ℕ) (u : Usage) (db : Db) → AreCapped db → AreCapped (settle t q u db).1
unfolding settle
settle-AreCapped t q u db h = transaction-keeps AreCapped (settle_body t q u) db h λ _ db' e.
    settle_body-keeps AreCapped t q u db db' e
      (λ req _. settle_contract_request-AreCapped req u db db' h)
      (λ req _. settle_budgets-AreCapped t q req u db db' h)

create_spend_contract-AreCapped :
    (clock : Clock) (uid t a k : ℕ) (env : Envelope) (db : Db)
    → contains uid (map (λ c. c.id) db.contracts) ≡ false
    → AreCapped db
    → AreCapped (create_spend_contract clock uid t a k env db).1
unfolding create_spend_contract
create_spend_contract-AreCapped clock uid t a k env db unused h =
    transaction-keeps AreCapped (create_contract_body clock uid t a k env) db h λ x db' e.
      let made = create_contract_body-cases clock uid t a k env x db db' e in
      let added = record db { contracts = new_contract uid t a k env ∷ db.contracts } in
      capped_frame added db'
        (ap (λ d. d.contracts)
          (made.result
            ∙ reserve_contract-frame t uid (envelope_bounds env)
                (active_budgets db t (t ∷ a ∷ made.path) (month clock) (today clock)) added))
        (record { distinct = (unused, h.distinct); capped = (omega arith, h.capped) })

admit_contract-AreCapped :
    (digest : Payload → String) (clock : Clock) (uid : ℕ) (claims : Claims) (idem : String)
    (p : Payload) (st : Step) (db : Db)
    → AreCapped db
    → AreCapped (admit_contract digest clock uid claims idem p st db).1
unfolding allocate
admit_contract-AreCapped digest clock uid claims idem p st db h =
    admit_contract-keeps AreCapped digest clock uid claims idem p st db h λ x db' made.
      update_contract-AreCapped db db' claims.tenant_id claims.sub made.contract (allocated st) h
        made.found (λ x. refl) (λ _. check_capacity-IsCapped st made.contract made.capacity)
        (ap (λ d. d.contracts) made.result)

close_spend_contract-AreCapped :
    (clock : Clock) (t i : ℕ) (state : ContractState) (db : Db)
    → AreCapped db
    → AreCapped (close_spend_contract clock t i state db).1
unfolding finish_contract
close_spend_contract-AreCapped clock t i state db h =
    close-keeps AreCapped clock t i state db h λ db' closed.
      let same =
        ap (λ d. d.contracts)
          (close_all-frame t closed.contract _ db closed.released closed.rounds) in
      update_contract-AreCapped closed.released db' t i closed.contract _
        (capped_frame db closed.released same h) (ap (scalar (is_contract t i)) same ∙ closed.found)
        (λ x. refl) (λ k. omega (arith, k.cost, k.tokens, k.steps))
        (ap (λ d. d.contracts) closed.result)

-- A call keeps every contract within its maximum, if the identifier that it draws is new.
pub after-AreCapped :
    (digest : Payload → String) (c : Call) (db : Db)
    → IsFreshCall c db
    → AreCapped db
    → AreCapped (after digest c db)
unfolding after
after-AreCapped digest (Call.admits clock uid t k a idem p b tb) db n h =
    admit-AreCapped digest clock uid t k a idem p b tb db h
after-AreCapped digest (Call.transitions t q state) db n h = transition-AreCapped t q state db h
after-AreCapped digest (Call.settles t q u) db n h = settle-AreCapped t q u db h
after-AreCapped digest (Call.creates_contract clock uid t a k e) db n h =
    create_spend_contract-AreCapped clock uid t a k e db n h
after-AreCapped digest (Call.admits_step clock uid claims idem p st) db n h =
    admit_contract-AreCapped digest clock uid claims idem p st db h
after-AreCapped digest (Call.closes_contract clock t i state) db n h =
    close_spend_contract-AreCapped clock t i state db h

-- Whatever calls are made in whatever order, every contract stays within its envelope: spent and
-- outstanding cost within the maximum cost, spent and outstanding tokens within the maximum
-- tokens, and started steps within the maximum steps. Each call must draw an identifier that is
-- not in use, and the contracts must be within their envelopes, under distinct identifiers, at
-- the start.
pub run-AreCapped :
    (digest : Payload → String) (cs : List Call) (db : Db)
    → AreFreshCalls digest cs db
    → AreCapped db
    → AreCapped (run digest cs db)
unfolding run
run-AreCapped digest [] db n h = h
run-AreCapped digest (c ∷ cs) db n h =
    run-AreCapped digest cs _ n.1 (after-AreCapped digest c db n.0 h)
