-- ===== src/Accounting/Closing/Cases.antt =====
-- How `settle` (packages/domain/accounting.py) can succeed.
use quiblyx.Common.{
  ℕ, ◌≡◌, ◌⊎◌, inl, inr, true, false, Bool-cases, some, Option-cases, arith, ltb, if◌then◌else◌,
  is_some, update, ◌&&◌, ◌==◌, pos, ok, Result-cases,
}
use quiblyx.Model.{
  Db, Request, SpendContract, ContractAllocation, usage_settled, contract_step_settled,
}
use quiblyx.Accounting.Settlement.{
  Usage, request_at, within, bad_release, is_final, reservations_of, settle_all, finish_request,
  settle_budgets,
}
use quiblyx.Accounting.Contracts.{contract_at, is_contract}
use quiblyx.Accounting.Closing.{
  settle_body, allocation_at, contract_of, step_tokens, tokens_exceed, add_tokens, settled_contract,
  settled_allocation, settle_contract_request,
}

-- A request that draws on budgets is charged reservation by reservation.
pub record IsSettled (tenant request_id : ℕ) (req : Request) (u : Usage) (db db' : Db)
    : Type 0 where
  pub pending : is_final req.state ≡ false
  pub cost : ℕ
  pub charged : Db
  pub in_bound :
      within u.cost req.bound "usage outside reserved bound; reconciliation required" ≡ ok cost
  pub releasable : bad_release u req.state cost ≡ false
  pub rounds :
      settle_all tenant request_id cost req.bound u (reservations_of db tenant request_id) db
      ≡ ok charged
  pub result : db' ≡ finish_request tenant request_id cost u (usage_settled request_id) charged

pub settle_budgets-cases :
    (tenant request_id : ℕ) (req : Request) (u : Usage) (db db' : Db)
    → settle_budgets tenant request_id req u db ≡ ok (tt, db')
    → ((is_final req.state ≡ true) × (db' ≡ db)) ⊎ IsSettled tenant request_id req u db db'
unfolding settle_budgets
settle_budgets-cases t q req u db db' e = elim (Bool-cases (is_final req.state)) [
  | inl final ↦ inl (final, ground arith)
  | inr pending ↦
      elim (Result-cases
        (within u.cost req.bound "usage outside reserved bound; reconciliation required")) [
          | inl (_, refused) ↦ absurd (ground arith)
          | inr (cost, in_bound) ↦
              elim (Result-cases (settle_all t q cost req.bound u (reservations_of db t q) db)) [
                | inl (_, failed) ↦ absurd (ground arith)
                | inr (charged, rounds) ↦ inr (record {
                  pending = pending;
                  cost = cost;
                  charged = charged;
                  in_bound = in_bound;
                  releasable = ground arith;
                  rounds = rounds;
                  result = ground arith;
                })
              ]
        ]
]

-- A step of a contract is settled against its allocation.
pub record IsStepSettled (req : Request) (u : Usage) (db db' : Db) : Type 0 where
  pub pending : is_final req.state ≡ false
  pub allocation : ContractAllocation
  pub contract : SpendContract
  pub cost : ℕ
  pub spent : ℕ
  pub found_allocation : allocation_at db req.tenant_id req.id ≡ some allocation
  pub found_contract : contract_of db req ≡ some contract
  pub in_bound : within u.cost allocation.cost_bound "usage outside contract allocation" ≡ ok cost
  pub tokens_fit :
      tokens_exceed (step_tokens u req.bound allocation.token_bound) allocation.token_bound ≡ false
  pub releasable : bad_release u req.state cost ≡ false
  pub cost_covered : ltb contract.outstanding_cost allocation.cost_bound ≡ false
  pub tokens_covered : ltb contract.outstanding_tokens allocation.token_bound ≡ false
  pub spent_tokens :
      (if u.pre_dispatch
        then ok contract.spent_tokens
        else add_tokens contract.spent_tokens (step_tokens u req.bound allocation.token_bound))
      ≡ ok spent
  pub result :
      db'
      ≡ finish_request req.tenant_id req.id cost u
          (contract_step_settled contract.id req.id
            (if u.pre_dispatch then 0 else cost)
            (if u.pre_dispatch then pos 0 else step_tokens u req.bound allocation.token_bound))
          (record db {
            contracts =
                update
                  (is_contract req.tenant_id contract.id)
                  (settled_contract allocation u cost spent)
                  db.contracts;
            allocations =
                update
                  (λ x. (x.tenant_id == req.tenant_id) && (x.request_id == req.id))
                  (settled_allocation u cost (step_tokens u req.bound allocation.token_bound))
                  db.allocations;
          })

pub settle_contract_request-cases :
    (req : Request) (u : Usage) (db db' : Db)
    → settle_contract_request req u db ≡ ok (tt, db')
    → ((is_final req.state ≡ true) × (db' ≡ db)) ⊎ IsStepSettled req u db db'
unfolding settle_contract_request
settle_contract_request-cases req u db db' e = elim (Bool-cases (is_final req.state)) [
  | inl final ↦ inl (final, ground arith)
  | inr pending ↦ elim (Option-cases (allocation_at db req.tenant_id req.id)) [
    | inl missing ↦ absurd (ground arith)
    | inr (a, found) ↦ inr (step_settled a pending found)
  ]
]
  where
    step_settled :
        (a : ContractAllocation)
        → is_final req.state ≡ false
        → allocation_at db req.tenant_id req.id ≡ some a
        → IsStepSettled req u db db'
    step_settled a pending found = elim (Option-cases (contract_of db req)) [
      | inl missing ↦ absurd (ground arith)
      | inr (c, found_contract) ↦
          elim (Result-cases (within u.cost a.cost_bound "usage outside contract allocation")) [
            | inl (_, refused) ↦ absurd (ground arith)
            | inr (cost, in_bound) ↦
                elim (Result-cases (
                  if u.pre_dispatch
                  then ok c.spent_tokens
                  else add_tokens c.spent_tokens (step_tokens u req.bound a.token_bound))) [
                    | inl (_, negative) ↦ absurd (ground arith)
                    | inr (spent, total) ↦ record {
                      pending = pending;
                      allocation = a;
                      contract = c;
                      cost = cost;
                      spent = spent;
                      found_allocation = found;
                      found_contract = found_contract;
                      in_bound = in_bound;
                      tokens_fit = ground arith;
                      releasable = ground arith;
                      cost_covered = ground arith;
                      tokens_covered = ground arith;
                      spent_tokens = total;
                      result = ground arith;
                    }
                  ]
          ]
    ]

-- A property of the new state that both ways to settle establish.
pub settle_body-keeps {ℓ} :
    (P : Db → Type ℓ) (tenant request_id : ℕ) (u : Usage) (db db' : Db)
    → settle_body tenant request_id u db ≡ ok (tt, db')
    → ((req : Request)
        → request_at db tenant request_id ≡ some req
        → settle_contract_request req u db ≡ ok (tt, db')
        → P db')
    → ((req : Request)
        → request_at db tenant request_id ≡ some req
        → settle_budgets tenant request_id req u db ≡ ok (tt, db')
        → P db')
    → P db'
unfolding settle_body
settle_body-keeps P t q u db db' e step request = elim (Option-cases (request_at db t q)) [
  | inl missing ↦ absurd (ground arith)
  | inr (req, found) ↦ elim (Bool-cases (is_some req.contract_id)) [
    | inl bound ↦ step req found (ground arith)
    | inr free ↦ request req found (ground arith)
  ]
]

-- The contract of a request is one that its row names.
pub contract_of-found :
    (db : Db) (req : Request) (c : SpendContract)
    → contract_of db req ≡ some c
    → (i : ℕ) × (req.contract_id ≡ some i) × (contract_at db req.tenant_id i ≡ some c)
contract_of-found db req c e = elim (Option-cases req.contract_id) [
  | inl free ↦ absurd (ground arith)
  | inr (i, named) ↦ (i, named, ground arith)
]
