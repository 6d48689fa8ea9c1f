-- ===== src/Accounting/Closing.antt =====
-- packages/domain/accounting.py, `settle_contract_request`, `settle` as a whole, and
-- `close_spend_contract`.
pub mod Rounds
pub mod Cases
pub mod Closures
pub mod Completion
use quiblyx.Common.{
  length, ℕ, ◌+◌, ◌-◌, Bool, true, false, not, ◌&&◌, ◌||◌, Option, none, some, List, [], ◌∷◌, ltb,
  ◌==◌, if◌then◌else◌, is_some, scalar, select, update, ℤ, pos, negsuc, ◌+ℤ◌, Result, ok, err, http,
  value_error, integrity_error, key_error, ◌>>=◌, ◌>>◌, raise_if, or_raise,
}
use quiblyx.Model.{
  Db, transaction, Request, SpendContract, ContractState, ContractReservation, ContractLedger,
  ContractAllocation, AllocationState, LedgerEvent, contract_step_settled, contract_closed,
}
use quiblyx.Accounting.Clock.{Clock}
use quiblyx.Accounting.Budgets.{Bounds, bound_of}
use quiblyx.Accounting.Settlement.{
  Usage, within, is_conservative, is_final, bad_release, request_at, budget_at, finish_request,
  settle_budgets,
}
use quiblyx.Accounting.Contracts.{contract_at, is_contract}

abbrev pub allocation_at : Db → ℕ → ℕ → Option ContractAllocation
allocation_at db tenant request_id =
    scalar (λ a. (a.tenant_id == tenant) && (a.request_id == request_id)) db.allocations

-- `cost == request.bound and response is None and not pre_dispatch`
abbrev pub conservative_step : ℤ → ℕ → Usage → Bool
conservative_step (pos n) bound u = is_conservative n bound u && not u.pre_dispatch
conservative_step (negsuc n) bound u = false

unfoldable pub step_tokens : Usage → ℕ → ℕ → ℤ
unfolding ◌+ℤ◌
step_tokens u bound token_bound =
    if conservative_step u.cost bound u then pos token_bound else u.input_tokens +ℤ u.output_tokens

-- `actual_tokens > token_bound` is refused; a negative number of tokens is not.
abbrev pub tokens_exceed : ℤ → ℕ → Bool
tokens_exceed (pos n) limit = ltb limit n
tokens_exceed (negsuc n) limit = false

-- `spent_tokens += actual_tokens`, which the CHECK constraint keeps from falling below zero.
abbrev pub add_tokens : ℕ → ℤ → Result ℕ
add_tokens spent (pos n) = ok (spent + n)
add_tokens spent (negsuc n) =
    if ltb spent (n + 1) then err integrity_error else ok (spent - (n + 1))

-- The contract's row after the settlement of a step.
abbrev pub settled_contract :
    ContractAllocation → Usage → (cost spent_tokens : ℕ) → SpendContract → SpendContract
settled_contract a u cost spent_tokens c =
    if u.pre_dispatch
    then record c {
      outstanding_cost = c.outstanding_cost - a.cost_bound;
      outstanding_tokens = c.outstanding_tokens - a.token_bound;
    }
    else record c {
      outstanding_cost = c.outstanding_cost - a.cost_bound;
      outstanding_tokens = c.outstanding_tokens - a.token_bound;
      spent_cost = c.spent_cost + cost;
      spent_tokens = spent_tokens;
      steps_completed = c.steps_completed + 1;
    }

abbrev pub settled_allocation : Usage → ℕ → ℤ → ContractAllocation → ContractAllocation
settled_allocation u cost tokens a = record a {
  actual_cost = some (if u.pre_dispatch then 0 else cost);
  actual_tokens = some (if u.pre_dispatch then pos 0 else tokens);
  state = if u.pre_dispatch then AllocationState.released else AllocationState.completed;
}

abbrev pub contract_of : Db → Request → Option SpendContract
contract_of db req = elim req.contract_id [
  | some contract_id ↦ contract_at db req.tenant_id contract_id
  | none ↦ none
]

-- `req` is the row as it was read before the contract's lock; the source does not read it again.
unfoldable pub settle_contract_request : Request → Usage → Db → Result (Unit {0} × Db)
unfolding within step_tokens finish_request
settle_contract_request req u db = if is_final req.state then ok (tt, db) else do
  a ← or_raise (allocation_at db req.tenant_id req.id) (value_error "missing contract allocation")
  c ← or_raise (contract_of db req) (value_error "missing contract allocation")
  let tokens = step_tokens u req.bound a.token_bound
  cost ← within u.cost a.cost_bound "usage outside contract allocation"
  raise_if (tokens_exceed tokens a.token_bound) (value_error "usage outside contract allocation")
  raise_if (bad_release u req.state cost) (value_error "cannot release dispatched contract usage")
  raise_if (ltb c.outstanding_cost a.cost_bound || ltb c.outstanding_tokens a.token_bound)
      integrity_error
  spent ← (if u.pre_dispatch then ok c.spent_tokens else add_tokens c.spent_tokens tokens)
  let charged = if u.pre_dispatch then 0 else cost
  let used = if u.pre_dispatch then pos 0 else tokens
  ok (
    tt,
    finish_request req.tenant_id req.id cost u (contract_step_settled c.id req.id charged used)
        (record db {
          contracts =
              update (is_contract req.tenant_id c.id) (settled_contract a u cost spent)
                db.contracts;
          allocations =
              update (λ x. (x.tenant_id == req.tenant_id) && (x.request_id == req.id))
                (settled_allocation u cost tokens) db.allocations;
        }),
  )

unfoldable pub settle_body : ℕ → ℕ → Usage → Db → Result (Unit {0} × Db)
unfolding settle_contract_request settle_budgets
settle_body tenant request_id u db = do
  req ← or_raise (request_at db tenant request_id) (value_error "unknown request")
  if is_some req.contract_id
      then settle_contract_request req u db
      else settle_budgets tenant request_id req u db

unfoldable pub settle : ℕ → ℕ → Usage → Db → Result (Unit {0}) × Db
unfolding settle_body
settle tenant request_id u = transaction (settle_body tenant request_id u)

-- The actual totals of a contract, by unit.
abbrev pub actuals : SpendContract → Bounds
actuals c = record { money = c.spent_cost; tokens = c.spent_tokens; requests = c.steps_started }

abbrev pub contract_entry : ℕ → ℕ → ℕ → ℕ → LedgerEvent → ContractLedger
contract_entry tenant contract_id budget_id amount event = record {
  tenant_id = tenant;
  contract_id = contract_id;
  budget_id = budget_id;
  amount = amount;
  event = event;
}

-- The writes of one round of the loop over the reservations.
unfoldable pub release_escrow : ℕ → SpendContract → ContractReservation → ℕ → Db → Db
release_escrow tenant c r actual db = record db {
  budgets =
      update (λ b. b.id == r.budget_id)
        (λ b. record b { reserved = b.reserved - r.amount; spent = b.spent + actual }) db.budgets;
  contract_reservations =
      update (λ x. (x.contract_id == r.contract_id) && (x.budget_id == r.budget_id))
        (λ x. record x { settled = true }) db.contract_reservations;
  contract_ledger =
      contract_entry tenant c.id r.budget_id (r.amount - actual) LedgerEvent.release
      ∷ contract_entry tenant c.id r.budget_id actual LedgerEvent.settle
      ∷ db.contract_ledger;
}

unfoldable pub close_reservation : ℕ → SpendContract → ContractReservation → Db → Result Db
unfolding release_escrow
close_reservation tenant c r db = do
  b ← or_raise (budget_at db tenant r.budget_id) key_error
  let actual = bound_of (actuals c) b.unit
  raise_if (ltb r.amount actual) (value_error "contract actual exceeds reservation")
  raise_if (ltb b.reserved r.amount) integrity_error
  ok (release_escrow tenant c r actual db)

unfoldable pub close_all : ℕ → SpendContract → List ContractReservation → Db → Result Db
unfolding close_reservation
close_all tenant c [] db = ok db
close_all tenant c (r ∷ rs) db = do db' ← close_reservation tenant c r db; close_all tenant c rs db'

abbrev pub contract_reservations_of : Db → ℕ → ℕ → List ContractReservation
contract_reservations_of db tenant contract_id =
    select (λ r. (r.tenant_id == tenant) && (r.contract_id == contract_id)) db.contract_reservations

-- A revoked or expired contract keeps its state.
abbrev pub closing_state : ContractState → ContractState → ContractState
closing_state ContractState.revoked final = ContractState.revoked
closing_state ContractState.expired final = ContractState.expired
closing_state _ final = final

unfoldable pub finish_contract : Clock → ℕ → SpendContract → ContractState → Db → Db
finish_contract clock tenant c final db = record db {
  contracts =
      update (is_contract tenant c.id)
        (λ x. record x {
          state = final;
          closed_at = some clock.now;
          token_version = x.token_version + 1;
        })
        db.contracts;
  events =
      record {
        id = length db.events;
        tenant_id = tenant;
        payload = contract_closed c.id final c.spent_cost c.spent_tokens;
        delivered = false;
        dedup_key = none;
      }
      ∷ db.events;
}

-- The final states that `close_spend_contract` accepts; `active` stands for any other text.
abbrev pub is_final_state : ContractState → Bool
is_final_state ContractState.active = false
is_final_state _ = true

unfoldable pub close_body : Clock → ℕ → ℕ → ContractState → Db → Result (ℕ × Db)
unfolding close_all finish_contract
close_body clock tenant contract_id final db = do
  c ← or_raise (contract_at db tenant contract_id) (http 404 "contract_not_found")
  if is_some c.closed_at then ok (c.id, db) else do
    raise_if (not (c.outstanding_cost == 0) || not (c.outstanding_tokens == 0))
        (http 409 "contract_has_outstanding_steps")
    db' ← close_all tenant c (contract_reservations_of db tenant contract_id) db
    ok (c.id, finish_contract clock tenant c (closing_state c.state final) db')

unfoldable pub close_spend_contract :
    Clock → (tenant contract_id : ℕ) → ContractState → Db → Result ℕ × Db
unfolding close_body
close_spend_contract clock tenant contract_id final db =
    if is_final_state final
    then transaction (close_body clock tenant contract_id final) db
    else (err (value_error "invalid contract final state"), db)
