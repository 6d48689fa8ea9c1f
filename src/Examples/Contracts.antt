-- ===== src/Examples/Contracts.antt =====
-- Spend contracts behind the control API, and a reconciliation, at the example organisation.
use quiblyx.Common.{arith, ℕ, ◌≡◌, refl, false, none, some, List, [], ◌∷◌, ok, err, http, Option}
use quiblyx.Chat.{model_dump}
use quiblyx.Model.{SpendContract, ContractState, Db, RequestState}
use quiblyx.Hierarchy.{ancestry, climb}
use quiblyx.Security.{authorize, check_scope}
use quiblyx.Accounting.Budgets.{threshold_events, needs_renewal, active_budgets, check_limits}
use quiblyx.Accounting.Admission.{admit}
use quiblyx.Accounting.Calls.{Call, run}
use quiblyx.Accounting.Closing.{settle}
use quiblyx.Accounting.Contracts.{Claims, admit_contract, allocated, contract_at}
use quiblyx.Accounting.Creation.{create_spend_contract, new_contract}
use quiblyx.Accounting.Contracts.Limits.{AreCapped}
use quiblyx.Accounting.Settlement.{transition}
use quiblyx.Control.Contracts.{
  ContractInput, Receipt, RevocationAnswer, contract_receipt, receipt_of, create_contract,
  revoke_contract, envelope_of, sorted_set,
}
use quiblyx.Control.Contracts.Creation.{create_contract-opens}
use quiblyx.Control.Contracts.Receipts.{IsBalanced, contract_receipt-IsBalanced}
use quiblyx.Control.Contracts.Revocation.{revoke_contract-IsLasting}
use quiblyx.Control.Requests.{reconcile}
use quiblyx.Control.Requests.Reconciliation.{IsReconciled, reconcile-IsReconciled}
use quiblyx.Examples.{hello, noon, digest, greeting, start}
use quiblyx.Examples.Books.{task, claims, step}
use quiblyx.Examples.Requests.{request}
use quiblyx.Examples.Tokens.{contracted}

texts_sorted : sorted_set ("b" ∷ "a" ∷ "b" ∷ []) ≡ "a" ∷ "b" ∷ []
unfolding sorted_set
texts_sorted = refl

abbrev input : ContractInput
input = record {
  name = "report";
  purpose = "a report";
  application_id = 2;
  key_id = 3;
  max_cost_microusd = 40;
  max_tokens = 100;
  max_steps = 2;
  allowed_models = "org-balanced" ∷ [];
  allowed_tools = [];
  data_region = "local";
  duration_seconds = 3600;
}

-- The new token admits a step at once.
created_step : (Option Claims) × (Option ℕ)
created_step =
    let (made, db) = create_contract 500 noon 700 1 input "ada" start in
    elim made [
      | ok (_, token) ↦ (
        some token,
        elim (admit_contract digest noon 901 token "b" greeting step db).0 [
          | ok (q, _, _) ↦ some q
          | err _ ↦ none
        ],
      )
      | err _ ↦ (none, none)
    ]

created_runs : created_step ≡ (some claims, some 901)
unfolding created_step create_contract authorize check_scope create_spend_contract ancestry climb
    active_budgets check_limits threshold_events admit_contract sorted_set
created_runs = refl

abbrev created : SpendContract
created = new_contract 700 1 2 3 (envelope_of 500 input)

abbrev created_db : Db
created_db = (create_contract 500 noon 700 1 input "ada" start).1

creation_runs :
    create_contract 500 noon 700 1 input "ada" start ≡ (ok (created, claims), created_db)
unfolding create_contract authorize check_scope create_spend_contract ancestry climb active_budgets
    check_limits threshold_events sorted_set
creation_runs = refl

create_contract-opens_example :
    (admit_contract digest noon 901 claims "b" (model_dump hello) step created_db).0
    ≡ ok (901, none, 700)
create_contract-opens_example =
    create_contract-opens digest 500 noon noon 700 901 1 input "ada" created claims start created_db
      "b" hello step creation_runs refl (omega arith) (omega arith) (omega arith) refl

-- One step is outstanding when the receipt is asked for.
abbrev stepped : List Call
stepped =
    Call.creates_contract noon 700 1 2 3 task
    ∷ Call.admits_step noon 901 claims "b" greeting step
    ∷ []

abbrev receipt : Receipt
receipt = receipt_of (run digest stepped start) 1 700 (allocated step (new_contract 700 1 2 3 task))

receipt_runs :
    contract_receipt 1 700 "ada" (run digest stepped start) ≡ (ok receipt, run digest stepped start)
unfolding contract_receipt authorize check_scope run ancestry climb active_budgets check_limits
    threshold_events create_spend_contract admit_contract
receipt_runs = refl

start-AreCapped : AreCapped start
start-AreCapped = record { distinct = tt; capped = tt }

contract_receipt-IsBalanced_example :
    (run digest stepped start ≡ run digest stepped start)
    × (contract_at (run digest stepped start) 1 700 ≡ some receipt.contract)
    × IsBalanced receipt
unfolding run create_spend_contract ancestry climb check_limits active_budgets threshold_events
contract_receipt-IsBalanced_example =
    contract_receipt-IsBalanced digest stepped start 1 700 "ada" receipt (run digest stepped start)
      (refl, (refl, tt)) start-AreCapped receipt_runs

abbrev revoked_db : Db
revoked_db = (revoke_contract noon 1 700 "ada" contracted).1

revocation_runs :
    revoke_contract noon 1 700 "ada" contracted
    ≡ (ok (RevocationAnswer.is_revoked 700 false), revoked_db)
unfolding revoke_contract authorize check_scope create_spend_contract ancestry climb active_budgets
    check_limits threshold_events
revocation_runs = refl

revoke_contract-IsLasting_example :
    admit_contract digest noon 901 claims "b" greeting step
      (run digest (Call.closes_contract noon 1 700 ContractState.completed ∷ []) revoked_db)
    ≡ (
      err (http 401 "inactive_spend_contract"),
      run digest (Call.closes_contract noon 1 700 ContractState.completed ∷ []) revoked_db,
    )
revoke_contract-IsLasting_example =
    revoke_contract-IsLasting noon 1 700 "ada" contracted digest
      (Call.closes_contract noon 1 700 ContractState.completed ∷ []) 700 false revoked_db
      revocation_runs (tt, tt) noon 901 claims "b" greeting step refl refl

-- A request that timed out.
abbrev uncertain_db : Db
uncertain_db =
    run digest
      (request
        ∷ Call.transitions 1 900 RequestState.dispatched
        ∷ Call.transitions 1 900 RequestState.uncertain
        ∷ [])
      start

abbrev reconciled_db : Db
reconciled_db = (reconcile 1 900 "ada" uncertain_db).1

reconciliation_runs : reconcile 1 900 "ada" uncertain_db ≡ (ok 50, reconciled_db)
unfolding reconcile run admit ancestry climb needs_renewal active_budgets check_limits
    threshold_events transition settle authorize check_scope
reconciliation_runs = refl

reconcile-IsReconciled_example : IsReconciled 1 900 "ada" 50 uncertain_db reconciled_db
reconcile-IsReconciled_example =
    reconcile-IsReconciled 1 900 "ada" 50 uncertain_db reconciled_db reconciliation_runs
