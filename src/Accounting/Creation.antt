-- ===== src/Accounting/Creation.antt =====
-- packages/domain/accounting.py, `create_spend_contract`. It locks the root budget, which makes it one
-- step.
use quiblyx.Common.{
  ℕ, ◌+◌, Bool, true, false, ◌||◌, none, List, [], ◌∷◌, String, ◌==◌, update, Result, ok, http,
  integrity_error, ◌>>=◌, ◌>>◌, raise_if, or_raise,
}
use quiblyx.Model.{Db, transaction, Budget, SpendContract, ContractState, LedgerEvent}
use quiblyx.Hierarchy.{ancestry}
use quiblyx.Accounting.Clock.{Clock, month, today}
use quiblyx.Accounting.Budgets.{
  Bounds, bound_of, root_budget, active_budgets, check_limits, threshold_events,
}
use quiblyx.Accounting.Admission.{active_key, application_at}

-- The arguments of `create_spend_contract` that are stored as they are.
pub record Envelope : Type 0 where
  pub name : String
  pub purpose : String
  pub max_cost : ℕ
  pub max_tokens : ℕ
  pub max_steps : ℕ
  pub allowed_models : List String
  pub allowed_tools : List String
  pub data_region : String
  pub expires_at : ℕ

abbrev pub envelope_bounds : Envelope → Bounds
envelope_bounds e = record { money = e.max_cost; tokens = e.max_tokens; requests = e.max_steps }

-- One round of the second loop over the budgets.
unfoldable pub reserve_contract_budget : ℕ → ℕ → Bounds → Budget → Db → Db
reserve_contract_budget tenant contract_id bs b db =
    let amount = bound_of bs b.unit in
    threshold_events (record b { reserved = b.reserved + amount })
      (record db {
        budgets =
            update (λ r. r.id == b.id) (λ r. record r { reserved = r.reserved + amount })
              db.budgets;
        contract_reservations =
            record {
              tenant_id = tenant;
              contract_id = contract_id;
              budget_id = b.id;
              amount = amount;
              settled = false;
            }
            ∷ db.contract_reservations;
        contract_ledger =
            record {
              tenant_id = tenant;
              contract_id = contract_id;
              budget_id = b.id;
              amount = amount;
              event = LedgerEvent.reserve;
            }
            ∷ db.contract_ledger;
      })

unfoldable pub reserve_contract : ℕ → ℕ → Bounds → List Budget → Db → Db
unfolding reserve_contract_budget
reserve_contract tenant contract_id bs [] db = db
reserve_contract tenant contract_id bs (b ∷ rest) db =
    reserve_contract tenant contract_id bs rest (reserve_contract_budget tenant contract_id bs b db)

abbrev pub new_contract : ℕ → ℕ → ℕ → ℕ → Envelope → SpendContract
new_contract uid tenant application_id key_id e = record {
  id = uid;
  tenant_id = tenant;
  name = e.name;
  purpose = e.purpose;
  application_id = application_id;
  key_id = key_id;
  state = ContractState.active;
  max_cost = e.max_cost;
  spent_cost = 0;
  outstanding_cost = 0;
  max_tokens = e.max_tokens;
  spent_tokens = 0;
  outstanding_tokens = 0;
  max_steps = e.max_steps;
  steps_started = 0;
  steps_completed = 0;
  allowed_models = e.allowed_models;
  allowed_tools = e.allowed_tools;
  data_region = e.data_region;
  expires_at = e.expires_at;
  token_version = 1;
  closed_at = none;
}

-- The CHECK constraint `max_cost > 0 AND max_tokens > 0 AND max_steps > 0`.
abbrev pub envelope_is_empty : Envelope → Bool
envelope_is_empty e = (e.max_cost == 0) || (e.max_tokens == 0) || (e.max_steps == 0)

unfoldable pub create_contract_body :
    Clock → (uid tenant application_id key_id : ℕ) → Envelope → Db → Result (ℕ × Db)
unfolding reserve_contract
create_contract_body clock uid tenant application_id key_id e db = do
  root ← or_raise (root_budget db tenant (month clock)) (http 403 "active_budget_required")
  key ←
      or_raise (active_key db tenant key_id application_id) (http 403 "invalid_contract_principal")
  app ← or_raise (application_at db tenant application_id) (http 403 "invalid_contract_principal")
  raise_if app.paused (http 403 "invalid_contract_principal")
  path ← ancestry db tenant app.group_id true
  let scopes = tenant ∷ application_id ∷ path
  let budgets = active_budgets db tenant scopes (month clock) (today clock)
  check_limits (envelope_bounds e) "contract_budget_exhausted" budgets
  raise_if (envelope_is_empty e) integrity_error
  ok (
    uid,
    reserve_contract tenant uid (envelope_bounds e) budgets
        (record db { contracts = new_contract uid tenant application_id key_id e ∷ db.contracts }),
  )

unfoldable pub create_spend_contract :
    Clock → (uid tenant application_id key_id : ℕ) → Envelope → Db → Result ℕ × Db
unfolding create_contract_body
create_spend_contract clock uid tenant application_id key_id e =
    transaction (create_contract_body clock uid tenant application_id key_id e)
