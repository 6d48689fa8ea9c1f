-- ===== src/Accounting/Contracts.antt =====
-- packages/domain/accounting.py, `admit_contract`. It locks the contract, which makes it one step.
pub mod Cases
pub mod Limits
pub mod Inactive
use quiblyx.Common.{
  length, ℕ, ◌+◌, Bool, true, false, not, ◌&&◌, ◌||◌, Option, none, some, List, [], ◌∷◌, String,
  str_eq, ltb, leb, ◌==◌, if◌then◌else◌, opt_eq, scalar, update, pos, Result, ok, err, http,
  integrity_error, ◌>>=◌, ◌>>◌, raise_if, or_raise,
}
use quiblyx.Model.{
  Db, transaction, Budget, Request, RequestState, Response, SpendContract, ContractState,
  ContractAllocation, AllocationState, LedgerEvent, contract_step_reserved,
}
use quiblyx.Chat.{Payload}
use quiblyx.Hierarchy.{ancestry}
use quiblyx.Accounting.Clock.{Clock, month, today}
use quiblyx.Accounting.Budgets.{
  Bounds, bound_of, root_budget, active_budgets, check_limits, threshold_events,
}
use quiblyx.Accounting.Admission.{active_key, application_at, previous_request, is_completed}

-- What a verified contract token claims.
pub record Claims : Type 0 where
  pub sub : ℕ
  pub tenant_id : ℕ
  pub application_id : ℕ
  pub key_id : ℕ
  pub version : ℕ
  pub scope : String

abbrev pub contract_at : Db → ℕ → ℕ → Option SpendContract
contract_at db tenant contract_id =
    scalar (λ c. (c.tenant_id == tenant) && (c.id == contract_id)) db.contracts

abbrev pub is_contract : ℕ → ℕ → SpendContract → Bool
is_contract tenant contract_id c = (c.tenant_id == tenant) && (c.id == contract_id)

abbrev pub is_active : ContractState → Bool
is_active ContractState.active = true
is_active _ = false

abbrev pub contains_text : String → List String → Bool
contains_text t [] = false
contains_text t (u ∷ us) = str_eq t u || contains_text t us

abbrev pub is_empty {ℓ} : {A : Type ℓ} → List A → Bool
is_empty [] = true
is_empty (x ∷ xs) = false

-- The claims that admission compares with the contract.
abbrev pub claims_match : Claims → SpendContract → Bool
claims_match claims c =
    (claims.application_id == c.application_id)
    && (claims.key_id == c.key_id)
    && str_eq claims.scope "spend:allocate"

-- A step of the contract: its bounds, and the names that the row keeps. The bounds are integers
-- that nothing checks; the only caller, `chat`, passes amounts that are never negative.
pub record Step : Type 0 where
  pub cost_bound : ℕ
  pub token_bound : ℕ
  pub model : String
  pub name : String

-- The state that the contract's row has after a step is allocated.
abbrev pub allocated : Step → SpendContract → SpendContract
allocated st c = record c {
  outstanding_cost = c.outstanding_cost + st.cost_bound;
  outstanding_tokens = c.outstanding_tokens + st.token_bound;
  steps_started = c.steps_started + 1;
}

-- The four limits that a new step must respect, in the order of the source.
unfoldable pub check_capacity : Step → SpendContract → Result (Unit {0})
check_capacity st c = do
  raise_if (leb c.max_steps c.steps_started) (http 429 "contract_step_limit_exhausted")
  raise_if (ltb c.max_cost (c.spent_cost + c.outstanding_cost + st.cost_bound))
      (http 429 "contract_cost_exhausted")
  raise_if (ltb c.max_tokens (c.spent_tokens + c.outstanding_tokens + st.token_bound))
      (http 429 "contract_token_exhausted")

-- The guards before the idempotency check. The source sets `state = "expired"` before it raises
-- `spend_contract_expired`; the exception leaves the transaction, which rolls that write back.
unfoldable pub check_principal : Clock → Claims → Payload → Step → SpendContract → Result (Unit {0})
check_principal clock claims payload st c = do
  raise_if (not (is_active c.state) || not (c.token_version == claims.version))
      (http 401 "inactive_spend_contract")
  raise_if (leb c.expires_at clock.now) (http 401 "spend_contract_expired")
  raise_if (not (claims_match claims c)) (http 401 "invalid_spend_contract")
  raise_if (not (contains_text st.model c.allowed_models)) (http 403 "contract_model_not_allowed")
  raise_if (not (is_empty payload.tools) && is_empty c.allowed_tools)
      (http 403 "contract_tool_not_allowed")

module _ (payload_digest : Payload → String) where
  unfoldable pub replay_step : Request → SpendContract → Payload → Result (ℕ × Option Response)
  replay_step previous c payload =
      if str_eq previous.payload_hash (payload_digest payload)
        && opt_eq previous.contract_id (some c.id)
      then elim previous.response [
        | some response ↦
            if is_completed previous.state && not payload.body.stream
            then ok (previous.id, some response)
            else err (http 409 "request_in_progress_or_non_replayable")
        | none ↦ err (http 409 "request_in_progress_or_non_replayable")
      ]
      else err (http 409 "idempotency_payload_conflict")

  module _ (clock : Clock) (uid : ℕ) (claims : Claims) (idem : String) (payload : Payload)
      (st : Step) where
    abbrev pub step_request : SpendContract → Request
    step_request c = record {
      id = uid;
      tenant_id = claims.tenant_id;
      application_id = c.application_id;
      key_id = c.key_id;
      idempotency_key = idem;
      payload_hash = payload_digest payload;
      state = RequestState.reserved;
      bound = st.cost_bound;
      cost = none;
      input_tokens = pos 0;
      output_tokens = pos 0;
      response = none;
      model = st.model;
      period = month clock;
      contract_id = some c.id;
      contract_step = some st.name;
    }

    abbrev pub step_allocation : SpendContract → ContractAllocation
    step_allocation c = record {
      tenant_id = claims.tenant_id;
      contract_id = c.id;
      request_id = uid;
      cost_bound = st.cost_bound;
      token_bound = st.token_bound;
      actual_cost = none;
      actual_tokens = none;
      state = AllocationState.reserved;
    }

    -- The writes of an admitted step.
    unfoldable pub allocate : SpendContract → Db → Db
    allocate c db = record db {
      requests = step_request c ∷ db.requests;
      allocations = step_allocation c ∷ db.allocations;
      contracts = update (is_contract claims.tenant_id c.id) (allocated st) db.contracts;
      events =
          record {
            id = length db.events;
            tenant_id = claims.tenant_id;
            payload = contract_step_reserved c.id uid st.name;
            delivered = false;
            dedup_key = none;
          }
          ∷ db.events;
    }

    unfoldable pub admit_contract_body : Db → Result ((ℕ × Option Response × ℕ) × Db)
    unfolding check_principal check_capacity replay_step allocate
    admit_contract_body db = do
      c ← or_raise (contract_at db claims.tenant_id claims.sub) (http 401 "inactive_spend_contract")
      check_principal clock claims payload st c
      elim (previous_request db claims.tenant_id c.key_id idem) [
        | some previous ↦ (do
          answer ← replay_step previous c payload
          ok ((answer.0, answer.1, c.id), db))
        | none ↦ (do check_capacity st c; ok ((uid, none, c.id), allocate c db))
      ]

    unfoldable pub admit_contract : Db → Result (ℕ × Option Response × ℕ) × Db
    unfolding admit_contract_body
    admit_contract = transaction admit_contract_body
