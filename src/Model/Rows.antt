-- ===== src/Model/Rows.antt =====
-- packages/domain/models.py. An identifier is a number: the program only compares, orders and
-- stores them. `created_at` is left out, and so are the identifiers that nothing reads (those of
-- reservations, ledger entries, allocations and audit events). A column that a CHECK constraint
-- keeps from being negative is a natural number.
use quiblyx.Common.{ℕ, String, Bool, true, false, Option, List, ℤ, ◌==◌}

-- "%Y-%m" or "%Y-%m-%d", by the number of the month or of the day.
pub data Period : Type 0 where
  monthly : ℕ → Period
  daily : ℕ → Period

abbrev pub period_eq : Period → Period → Bool
period_eq (monthly a) (monthly b) = a == b
period_eq (daily a) (daily b) = a == b
period_eq _ _ = false

-- `len(b.period)`
abbrev pub period_len : Period → ℕ
period_len (monthly _) = 7
period_len (daily _) = 10

pub data BudgetUnit : Type 0 where
  money tokens requests : BudgetUnit

abbrev pub unit_eq : BudgetUnit → BudgetUnit → Bool
unit_eq money money = true
unit_eq tokens tokens = true
unit_eq requests requests = true
unit_eq _ _ = false

-- A membership's role is the name of a template or the identifier of a custom role.
pub data RoleName : Type 0 where
  owner admin manager member auditor : RoleName
  custom : ℕ → RoleName

pub data Permission : Type 0 where
  read write members_manage roles_manage content_read : Permission

pub record Tenant : Type 0 where
  pub id : ℕ
  pub name : String
  pub content_days : ℕ
  pub metadata_days : ℕ

pub record Membership : Type 0 where
  pub id : ℕ
  pub tenant_id : ℕ
  pub subject : String
  pub role : RoleName
  pub scope_id : Option ℕ

pub record Group : Type 0 where
  pub id : ℕ
  pub tenant_id : ℕ
  pub name : String
  pub parent_id : Option ℕ
  pub paused : Bool

pub record Role : Type 0 where
  pub id : ℕ
  pub tenant_id : ℕ
  pub name : String
  pub permissions : List Permission

pub record Project : Type 0 where
  pub id : ℕ
  pub tenant_id : ℕ
  pub name : String
  pub group_id : Option ℕ

pub record ServiceAccount : Type 0 where
  pub id : ℕ
  pub tenant_id : ℕ
  pub name : String
  pub application_id : ℕ
  pub active : Bool

pub record Connection : Type 0 where
  pub id : ℕ
  pub tenant_id : ℕ
  pub name : String
  pub provider : String
  pub encrypted_secret : String

pub record Application : Type 0 where
  pub id : ℕ
  pub tenant_id : ℕ
  pub name : String
  pub group_id : Option ℕ
  pub connection_id : ℕ
  pub paused : Bool
  pub project_id : Option ℕ

pub record Key : Type 0 where
  pub id : ℕ
  pub tenant_id : ℕ
  pub application_id : ℕ
  pub digest : String
  pub prefix : String
  pub revoked : Bool
  pub service_account_id : Option ℕ

pub record Budget : Type 0 where
  pub id : ℕ
  pub tenant_id : ℕ
  pub scope_id : ℕ
  pub period : Period
  pub unit : BudgetUnit
  pub hard_limit : ℕ
  pub spent : ℕ
  pub reserved : ℕ
  pub version : ℕ

pub data ContractState : Type 0 where
  active expired revoked completed : ContractState

pub data RequestState : Type 0 where
  reserved dispatched uncertain completed released : RequestState

-- The stored answer of a completed request, `result(content)` of the gateway.
pub record Response : Type 0 where
  pub request_id : ℕ
  pub content : String
  pub prompt_tokens : ℕ
  pub completion_tokens : ℕ
  pub total_tokens : ℕ
  pub cost_microusd : ℕ
  pub spend_contract_id : Option ℕ
  pub contract_step : Option String

pub record Request : Type 0 where
  pub id : ℕ
  pub tenant_id : ℕ
  pub application_id : ℕ
  pub key_id : ℕ
  pub idempotency_key : String
  pub payload_hash : String
  pub state : RequestState
  pub bound : ℕ
  pub cost : Option ℕ
  pub input_tokens : ℤ
  pub output_tokens : ℤ
  pub response : Option Response
  pub model : String
  pub period : Period
  pub contract_id : Option ℕ
  pub contract_step : Option String

pub record Reservation : Type 0 where
  pub tenant_id : ℕ
  pub request_id : ℕ
  pub budget_id : ℕ
  pub amount : ℕ
  pub settled : Bool

pub data LedgerEvent : Type 0 where
  reserve settle release : LedgerEvent

pub record Ledger : Type 0 where
  pub tenant_id : ℕ
  pub request_id : ℕ
  pub budget_id : ℕ
  pub amount : ℕ
  pub event : LedgerEvent

-- The payloads of the outbox events that the program writes, one constructor for each `kind`.
pub data EventPayload : Type 0 where
  budget_threshold : (budget_id threshold : ℕ) (unit : BudgetUnit) (period : Period) → EventPayload
  usage_settled : (request_id : ℕ) → EventPayload
  contract_step_reserved : (contract_id request_id : ℕ) (step : String) → EventPayload
  contract_step_settled : (contract_id request_id cost : ℕ) (tokens : ℤ) → EventPayload
  contract_closed : (contract_id : ℕ) (state : ContractState) (cost tokens : ℕ) → EventPayload

-- `id` is a fresh uuid4; the model numbers the rows in the order in which they are added, which is
-- fresh too, since no row is ever removed. `dedup_key` is f"{tenant_id}:{budget_id}:{threshold}",
-- kept as its three parts.
pub record Event : Type 0 where
  pub id : ℕ
  pub tenant_id : ℕ
  pub payload : EventPayload
  pub delivered : Bool
  pub dedup_key : Option (ℕ × ℕ × ℕ)

pub record Audit : Type 0 where
  pub tenant_id : ℕ
  pub actor : String
  pub action : String
  pub target : ℕ

pub record SpendContract : Type 0 where
  pub id : ℕ
  pub tenant_id : ℕ
  pub name : String
  pub purpose : String
  pub application_id : ℕ
  pub key_id : ℕ
  pub state : ContractState
  pub max_cost : ℕ
  pub spent_cost : ℕ
  pub outstanding_cost : ℕ
  pub max_tokens : ℕ
  pub spent_tokens : ℕ
  pub outstanding_tokens : ℕ
  pub max_steps : ℕ
  pub steps_started : ℕ
  pub steps_completed : ℕ
  pub allowed_models : List String
  pub allowed_tools : List String
  pub data_region : String
  pub expires_at : ℕ
  pub token_version : ℕ
  pub closed_at : Option ℕ

pub record ContractReservation : Type 0 where
  pub tenant_id : ℕ
  pub contract_id : ℕ
  pub budget_id : ℕ
  pub amount : ℕ
  pub settled : Bool

pub data AllocationState : Type 0 where
  reserved completed released : AllocationState

pub record ContractAllocation : Type 0 where
  pub tenant_id : ℕ
  pub contract_id : ℕ
  pub request_id : ℕ
  pub cost_bound : ℕ
  pub token_bound : ℕ
  pub actual_cost : Option ℕ
  pub actual_tokens : Option ℤ
  pub state : AllocationState

pub record ContractLedger : Type 0 where
  pub tenant_id : ℕ
  pub contract_id : ℕ
  pub budget_id : ℕ
  pub amount : ℕ
  pub event : LedgerEvent
