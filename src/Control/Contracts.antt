-- ===== src/Control/Contracts.antt =====
-- services/control_api/main.py, the handlers of spend contracts: `create_contract`,
-- `close_contract`, `revoke_contract` and `contract_receipt`. Several transactions follow each
-- other in a handler; each stands on the database that the one before it left.
pub mod Revocation
pub mod Receipts
pub mod Creation
use Prim.Native.String.{compare}
use Prim.Native.Nat.{Ordering}
use quiblyx.Common.{
  ℕ, ◌+◌, Bool, true, false, not, ◌&&◌, ◌||◌, Option, none, some, List, [], ◌∷◌, ◌++◌, String, ◌==◌,
  if◌then◌else◌, is_some, select, update, ℤ, pos, ◌-ℤ◌, Result, ok, err, ◌>>=◌,
}
use quiblyx.Model.{
  Db, transaction, and_then, SpendContract, ContractState, ContractReservation, ContractAllocation,
  ContractLedger, RoleName,
}
use quiblyx.Security.{authorize}
use quiblyx.Accounting.Clock.{Clock}
use quiblyx.Accounting.Contracts.{Claims, is_contract}
use quiblyx.Accounting.Creation.{Envelope, create_spend_contract}
use quiblyx.Accounting.Closing.{close_spend_contract, contract_reservations_of}
use quiblyx.Control.Common.{application_of, audit, authorized, contract_row}
use quiblyx.Control.Tokens.{issue_contract_token}

pub record ContractInput : Type 0 where
  pub name : String
  pub purpose : String
  pub application_id : ℕ
  pub key_id : ℕ
  pub max_cost_microusd : ℕ
  pub max_tokens : ℕ
  pub max_steps : ℕ
  pub allowed_models : List String
  pub allowed_tools : List String
  pub data_region : String
  pub duration_seconds : ℕ

-- `sorted(set(texts))`: insertion in the order of the characters, each text once.
unfoldable pub insert_text : String → List String → List String
insert_text t [] = t ∷ []
insert_text t (u ∷ us) =
    let rest = insert_text t us in
    elim (compare t u) [ Ordering.lt ↦ t ∷ u ∷ us | Ordering.eq ↦ u ∷ us | Ordering.gt ↦ u ∷ rest ]

unfoldable pub sorted_set : List String → List String
unfolding insert_text
sorted_set [] = []
sorted_set (t ∷ ts) = insert_text t (sorted_set ts)

abbrev pub envelope_of : (now : ℕ) → ContractInput → Envelope
envelope_of now input = record {
  name = input.name;
  purpose = input.purpose;
  max_cost = input.max_cost_microusd;
  max_tokens = input.max_tokens;
  max_steps = input.max_steps;
  allowed_models = sorted_set input.allowed_models;
  allowed_tools = sorted_set input.allowed_tools;
  data_region = input.data_region;
  expires_at = now + input.duration_seconds;
}

abbrev pub may_contract : (tenant : ℕ) → ContractInput → (subject : String) → Db → Result RoleName
may_contract tenant input subject db = do
  application ← application_of db tenant input.application_id
  authorize db tenant subject true application.group_id none

-- The last transaction: the token of the new contract.
abbrev pub hand_out :
    (tenant contract_id : ℕ) → String → Db → Result ((SpendContract × Claims) × Db)
hand_out tenant contract_id subject db = do
  contract ← contract_row db tenant contract_id
  ok (
    (contract, issue_contract_token contract),
    audit tenant subject "spend_contract.created" contract.id db,
  )

unfoldable pub create_contract :
    (now : ℕ)
    → Clock
    → (uid tenant : ℕ) → ContractInput
    → (subject : String) → Db
    → Result (SpendContract × Claims) × Db
unfolding authorize create_spend_contract
create_contract now clock uid tenant input subject db =
    elim (may_contract tenant input subject db) [
      | err e ↦ (err e, db)
      | ok _ ↦
          and_then
            (create_spend_contract clock uid tenant input.application_id input.key_id
              (envelope_of now input) db)
            (λ contract_id. transaction (hand_out tenant contract_id subject))
    ]

-- The rows of a query in the order in which they were added.
abbrev pub in_order {ℓ} : {A : Type ℓ} → List A → List A
in_order [] = []
in_order (x ∷ xs) = in_order xs ++ (x ∷ [])

pub record Receipt : Type 0 where
  pub contract : SpendContract
  pub remaining_cost : ℤ
  pub remaining_tokens : ℤ
  pub remaining_steps : ℤ
  pub allocations : List ContractAllocation
  pub reservations : List ContractReservation
  pub ledger : List ContractLedger

abbrev pub receipt_of : Db → (tenant contract_id : ℕ) → SpendContract → Receipt
receipt_of db tenant contract_id c = record {
  contract = c;
  remaining_cost = (pos c.max_cost -ℤ pos c.spent_cost) -ℤ pos c.outstanding_cost;
  remaining_tokens = (pos c.max_tokens -ℤ pos c.spent_tokens) -ℤ pos c.outstanding_tokens;
  remaining_steps = pos c.max_steps -ℤ pos c.steps_started;
  allocations =
      in_order
        (select (λ a. (a.tenant_id == tenant) && (a.contract_id == contract_id)) db.allocations);
  reservations = contract_reservations_of db tenant contract_id;
  ledger =
      in_order (
        select (λ l. (l.tenant_id == tenant) && (l.contract_id == contract_id)) db.contract_ledger);
}

unfoldable pub contract_receipt :
    (tenant contract_id : ℕ) → (subject : String) → Db → Result Receipt × Db
unfolding authorize
contract_receipt tenant contract_id subject db =
    authorized (authorize db tenant subject false none none)
      (λ _ d. do
        contract ← contract_row d tenant contract_id
        ok (receipt_of d tenant contract_id contract, d))
      db

unfoldable pub close_contract :
    Clock → (tenant contract_id : ℕ) → (subject : String) → Db → Result Receipt × Db
unfolding authorize close_spend_contract contract_receipt
close_contract clock tenant contract_id subject db =
    elim (authorize db tenant subject true none none) [
      | err e ↦ (err e, db)
      | ok _ ↦
          and_then (close_spend_contract clock tenant contract_id ContractState.completed db)
            (λ _ closed.
              contract_receipt tenant contract_id subject
                (audit tenant subject "spend_contract.closed" contract_id closed))
    ]

-- What a revocation answers: the state of a contract that was closed before, or whether an
-- outstanding step keeps its budget.
pub data RevocationAnswer : Type 0 where
  was_closed : (contract_id : ℕ) (state : ContractState) → RevocationAnswer
  is_revoked : (contract_id : ℕ) (outstanding_retained : Bool) → RevocationAnswer

abbrev pub revoked : SpendContract → SpendContract
revoked c = record c { state = ContractState.revoked; token_version = c.token_version + 1 }

-- `contract.outstanding_cost or contract.outstanding_tokens`
abbrev pub has_outstanding : SpendContract → Bool
has_outstanding c = not (c.outstanding_cost == 0) || not (c.outstanding_tokens == 0)

unfoldable pub revoke_body :
    (tenant contract_id : ℕ) → (subject : String) → Db → Result (RevocationAnswer × Db)
revoke_body tenant contract_id subject db = do
  c ← contract_row db tenant contract_id
  if is_some c.closed_at
      then ok (RevocationAnswer.was_closed c.id c.state, db)
      else ok (
        RevocationAnswer.is_revoked contract_id (has_outstanding c),
        audit tenant subject "spend_contract.revoked" c.id
            (record db { contracts = update (is_contract tenant c.id) revoked db.contracts }),
      )

-- `if not outstanding: close_spend_contract(tenant, contract_id, "revoked")`
unfoldable pub close_revoked :
    Clock → (tenant contract_id : ℕ) → RevocationAnswer → Db → Result RevocationAnswer × Db
unfolding close_spend_contract
close_revoked clock tenant contract_id (RevocationAnswer.is_revoked i false) db =
    and_then (close_spend_contract clock tenant contract_id ContractState.revoked db)
      (λ _ closed. (ok (RevocationAnswer.is_revoked i false), closed))
close_revoked clock tenant contract_id answer db = (ok answer, db)

unfoldable pub revoke_contract :
    Clock → (tenant contract_id : ℕ) → (subject : String) → Db → Result RevocationAnswer × Db
unfolding authorize revoke_body close_revoked
revoke_contract clock tenant contract_id subject db =
    and_then
      (authorized (authorize db tenant subject true none none)
        (λ _. revoke_body tenant contract_id subject) db)
      (close_revoked clock tenant contract_id)
