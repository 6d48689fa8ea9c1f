-- ===== src/Model/Database.antt =====
-- packages/domain/db.py: the tables, and a transaction that commits or rolls back.
use quiblyx.Common.{List, Result, Error, ok, err}
use quiblyx.Model.Rows.{
  Tenant, Membership, Group, Role, Project, ServiceAccount, Connection, Application, Key, Budget,
  Request, Reservation, Ledger, Event, Audit, SpendContract, ContractReservation,
  ContractAllocation, ContractLedger,
}

-- One list of rows for each table, the newest first.
pub record Db : Type 0 where
  pub tenants : List Tenant
  pub memberships : List Membership
  pub groups : List Group
  pub roles : List Role
  pub projects : List Project
  pub service_accounts : List ServiceAccount
  pub connections : List Connection
  pub applications : List Application
  pub keys : List Key
  pub budgets : List Budget
  pub requests : List Request
  pub reservations : List Reservation
  pub ledger : List Ledger
  pub events : List Event
  pub audits : List Audit
  pub contracts : List SpendContract
  pub contract_reservations : List ContractReservation
  pub allocations : List ContractAllocation
  pub contract_ledger : List ContractLedger

-- `with transaction(tenant) as s:` around a body. An exception rolls everything back.
abbrev pub transaction {ℓ} : {A : Type ℓ} → (Db → Result (A × Db)) → Db → Result A × Db
transaction body db = elim (body db) [ ok (a, db') ↦ (ok a, db') | err e ↦ (err e, db) ]

-- `try` around a call on the database: what follows its value, and what follows its exception.
abbrev pub attempt {ℓ κ} :
    {A : Type ℓ} {B : Type κ} → Result A × Db → (A → Db → B) → (Error → Db → B) → B
attempt (ok a, db) returns raises = returns a db
attempt (err e, db) returns raises = raises e db

-- An exception of the call is not caught.
abbrev pub and_then {ℓ κ} :
    {A : Type ℓ} {B : Type κ} → Result A × Db → (A → Db → Result B × Db) → Result B × Db
and_then call next = attempt call next (λ e db. (err e, db))
