-- ===== src/Control/Common.antt =====
-- services/control_api/main.py: what the handlers share. A handler checks the subject's permission
-- in a transaction of its own, which writes nothing, and then runs its body in another.
use quiblyx.Common.{
  ℕ, ◌==◌, ◌&&◌, scalar, or_raise, http, ◌≡◌, String, ◌∷◌, Result, Error, ok, err, refl, arith,
}
use quiblyx.Model.{
  Db, transaction, transaction-keeps, transaction-eq-ok, RoleName, Application, Key, ServiceAccount,
  Connection, Project, SpendContract, Request,
}

abbrev pub audit : ℕ → String → String → ℕ → Db → Db
audit tenant subject action target db = record db {
  audits =
      record { tenant_id = tenant; actor = subject; action = action; target = target } ∷ db.audits;
}

-- `find(s, cls, tenant, identifier)` for each of the tables.
module _ (db : Db) (tenant identifier : ℕ) where
  abbrev pub application_of : Result Application
  application_of =
      or_raise (scalar (λ r. (r.tenant_id == tenant) && (r.id == identifier)) db.applications)
        (http 404 "resource_not_found")

  abbrev pub key_of : Result Key
  key_of =
      or_raise (scalar (λ r. (r.tenant_id == tenant) && (r.id == identifier)) db.keys)
        (http 404 "resource_not_found")

  abbrev pub service_account_of : Result ServiceAccount
  service_account_of =
      or_raise (scalar (λ r. (r.tenant_id == tenant) && (r.id == identifier)) db.service_accounts)
        (http 404 "resource_not_found")

  abbrev pub connection_of : Result Connection
  connection_of =
      or_raise (scalar (λ r. (r.tenant_id == tenant) && (r.id == identifier)) db.connections)
        (http 404 "resource_not_found")

  abbrev pub project_of : Result Project
  project_of =
      or_raise (scalar (λ r. (r.tenant_id == tenant) && (r.id == identifier)) db.projects)
        (http 404 "resource_not_found")

  abbrev pub contract_row : Result SpendContract
  contract_row =
      or_raise (scalar (λ r. (r.tenant_id == tenant) && (r.id == identifier)) db.contracts)
        (http 404 "resource_not_found")

  abbrev pub request_row : Result Request
  request_row =
      or_raise (scalar (λ r. (r.tenant_id == tenant) && (r.id == identifier)) db.requests)
        (http 404 "resource_not_found")

-- `authorize(...)` followed by `with transaction(tenant) as s:`, whose body may use the role.
abbrev pub authorized {ℓ} :
    {A : Type ℓ} → Result RoleName → (RoleName → Db → Result (A × Db)) → Db → Result A × Db
authorized permit body db = elim permit [
  | ok role ↦ transaction (body role) db
  | err e ↦ (err e, db)
]

-- A handler that returned was permitted, and has committed what its body wrote.
pub authorized-eq-ok {ℓ} :
    {A : Type ℓ} (permit : Result RoleName) (body : RoleName → Db → Result (A × Db)) (db : Db)
    (a : A) (db' : Db)
    → authorized permit body db ≡ (ok a, db')
    → (role : RoleName) × (permit ≡ ok role) × (body role db ≡ ok (a, db'))
authorized-eq-ok (ok role) body db a db' e = (role, refl, transaction-eq-ok (body role) db a db' e)
authorized-eq-ok (err x) body db a db' e = absurd (ground arith)

-- What holds before a handler runs holds after it, if the permitted body keeps it.
pub authorized-keeps {ℓ κ} :
    {A : Type ℓ} (P : Db → Type κ) (permit : Result RoleName)
    (body : RoleName → Db → Result (A × Db)) (db : Db)
    → P db
    → ((role : RoleName) (a : A) (db' : Db) → permit ≡ ok role → body role db ≡ ok (a, db') → P db')
    → P (authorized permit body db).1
authorized-keeps P (ok role) body db h keep =
    transaction-keeps P (body role) db h λ a db' done. keep role a db' refl done
authorized-keeps P (err x) body db h keep = h

-- A permitted body that fails leaves the database as it was.
pub authorized-eq-err {ℓ} :
    {A : Type ℓ} (permit : Result RoleName) (body : RoleName → Db → Result (A × Db)) (db : Db)
    (role : RoleName) (x : Error)
    → permit ≡ ok role
    → body role db ≡ err x
    → authorized permit body db ≡ (err x, db)
authorized-eq-err permit body db role x e f = rw (e, f, transaction) refl

-- A permitted body that returns has run.
pub authorized-ok {ℓ} :
    {A : Type ℓ} (permit : Result RoleName) (body : RoleName → Db → Result (A × Db)) (db : Db)
    (role : RoleName) (a : A) (db' : Db)
    → permit ≡ ok role
    → body role db ≡ ok (a, db')
    → authorized permit body db ≡ (ok a, db')
authorized-ok permit body db role a db' e f = rw (e, f, transaction) refl
