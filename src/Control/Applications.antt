-- ===== src/Control/Applications.antt =====
-- services/control_api/main.py: `create_connection`, `create_application`, `pause`,
-- `create_project` and `create_service_account`. `encrypt` of packages/domain/security.py (Fernet)
-- is a parameter.
pub mod Links
use quiblyx.Common.{
  ℕ, Bool, true, false, not, ◌&&◌, Option, none, some, List, [], ◌∷◌, String, str_eq, opt_eq, ◌==◌,
  if◌then◌else◌, update, Result, ok, err, http, ◌>>=◌, ◌>>◌, raise_if,
}
use quiblyx.Model.{Db, Application, Connection, Project, ServiceAccount}
use quiblyx.Hierarchy.{ancestry}
use quiblyx.Security.{authorize}
use quiblyx.Control.Common.{audit, authorized, application_of, connection_of, project_of}

pub record ProviderInput : Type 0 where
  pub name : String
  pub provider : String
  pub secret : String

module _ (encrypt : String → String) where
  abbrev pub new_connection : (uid tenant : ℕ) → ProviderInput → Connection
  new_connection uid tenant input = record {
    id = uid;
    tenant_id = tenant;
    name = input.name;
    provider = input.provider;
    encrypted_secret = if str_eq input.secret "" then "" else encrypt input.secret;
  }

  unfoldable pub create_connection_body :
      (uid tenant : ℕ) → ProviderInput → (subject : String) → Db → Result (Connection × Db)
  create_connection_body uid tenant input subject db = ok (
    new_connection uid tenant input,
    audit tenant subject "provider.created" uid
        (record db { connections = new_connection uid tenant input ∷ db.connections }),
  )

  unfoldable pub create_connection :
      (uid tenant : ℕ) → ProviderInput → (subject : String) → Db → Result Connection × Db
  unfolding create_connection_body
  create_connection uid tenant input subject db =
      authorized (authorize db tenant subject true none none)
        (λ _. create_connection_body uid tenant input subject) db

pub record ApplicationInput : Type 0 where
  pub name : String
  pub group_id : Option ℕ
  pub connection_id : ℕ
  pub project_id : Option ℕ

-- A project of the application must be billed to the same group.
unfoldable pub check_project : Db → ℕ → ApplicationInput → Option ℕ → Result (Unit {0})
check_project db tenant input none = ok tt
check_project db tenant input (some project_id) = do
  project ← project_of db tenant project_id
  raise_if (not (opt_eq project.group_id input.group_id)) (http 409 "project_billing_path_mismatch")

abbrev pub new_application : (uid tenant : ℕ) → ApplicationInput → Application
new_application uid tenant input = record {
  id = uid;
  tenant_id = tenant;
  name = input.name;
  group_id = input.group_id;
  connection_id = input.connection_id;
  paused = false;
  project_id = input.project_id;
}

unfoldable pub create_application_body :
    (uid tenant : ℕ) → ApplicationInput → (subject : String) → Db → Result (Application × Db)
unfolding check_project
create_application_body uid tenant input subject db = do
  path ← ancestry db tenant input.group_id true
  connection ← connection_of db tenant input.connection_id
  check_project db tenant input input.project_id
  ok (
    new_application uid tenant input,
    audit tenant subject "application.created" uid
        (record db { applications = new_application uid tenant input ∷ db.applications }),
  )

unfoldable pub create_application :
    (uid tenant : ℕ) → ApplicationInput → (subject : String) → Db → Result Application × Db
unfolding create_application_body
create_application uid tenant input subject db =
    authorized (authorize db tenant subject true input.group_id none)
      (λ _. create_application_body uid tenant input subject) db

unfoldable pub pause_body :
    (tenant application_id : ℕ) (paused : Bool) (subject : String) → Db → Result (Application × Db)
pause_body tenant application_id paused subject db = do
  row ← application_of db tenant application_id
  ok (
    record row { paused = paused },
    audit tenant subject "application.pause_changed" row.id (record db {
      applications =
          update (λ a. a.id == row.id) (λ a. record a { paused = paused }) db.applications;
    }),
  )

unfoldable pub pause :
    (tenant application_id : ℕ) (paused : Bool) (subject : String) → Db → Result Application × Db
unfolding pause_body
pause tenant application_id paused subject db =
    authorized (authorize db tenant subject true none none)
      (λ _. pause_body tenant application_id paused subject) db

abbrev pub new_project : (uid tenant : ℕ) → String → Option ℕ → Project
new_project uid tenant name parent_id = record {
  id = uid;
  tenant_id = tenant;
  name = name;
  group_id = parent_id;
}

unfoldable pub create_project_body :
    (uid tenant : ℕ) (name : String) (parent_id : Option ℕ) (subject : String)
    → Db
    → Result (Project × Db)
create_project_body uid tenant name parent_id subject db = do
  path ← ancestry db tenant parent_id true
  ok (
    new_project uid tenant name parent_id,
    audit tenant subject "project.created" uid
        (record db { projects = new_project uid tenant name parent_id ∷ db.projects }),
  )

unfoldable pub create_project :
    (uid tenant : ℕ) (name : String) (parent_id : Option ℕ) (subject : String)
    → Db
    → Result Project × Db
unfolding create_project_body
create_project uid tenant name parent_id subject db =
    authorized (authorize db tenant subject true parent_id none)
      (λ _. create_project_body uid tenant name parent_id subject) db

abbrev pub new_account : (uid tenant : ℕ) → String → ℕ → ServiceAccount
new_account uid tenant name application_id = record {
  id = uid;
  tenant_id = tenant;
  name = name;
  application_id = application_id;
  active = true;
}

unfoldable pub create_service_account_body :
    (uid tenant : ℕ) (name : String) (application_id : ℕ) (subject : String)
    → Db
    → Result (ServiceAccount × Db)
create_service_account_body uid tenant name application_id subject db = do
  application ← application_of db tenant application_id
  ok (
    new_account uid tenant name application_id,
    audit tenant subject "service_account.created" uid (record db {
      service_accounts = new_account uid tenant name application_id ∷ db.service_accounts;
    }),
  )

unfoldable pub create_service_account :
    (uid tenant : ℕ) (name : String) (application_id : ℕ) (subject : String)
    → Db
    → Result ServiceAccount × Db
unfolding create_service_account_body
create_service_account uid tenant name application_id subject db =
    authorized (authorize db tenant subject true none none)
      (λ _. create_service_account_body uid tenant name application_id subject) db
