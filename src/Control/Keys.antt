-- ===== src/Control/Keys.antt =====
-- services/control_api/main.py: `create_key`, `revoke_key` and `rotate_key`. The secret that
-- `issue_secret` of packages/domain/security.py draws is an argument, and its digest (SHA-256) a
-- parameter.
use quiblyx.Common.{
  ℕ, Bool, true, false, not, ◌||◌, Option, none, some, List, ◌∷◌, String, ◌==◌, update, Result, ok,
  http, ◌>>=◌, ◌>>◌, raise_if, str_append, str_slice,
}
use quiblyx.Model.{Db, Application, Key, ServiceAccount, transaction}
use quiblyx.Security.{authorize}
use quiblyx.Control.Common.{audit, authorized, application_of, key_of, service_account_of}

pub record KeyInput : Type 0 where
  pub application_id : ℕ
  pub service_account_id : Option ℕ

abbrev pub new_service_account : ℕ → ℕ → Application → ServiceAccount
new_service_account uid tenant application = record {
  id = uid;
  tenant_id = tenant;
  name = str_append application.name " service";
  application_id = application.id;
  active = true;
}

-- The service account of the new key: a given one of the application, or a new one.
unfoldable pub choose_account :
    (uid tenant : ℕ) → Application → Option ℕ → Db → Result (ServiceAccount × Db)
choose_account uid tenant application (some account_id) db = do
  account ← service_account_of db tenant account_id
  raise_if (not (account.application_id == application.id) || not account.active)
      (http 403 "invalid_service_account")
  ok (account, db)
choose_account uid tenant application none db = ok (
  new_service_account uid tenant application,
  record db { service_accounts = new_service_account uid tenant application ∷ db.service_accounts },
)

abbrev pub revoke : ℕ → List Key → List Key
revoke key_id = update (λ k. k.id == key_id) (λ k. record k { revoked = true })

module _ (digest : String → String) where
  abbrev pub new_key : (uid tenant application_id : ℕ) → Option ℕ → (secret : String) → Key
  new_key uid tenant application_id account_id secret = record {
    id = uid;
    tenant_id = tenant;
    application_id = application_id;
    digest = digest secret;
    prefix = str_slice secret 0 12;
    revoked = false;
    service_account_id = account_id;
  }

  unfoldable pub create_key_body :
      (uid account_uid tenant : ℕ) → KeyInput → (secret subject : String) → Db → Result (Key × Db)
  unfolding choose_account
  create_key_body uid account_uid tenant input secret subject db = do
    application ← application_of db tenant input.application_id
    role ← authorize db tenant subject true application.group_id none
    chosen ← choose_account account_uid tenant application input.service_account_id db
    ok (
      new_key uid tenant application.id (some chosen.0.id) secret,
      audit tenant subject "key.issued" uid (record chosen.1 {
        keys = new_key uid tenant application.id (some chosen.0.id) secret ∷ chosen.1.keys;
      }),
    )

  unfoldable pub create_key :
      (uid account_uid tenant : ℕ) → KeyInput → (secret subject : String) → Db → Result Key × Db
  unfolding create_key_body
  create_key uid account_uid tenant input secret subject =
      transaction (create_key_body uid account_uid tenant input secret subject)

  unfoldable pub rotate_key_body :
      (uid tenant key_id : ℕ) (secret subject : String) → Db → Result (Key × Db)
  rotate_key_body uid tenant key_id secret subject db = do
    old ← key_of db tenant key_id
    ok (
      new_key uid tenant old.application_id old.service_account_id secret,
      audit tenant subject "key.rotated" uid (record db {
        keys =
            new_key uid tenant old.application_id old.service_account_id secret
            ∷ revoke old.id db.keys;
      }),
    )

  unfoldable pub rotate_key :
      (uid tenant key_id : ℕ) (secret subject : String) → Db → Result Key × Db
  unfolding rotate_key_body
  rotate_key uid tenant key_id secret subject db =
      authorized (authorize db tenant subject true none none)
        (λ _. rotate_key_body uid tenant key_id secret subject) db

unfoldable pub revoke_key_body : (tenant key_id : ℕ) (subject : String) → Db → Result (Bool × Db)
revoke_key_body tenant key_id subject db = do
  key ← key_of db tenant key_id
  ok (true, audit tenant subject "key.revoked" key.id (record db { keys = revoke key.id db.keys }))

unfoldable pub revoke_key : (tenant key_id : ℕ) (subject : String) → Db → Result Bool × Db
unfolding revoke_key_body
revoke_key tenant key_id subject db =
    authorized (authorize db tenant subject true none none)
      (λ _. revoke_key_body tenant key_id subject) db
