-- ===== src/Gateway/Authentication.antt =====
-- services/gateway/main.py, `authenticate`: the key behind an Authorization header.
pub mod Revocation
use quiblyx.Common.{
  ℕ, Bool, true, false, not, ◌&&◌, ◌||◌, Option, none, some, String, str_eq, ◌==◌, if◌then◌else◌,
  scalar, Result, ok, err, http, ◌>>=◌, ◌>>◌, raise_if, or_raise, str_slice, byte_len, starts_with,
}
use quiblyx.Model.{Db, Key, ServiceAccount}

-- `authorization.removeprefix("Bearer ")`
abbrev pub bearer : String → String
bearer authorization =
    if starts_with authorization "Bearer "
    then str_slice authorization 7 (byte_len authorization)
    else authorization

abbrev pub service_account_at : Db → ℕ → ℕ → Option ServiceAccount
service_account_at db tenant account_id =
    scalar (λ a. (a.tenant_id == tenant) && (a.id == account_id)) db.service_accounts

-- A key with a service account needs that account to exist and to be active.
unfoldable pub check_account : Db → ℕ → Option ℕ → Result (Unit {0})
check_account db tenant none = ok tt
check_account db tenant (some account_id) = do
  account ← or_raise (service_account_at db tenant account_id) (http 401 "invalid_key")
  raise_if (not account.active) (http 401 "invalid_key")

module _ (digest : String → String) where
  abbrev pub live_key : Db → String → Option Key
  live_key db secret = scalar (λ k. str_eq k.digest (digest secret) && not k.revoked) db.keys

  -- The tenant, the key and the application of the caller.
  unfoldable pub authenticate : Db → (authorization : String) → Result (ℕ × ℕ × ℕ)
  unfolding check_account
  authenticate db authorization = do
    key ← or_raise (live_key db (bearer authorization)) (http 401 "invalid_key")
    check_account db key.tenant_id key.service_account_id
    ok (key.tenant_id, key.id, key.application_id)
