-- ===== src/Identity.antt =====
-- packages/domain/config.py, the settings and their validation, and `identity` of
-- packages/domain/security.py, which finds the subject behind a request to the control API. PyJWT,
-- Fernet and `secrets.compare_digest` are parameters.
pub mod Subjects
use quiblyx.Common.{
  ℕ, Bool, true, false, not, ◌&&◌, ◌||◌, Option, none, some, String, str_eq, if◌then◌else◌,
  starts_with, Result, ok, err, http, value_error, ◌>>=◌, ◌>>◌, raise_if,
}
use quiblyx.Gateway.Authentication.{bearer}

pub record Settings : Type 0 where
  pub product_name : String
  pub database_url : String
  pub redis_url : String
  pub secret_key : String
  pub contract_signing_key : String
  pub dev_identity : Bool
  pub dev_login_token : String
  pub oidc_issuer : String
  pub oidc_audience : String
  pub oidc_jwks_url : String
  pub smtp_host : String
  pub smtp_port : ℕ
  pub web_origin : String

-- A text is true if it is not empty.
abbrev pub is_set : String → Bool
is_set text = not (str_eq text "")

-- `is_key` says which texts `Fernet` takes as its key.
unfoldable pub validate_credentials : (is_key : String → Bool) → Settings → Result Settings
validate_credentials is_key cfg = do
  raise_if (not (is_key cfg.secret_key))
      (value_error "Fernet key must be 32 url-safe base64-encoded bytes.")
  raise_if (cfg.dev_identity && not (is_set cfg.dev_login_token))
      (value_error "Development identity requires a generated DEV_LOGIN_TOKEN")
  raise_if
      (not cfg.dev_identity
        && (not (starts_with cfg.oidc_issuer "https://")
            || not (starts_with cfg.oidc_jwks_url "https://")))
      (value_error "Non-development mode requires HTTPS OIDC issuer and JWKS")
  ok cfg

-- What the identity provider's keys verify: the subject of a token.
abbrev pub Decoder : Type 0
Decoder = (jwks_url audience issuer token : String) → Option String

module _ (compare_digest : String → String → Result Bool) (decode : Decoder) where
  -- `cfg.dev_identity and cfg.dev_login_token and compare_digest(...)`
  unfoldable pub is_local_owner : Settings → (token : String) → Result Bool
  is_local_owner cfg token =
      if cfg.dev_identity && is_set cfg.dev_login_token
      then compare_digest token cfg.dev_login_token
      else ok false

  -- The subject that the identity provider vouches for.
  unfoldable pub verified_subject : Settings → (token : String) → Option String
  verified_subject cfg token =
      if is_set cfg.oidc_jwks_url && is_set cfg.oidc_issuer
      then decode cfg.oidc_jwks_url cfg.oidc_audience cfg.oidc_issuer token
      else none

  unfoldable pub identity : Settings → (authorization : String) → Result String
  unfolding is_local_owner verified_subject
  identity cfg authorization = do
    local ← is_local_owner cfg (bearer authorization)
    if local then ok "local-owner" else elim (verified_subject cfg (bearer authorization)) [
      | some subject ↦ ok subject
      | none ↦ err (http 401 "authentication_required")
    ]
