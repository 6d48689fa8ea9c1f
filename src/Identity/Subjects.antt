-- ===== src/Identity/Subjects.antt =====
-- packages/domain/security.py, `identity`, under settings that packages/domain/config.py accepts.
use quiblyx.Common.{
  ◌≡◌, ◌∙◌, ap, ◌⊎◌, inl, inr, Bool, true, false, some, Option-cases, arith, String, starts_with,
  Result, ok, Result-cases,
}
use quiblyx.Gateway.Authentication.{bearer}
use quiblyx.Identity.{
  Decoder, Settings, identity, is_local_owner, is_set, validate_credentials, verified_subject,
}

module _ (compare_digest : String → String → Result Bool) (decode : Decoder) where
  is_local_owner-eq-true :
      (cfg : Settings) (token : String)
      → is_local_owner compare_digest decode cfg token ≡ ok true
      → (cfg.dev_identity ≡ true)
        × (is_set cfg.dev_login_token ≡ true)
        × (compare_digest token cfg.dev_login_token ≡ ok true)
  unfolding is_local_owner
  is_local_owner-eq-true cfg token e = ground arith

  verified_subject-eq-some :
      (cfg : Settings) (token subject : String)
      → verified_subject compare_digest decode cfg token ≡ some subject
      → (is_set cfg.oidc_issuer ≡ true)
        × (decode cfg.oidc_jwks_url cfg.oidc_audience cfg.oidc_issuer token ≡ some subject)
  unfolding verified_subject
  verified_subject-eq-some cfg token subject e = ground arith

-- Why a subject may stand for a request.
pub record IsLocal (cfg : Settings) (authorization subject : String) : Type 0 where
  pub development : cfg.dev_identity ≡ true
  pub named : subject ≡ "local-owner"
  pub token : bearer authorization ≡ cfg.dev_login_token
  pub not_empty : is_set cfg.dev_login_token ≡ true

pub record IsVouchedFor (decode : Decoder) (cfg : Settings) (authorization subject : String)
    : Type 0 where
  pub verified :
      decode cfg.oidc_jwks_url cfg.oidc_audience cfg.oidc_issuer (bearer authorization)
      ≡ some subject
  pub issuer : is_set cfg.oidc_issuer ≡ true
  -- Outside development the issuer and its keys are reached over HTTPS.
  pub secure :
      cfg.dev_identity ≡ false
      → (starts_with cfg.oidc_issuer "https://" ≡ true)
        × (starts_with cfg.oidc_jwks_url "https://" ≡ true)

-- Under settings that pass validation, a subject that is returned is either `local-owner`, in
-- development mode, for the configured login token, which is not empty; or the subject that the
-- configured identity provider verifies for the bearer token, whose issuer and keys are HTTPS
-- addresses outside development mode. `compare_digest` must hold only of equal texts.
pub identity-IsAuthentic :
    (is_key : String → Bool) (compare_digest : String → String → Result Bool) (decode : Decoder)
    (cfg : Settings) (authorization subject : String)
    → ((a b : String) → compare_digest a b ≡ ok true → a ≡ b)
    → validate_credentials is_key cfg ≡ ok cfg
    → identity compare_digest decode cfg authorization ≡ ok subject
    → IsLocal cfg authorization subject ⊎ IsVouchedFor decode cfg authorization subject
unfolding validate_credentials identity
identity-IsAuthentic is_key compare_digest decode cfg authorization subject equal valid e =
    let token = bearer authorization in
    elim (Result-cases (is_local_owner compare_digest decode cfg token)) [
      | inl (x, failed) ↦ absurd (ground arith)
      | inr (true, done) ↦
          let (development, not_empty, same) =
            is_local_owner-eq-true compare_digest decode cfg token done in
          inl (record {
            development = development;
            named = ground arith;
            token = equal token cfg.dev_login_token same;
            not_empty = not_empty;
          })
      | inr (false, done) ↦ elim (Option-cases (verified_subject compare_digest decode cfg token)) [
        | inl missing ↦ absurd (ground arith)
        | inr (found, vouched) ↦
            let (issuer, verified) =
              verified_subject-eq-some compare_digest decode cfg token found vouched in
            let same : found ≡ subject = ground arith in
            inr (record {
              verified = verified ∙ ap (λ s. some s) same;
              issuer = issuer;
              secure = λ production. ground arith;
            })
      ]
    ]
