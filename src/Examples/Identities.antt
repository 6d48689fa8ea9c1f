-- ===== src/Examples/Identities.antt =====
-- The identity behind a request to the control API, under two settings.
use quiblyx.Common.{
  ◌≡◌, refl, ap, ◌⊎◌, Bool, true, false, none, some, if◌then◌else◌, String, str_eq, str_eq_iff,
  Result, ok, err, http,
}
use quiblyx.Identity.{Decoder, Settings, identity, validate_credentials}
use quiblyx.Identity.Subjects.{IsLocal, IsVouchedFor, identity-IsAuthentic}

abbrev is_key : String → Bool
is_key text = str_eq text "key"

abbrev compare : String → String → Result Bool
compare a b = ok (str_eq a b)

compare-equal : (a b : String) → compare a b ≡ ok true → a ≡ b
compare-equal a b e = (str_eq_iff a b).0 (ap (λ r. elim r [ ok same ↦ same | err _ ↦ false ]) e)

-- One token is signed.
abbrev decode : Decoder
decode jwks_url audience issuer token = if str_eq token "signed" then some "ada" else none

abbrev development : Settings
development = record {
  product_name = "Quiblyx";
  database_url = "postgresql";
  redis_url = "redis";
  secret_key = "key";
  contract_signing_key = "";
  dev_identity = true;
  dev_login_token = "let me in";
  oidc_issuer = "";
  oidc_audience = "platform";
  oidc_jwks_url = "";
  smtp_host = "localhost";
  smtp_port = 1025;
  web_origin = "http://localhost:3000";
}

abbrev production : Settings
production = record development {
  dev_identity = false;
  oidc_issuer = "https://id";
  oidc_jwks_url = "https://id/keys";
}

production_verifies : identity compare decode production "Bearer signed" ≡ ok "ada"
unfolding identity
production_verifies = refl

-- The development token is worth nothing there.
production_refuses :
    identity compare decode production "Bearer let me in" ≡ err (http 401 "authentication_required")
unfolding identity
production_refuses = refl

no_header_refused :
    identity compare decode development "" ≡ err (http 401 "authentication_required")
unfolding identity
no_header_refused = refl

production_valid : validate_credentials is_key production ≡ ok production
unfolding validate_credentials
production_valid = refl

identity-IsAuthentic_example :
    IsLocal production "Bearer signed" "ada" ⊎ IsVouchedFor decode production "Bearer signed" "ada"
identity-IsAuthentic_example =
    identity-IsAuthentic is_key compare decode production "Bearer signed" "ada" compare-equal
      production_valid production_verifies
