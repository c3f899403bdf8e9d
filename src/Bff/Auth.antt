-- ===== src/Bff/Auth.antt =====
-- auth.py
pub mod Laws
pub mod Strict
use agentic_identity_lab.Prelude.{
  ℕ, String, Bool, true, false, not, Option, none, some, List, [], ◌∷◌, if◌then◌else◌,
}
use agentic_identity_lab.Result.{http_exception, Result, ok, raise, ◌>>=◌}
use agentic_identity_lab.Value.{Dict, empty, entry}
use agentic_identity_lab.Host.{Host}
use agentic_identity_lab.Diagnostics.{get_correlation_id}
use agentic_identity_lab.Auth.TokenType.{classify_claims_token_type}
use agentic_identity_lab.Auth.Guards.{
  AuthContext, from_claims, many, require_audience, require_delegated_token, require_scope,
  validate_claims,
}
use agentic_identity_lab.Auth.Settings.{
  Headers, AuthMode, disabled, mock, strict, AuthSettings, load_auth_settings, load_auth_claims,
}
use agentic_identity_lab.Service.{Env, or_http, TokenPolicy, claim_policy}
use agentic_identity_lab.Bff.Config.{Settings, load_settings}

-- The claims of the request: validated in strict mode, else those of the fixture.
unfoldable pub request_claims :
    Env → Settings → AuthSettings → (authorization : Option String) → Result (Option Dict)
request_claims env settings auth_settings authorization = elim auth_settings.mode [
  | strict ↦
      or_http
        (env.strict_claims authorization settings.auth_jwks_url settings.allowed_audiences
          (some settings.auth_issuer))
        401 "invalid_token"
  | _ ↦ load_auth_claims env.read_fixture auth_settings
]

-- `if not claims`
abbrev present : Option Dict → Result Dict
present none = raise (http_exception 401 "missing_claims")
present (some empty) = raise (http_exception 401 "missing_claims")
present (some (entry k v d)) = ok (entry k v d)

abbrev pub refuse_first : List String → Result (Unit {0})
refuse_first [] = ok tt
refuse_first (failure ∷ more) = raise (http_exception 401 failure)

abbrev pub refuse_unless : Bool → (status_code : ℕ) (reason : String) → Result (Unit {0})
refuse_unless passed status_code reason =
    if passed then ok tt else raise (http_exception status_code reason)

-- The checks on the claims, in order: each raises at once.
unfoldable pub enforce : Host → TokenPolicy → (now : ℕ) → Dict → Result (Unit {0})
enforce host policy now claims = do
  claim_failures ← validate_claims host claims (claim_policy policy now)
  clean ← refuse_first claim_failures
  for_us ←
      refuse_unless (require_audience host claims (many policy.allowed_audiences)) 401
        "invalid_audience"
  delegated ← refuse_unless (require_delegated_token claims) 403 "delegated_required"
  refuse_unless (require_scope host claims (many policy.required_scopes)) 403 "missing_scope"

abbrev authenticate :
    Env
    → Settings
    → AuthSettings
    → (authorization : Option String) (correlation_id : String) → Result AuthContext
authenticate env settings auth_settings authorization correlation_id = do
  found ← request_claims env settings auth_settings authorization
  claims ← present found
  passed ← enforce env.host settings.policy env.now claims
  ok (
      from_claims env.host (some claims) (classify_claims_token_type (some claims)) true true []
        (some correlation_id))

unfoldable pub get_auth_context :
    Env → Headers → (authorization : Option String) → Result AuthContext
unfolding enforce request_claims
get_auth_context env headers authorization = do
  settings ← load_settings env
  let correlation_id = get_correlation_id headers settings.correlation_header env.fresh_id
  let auth_settings = load_auth_settings (some headers) none env.environ none
  elim auth_settings.mode [
    | disabled ↦ ok (from_claims env.host (some empty) "none" false true [] (some correlation_id))
    | _ ↦ authenticate env settings auth_settings authorization correlation_id
  ]
