-- ===== src/Mcp/Auth.antt =====
-- auth.py: the request's context, and the guards of the tools. The module's settings, read once when it
-- is imported, are an argument.
pub mod Laws
use agentic_identity_lab.Prelude.{
  ℕ, String, Bool, true, false, not, ◌&&◌, Option, none, some, List, [], ◌∷◌, is_nil, contains,
  if◌then◌else◌,
}
use agentic_identity_lab.Result.{http_exception, Result, ok, raise, ◌>>=◌}
use agentic_identity_lab.Value.{Dict, empty, dict_truthy}
use agentic_identity_lab.Host.{Host}
use agentic_identity_lab.Diagnostics.{get_correlation_id}
use agentic_identity_lab.Auth.TokenType.{classify_claims_token_type}
use agentic_identity_lab.Auth.Guards.{
  AuthContext, from_claims, many, require_audience, require_delegated_token, require_scope,
  validate_claims,
}
use agentic_identity_lab.Auth.Settings.{
  Headers, AuthMode, is_strict, is_disabled, AuthSettings, load_auth_settings, load_auth_claims,
}
use agentic_identity_lab.Service.{Env, or_http, header_value, TokenPolicy, claim_policy}
use agentic_identity_lab.Mcp.Config.{Settings}

abbrev pub access_scope : String
access_scope = "mcp.access"

abbrev pub write_scope : String
write_scope = "mcp.write"

unfoldable pub resolve_required_scopes : (configured : List String) → (scope : String) → List String
resolve_required_scopes configured scope =
    if is_nil configured
    then scope ∷ []
    else if contains scope configured
    then scope ∷ []
    else configured

unfoldable pub request_claims : Env → Settings → AuthSettings → Headers → Result (Option Dict)
request_claims env settings auth_settings headers =
    if is_strict auth_settings.mode
    then or_http
        (env.strict_claims (header_value headers "authorization") settings.auth_jwks_url
          settings.allowed_audiences (some settings.auth_issuer))
        401 "invalid_token"
    else load_auth_claims env.read_fixture auth_settings

-- The context of the claims, not yet enforced.
abbrev pub context_of : Host → AuthMode → Option Dict → (correlation_id : String) → AuthContext
context_of host mode none correlation_id =
    from_claims host (some empty) "none" false false ("claims_unavailable" ∷ [])
      (some correlation_id)
context_of host mode (some claims) correlation_id =
    from_claims host (some claims) (classify_claims_token_type (some claims))
      (not (is_disabled mode) && dict_truthy claims) (is_disabled mode) [] (some correlation_id)

unfoldable pub build_auth_context : Env → Settings → Headers → Result AuthContext
unfolding request_claims
build_auth_context env settings headers = do
  let auth_settings = load_auth_settings (some headers) none env.environ none
  claims ← request_claims env settings auth_settings headers
  ok (
      context_of env.host auth_settings.mode claims
        (get_correlation_id headers settings.correlation_header env.fresh_id))

abbrev pub refuse_unless : Bool → (status_code : ℕ) (detail : String) → Result (Unit {0})
refuse_unless passed status_code detail =
    if passed then ok tt else raise (http_exception status_code detail)

abbrev pub refuse_first : List String → Result (Unit {0})
refuse_first [] = ok tt
refuse_first (failure ∷ more) = raise (http_exception 401 failure)

-- The checks on the claims of a context, in order: each raises at once.
unfoldable pub enforce_claims :
    Host → TokenPolicy → (now : ℕ) → (required_scopes : List String) → Dict → Result (Unit {0})
enforce_claims host policy now required_scopes claims = do
  claim_failures ← validate_claims host claims (claim_policy policy now)
  clean ← refuse_first claim_failures
  for_us ←
      refuse_unless (require_audience host claims (many policy.allowed_audiences)) 401
        "invalid_audience"
  delegated ← refuse_unless (require_delegated_token claims) 403 "delegated_token_required"
  refuse_unless (require_scope host claims (many required_scopes)) 403 "missing_scope"

unfoldable pub enforce_mcp_auth :
    Env → Settings → AuthContext → (required_scopes : List String) → Result AuthContext
unfolding enforce_claims
enforce_mcp_auth env settings context required_scopes =
    if is_disabled settings.auth_mode
    then ok (
        from_claims env.host (some context.claims) context.token_type false true []
          context.correlation_id)
    else (do
      known ← refuse_unless context.authenticated 401 "authentication_required"
      passed ← enforce_claims env.host settings.policy env.now required_scopes context.claims
      ok (
          from_claims env.host (some context.claims) context.token_type true true []
            context.correlation_id))

-- A guard of the tools: `require_mcp_access` and `require_mcp_write` at their scopes.
unfoldable pub require_mcp : (scope : String) → Env → Settings → Headers → Result AuthContext
unfolding build_auth_context enforce_mcp_auth resolve_required_scopes
require_mcp scope env settings headers = do
  auth_context ← build_auth_context env settings headers
  enforce_mcp_auth env settings auth_context
      (resolve_required_scopes settings.required_scopes scope)

unfoldable pub require_mcp_access : Env → Settings → Headers → Result AuthContext
unfolding require_mcp
require_mcp_access = require_mcp access_scope

unfoldable pub require_mcp_write : Env → Settings → Headers → Result AuthContext
unfolding require_mcp
require_mcp_write = require_mcp write_scope
