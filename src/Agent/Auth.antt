-- ===== src/Agent/Auth.antt =====
-- auth.py: the request's context, the exchanges for the MCP service, and the sidecar's agent exchange.
pub mod Laws
pub mod Strict
pub mod Agreement
pub mod Sidecar
use agentic_identity_lab.Prelude.{
  ℕ, String, Bool, true, false, not, ◌&&◌, Option, none, some, List, [], ◌∷◌, ◌++◌, map, keep,
  is_nil, is_blank, split, join, intersects, or_default, ◌==◌, ◌<+>◌, if◌then◌else◌,
}
use agentic_identity_lab.Result.{value_error, http_exception, Result, ok, raise, ◌>>=◌}
use agentic_identity_lab.Value.{
  Value, str, list, Dict, empty, entry, get, truthy, or_value, to_list, dict_truthy,
}
use agentic_identity_lab.Host.{Host, to_text}
use agentic_identity_lab.Diagnostics.{get_correlation_id}
use agentic_identity_lab.Auth.TokenType.{classify_claims_token_type}
use agentic_identity_lab.Auth.Guards.{
  AuthContext, from_claims, many, require_audience, require_delegated_token, require_scope,
  validate_claims, report,
}
use agentic_identity_lab.Auth.Settings.{
  Headers, AuthMode, strict, is_strict, is_disabled, AuthSettings, load_auth_settings,
  load_auth_claims,
}
use agentic_identity_lab.Auth.Obo.{exchange_on_behalf_of, exchange_entra_on_behalf_of}
use agentic_identity_lab.Auth.AgentObo.{AgentSidecarClient}
use agentic_identity_lab.Service.{Env, or_http, header_value, TokenPolicy, claim_policy}
use agentic_identity_lab.Agent.Config.{Settings, load_settings, obo_config}

pub record OboExchange : Type 0 where
  pub authorization : String
  pub claims : Dict

-- `_extract_scopes`, the same in auth.py and main.py
unfoldable pub extract_obo_scopes : Host → Dict → List String
extract_obo_scopes host claims = elim (or_value (get "scp" claims) (get "scope" claims)) [
  | str s ↦ keep (λ item. not (is_blank item)) (split s)
  | list items ↦ map (to_text host) (keep truthy (to_list items))
  | _ ↦ []
]

abbrev pub unauthorized_reasons : List String
unauthorized_reasons =
    "invalid_audience" ∷ "missing_claims" ∷ "missing_issuer" ∷ "invalid_issuer" ∷ "missing_tenant"
    ∷ "untrusted_tenant" ∷ "missing_exp" ∷ "invalid_exp" ∷ "token_expired" ∷ "missing_nbf"
    ∷ "invalid_nbf" ∷ "token_not_yet_valid" ∷ "invalid_iat" ∷ "token_issued_in_future" ∷ []

unfoldable pub status_for_failures : List String → ℕ
status_for_failures failures = if intersects failures unauthorized_reasons then 401 else 403

-- The reasons against a token that is classified, in the order in which they are collected.
unfoldable pub token_failures : Host → TokenPolicy → (now : ℕ) → Dict → Result (List String)
token_failures host policy now claims = do
  claim_failures ← validate_claims host claims (claim_policy policy now)
  ok (
      claim_failures
      ++ (report (not (require_delegated_token claims)) "delegated_required"
          ++ (report (not (require_audience host claims (many policy.allowed_audiences)))
                "invalid_audience"
              ++ report (not (require_scope host claims (many policy.required_scopes)))
                  "missing_scope")))

unfoldable pub failure_reasons : Host → TokenPolicy → (now : ℕ) → Dict → Result (List String)
unfolding token_failures
failure_reasons host policy now claims =
    if classify_claims_token_type (some claims) == "none"
    then ok ("missing_claims" ∷ [])
    else token_failures host policy now claims

-- The context of authorized claims, or the refusal.
unfoldable pub decide :
    Host → TokenPolicy → (now : ℕ) → Dict → (correlation_id : String) → Result AuthContext
unfolding failure_reasons status_for_failures
decide host policy now claims correlation_id = do
  failures ← failure_reasons host policy now claims
  let token_type = classify_claims_token_type (some claims)
  let authenticated = not (token_type == "none")
  let authorized = authenticated && is_nil failures
  (if authorized
      then ok (
          from_claims host (some claims) token_type authenticated authorized failures
            (some correlation_id))
      else raise (http_exception (status_for_failures failures) "Authorization failed."))

-- `if not claims`
abbrev pub present : Option Dict → Result Dict
present none = raise (http_exception 401 "Missing or invalid token claims.")
present (some empty) = raise (http_exception 401 "Missing or invalid token claims.")
present (some (entry k v d)) = ok (entry k v d)

unfoldable pub request_claims : Env → Settings → AuthSettings → Headers → Result (Option Dict)
request_claims env settings auth_settings headers =
    if is_strict auth_settings.mode
    then or_http
        (env.strict_claims (header_value headers "authorization") settings.auth_jwks_url
          settings.allowed_audiences (some settings.auth_issuer))
        401 "invalid_token"
    else load_auth_claims env.read_fixture auth_settings

abbrev pub authenticate : Env → Settings → Headers → (correlation_id : String) → Result AuthContext
authenticate env settings headers correlation_id = do
  found ←
      request_claims env settings (load_auth_settings (some headers) none env.environ none) headers
  claims ← present found
  decide env.host settings.policy env.now claims correlation_id

unfoldable pub resolve_auth_context : Env → Headers → Result AuthContext
unfolding request_claims decide
resolve_auth_context env headers = do
  settings ← load_settings env
  let correlation_id = get_correlation_id headers settings.correlation_header env.fresh_id
  (if is_disabled settings.auth_mode
      then ok (from_claims env.host (some empty) "none" false true [] (some correlation_id))
      else authenticate env settings headers correlation_id)

-- The exchange outside of strict mode.
unfoldable pub exchange_mock_for_mcp : Env → AuthContext → Settings → Result OboExchange
exchange_mock_for_mcp env context settings = do
  obo_claims ←
      exchange_on_behalf_of env.host context settings.obo_downstream_audience
        (many settings.obo_required_scopes)
  ok (record { authorization = "Bearer obo-token"; claims = obo_claims })

-- `exchange_strict_for_mcp`, which goes back to `exchange_for_mcp` outside of strict mode
unfoldable pub exchange_strict_for_mcp :
    Env → AuthContext → (authorization : Option String) → Settings → Result OboExchange
unfolding exchange_mock_for_mcp
exchange_strict_for_mcp env context authorization settings =
    if not (is_strict settings.auth_mode) then exchange_mock_for_mcp env context settings else (do
      authorization_header ←
          exchange_entra_on_behalf_of env.token_endpoint authorization (obo_config settings)
            "Strict Agent to MCP chain"
      ok (record {
        authorization = authorization_header;
        claims =
            entry "aud" (str settings.obo_downstream_audience)
              (entry "scp" (str (join " " settings.obo_required_scopes)) empty);
      }))

unfoldable pub exchange_for_mcp :
    Env → AuthContext → Settings → (authorization : Option String) → Result OboExchange
unfolding exchange_strict_for_mcp
exchange_for_mcp env context settings authorization =
    if is_strict settings.auth_mode
    then exchange_strict_for_mcp env context authorization settings
    else exchange_mock_for_mcp env context settings

-- `except ValueError as exc: raise HTTPException(401, detail=f"{prefix}{exc}")`
abbrev pub refuse_with {ℓ} : {A : Type ℓ} → (prefix : String) → Result A → Result A
refuse_with prefix (ok a) = ok a
refuse_with prefix (raise (value_error message)) = raise (http_exception 401 (prefix <+> message))
refuse_with prefix (raise e) = raise e

unfoldable pub validate_agent_blueprint : (bearer_token : String) → AgentSidecarClient → Result Dict
validate_agent_blueprint bearer_token sidecar_client =
    refuse_with "Blueprint audience validation failed: " (sidecar_client.validate bearer_token)

unfoldable pub exchange_agent_obo :
    (bearer_token : String)
    → AgentSidecarClient
    → (api_name : String) → (scopes : Option (List String)) → Result OboExchange
exchange_agent_obo bearer_token sidecar_client api_name scopes = do
  downstream_claims ←
      refuse_with "Agent OBO exchange failed: "
        (sidecar_client.downstream_api api_name bearer_token (or_default scopes []))
  ok (record {
    authorization = sidecar_client.authorization_header api_name;
    claims = downstream_claims;
  })
