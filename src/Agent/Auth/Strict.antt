-- ===== src/Agent/Auth/Strict.antt =====
-- The agent in strict mode, over the shared caches of Auth.Jwks.Shared.
use agentic_identity_lab.Prelude.{◌≡◌, String, none, some}
use agentic_identity_lab.Result.{ok}
use agentic_identity_lab.Value.{Dict}
use agentic_identity_lab.Auth.Guards.{AuthContext}
use agentic_identity_lab.Auth.Settings.{
  Headers, strict, AuthSettings, load_auth_mode, load_auth_settings, extract_bearer_token,
}
use agentic_identity_lab.Auth.Jwks.Cache.{Network}
use agentic_identity_lab.Auth.Jwks.Strict.{Jwt, listed_issuers}
use agentic_identity_lab.Auth.Jwks.Strict.Laws.{Validated}
use agentic_identity_lab.Auth.Jwks.Shared.{SharedState, load_strict_claims_from_authorization}
use agentic_identity_lab.Auth.Jwks.Shared.Sound.{cache_state, load_strict_claims-Validated}
use agentic_identity_lab.Service.{Env, header_value}
use agentic_identity_lab.Bff.Auth.Strict.{with_strict, or_http_ok}
use agentic_identity_lab.Agent.Config.{Settings}
use agentic_identity_lab.Agent.Auth.{request_claims, resolve_auth_context}
use agentic_identity_lab.Agent.Auth.Laws.{IsResolved, resolve_auth_context-IsResolved}

module _ {Key : Type 0} (net : Network) (jwt : Jwt Key) (shared : SharedState) where
  -- The claims that the agent granted, and the token that they come from.
  pub record IsVerified (env : Env) (headers : Headers) (context : AuthContext) : Type 0 where
    pub resolved : IsResolved (with_strict net jwt shared env) headers context
    pub token : String
    pub inbound : extract_bearer_token (header_value headers "authorization") ≡ some token
    pub validated :
        Validated net jwt token resolved.settings.allowed_audiences
          (some resolved.settings.auth_issuer)
          (listed_issuers none)
          (cache_state resolved.settings.auth_jwks_url shared)
          resolved.claims

  requested :
      (env : Env) (settings : Settings) (auth_settings : AuthSettings) (headers : Headers)
      (claims : Dict)
      → auth_settings.mode ≡ strict
      → request_claims (with_strict net jwt shared env) settings auth_settings headers
        ≡ ok (some claims)
      → (load_strict_claims_from_authorization net jwt
          (header_value headers "authorization")
          settings.auth_jwks_url
          settings.allowed_audiences
          (some settings.auth_issuer)
          none
          shared).0
        ≡ ok (some claims)
  unfolding request_claims with_strict
  requested env settings auth_settings headers claims on h =
      or_http_ok _ 401 "invalid_token" (some claims) (rw on at h)

  -- In strict mode the agent gives a request a context only if its own bearer token went through the
  -- strict validation, under the agent's address, audiences and issuer, and its claims are granted.
  pub resolve_auth_context-IsVerified :
      (env : Env) (headers : Headers) (context : AuthContext)
      → load_auth_mode none env.environ ≡ strict
      → resolve_auth_context (with_strict net jwt shared env) headers ≡ ok context
      → IsVerified env headers context
  unfolding with_strict load_auth_settings
  resolve_auth_context-IsVerified env headers context on h =
      let a =
        resolve_auth_context-IsResolved (with_strict net jwt shared env) headers context
          (λ off. cc (on, off)) h in
      let (token, inbound, validated) =
        load_strict_claims-Validated net jwt (header_value headers "authorization")
          a.settings.auth_jwks_url a.settings.allowed_audiences (some a.settings.auth_issuer) none
          shared a.claims (requested env a.settings _ headers a.claims on a.found) in
      record { resolved = a; token = token; inbound = inbound; validated = validated }
