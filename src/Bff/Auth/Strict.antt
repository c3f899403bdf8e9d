-- ===== src/Bff/Auth/Strict.antt =====
-- The BFF in strict mode, over the shared caches of Auth.Jwks.Shared.
use agentic_identity_lab.Prelude.{ℕ, ◌≡◌, String, Option, none, some}
use agentic_identity_lab.Result.{value_error, Result, ok, raise}
use agentic_identity_lab.Value.{Dict}
use agentic_identity_lab.Auth.Guards.{AuthContext}
use agentic_identity_lab.Auth.Settings.{
  Headers, strict, AuthSettings, load_auth_mode, load_auth_settings, extract_bearer_token,
}
use agentic_identity_lab.Auth.Jwks.Cache.{Network}
use agentic_identity_lab.Auth.Jwks.Strict.{Jwt, listed_issuers}
use agentic_identity_lab.Auth.Jwks.Strict.Laws.{Validated}
use agentic_identity_lab.Auth.Jwks.Shared.{SharedState, load_strict_claims_from_authorization}
use agentic_identity_lab.Auth.Jwks.Shared.Sound.{cache_state, load_strict_claims-Validated}
use agentic_identity_lab.Service.{Env, or_http}
use agentic_identity_lab.Bff.Config.{Settings}
use agentic_identity_lab.Bff.Auth.{request_claims, get_auth_context}
use agentic_identity_lab.Bff.Auth.Laws.{IsAdmitted, get_auth_context-IsAdmitted}

pub or_http_ok {ℓ} :
    {A : Type ℓ} (m : Result A) (status_code : ℕ) (detail : String) (a : A)
    → or_http m status_code detail ≡ ok a
    → m ≡ ok a
or_http_ok (ok b) status_code detail a h = h
or_http_ok (raise (value_error m)) status_code detail a h = cc
or_http_ok (raise e) status_code detail a h = cc

module _ {Key : Type 0} (net : Network) (jwt : Jwt Key) (shared : SharedState) where
  -- The surroundings in which strict claims are loaded over the shared caches.
  unfoldable pub with_strict : Env → Env
  with_strict env = record env {
    strict_claims = λ authorization jwks_url allowed_audiences issuer.
        (load_strict_claims_from_authorization net jwt authorization jwks_url allowed_audiences
          issuer none shared).0;
  }

  -- The claims of an admitted request, and the token that they come from.
  pub record IsTrusted (env : Env) (headers : Headers) (authorization : Option String)
      (context : AuthContext) : Type 0 where
    pub admitted : IsAdmitted (with_strict env) headers authorization context
    pub token : String
    pub inbound : extract_bearer_token authorization ≡ some token
    pub validated :
        Validated net jwt token admitted.settings.allowed_audiences
          (some admitted.settings.auth_issuer)
          (listed_issuers none)
          (cache_state admitted.settings.auth_jwks_url shared)
          admitted.claims

  requested :
      (env : Env) (settings : Settings) (auth_settings : AuthSettings)
      (authorization : Option String) (claims : Dict)
      → auth_settings.mode ≡ strict
      → request_claims (with_strict env) settings auth_settings authorization ≡ ok (some claims)
      → (load_strict_claims_from_authorization net jwt authorization settings.auth_jwks_url
          settings.allowed_audiences
          (some settings.auth_issuer)
          none
          shared).0
        ≡ ok (some claims)
  unfolding request_claims with_strict
  requested env settings auth_settings authorization claims on h =
      or_http_ok _ 401 "invalid_token" (some claims) (rw on at h)

  -- In strict mode the BFF admits a request only with a bearer token that went through the strict
  -- validation, under the configured address, audiences and issuer, and whose claims are granted.
  pub get_auth_context-IsTrusted :
      (env : Env) (headers : Headers) (authorization : Option String) (context : AuthContext)
      → load_auth_mode none env.environ ≡ strict
      → get_auth_context (with_strict env) headers authorization ≡ ok context
      → IsTrusted env headers authorization context
  unfolding with_strict load_auth_settings
  get_auth_context-IsTrusted env headers authorization context on h =
      let a =
        get_auth_context-IsAdmitted (with_strict env) headers authorization context
          (λ off. cc (on, off)) h in
      let (token, inbound, validated) =
        load_strict_claims-Validated net jwt authorization a.settings.auth_jwks_url
          a.settings.allowed_audiences (some a.settings.auth_issuer) none shared a.claims
          (requested env a.settings _ authorization a.claims on a.found) in
      record { admitted = a; token = token; inbound = inbound; validated = validated }
