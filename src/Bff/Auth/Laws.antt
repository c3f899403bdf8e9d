-- ===== src/Bff/Auth/Laws.antt =====
-- The BFF lets a request through exactly when its claims are granted.
use agentic_identity_lab.Prelude.{
  ℕ, ◌≡◌, refl, sym, ap, ◌∙◌, ◌≢◌, ◌↔◌, String, Bool, true, false, Option, none, some, List, [],
  ◌∷◌, arith,
}
use agentic_identity_lab.Result.{ok, >>=-eq-ok, ok_injective}
use agentic_identity_lab.Value.{Dict, empty, entry, dict_truthy}
use agentic_identity_lab.Host.{Host}
use agentic_identity_lab.Diagnostics.{get_correlation_id}
use agentic_identity_lab.Auth.TokenType.{classify_claims_token_type}
use agentic_identity_lab.Auth.Guards.{AuthContext, from_claims}
use agentic_identity_lab.Auth.Guards.Laws.{validate_claims_iff}
use agentic_identity_lab.Auth.Settings.{
  Headers, AuthMode, disabled, mock, strict, load_auth_settings, load_auth_mode,
}
use agentic_identity_lab.Service.{Env, TokenPolicy, claim_policy}
use agentic_identity_lab.Service.Granted.{IsGranted}
use agentic_identity_lab.Bff.Config.{Settings, load_settings}
use agentic_identity_lab.Bff.Auth.{
  request_claims, present, refuse_first, refuse_unless, enforce, authenticate, get_auth_context,
}

refuse_first_ok :
    (failures : List String) (u : Unit {0}) → refuse_first failures ≡ ok u → failures ≡ []
refuse_first_ok [] u h = refl
refuse_first_ok (f ∷ fs) u h = cc

refuse_unless_ok :
    (passed : Bool) (status_code : ℕ) (reason : String) (u : Unit {0})
    → refuse_unless passed status_code reason ≡ ok u
    → passed ≡ true
refuse_unless_ok true status_code reason u h = refl
refuse_unless_ok false status_code reason u h = cc

module _ (host : Host) (policy : TokenPolicy) (now : ℕ) (claims : Dict) where
  -- The BFF's checks pass exactly for granted claims.
  pub enforce_iff :
      (enforce host policy now claims ≡ ok tt)
      ↔ IsGranted host policy now policy.required_scopes claims
  unfolding enforce
  enforce_iff = (
    λ h.
        let (failures, validated, h₁) = >>=-eq-ok _ _ h in
        let (u, clean, h₂) = >>=-eq-ok _ _ h₁ in
        let (v, for_us, h₃) = >>=-eq-ok _ _ h₂ in
        let (w, delegated, h₄) = >>=-eq-ok _ _ h₃ in
        record {
          acceptable =
              (validate_claims_iff host (claim_policy policy now) claims).0
                (validated ∙ ap ok (refuse_first_ok failures u clean));
          audience = refuse_unless_ok _ _ _ v for_us;
          delegated = refuse_unless_ok _ _ _ w delegated;
          scope = refuse_unless_ok _ _ _ tt h₄;
        },
    λ g. rw (
      (validate_claims_iff host (claim_policy policy now) claims).1 g.acceptable,
      g.audience,
      g.delegated,
      g.scope,
    ),
  )

present_ok :
    (found : Option Dict) (claims : Dict)
    → present found ≡ ok claims
    → (found ≡ some claims) × (dict_truthy claims ≡ true)
present_ok (some (entry k v d)) claims h = ground arith
present_ok (some empty) claims h = cc
present_ok none claims h = cc

-- How a context comes about: authentication is off, or the request's claims are granted.
pub record IsAdmitted (env : Env) (headers : Headers) (authorization : Option String)
    (context : AuthContext) : Type 0 where
  pub settings : Settings
  pub loaded : load_settings env ≡ ok settings
  pub claims : Dict
  pub found :
      request_claims env settings
        (load_auth_settings (some headers) none env.environ none)
        authorization
      ≡ ok (some claims)
  pub granted : IsGranted env.host settings.policy env.now settings.required_scopes claims
  pub result :
      context
      ≡ from_claims env.host
          (some claims)
          (classify_claims_token_type (some claims))
          true
          true
          []
          (some (get_correlation_id headers settings.correlation_header env.fresh_id))

module _ (env : Env) (headers : Headers) (authorization : Option String) where
  authenticate_ok :
      (settings : Settings) (context : AuthContext)
      → load_settings env ≡ ok settings
      → authenticate env settings
          (load_auth_settings (some headers) none env.environ none)
          authorization
          (get_correlation_id headers settings.correlation_header env.fresh_id)
        ≡ ok context
      → IsAdmitted env headers authorization context
  authenticate_ok settings context loaded h =
      let (found, requested, h₁) = >>=-eq-ok _ _ h in
      let (claims, given, h₂) = >>=-eq-ok _ _ h₁ in
      let (u, passed, h₃) = >>=-eq-ok _ _ h₂ in
      record {
        settings = settings;
        loaded = loaded;
        claims = claims;
        found = requested ∙ ap ok (present_ok found claims given).0;
        granted = (enforce_iff env.host settings.policy env.now claims).0 passed;
        result = sym (ok_injective h₃);
      }

  -- With authentication on, a request gets a context only if its claims are granted under the
  -- settings; the context is then authenticated and authorized, with the sanitized claims.
  pub get_auth_context-IsAdmitted :
      (context : AuthContext)
      → load_auth_mode none env.environ ≢ disabled
      → get_auth_context env headers authorization ≡ ok context
      → IsAdmitted env headers authorization context
  unfolding get_auth_context load_auth_settings
  get_auth_context-IsAdmitted context on h =
      let (settings, loaded, h₁) = >>=-eq-ok _ _ h in
      authenticate_ok settings context loaded
        (by_mode settings (load_auth_mode none env.environ) on h₁)
    where
      by_mode :
          (settings : Settings) (mode : AuthMode)
          → mode ≢ disabled
          → (elim mode [
            | disabled ↦ ok (
                from_claims env.host
                  (some empty)
                  "none"
                  false
                  true
                  []
                  (some (get_correlation_id headers settings.correlation_header env.fresh_id)))
            | _ ↦
                authenticate env settings
                  (load_auth_settings (some headers) none env.environ none)
                  authorization
                  (get_correlation_id headers settings.correlation_header env.fresh_id)
          ])
            ≡ ok context
          → authenticate env settings
              (load_auth_settings (some headers) none env.environ none)
              authorization
              (get_correlation_id headers settings.correlation_header env.fresh_id)
            ≡ ok context
      by_mode settings disabled off e = absurd (off refl)
      by_mode settings mock off e = e
      by_mode settings strict off e = e
