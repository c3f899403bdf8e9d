-- ===== src/Mcp/Auth/Laws.antt =====
-- What a context that passes the guards of the tools stands on.
use agentic_identity_lab.Prelude.{
  ℕ, ◌≡◌, refl, sym, ap, subst, ◌∙◌, ◌↔◌, ◌⊎◌, inl, inr, String, Bool, true, false, some, List, [],
  ◌∷◌, arith, is_nil, keep, contains, strip, lstrip, rstrip, is_space, eq_iff,
}
use agentic_identity_lab.Result.{ok, ◌>>=◌, >>=-eq-ok, ok_injective}
use agentic_identity_lab.Value.{Dict}
use agentic_identity_lab.Host.{Host}
use agentic_identity_lab.Auth.Guards.{
  AuthContext, from_claims, many, normalize_required, extract_scopes, require_scope,
}
use agentic_identity_lab.Auth.Guards.Laws.{validate_claims_iff, require_scope_iff}
use agentic_identity_lab.Auth.Settings.{Headers, is_disabled}
use agentic_identity_lab.Service.{Env, TokenPolicy, claim_policy}
use agentic_identity_lab.Service.Granted.{IsGranted}
use agentic_identity_lab.Mcp.Config.{Settings}
use agentic_identity_lab.Mcp.Auth.{
  write_scope, resolve_required_scopes, build_auth_context, refuse_unless, refuse_first,
  enforce_claims, enforce_mcp_auth, require_mcp, require_mcp_write,
}

refuse_first_ok :
    (failures : List String) (u : Unit {0}) → refuse_first failures ≡ ok u → failures ≡ []
refuse_first_ok [] u h = refl
refuse_first_ok (f ∷ fs) u h = cc

refuse_unless_ok :
    (passed : Bool) (status_code : ℕ) (reason : String) (u : Unit {0})
    → refuse_unless passed status_code reason ≡ ok u
    → passed ≡ true
refuse_unless_ok true status_code reason u h = refl
refuse_unless_ok false status_code reason u h = cc

module _ (host : Host) (policy : TokenPolicy) (now : ℕ) (required : List String)
    (claims : Dict) where
  -- The checks pass exactly for granted claims.
  pub enforce_claims_iff :
      (enforce_claims host policy now required claims ≡ ok tt)
      ↔ IsGranted host policy now required claims
  unfolding enforce_claims
  enforce_claims_iff = (
    λ h.
        let (failures, validated, h₁) = >>=-eq-ok _ _ h in
        let (u, clean, h₂) = >>=-eq-ok _ _ h₁ in
        let (v, for_us, h₃) = >>=-eq-ok _ _ h₂ in
        let (w, delegated, h₄) = >>=-eq-ok _ _ h₃ in
        record {
          acceptable =
              (validate_claims_iff host (claim_policy policy now) claims).0
                (validated ∙ ap ok (refuse_first_ok failures u clean));
          audience = refuse_unless_ok _ _ _ v for_us;
          delegated = refuse_unless_ok _ _ _ w delegated;
          scope = refuse_unless_ok _ _ _ tt h₄;
        },
    λ g. rw (
      (validate_claims_iff host (claim_policy policy now) claims).1 g.acceptable,
      g.audience,
      g.delegated,
      g.scope,
    ),
  )

-- A context that passes a guard: it was authenticated, and its claims are granted.
pub record IsEnforced (env : Env) (settings : Settings) (required : List String)
    (context result : AuthContext) : Type 0 where
  pub authenticated : context.authenticated ≡ true
  pub granted : IsGranted env.host settings.policy env.now required context.claims
  pub same :
      result
      ≡ from_claims env.host
          (some context.claims)
          context.token_type
          true
          true
          []
          context.correlation_id

resolve_write :
    (configured : List String)
    → (is_nil configured ≡ true) ⊎ (contains write_scope configured ≡ true)
    → resolve_required_scopes configured write_scope ≡ write_scope ∷ []
unfolding resolve_required_scopes
resolve_write configured (inl e) = ground arith
resolve_write configured (inr e) = ground arith

only_write : normalize_required (many (write_scope ∷ [])) ≡ write_scope ∷ []
unfolding normalize_required keep strip lstrip rstrip is_space
only_write = refl

holds_write :
    (host : Host) (claims : Dict)
    → require_scope host claims (many (write_scope ∷ [])) ≡ true
    → contains write_scope (extract_scopes host claims) ≡ true
unfolding contains
holds_write host claims g = elim ((require_scope_iff host claims (many (write_scope ∷ []))).0 g) [
  | inl e ↦ let contra = sym only_write ∙ e in cc
  | inr (a, p, q) ↦
      let same = subst (λ r. contains a r ≡ true) only_write q in
      ground (arith, eq_iff write_scope a)
]

module _ (env : Env) (settings : Settings) where
  pub enforce_mcp_auth_iff :
      (context result : AuthContext) (required : List String)
      → is_disabled settings.auth_mode ≡ false
      → (enforce_mcp_auth env settings context required ≡ ok result)
        ↔ IsEnforced env settings required context result
  unfolding enforce_mcp_auth
  enforce_mcp_auth_iff context result required on = (
    λ h.
        let (u, known, h₁) =
          >>=-eq-ok (refuse_unless context.authenticated 401 "authentication_required")
            (λ known. do
              passed ← enforce_claims env.host settings.policy env.now required context.claims
              ok (
                  from_claims env.host (some context.claims) context.token_type true true []
                    context.correlation_id))
            (ground arith) in
        let (v, passed, h₂) = >>=-eq-ok _ _ h₁ in
        record {
          authenticated = refuse_unless_ok _ _ _ u known;
          granted =
              (enforce_claims_iff env.host settings.policy env.now required context.claims).0
                passed;
          same = sym (ok_injective h₂);
        },
    λ e.
        rw
          (
            on,
            e.authenticated,
            (enforce_claims_iff env.host settings.policy env.now required context.claims).1
                e.granted,
          )
          (ap ok (sym e.same)),
  )

  -- Unless authentication is off, and provided that the configured scopes are none or name the write
  -- scope, a tool that writes runs only for a request whose context could be built, is authenticated
  -- and has claims that are granted for the write scope and hold it.
  pub require_mcp_write-IsEnforced :
      (headers : Headers) (result : AuthContext)
      → is_disabled settings.auth_mode ≡ false
      → (is_nil settings.required_scopes ≡ true)
        ⊎ (contains write_scope settings.required_scopes ≡ true)
      → require_mcp_write env settings headers ≡ ok result
      → (context : AuthContext) × (build_auth_context env settings headers ≡ ok context)
        × IsEnforced env settings (write_scope ∷ []) context result
        × (contains write_scope (extract_scopes env.host context.claims) ≡ true)
  unfolding require_mcp_write require_mcp
  require_mcp_write-IsEnforced headers result on configured h =
      let (context, built, h₁) = >>=-eq-ok _ _ h in
      let resolved = resolve_write settings.required_scopes configured in
      let e =
        (enforce_mcp_auth_iff context result (write_scope ∷ []) on).0
          (subst (λ r. enforce_mcp_auth env settings context r ≡ ok result) resolved h₁) in
      (context, built, e, holds_write env.host context.claims e.granted.scope)
