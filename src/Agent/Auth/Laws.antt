-- ===== src/Agent/Auth/Laws.antt =====
-- The agent's decision on claims, and its agreement with the BFF's.
use agentic_identity_lab.Prelude.{
  ℕ, ◌≡◌, refl, sym, ap, subst, ◌∙◌, ◌≢◌, ◌↔◌, inl, inr, String, Bool, true, false, not, ◌&&◌,
  Option, none, some, List, [], ◌∷◌, ◌++◌, arith, is_nil, ◌==◌, if◌then◌else◌, Bool-cases, eq_iff,
}
use agentic_identity_lab.Result.{http_exception, Result, ok, raise, >>=-eq-ok, ok_injective}
use agentic_identity_lab.Value.{Dict, empty, entry}
use agentic_identity_lab.Host.{Host}
use agentic_identity_lab.Auth.TokenType.{classify_claims_token_type}
use agentic_identity_lab.Auth.Guards.{AuthContext, from_claims, require_delegated_token, report}
use agentic_identity_lab.Auth.Guards.Laws.{validate_claims_iff}
use agentic_identity_lab.Service.{Env, TokenPolicy, claim_policy}
use agentic_identity_lab.Service.Granted.{IsGranted}
use agentic_identity_lab.Diagnostics.{get_correlation_id}
use agentic_identity_lab.Auth.Settings.{
  Headers, AuthMode, disabled, mock, strict, is_disabled, load_auth_settings, load_auth_mode,
}
use agentic_identity_lab.Agent.Config.{Settings, load_settings}
use agentic_identity_lab.Agent.Config.Laws.{agent_settings-IsLoaded}
use agentic_identity_lab.Agent.Auth.{
  request_claims, present, authenticate, resolve_auth_context, status_for_failures, token_failures,
  failure_reasons, decide,
}

append-eq-nil {ℓ} : {A : Type ℓ} (xs ys : List A) → xs ++ ys ≡ [] → (xs ≡ []) × (ys ≡ [])
append-eq-nil [] ys h = (refl, h)
append-eq-nil (x ∷ xs) ys h = cc

report_nil : (passed : Bool) (reason : String) → report (not passed) reason ≡ [] → passed ≡ true
report_nil true reason h = refl
report_nil false reason h = cc

module _ (host : Host) (policy : TokenPolicy) (now : ℕ) (claims : Dict) where
  -- A delegated token is not taken for a missing one.
  delegated_present :
      require_delegated_token claims ≡ true
      → (classify_claims_token_type (some claims) == "none") ≡ false
  unfolding require_delegated_token
  delegated_present h =
      let same = (eq_iff (classify_claims_token_type (some claims)) "delegated").0 h in rw same refl

  token_failures_iff :
      (token_failures host policy now claims ≡ ok [])
      ↔ IsGranted host policy now policy.required_scopes claims
  unfolding token_failures
  token_failures_iff = (
    λ h.
        let (failures, validated, h₁) = >>=-eq-ok _ _ h in
        let (none_failed, r₁) = append-eq-nil _ _ (ok_injective h₁) in
        let (delegated, r₂) = append-eq-nil _ _ r₁ in
        let (audience, scope) = append-eq-nil _ _ r₂ in
        record {
          acceptable =
              (validate_claims_iff host (claim_policy policy now) claims).0
                (validated ∙ ap ok none_failed);
          audience = report_nil _ _ audience;
          delegated = report_nil _ _ delegated;
          scope = report_nil _ _ scope;
        },
    λ g. rw (
      (validate_claims_iff host (claim_policy policy now) claims).1 g.acceptable,
      g.audience,
      g.delegated,
      g.scope,
    ),
  )

  failure_reasons_iff :
      (failure_reasons host policy now claims ≡ ok [])
      ↔ IsGranted host policy now policy.required_scopes claims
  unfolding failure_reasons
  failure_reasons_iff = (
    λ h.
        token_failures_iff.0
          (elim (Bool-cases (classify_claims_token_type (some claims) == "none")) [
            | inl e ↦ ground arith
            | inr e ↦ ground arith
          ]),
    λ g. rw (delegated_present g.delegated) (token_failures_iff.1 g),
  )

  -- What `decide` makes of the collected reasons.
  abbrev decision :
      (token_type : String) → List String → (correlation_id : String) → Result AuthContext
  decision token_type failures correlation_id =
      if not (token_type == "none") && is_nil failures
      then ok (
          from_claims host (some claims) token_type (not (token_type == "none"))
            (not (token_type == "none") && is_nil failures) failures (some correlation_id))
      else raise (http_exception (status_for_failures failures) "Authorization failed.")

  decision_ok :
      (token_type : String) (failures : List String) (correlation_id : String)
      (context : AuthContext)
      → decision token_type failures correlation_id ≡ ok context
      → (failures ≡ [])
        × (context ≡ from_claims host (some claims) token_type true true [] (some correlation_id))
  decision_ok token_type (f ∷ fs) correlation_id context h = ground arith
  decision_ok token_type [] correlation_id context h = elim (Bool-cases (token_type == "none")) [
    | inl missing ↦ ground arith
    | inr given ↦ (refl, ground arith)
  ]

  -- The agent authorizes exactly the granted claims: it answers with their authorized context, which
  -- has no failure reason.
  pub decide_iff :
      (correlation_id : String) (context : AuthContext)
      → (decide host policy now claims correlation_id ≡ ok context) ↔ (
          IsGranted host policy now policy.required_scopes claims
          × (context
              ≡ from_claims host
                  (some claims)
                  (classify_claims_token_type (some claims))
                  true
                  true
                  []
                  (some correlation_id)))
  unfolding decide
  decide_iff correlation_id context = (
    λ h.
        let (failures, collected, h₁) =
          >>=-eq-ok (failure_reasons host policy now claims)
            (λ failures.
              decision (classify_claims_token_type (some claims)) failures correlation_id)
            h in
        let (clean, same) = decision_ok _ failures correlation_id context h₁ in
        (failure_reasons_iff.0 (collected ∙ ap ok clean), same),
    λ (g, same). rw (failure_reasons_iff.1 g, delegated_present g.delegated) (ap ok (sym same)),
  )

present_ok : (found : Option Dict) (claims : Dict) → present found ≡ ok claims → found ≡ some claims
present_ok (some (entry k v d)) claims h = ap some (ok_injective h)
present_ok (some empty) claims h = cc
present_ok none claims h = cc

-- How the agent's context comes about with authentication on.
pub record IsResolved (env : Env) (headers : Headers) (context : AuthContext) : Type 0 where
  pub settings : Settings
  pub loaded : load_settings env ≡ ok settings
  pub claims : Dict
  pub found :
      request_claims env settings (load_auth_settings (some headers) none env.environ none) headers
      ≡ ok (some claims)
  pub granted : IsGranted env.host settings.policy env.now settings.required_scopes claims
  pub result :
      context
      ≡ from_claims env.host
          (some claims)
          (classify_claims_token_type (some claims))
          true
          true
          []
          (some (get_correlation_id headers settings.correlation_header env.fresh_id))

module _ (env : Env) (headers : Headers) where
  authenticate_ok :
      (settings : Settings) (context : AuthContext)
      → load_settings env ≡ ok settings
      → authenticate env settings headers
          (get_correlation_id headers settings.correlation_header env.fresh_id)
        ≡ ok context
      → IsResolved env headers context
  authenticate_ok settings context loaded h =
      let (found, requested, h₁) = >>=-eq-ok _ _ h in
      let (claims, given, h₂) = >>=-eq-ok _ _ h₁ in
      let (granted, same) = (decide_iff env.host settings.policy env.now claims _ context).0 h₂ in
      record {
        settings = settings;
        loaded = loaded;
        claims = claims;
        found = requested ∙ ap ok (present_ok found claims given);
        granted = granted;
        result = same;
      }

  -- With authentication on, the agent gives a request a context only if its claims are granted under
  -- the settings.
  pub resolve_auth_context-IsResolved :
      (context : AuthContext)
      → load_auth_mode none env.environ ≢ disabled
      → resolve_auth_context env headers ≡ ok context
      → IsResolved env headers context
  unfolding resolve_auth_context
  resolve_auth_context-IsResolved context on h =
      let (settings, loaded, h₁) = >>=-eq-ok _ _ h in
      authenticate_ok settings context loaded (
        by_mode settings settings.auth_mode
          (subst (λ m. m ≢ disabled) (sym (agent_settings-IsLoaded env settings loaded).mode) on)
          h₁)
    where
      by_mode :
          (settings : Settings) (mode : AuthMode)
          → mode ≢ disabled
          → (if is_disabled mode
              then ok (
                  from_claims env.host
                    (some empty)
                    "none"
                    false
                    true
                    []
                    (some (get_correlation_id headers settings.correlation_header env.fresh_id)))
              else authenticate env settings headers
                  (get_correlation_id headers settings.correlation_header env.fresh_id))
            ≡ ok context
          → authenticate env settings headers
              (get_correlation_id headers settings.correlation_header env.fresh_id)
            ≡ ok context
      by_mode settings disabled off e = absurd (off refl)
      by_mode settings mock off e = e
      by_mode settings strict off e = e
