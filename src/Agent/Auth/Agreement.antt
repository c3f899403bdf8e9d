-- ===== src/Agent/Auth/Agreement.antt =====
-- The agent and the BFF take the same decision on the same claims, with the same status.
use agentic_identity_lab.Prelude.{
  ℕ, ◌≡◌, refl, sym, subst, ◌⊎◌, inl, inr, String, Bool, true, false, not, ◌||◌, Option, none, some,
  List, [], ◌∷◌, ◌++◌, ℤ, arith, is_nil, contains, intersects, ◌==◌, if◌then◌else◌,
}
use agentic_identity_lab.Result.{http_exception, Result, ok, raise, ◌>>=◌, >>=-eq-ok, ok_injective}
use agentic_identity_lab.Value.{Value, str, Dict, empty, entry, dict_truthy, get, has_key}
use agentic_identity_lab.Host.{Host}
use agentic_identity_lab.Auth.TokenType.{has_roles, classify_claims_token_type}
use agentic_identity_lab.Auth.Guards.{
  many, require_audience, require_delegated_token, require_scope, validate_claims, report,
  issuer_failures, tenant_failures, exp_failures, nbf_failures, iat_failures, check_iat,
  ClaimPolicy, effective_issuers, normalize_required, parse_timestamp,
}
use agentic_identity_lab.Service.{TokenPolicy, claim_policy}
use agentic_identity_lab.Bff.Auth.{enforce, refuse_first, refuse_unless}
use agentic_identity_lab.Agent.Auth.{
  status_for_failures, token_failures, failure_reasons, decide, unauthorized_reasons,
}

-- Reasons that are none or make a 401.
abbrev IsKnown : List String → Type 0
IsKnown failures = (failures ≡ []) ⊎ (intersects failures unauthorized_reasons ≡ true)

intersects-append :
    (xs ys zs : List String) → intersects (xs ++ ys) zs ≡ (intersects xs zs || intersects ys zs)
unfolding intersects
intersects-append [] ys zs = refl
intersects-append (x ∷ xs) ys zs = ground (arith, intersects-append xs ys zs)

IsKnown-append : (xs ys : List String) → IsKnown xs → IsKnown ys → IsKnown (xs ++ ys)
IsKnown-append [] ys known rest = rest
IsKnown-append (x ∷ xs) ys known rest =
    inr (ground (arith, intersects-append (x ∷ xs) ys unauthorized_reasons))

issuer_failures-IsKnown : (issuers : List String) (v : Value) → IsKnown (issuer_failures issuers v)
unfolding issuer_failures intersects contains
issuer_failures-IsKnown [] v = inl refl
issuer_failures-IsKnown (i ∷ is) (str s) = ground arith
issuer_failures-IsKnown (i ∷ is) _ = inr refl

tenant_failures-IsKnown : (trusted : List String) (v : Value) → IsKnown (tenant_failures trusted v)
unfolding tenant_failures intersects contains
tenant_failures-IsKnown [] v = inl refl
tenant_failures-IsKnown (t ∷ ts) (str s) = ground arith
tenant_failures-IsKnown (t ∷ ts) _ = inr refl

report-IsKnown :
    (failed : Bool) (reason : String)
    → contains reason unauthorized_reasons ≡ true
    → IsKnown (report failed reason)
unfolding intersects
report-IsKnown false reason h = inl refl
report-IsKnown true reason h = inr (ground arith)

exp_failures-IsKnown :
    (now skew : ℕ) (raw : Value) (parsed : Option ℤ) → IsKnown (exp_failures now skew raw parsed)
unfolding exp_failures intersects contains
exp_failures-IsKnown now skew raw none = ground arith
exp_failures-IsKnown now skew raw (some t) = report-IsKnown _ "token_expired" refl

nbf_failures-IsKnown :
    (now skew : ℕ) (raw : Value) (parsed : Option ℤ) → IsKnown (nbf_failures now skew raw parsed)
unfolding nbf_failures intersects contains
nbf_failures-IsKnown now skew raw none = ground arith
nbf_failures-IsKnown now skew raw (some t) = report-IsKnown _ "token_not_yet_valid" refl

iat_failures-IsKnown : (now skew : ℕ) (parsed : Option ℤ) → IsKnown (iat_failures now skew parsed)
unfolding iat_failures intersects contains
iat_failures-IsKnown now skew none = inr refl
iat_failures-IsKnown now skew (some t) = report-IsKnown _ "token_issued_in_future" refl

check_iat-IsKnown :
    (host : Host) (now skew : ℕ) (claims : Dict) (failures : List String)
    → check_iat host now skew claims ≡ ok failures
    → IsKnown failures
unfolding check_iat
check_iat-IsKnown host now skew claims failures h = by_key (has_key "iat" claims) h
  where
    by_key :
        (held : Bool)
        → (if held
            then (do iat ← parse_timestamp host (get "iat" claims); ok (iat_failures now skew iat))
            else ok [])
          ≡ ok failures
        → IsKnown failures
    by_key false e = inl (sym (ok_injective e))
    by_key true e =
        let (iat, read, e₁) =
          >>=-eq-ok (parse_timestamp host (get "iat" claims))
            (λ iat. ok (iat_failures now skew iat)) e in
        subst IsKnown (ok_injective e₁) (iat_failures-IsKnown now skew iat)

-- Whatever is wrong with claims, each of the reasons makes a 401.
validate_claims-IsKnown :
    (host : Host) (claims : Dict) (policy : ClaimPolicy) (failures : List String)
    → validate_claims host claims policy ≡ ok failures
    → IsKnown failures
unfolding validate_claims effective_issuers normalize_required
validate_claims-IsKnown host claims policy failures h =
    let (exp, exp_read, h₁) = >>=-eq-ok (parse_timestamp host (get "exp" claims)) _ h in
    let (nbf, nbf_read, h₂) = >>=-eq-ok (parse_timestamp host (get "nbf" claims)) _ h₁ in
    let (iat, iat_read, h₃) =
      >>=-eq-ok (check_iat host policy.now policy.clock_skew_seconds claims) _ h₂ in
    subst IsKnown (ok_injective h₃) (
      IsKnown-append _ _ (issuer_failures-IsKnown _ _) (
        IsKnown-append _ _ (tenant_failures-IsKnown _ _) (
          IsKnown-append _ _ (exp_failures-IsKnown _ _ _ exp) (
            IsKnown-append _ _ (nbf_failures-IsKnown _ _ (get "nbf" claims) nbf)
              (check_iat-IsKnown _ _ _ claims iat iat_read)))))

-- What each service makes of the reasons and of the three tests.
abbrev agent_reasons : List String → (audience delegated scope : Bool) → List String
agent_reasons failures audience delegated scope =
    failures
    ++ (report (not delegated) "delegated_required"
        ++ (report (not audience) "invalid_audience" ++ report (not scope) "missing_scope"))

abbrev bff_verdict : List String → (audience delegated scope : Bool) → Result (Unit {0})
bff_verdict failures audience delegated scope = do
  clean ← refuse_first failures
  for_us ← refuse_unless audience 401 "invalid_audience"
  known ← refuse_unless delegated 403 "delegated_required"
  refuse_unless scope 403 "missing_scope"

agent_reasons_status :
    (failures : List String) (audience delegated scope : Bool) (status_code : ℕ) (detail : String)
    → IsKnown failures
    → bff_verdict failures audience delegated scope ≡ raise (http_exception status_code detail)
    → (status_for_failures (agent_reasons failures audience delegated scope) ≡ status_code)
      × (is_nil (agent_reasons failures audience delegated scope) ≡ false)
unfolding status_for_failures intersects contains
agent_reasons_status (f ∷ fs) a d s status_code detail known h =
    let split = intersects-append (f ∷ fs) (agent_reasons [] a d s) unauthorized_reasons in
    (ground arith, refl)
agent_reasons_status [] false true true status_code detail known h = (ground arith, refl)
agent_reasons_status [] false true false status_code detail known h = (ground arith, refl)
agent_reasons_status [] false false true status_code detail known h = (ground arith, refl)
agent_reasons_status [] false false false status_code detail known h = (ground arith, refl)
agent_reasons_status [] true false true status_code detail known h = (ground arith, refl)
agent_reasons_status [] true false false status_code detail known h = (ground arith, refl)
agent_reasons_status [] true true false status_code detail known h = (ground arith, refl)
agent_reasons_status [] true true true status_code detail known h = cc

is_typed :
    (scoped roled : Bool)
    → ((if scoped then "delegated" else if roled then "app-only" else "unknown") == "none") ≡ false
is_typed true roled = refl
is_typed false true = refl
is_typed false false = refl

-- Claims with an entry are never of the type "none".
present_type :
    (claims : Dict)
    → dict_truthy claims ≡ true
    → (classify_claims_token_type (some claims) == "none") ≡ false
unfolding classify_claims_token_type
present_type empty h = cc
present_type (entry k v d) h = is_typed _ (has_roles (get "roles" (entry k v d)))

-- Where the BFF refuses claims whose times can be read, the agent refuses them with the same status.
pub decide-enforce :
    (host : Host) (policy : TokenPolicy) (now : ℕ) (claims : Dict) (correlation_id : String)
    (failures : List String) (status_code : ℕ) (detail : String)
    → dict_truthy claims ≡ true
    → validate_claims host claims (claim_policy policy now) ≡ ok failures
    → enforce host policy now claims ≡ raise (http_exception status_code detail)
    → decide host policy now claims correlation_id
      ≡ raise (http_exception status_code "Authorization failed.")
unfolding decide enforce failure_reasons token_failures
decide-enforce host policy now claims correlation_id failures status_code detail present readable
      h =
    let typed = present_type claims present in
    let known = validate_claims-IsKnown host claims _ failures readable in
    let refused =
      subst
        (λ m.
          (m >>= λ found.
          bff_verdict found (require_audience host claims (many policy.allowed_audiences))
            (require_delegated_token claims)
            (require_scope host claims (many policy.required_scopes)))
          ≡ raise (http_exception status_code detail))
        readable h in
    let (same, some_reason) =
      agent_reasons_status failures (require_audience host claims (many policy.allowed_audiences))
        (require_delegated_token claims) (require_scope host claims (many policy.required_scopes))
        status_code detail known refused in
    rw (typed, readable, some_reason, same) refl
