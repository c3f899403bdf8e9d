-- ===== src/Auth/Guards/Laws.antt =====
-- When claims pass `validate_claims`, and what the set tests mean.
use agentic_identity_lab.Prelude.{
  ℕ, ◌+◌, ◌*◌, ◌≤◌, String, ◌≡◌, refl, ap, ◌∙◌, ◌↔◌, ◌⊎◌, inl, inr, Bool, true, false, not, Option,
  none, some, List, [], ◌∷◌, ◌++◌, map, arith, ℤ, pos_part, neg_part, any, keep, contains,
  intersects, intersects_sound, intersects_complete, is_nil, is_blank, strip, split, Bool-cases,
  ◌==◌, if◌then◌else◌,
}
use agentic_identity_lab.Result.{Result, ok, raise, ◌>>=◌, >>=-eq-ok, ok_injective}
use agentic_identity_lab.Value.{
  Value, null, bool, int, float, str, list, dict, Dict, empty, entry, get, has_key, to_list, truthy,
  lookup, or_value,
}
use agentic_identity_lab.Host.{Host, to_text}
use agentic_identity_lab.Auth.TokenType.{
  has_scopes, has_roles, scope_claim, classify_claims_token_type,
}
use agentic_identity_lab.Auth.Guards.{
  Required, has_text, normalize_required, extract_scopes, extract_audiences, parse_timestamp,
  require_scope, require_audience, require_delegated_token, effective_issuers, issuer_failures,
  tenant_failures, micro, is_past, is_future, exp_failures, nbf_failures, iat_failures, check_iat,
  ClaimPolicy, validate_claims,
}

any-keep {ℓ} : {A : Type ℓ} (p : A → Bool) (xs : List A) → any p xs ≡ not (is_nil (keep p xs))
unfolding any keep
any-keep p [] = refl
any-keep p (x ∷ xs) = ground (arith, any-keep p xs)

is_nil-map {ℓ κ} :
    {A : Type ℓ} {B : Type κ} (f : A → B) (xs : List A) → is_nil (map f xs) ≡ is_nil xs
is_nil-map f [] = refl
is_nil-map f (x ∷ xs) = refl

scopes_of_value :
    (host : Host) (claims : Dict)
    → has_scopes (scope_claim claims) ≡ not (is_nil (extract_scopes host claims))
unfolding has_scopes extract_scopes
scopes_of_value host claims = by_value (scope_claim claims)
  where
    by_value :
        (v : Value)
        → has_scopes v
          ≡ not (
              is_nil (elim v [
                | str s ↦ keep (λ item. not (is_blank item)) (split s)
                | list items ↦ map (to_text host) (keep truthy (to_list items))
                | _ ↦ []
              ]))
    by_value (str s) = any-keep _ (split s)
    by_value (list items) =
        rw (is_nil-map (to_text host) (keep truthy (to_list items)))
          (any-keep truthy (to_list items))
    by_value null = refl
    by_value (bool b) = refl
    by_value (int n) = refl
    by_value (float f) = refl
    by_value (dict d) = refl

is_delegated :
    (scoped roled : Bool)
    → ((if scoped then "delegated" else if roled then "app-only" else "unknown") == "delegated")
      ≡ scoped
is_delegated true roled = refl
is_delegated false true = refl
is_delegated false false = refl

-- A token is taken for a delegated one exactly when it carries a scope.
pub require_delegated_token-extract_scopes :
    (host : Host) (claims : Dict)
    → require_delegated_token claims ≡ not (is_nil (extract_scopes host claims))
unfolding require_delegated_token classify_claims_token_type
require_delegated_token-extract_scopes host empty =
    unfold extract_scopes lookup or_value truthy in refl
require_delegated_token-extract_scopes host (entry k v d) =
    rw (← scopes_of_value host (entry k v d))
      (is_delegated _ (has_roles (get "roles" (entry k v d))))

meets_iff :
    (held required : List String)
    → ((if is_nil required then true else intersects held required) ≡ true)
      ↔ ((required ≡ []) ⊎ ((a : String) × (contains a held ≡ true) × (contains a required ≡ true)))
meets_iff held [] = (λ _. inl refl, λ _. refl)
meets_iff held (r ∷ rs) = (
  λ h. inr (intersects_sound held (r ∷ rs) h),
  elim [ inl e ↦ cc | inr (a, p, q) ↦ intersects_complete held (r ∷ rs) a p q ],
)

-- A scope requirement holds exactly when it names no scope, or a scope of the claims.
pub require_scope_iff :
    (host : Host) (claims : Dict) (required : Required)
    → (require_scope host claims required ≡ true) ↔ (
        (normalize_required required ≡ [])
        ⊎ ((a : String) × (contains a (extract_scopes host claims) ≡ true)
            × (contains a (normalize_required required) ≡ true)))
unfolding require_scope
require_scope_iff host claims required = meets_iff _ _

-- An audience requirement holds exactly when it names no audience, or an audience of the claims.
pub require_audience_iff :
    (host : Host) (claims : Dict) (required : Required)
    → (require_audience host claims required ≡ true) ↔ (
        (normalize_required required ≡ [])
        ⊎ ((a : String) × (contains a (extract_audiences host claims) ≡ true)
            × (contains a (normalize_required required) ≡ true)))
unfolding require_audience
require_audience_iff host claims required = meets_iff _ _

-- A text value with something in it that satisfies `P`.
abbrev pub IsText : (String → Type 0) → Value → Type 0
IsText P v = (s : String) × (v ≡ str s) × (has_text s ≡ true) × P s

-- The value is read as a time that satisfies `P`.
abbrev pub IsTime : Host → (ℤ → Type 0) → Value → Type 0
IsTime host P v = (t : ℤ) × (parse_timestamp host v ≡ ok (some t)) × P t

-- now ≤ t + skew
abbrev pub NotPast : (now skew : ℕ) → ℤ → Type 0
NotPast now skew t = now + neg_part t * micro ≤ pos_part t * micro + skew * micro

-- t ≤ now + skew
abbrev pub NotFuture : (now skew : ℕ) → ℤ → Type 0
NotFuture now skew t = pos_part t * micro ≤ now + skew * micro + neg_part t * micro

-- Acceptable claims, stated without the list of failures.
pub record IsAcceptable (host : Host) (policy : ClaimPolicy) (claims : Dict) : Type 0 where
  pub issuer :
      (effective_issuers policy.issuer policy.allowed_issuers ≡ [])
      ⊎ IsText
          (λ s. contains (strip s) (effective_issuers policy.issuer policy.allowed_issuers) ≡ true)
          (get "iss" claims)
  pub tenant :
      (normalize_required policy.trusted_tenants ≡ [])
      ⊎ IsText
          (λ s. contains s (normalize_required policy.trusted_tenants) ≡ true)
          (get "tid" claims)
  pub exp : IsTime host (NotPast policy.now policy.clock_skew_seconds) (get "exp" claims)
  pub nbf : IsTime host (NotFuture policy.now policy.clock_skew_seconds) (get "nbf" claims)
  pub iat :
      (has_key "iat" claims ≡ false)
      ⊎ IsTime host (NotFuture policy.now policy.clock_skew_seconds) (get "iat" claims)

append-eq-nil {ℓ} : {A : Type ℓ} (xs ys : List A) → xs ++ ys ≡ [] → (xs ≡ []) × (ys ≡ [])
append-eq-nil [] ys h = (refl, h)
append-eq-nil (x ∷ xs) ys h = cc

issuer_failures_iff :
    (issuers : List String) (v : Value)
    → (issuer_failures issuers v ≡ [])
      ↔ ((issuers ≡ []) ⊎ IsText (λ s. contains (strip s) issuers ≡ true) v)
unfolding issuer_failures
issuer_failures_iff [] v = (λ _. inl refl, λ _. refl)
issuer_failures_iff (i ∷ is) (str s) =
    (λ h. inr (s, refl, ground arith, ground arith), λ h. ground arith)
issuer_failures_iff (i ∷ is) _ = (λ h. cc, λ h. ground arith)

tenant_failures_iff :
    (trusted : List String) (v : Value)
    → (tenant_failures trusted v ≡ [])
      ↔ ((trusted ≡ []) ⊎ IsText (λ s. contains s trusted ≡ true) v)
unfolding tenant_failures
tenant_failures_iff [] v = (λ _. inl refl, λ _. refl)
tenant_failures_iff (i ∷ is) (str s) =
    (λ h. inr (s, refl, ground arith, ground arith), λ h. ground arith)
tenant_failures_iff (i ∷ is) _ = (λ h. cc, λ h. ground arith)

is_past_iff : (now skew : ℕ) (t : ℤ) → (is_past now skew t ≡ false) ↔ NotPast now skew t
is_past_iff now skew t = ground arith

is_future_iff : (now skew : ℕ) (t : ℤ) → (is_future now skew t ≡ false) ↔ NotFuture now skew t
is_future_iff now skew t = ground arith

exp_failures_iff :
    (now skew : ℕ) (v : Value) (parsed : Option ℤ)
    → (exp_failures now skew v parsed ≡ []) ↔ ((t : ℤ) × (parsed ≡ some t) × NotPast now skew t)
unfolding exp_failures
exp_failures_iff now skew v none = (λ h. ground arith, λ h. ground arith)
exp_failures_iff now skew v (some t) = (
  λ h. (t, refl, (is_past_iff now skew t).0 (ground arith)),
  λ (u, e, p). ground (arith, is_past_iff now skew t),
)

nbf_failures_iff :
    (now skew : ℕ) (v : Value) (parsed : Option ℤ)
    → (nbf_failures now skew v parsed ≡ []) ↔ ((t : ℤ) × (parsed ≡ some t) × NotFuture now skew t)
unfolding nbf_failures
nbf_failures_iff now skew v none = (λ h. ground arith, λ h. ground arith)
nbf_failures_iff now skew v (some t) = (
  λ h. (t, refl, (is_future_iff now skew t).0 (ground arith)),
  λ (u, e, p). ground (arith, is_future_iff now skew t),
)

iat_failures_iff :
    (now skew : ℕ) (parsed : Option ℤ)
    → (iat_failures now skew parsed ≡ []) ↔ ((t : ℤ) × (parsed ≡ some t) × NotFuture now skew t)
unfolding iat_failures
iat_failures_iff now skew none = (λ h. cc, λ h. ground arith)
iat_failures_iff now skew (some t) = (
  λ h. (t, refl, (is_future_iff now skew t).0 (ground arith)),
  λ (u, e, p). ground (arith, is_future_iff now skew t),
)

iat_result_iff :
    (now skew : ℕ) (m : Result (Option ℤ))
    → ((m >>= λ iat. ok (iat_failures now skew iat)) ≡ ok [])
      ↔ ((t : ℤ) × (m ≡ ok (some t)) × NotFuture now skew t)
iat_result_iff now skew (raise e) = (λ h. cc, λ (t, p, q). cc)
iat_result_iff now skew (ok iat) = (
  λ h. let (t, p, q) = (iat_failures_iff now skew iat).0 (ok_injective h) in (t, ap ok p, q),
  λ (t, p, q). ap ok ((iat_failures_iff now skew iat).1 (t, ok_injective p, q)),
)

check_iat_iff :
    (host : Host) (now skew : ℕ) (claims : Dict)
    → (check_iat host now skew claims ≡ ok [])
      ↔ ((has_key "iat" claims ≡ false) ⊎ IsTime host (NotFuture now skew) (get "iat" claims))
unfolding check_iat
check_iat_iff host now skew claims =
    let (to, from) = iat_result_iff now skew (parse_timestamp host (get "iat" claims)) in
    elim (Bool-cases (has_key "iat" claims)) [
      | inl held ↦ rw held (λ h. inr (to h), elim [ inl e ↦ cc | inr r ↦ from r ])
      | inr missing ↦ rw missing (λ _. inl refl, λ _. refl)
    ]

-- Claims pass with no failure exactly when they are acceptable: a known issuer, a trusted tenant, and
-- expiry, not-before and issue times that are readable and in order, up to the clock skew.
pub validate_claims_iff :
    (host : Host) (policy : ClaimPolicy) (claims : Dict)
    → (validate_claims host claims policy ≡ ok []) ↔ IsAcceptable host policy claims
unfolding validate_claims
validate_claims_iff host policy claims = (accepted, passes)
  where
    accepted : validate_claims host claims policy ≡ ok [] → IsAcceptable host policy claims
    accepted h =
        let (exp, exp_read, h₁) = >>=-eq-ok _ _ h in
        let (nbf, nbf_read, h₂) = >>=-eq-ok _ _ h₁ in
        let (iat, iat_read, h₃) = >>=-eq-ok _ _ h₂ in
        let (issuer, r₁) = append-eq-nil _ _ (ok_injective h₃) in
        let (tenant, r₂) = append-eq-nil _ _ r₁ in
        let (e, r₃) = append-eq-nil _ _ r₂ in
        let (n, i) = append-eq-nil _ _ r₃ in
        let (t, et, ep) = (exp_failures_iff _ _ _ exp).0 e in
        let (u, ut, up) = (nbf_failures_iff _ _ (get "nbf" claims) nbf).0 n in
        record {
          issuer = (issuer_failures_iff _ _).0 issuer;
          tenant = (tenant_failures_iff _ _).0 tenant;
          exp = (t, exp_read ∙ ap ok et, ep);
          nbf = (u, nbf_read ∙ ap ok ut, up);
          iat = (check_iat_iff _ _ _ _).0 (iat_read ∙ ap ok i);
        }

    passes : IsAcceptable host policy claims → validate_claims host claims policy ≡ ok []
    passes a =
        let (t, et, ep) = a.exp in
        let (u, ut, up) = a.nbf in
        rw (
          et,
          ut,
          (check_iat_iff host policy.now policy.clock_skew_seconds claims).1 a.iat,
          (issuer_failures_iff _ _).1 a.issuer,
          (tenant_failures_iff _ _).1 a.tenant,
          (exp_failures_iff _ _ (get "exp" claims) (some t)).1 (t, refl, ep),
          (nbf_failures_iff _ _ (get "nbf" claims) (some u)).1 (u, refl, up),
        )
