-- ===== src/Auth/Guards.antt =====
-- guards.py. The time is a number of microseconds since the epoch, claims are in seconds.
pub mod Laws
use agentic_identity_lab.Prelude.{
  ℕ, ◌+◌, ◌*◌, String, Bool, true, false, not, ◌&&◌, Option, none, some, List, [], ◌∷◌, ◌++◌, map,
  ℤ, pos_part, neg_part, ltb, keep, contains, intersects, is_nil, is_none, is_blank, strip, split,
  ◌==◌, if◌then◌else◌,
}
use agentic_identity_lab.Result.{Result, ok, raise, value_error, overflow_error, ◌>>=◌}
use agentic_identity_lab.Value.{
  Float, finite, infinite, nan, Value, null, bool, int, float, str, list, Dict, to_list, truthy,
  get, has_key,
}
use agentic_identity_lab.Host.{Host, to_text}
use agentic_identity_lab.Auth.Claims.{sanitize_claims, is_null}
use agentic_identity_lab.Auth.TokenType.{scope_claim, classify_claims_token_type}

-- Iterable[str] | str | None
pub data Required : Type 0 where
  absent : Required
  one : String → Required
  many : List String → Required

-- value.strip()
abbrev pub has_text : String → Bool
has_text s = not (is_blank (strip s))

unfoldable pub normalize_required : Required → List String
normalize_required absent = []
normalize_required (one value) = keep has_text (value ∷ [])
normalize_required (many values) = keep has_text values

unfoldable pub extract_scopes : Host → Dict → List String
extract_scopes host claims = elim (scope_claim claims) [
  | str s ↦ keep (λ item. not (is_blank item)) (split s)
  | list items ↦ map (to_text host) (keep truthy (to_list items))
  | _ ↦ []
]

unfoldable pub extract_audiences : Host → Dict → List String
extract_audiences host claims = elim (get "aud" claims) [
  | str s ↦ if is_blank s then [] else s ∷ []
  | list items ↦ map (to_text host) (keep truthy (to_list items))
  | _ ↦ []
]

-- int(f)
unfoldable pub int_of_float : Float → Result ℤ
int_of_float (finite truncated z) = ok truncated
int_of_float infinite = raise overflow_error
int_of_float nan = raise (value_error "cannot convert float NaN to integer")

-- `except ValueError: return None`
abbrev pub catch_value_error {ℓ} : {A : Type ℓ} → Result A → Result (Option A)
catch_value_error (ok a) = ok (some a)
catch_value_error (raise (value_error message)) = ok none
catch_value_error (raise e) = raise e

abbrev parse_number : Option Float → Result (Option ℤ)
parse_number none = ok none
parse_number (some f) = catch_value_error (int_of_float f)

unfoldable pub parse_timestamp : Host → Value → Result (Option ℤ)
unfolding int_of_float
parse_timestamp host (int n) = ok (some n)
parse_timestamp host (float f) = do n ← int_of_float f; ok (some n)
parse_timestamp host (str s) =
    let trimmed = strip s in
    if is_blank trimmed then ok none else parse_number (host.float_of trimmed)
parse_timestamp host v = ok none

-- The set tests of `require_scope` and `require_audience`.
abbrev meets : List String → List String → Bool
meets held required = if is_nil required then true else intersects held required

unfoldable pub require_scope : Host → Dict → Required → Bool
unfolding normalize_required extract_scopes
require_scope host claims required_scopes =
    meets (extract_scopes host claims) (normalize_required required_scopes)

unfoldable pub require_audience : Host → Dict → Required → Bool
unfolding normalize_required extract_audiences
require_audience host claims required_audiences =
    meets (extract_audiences host claims) (normalize_required required_audiences)

unfoldable pub require_delegated_token : Dict → Bool
require_delegated_token claims = classify_claims_token_type (some claims) == "delegated"

unfoldable pub require_actor_appid : Dict → Bool
require_actor_appid claims = elim (get "appid" claims) [ str s ↦ has_text s | _ ↦ false ]

abbrev single_issuer : Option String → List String
single_issuer none = []
single_issuer (some issuer) = if has_text issuer then strip issuer ∷ [] else []

-- `allowed_issuers`, if there are any, before `issuer`
unfoldable pub effective_issuers : Option String → Option (List String) → List String
effective_issuers issuer (some (v ∷ vs)) = map strip (keep has_text (v ∷ vs))
effective_issuers issuer _ = single_issuer issuer

unfoldable pub issuer_failures : List String → Value → List String
issuer_failures [] claim_issuer = []
issuer_failures issuers (str s) =
    if has_text s
    then (if contains (strip s) issuers then [] else "invalid_issuer" ∷ [])
    else "missing_issuer" ∷ []
issuer_failures issuers v = "missing_issuer" ∷ []

unfoldable pub tenant_failures : List String → Value → List String
tenant_failures [] tenant_id = []
tenant_failures trusted (str s) =
    if has_text s
    then (if contains s trusted then [] else "untrusted_tenant" ∷ [])
    else "missing_tenant" ∷ []
tenant_failures trusted v = "missing_tenant" ∷ []

abbrev pub micro : ℕ
micro = 1000000

-- now - skew > t
abbrev pub is_past : (now skew : ℕ) → ℤ → Bool
is_past now skew t = ltb (pos_part t * micro + skew * micro) (now + neg_part t * micro)

-- now + skew < t
abbrev pub is_future : (now skew : ℕ) → ℤ → Bool
is_future now skew t = ltb (now + skew * micro + neg_part t * micro) (pos_part t * micro)

abbrev pub report : Bool → String → List String
report failed reason = if failed then reason ∷ [] else []

unfoldable pub exp_failures : (now skew : ℕ) → Value → Option ℤ → List String
exp_failures now skew raw none = if is_null raw then "missing_exp" ∷ [] else "invalid_exp" ∷ []
exp_failures now skew raw (some t) = report (is_past now skew t) "token_expired"

unfoldable pub nbf_failures : (now skew : ℕ) → Value → Option ℤ → List String
nbf_failures now skew raw none = if is_null raw then "missing_nbf" ∷ [] else "invalid_nbf" ∷ []
nbf_failures now skew raw (some t) = report (is_future now skew t) "token_not_yet_valid"

unfoldable pub iat_failures : (now skew : ℕ) → Option ℤ → List String
iat_failures now skew none = "invalid_iat" ∷ []
iat_failures now skew (some t) = report (is_future now skew t) "token_issued_in_future"

-- `iat` is checked only if the claims have it
unfoldable pub check_iat : Host → (now skew : ℕ) → Dict → Result (List String)
unfolding iat_failures
check_iat host now skew claims =
    if has_key "iat" claims
    then (do iat ← parse_timestamp host (get "iat" claims); ok (iat_failures now skew iat))
    else ok []

-- The arguments of `validate_claims` beside the claims.
pub record ClaimPolicy : Type 0 where
  pub issuer : Option String
  pub trusted_tenants : Required
  pub clock_skew_seconds : ℕ
  pub now : ℕ
  pub allowed_issuers : Option (List String)

unfoldable pub validate_claims : Host → Dict → ClaimPolicy → Result (List String)
unfolding effective_issuers normalize_required check_iat
validate_claims host claims policy = do
  exp_value ← parse_timestamp host (get "exp" claims)
  nbf_value ← parse_timestamp host (get "nbf" claims)
  iat ← check_iat host policy.now policy.clock_skew_seconds claims
  ok (
      issuer_failures (effective_issuers policy.issuer policy.allowed_issuers) (get "iss" claims)
      ++ (tenant_failures (normalize_required policy.trusted_tenants) (get "tid" claims)
          ++ (exp_failures policy.now policy.clock_skew_seconds (get "exp" claims) exp_value
              ++ (nbf_failures policy.now policy.clock_skew_seconds (get "nbf" claims) nbf_value
                  ++ iat))))

pub record AuthContext : Type 0 where
  pub authenticated : Bool
  pub authorized : Bool
  pub failure_reasons : List String
  pub claims : Dict
  pub token_type : String
  pub scopes : List String
  pub audiences : List String
  pub correlation_id : Option String

unfoldable pub from_claims :
    Host
    → Option Dict
    → (token_type : String) → (authenticated authorized : Bool) → (failure_reasons : List String)
    → (correlation_id : Option String) → AuthContext
from_claims host claims token_type authenticated authorized failure_reasons correlation_id =
    let clean = sanitize_claims host claims in
    record {
      authenticated = authenticated;
      authorized = authorized;
      failure_reasons = failure_reasons;
      claims = clean;
      token_type = token_type;
      scopes = extract_scopes host clean;
      audiences = extract_audiences host clean;
      correlation_id = correlation_id;
    }
