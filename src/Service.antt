-- ===== src/Service.antt =====
-- What the three services share: the request's surroundings, the readers of their settings, and the
-- decision that each of them takes on a token's claims.
pub mod Granted
pub mod Lookup
use agentic_identity_lab.Prelude.{
  ℕ, String, Bool, true, false, not, Option, none, some, List, [], ◌∷◌, ℤ, map, keep, is_nil,
  is_blank, strip, lower, split_on, contains, or_default, ◌==◌, if◌then◌else◌,
}
use agentic_identity_lab.Result.{Exception, value_error, http_exception, Result, ok, raise, ◌>>=◌}
use agentic_identity_lab.Value.{
  Float, Value, null, bool, str, list, dict, Items, nil, cons, Dict, empty, entry,
}
use agentic_identity_lab.Host.{Host}
use agentic_identity_lab.Http.{HttpReply}
use agentic_identity_lab.Auth.Guards.{Required, many, ClaimPolicy, AuthContext, has_text}
use agentic_identity_lab.Auth.Settings.{Environ, getenv, Headers, header_or_search}
use agentic_identity_lab.Auth.Obo.{TokenRequest}

-- A call of another service.
pub record OutRequest : Type 0 where
  pub url : String
  pub headers : List (String × String)
  pub payload : Dict
  pub timeout : Float

-- What a request handler finds: the process's environment, the clock, generated ids, fixtures, the
-- strict validation over the shared caches, and the network.
pub record Env : Type 0 where
  pub host : Host
  pub environ : Environ
  pub now : ℕ
  pub fresh_id : String
  pub fresh_uuid : String
  pub isoformat : ℕ → String
  pub read_fixture : String → Result (Option Value)
  pub strict_claims :
      (authorization : Option String) (jwks_url : String) (allowed_audiences : List String)
      (issuer : Option String)
      → Result (Option Dict)
  pub token_endpoint : TokenRequest → HttpReply
  pub call : OutRequest → HttpReply

-- [item.strip() for item in value.split(",") if item.strip()]
unfoldable pub split_csv : Option String → (default : List String) → List String
split_csv none default = default
split_csv (some value) default = map strip (keep has_text (split_on b',' value))

unfoldable pub parse_bool : Option String → (default : Bool) → Bool
parse_bool none default = default
parse_bool (some value) default = contains (lower (strip value)) ("1" ∷ "true" ∷ "yes" ∷ "on" ∷ [])

-- os.getenv(name, default)
abbrev pub setting : Environ → (name default : String) → String
setting environ name default = or_default (getenv name environ) default

abbrev read_int : Option ℤ → Result ℤ
read_int none = raise (value_error "invalid literal for int()")
read_int (some n) = ok n

abbrev read_float : Option Float → Result Float
read_float none = raise (value_error "could not convert string to float")
read_float (some f) = ok f

unfoldable pub int_setting : Host → Environ → (name default : String) → Result ℤ
int_setting host environ name default = read_int (host.int_of (setting environ name default))

unfoldable pub float_setting : Host → Environ → (name default : String) → Result Float
float_setting host environ name default = read_float (host.float_of (setting environ name default))

-- `except ValueError: raise HTTPException(status_code, detail)`
abbrev pub or_http {ℓ} : {A : Type ℓ} → Result A → (status_code : ℕ) (detail : String) → Result A
or_http (ok a) status_code detail = ok a
or_http (raise (value_error message)) status_code detail = raise (http_exception status_code detail)
or_http (raise e) status_code detail = raise e

-- `_header_value` of the agent and of the MCP service
unfoldable pub header_value : Headers → (name : String) → Option String
header_value headers name = header_or_search (headers.find name) name headers.items

-- headers[name] = value
unfoldable pub put_header : (name value : String) → List (String × String) → List (String × String)
put_header name value [] = (name, value) ∷ []
put_header name value ((k, v) ∷ rest) =
    if k == name then (k, value) ∷ rest else (k, v) ∷ put_header name value rest

-- `if value: headers[name] = value`
abbrev pub put_given :
    (name : String) (value : Option String) → List (String × String) → List (String × String)
put_given name none headers = headers
put_given name (some value) headers =
    if is_blank value then headers else put_header name value headers

-- A list of texts as a JSON list.
abbrev pub strings : List String → Items
strings [] = nil
strings (s ∷ rest) = cons (str s) (strings rest)

abbrev pub optional_text : Option String → Value
optional_text none = null
optional_text (some s) = str s

-- The entries that the handlers of /whoami share.
unfoldable pub whoami_entries : AuthContext → Dict → Dict
whoami_entries auth_context rest = entry "token_type" (str auth_context.token_type) (
    entry "claims" (dict auth_context.claims) (
      entry "scopes" (list (strings auth_context.scopes)) (
        entry "audiences" (list (strings auth_context.audiences))
          (entry "correlation_id" (optional_text auth_context.correlation_id) rest))))

-- The answer of /debug/claims, the same in the three services.
unfoldable pub debug_payload : (enable_debug_claims : Bool) → AuthContext → Dict
debug_payload enable_debug_claims auth_context = entry "debug_enabled" (bool enable_debug_claims) (
    entry "token_type" (str auth_context.token_type) (
      entry "claims" (dict (if enable_debug_claims then auth_context.claims else empty))
        (entry "correlation_id" (optional_text auth_context.correlation_id) empty)))

-- The part of every service's settings that decides on a token.
pub record TokenPolicy : Type 0 where
  pub auth_issuer : String
  pub auth_jwks_url : String
  pub allowed_audiences : List String
  pub required_scopes : List String
  pub trusted_tenants : List String

-- validate_claims(claims, issuer=…, trusted_tenants=…) at a time
abbrev pub claim_policy : TokenPolicy → (now : ℕ) → ClaimPolicy
claim_policy policy now = record {
  issuer = some policy.auth_issuer;
  trusted_tenants = many policy.trusted_tenants;
  clock_skew_seconds = 300;
  now = now;
  allowed_issuers = none;
}
