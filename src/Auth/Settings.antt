-- ===== src/Auth/Settings.antt =====
-- auth_settings.py: the mode, the bearer token, fixtures and the strict configuration. The JWKS
-- caches and the strict claims are in Auth.Jwks.Shared.
pub mod Laws
use agentic_identity_lab.Prelude.{
  ℕ, String, Bool, true, false, not, ◌&&◌, ◌||◌, Option, none, some, List, [], ◌∷◌, any, is_nil,
  is_blank, is_none, strip, lower, partition, is_in, join, ◌<+>◌, ◌==◌, or_default, if◌then◌else◌,
}
use agentic_identity_lab.Result.{
  Result, ok, raise, value_error, not_implemented_error, attribute_error, ◌>>=◌,
}
use agentic_identity_lab.Value.{Value, null, dict, Dict, empty, truthy}

-- os.environ, or another mapping of texts
abbrev pub Environ : Type 0
Environ = List (String × String)

unfoldable pub getenv : String → Environ → Option String
getenv name [] = none
getenv name ((k, v) ∷ rest) = if k == name then some v else getenv name rest

-- The request's headers: starlette's lookup by name, and the items.
pub record Headers : Type 0 where
  pub find : String → Option String
  pub items : List (String × String)

pub data AuthMode : Type 0 where
  disabled mock strict : AuthMode

pub record AuthSettings : Type 0 where
  pub mode : AuthMode
  pub fixture : Option String

abbrev pub is_strict : AuthMode → Bool
is_strict strict = true
is_strict mode = false

abbrev pub is_disabled : AuthMode → Bool
is_disabled disabled = true
is_disabled mode = false

abbrev pub issuer_placeholder : String
issuer_placeholder = "https://login.microsoftonline.com/{tenant_id}/v2.0"

abbrev pub jwks_url_placeholder : String
jwks_url_placeholder = "https://login.microsoftonline.com/{tenant_id}/discovery/v2.0/keys"

abbrev pub trusted_tenant_placeholder : String
trusted_tenant_placeholder = "00000000-0000-0000-0000-000000000000"

abbrev pub auth_fixture_header : String
auth_fixture_header = "X-Identity-Lab-Fixture"

-- env or os.environ
abbrev source_of : Option Environ → Environ → Environ
source_of none os_environ = os_environ
source_of (some env) os_environ = if is_nil env then os_environ else env

-- AuthMode(normalized), or the default
abbrev mode_of : String → AuthMode
mode_of normalized =
    if normalized == "disabled"
    then disabled
    else if normalized == "mock"
    then mock
    else if normalized == "strict"
    then strict
    else disabled

unfoldable pub load_auth_mode : (env : Option Environ) (os_environ : Environ) → AuthMode
unfolding getenv
load_auth_mode env os_environ =
    mode_of (lower (strip (or_default (getenv "AUTH_MODE" (source_of env os_environ)) "disabled")))

abbrev pub non_blank : String → Option String
non_blank s = if is_blank s then none else some s

unfoldable pub normalize : Option String → Option String
normalize none = none
normalize (some value) = non_blank (strip value)

abbrev token_after : String × Bool × String → Option String
token_after (scheme, found, token) =
    if not found || not (lower scheme == "bearer") then none else normalize (some token)

abbrev bearer_token : Option String → Option String
bearer_token none = none
bearer_token (some value) = token_after (partition b' ' value)

unfoldable pub extract_bearer_token : Option String → Option String
unfolding normalize
extract_bearer_token authorization = bearer_token (normalize authorization)

-- the loop over headers.items()
unfoldable pub find_header : String → List (String × String) → Option String
find_header lowered [] = none
find_header lowered ((key, value) ∷ rest) =
    if lower key == lowered then some value else find_header lowered rest

abbrev pub header_or_search : Option String → String → List (String × String) → Option String
header_or_search (some direct) name items = some direct
header_or_search none name items = find_header (lower name) items

unfoldable pub get_header_value : Option Headers → String → Option String
unfolding find_header
get_header_value none name = none
get_header_value (some headers) name =
    if is_nil headers.items then none else header_or_search (headers.find name) name headers.items

abbrev has_placeholder : String → Bool
has_placeholder lowered =
    is_in "{tenant_id}" lowered
    || is_in "tenant_id_placeholder" lowered
    || is_in "00000000-0000-0000-0000-000000000" lowered

unfoldable pub looks_like_placeholder : Option String → Bool
looks_like_placeholder none = true
looks_like_placeholder (some value) =
    let trimmed = strip value in if is_blank trimmed then true else has_placeholder (lower trimmed)

unfoldable pub has_non_placeholder : List String → Bool
has_non_placeholder = any (λ value. not (looks_like_placeholder (some value)))

abbrev pub unless : Bool → String → List String → List String
unless configured name rest = if configured then rest else name ∷ rest

-- The fields that strict mode misses, in the order of the checks.
unfoldable pub missing_strict_fields :
    (issuer jwks_url : Option String)
    (allowed_audiences required_scopes trusted_tenants : List String)
    → List String
missing_strict_fields issuer jwks_url allowed_audiences required_scopes trusted_tenants =
    unless (not (looks_like_placeholder issuer)) "issuer" (
      unless (not (looks_like_placeholder jwks_url)) "jwks_url" (
        unless (not (is_nil allowed_audiences) && has_non_placeholder allowed_audiences)
          "allowed_audiences"
          (unless (not (is_nil required_scopes)) "required_scopes" (
            unless (not (is_nil trusted_tenants) && has_non_placeholder trusted_tenants)
              "trusted_tenants" []))))

unfoldable pub validate_strict_config :
    (issuer jwks_url : Option String)
    (allowed_audiences required_scopes trusted_tenants : List String)
    → Result (Unit {0})
unfolding missing_strict_fields
validate_strict_config issuer jwks_url allowed_audiences required_scopes trusted_tenants =
    let missing =
      missing_strict_fields issuer jwks_url allowed_audiences required_scopes trusted_tenants in
    if is_nil missing
    then ok tt
    else raise (value_error ("Strict auth mode requires configured " <+> join ", " missing <+> "."))

abbrev first_of_two : Option String → Option String → Option String
first_of_two (some a) b = some a
first_of_two none b = b

unfoldable pub select_fixture_name :
    Option Headers
    → (env : Option Environ) → (os_environ : Environ) → (default_fixture : Option String)
    → Option String
unfolding get_header_value normalize getenv
select_fixture_name headers env os_environ default_fixture =
    first_of_two (normalize (get_header_value headers auth_fixture_header)) (
      first_of_two (normalize (getenv "AUTH_FIXTURE" (source_of env os_environ)))
        (normalize default_fixture))

unfoldable pub load_auth_settings :
    Option Headers
    → (env : Option Environ) → (os_environ : Environ) → (default_fixture : Option String)
    → AuthSettings
unfolding load_auth_mode select_fixture_name
load_auth_settings headers env os_environ default_fixture = record {
  mode = load_auth_mode env os_environ;
  fixture = select_fixture_name headers env os_environ default_fixture;
}

-- A payload that is no dict: None and empty values count as missing claims, and the first `get` of
-- any other raises.
abbrev as_claims : Value → Result (Option Dict)
as_claims (dict d) = ok (some d)
as_claims null = ok none
as_claims v = if truthy v then raise attribute_error else ok (some empty)

abbrev claims_of_file : Option Value → Result (Option Dict)
claims_of_file none = ok none
claims_of_file (some payload) = as_claims payload

abbrev fixture_named : (String → Result (Option Value)) → Option String → Result (Option Dict)
fixture_named read_fixture none = ok none
fixture_named read_fixture (some name) = do file ← read_fixture name; claims_of_file file

-- `read_fixture name` parses the file `{name}.json` of the fixture folder, if it is there.
unfoldable pub load_fixture_claims :
    (String → Result (Option Value)) → Option String → Result (Option Dict)
unfolding normalize
load_fixture_claims read_fixture name = fixture_named read_fixture (normalize name)

abbrev claims_of_mode :
    (String → Result (Option Value)) → AuthMode → Option String → Result (Option Dict)
claims_of_mode read_fixture disabled fixture = ok (some empty)
claims_of_mode read_fixture mock fixture = load_fixture_claims read_fixture fixture
claims_of_mode read_fixture strict fixture =
    raise (not_implemented_error "Strict auth mode is not implemented yet.")

unfoldable pub load_auth_claims :
    (String → Result (Option Value)) → AuthSettings → Result (Option Dict)
unfolding load_fixture_claims
load_auth_claims read_fixture settings = claims_of_mode read_fixture settings.mode settings.fixture
