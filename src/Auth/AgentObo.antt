-- ===== src/Auth/AgentObo.antt =====
-- agent_obo.py: the sidecar boundary and its offline client. The time is in microseconds.
pub mod Laws
use Prim.Native.Nat.{◌/◌}
use Prim.Native.String.{count}
use text.Mathlib.Text.{starts_with}
use agentic_identity_lab.Prelude.{
  ℕ, suc, ◌*◌, String, Bool, true, false, not, ◌||◌, Option, none, some, List, [], ◌∷◌, ℤ, pos,
  ltb_ℤ, any, contains, is_blank, strip, drop_chars, or_default, ◌==◌, ◌<+>◌, if◌then◌else◌,
}
use agentic_identity_lab.Result.{Result, ok, raise, value_error, type_error, ◌>>=◌}
use agentic_identity_lab.Value.{Value, null, bool, int, float, str, list, dict, Dict, get, truthy}
use agentic_identity_lab.Host.{Host}
use agentic_identity_lab.Auth.Claims.{sanitize_claims, is_null}
use agentic_identity_lab.Auth.Guards.{int_of_float, micro, has_text}

abbrev pub localhost_prefixes : List String
localhost_prefixes = "http://localhost" ∷ "http://127.0.0.1" ∷ []

abbrev pub blueprint_audience_placeholder : String
blueprint_audience_placeholder = "api://00000000-0000-0000-0000-000000000201/access_as_user"

abbrev pub mock_default_trusted_tenant : String
mock_default_trusted_tenant = "00000000-0000-0000-0000-000000000001"

pub record SidecarConfig : Type 0 where
  pub sidecar_url : String
  pub blueprint_audience : String

-- What may stand behind a localhost prefix: nothing, a port or a path.
unfoldable pub is_boundary : String → Bool
is_boundary remainder =
    is_blank remainder || (starts_with remainder ":" || starts_with remainder "/")

unfoldable pub is_local_url : String → Bool
unfolding is_boundary
is_local_url url =
    any
      (λ prefix.
        if starts_with url prefix then is_boundary (drop_chars (count prefix) url) else false)
      localhost_prefixes

-- The constructor with its `__post_init__`.
unfoldable pub make_sidecar_config :
    (sidecar_url blueprint_audience : String) → Result SidecarConfig
unfolding is_local_url
make_sidecar_config sidecar_url blueprint_audience =
    if not (is_local_url sidecar_url)
    then raise (value_error "sidecar_url must start with 'http://localhost' or 'http://127.0.0.1'")
    else if is_blank blueprint_audience || not (has_text blueprint_audience)
    then raise (value_error "blueprint_audience must be a non-empty string.")
    else ok (record { sidecar_url = sidecar_url; blueprint_audience = blueprint_audience })

-- `AgentSidecarClient`: the three endpoints of the sidecar.
pub record AgentSidecarClient : Type 0 where
  pub validate : (bearer_token : String) → Result Dict
  pub authorization_header : (api_name : String) → String
  pub downstream_api : (api_name user_assertion : String) (scopes : List String) → Result Dict

pub record MockAgentSidecarClient : Type 0 where
  pub config : SidecarConfig
  pub fixture_claims : Dict
  pub obo_fixture_claims : Dict
  pub trusted_tenants : List String

unfoldable pub make_mock_client :
    SidecarConfig
    → (fixture_claims obo_fixture_claims : Dict) → (trusted_tenants : Option (List String))
    → MockAgentSidecarClient
make_mock_client config fixture_claims obo_fixture_claims trusted_tenants = record {
  config = config;
  fixture_claims = fixture_claims;
  obo_fixture_claims = obo_fixture_claims;
  trusted_tenants = or_default trusted_tenants (mock_default_trusted_tenant ∷ []);
}

-- v == s
abbrev pub equals : Value → String → Bool
equals (str t) s = t == s
equals v s = false

-- v in a frozenset of texts: a list or a dict has no hash.
unfoldable pub is_trusted : Value → List String → Result Bool
is_trusted (str s) trusted = ok (contains s trusted)
is_trusted (list items) trusted = raise type_error
is_trusted (dict d) trusted = raise type_error
is_trusted v trusted = ok false

abbrev int_of_text : Option ℤ → Result ℤ
int_of_text none = raise (value_error "invalid literal for int() with base 10")
int_of_text (some n) = ok n

-- int(v)
unfoldable pub int_of_value : Host → Value → Result ℤ
int_of_value host (int n) = ok n
int_of_value host (bool b) = ok (if b then pos 1 else pos 0)
int_of_value host (float f) = int_of_float f
int_of_value host (str s) = int_of_text (host.int_of s)
int_of_value host v = raise type_error

-- exp is None or int(exp) < int(time.time())
unfoldable pub is_expired : Host → (now : ℕ) → Value → Result Bool
is_expired host now exp =
    if is_null exp
    then ok true
    else do seconds ← int_of_value host exp; ok (ltb_ℤ seconds (pos (now / micro)))

abbrev check_scp : Host → Dict → Result Dict
check_scp host claims =
    if truthy (get "scp" claims)
    then ok (sanitize_claims host (some claims))
    else raise (
        value_error
          "Token is missing required 'scp' claim; app-only tokens are not accepted on the delegated blueprint endpoint.")

abbrev pub refuse_unless : Bool → String → Result (Unit {0})
refuse_unless passed message = if passed then ok tt else raise (value_error message)

module _ (host : Host) (now : ℕ) (client : MockAgentSidecarClient) where
  -- The bearer token is discarded: the fixture claims stand for it.
  unfoldable pub mock_validate : (bearer_token : String) → Result Dict
  mock_validate bearer_token = do
    own ←
        refuse_unless (equals (get "aud" client.fixture_claims) client.config.blueprint_audience)
          "Expected blueprint audience."
    trusted ← is_trusted (get "tid" client.fixture_claims) client.trusted_tenants
    known ← refuse_unless trusted "Untrusted tenant; not in trusted_tenants allowlist."
    expired ← is_expired host now (get "exp" client.fixture_claims)
    live ← refuse_unless (not expired) "Token is expired or missing exp claim."
    check_scp host client.fixture_claims

  unfoldable pub mock_downstream_api :
      (api_name user_assertion : String) (scopes : List String) → Result Dict
  mock_downstream_api api_name user_assertion scopes = do
    own ←
        refuse_unless (equals (get "aud" client.fixture_claims) client.config.blueprint_audience)
          "Inbound assertion is not issued for the configured blueprint."
    ok (sanitize_claims host (some client.obo_fixture_claims))

  -- The offline client as an implementation of the boundary.
  unfoldable pub mock_client : AgentSidecarClient
  unfolding mock_validate mock_downstream_api
  mock_client = record {
    validate = mock_validate;
    authorization_header = λ api_name. "Bearer OFFLINE_MOCK_TOKEN";
    downstream_api = mock_downstream_api;
  }
