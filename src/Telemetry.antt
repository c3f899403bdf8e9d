-- ===== src/Telemetry.antt =====
-- telemetry.py: which provider is set up, and which attributes the current span gets. Whether
-- OpenTelemetry's packages are installed and what its calls raise are parameters.
pub mod Laws
use agentic_identity_lab.Prelude.{
  String, Bool, true, false, not, ◌&&◌, ◌||◌, Option, none, some, List, [], ◌∷◌, ◌++◌, is_blank,
  strip, lower, contains, or_default, ◌==◌, if◌then◌else◌,
}
use agentic_identity_lab.Auth.Settings.{Environ, getenv}

abbrev pub otel_disabled_env : String
otel_disabled_env = "OTEL_SDK_DISABLED"

abbrev pub otel_endpoint_env : String
otel_endpoint_env = "OTEL_EXPORTER_OTLP_ENDPOINT"

abbrev pub connection_string_env : String
connection_string_env = "APPLICATIONINSIGHTS_CONNECTION_STRING"

abbrev pub pii_keys : List String
pii_keys =
    "oid" ∷ "sub" ∷ "email" ∷ "upn" ∷ "name" ∷ "preferred_username" ∷ "given_name" ∷ "family_name"
    ∷ []

-- os.environ.get(name, "").strip()
unfoldable pub read_stripped : String → Environ → String
unfolding getenv
read_stripped name env = strip (or_default (getenv name env) "")

unfoldable pub is_switched_off : Environ → Bool
unfolding read_stripped contains
is_switched_off env =
    contains (lower (read_stripped otel_disabled_env env)) ("true" ∷ "1" ∷ "yes" ∷ [])

unfoldable pub is_disabled : Environ → Bool
unfolding read_stripped
is_disabled env =
    is_switched_off env
    || is_blank (read_stripped connection_string_env env)
      && is_blank (read_stripped otel_endpoint_env env)

pub data Exporter : Type 0 where
  azure_monitor : (connection_string : String) → Exporter
  otlp : (endpoint : String) → Exporter

pub data Provider : Type 0 where
  no_op_provider : Provider
  tracer_provider : (service_name : String) (exporter : Exporter) → Provider

-- What can be imported and built: the API with its no-op provider, and the SDK with an exporter.
pub record Packages : Type 0 where
  pub has_api : Bool
  pub builds : Exporter → Bool

unfoldable pub exporter_of : Environ → Exporter
unfolding read_stripped
exporter_of env =
    let connection_string = read_stripped connection_string_env env in
    if is_blank connection_string
    then otlp (read_stripped otel_endpoint_env env)
    else azure_monitor connection_string

-- The provider that the call installs, if any; no exception comes out.
unfoldable pub setup_telemetry : Packages → Environ → (service_name : String) → Option Provider
unfolding is_disabled exporter_of
setup_telemetry packages env service_name =
    if is_disabled env
    then if packages.has_api then some no_op_provider else none
    else if packages.builds (exporter_of env)
    then some (tracer_provider service_name (exporter_of env))
    else none

unfoldable pub safe_span_attribute_key : String → Bool
unfolding contains
safe_span_attribute_key key = not (contains key pii_keys)

pub data Attribute : Type 0 where
  text : String → Attribute
  flag : Bool → Attribute

-- The current span: which calls of `set_attribute` return. `none` where the package is missing or
-- there is no span.
pub record Span : Type 0 where
  pub accepts : String → Attribute → Bool

-- The calls in order, up to the first one that raises, which the handler swallows.
unfoldable pub set_attributes : Span → List (String × Attribute) → List (String × Attribute)
set_attributes span [] = []
set_attributes span ((key, value) ∷ rest) =
    let later = set_attributes span rest in
    if span.accepts key value then (key, value) ∷ later else []

pub record AuthAttributes : Type 0 where
  pub auth_mode : String
  pub authorized : Option Bool
  pub aud : Option String
  pub fixture_name : Option String
  pub strict_mode : Bool

abbrev pub authorized_attribute : Option Bool → List (String × Attribute)
authorized_attribute none = []
authorized_attribute (some b) = ("identity_lab.authorized", flag b) ∷ []

abbrev pub aud_attribute : Option String → List (String × Attribute)
aud_attribute none = []
aud_attribute (some aud) = ("identity_lab.aud", text aud) ∷ []

-- always blank in strict mode
abbrev pub fixture_attribute : Option String → (strict_mode : Bool) → List (String × Attribute)
fixture_attribute fixture_name true = ("identity_lab.fixture_name", text "") ∷ []
fixture_attribute none false = []
fixture_attribute (some name) false = ("identity_lab.fixture_name", text name) ∷ []

unfoldable pub auth_attributes : AuthAttributes → List (String × Attribute)
auth_attributes a =
    ("identity_lab.auth_mode", text a.auth_mode)
    ∷ (authorized_attribute a.authorized
        ++ (aud_attribute a.aud ++ fixture_attribute a.fixture_name a.strict_mode))

-- What is set on the span.
unfoldable pub record_auth_attributes : Option Span → AuthAttributes → List (String × Attribute)
unfolding set_attributes auth_attributes
record_auth_attributes none a = []
record_auth_attributes (some span) a = set_attributes span (auth_attributes a)

unfoldable pub record_obo_attributes : Option Span → (obo_hop : String) → List (String × Attribute)
unfolding set_attributes
record_obo_attributes none obo_hop = []
record_obo_attributes (some span) obo_hop =
    set_attributes span (("identity_lab.obo_hop", text obo_hop) ∷ [])
