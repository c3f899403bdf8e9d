-- ===== src/Agent/Config.antt =====
-- config.py
pub mod Laws
use agentic_identity_lab.Prelude.{
  ℕ, String, Bool, true, false, not, ◌&&◌, Option, none, some, List, [], ◌∷◌, ℤ, is_blank,
  rstrip_slash, ◌==◌, if◌then◌else◌,
}
use agentic_identity_lab.Result.{value_error, Result, ok, raise, ◌>>=◌}
use agentic_identity_lab.Value.{Float}
use agentic_identity_lab.Auth.Settings.{
  AuthMode, is_strict, load_auth_mode, getenv, issuer_placeholder, jwks_url_placeholder,
  trusted_tenant_placeholder, validate_strict_config,
}
use agentic_identity_lab.Auth.Obo.{EntraOboConfig, validate_entra_obo_config}
use agentic_identity_lab.Auth.AgentObo.{blueprint_audience_placeholder}
use agentic_identity_lab.Service.{
  Env, split_csv, parse_bool, setting, int_setting, float_setting, TokenPolicy,
}

pub record Settings : Type 0 where
  pub service_name : String
  pub port : ℤ
  pub log_level : String
  pub auth_mode : AuthMode
  pub policy : TokenPolicy
  pub open policy use *
  pub obo_downstream_audience : String
  pub obo_required_scopes : List String
  pub obo_token_url : String
  pub obo_client_id : String
  pub obo_client_secret : String
  pub enable_debug_claims : Bool
  pub correlation_header : String
  pub blueprint_audience : String
  pub mcp_chain_enabled : Bool
  pub mcp_protected_api_base_url : String
  pub mcp_authorization_check_path : String
  pub downstream_timeout_seconds : Float

-- The settings, before they are checked.
unfoldable pub read_settings : Env → (port : ℤ) (timeout : Float) → Settings
read_settings env port timeout = record {
  service_name = setting env.environ "SERVICE_NAME" "identity-lab-agent-execution";
  port = port;
  log_level = setting env.environ "LOG_LEVEL" "info";
  auth_mode = load_auth_mode none env.environ;
  policy = record {
    auth_issuer = setting env.environ "AUTH_ISSUER" issuer_placeholder;
    auth_jwks_url = setting env.environ "AUTH_JWKS_URL" jwks_url_placeholder;
    allowed_audiences =
        split_csv (getenv "ALLOWED_AUDIENCES" env.environ)
          ("api://00000000-0000-0000-0000-000000000102" ∷ []);
    required_scopes =
        split_csv (getenv "REQUIRED_SCOPES" env.environ) ("mcp.access" ∷ "mcp.write" ∷ []);
    trusted_tenants =
        split_csv (getenv "TRUSTED_TENANTS" env.environ) (trusted_tenant_placeholder ∷ []);
  };
  obo_downstream_audience =
      setting env.environ "OBO_DOWNSTREAM_AUDIENCE" "api://00000000-0000-0000-0000-000000000103";
  obo_required_scopes =
      split_csv (getenv "OBO_REQUIRED_SCOPES" env.environ) ("mcp.access" ∷ "mcp.write" ∷ []);
  obo_token_url = setting env.environ "OBO_TOKEN_URL" "";
  obo_client_id = setting env.environ "OBO_CLIENT_ID" "";
  obo_client_secret = setting env.environ "OBO_CLIENT_SECRET" "";
  enable_debug_claims = parse_bool (getenv "ENABLE_DEBUG_CLAIMS" env.environ) false;
  correlation_header = setting env.environ "CORRELATION_HEADER" "x-correlation-id";
  blueprint_audience = setting env.environ "BLUEPRINT_AUDIENCE" blueprint_audience_placeholder;
  mcp_chain_enabled = parse_bool (getenv "MCP_CHAIN_ENABLED" env.environ) false;
  mcp_protected_api_base_url = rstrip_slash (setting env.environ "MCP_PROTECTED_API_BASE_URL" "");
  mcp_authorization_check_path =
      setting env.environ "MCP_AUTHORIZATION_CHECK_PATH" "/tools/authorization-check";
  downstream_timeout_seconds = timeout;
}

-- EntraOboConfig(token_url=active_settings.obo_token_url, …)
abbrev pub obo_config : Settings → EntraOboConfig
obo_config settings = record {
  token_url = settings.obo_token_url;
  client_id = settings.obo_client_id;
  client_secret = settings.obo_client_secret;
  scopes = settings.obo_required_scopes;
  timeout_seconds = settings.downstream_timeout_seconds;
}

abbrev pub check_chain : Settings → Result (Unit {0})
check_chain settings =
    if settings.mcp_chain_enabled && is_blank settings.mcp_protected_api_base_url
    then raise
        (value_error "MCP_CHAIN_ENABLED requires MCP_PROTECTED_API_BASE_URL to be configured.")
    else ok tt

abbrev pub check_blueprint : Settings → Result (Unit {0})
check_blueprint settings =
    if settings.blueprint_audience == blueprint_audience_placeholder
    then raise (
        value_error
          "Strict auth mode requires BLUEPRINT_AUDIENCE to be set to a real audience URI. The placeholder value is not permitted in strict mode (T12 binding condition C1).")
    else ok tt

abbrev pub check_obo : Settings → Result (Unit {0})
check_obo settings =
    if settings.mcp_chain_enabled
    then validate_entra_obo_config (obo_config settings) "Strict Agent to MCP chain"
    else ok tt

abbrev pub check_strict : Settings → Result (Unit {0})
check_strict settings =
    if is_strict settings.auth_mode
    then (do
      real ←
          validate_strict_config (some settings.auth_issuer) (some settings.auth_jwks_url)
            settings.allowed_audiences settings.required_scopes settings.trusted_tenants
      blueprint ← check_blueprint settings
      check_obo settings)
    else ok tt

unfoldable pub load_settings : Env → Result Settings
unfolding read_settings
load_settings env = do
  port ← int_setting env.host env.environ "PORT" "8000"
  timeout ← float_setting env.host env.environ "DOWNSTREAM_TIMEOUT_SECONDS" "10"
  let settings = read_settings env port timeout
  chain ← check_chain settings
  checked ← check_strict settings
  ok settings
