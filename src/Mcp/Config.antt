-- ===== src/Mcp/Config.antt =====
-- config.py
pub mod Laws
use agentic_identity_lab.Prelude.{
  String, Bool, false, Option, none, some, List, [], ◌∷◌, ℤ, if◌then◌else◌,
}
use agentic_identity_lab.Result.{Result, ok, ◌>>=◌}
use agentic_identity_lab.Auth.Settings.{
  AuthMode, is_strict, load_auth_mode, getenv, issuer_placeholder, jwks_url_placeholder,
  trusted_tenant_placeholder, validate_strict_config,
}
use agentic_identity_lab.Service.{Env, split_csv, parse_bool, setting, int_setting, TokenPolicy}

pub record Settings : Type 0 where
  pub service_name : String
  pub port : ℤ
  pub log_level : String
  pub auth_mode : AuthMode
  pub policy : TokenPolicy
  pub open policy use *
  pub enable_debug_claims : Bool
  pub correlation_header : String

-- The settings, before they are checked.
unfoldable pub read_settings : Env → (port : ℤ) → Settings
read_settings env port = record {
  service_name = setting env.environ "SERVICE_NAME" "identity-lab-mcp-protected-api";
  port = port;
  log_level = setting env.environ "LOG_LEVEL" "info";
  auth_mode = load_auth_mode none env.environ;
  policy = record {
    auth_issuer = setting env.environ "AUTH_ISSUER" issuer_placeholder;
    auth_jwks_url = setting env.environ "AUTH_JWKS_URL" jwks_url_placeholder;
    allowed_audiences =
        split_csv (getenv "ALLOWED_AUDIENCES" env.environ)
          ("api://00000000-0000-0000-0000-000000000103" ∷ []);
    required_scopes =
        split_csv (getenv "REQUIRED_SCOPES" env.environ) ("mcp.access" ∷ "mcp.write" ∷ []);
    trusted_tenants =
        split_csv (getenv "TRUSTED_TENANTS" env.environ) (trusted_tenant_placeholder ∷ []);
  };
  enable_debug_claims = parse_bool (getenv "ENABLE_DEBUG_CLAIMS" env.environ) false;
  correlation_header = setting env.environ "CORRELATION_HEADER" "x-correlation-id";
}

abbrev pub check_strict : Settings → Result (Unit {0})
check_strict settings =
    if is_strict settings.auth_mode
    then validate_strict_config (some settings.auth_issuer) (some settings.auth_jwks_url)
        settings.allowed_audiences settings.required_scopes settings.trusted_tenants
    else ok tt

unfoldable pub load_settings : Env → Result Settings
unfolding read_settings
load_settings env = do
  port ← int_setting env.host env.environ "PORT" "8000"
  let settings = read_settings env port
  checked ← check_strict settings
  ok settings
