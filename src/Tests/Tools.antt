-- ===== src/Tests/Tools.antt =====
-- The theorems on the MCP service at concrete inputs.
use agentic_identity_lab.Prelude.{
  ◌≡◌, refl, inr, true, false, some, [], ◌∷◌, pos, strip, split, split_on, keep, contains,
  intersects, lower, any, is_in, rstrip_slash,
}
use agentic_identity_lab.Result.{ok}
use agentic_identity_lab.Value.{lookup, truthy, or_value}
use agentic_identity_lab.Diagnostics.{get_correlation_id}
use agentic_identity_lab.Auth.TokenType.{has_scopes, classify_claims_token_type}
use agentic_identity_lab.Auth.Claims.{sanitize_claims, sanitize_value}
use agentic_identity_lab.Auth.Guards.{
  AuthContext, from_claims, extract_scopes, require_scope, require_audience,
  require_delegated_token, validate_claims, issuer_failures, tenant_failures, exp_failures,
  nbf_failures, parse_timestamp,
}
use agentic_identity_lab.Auth.Settings.{
  getenv, is_disabled, load_auth_mode, load_auth_settings, looks_like_placeholder,
  missing_strict_fields, has_non_placeholder, validate_strict_config,
}
use agentic_identity_lab.Auth.Obo.{missing_obo_fields, validate_entra_obo_config}
use agentic_identity_lab.Service.{split_csv, parse_bool, int_setting, float_setting, header_value}
use agentic_identity_lab.Tests.Data
use agentic_identity_lab.Mcp.Config
use agentic_identity_lab.Mcp.Auth
use agentic_identity_lab.Mcp.Auth.Laws.{IsEnforced, require_mcp_write-IsEnforced}

abbrev settings : Config.Settings
settings = Config.read_settings (Data.env "strict") (pos 8000)

settings_loaded : Config.load_settings (Data.env "strict") ≡ ok settings
unfolding Config.load_settings getenv load_auth_mode load_auth_settings lower strip split_csv
    split_on keep parse_bool contains rstrip_slash validate_strict_config missing_strict_fields
    looks_like_placeholder has_non_placeholder is_in any validate_entra_obo_config
    missing_obo_fields int_setting float_setting validate_claims issuer_failures tenant_failures
    exp_failures nbf_failures parse_timestamp lookup require_scope or_value truthy split intersects
    require_audience require_delegated_token classify_claims_token_type has_scopes
settings_loaded = refl

auth_on : is_disabled settings.auth_mode ≡ false
unfolding Config.read_settings load_auth_mode getenv lower strip
auth_on = refl

abbrev result : AuthContext
result =
    from_claims Data.host (some Data.context.claims) Data.context.token_type true true []
      Data.context.correlation_id

abbrev built : AuthContext
built =
    from_claims Data.host (some Data.claims) "delegated" true false []
      (some (get_correlation_id Data.headers "x-correlation-id" "fresh"))

abbrev write_result : AuthContext
write_result =
    from_claims Data.host (some built.claims) built.token_type true true [] built.correlation_id

write_named : contains Auth.write_scope settings.required_scopes ≡ true
unfolding Config.read_settings split_csv split_on getenv keep strip contains
write_named = refl

tool_open : Auth.require_mcp_write (Data.env "strict") settings Data.headers ≡ ok write_result
unfolding Auth.require_mcp_write Auth.require_mcp Config.read_settings header_value from_claims
    sanitize_claims sanitize_value getenv load_auth_mode load_auth_settings lower strip split_csv
    split_on keep parse_bool contains rstrip_slash validate_strict_config missing_strict_fields
    looks_like_placeholder has_non_placeholder is_in any validate_entra_obo_config
    missing_obo_fields int_setting float_setting validate_claims issuer_failures tenant_failures
    exp_failures nbf_failures parse_timestamp lookup require_scope or_value truthy split intersects
    require_audience require_delegated_token classify_claims_token_type has_scopes
tool_open = refl

require_mcp_write-IsEnforced_example :
    (context : AuthContext) × (Auth.build_auth_context (Data.env "strict") settings Data.headers
      ≡ ok context)
    × IsEnforced (Data.env "strict") settings (Auth.write_scope ∷ []) context write_result
    × (contains Auth.write_scope (extract_scopes Data.host context.claims) ≡ true)
require_mcp_write-IsEnforced_example =
    require_mcp_write-IsEnforced (Data.env "strict") settings Data.headers write_result auth_on
      (inr write_named) tool_open
