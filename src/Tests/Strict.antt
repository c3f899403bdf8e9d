-- ===== src/Tests/Strict.antt =====
-- The BFF over the strict validation at concrete inputs.
use agentic_identity_lab.Prelude.{
  ◌≡◌, refl, some, none, strip, split, split_on, keep, contains, intersects, lower, partition, any,
  is_in, rstrip_slash,
}
use agentic_identity_lab.Result.{ok}
use agentic_identity_lab.Value.{lookup, set_item, truthy, or_value}
use agentic_identity_lab.Auth.TokenType.{has_scopes, classify_claims_token_type}
use agentic_identity_lab.Auth.Guards.{
  require_scope, require_audience, require_delegated_token, validate_claims, issuer_failures,
  tenant_failures, exp_failures, nbf_failures, parse_timestamp,
}
use agentic_identity_lab.Auth.Settings.{
  strict, getenv, load_auth_mode, load_auth_settings, looks_like_placeholder, missing_strict_fields,
  has_non_placeholder, validate_strict_config, extract_bearer_token,
}
use agentic_identity_lab.Auth.Obo.{missing_obo_fields, validate_entra_obo_config}
use agentic_identity_lab.Auth.Jwks.Algorithm.{validate_algorithm}
use agentic_identity_lab.Auth.Jwks.Cache.{add_key, keys_of, get_key}
use agentic_identity_lab.Auth.Jwks.Strict.{
  kid_of, listed_issuers, verify, read_header, validate_strict,
}
use agentic_identity_lab.Auth.Jwks.Shared.{strict_jwks_cache, load_strict_claims_from_authorization}
use agentic_identity_lab.Service.{split_csv, parse_bool, int_setting, float_setting}
use agentic_identity_lab.Bff.Config.{load_settings}
use agentic_identity_lab.Bff.Auth.{request_claims, enforce, get_auth_context}
use agentic_identity_lab.Bff.Auth.Strict.{with_strict, IsTrusted, get_auth_context-IsTrusted}
use agentic_identity_lab.Tests.Data
use agentic_identity_lab.Tests.Keys
use agentic_identity_lab.Tests.Services

pub in_strict_mode : load_auth_mode none (Data.environ "strict") ≡ strict
unfolding load_auth_mode getenv lower strip
in_strict_mode = refl

pub request_admitted :
    get_auth_context
      (with_strict Keys.net (Keys.jwt "rs256") Keys.start (Data.env "strict"))
      Data.headers
      (some "Bearer a.b.c")
    ≡ ok Services.admitted
unfolding with_strict get_auth_context request_claims load_settings enforce
    load_strict_claims_from_authorization extract_bearer_token partition strict_jwks_cache
    validate_strict read_header validate_algorithm kid_of get_key keys_of add_key set_item verify
    listed_issuers getenv load_auth_mode load_auth_settings lower strip split_csv split_on keep
    parse_bool contains rstrip_slash validate_strict_config missing_strict_fields
    looks_like_placeholder has_non_placeholder is_in any validate_entra_obo_config
    missing_obo_fields int_setting float_setting validate_claims issuer_failures tenant_failures
    exp_failures nbf_failures parse_timestamp lookup require_scope or_value truthy split intersects
    require_audience require_delegated_token classify_claims_token_type has_scopes
request_admitted = refl

get_auth_context-IsTrusted_example :
    IsTrusted Keys.net
      (Keys.jwt "rs256")
      Keys.start
      (Data.env "strict")
      Data.headers
      (some "Bearer a.b.c")
      Services.admitted
get_auth_context-IsTrusted_example =
    get_auth_context-IsTrusted Keys.net (Keys.jwt "rs256") Keys.start (Data.env "strict")
      Data.headers (some "Bearer a.b.c") Services.admitted in_strict_mode request_admitted
