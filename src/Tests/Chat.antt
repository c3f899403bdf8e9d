-- ===== src/Tests/Chat.antt =====
-- The theorems on the BFF's handlers at concrete inputs.
use agentic_identity_lab.Prelude.{
  ◌≡◌, ◌≢◌, refl, String, true, false, none, some, List, [], ◌∷◌, pos, strip, split, split_on, keep,
  contains, intersects, lower, partition, any, is_in, rstrip_slash, ◌==◌,
}
use agentic_identity_lab.Result.{ok}
use agentic_identity_lab.Value.{finite, lookup, truthy, or_value}
use agentic_identity_lab.Auth.TokenType.{has_scopes, classify_claims_token_type}
use agentic_identity_lab.Auth.Guards.{
  AuthContext, from_claims, require_scope, require_audience, require_delegated_token,
  validate_claims, issuer_failures, tenant_failures, exp_failures, nbf_failures, parse_timestamp,
}
use agentic_identity_lab.Auth.Settings.{
  disabled, getenv, is_strict, load_auth_mode, load_auth_settings, looks_like_placeholder,
  missing_strict_fields, has_non_placeholder, validate_strict_config,
}
use agentic_identity_lab.Auth.Obo.{
  missing_obo_fields, validate_entra_obo_config, extract_bearer_assertion, read_token_reply,
  exchange_entra_on_behalf_of,
}
use agentic_identity_lab.Service.{split_csv, parse_bool, int_setting, float_setting, put_header}
use agentic_identity_lab.Tests.Data
use agentic_identity_lab.Service.Lookup.{find_header}
use agentic_identity_lab.Bff.Config as BffConfig
use agentic_identity_lab.Bff.Auth as BffAuth
use agentic_identity_lab.Bff.Auth.Laws.{IsAdmitted}
use agentic_identity_lab.Bff.Main
use agentic_identity_lab.Bff.Main.Laws.{
  IsFor, build_forward_headers_strict, IsCalled, create_chat_session-IsAdmitted,
}

abbrev settings : BffConfig.Settings
settings = BffConfig.read_settings (Data.env "strict") (pos 8000) (finite (pos 10) false)

abbrev forwarded : List (String × String)
forwarded = ("x-correlation-id", "c-1") ∷ ("Authorization", "Bearer d.e.f") ∷ []

strict_settings : is_strict settings.auth_mode ≡ true
unfolding BffConfig.read_settings load_auth_mode getenv lower strip
strict_settings = refl

other_header : (lower settings.correlation_header == "authorization") ≡ false
unfolding BffConfig.read_settings getenv lower
other_header = refl

headers_built :
    Main.build_forward_headers (Data.env "strict") settings Data.headers Data.context ≡ ok forwarded
unfolding Main.build_forward_headers BffConfig.read_settings put_header from_claims getenv
    load_auth_mode load_auth_settings lower strip split_csv split_on keep parse_bool contains
    rstrip_slash validate_strict_config missing_strict_fields looks_like_placeholder
    has_non_placeholder is_in any validate_entra_obo_config missing_obo_fields int_setting
    float_setting validate_claims issuer_failures tenant_failures exp_failures nbf_failures
    parse_timestamp lookup require_scope or_value truthy split intersects require_audience
    require_delegated_token classify_claims_token_type has_scopes exchange_entra_on_behalf_of
    extract_bearer_assertion read_token_reply partition
headers_built = refl

token_forwarded : find_header "Authorization" forwarded ≡ some "Bearer d.e.f"
unfolding find_header
token_forwarded = refl

name_read : lower "Authorization" ≡ "authorization"
unfolding lower
name_read = refl

build_forward_headers_strict_example :
    IsFor
      (Data.env "strict")
      settings
      Data.headers
      Data.context
      (Data.headers.find "authorization")
      "Bearer d.e.f"
build_forward_headers_strict_example =
    build_forward_headers_strict (Data.env "strict") settings Data.headers Data.context forwarded
      "Authorization" "Bearer d.e.f" strict_settings other_header name_read headers_built
      token_forwarded

strict_on : load_auth_mode none (Data.environ "strict") ≢ disabled
unfolding load_auth_mode getenv lower strip
strict_on h = cc

chain_on : settings.chat_session_chain_enabled ≡ true
unfolding BffConfig.read_settings parse_bool getenv lower strip contains
chain_on = refl

session_given :
    Main.create_chat_session (Data.env "strict") settings Data.headers
    ≡ ok (Main.session_payload (Data.env "strict"))
unfolding Main.create_chat_session Main.agent_answer BffAuth.get_auth_context BffAuth.request_claims
    BffAuth.enforce BffConfig.load_settings put_header from_claims getenv load_auth_mode
    load_auth_settings lower strip split_csv split_on keep parse_bool contains rstrip_slash
    validate_strict_config missing_strict_fields looks_like_placeholder has_non_placeholder is_in
    any validate_entra_obo_config missing_obo_fields int_setting float_setting validate_claims
    issuer_failures tenant_failures exp_failures nbf_failures parse_timestamp lookup require_scope
    or_value truthy split intersects require_audience require_delegated_token
    classify_claims_token_type has_scopes exchange_entra_on_behalf_of extract_bearer_assertion
    read_token_reply partition
session_given = refl

create_chat_session-IsAdmitted_example :
    (context : AuthContext) × IsAdmitted
      (Data.env "strict")
      Data.headers
      (some "Bearer a.b.c")
      context
    × IsCalled (Data.env "strict") settings Data.headers context
unfolding getenv
create_chat_session-IsAdmitted_example =
    create_chat_session-IsAdmitted (Data.env "strict") settings Data.headers
      (Main.session_payload (Data.env "strict")) strict_on chain_on session_given

abbrev mock_settings : BffConfig.Settings
mock_settings = BffConfig.read_settings (Data.env "mock") (pos 8000) (finite (pos 10) false)

abbrev local_policy : Main.CorsPolicy
local_policy = record {
  allow_origins = "http://localhost:3000" ∷ [];
  allow_credentials = true;
  allow_methods = "GET" ∷ "POST" ∷ [];
  allow_headers = "Authorization" ∷ "Content-Type" ∷ "x-correlation-id" ∷ "traceparent" ∷ [];
}

policy_made : Main.cors_policy mock_settings ≡ ok (some local_policy)
unfolding Main.cors_policy BffConfig.read_settings load_auth_mode getenv lower strip contains
policy_made = refl
