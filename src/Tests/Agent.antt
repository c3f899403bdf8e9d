-- ===== src/Tests/Agent.antt =====
-- The theorems on the agent at concrete inputs.
use agentic_identity_lab.Prelude.{
  ◌≡◌, ◌≢◌, refl, true, false, none, some, [], pos, strip, split, split_on, keep, contains,
  intersects, lower, partition, any, is_in, rstrip_slash, join, ◌==◌,
}
use agentic_identity_lab.Result.{http_exception, ok, raise}
use agentic_identity_lab.Value.{finite, int, str, Dict, empty, entry, lookup, truthy, or_value}
use agentic_identity_lab.Diagnostics.{get_correlation_id}
use agentic_identity_lab.Auth.TokenType.{has_scopes, has_roles, classify_claims_token_type}
use agentic_identity_lab.Auth.Guards.{
  AuthContext, from_claims, require_scope, require_audience, require_delegated_token,
  validate_claims, issuer_failures, tenant_failures, exp_failures, nbf_failures, parse_timestamp,
}
use agentic_identity_lab.Auth.Settings.{
  disabled, getenv, is_strict, load_auth_mode, load_auth_settings, looks_like_placeholder,
  missing_strict_fields, has_non_placeholder, validate_strict_config,
}
use agentic_identity_lab.Auth.Obo.{
  missing_obo_fields, validate_entra_obo_config, extract_bearer_assertion, read_token_reply,
  exchange_entra_on_behalf_of,
}
use agentic_identity_lab.Auth.Obo.Laws.{IsExchanged}
use agentic_identity_lab.Service.{
  claim_policy, split_csv, parse_bool, int_setting, float_setting, header_value,
}
use agentic_identity_lab.Service.Granted.{IsGranted}
use agentic_identity_lab.Tests.Data
use agentic_identity_lab.Bff.Auth.{enforce}
use agentic_identity_lab.Agent.Config
use agentic_identity_lab.Agent.Config.Laws.{IsLoaded, agent_settings-IsLoaded}
use agentic_identity_lab.Agent.Auth
use agentic_identity_lab.Agent.Auth.Laws.{decide_iff, IsResolved, resolve_auth_context-IsResolved}
use agentic_identity_lab.Agent.Auth.Agreement.{decide-enforce}
use agentic_identity_lab.Agent.Main
use agentic_identity_lab.Agent.Main.Laws.{
  IsChained, invoke_response-IsChained, invoke_response_strict,
}

abbrev settings : Config.Settings
settings = Config.read_settings (Data.env "strict") (pos 8000) (finite (pos 10) false)

settings_loaded : Config.load_settings (Data.env "strict") ≡ ok settings
unfolding Config.load_settings getenv load_auth_mode load_auth_settings lower strip split_csv
    split_on keep parse_bool contains rstrip_slash validate_strict_config missing_strict_fields
    looks_like_placeholder has_non_placeholder is_in any validate_entra_obo_config
    missing_obo_fields int_setting float_setting validate_claims issuer_failures tenant_failures
    exp_failures nbf_failures parse_timestamp lookup require_scope or_value truthy split intersects
    require_audience require_delegated_token classify_claims_token_type has_scopes
settings_loaded = refl

agent_settings-IsLoaded_example : IsLoaded (Data.env "strict") settings
agent_settings-IsLoaded_example =
    agent_settings-IsLoaded (Data.env "strict") settings settings_loaded

abbrev admitted : AuthContext
admitted =
    from_claims Data.host (some Data.claims) (classify_claims_token_type (some Data.claims)) true
      true [] (some "c-1")

claims_authorized : Auth.decide Data.host Data.policy Data.now Data.claims "c-1" ≡ ok admitted
unfolding Auth.decide Auth.failure_reasons Auth.token_failures getenv load_auth_mode
    load_auth_settings lower strip split_csv split_on keep parse_bool contains rstrip_slash
    validate_strict_config missing_strict_fields looks_like_placeholder has_non_placeholder is_in
    any validate_entra_obo_config missing_obo_fields int_setting float_setting validate_claims
    issuer_failures tenant_failures exp_failures nbf_failures parse_timestamp lookup require_scope
    or_value truthy split intersects require_audience require_delegated_token
    classify_claims_token_type has_scopes
claims_authorized = refl

decide_iff_example :
    IsGranted Data.host Data.policy Data.now Data.policy.required_scopes Data.claims
    × (admitted ≡ admitted)
decide_iff_example =
    (decide_iff Data.host Data.policy Data.now Data.claims "c-1" admitted).0 claims_authorized

-- Claims of a token that is not delegated.
abbrev app_claims : Dict
app_claims = entry "aud" (str "api://lab") (
    entry "exp" (int (pos 2000)) (
      entry "iss" (str "https://issuer") (
        entry "nbf" (int (pos 900))
          (entry "roles" (str "reader") (entry "tid" (str "tenant-1") empty)))))

app_times : validate_claims Data.host app_claims (claim_policy Data.policy Data.now) ≡ ok []
unfolding getenv load_auth_mode load_auth_settings lower strip split_csv split_on keep parse_bool
    contains rstrip_slash validate_strict_config missing_strict_fields looks_like_placeholder
    has_non_placeholder is_in any validate_entra_obo_config missing_obo_fields int_setting
    float_setting validate_claims issuer_failures tenant_failures exp_failures nbf_failures
    parse_timestamp lookup require_scope or_value truthy split intersects require_audience
    require_delegated_token classify_claims_token_type has_scopes
app_times = refl

app_refused :
    enforce Data.host Data.policy Data.now app_claims
    ≡ raise (http_exception 403 "delegated_required")
unfolding enforce has_roles getenv load_auth_mode load_auth_settings lower strip split_csv split_on
    keep parse_bool contains rstrip_slash validate_strict_config missing_strict_fields
    looks_like_placeholder has_non_placeholder is_in any validate_entra_obo_config
    missing_obo_fields int_setting float_setting validate_claims issuer_failures tenant_failures
    exp_failures nbf_failures parse_timestamp lookup require_scope or_value truthy split intersects
    require_audience require_delegated_token classify_claims_token_type has_scopes
app_refused = refl

decide-enforce_example :
    Auth.decide Data.host Data.policy Data.now app_claims "c-1"
    ≡ raise (http_exception 403 "Authorization failed.")
decide-enforce_example =
    decide-enforce Data.host Data.policy Data.now app_claims "c-1" [] 403 "delegated_required" refl
      app_times app_refused

strict_on : load_auth_mode none (Data.environ "strict") ≢ disabled
unfolding load_auth_mode getenv lower strip
strict_on h = cc

abbrev resolved : AuthContext
resolved =
    from_claims Data.host (some Data.claims) (classify_claims_token_type (some Data.claims)) true
      true [] (some (get_correlation_id Data.headers "x-correlation-id" "fresh"))

context_resolved : Auth.resolve_auth_context (Data.env "strict") Data.headers ≡ ok resolved
unfolding Auth.resolve_auth_context Auth.request_claims Auth.decide Auth.failure_reasons
    Auth.token_failures Config.load_settings header_value getenv load_auth_mode load_auth_settings
    lower strip split_csv split_on keep parse_bool contains rstrip_slash validate_strict_config
    missing_strict_fields looks_like_placeholder has_non_placeholder is_in any
    validate_entra_obo_config missing_obo_fields int_setting float_setting validate_claims
    issuer_failures tenant_failures exp_failures nbf_failures parse_timestamp lookup require_scope
    or_value truthy split intersects require_audience require_delegated_token
    classify_claims_token_type has_scopes
context_resolved = refl

resolve_auth_context-IsResolved_example : IsResolved (Data.env "strict") Data.headers resolved
resolve_auth_context-IsResolved_example =
    resolve_auth_context-IsResolved (Data.env "strict") Data.headers resolved strict_on
      context_resolved

abbrev exchange : Auth.OboExchange
exchange = record {
  authorization = "Bearer d.e.f";
  claims =
      entry "aud" (str "api://00000000-0000-0000-0000-000000000103")
        (entry "scp" (str "mcp.access") empty);
}

strict_settings : is_strict settings.auth_mode ≡ true
unfolding Config.read_settings load_auth_mode getenv lower strip
strict_settings = refl

other_header : (settings.correlation_header == "Authorization") ≡ false
unfolding Config.read_settings getenv
other_header = refl

abbrev mcp_result : Dict
mcp_result = entry "authorized" (str "yes") empty

abbrev response : Main.AgentInvokeResponse
response =
    Main.response_of Data.host "invoke" Data.context (Main.sorted_keys none) (some exchange)
      (some mcp_result)

invocation_done :
    Main.invoke_response (Data.env "strict") settings "invoke" none Data.context Data.headers
    ≡ ok response
unfolding Main.invoke_response Auth.exchange_for_mcp Config.read_settings join Main.mcp_answer
    from_claims getenv load_auth_mode load_auth_settings lower strip split_csv split_on keep
    parse_bool contains rstrip_slash validate_strict_config missing_strict_fields
    looks_like_placeholder has_non_placeholder is_in any validate_entra_obo_config
    missing_obo_fields int_setting float_setting validate_claims issuer_failures tenant_failures
    exp_failures nbf_failures parse_timestamp lookup require_scope or_value truthy split intersects
    require_audience require_delegated_token classify_claims_token_type has_scopes
    exchange_entra_on_behalf_of extract_bearer_assertion read_token_reply partition
invocation_done = refl

chain_reported : response.chain_exercised ≡ true
unfolding Main.response_of
chain_reported = refl

invoke_response-IsChained_example :
    IsChained (Data.env "strict") settings Data.headers Data.context response
invoke_response-IsChained_example =
    invoke_response-IsChained (Data.env "strict") settings Data.headers Data.context "invoke" none
      response other_header invocation_done chain_reported

invoke_response_strict_example :
    (chained : IsChained (Data.env "strict") settings Data.headers Data.context response)
    × IsExchanged
        (Data.env "strict").token_endpoint
        (Data.headers.find "authorization")
        (Config.obo_config settings)
        chained.exchange.authorization
invoke_response_strict_example =
    invoke_response_strict (Data.env "strict") settings Data.headers Data.context "invoke" none
      response strict_settings other_header invocation_done chain_reported
