-- ===== src/Tests/Services.antt =====
-- The theorems on the three services at concrete inputs.
use agentic_identity_lab.Prelude.{
  ◌≡◌, ◌≢◌, refl, true, false, none, some, [], pos, strip, split, split_on, keep, contains,
  intersects, lower, any, is_in, rstrip_slash,
}
use agentic_identity_lab.Result.{ok}
use agentic_identity_lab.Value.{finite, lookup, truthy, or_value}
use agentic_identity_lab.Diagnostics.{get_correlation_id}
use agentic_identity_lab.Auth.TokenType.{has_scopes, classify_claims_token_type}
use agentic_identity_lab.Auth.Guards.{
  AuthContext, from_claims, require_scope, require_audience, require_delegated_token,
  validate_claims, issuer_failures, tenant_failures, exp_failures, nbf_failures, parse_timestamp,
}
use agentic_identity_lab.Auth.Settings.{
  disabled, getenv, load_auth_mode, load_auth_settings, looks_like_placeholder,
  missing_strict_fields, has_non_placeholder, validate_strict_config,
}
use agentic_identity_lab.Auth.Obo.{missing_obo_fields, validate_entra_obo_config}
use agentic_identity_lab.Service.{split_csv, parse_bool, int_setting, float_setting}
use agentic_identity_lab.Service.Granted.{IsGranted}
use agentic_identity_lab.Bff.Config as BffConfig
use agentic_identity_lab.Bff.Auth as BffAuth
use agentic_identity_lab.Bff.Auth.Laws.{enforce_iff, IsAdmitted, get_auth_context-IsAdmitted}
use agentic_identity_lab.Tests.Data

claims_pass : BffAuth.enforce Data.host Data.policy Data.now Data.claims ≡ ok tt
unfolding BffAuth.enforce validate_claims issuer_failures tenant_failures exp_failures nbf_failures
    parse_timestamp lookup strip keep contains require_scope or_value truthy split intersects
    require_audience require_delegated_token classify_claims_token_type has_scopes any
claims_pass = refl

enforce_iff_example :
    IsGranted Data.host Data.policy Data.now Data.policy.required_scopes Data.claims
enforce_iff_example = (enforce_iff Data.host Data.policy Data.now Data.claims).0 claims_pass

bff_loaded :
    BffConfig.load_settings (Data.env "strict")
    ≡ ok (BffConfig.read_settings (Data.env "strict") (pos 8000) (finite (pos 10) false))
unfolding BffConfig.load_settings int_setting float_setting getenv load_auth_mode lower strip
    split_csv split_on keep parse_bool contains rstrip_slash validate_strict_config
    missing_strict_fields looks_like_placeholder has_non_placeholder is_in any
    validate_entra_obo_config missing_obo_fields
bff_loaded = refl

abbrev strict_settings : BffConfig.Settings
strict_settings = BffConfig.read_settings (Data.env "strict") (pos 8000) (finite (pos 10) false)

abbrev pub admitted : AuthContext
admitted =
    from_claims Data.host (some Data.claims) (classify_claims_token_type (some Data.claims)) true
      true [] (some (get_correlation_id Data.headers "x-correlation-id" "fresh"))

pub strict_on : load_auth_mode none (Data.environ "strict") ≢ disabled
unfolding load_auth_mode getenv lower strip
strict_on h = cc

bff_context :
    BffAuth.get_auth_context (Data.env "strict") Data.headers (some "Bearer a.b.c") ≡ ok admitted
unfolding BffAuth.get_auth_context BffAuth.request_claims load_auth_settings BffConfig.load_settings
    int_setting float_setting getenv load_auth_mode lower strip split_csv split_on keep parse_bool
    contains rstrip_slash validate_strict_config missing_strict_fields looks_like_placeholder
    has_non_placeholder is_in any validate_entra_obo_config missing_obo_fields BffAuth.enforce
    validate_claims issuer_failures tenant_failures exp_failures nbf_failures parse_timestamp lookup
    require_scope or_value truthy split intersects require_audience require_delegated_token
    classify_claims_token_type has_scopes
bff_context = refl

get_auth_context-IsAdmitted_example :
    IsAdmitted (Data.env "strict") Data.headers (some "Bearer a.b.c") admitted
get_auth_context-IsAdmitted_example =
    get_auth_context-IsAdmitted (Data.env "strict") Data.headers (some "Bearer a.b.c") admitted
      strict_on bff_context
