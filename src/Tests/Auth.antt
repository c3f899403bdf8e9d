-- ===== src/Tests/Auth.antt =====
-- The theorems on claims and exchanges at concrete inputs.
use agentic_identity_lab.Prelude.{
  ◌≡◌, ◌≢◌, refl, String, true, false, none, some, [], ◌∷◌, strip, split, keep, contains,
  intersects, is_blank, lower, partition, any, is_in, if◌then◌else◌,
}
use agentic_identity_lab.Result.{ok}
use agentic_identity_lab.Value.{str, Dict, lookup, truthy, or_value, IsDict}
use agentic_identity_lab.Auth.Claims.{sanitize_claims, sanitize_value}
use agentic_identity_lab.Auth.Claims.Keys.{sanitized, lookup-sanitize_claims}
use agentic_identity_lab.Auth.Guards.{
  many, require_scope, require_audience, validate_claims, issuer_failures, tenant_failures,
  exp_failures, nbf_failures, parse_timestamp, from_claims,
}
use agentic_identity_lab.Auth.Guards.Laws.{IsAcceptable, validate_claims_iff}
use agentic_identity_lab.Auth.Settings.{
  extract_bearer_token, looks_like_placeholder, missing_strict_fields, has_non_placeholder,
  validate_strict_config,
}
use agentic_identity_lab.Auth.Settings.Laws.{IsStrictConfig, validate_strict_config_iff}
use agentic_identity_lab.Auth.Obo.{
  exchange_on_behalf_of, missing_obo_fields, validate_entra_obo_config, extract_bearer_assertion,
  read_token_reply, exchange_entra_on_behalf_of,
}
use agentic_identity_lab.Auth.Obo.Laws.{
  MayExchange, exchange_on_behalf_of_iff, IsExchanged, exchange_entra_on_behalf_of_sound,
}
use agentic_identity_lab.Auth.AgentObo.{
  MockAgentSidecarClient, mock_downstream_api, is_trusted, is_expired, int_of_value, mock_validate,
  mock_client,
}
use agentic_identity_lab.Auth.AgentObo.Laws.{IsBlueprintToken, mock_validate_iff}
use agentic_identity_lab.Auth.Jwks.Algorithm.{
  allowed_algorithms, validate_algorithm, validate_algorithm_iff,
}
use agentic_identity_lab.Agent.Auth.{validate_agent_blueprint, exchange_agent_obo}
use agentic_identity_lab.Agent.Auth.Sidecar.{exchange_agent_obo-mock_client}
use agentic_identity_lab.Service.{claim_policy}
use agentic_identity_lab.Tests.Data

claims_valid : validate_claims Data.host Data.claims (claim_policy Data.policy Data.now) ≡ ok []
unfolding validate_claims issuer_failures tenant_failures exp_failures nbf_failures parse_timestamp
    lookup strip keep contains
claims_valid = refl

validate_claims_iff_example : IsAcceptable Data.host (claim_policy Data.policy Data.now) Data.claims
validate_claims_iff_example =
    (validate_claims_iff Data.host (claim_policy Data.policy Data.now) Data.claims).0 claims_valid

scope_held : require_scope Data.host Data.claims (many ("mcp.write" ∷ [])) ≡ true
unfolding require_scope lookup or_value truthy split keep strip intersects contains
scope_held = refl

audience_met : require_audience Data.host Data.claims (many ("api://lab" ∷ [])) ≡ true
unfolding require_audience lookup keep strip intersects contains
audience_met = refl

claims-IsDict : IsDict Data.claims
unfolding lookup
claims-IsDict = (refl, (refl, (refl, (refl, (refl, (refl, (refl, tt)))))))

lookup-sanitize_claims_example : lookup "scp" (sanitize_claims Data.host (some Data.claims)) ≡ (
    if contains "scp" Data.host.safe_claim_keys
    then sanitized Data.host (lookup "scp" Data.claims)
    else none)
lookup-sanitize_claims_example = lookup-sanitize_claims Data.host Data.claims "scp" claims-IsDict

may_exchange : MayExchange Data.context "api://mcp"
unfolding strip from_claims
may_exchange = record {
  authenticated = refl;
  authorized = refl;
  delegated = refl;
  for_audience = refl;
}

header_obtained :
    exchange_entra_on_behalf_of Data.token_endpoint (some "Bearer a.b.c") Data.obo_config "chain"
    ≡ ok "Bearer d.e.f"
unfolding exchange_entra_on_behalf_of validate_entra_obo_config missing_obo_fields
    extract_bearer_assertion read_token_reply partition lower strip lookup
header_obtained = refl

exchange_entra_on_behalf_of_sound_example :
    IsExchanged Data.token_endpoint (some "Bearer a.b.c") Data.obo_config "Bearer d.e.f"
exchange_entra_on_behalf_of_sound_example =
    exchange_entra_on_behalf_of_sound Data.token_endpoint (some "Bearer a.b.c") Data.obo_config
      "chain" "Bearer d.e.f" header_obtained

alg_accepted : validate_algorithm (str " rs256 ") ≡ ok "RS256"
unfolding validate_algorithm lower strip
alg_accepted = refl

validate_algorithm_iff_example :
    (contains "RS256" allowed_algorithms ≡ true)
    × ((s : String) × (str " rs256 " ≡ str s)
        × (is_blank s ≡ false)
        × (lower (strip s) ≡ lower "RS256"))
validate_algorithm_iff_example = (validate_algorithm_iff (str " rs256 ") "RS256").0 alg_accepted

bearer_read : extract_bearer_token (some " Bearer  a.b.c ") ≡ some "a.b.c"
unfolding extract_bearer_token partition lower strip
bearer_read = refl

headers_given : Data.headers.items ≢ []
headers_given h = cc

config_real :
    validate_strict_config
      (some "https://issuer")
      (some "https://issuer/keys")
      ("api://lab" ∷ [])
      ("mcp.access" ∷ [])
      ("tenant-1" ∷ [])
    ≡ ok tt
unfolding validate_strict_config missing_strict_fields looks_like_placeholder strip lower is_in any
    has_non_placeholder
config_real = refl

validate_strict_config_iff_example :
    IsStrictConfig
      (some "https://issuer")
      (some "https://issuer/keys")
      ("api://lab" ∷ [])
      ("mcp.access" ∷ [])
      ("tenant-1" ∷ [])
validate_strict_config_iff_example =
    (validate_strict_config_iff (some "https://issuer") (some "https://issuer/keys")
        ("api://lab" ∷ []) ("mcp.access" ∷ []) ("tenant-1" ∷ [])).0
      config_real

abbrev client : MockAgentSidecarClient
client = record {
  config = record { sidecar_url = "http://localhost"; blueprint_audience = "api://lab" };
  fixture_claims = Data.claims;
  obo_fixture_claims = Data.claims;
  trusted_tenants = "tenant-1" ∷ [];
}

token_taken :
    mock_validate Data.host Data.now client "token"
    ≡ ok (sanitize_claims Data.host (some Data.claims))
unfolding mock_validate is_trusted is_expired lookup contains truthy int_of_value
token_taken = refl

mock_validate_iff_example :
    IsBlueprintToken Data.host Data.now client
    × (sanitize_claims Data.host (some Data.claims) ≡ sanitize_claims Data.host (some Data.claims))
mock_validate_iff_example =
    (mock_validate_iff Data.host Data.now client "token"
        (sanitize_claims Data.host (some Data.claims))).0
      token_taken

client_accepts :
    validate_agent_blueprint "token" (mock_client Data.host Data.now client)
    ≡ ok (sanitize_claims Data.host (some Data.claims))
unfolding validate_agent_blueprint mock_client mock_validate is_trusted is_expired lookup contains
    truthy int_of_value
client_accepts = refl

client_exchanges :
    exchange_agent_obo "token" (mock_client Data.host Data.now client) "mcp" none
    ≡ ok (record {
      authorization = "Bearer OFFLINE_MOCK_TOKEN";
      claims = sanitize_claims Data.host (some Data.claims);
    })
unfolding exchange_agent_obo mock_client mock_downstream_api lookup
client_exchanges = refl

name_unlisted : contains "name" Data.host.safe_claim_keys ≡ false
unfolding contains
name_unlisted = refl

exchange_agent_obo-mock_client_example :
    (lookup "name" (sanitize_claims Data.host (some Data.claims)) ≡ none)
    × (lookup "name" (sanitize_claims Data.host (some Data.claims)) ≡ none)
exchange_agent_obo-mock_client_example =
    exchange_agent_obo-mock_client Data.host Data.now client "token" "mcp" "name" none
      (sanitize_claims Data.host (some Data.claims))
      (record {
        authorization = "Bearer OFFLINE_MOCK_TOKEN";
        claims = sanitize_claims Data.host (some Data.claims);
      })
      name_unlisted client_accepts client_exchanges

exchange_done :
    (claims : Dict) × (exchange_on_behalf_of Data.host Data.context "api://mcp"
        (many ("mcp.access" ∷ []))
      ≡ ok claims)
exchange_done =
    (exchange_on_behalf_of_iff Data.host Data.context "api://mcp" (many ("mcp.access" ∷ []))).1
      may_exchange

context-IsDict : IsDict Data.context.claims
unfolding from_claims sanitize_claims sanitize_value contains lookup
context-IsDict = (refl, (refl, (refl, (refl, (refl, (refl, tt))))))
