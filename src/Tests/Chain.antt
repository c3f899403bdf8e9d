-- ===== src/Tests/Chain.antt =====
-- The chain of the two services at concrete inputs.
use agentic_identity_lab.Prelude.{
  ◌≡◌, refl, sym, ap, ◌∙◌, false, String, Option, List, ◌∷◌, inl, inr, Bool-cases, eq_iff, eq_refl,
  arith, ◌==◌, ◌<+>◌, some, none, strip, split, split_on, keep, contains, intersects, lower,
  partition, any, is_in, rstrip_slash, pos, [], true, join,
}
use agentic_identity_lab.Result.{Result, ok, raise}
use agentic_identity_lab.Http.{HttpReply, reply}
use agentic_identity_lab.Auth.Settings
use agentic_identity_lab.Service.Lookup.{find_header}
use agentic_identity_lab.Bff.Auth as BffAuth
use agentic_identity_lab.Value.{finite, lookup, set_item, truthy, or_value}
use agentic_identity_lab.Auth.TokenType.{has_scopes, classify_claims_token_type}
use agentic_identity_lab.Auth.Guards.{
  require_scope, require_audience, require_delegated_token, validate_claims, issuer_failures,
  tenant_failures, exp_failures, nbf_failures, parse_timestamp,
}
use agentic_identity_lab.Auth.Settings.{
  Headers, is_strict, getenv, load_auth_mode, load_auth_settings, looks_like_placeholder,
  missing_strict_fields, has_non_placeholder, validate_strict_config, extract_bearer_token,
}
use agentic_identity_lab.Auth.Obo.{
  missing_obo_fields, validate_entra_obo_config, extract_bearer_assertion, read_token_reply,
  exchange_entra_on_behalf_of,
}
use agentic_identity_lab.Auth.Jwks.Algorithm.{validate_algorithm}
use agentic_identity_lab.Auth.Jwks.Cache.{add_key, keys_of, get_key}
use agentic_identity_lab.Auth.Jwks.Strict.{
  kid_of, listed_issuers, verify, read_header, validate_strict,
}
use agentic_identity_lab.Auth.Jwks.Shared.{strict_jwks_cache, load_strict_claims_from_authorization}
use agentic_identity_lab.Service.{
  OutRequest, header_value, put_header, Env, split_csv, parse_bool, int_setting, float_setting,
}
use agentic_identity_lab.Bff.Config as BffConfig
use agentic_identity_lab.Bff.Auth.Strict.{with_strict}
use agentic_identity_lab.Tests.Data
use agentic_identity_lab.Tests.Keys
use agentic_identity_lab.Tests.Services
use agentic_identity_lab.Auth.Guards.{from_claims}
use agentic_identity_lab.Bff.Main as BffMain
use agentic_identity_lab.Agent.Config as AgentConfig
use agentic_identity_lab.Agent.Auth as AgentAuth
use agentic_identity_lab.Agent.Auth.Strict.{IsVerified, resolve_auth_context-IsVerified}
use agentic_identity_lab.Agent.Main
use agentic_identity_lab.Chain.{Serves, Delivers, IsPassed, create_chat_session-IsPassed}
use agentic_identity_lab.Tests.Strict

abbrev env : Env
env = with_strict Keys.net (Keys.jwt "rs256") Keys.start (Data.env "strict")

abbrev agent_settings : AgentConfig.Settings
agent_settings = AgentConfig.read_settings (Data.env "strict") (pos 8000) (finite (pos 10) false)

abbrev bff_settings : BffConfig.Settings
bff_settings = BffConfig.read_settings (Data.env "strict") (pos 8000) (finite (pos 10) false)

agent_resolved : AgentAuth.resolve_auth_context env Data.headers ≡ ok Services.admitted
unfolding with_strict AgentAuth.resolve_auth_context AgentAuth.request_claims
    AgentConfig.load_settings AgentAuth.decide AgentAuth.failure_reasons AgentAuth.token_failures
    header_value load_strict_claims_from_authorization extract_bearer_token partition
    strict_jwks_cache validate_strict read_header validate_algorithm kid_of get_key keys_of add_key
    set_item verify listed_issuers getenv load_auth_mode load_auth_settings lower strip split_csv
    split_on keep parse_bool contains rstrip_slash validate_strict_config missing_strict_fields
    looks_like_placeholder has_non_placeholder is_in any validate_entra_obo_config
    missing_obo_fields int_setting float_setting validate_claims issuer_failures tenant_failures
    exp_failures nbf_failures parse_timestamp lookup require_scope or_value truthy split intersects
    require_audience require_delegated_token classify_claims_token_type has_scopes
agent_resolved = refl

resolve_auth_context-IsVerified_example :
    IsVerified Keys.net
      (Keys.jwt "rs256")
      Keys.start
      (Data.env "strict")
      Data.headers
      Services.admitted
resolve_auth_context-IsVerified_example =
    resolve_auth_context-IsVerified Keys.net (Keys.jwt "rs256") Keys.start (Data.env "strict")
      Data.headers Services.admitted Strict.in_strict_mode agent_resolved

-- The headers of a request, by their names in lower case.
abbrev headers_of : OutRequest → Headers
headers_of request = record {
  find = λ name. Settings.find_header (lower name) request.headers;
  items = request.headers;
}

-- The first header that reads as the name is the one under its own spelling.
found_spelling :
    (lowered : String) (items : List (String × String)) (value : String)
    → Settings.find_header lowered items ≡ some value
    → (name : String) × (lower name ≡ lowered) × (find_header name items ≡ some value)
unfolding Settings.find_header find_header
found_spelling lowered [] value h = absurd cc
found_spelling lowered ((k, v) ∷ rest) value h = elim (Bool-cases (lower k == lowered)) [
  | inl same ↦ (k, (eq_iff (lower k) lowered).0 same, rw (eq_refl k) (rw same at h))
  | inr other ↦
      let (name, reads, found) = found_spelling lowered rest value (rw other at h) in
      (
        name,
        reads,
        elim (Bool-cases (k == name)) [
          | inl same ↦
              let read : lower k ≡ lowered = ap lower ((eq_iff k name).0 same) ∙ reads in
              absurd (cc (sym ((eq_iff (lower k) lowered).1 read) ∙ other))
          | inr apart ↦ rw apart found
        ],
      )
]

delivers : Delivers headers_of
unfolding header_value lower
delivers request value h = by_find (Settings.find_header "authorization" request.headers) refl h
  where
    by_find :
        (o : Option String)
        → Settings.find_header "authorization" request.headers ≡ o
        → Settings.header_or_search o "authorization" request.headers ≡ some value
        → (name : String) × (lower name ≡ "authorization")
          × (find_header name request.headers ≡ some value)
    by_find (some direct) e k = found_spelling "authorization" request.headers value (e ∙ k)
    by_find none e k = found_spelling "authorization" request.headers value k

-- The agent behind its framework.
abbrev served : Result Main.AgentInvokeResponse → HttpReply
served (ok response) = reply 200 none
served (raise exception) = reply 500 none

abbrev agent : OutRequest → Result Main.AgentInvokeResponse
agent request = Main.agent_invoke env agent_settings "invoke" none (headers_of request)

abbrev bff_env : Env
bff_env = record (Data.env "strict") { call = λ request. served (agent request) }

abbrev bff : Env
bff = with_strict Keys.net (Keys.jwt "rs256") Keys.start bff_env

serves :
    Serves bff_env.call
      (bff_settings.agent_execution_base_url <+> bff_settings.agent_invoke_path)
      agent
serves request status body at answered below = by_result (agent request) refl answered
  where
    by_result :
        (r : Result Main.AgentInvokeResponse)
        → agent request ≡ r
        → served r ≡ reply status body
        → (value : Main.AgentInvokeResponse) × (agent request ≡ ok value)
    by_result (ok response) e k = (response, e)
    by_result (raise exception) e k = absurd (ground arith)

chain_on : bff_settings.chat_session_chain_enabled ≡ true
unfolding BffConfig.read_settings parse_bool getenv lower strip contains
chain_on = refl

bff_strict : is_strict bff_settings.auth_mode ≡ true
unfolding BffConfig.read_settings load_auth_mode getenv lower strip
bff_strict = refl

other_header : (lower bff_settings.correlation_header == "authorization") ≡ false
unfolding BffConfig.read_settings getenv lower
other_header = refl

header_found : Data.headers.find "authorization" ≡ some "Bearer a.b.c"
unfolding getenv
header_found = refl

session_given :
    BffMain.create_chat_session bff bff_settings Data.headers ≡ ok (BffMain.session_payload bff)
unfolding BffMain.create_chat_session BffMain.agent_request BffMain.agent_answer
    BffConfig.read_settings put_header BffAuth.get_auth_context BffAuth.request_claims
    BffAuth.enforce BffConfig.load_settings Main.agent_invoke Settings.find_header
    AgentAuth.resolve_auth_context AgentAuth.request_claims AgentConfig.load_settings
    AgentAuth.decide AgentAuth.failure_reasons AgentAuth.token_failures header_value
    Main.invoke_response Main.sorted_keys AgentAuth.exchange_for_mcp AgentConfig.read_settings join
    Main.mcp_answer from_claims with_strict load_strict_claims_from_authorization
    extract_bearer_token partition strict_jwks_cache validate_strict read_header validate_algorithm
    kid_of get_key keys_of add_key set_item verify listed_issuers getenv load_auth_mode
    load_auth_settings lower strip split_csv split_on keep parse_bool contains rstrip_slash
    validate_strict_config missing_strict_fields looks_like_placeholder has_non_placeholder is_in
    any validate_entra_obo_config missing_obo_fields int_setting float_setting validate_claims
    issuer_failures tenant_failures exp_failures nbf_failures parse_timestamp lookup require_scope
    or_value truthy split intersects require_audience require_delegated_token
    classify_claims_token_type has_scopes exchange_entra_on_behalf_of extract_bearer_assertion
    read_token_reply
session_given = refl

create_chat_session-IsPassed_example :
    IsPassed Keys.net
      (Keys.jwt "rs256")
      Keys.start
      bff_env
      Keys.net
      (Keys.jwt "rs256")
      Keys.start
      (Data.env "strict")
      bff_settings
      agent_settings
      (λ request. none)
      headers_of
      Data.headers
create_chat_session-IsPassed_example =
    create_chat_session-IsPassed Keys.net (Keys.jwt "rs256") Keys.start bff_env Keys.net
      (Keys.jwt "rs256") Keys.start (Data.env "strict") bff_settings agent_settings
      (λ request. none) headers_of "invoke" Data.headers (BffMain.session_payload bff)
      Strict.in_strict_mode Strict.in_strict_mode bff_strict chain_on other_header delivers serves
      session_given
