-- ===== src/Agent/Main.antt =====
-- main.py: the invoke handlers, with the exchange and the call of the MCP service. The module's settings
-- are an argument; spans and their attributes are not modelled.
pub mod Laws
use agentic_identity_lab.Prelude.{
  ℕ, String, Bool, true, false, not, ◌&&◌, ◌||◌, Option, none, some, List, [], ◌∷◌, is_blank, leb,
  insert_text, or_default, ◌==◌, ◌<+>◌, if◌then◌else◌,
}
use agentic_identity_lab.Result.{http_exception, library_error, Result, ok, raise, ◌>>=◌}
use agentic_identity_lab.Value.{
  Value, null, bool, str, dict, Dict, empty, entry, get, truthy, dict_truthy,
}
use agentic_identity_lab.Host.{Host, to_text}
use agentic_identity_lab.Http.{HttpReply, http_error, reply}
use agentic_identity_lab.Auth.Guards.{AuthContext}
use agentic_identity_lab.Auth.Settings.{Headers, is_strict}
use agentic_identity_lab.Service.{
  Env, OutRequest, or_http, put_header, put_given, whoami_entries, debug_payload,
}
use agentic_identity_lab.Agent.Config.{Settings}
use agentic_identity_lab.Agent.Auth.{
  OboExchange, extract_obo_scopes, resolve_auth_context, exchange_for_mcp,
}

pub record AgentInvokeResponse : Type 0 where
  pub status : String
  pub message : String
  pub correlation_id : Option String
  pub token_type : String
  pub claims : Dict
  pub payload_keys : List String
  pub obo_audience : Value
  pub obo_scopes : List String
  pub chain_exercised : Bool
  pub mcp_authorized : Option Bool
  pub mcp_correlation_id : Option String

unfoldable pub should_exchange_obo : Settings → AuthContext → Bool
should_exchange_obo settings auth_context =
    (auth_context.authorized && auth_context.token_type == "delegated")
    && (not (is_strict settings.auth_mode) || settings.mcp_chain_enabled)

unfoldable pub mcp_request :
    Settings → Headers → AuthContext → (obo_authorization : String) → OutRequest
mcp_request settings headers auth_context obo_authorization = record {
  url = settings.mcp_protected_api_base_url <+> settings.mcp_authorization_check_path;
  headers = put_given "traceparent" (headers.find "traceparent") (
      put_header settings.correlation_header (or_default auth_context.correlation_id "")
        (("Authorization", obo_authorization) ∷ []));
  payload = empty;
  timeout = settings.downstream_timeout_seconds;
}

-- What the MCP service answered: a body that is no JSON makes `response.json()` raise.
unfoldable pub mcp_answer : HttpReply → Result Dict
mcp_answer http_error = raise (http_exception 502 "mcp_unreachable")
mcp_answer (reply status_code body) =
    if leb 400 status_code then raise (http_exception 502 "mcp_error") else elim body [
      | none ↦ raise (library_error "JSONDecodeError")
      | some (dict payload) ↦ ok payload
      | some v ↦ raise (http_exception 502 "mcp_invalid_payload")
    ]

unfoldable pub invoke_mcp_authorization_check :
    Env → Settings → Headers → AuthContext → (obo_authorization : String) → Result Dict
unfolding mcp_answer
invoke_mcp_authorization_check env settings headers auth_context obo_authorization =
    mcp_answer (env.call (mcp_request settings headers auth_context obo_authorization))

-- The exchange, if there is to be one.
unfoldable pub obtain_exchange :
    Env → Settings → Headers → AuthContext → Result (Option OboExchange)
unfolding should_exchange_obo
obtain_exchange env settings headers auth_context =
    if should_exchange_obo settings auth_context
    then (do
      exchange ←
          or_http (exchange_for_mcp env auth_context settings (headers.find "authorization")) 502
            "obo_exchange_failed"
      ok (some exchange))
    else ok none

abbrev pub exchanged_claims : Option OboExchange → Dict
exchanged_claims none = empty
exchanged_claims (some exchange) = exchange.claims

-- What the chain to the MCP service found out, `none` where it is not exercised.
unfoldable pub call_mcp :
    Env → Settings → Headers → AuthContext → Option OboExchange → Result (Option Dict)
unfolding invoke_mcp_authorization_check
call_mcp env settings headers auth_context none = ok none
call_mcp env settings headers auth_context (some exchange) =
    if settings.mcp_chain_enabled
    then (do
      mcp_result ←
          invoke_mcp_authorization_check env settings headers auth_context exchange.authorization
      ok (some mcp_result))
    else ok none

abbrev pub authorized_of : Option Dict → Option Bool
authorized_of none = none
authorized_of (some mcp_result) = some (truthy (get "authorized" mcp_result))

abbrev pub correlation_of : Host → Option Dict → Option String
correlation_of host none = none
correlation_of host (some mcp_result) =
    if truthy (get "correlation_id" mcp_result)
    then some (to_text host (get "correlation_id" mcp_result))
    else none

abbrev pub is_called : Option Dict → Bool
is_called none = false
is_called (some mcp_result) = true

-- sorted(request.payload.keys()) if request.payload else []
unfoldable pub sorted_keys : Option Dict → List String
unfolding insert_text
sorted_keys none = []
sorted_keys (some empty) = []
sorted_keys (some (entry k v d)) = insert_text k (sorted_keys (some d))

unfoldable pub response_of :
    Host
    → (mode : String) → AuthContext
    → (payload_keys : List String) → Option OboExchange
    → (mcp_result : Option Dict) → AgentInvokeResponse
response_of host mode auth_context payload_keys exchange mcp_result =
    let obo_claims = exchanged_claims exchange in
    record {
      status = "accepted";
      message = mode <+> " placeholder - auth enforced";
      correlation_id = auth_context.correlation_id;
      token_type = auth_context.token_type;
      claims = auth_context.claims;
      payload_keys = payload_keys;
      obo_audience = if dict_truthy obo_claims then get "aud" obo_claims else null;
      obo_scopes = if dict_truthy obo_claims then extract_obo_scopes host obo_claims else [];
      chain_exercised = is_called mcp_result;
      mcp_authorized = authorized_of mcp_result;
      mcp_correlation_id = correlation_of host mcp_result;
    }

unfoldable pub invoke_response :
    Env
    → Settings
    → (mode : String) → (payload : Option Dict) → AuthContext
    → Headers
    → Result AgentInvokeResponse
unfolding obtain_exchange call_mcp sorted_keys
invoke_response env settings mode payload auth_context headers = do
  obo_exchange ← obtain_exchange env settings headers auth_context
  mcp_result ← call_mcp env settings headers auth_context obo_exchange
  ok (response_of env.host mode auth_context (sorted_keys payload) obo_exchange mcp_result)

-- The three invoke handlers differ in their mode alone.
unfoldable pub agent_invoke :
    Env
    → Settings
    → (mode : String) → (payload : Option Dict) → Headers
    → Result AgentInvokeResponse
unfolding invoke_response
agent_invoke env settings mode payload headers = do
  auth_context ← resolve_auth_context env headers
  invoke_response env settings mode payload auth_context headers

unfoldable pub whoami : Env → Headers → Result Dict
whoami env headers = do
  auth_context ← resolve_auth_context env headers
  ok (
      entry "authenticated" (bool auth_context.authenticated)
        (entry "authorized" (bool auth_context.authorized) (whoami_entries auth_context empty)))

unfoldable pub debug_claims : Env → Settings → Headers → Result Dict
debug_claims env settings headers = do
  auth_context ← resolve_auth_context env headers
  ok (debug_payload settings.enable_debug_claims auth_context)
