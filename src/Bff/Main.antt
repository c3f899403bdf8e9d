-- ===== src/Bff/Main.antt =====
-- main.py: the CORS guard, the headers that go on to the agent, and the handlers. The module's settings
-- are an argument; spans and their attributes are not modelled.
pub mod Laws
use agentic_identity_lab.Prelude.{
  ℕ, ◌*◌, ◌+◌, String, Bool, true, false, Option, none, some, List, [], ◌∷◌, is_nil, is_blank,
  contains, leb, or_default, ◌<+>◌, if◌then◌else◌,
}
use agentic_identity_lab.Result.{http_exception, runtime_error, Result, ok, raise, ◌>>=◌}
use agentic_identity_lab.Value.{Value, bool, str, dict, Dict, empty, entry}
use agentic_identity_lab.Http.{HttpReply, http_error, reply}
use agentic_identity_lab.Auth.Guards.{AuthContext, micro}
use agentic_identity_lab.Auth.Settings.{Headers, is_strict}
use agentic_identity_lab.Auth.Obo.{exchange_entra_on_behalf_of}
use agentic_identity_lab.Service.{
  Env, OutRequest, or_http, put_header, put_given, strings, whoami_entries, debug_payload,
}
use agentic_identity_lab.Bff.Config.{Settings, obo_config}
use agentic_identity_lab.Bff.Auth.{get_auth_context}

pub record CorsPolicy : Type 0 where
  pub allow_origins : List String
  pub allow_credentials : Bool
  pub allow_methods : List String
  pub allow_headers : List String

-- The middleware that is registered, if there is one.
unfoldable pub cors_policy : Settings → Result (Option CorsPolicy)
cors_policy settings =
    if is_nil settings.cors_allowed_origins
    then ok none
    else if contains "*" settings.cors_allowed_origins
    then raise (
        runtime_error
          "CORS_ALLOWED_ORIGINS must not contain '*' when credentials are enabled. Set explicit origins (e.g. http://localhost:3000) instead.")
    else ok (
        some (record {
          allow_origins = settings.cors_allowed_origins;
          allow_credentials = true;
          allow_methods = "GET" ∷ "POST" ∷ [];
          allow_headers =
              "Authorization" ∷ "Content-Type" ∷ "x-correlation-id" ∷ "traceparent" ∷ [];
        }))

-- What goes on in place of the caller's authorization.
unfoldable pub forward_authorization : Env → Settings → (authorization : String) → Result String
forward_authorization env settings authorization =
    if is_strict settings.auth_mode
    then or_http
        (exchange_entra_on_behalf_of env.token_endpoint (some authorization) (obo_config settings)
          "Strict BFF to Agent chain")
        502 "obo_exchange_failed"
    else ok authorization

abbrev pub put_authorization :
    Env
    → Settings
    → (authorization : Option String) → List (String × String)
    → Result (List (String × String))
put_authorization env settings none headers = ok headers
put_authorization env settings (some authorization) headers =
    if is_blank authorization then ok headers else (do
      value ← forward_authorization env settings authorization
      ok (put_header "Authorization" value headers))

unfoldable pub build_forward_headers :
    Env → Settings → Headers → AuthContext → Result (List (String × String))
unfolding forward_authorization
build_forward_headers env settings headers auth_context = do
  with_authorization ←
      put_authorization env settings (headers.find "authorization")
        ((settings.correlation_header, or_default auth_context.correlation_id "") ∷ [])
  ok (put_given "traceparent" (headers.find "traceparent") with_authorization)

unfoldable pub agent_request : Settings → List (String × String) → OutRequest
agent_request settings headers = record {
  url = settings.agent_execution_base_url <+> settings.agent_invoke_path;
  headers = headers;
  payload =
      entry "payload" (dict (entry "operation" (str "chat_session") empty))
        (entry "metadata" (dict (entry "entrypoint" (str "bff.chat_session") empty)) empty);
  timeout = settings.downstream_timeout_seconds;
}

unfoldable pub agent_answer : HttpReply → Result (Unit {0})
agent_answer http_error = raise (http_exception 502 "agent_execution_unreachable")
agent_answer (reply status_code body) =
    if leb 400 status_code then raise (http_exception 502 "agent_execution_error") else ok tt

unfoldable pub invoke_agent_execution : Env → Settings → Headers → AuthContext → Result (Unit {0})
unfolding build_forward_headers
invoke_agent_execution env settings headers auth_context =
    if settings.chat_session_chain_enabled
    then (do
      forwarded ← build_forward_headers env settings headers auth_context
      agent_answer (env.call (agent_request settings forwarded)))
    else ok tt

-- The session ends an hour from now.
unfoldable pub session_payload : Env → Dict
session_payload env =
    entry "session_id" (str env.fresh_uuid)
      (entry "expires_at" (str (env.isoformat (env.now + 3600 * micro))) empty)

unfoldable pub create_chat_session : Env → Settings → Headers → Result Dict
unfolding invoke_agent_execution
create_chat_session env settings headers = do
  auth_context ← get_auth_context env headers (headers.find "authorization")
  invoked ← invoke_agent_execution env settings headers auth_context
  ok (session_payload env)

unfoldable pub whoami : Env → Headers → Result Dict
whoami env headers = do
  auth_context ← get_auth_context env headers (headers.find "authorization")
  ok (entry "authenticated" (bool auth_context.authenticated) (whoami_entries auth_context empty))

unfoldable pub debug_claims : Env → Settings → Headers → Result Dict
debug_claims env settings headers = do
  auth_context ← get_auth_context env headers (headers.find "authorization")
  ok (debug_payload settings.enable_debug_claims auth_context)
