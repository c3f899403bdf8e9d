-- ===== src/Tools/AgentBrowser.antt =====
-- tools/ci/m9_agent_browser_command.py: the command that the harness runs: an access token from the
-- Azure CLI, one request to the BFF, and a result that tells no more than the harness needs. The
-- CLI, the request, SHA-256 and json.loads are parameters.
pub mod Token
pub mod Laws
use agentic_identity_lab.Prelude.{
  ℕ, String, Bool, true, false, not, ◌&&◌, ◌||◌, Option, none, some, List, [], ◌∷◌, is_blank, strip,
  ◌<+>◌, if◌then◌else◌, ℤ, pos, ltb_ℤ,
}
use agentic_identity_lab.Result.{Result, ok, raise, Exception, value_error, runtime_error, ◌>>=◌}
use agentic_identity_lab.Value.{Value, bool, int, str, dict, Dict, empty, entry, get, truthy}
use agentic_identity_lab.Host.{Host}
use agentic_identity_lab.Auth.Settings.{Environ}
use agentic_identity_lab.Tools.Harness.Inputs.{get_env, text_or}
use agentic_identity_lab.Tools.Harness.Live.{int_or_raise}
use agentic_identity_lab.Tools.AgentBrowser.Token.{Az, get_access_token}

-- The request that is posted; its `traceparent` is random and not modelled.
pub record SessionRequest : Type 0 where
  pub chat_url : String
  pub authorization : String
  pub timeout_seconds : ℤ

-- An answer, also of an HTTPError, an OSError, or another exception.
pub data PostOutcome : Type 0 where
  answered : (status : ℤ) (body : String) → PostOutcome
  os_error : PostOutcome
  post_raised : Exception → PostOutcome

pub record Runtime : Type 0 where
  pub host : Host
  pub az : Az
  pub loads : String → Option Value
  pub post : SessionRequest → PostOutcome
  pub opaque_digest : String → String

unfoldable pub required : (name : String) → Environ → Result String
unfolding get_env strip
required name env =
    let value = strip (get_env name "" env) in
    if is_blank value
    then raise (runtime_error ("Missing required environment variable: " <+> name))
    else ok value

abbrev pub dict_or_empty : Option Value → Dict
dict_or_empty (some (dict d)) = d
dict_or_empty parsed = empty

unfoldable pub json_payload : Runtime → (body : String) → Dict
json_payload rt body = dict_or_empty (rt.loads (text_or body "{}"))

abbrev pub is_success : ℤ → Bool
is_success status = not (ltb_ℤ status (pos 200)) && ltb_ℤ status (pos 300)

unfoldable pub build_result :
    (opaque_digest : String → String) (chat_url : String) (status : ℤ) (payload : Dict) → Dict
unfolding truthy
build_result opaque_digest chat_url status payload = entry "ok" (bool (is_success status)) (
    entry "status" (int status) (
      entry "sessionIdPresent" (bool (truthy (get "session_id" payload))) (
        entry "expiresAtPresent" (bool (truthy (get "expires_at" payload))) (
          entry "targetUrlDigest" (str (opaque_digest chat_url))
            (entry "resultSource" (str "agent-browser-az-token") empty)))))

-- Without an address there is no digest.
unfoldable pub fallback_result : Runtime → (chat_url : String) → Dict
unfolding build_result
fallback_result rt chat_url =
    if is_blank chat_url
    then build_result (λ url. "") chat_url (pos 0) empty
    else build_result rt.opaque_digest chat_url (pos 0) empty

-- the exceptions of the handler, but for OSError
abbrev pub is_caught : Exception → Bool
is_caught (value_error message) = true
is_caught (runtime_error message) = true
is_caught exception = false

abbrev pub posted : Runtime → (chat_url : String) → PostOutcome → Result Dict
posted rt chat_url (answered status body) =
    ok (build_result rt.opaque_digest chat_url status (json_payload rt body))
posted rt chat_url os_error = ok (fallback_result rt chat_url)
posted rt chat_url (post_raised exception) = raise exception

unfoldable pub timeout_of : Host → Environ → Result ℤ
unfolding get_env strip
timeout_of host env = int_or_raise (
    host.int_of (
      text_or (strip (get_env "M9_AGENT_BROWSER_TIMEOUT_SECONDS" "" env))
        (text_or (strip (get_env "M9_PLAYWRIGHT_TIMEOUT_SECONDS" "30" env)) "30")))

-- the body of the `try` statement
unfoldable pub attempt : Runtime → Environ → Result Dict
unfolding required timeout_of get_access_token json_payload
attempt rt env = do
  chat_url ← required "M9_PLAYWRIGHT_CHAT_URL" env
  scope ← required "LIVE_SMOKE_SCOPES" env
  timeout_seconds ← timeout_of rt.host env
  token ← get_access_token rt.host rt.loads rt.az scope
  posted rt chat_url (
      rt.post (record {
        chat_url = chat_url;
        authorization = "Bearer " <+> token;
        timeout_seconds = timeout_seconds;
      }))

abbrev pub or_fallback : Runtime → (chat_url : String) → Result Dict → Result Dict
or_fallback rt chat_url (ok result) = ok result
or_fallback rt chat_url (raise exception) =
    if is_caught exception then ok (fallback_result rt chat_url) else raise exception

-- What is printed as JSON; the exit code is 0.
unfoldable pub main : Runtime → Environ → Result Dict
unfolding attempt fallback_result
main rt env = or_fallback rt (strip (get_env "M9_PLAYWRIGHT_CHAT_URL" "" env)) (attempt rt env)
