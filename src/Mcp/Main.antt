-- ===== src/Mcp/Main.antt =====
-- main.py: the tools. The module's settings are an argument; spans are not modelled.
use agentic_identity_lab.Prelude.{Option, none, some, if◌then◌else◌}
use agentic_identity_lab.Result.{Result, ok, ◌>>=◌}
use agentic_identity_lab.Value.{Value, null, bool, str, list, dict, Dict, empty, entry}
use agentic_identity_lab.Auth.Guards.{AuthContext}
use agentic_identity_lab.Auth.Settings.{Headers}
use agentic_identity_lab.Service.{Env, strings, optional_text, whoami_entries, debug_payload}
use agentic_identity_lab.Mcp.Config.{Settings}
use agentic_identity_lab.Mcp.Auth.{require_mcp_access, require_mcp_write}

abbrev echo_of : Option Dict → Value
echo_of none = null
echo_of (some payload) = dict payload

unfoldable pub tools_echo : Env → Settings → Headers → (payload : Option Dict) → Result Dict
tools_echo env settings headers payload = do
  auth_context ← require_mcp_write env settings headers
  ok (
      entry "correlation_id" (optional_text auth_context.correlation_id)
        (entry "echo" (echo_of payload) empty))

unfoldable pub authorization_payload : AuthContext → Dict
authorization_payload auth_context = entry "authorized" (bool auth_context.authorized) (
    entry "reason" (str (if auth_context.authorized then "authorized" else "unauthorized")) (
      entry "token_type" (str auth_context.token_type) (
        entry "claims" (dict auth_context.claims)
          (entry "correlation_id" (optional_text auth_context.correlation_id) empty))))

unfoldable pub tools_authorization_check : Env → Settings → Headers → Result Dict
unfolding authorization_payload
tools_authorization_check env settings headers = do
  auth_context ← require_mcp_write env settings headers
  ok (authorization_payload auth_context)

unfoldable pub whoami : Env → Settings → Headers → Result Dict
whoami env settings headers = do
  auth_context ← require_mcp_access env settings headers
  ok (
      entry "authenticated" (bool auth_context.authenticated) (
        entry "authorized" (bool auth_context.authorized) (
          whoami_entries auth_context
            (entry "failure_reasons" (list (strings auth_context.failure_reasons)) empty))))

unfoldable pub debug_claims : Env → Settings → Headers → Result Dict
debug_claims env settings headers = do
  auth_context ← require_mcp_access env settings headers
  ok (debug_payload settings.enable_debug_claims auth_context)
