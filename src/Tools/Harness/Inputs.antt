-- ===== src/Tools/Harness/Inputs.antt =====
-- m8_browser_smoke_harness.py: the transport, and the check of the protected inputs of a live run.
pub mod Laws
use agentic_identity_lab.Prelude.{
  ℕ, String, Bool, true, false, not, ◌&&◌, ◌||◌, Option, none, some, List, [], ◌∷◌, ◌++◌, is_blank,
  contains, lower, strip, or_default, ◌==◌, ◌<+>◌, if◌then◌else◌, ℤ, pos, negsuc, ltb_ℤ,
}
use agentic_identity_lab.Host.{Host}
use agentic_identity_lab.Auth.Settings.{Environ, getenv}
use agentic_identity_lab.Tools.Shell.{has_any}

abbrev pub allowed_transports : List String
allowed_transports = "playwright" ∷ "agent-browser" ∷ "manual-artifact" ∷ []

abbrev pub placeholder_hints : List String
placeholder_hints = "placeholder" ∷ "{" ∷ "}" ∷ "<" ∷ ">" ∷ "changeme" ∷ []

abbrev pub text_or : (s t : String) → String
text_or s t = if is_blank s then t else s

-- env.get(name, default)
unfoldable pub get_env : (name default : String) → Environ → String
unfolding getenv
get_env name default env = or_default (getenv name env) default

unfoldable pub resolve_transport : Environ → (transport_override : Option String) → String
unfolding get_env lower strip
resolve_transport env transport_override =
    let given = text_or (get_env "M9_BROWSER_TRANSPORT" "playwright" env) "playwright" in
    lower (strip (text_or (or_default transport_override "") given))

unfoldable pub check_required_protected_input : Environ → (name : String) → List String
unfolding get_env lower strip has_any
check_required_protected_input env name =
    let value = strip (get_env name "" env) in
    if is_blank value
    then ("[live] missing required protected input: " <+> name) ∷ []
    else if has_any placeholder_hints (lower value)
    then ("[live] protected input appears placeholder-like: " <+> name) ∷ []
    else []

abbrev pub is_positive : ℤ → Bool
is_positive n = ltb_ℤ (pos 0) n

abbrev pub is_status : ℤ → Bool
is_status n = not (ltb_ℤ n (pos 100) || ltb_ℤ (pos 599) n)

abbrev pub check_parsed :
    Option ℤ → (is_valid : ℤ → Bool) → (range_message type_message : String) → List String
check_parsed none is_valid range_message type_message = type_message ∷ []
check_parsed (some n) is_valid range_message type_message =
    if is_valid n then [] else range_message ∷ []

-- A number in the environment, which may be blank: int() of it, and a test of its range.
unfoldable pub check_number :
    Host
    → Environ
    → (name default : String) → (is_valid : ℤ → Bool) → (range_message : String) → List String
unfolding get_env strip
check_number host env name default is_valid range_message =
    let value = strip (get_env name default env) in
    if is_blank value
    then []
    else check_parsed (host.int_of value) is_valid ("[live] " <+> name <+> range_message)
        ("[live] " <+> name <+> " must be an integer")

unfoldable pub validate_live_inputs :
    Host → Environ → (transport_override : Option String) → List String
unfolding resolve_transport check_required_protected_input check_number contains
validate_live_inputs host env transport_override =
    let transport = resolve_transport env transport_override in
    let chat_url = check_required_protected_input env "M9_PLAYWRIGHT_CHAT_URL" in
    let seconds : String = " must be a positive integer" in
    let expected_status =
      check_number host env "M9_PLAYWRIGHT_EXPECTED_STATUS" "200" is_status
        " must be a valid HTTP status code" in
    let timeout_seconds =
      check_number host env "M9_PLAYWRIGHT_TIMEOUT_SECONDS" "30" is_positive seconds in
    if not (contains transport allowed_transports)
    then "[live] M9_BROWSER_TRANSPORT must be one of: playwright, agent-browser, manual-artifact"
      ∷ []
    else (if transport == "playwright" || transport == "agent-browser" then chat_url else [])
      ++ ((if transport == "playwright"
            then check_required_protected_input env "M9_PLAYWRIGHT_ACCESS_TOKEN"
            else [])
          ++ ((if transport == "manual-artifact"
                then check_required_protected_input env "M9_BROWSER_EVIDENCE_JSON"
                else [])
              ++ ((if transport == "agent-browser"
                    then check_required_protected_input env "M9_AGENT_BROWSER_COMMAND"
                      ++ check_number host env "M9_AGENT_BROWSER_TIMEOUT_SECONDS" "120" is_positive
                          seconds
                    else [])
                  ++ (expected_status ++ timeout_seconds))))
