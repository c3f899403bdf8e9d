-- ===== src/Tools/Harness/Live.antt =====
-- m8_browser_smoke_harness.py: a live run in each transport. Playwright, the commands, the files and
-- SHA-256 are parameters.
pub mod Laws
pub mod Accepted
use agentic_identity_lab.Prelude.{
  ℕ, ◌+◌, ◌*◌, String, Bool, true, false, not, ◌&&◌, ◌||◌, Option, none, some, List, [], ◌∷◌, ◌++◌,
  map, is_nil, is_blank, strip, or_default, ◌==◌, ◌<+>◌, if◌then◌else◌, ℤ, pos, negsuc,
}
use agentic_identity_lab.Result.{Result, ok, raise, value_error, key_error, Exception, ◌>>=◌}
use agentic_identity_lab.Value.{Value, int, str, dict, Dict, empty, lookup, set_item, truthy, null}
use agentic_identity_lab.Host.{Host}
use agentic_identity_lab.Auth.Settings.{Environ, getenv}
use agentic_identity_lab.Tools.Shell.{Completed}
use agentic_identity_lab.Tools.Harness.Artifact.{
  find_sensitive_artifact_paths, normalize_live_result, evaluate_live_result,
  create_redacted_evidence, eqb_ℤ,
}
use agentic_identity_lab.Tools.Harness.Inputs.{get_env, text_or}

-- The argument of the script that runs in the page.
pub record PageRequest : Type 0 where
  pub chat_url : String
  pub access_token : String
  pub display_name : String
  pub timeout_ms : ℤ

-- What the page gives back, or the name of the exception's class, which is caught.
pub data PageOutcome : Type 0 where
  page_failed : (exception_name : String) → PageOutcome
  page_result : Value → PageOutcome

-- What subprocess.run comes to: `command_raised` is an exception that the handlers do not name, as of
-- an output that is no text.
pub data CommandOutcome : Type 0 where
  timed_out : CommandOutcome
  os_error : (exception_name : String) → CommandOutcome
  command_raised : Exception → CommandOutcome
  completed : Completed → CommandOutcome

-- `unreadable` is an exception of `read_text`.
pub data FileText : Type 0 where
  missing : FileText
  unreadable : Exception → FileText
  content : String → FileText

pub record Runtime : Type 0 where
  pub host : Host
  pub opaque_digest : String → String
  -- json.loads, `none` for a JSONDecodeError, or another exception
  pub loads : String → Result (Option Value)
  -- `none` where Playwright is not installed
  pub playwright : Option (PageRequest → PageOutcome)
  pub run_command : (command : String) → (timeout : ℤ) → CommandOutcome
  pub read_file : (path : String) → FileText
  pub file_name : (path : String) → String

-- The evidence and the offenders.
abbrev pub Report : Type 0
Report = Dict × List String

abbrev pub stripped_or_raise : Option String → Result String
stripped_or_raise none = raise key_error
stripped_or_raise (some s) = ok (strip s)

-- env[name].strip()
unfoldable pub require_env : (name : String) → Environ → Result String
unfolding getenv strip
require_env name env = stripped_or_raise (getenv name env)

-- int(text)
abbrev pub int_or_raise : Option ℤ → Result ℤ
int_or_raise none = raise (value_error "invalid literal for int()")
int_or_raise (some n) = ok n

-- int(env.get(name, default).strip() or default)
unfoldable pub int_env : Host → (name default : String) → Environ → Result ℤ
unfolding get_env strip
int_env host name default env =
    int_or_raise (host.int_of (text_or (strip (get_env name default env)) default))

abbrev pub times_1000 : ℤ → ℤ
times_1000 (pos n) = pos (n * 1000)
times_1000 (negsuc n) = negsuc (n * 1000 + 999)

abbrev pub page_report :
    Runtime → (chat_url : String) → (expected_status : ℤ) → PageOutcome → Report
page_report rt chat_url expected (page_failed name) =
    (empty, ("[live] Playwright browser check failed: " <+> name) ∷ [])
page_report rt chat_url expected (page_result (dict response)) =
    let normalized = set_item "resultSource" (str "playwright-runtime-fetch") (
      set_item "targetUrlDigest" (str (rt.opaque_digest chat_url))
        (normalize_live_result rt.host response)) in
    (
      create_redacted_evidence rt.host rt.opaque_digest "playwright" normalized expected chat_url
          "",
      evaluate_live_result rt.host normalized expected,
    )
page_report rt chat_url expected (page_result v) =
    (empty, "[live] Playwright browser check returned an invalid response payload" ∷ [])

abbrev pub page_request :
    Environ → (chat_url access_token : String) → (timeout_seconds : ℤ) → PageRequest
page_request env chat_url access_token timeout_seconds = record {
  chat_url = chat_url;
  access_token = access_token;
  display_name = get_env "M9_PLAYWRIGHT_DISPLAY_NAME" "M9 Browser Smoke" env;
  timeout_ms = times_1000 timeout_seconds;
}

abbrev pub browser_report : Runtime → Environ → Option (PageRequest → PageOutcome) → Result Report
browser_report rt env none = ok (
  empty,
  "[live] Playwright dependency is missing. Install with: python -m pip install playwright && python -m playwright install chromium"
      ∷ [],
)
browser_report rt env (some evaluate) = do
  chat_url ← require_env "M9_PLAYWRIGHT_CHAT_URL" env
  access_token ← require_env "M9_PLAYWRIGHT_ACCESS_TOKEN" env
  expected ← int_env rt.host "M9_PLAYWRIGHT_EXPECTED_STATUS" "200" env
  timeout_seconds ← int_env rt.host "M9_PLAYWRIGHT_TIMEOUT_SECONDS" "30" env
  ok (
      page_report rt chat_url expected
        (evaluate (page_request env chat_url access_token timeout_seconds)))

unfoldable pub run_live_playwright_smoke : Runtime → Environ → Result Report
unfolding require_env int_env
run_live_playwright_smoke rt env = browser_report rt env rt.playwright

-- normalized["resultSource"] = source, unless it has one
unfoldable pub with_source : (source : String) → Dict → Dict
unfolding lookup truthy set_item
with_source source normalized =
    if truthy (or_default (lookup "resultSource" normalized) null)
    then normalized
    else set_item "resultSource" (str source) normalized

-- The report of a JSON object that is redacted.
unfoldable pub report_of :
    Runtime
    → Environ
    → (transport source : String) (expected_status : ℤ) (payload : Dict) (artifact_digest : String)
    → Report
unfolding normalize_live_result with_source create_redacted_evidence evaluate_live_result get_env
    strip
report_of rt env transport source expected payload artifact_digest =
    let normalized = with_source source (normalize_live_result rt.host payload) in
    (
      create_redacted_evidence rt.host rt.opaque_digest transport normalized expected
          (strip (get_env "M9_PLAYWRIGHT_CHAT_URL" "" env)) artifact_digest,
      evaluate_live_result rt.host normalized expected,
    )

pub record Artifact : Type 0 where
  pub payload : Dict
  pub offenders : List String
  pub digest : String

abbrev pub rejected : (offender : String) → Artifact
rejected offender = record { payload = empty; offenders = offender ∷ []; digest = "" }

abbrev pub artifact_of : Runtime → (path text : String) → Option Value → Artifact
artifact_of rt path text none =
    rejected ("[live] manual artifact is not valid JSON: " <+> rt.file_name path)
artifact_of rt path text (some (dict payload)) = record {
  payload = payload;
  offenders =
      map (λ at. "[live] artifact contains non-redacted sensitive data at " <+> at)
        (find_sensitive_artifact_paths rt.host (dict payload) "$");
  digest = rt.opaque_digest text;
}
artifact_of rt path text (some v) =
    rejected ("[live] manual artifact JSON must be an object: " <+> rt.file_name path)

abbrev pub read_artifact : Runtime → (path : String) → FileText → Result Artifact
read_artifact rt path missing = ok (rejected ("[live] manual artifact file not found: " <+> path))
read_artifact rt path (unreadable exception) = raise exception
read_artifact rt path (content text) = do
  parsed ← rt.loads text
  ok (artifact_of rt path text parsed)

unfoldable pub load_manual_artifact : Runtime → (path : String) → Result Artifact
unfolding find_sensitive_artifact_paths
load_manual_artifact rt path = read_artifact rt path (rt.read_file path)

abbrev pub manual_report : Runtime → Environ → (expected_status : ℤ) → Artifact → Report
manual_report rt env expected artifact =
    if is_nil artifact.offenders
    then report_of rt env "manual-artifact" "manual-browser-artifact" expected artifact.payload
        artifact.digest
    else (empty, artifact.offenders)

unfoldable pub run_live_manual_artifact_smoke : Runtime → Environ → Result Report
unfolding int_env require_env load_manual_artifact report_of
run_live_manual_artifact_smoke rt env = do
  expected ← int_env rt.host "M9_PLAYWRIGHT_EXPECTED_STATUS" "200" env
  path ← require_env "M9_BROWSER_EVIDENCE_JSON" env
  artifact ← load_manual_artifact rt path
  ok (manual_report rt env expected artifact)

abbrev pub payload_report : Runtime → Environ → (expected_status : ℤ) → Option Value → Report
payload_report rt env expected none =
    (empty, "[live] agent-browser command must emit JSON to stdout" ∷ [])
payload_report rt env expected (some (dict payload)) =
    let sensitive_paths = find_sensitive_artifact_paths rt.host (dict payload) "$" in
    if is_nil sensitive_paths
    then report_of rt env "agent-browser" "agent-browser-command" expected payload ""
    else (
      empty,
      map (λ at. "[live] agent-browser output contains non-redacted sensitive data at " <+> at)
          sensitive_paths,
    )
payload_report rt env expected (some v) =
    (empty, "[live] agent-browser command JSON payload must be an object" ∷ [])

abbrev pub command_report :
    Runtime → Environ → (expected_status : ℤ) → CommandOutcome → Result Report
command_report rt env expected timed_out = ok (empty, "[live] agent-browser command timed out" ∷ [])
command_report rt env expected (os_error name) =
    ok (empty, ("[live] agent-browser command failed to start: " <+> name) ∷ [])
command_report rt env expected (command_raised exception) = raise exception
command_report rt env expected (completed c) =
    let stdout = strip c.stdout in
    if is_blank stdout
    then ok (
      empty,
      (if eqb_ℤ c.returncode (pos 0)
            then []
            else ("[live] agent-browser command exited with code "
                <+> rt.host.repr (int c.returncode))
              ∷ [])
          ++ ("[live] agent-browser command returned empty stdout" ∷ []),
    )
    else (do parsed ← rt.loads stdout; ok (payload_report rt env expected parsed))

unfoldable pub run_live_agent_browser_smoke : Runtime → Environ → Result Report
unfolding int_env require_env report_of
run_live_agent_browser_smoke rt env = do
  command ← require_env "M9_AGENT_BROWSER_COMMAND" env
  timeout_seconds ← int_env rt.host "M9_AGENT_BROWSER_TIMEOUT_SECONDS" "120" env
  expected ← int_env rt.host "M9_PLAYWRIGHT_EXPECTED_STATUS" "200" env
  command_report rt env expected (rt.run_command command timeout_seconds)

unfoldable pub run_live_transport_smoke : Runtime → Environ → (transport : String) → Result Report
unfolding run_live_playwright_smoke run_live_agent_browser_smoke run_live_manual_artifact_smoke
run_live_transport_smoke rt env transport =
    if transport == "playwright"
    then run_live_playwright_smoke rt env
    else if transport == "agent-browser"
    then run_live_agent_browser_smoke rt env
    else if transport == "manual-artifact"
    then run_live_manual_artifact_smoke rt env
    else ok (empty, ("[live] unsupported transport: " <+> transport) ∷ [])
