-- ===== src/Tests/Harness.antt =====
-- The smoke harness and its command at concrete inputs.
use agentic_identity_lab.Prelude.{
  ◌≡◌, refl, ◌↔◌, String, some, none, [], ◌∷◌, pos, strip, lstrip, rstrip, lower, is_in, contains,
  join, ◌==◌, if◌then◌else◌,
}
use agentic_identity_lab.Result.{ok}
use agentic_identity_lab.Value.{str, dict, Dict, empty, entry, lookup, set_item, truthy}
use agentic_identity_lab.Host.{to_text}
use agentic_identity_lab.Auth.Settings.{Environ, getenv, non_blank}
use agentic_identity_lab.Tools.Shell.{has_any}
use agentic_identity_lab.Tools.Harness.Artifact.{
  find_sensitive_artifact_paths, contains_sensitive_text, count_dots, normalize_live_result,
  evaluate_live_result, create_redacted_evidence, to_bool, to_int, to_stripped, get_either, is_set,
}
use agentic_identity_lab.Tools.Harness.Artifact.Laws.{IsRedacted, find_sensitive_artifact_paths_iff}
use agentic_identity_lab.Tools.Harness.Inputs.{
  get_env, resolve_transport, check_required_protected_input, check_number, validate_live_inputs,
}
use agentic_identity_lab.Tools.Harness.Live.{
  Runtime, completed, missing, run_live_transport_smoke, run_live_agent_browser_smoke, require_env,
  int_env, report_of, with_source,
}
use agentic_identity_lab.Tools.Harness.Live.Laws.{IsProven}
use agentic_identity_lab.Tools.Harness.Wiring.{
  Files, validate_browser_smoke_wiring, spa_tokens, spa_auth_tokens, classic_tokens,
  classic_config_tokens, spfx_tokens, spfx_solution_tokens, bff_tokens, spa_client, spa_auth,
  classic_loader, classic_config, spfx_webpart, spfx_solution, bff_main, bff_readme,
}
use agentic_identity_lab.Tools.Harness.Wiring.Laws.{IsWired, validate_browser_smoke_wiring_iff}
use agentic_identity_lab.Tools.Harness.Main.{live_mode, summarize, main}
use agentic_identity_lab.Tools.Harness.Main.Laws.{main-IsProven}
use agentic_identity_lab.Tools.AgentBrowser.{build_result}
use agentic_identity_lab.Tools.AgentBrowser.Laws.{
  IsOpaque, build_result-IsRedacted, normalize_live_result-build_result,
  evaluate_live_result-build_result, IsSession,
}
use agentic_identity_lab.Tests.Unary

abbrev pub answer : Dict
answer = entry "session_id" (str "s-1") empty

abbrev pub digest : String → String
digest url = "abc123"

abbrev pub result : Dict
result = build_result digest "https://bff/chat" (pos 200) answer

abbrev runtime : Runtime
runtime = record {
  host = Unary.host;
  opaque_digest = digest;
  loads = λ s. ok (some (dict result));
  playwright = none;
  run_command =
      λ command timeout. completed record { returncode = pos 0; stdout = "{}"; stderr = "" };
  read_file = λ path. missing;
  file_name = λ path. path;
}

abbrev env : Environ
env =
    ("M9_BROWSER_TRANSPORT", "agent-browser")
    ∷ ("M9_PLAYWRIGHT_CHAT_URL", "https://bff/chat")
    ∷ ("M9_AGENT_BROWSER_COMMAND", "run")
    ∷ []

-- Each file has just the tokens that it is to have.
abbrev files : Files
files path =
    if path == spa_client ""
    then some (join "" spa_tokens)
    else if path == spa_auth ""
    then some (join "" spa_auth_tokens)
    else if path == classic_loader ""
    then some (join "" classic_tokens)
    else if path == classic_config ""
    then some (join "" classic_config_tokens)
    else if path == spfx_webpart ""
    then some (join "" spfx_tokens)
    else if path == spfx_solution ""
    then some (join "" spfx_solution_tokens)
    else if path == bff_main ""
    then some (join "" bff_tokens)
    else if path == bff_readme ""
    then some "returns safe claim metadata only"
    else some "m9 protected live smoke setup"

opaque : IsOpaque "abc123"
unfolding strip lstrip rstrip contains_sensitive_text lower has_any count_dots is_in
opaque = record { plain = refl; harmless = refl }

wired : IsWired files ""
unfolding is_in lower join
wired = record {
  present =
      (refl, (refl, (refl, (refl, (refl, (refl, (refl, (refl, (refl, (refl, (refl, tt)))))))))));
  spa_sends_token = (refl, (refl, (refl, (refl, (refl, tt)))));
  spa_keeps_session = (refl, (refl, (refl, tt)));
  spa_stores_nothing = (refl, tt);
  spa_claims_no_user = (refl, (refl, (refl, tt)));
  classic_sends_token = (refl, (refl, (refl, (refl, (refl, tt)))));
  classic_configured = (refl, (refl, tt));
  classic_stores_nothing = (refl, (refl, (refl, (refl, tt))));
  spfx_sends_token = (refl, (refl, (refl, (refl, (refl, tt)))));
  spfx_requests_scope = (refl, (refl, tt));
  spfx_stores_nothing = (refl, (refl, (refl, (refl, (refl, tt)))));
  bff_has_routes = (refl, (refl, (refl, tt)));
  bff_tells_safe_claims = refl;
  spa_logs_no_token = refl;
  bff_allows_header = refl;
  spa_explained = refl;
  classic_explained = refl;
  spfx_explained = refl;
}

clean : validate_browser_smoke_wiring files "" ≡ []
clean = (validate_browser_smoke_wiring_iff files "").1 wired

transport_used : resolve_transport env (non_blank "") ≡ "agent-browser"
unfolding resolve_transport get_env getenv strip lower
transport_used = refl

transport_valid : validate_live_inputs Unary.host env (some "agent-browser") ≡ []
unfolding validate_live_inputs resolve_transport check_required_protected_input check_number get_env
    getenv strip lower has_any contains Unary.read
transport_valid = refl

abbrev evidence : Dict
evidence =
    create_redacted_evidence Unary.host digest "agent-browser"
      (with_source "agent-browser-command" (normalize_live_result Unary.host result)) (pos 200)
      "https://bff/chat" ""

redacted : find_sensitive_artifact_paths Unary.host (dict result) "$" ≡ []
redacted = build_result-IsRedacted Unary.host digest "https://bff/chat" (pos 200) answer "$" opaque

judged :
    evaluate_live_result Unary.host
      (with_source "agent-browser-command" (normalize_live_result Unary.host result))
      (pos 200)
    ≡ []
unfolding evaluate_live_result with_source normalize_live_result build_result to_bool to_int
    to_stripped to_text get_either lookup is_set strip truthy set_item Unary.read Unary.unary
judged = refl

ran : run_live_transport_smoke runtime env "agent-browser" ≡ ok (evidence, [])
unfolding run_live_transport_smoke run_live_agent_browser_smoke require_env int_env report_of
    get_env getenv strip Unary.read
ran = rw (redacted, judged) refl

accepted : main runtime env files "" live_mode "" ≡ ok 0
unfolding main summarize
accepted = rw (clean, transport_used, transport_valid, ran) refl

main-IsProven_example : IsWired files "" × IsProven runtime env
main-IsProven_example = main-IsProven runtime env files "" "" Unary.reads accepted

find_sensitive_artifact_paths_iff_example :
    (find_sensitive_artifact_paths Unary.host (dict answer) "$" ≡ []) ↔ IsRedacted (dict answer)
find_sensitive_artifact_paths_iff_example =
    find_sensitive_artifact_paths_iff Unary.host (dict answer) "$"

build_result-IsRedacted_example : find_sensitive_artifact_paths Unary.host (dict result) "$" ≡ []
build_result-IsRedacted_example =
    build_result-IsRedacted Unary.host digest "https://bff/chat" (pos 200) answer "$" opaque

normalize_live_result-build_result_example : normalize_live_result Unary.host result ≡ result
normalize_live_result-build_result_example =
    normalize_live_result-build_result Unary.host digest "https://bff/chat" (pos 200) answer
      Unary.reads opaque

evaluate_live_result-build_result_example :
    (evaluate_live_result Unary.host (normalize_live_result Unary.host result) (pos 200) ≡ [])
    ↔ IsSession (pos 200) (pos 200) answer
evaluate_live_result-build_result_example =
    evaluate_live_result-build_result Unary.host digest "https://bff/chat" (pos 200) (pos 200)
      answer Unary.reads
