-- ===== src/Tests/Contracts.antt =====
-- The trace contract and the preflight at concrete inputs.
use agentic_identity_lab.Prelude.{
  ◌≡◌, refl, ◌↔◌, List, [], ◌∷◌, All, strip, lower, keep, contains, is_in, join,
}
use agentic_identity_lab.Value.{str, Dict, empty, entry, lookup, or_value}
use agentic_identity_lab.Host.{to_text}
use agentic_identity_lab.Auth.Settings.{Environ, getenv}
use agentic_identity_lab.Tools.Shell.{has_any}
use agentic_identity_lab.Tools.Harness.Inputs.{get_env}
use agentic_identity_lab.Tools.AgentBrowser.Token.{ends_with}
use agentic_identity_lab.Tools.Trace.{evaluate_trace_results, role_of, haystack_of, line_of}
use agentic_identity_lab.Tools.Trace.Laws.{IsTraced, evaluate_trace_results_iff}
use agentic_identity_lab.Tools.Preflight.{
  main, run_checks, check_variable, looks_placeholder, is_guid, is_guid_var, full_match,
}
use agentic_identity_lab.Tools.Preflight.Laws.{IsLive, main_iff}
use agentic_identity_lab.Tests.Unary

abbrev rows : List Dict
rows = entry "AppRoleName" (str "BFF") (entry "name" (str "POST /Chat/session") empty) ∷ []

traced : evaluate_trace_results Unary.host rows [] ("bff" ∷ []) ("/chat/Session" ∷ []) ≡ []
unfolding evaluate_trace_results role_of haystack_of line_of lookup or_value to_text lower keep
    contains is_in join
traced = refl

evaluate_trace_results_iff_example :
    (evaluate_trace_results Unary.host rows [] ("bff" ∷ []) ("/chat/Session" ∷ []) ≡ [])
    ↔ IsTraced Unary.host rows [] ("bff" ∷ []) ("/chat/Session" ∷ [])
evaluate_trace_results_iff_example =
    evaluate_trace_results_iff Unary.host rows [] ("bff" ∷ []) ("/chat/Session" ∷ [])

abbrev env : Environ
env = ("AZURE_TENANT_ID", "1b4e28ba-2fa1-41d2-883f-0016d3cca427 ") ∷ []

ready : main env ("AZURE_TENANT_ID" ∷ []) "deploy" ≡ 0
unfolding main run_checks check_variable looks_placeholder is_guid is_guid_var full_match get_env
    getenv ends_with has_any strip lower is_in
ready = refl

main_iff_example :
    (main env ("AZURE_TENANT_ID" ∷ []) "deploy" ≡ 0) ↔ All (IsLive env) ("AZURE_TENANT_ID" ∷ [])
main_iff_example = main_iff env ("AZURE_TENANT_ID" ∷ []) "deploy"
