-- ===== src/Tests/Checks.antt =====
-- Telemetry, the environment check and the access token at concrete inputs.
use agentic_identity_lab.Prelude.{
  ◌≡◌, refl, ◌⊎◌, ◌≤◌, length, String, true, Option, some, List, [], ◌∷◌, pos, strip, lower, keep,
  contains, All, sorted, dedupe, is_in,
}
use agentic_identity_lab.Result.{Exception, ok, raise}
use agentic_identity_lab.Value.{Value, str, dict, empty, entry, lookup}
use agentic_identity_lab.Host.{to_text}
use agentic_identity_lab.Auth.Settings.{Environ, getenv}
use agentic_identity_lab.Telemetry.{
  read_stripped, is_switched_off, is_disabled, otlp, tracer_provider, Packages, exporter_of,
  setup_telemetry, Span, AuthAttributes, record_auth_attributes,
}
use agentic_identity_lab.Telemetry.Laws.{IsRecordable, record_auth_attributes-IsRecordable}
use agentic_identity_lab.Tools.Shell.{split_lines, stripped_lines}
use agentic_identity_lab.Tools.Environment.{
  Args, Shell, lifecycle_runtime, requested_profile, evaluate_contract, main, evaluate, collect,
  fetch_environment_names, fetch_environment_metadata_names, query_names, names_printed, missing_of,
  missing_by_environment, names_of, existing_required_count,
}
use agentic_identity_lab.Tools.Environment.Counts.{existing_required_count_lem}
use agentic_identity_lab.Tools.Environment.Main.{IsPresent, main-IsPresent, main_codes}
use agentic_identity_lab.Tools.AgentBrowser.Token.{
  Az, get_access_token, first_token, ask_for_token, all_candidates, split_scopes, scope_candidates,
  parts_from, audience_of, ends_with, split_scheme,
}
use agentic_identity_lab.Tests.Unary

abbrev traced : Environ
traced = ("OTEL_EXPORTER_OTLP_ENDPOINT", " http://collector ") ∷ []

abbrev packages : Packages
packages = record { has_api = true; builds = λ exporter. true }

exporting :
    setup_telemetry packages traced "bff" ≡ some (tracer_provider "bff" (otlp "http://collector"))
unfolding setup_telemetry is_disabled is_switched_off exporter_of read_stripped getenv strip lower
    contains
exporting = refl

abbrev attributes : AuthAttributes
attributes = record {
  auth_mode = "strict";
  authorized = some true;
  aud = some "api://lab";
  fixture_name = some "mcp-delegated";
  strict_mode = true;
}

abbrev span : Span
span = record { accepts = λ key value. true }

record_auth_attributes-IsRecordable_example :
    All (IsRecordable true) (record_auth_attributes (some span) attributes)
record_auth_attributes-IsRecordable_example =
    record_auth_attributes-IsRecordable (some span) attributes

-- Every query prints all of the names.
abbrev github : Shell
github command = ok (record {
  returncode = pos 0;
  stdout =
      "lab-live-azure-ops\nAZURE_CLIENT_ID_SHUTDOWN\nAZURE_TENANT_ID\nAZURE_SUBSCRIPTION_ID\nAZURE_RESOURCE_GROUP\nACA_APP_NAMES\n";
  stderr = "";
})

abbrev args : Args
args = record { repo = "owner/lab"; mode = lifecycle_runtime; required = "lab-live-azure-ops" ∷ [] }

github_passes : main github args ≡ some 0
unfolding main evaluate requested_profile collect fetch_environment_names
    fetch_environment_metadata_names query_names names_printed evaluate_contract missing_of
    missing_by_environment names_of stripped_lines split_lines keep contains strip sorted dedupe
github_passes = refl

main-IsPresent_example : IsPresent github args
main-IsPresent_example = main-IsPresent github args github_passes

main_codes_example :
    (main github args ≡ some 0)
    ⊎ (main github args ≡ some 1)
    ⊎ (main github args ≡ some 2)
    ⊎ ((e : Exception) × (evaluate github args ≡ raise e)
        × ((command : List String) × (github command ≡ raise e)))
main_codes_example = main_codes github args

existing_required_count_lem_example :
    let e = evaluate_contract (requested_profile args) [] [] [] in
    (length e.missing_environments ≤ length e.required_environments)
    × (existing_required_count e ≡ length (keep (λ name. contains name []) e.required_environments))
existing_required_count_lem_example = existing_required_count_lem args [] [] []

abbrev az : Az
az command = record { returncode = pos 0; stdout = "{}"; stderr = "" }

abbrev token_json : String → Option Value
token_json s = some (dict (entry "accessToken" (str " a.b.c ") empty))

token_given : get_access_token Unary.host token_json az "api://bff/access_as_user" ≡ ok "a.b.c"
unfolding get_access_token first_token ask_for_token all_candidates split_scopes scope_candidates
    parts_from to_text lookup strip keep dedupe audience_of split_scheme ends_with is_in
token_given = refl
