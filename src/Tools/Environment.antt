-- ===== src/Tools/Environment.antt =====
-- tools/ci/m9_github_environment_check.py: whether the protected environments, their secrets and
-- their variables are there, by name. The GitHub CLI is a parameter.
pub mod Laws
pub mod Main
pub mod Counts
use agentic_identity_lab.Prelude.{
  ℕ, ◌-◌, ◌+◌, String, Bool, true, false, not, ◌&&◌, ◌||◌, Option, none, some, List, [], ◌∷◌, ◌++◌,
  is_nil, is_blank, contains, keep, length, strip, sorted, dedupe, or_default, ◌==◌, ◌<+>◌,
  if◌then◌else◌, ℤ, pos, negsuc, eqb,
}
use agentic_identity_lab.Result.{Result, ok, raise, value_error, runtime_error, ◌>>=◌}
use agentic_identity_lab.Tools.Shell.{Completed, stripped_lines}

abbrev pub NamesByEnvironment : Type 0
NamesByEnvironment = List (String × List String)

pub record ContractProfile : Type 0 where
  pub required_environments : List String
  pub required_secrets : NamesByEnvironment
  pub required_variables : NamesByEnvironment
  pub optional_variables : NamesByEnvironment

abbrev pub default_required_environments : List String
default_required_environments =
    "lab-live-azure-deploy" ∷ "lab-live-azure-smoke" ∷ "lab-live-azure-ops" ∷ []

abbrev azure_secrets : (client_id : String) → List String
azure_secrets client_id = client_id ∷ "AZURE_TENANT_ID" ∷ "AZURE_SUBSCRIPTION_ID" ∷ []

abbrev zero_mutation_required_secrets : NamesByEnvironment
zero_mutation_required_secrets =
    ("lab-live-azure-deploy", azure_secrets "AZURE_CLIENT_ID_DEPLOY")
    ∷ ("lab-live-azure-smoke", azure_secrets "AZURE_CLIENT_ID_SMOKE")
    ∷ ("lab-live-azure-ops", azure_secrets "AZURE_CLIENT_ID_SHUTDOWN")
    ∷ []

-- the choices of --mode
pub data Mode : Type 0 where
  shells zero_mutation lifecycle_runtime smoke_runtime : Mode

abbrev pub profile_of : Mode → ContractProfile
profile_of shells = record {
  required_environments = default_required_environments;
  required_secrets = [];
  required_variables = [];
  optional_variables = [];
}
profile_of zero_mutation = record {
  required_environments = default_required_environments;
  required_secrets = zero_mutation_required_secrets;
  required_variables = [];
  optional_variables =
      (
        "lab-live-azure-ops",
        "AZURE_RESOURCE_GROUP" ∷ "ACA_APP_NAMES" ∷ "APIM_SERVICE_NAME" ∷ "APIM_STOP_SUPPORTED"
            ∷ "M8_READINESS_URL" ∷ [],
      )
      ∷ (
        "lab-live-azure-smoke",
        "AZURE_RESOURCE_GROUP" ∷ "M9_BROWSER_TRANSPORT" ∷ "M9_BROWSER_EVIDENCE_JSON"
            ∷ "M9_AGENT_BROWSER_TIMEOUT_SECONDS" ∷ "M9_PLAYWRIGHT_EXPECTED_STATUS"
            ∷ "M9_PLAYWRIGHT_TIMEOUT_SECONDS" ∷ "M9_PLAYWRIGHT_DISPLAY_NAME" ∷ [],
      )
      ∷ [];
}
profile_of lifecycle_runtime = record {
  required_environments = "lab-live-azure-ops" ∷ [];
  required_secrets = ("lab-live-azure-ops", azure_secrets "AZURE_CLIENT_ID_SHUTDOWN") ∷ [];
  required_variables = ("lab-live-azure-ops", "AZURE_RESOURCE_GROUP" ∷ "ACA_APP_NAMES" ∷ []) ∷ [];
  optional_variables =
      (
        "lab-live-azure-ops",
        "APIM_RESOURCE_GROUP" ∷ "APIM_SERVICE_NAME" ∷ "APIM_STOP_SUPPORTED" ∷ "M8_READINESS_URL"
            ∷ [],
      )
      ∷ [];
}
profile_of smoke_runtime = record {
  required_environments = "lab-live-azure-smoke" ∷ [];
  required_secrets =
      ("lab-live-azure-smoke", azure_secrets "AZURE_CLIENT_ID_SMOKE" ++ ("LIVE_SMOKE_SCOPES" ∷ []))
      ∷ [];
  required_variables =
      ("lab-live-azure-smoke", "AZURE_RESOURCE_GROUP" ∷ "M9_BROWSER_TRANSPORT" ∷ []) ∷ [];
  optional_variables =
      (
        "lab-live-azure-smoke",
        "M9_BROWSER_EVIDENCE_JSON" ∷ "M9_AGENT_BROWSER_TIMEOUT_SECONDS"
            ∷ "M9_PLAYWRIGHT_EXPECTED_STATUS" ∷ "M9_PLAYWRIGHT_TIMEOUT_SECONDS"
            ∷ "M9_PLAYWRIGHT_DISPLAY_NAME" ∷ "LIVE_APIM_BASE_URL" ∷ "LIVE_READINESS_URL"
            ∷ "LIVE_SMOKE_CLIENT_ID" ∷ "LIVE_AUTHORITY_HOST" ∷ "LIVE_BFF_AUDIENCE"
            ∷ "LIVE_AGENT_EXECUTION_AUDIENCE" ∷ "LIVE_MCP_AUDIENCE" ∷ [],
      )
      ∷ [];
}

-- subprocess.run of a command line, with text=True: a command that is not found and an output that is
-- no text are exceptions.
abbrev pub Shell : Type 0
Shell = List String → Result Completed

abbrev pub is_zero : ℤ → Bool
is_zero (pos n) = eqb n 0
is_zero (negsuc n) = false

-- The lines of an output, or the message of an error.
unfoldable pub names_printed : (failure : String) → Completed → Result (List String)
unfolding stripped_lines strip
names_printed failure proc =
    let stderr = strip proc.stderr in
    if is_zero proc.returncode
    then ok (stripped_lines proc.stdout)
    else raise (
        runtime_error
          (failure <+> ": " <+> (if is_blank stderr then "gh api call failed" else stderr)))

-- The names that a call of `gh api` prints, as a set; `failure` begins the message of an error.
unfoldable pub query_names : Shell → (path jq failure : String) → Result (List String)
unfolding names_printed
query_names run path jq failure = do
  proc ← run ("gh" ∷ "api" ∷ path ∷ "--paginate" ∷ "--jq" ∷ jq ∷ [])
  names_printed failure proc

unfoldable pub fetch_environment_names : Shell → (repo : String) → Result (List String)
unfolding query_names
fetch_environment_names run repo =
    query_names run ("repos/" <+> repo <+> "/environments") ".environments[].name"
      ("Unable to query GitHub environments for " <+> repo)

unfoldable pub fetch_environment_metadata_names :
    Shell → (repo environment metadata : String) → Result (List String)
unfolding query_names contains
fetch_environment_metadata_names run repo environment metadata =
    if contains metadata ("secrets" ∷ "variables" ∷ [])
    then query_names run
        ("repos/" <+> repo <+> "/environments/" <+> environment <+> "/" <+> metadata)
        ("." <+> metadata <+> "[].name")
        ("Unable to query GitHub environment " <+> metadata <+> " for " <+> repo <+> "/"
          <+> environment)
    else raise (value_error ("Unsupported metadata kind: " <+> metadata))

-- d.get(environment, set())
unfoldable pub names_of : String → NamesByEnvironment → List String
names_of environment [] = []
names_of environment ((key, names) ∷ rest) =
    if key == environment then names else names_of environment rest

-- sorted(set(required) - available)
unfoldable pub missing_of : (required available : List String) → List String
unfolding sorted dedupe keep contains
missing_of required available =
    sorted (keep (λ name. not (contains name available)) (dedupe required))

-- the loop over a dict of required names
unfoldable pub missing_by_environment : (required found : NamesByEnvironment) → NamesByEnvironment
unfolding missing_of names_of
missing_by_environment [] found = []
missing_by_environment ((environment, names) ∷ rest) found =
    let missing = missing_of names (names_of environment found) in
    let later = missing_by_environment rest found in
    if is_nil missing then later else (environment, missing) ∷ later

pub record Evaluation : Type 0 where
  pub required_environments : List String
  pub missing_environments : List String
  pub missing_required_secrets : NamesByEnvironment
  pub missing_required_variables : NamesByEnvironment
  pub missing_optional_variables : NamesByEnvironment

unfoldable pub evaluate_contract :
    ContractProfile
    → (existing_environments : List String)
    → (secrets_by_environment variables_by_environment : NamesByEnvironment) → Evaluation
unfolding missing_of missing_by_environment
evaluate_contract profile existing secrets variables = record {
  required_environments = profile.required_environments;
  missing_environments = missing_of profile.required_environments existing;
  missing_required_secrets = missing_by_environment profile.required_secrets secrets;
  missing_required_variables = missing_by_environment profile.required_variables variables;
  missing_optional_variables = missing_by_environment profile.optional_variables variables;
}

-- The secrets and the variables of the required environments that exist, in the order of the calls.
unfoldable pub collect :
    Shell
    → (repo : String) (required existing : List String)
    → Result (NamesByEnvironment × NamesByEnvironment)
unfolding contains fetch_environment_metadata_names
collect run repo [] existing = ok ([], [])
collect run repo (environment ∷ rest) existing =
    let later = collect run repo rest existing in
    if contains environment existing
    then (do
      secrets ← fetch_environment_metadata_names run repo environment "secrets"
      variables ← fetch_environment_metadata_names run repo environment "variables"
      (more_secrets, more_variables) ← later
      ok ((environment, secrets) ∷ more_secrets, (environment, variables) ∷ more_variables))
    else later

pub record Args : Type 0 where
  pub repo : String
  pub mode : Mode
  pub required : List String

-- the mode's profile with the environments of --required, each once
unfoldable pub requested_profile : Args → ContractProfile
unfolding dedupe
requested_profile args =
    let profile = profile_of args.mode in
    record {
      required_environments = dedupe (profile.required_environments ++ args.required);
      required_secrets = profile.required_secrets;
      required_variables = profile.required_variables;
      optional_variables = profile.optional_variables;
    }

unfoldable pub evaluate : Shell → Args → Result Evaluation
unfolding requested_profile fetch_environment_names collect evaluate_contract
evaluate run args = do
  existing ← fetch_environment_names run args.repo
  (secrets, variables) ←
      collect run args.repo (requested_profile args).required_environments existing
  ok (evaluate_contract (requested_profile args) existing secrets variables)

unfoldable pub existing_required_count : Evaluation → ℕ
existing_required_count e = length e.required_environments - length e.missing_environments

abbrev pub is_failed : Evaluation → Bool
is_failed e =
    not (is_nil e.missing_environments)
    || not (is_nil e.missing_required_secrets)
    || not (is_nil e.missing_required_variables)

-- The exit code. A RuntimeError is printed; another exception would come out, which `none` stands
-- for.
abbrev pub exit_code : Result Evaluation → Option ℕ
exit_code (ok e) = some (if is_failed e then 1 else 0)
exit_code (raise (runtime_error message)) = some 2
exit_code (raise exception) = none

unfoldable pub main : Shell → Args → Option ℕ
unfolding evaluate
main run args = exit_code (evaluate run args)
