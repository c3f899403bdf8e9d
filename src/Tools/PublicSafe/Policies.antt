-- ===== src/Tools/PublicSafe/Policies.antt =====
-- tools/ci/public_safe_validation.py: the policies of the workflows, each file by its path.
use agentic_identity_lab.Prelude.{
  String, not, ◌&&◌, ◌||◌, ◌==◌, List, [], ◌∷◌, ◌++◌, is_none, is_in, keep, map, lower, ◌<+>◌,
  if◌then◌else◌,
}
use agentic_identity_lab.Host.{Host}
use agentic_identity_lab.Tools.Shell.{offender_if, concat}
use agentic_identity_lab.Tools.Harness.Wiring.{Files, read_text}
use agentic_identity_lab.Tools.PublicSafe.{Regex, is_public_workflow}
use agentic_identity_lab.Tools.PublicSafe.Scans.{
  matched, upload_offenders, scan_workflow_runtime_exposure,
}

-- WORKFLOWS_DIR / name, with the directory as a text that ends in a slash.
abbrev pub at : (workflows_dir name : String) → String
at dir name = dir <+> name

abbrev pub deploy_live : String
deploy_live = "m8-deploy-live.yml"

abbrev pub start_resume : String
start_resume = "m8-start-resume.yml"

abbrev pub nightly_shutdown : String
nightly_shutdown = "m8-nightly-shutdown.yml"

abbrev pub oidc_contract : String
oidc_contract = "m8-live-oidc-contract.yml"

abbrev pub smoke_trace : String
smoke_trace = "m8-smoke-trace.yml"

abbrev pub forbidden_public_patterns : List String
forbidden_public_patterns =
    "uses:\\s*azure/login@" ∷ "id-token\\s*:\\s*write" ∷ "\\benvironment\\s*:"
    ∷ "\\bterraform\\s+(?:-[^\\s]+\\s+)*(?:apply|destroy)\\b" ∷ "\\baz\\s+login\\b"
    ∷ "\\baz\\s+account\\s+get-access-token\\b"
    ∷ "\\baz\\s+deployment\\s+\\w+\\s+(?:create|what-if|validate)\\b" ∷ []

abbrev pub forbidden_shutdown_patterns : List String
forbidden_shutdown_patterns =
    "\\bterraform\\s+(?:-[^\\s]+\\s+)*(?:apply|destroy)\\b"
    ∷ "\\baz\\s+deployment\\s+\\w+\\s+(?:create|what-if|validate)\\b"
    ∷ "\\baz\\s+group\\s+delete\\b" ∷ "\\baz\\s+resource\\s+delete\\b"
    ∷ "\\baz\\s+containerapp\\s+delete\\b" ∷ []

-- The first loop, for one workflow.
unfoldable pub public_offenders : Regex → (workflow text : String) → List String
unfolding is_public_workflow matched
public_offenders regex workflow text =
    offender_if (regex.search "(?im)^\\s*LIVE_AZURE_TESTS\\s*[:=]\\s*(?:\\\"?true\\\"?)\\s*$" text)
      (workflow <+> ": defaults LIVE_AZURE_TESTS=true")
    ++ (if is_public_workflow regex text
        then matched regex (workflow <+> ": public CI contains forbidden pattern '") text
            forbidden_public_patterns
        else [])

-- A required workflow and its phrases.
unfoldable pub required_offenders :
    Files → (workflow : String) → (phrases : List String) → List String
unfolding keep is_in lower
required_offenders files workflow phrases =
    if is_none (files workflow)
    then (workflow <+> ": required M8 workflow is missing") ∷ []
    else map (λ phrase. workflow <+> ": missing required policy phrase '" <+> phrase <+> "'")
        (keep (λ phrase. not (is_in (lower phrase) (lower (read_text files workflow)))) phrases)

unfoldable pub deploy_offenders : (workflow text : String) → List String
unfolding is_in
deploy_offenders workflow text =
    offender_if (not (is_in "secrets.AZURE_CLIENT_ID_DEPLOY" text))
      (workflow <+> ": missing deploy identity placeholder")
    ++ offender_if
        (not (is_in "validate_m8_kql_contract.py" text)
          && not (is_in "./.github/workflows/m8-smoke-trace.yml" text))
        (workflow
          <+> ": smoke stage must delegate to m8-smoke-trace or run local telemetry contract validation")

unfoldable pub lifecycle_offenders : (workflow text : String) → List String
unfolding is_in
lifecycle_offenders workflow text =
    offender_if (not (is_in "secrets.AZURE_CLIENT_ID_SHUTDOWN" text))
      (workflow <+> ": missing shutdown identity placeholder")
    ++ offender_if (is_in "AZURE_CLIENT_ID_DEPLOY" text || is_in "AZURE_CLIENT_ID_SMOKE" text)
        (workflow <+> ": lifecycle workflow must not reference deploy/smoke identities")

unfoldable pub shutdown_offenders : Regex → (workflow text : String) → List String
unfolding lifecycle_offenders matched
shutdown_offenders regex workflow text =
    lifecycle_offenders workflow text
    ++ map (λ offender. offender <+> " in shutdown path")
        (matched regex (workflow <+> ": forbidden broad mutation '") text
          forbidden_shutdown_patterns)

unfoldable pub smoke_offenders : (workflow text : String) → List String
unfolding is_in lower
smoke_offenders workflow text = concat (
    offender_if (not (is_in "secrets.AZURE_CLIENT_ID_SMOKE" text))
      (workflow <+> ": missing smoke identity placeholder")
    ∷ offender_if (not (is_in "LIVE_SMOKE_SCOPES: ${{ secrets.LIVE_SMOKE_SCOPES }}" text))
        (workflow <+> ": LIVE_SMOKE_SCOPES must be secret-backed")
    ∷ offender_if (is_in "LIVE_SMOKE_SCOPES: ${{ vars.LIVE_SMOKE_SCOPES }}" text)
        (workflow <+> ": LIVE_SMOKE_SCOPES must not be variable-backed")
    ∷ offender_if
        (not (is_in "live_azure_tests" (lower text)) || not (is_in "workflow_call" (lower text)))
        (workflow <+> ": smoke workflow must enforce live_azure_tests and support workflow_call")
    ∷ offender_if (not (is_in "m8_browser_smoke_harness.py" text))
        (workflow <+> ": smoke workflow must run canonical browser smoke harness wiring check")
    ∷ offender_if
        (not (is_in "validate_m8_kql_contract.py" text)
          && not (is_in "m8_smoke_trace_contract.py validate" text))
        (workflow <+> ": smoke workflow must run local telemetry contract validation")
    ∷ offender_if
        (not (is_in "m8_smoke_trace_contract.py evaluate" text)
          && not (is_in "--negative-results-json" text))
        (workflow <+> ": smoke workflow must represent hard-fail leakage evaluation")
    ∷ [])

-- The last loop, for one workflow.
unfoldable pub live_offenders : Host → Regex → (dir workflow text : String) → List String
unfolding is_public_workflow scan_workflow_runtime_exposure upload_offenders
live_offenders host regex dir workflow text =
    offender_if (not (workflow == at dir "m8-validate.yml") && is_public_workflow regex text)
      (workflow <+> ": M8 live workflows must not use push/pull_request triggers")
    ++ (scan_workflow_runtime_exposure host regex workflow text
        ++ upload_offenders regex workflow text)
