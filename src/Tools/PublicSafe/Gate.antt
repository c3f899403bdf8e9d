-- ===== src/Tools/PublicSafe/Gate.antt =====
-- tools/ci/public_safe_validation.py: _scan_workflow_policies, over the workflows of a directory.
use agentic_identity_lab.Prelude.{
  String, not, List, [], ◌∷◌, ◌++◌, is_none, is_in, map, ◌<+>◌, if◌then◌else◌,
}
use agentic_identity_lab.Host.{Host}
use agentic_identity_lab.Tools.Shell.{offender_if, concat}
use agentic_identity_lab.Tools.Harness.Wiring.{Files, read_text}
use agentic_identity_lab.Tools.PublicSafe.{Regex}
use agentic_identity_lab.Tools.PublicSafe.Policies.{
  at, deploy_live, start_resume, nightly_shutdown, oidc_contract, smoke_trace, public_offenders,
  required_offenders, deploy_offenders, lifecycle_offenders, shutdown_offenders, smoke_offenders,
  live_offenders,
}

-- What a check says of a file that exists.
abbrev pub when_present :
    Files → (scan : (path text : String) → List String) → (path : String) → List String
when_present files scan path = if is_none (files path) then [] else scan path (read_text files path)

abbrev missing_if : Files → (path message : String) → List String
missing_if files path message = offender_if (is_none (files path)) (path <+> message)

unfoldable pub preflight_offenders : (workflow text : String) → List String
unfolding is_in
preflight_offenders workflow text =
    offender_if (not (is_in "m9_live_preflight.py" text))
      (workflow <+> ": missing m9_live_preflight.py protected preflight gate")

-- Between the two loops: the workflows and the scripts that are named.
unfoldable pub named_offenders : Regex → Files → (dir tools : String) → List String
unfolding required_offenders deploy_offenders lifecycle_offenders shutdown_offenders smoke_offenders
    preflight_offenders
named_offenders regex files dir tools = concat (
    required_offenders files (at dir deploy_live)
      ("environment: lab-live-azure-deploy" ∷ "id-token: write" ∷ "azure/login@v2" ∷ [])
    ∷ required_offenders files (at dir start_resume)
        ("environment: lab-live-azure-ops" ∷ "id-token: write" ∷ "azure/login@v2" ∷ [])
    ∷ required_offenders files (at dir nightly_shutdown)
        ("environment: lab-live-azure-ops" ∷ "id-token: write" ∷ "azure/login@v2" ∷ [])
    ∷ required_offenders files (at dir oidc_contract)
        ("lab-live-azure-deploy" ∷ "lab-live-azure-smoke" ∷ "lab-live-azure-ops" ∷ [])
    ∷ when_present files deploy_offenders (at dir deploy_live)
    ∷ when_present files lifecycle_offenders (at dir start_resume)
    ∷ when_present files (shutdown_offenders regex) (at dir nightly_shutdown)
    ∷ when_present files smoke_offenders (at dir smoke_trace)
    ∷ missing_if files (at dir smoke_trace) ": required M8 workflow is missing"
    ∷ missing_if files (tools <+> "m8_browser_smoke_harness.py") ": required T07 harness is missing"
    ∷ missing_if files (tools <+> "m8_smoke_trace_contract.py")
        ": required T07 trace contract runner is missing"
    ∷ missing_if files (tools <+> "m9_live_preflight.py")
        ": required M9 preflight checker is missing"
    ∷ concat (
        map (when_present files preflight_offenders) (
          at dir deploy_live
          ∷ at dir start_resume
          ∷ at dir nightly_shutdown
          ∷ at dir smoke_trace
          ∷ []))
    ∷ [])

-- `workflows` and `m8_workflows` are the sorted paths that the two globs find, and `tools` is the
-- directory of the scripts; a path that a glob finds has a text.
unfoldable pub scan_workflow_policies :
    Host
    → Regex
    → Files
    → (dir tools : String) → (workflows m8_workflows : List String) → List String
unfolding public_offenders named_offenders live_offenders
scan_workflow_policies host regex files dir tools workflows m8_workflows =
    concat (map (λ workflow. public_offenders regex workflow (read_text files workflow)) workflows)
    ++ (named_offenders regex files dir tools
        ++ concat (
            map (λ workflow. live_offenders host regex dir workflow (read_text files workflow))
              m8_workflows))
