-- ===== src/Tools/Harness/Live/Laws.antt =====
-- A validated run ends with a report, and a report without offenders is one of a real success.
use agentic_identity_lab.Prelude.{
  ◌≡◌, refl, ◌∙◌, sym, ◌⊎◌, inl, inr, String, Option, none, some, List, [], ◌∷◌, Bool-cases, map,
  is_nil, is_blank, strip, ◌<+>◌, if◌then◌else◌, ℤ,
}
use agentic_identity_lab.Result.{Result, ok, raise, Exception}
use agentic_identity_lab.Value.{Value, str, dict, Dict, empty, lookup, set_item, truthy}
use agentic_identity_lab.Host.{Host}
use agentic_identity_lab.Auth.Settings.{Environ}
use agentic_identity_lab.Tools.Shell.{Completed}
use agentic_identity_lab.Tools.Harness.Artifact.{
  find_sensitive_artifact_paths, normalize_live_result, evaluate_live_result, is_set, to_stripped,
  get_either,
}
use agentic_identity_lab.Tools.Harness.Artifact.Laws.{
  IsRedacted, IsSuccess, ReadsBack, evaluate_live_result_iff, find_sensitive_artifact_paths_iff,
}
use agentic_identity_lab.Tools.Harness.Live.{
  PageRequest, PageOutcome, page_failed, page_result, command_raised, completed, unreadable,
  content, Runtime, page_report, with_source, report_of, artifact_of, manual_report, payload_report,
  int_env,
}

-- An exception that reading a file, running a command or parsing a text raised.
pub data IsForeign (rt : Runtime) (e : Exception) : Type 0 where
  of_file : (path : String) → rt.read_file path ≡ unreadable e → IsForeign rt e
  of_command :
      (command : String)
      → (timeout : ℤ) → rt.run_command command timeout ≡ command_raised e
      → IsForeign rt e
  of_loads : (text : String) → rt.loads text ≡ raise e → IsForeign rt e

-- The run gives a report, or such an exception comes out.
abbrev pub IsEnded : {A : Type 0} → Runtime → Result A → Type 0
IsEnded {A} rt result =
    ((a : A) × (result ≡ ok a)) ⊎ ((e : Exception) × IsForeign rt e × (result ≡ raise e))

evaluate-with_source :
    (host : Host) (source : String) (raw : Dict) (expected : ℤ)
    → evaluate_live_result host (with_source source (normalize_live_result host raw)) expected
      ≡ evaluate_live_result host (normalize_live_result host raw) expected
unfolding evaluate_live_result with_source normalize_live_result set_item lookup is_set truthy
evaluate-with_source host source raw expected =
    elim (Bool-cases
      (is_blank (to_stripped host (get_either "resultSource" "result_source" (str "") raw)))) [
        | inl blank ↦ rw blank
        | inr given ↦ rw given
      ]

-- Where an accepted result came from: the page, the command's output or the artifact's file. The
-- last two are redacted throughout.
pub data IsObserved (rt : Runtime) (payload : Dict) : Type 0 where
  by_page :
      (request : PageRequest)
      → (evaluate : PageRequest → PageOutcome) → rt.playwright ≡ some evaluate
      → evaluate request ≡ page_result (dict payload)
      → IsObserved rt payload
  by_command :
      (command : String)
      → (timeout : ℤ) → (done : Completed) → rt.run_command command timeout ≡ completed done
      → rt.loads (strip done.stdout) ≡ ok (some (dict payload))
      → IsRedacted (dict payload)
      → IsObserved rt payload
  by_file :
      (path text : String)
      → rt.read_file path ≡ content text
      → rt.loads text ≡ ok (some (dict payload))
      → IsRedacted (dict payload)
      → IsObserved rt payload

-- The run was accepted on an observed result that has the configured status.
pub record IsProven (rt : Runtime) (env : Environ) : Type 0 where
  pub expected_status : ℤ
  pub configured : int_env rt.host "M9_PLAYWRIGHT_EXPECTED_STATUS" "200" env ≡ ok expected_status
  pub payload : Dict
  pub observed : IsObserved rt payload
  pub success : IsSuccess rt.host payload expected_status

report_of-IsSuccess :
    (rt : Runtime) (env : Environ) (transport source : String) (expected : ℤ) (payload : Dict)
    (digest : String)
    → ReadsBack rt.host
    → (report_of rt env transport source expected payload digest).1 ≡ []
    → IsSuccess rt.host payload expected
unfolding report_of
report_of-IsSuccess rt env transport source expected payload digest reads h =
    (evaluate_live_result_iff rt.host payload expected reads).0
      (sym (evaluate-with_source rt.host source payload expected) ∙ h)

pub page-IsSuccess :
    (rt : Runtime) (url : String) (expected : ℤ) (outcome : PageOutcome)
    → ReadsBack rt.host
    → (page_report rt url expected outcome).1 ≡ []
    → (payload : Dict) × (outcome ≡ page_result (dict payload)) × IsSuccess rt.host payload expected
unfolding evaluate_live_result normalize_live_result set_item lookup is_set
page-IsSuccess rt url expected (page_failed name) reads h = absurd cc
page-IsSuccess rt url expected (page_result (dict response)) reads h =
    (response, refl, (evaluate_live_result_iff rt.host response expected reads).0 h)
page-IsSuccess rt url expected (page_result v) reads h = absurd cc

pub command-IsSuccess :
    (rt : Runtime) (env : Environ) (expected : ℤ) (o : Option Value)
    → ReadsBack rt.host
    → (payload_report rt env expected o).1 ≡ []
    → (payload : Dict) × (o ≡ some (dict payload))
      × IsRedacted (dict payload)
      × IsSuccess rt.host payload expected
command-IsSuccess rt env expected none reads h = absurd cc
command-IsSuccess rt env expected (some (dict payload)) reads h =
    by_paths (find_sensitive_artifact_paths rt.host (dict payload) "$") refl h
  where
    by_paths :
        (paths : List String)
        → find_sensitive_artifact_paths rt.host (dict payload) "$" ≡ paths
        → (if is_nil paths
            then report_of rt env "agent-browser" "agent-browser-command" expected payload ""
            else (
              empty,
              map
                  (λ at.
                    "[live] agent-browser output contains non-redacted sensitive data at " <+> at)
                  paths,
            )).1
          ≡ []
        → (d : Dict) × (some (dict payload) ≡ some (dict d))
          × IsRedacted (dict d)
          × IsSuccess rt.host d expected
    by_paths [] e k = (
      payload,
      refl,
      (find_sensitive_artifact_paths_iff rt.host (dict payload) "$").0 e,
      report_of-IsSuccess rt env _ _ expected payload "" reads k,
    )
    by_paths (x ∷ xs) e k = absurd cc
command-IsSuccess rt env expected (some v) reads h = absurd cc

pub artifact-IsSuccess :
    (rt : Runtime) (env : Environ) (expected : ℤ) (path text : String) (o : Option Value)
    → ReadsBack rt.host
    → (manual_report rt env expected (artifact_of rt path text o)).1 ≡ []
    → (payload : Dict) × (o ≡ some (dict payload))
      × IsRedacted (dict payload)
      × IsSuccess rt.host payload expected
artifact-IsSuccess rt env expected path text none reads h = absurd cc
artifact-IsSuccess rt env expected path text (some (dict payload)) reads h =
    by_paths (find_sensitive_artifact_paths rt.host (dict payload) "$") refl h
  where
    by_paths :
        (paths : List String)
        → find_sensitive_artifact_paths rt.host (dict payload) "$" ≡ paths
        → (manual_report rt env expected (record {
          payload = payload;
          offenders =
              map (λ at. "[live] artifact contains non-redacted sensitive data at " <+> at) paths;
          digest = rt.opaque_digest text;
        })).1
          ≡ []
        → (d : Dict) × (some (dict payload) ≡ some (dict d))
          × IsRedacted (dict d)
          × IsSuccess rt.host d expected
    by_paths [] e k = (
      payload,
      refl,
      (find_sensitive_artifact_paths_iff rt.host (dict payload) "$").0 e,
      report_of-IsSuccess rt env _ _ expected payload (rt.opaque_digest text) reads k,
    )
    by_paths (x ∷ xs) e k = absurd cc
artifact-IsSuccess rt env expected path text (some v) reads h = absurd cc
