-- ===== src/Tools/Harness/Live/Accepted.antt =====
-- What an accepted run rests on.
use agentic_identity_lab.Prelude.{
  ◌≡◌, refl, ◌∙◌, inl, inr, ap, String, Option, none, some, [], ◌∷◌, Bool-cases, is_blank, strip,
  ◌==◌, ℤ,
}
use agentic_identity_lab.Result.{ok, >>=-eq-ok, ok_injective}
use agentic_identity_lab.Value.{Dict, dict}
use agentic_identity_lab.Auth.Settings.{Environ}
use agentic_identity_lab.Tools.Shell.{Completed}
use agentic_identity_lab.Tools.Shell.Laws.{append_nil}
use agentic_identity_lab.Tools.Harness.Artifact.Laws.{IsRedacted, IsSuccess, ReadsBack}
use agentic_identity_lab.Tools.Harness.Live.{
  PageRequest, PageOutcome, CommandOutcome, timed_out, os_error, command_raised, completed,
  FileText, missing, unreadable, content, Runtime, Report, page_report, Artifact, read_artifact,
  browser_report, page_request, load_manual_artifact, manual_report, artifact_of, payload_report,
  command_report, run_live_playwright_smoke, run_live_agent_browser_smoke,
  run_live_manual_artifact_smoke, run_live_transport_smoke, require_env, int_env,
}
use agentic_identity_lab.Tools.Harness.Live.Laws.{
  by_page, by_command, by_file, IsProven, page-IsSuccess, command-IsSuccess, artifact-IsSuccess,
}

outcome-IsSuccess :
    (rt : Runtime) (env : Environ) (expected : ℤ) (outcome : CommandOutcome) (report : Report)
    → ReadsBack rt.host
    → command_report rt env expected outcome ≡ ok report
    → report.1 ≡ []
    → (done : Completed) × (payload : Dict) × (outcome ≡ completed done)
      × (rt.loads (strip done.stdout) ≡ ok (some (dict payload)))
      × IsRedacted (dict payload)
      × IsSuccess rt.host payload expected
outcome-IsSuccess rt env expected timed_out report reads h clean =
    absurd (cc (ap (λ r. r.1) (ok_injective h) ∙ clean))
outcome-IsSuccess rt env expected (os_error name) report reads h clean =
    absurd (cc (ap (λ r. r.1) (ok_injective h) ∙ clean))
outcome-IsSuccess rt env expected (command_raised x) report reads h clean = absurd cc
outcome-IsSuccess rt env expected (completed c) report reads h clean =
    elim (Bool-cases (is_blank (strip c.stdout))) [
      | inl blank ↦
          absurd (
            cc ((append_nil _ (_ ∷ [])).0 (ap (λ r. r.1) (ok_injective (rw blank at h)) ∙ clean)).1)
      | inr given ↦
          let (parsed, loaded, e) =
            >>=-eq-ok (rt.loads (strip c.stdout)) (λ v. ok (payload_report rt env expected v))
              (rw given at h) in
          let (payload, same, redacted, success) =
            command-IsSuccess rt env expected parsed reads
              (ap (λ r. r.1) (ok_injective e) ∙ clean) in
          (c, payload, refl, loaded ∙ ap ok same, redacted, success)
    ]

agent_browser-IsProven :
    (rt : Runtime) (env : Environ) (report : Report)
    → ReadsBack rt.host
    → run_live_agent_browser_smoke rt env ≡ ok report
    → report.1 ≡ []
    → IsProven rt env
unfolding run_live_agent_browser_smoke
agent_browser-IsProven rt env report reads h clean =
    let (command, q₁, h₁) = >>=-eq-ok (require_env "M9_AGENT_BROWSER_COMMAND" env) _ h in
    let (timeout, q₂, h₂) =
      >>=-eq-ok (int_env rt.host "M9_AGENT_BROWSER_TIMEOUT_SECONDS" "120" env) _ h₁ in
    let (expected, q₃, h₃) =
      >>=-eq-ok (int_env rt.host "M9_PLAYWRIGHT_EXPECTED_STATUS" "200" env) _ h₂ in
    from_report command timeout expected q₃ h₃
  where
    from_report :
        (command : String) (timeout expected : ℤ)
        → int_env rt.host "M9_PLAYWRIGHT_EXPECTED_STATUS" "200" env ≡ ok expected
        → command_report rt env expected (rt.run_command command timeout) ≡ ok report
        → IsProven rt env
    from_report command timeout expected q k =
        let (done, payload, ran, loaded, redacted, success) =
          outcome-IsSuccess rt env expected (rt.run_command command timeout) report reads k clean in
        record {
          expected_status = expected;
          configured = q;
          payload = payload;
          observed = by_command command timeout done ran loaded redacted;
          success = success;
        }

manual-IsProven :
    (rt : Runtime) (env : Environ) (report : Report)
    → ReadsBack rt.host
    → run_live_manual_artifact_smoke rt env ≡ ok report
    → report.1 ≡ []
    → IsProven rt env
unfolding run_live_manual_artifact_smoke load_manual_artifact
manual-IsProven rt env report reads h clean =
    let (expected, q₁, h₁) =
      >>=-eq-ok (int_env rt.host "M9_PLAYWRIGHT_EXPECTED_STATUS" "200" env) _ h in
    let (path, q₂, h₂) = >>=-eq-ok (require_env "M9_BROWSER_EVIDENCE_JSON" env) _ h₁ in
    let (artifact, q₃, h₃) = >>=-eq-ok (load_manual_artifact rt path) _ h₂ in
    from_file expected path artifact (rt.read_file path) refl q₁ q₃
      (ap (λ r. r.1) (ok_injective h₃) ∙ clean)
  where
    from_file :
        (expected : ℤ) (path : String) (artifact : Artifact) (t : FileText)
        → rt.read_file path ≡ t
        → int_env rt.host "M9_PLAYWRIGHT_EXPECTED_STATUS" "200" env ≡ ok expected
        → read_artifact rt path t ≡ ok artifact
        → (manual_report rt env expected artifact).1 ≡ []
        → IsProven rt env
    from_file expected path artifact missing e q l k =
        absurd (cc (ap (λ a. (manual_report rt env expected a).1) (ok_injective l) ∙ k))
    from_file expected path artifact (unreadable x) e q l k = absurd cc
    from_file expected path artifact (content text) e q l k =
        let (parsed, loaded, m) =
          >>=-eq-ok (rt.loads text) (λ v. ok (artifact_of rt path text v)) l in
        let (payload, same, redacted, success) =
          artifact-IsSuccess rt env expected path text parsed reads
            (ap (λ a. (manual_report rt env expected a).1) (ok_injective m) ∙ k) in
        record {
          expected_status = expected;
          configured = q;
          payload = payload;
          observed = by_file path text e (loaded ∙ ap ok same) redacted;
          success = success;
        }

playwright-IsProven :
    (rt : Runtime) (env : Environ) (report : Report)
    → ReadsBack rt.host
    → run_live_playwright_smoke rt env ≡ ok report
    → report.1 ≡ []
    → IsProven rt env
unfolding run_live_playwright_smoke
playwright-IsProven rt env report reads h clean = by_browser rt.playwright refl h
  where
    from_page :
        (evaluate : PageRequest → PageOutcome)
        → rt.playwright ≡ some evaluate
        → (request : PageRequest) (expected : ℤ)
        → int_env rt.host "M9_PLAYWRIGHT_EXPECTED_STATUS" "200" env ≡ ok expected
        → (url : String) → (page_report rt url expected (evaluate request)).1 ≡ []
        → IsProven rt env
    from_page evaluate e request expected q url k =
        let (payload, seen, success) = page-IsSuccess rt url expected (evaluate request) reads k in
        record {
          expected_status = expected;
          configured = q;
          payload = payload;
          observed = by_page request evaluate e seen;
          success = success;
        }

    by_browser :
        (o : Option (PageRequest → PageOutcome))
        → rt.playwright ≡ o
        → browser_report rt env o ≡ ok report
        → IsProven rt env
    by_browser none e k = absurd (cc (ap (λ r. r.1) (ok_injective k) ∙ clean))
    by_browser (some evaluate) e k =
        let (url, q₁, h₁) = >>=-eq-ok (require_env "M9_PLAYWRIGHT_CHAT_URL" env) _ k in
        let (token, q₂, h₂) = >>=-eq-ok (require_env "M9_PLAYWRIGHT_ACCESS_TOKEN" env) _ h₁ in
        let (expected, q₃, h₃) =
          >>=-eq-ok (int_env rt.host "M9_PLAYWRIGHT_EXPECTED_STATUS" "200" env) _ h₂ in
        let (seconds, q₄, h₄) =
          >>=-eq-ok (int_env rt.host "M9_PLAYWRIGHT_TIMEOUT_SECONDS" "30" env) _ h₃ in
        from_page evaluate e (page_request env url token seconds) expected q₃ url
          (ap (λ r. r.1) (ok_injective h₄) ∙ clean)

-- A live run without offenders, in whichever transport, rests on a result that the browser, the
-- command or the artifact really gave: it has the configured status, was successful and has a
-- session id, and, unless it comes from the page itself, nothing in it is sensitive.
pub run_live_transport_smoke-IsProven :
    (rt : Runtime) (env : Environ) (transport : String) (report : Report)
    → ReadsBack rt.host
    → run_live_transport_smoke rt env transport ≡ ok report
    → report.1 ≡ []
    → IsProven rt env
unfolding run_live_transport_smoke
run_live_transport_smoke-IsProven rt env transport report reads h clean =
    elim (Bool-cases (transport == "playwright")) [
      | inl a ↦ playwright-IsProven rt env report reads (rw a at h) clean
      | inr na ↦ elim (Bool-cases (transport == "agent-browser")) [
        | inl b ↦ agent_browser-IsProven rt env report reads (rw (na, b) at h) clean
        | inr nb ↦ elim (Bool-cases (transport == "manual-artifact")) [
          | inl c ↦ manual-IsProven rt env report reads (rw (na, nb, c) at h) clean
          | inr nc ↦ absurd (cc (ap (λ r. r.1) (ok_injective (rw (na, nb, nc) at h)) ∙ clean))
        ]
      ]
    ]
