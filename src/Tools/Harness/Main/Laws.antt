-- ===== src/Tools/Harness/Main/Laws.antt =====
-- What the exit code 0 of the harness stands for.
use agentic_identity_lab.Prelude.{
  ◌≡◌, refl, ◌∙◌, ap, inl, inr, ℕ, String, false, List, [], ◌∷◌, ◌++◌, arith, Bool-cases, is_nil,
  some, if◌then◌else◌,
}
use agentic_identity_lab.Result.{ok, ◌>>=◌, >>=-eq-ok, ok_injective}
use agentic_identity_lab.Auth.Settings.{Environ, non_blank}
use agentic_identity_lab.Tools.Shell.Laws.{append_nil}
use agentic_identity_lab.Tools.Harness.Artifact.Laws.{ReadsBack}
use agentic_identity_lab.Tools.Harness.Inputs.{resolve_transport, validate_live_inputs}
use agentic_identity_lab.Tools.Harness.Live.{Runtime, run_live_transport_smoke}
use agentic_identity_lab.Tools.Harness.Live.Laws.{IsProven}
use agentic_identity_lab.Tools.Harness.Live.Accepted.{run_live_transport_smoke-IsProven}
use agentic_identity_lab.Tools.Harness.Wiring.{Files, validate_browser_smoke_wiring}
use agentic_identity_lab.Tools.Harness.Wiring.Laws.{IsWired, validate_browser_smoke_wiring_iff}
use agentic_identity_lab.Tools.Harness.Main.{
  live_mode, Summary, executed, refused, summarize, exit_code, main,
}

passed_of_zero :
    (offenders : List String) → ◌≡◌ {A = ℕ} (if is_nil offenders then 0 else 1) 0 → offenders ≡ []
passed_of_zero [] h = refl
passed_of_zero (x ∷ xs) h = absurd (omega arith)

-- In live mode the harness exits with 0 only if the repository's files are wired as they should be
-- and a live run was accepted on an observed result.
pub main-IsProven :
    (rt : Runtime) (env : Environ) (files : Files) (root transport_option : String)
    → ReadsBack rt.host
    → main rt env files root live_mode transport_option ≡ ok 0
    → IsWired files root × IsProven rt env
unfolding main summarize
main-IsProven rt env files root option reads h =
    let (summary, q, h₁) = >>=-eq-ok (summarize rt env files root live_mode option) _ h in
    elim (Bool-cases (is_nil (validate_live_inputs rt.host env (some transport)))) [
      | inr refused_inputs ↦
          absurd (
            refusal summary refused_inputs (ok_injective (rw refused_inputs at q))
              (ok_injective h₁))
      | inl valid ↦ accepted summary (rw valid at q) (ok_injective h₁)
    ]
  where
    transport : String
    transport = resolve_transport env (non_blank option)

    accepted :
        (summary : Summary)
        → (run_live_transport_smoke rt env transport >>= λ report.
            ok (executed (validate_browser_smoke_wiring files root) transport report))
          ≡ ok summary
        → exit_code summary ≡ 0
        → IsWired files root × IsProven rt env
    accepted summary q zero_code =
        let (report, ran, made) = >>=-eq-ok (run_live_transport_smoke rt env transport) _ q in
        let clean : validate_browser_smoke_wiring files root ++ report.1 ≡ [] =
          ap (λ s. s.offenders) (ok_injective made) ∙ passed_of_zero summary.offenders zero_code in
        let (wired, proven) =
          (append_nil (validate_browser_smoke_wiring files root) report.1).0 clean in
        (
          (validate_browser_smoke_wiring_iff files root).0 wired,
          run_live_transport_smoke-IsProven rt env transport report reads ran proven,
        )

    refusal :
        (summary : Summary)
        → is_nil (validate_live_inputs rt.host env (some transport)) ≡ false
        → refused
            (validate_browser_smoke_wiring files root
              ++ validate_live_inputs rt.host env (some transport))
            transport
          ≡ summary
        → exit_code summary ≡ 0
        → ⊥
    refusal summary lacking made zero_code =
        let clean = ap (λ s. s.offenders) made ∙ passed_of_zero summary.offenders zero_code in
        let (wired, valid) =
          (append_nil (validate_browser_smoke_wiring files root)
              (validate_live_inputs rt.host env (some transport))).0
            clean in
        ground (arith, valid, lacking)
