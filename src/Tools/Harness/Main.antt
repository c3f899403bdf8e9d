-- ===== src/Tools/Harness/Main.antt =====
-- m8_browser_smoke_harness.py: main, in its two modes. The repository's root is an argument.
pub mod Laws
use agentic_identity_lab.Prelude.{
  ℕ, String, Bool, true, false, not, Option, none, some, List, [], ◌∷◌, ◌++◌, is_nil, ◌<+>◌,
  if◌then◌else◌,
}
use agentic_identity_lab.Result.{Result, ok, raise, ◌>>=◌}
use agentic_identity_lab.Value.{Dict, empty}
use agentic_identity_lab.Auth.Settings.{Environ, non_blank}
use agentic_identity_lab.Tools.Harness.Inputs.{resolve_transport, validate_live_inputs}
use agentic_identity_lab.Tools.Harness.Live.{Runtime, Report, run_live_transport_smoke}
use agentic_identity_lab.Tools.Harness.Wiring.{Files, validate_browser_smoke_wiring}

-- --mode
pub data Mode : Type 0 where
  static_mode live_mode : Mode

-- What is written to --output-json and decides the exit code.
pub record Summary : Type 0 where
  pub transport : String
  pub offenders : List String
  pub live_execution : Bool
  pub notes : List String
  pub live_evidence : Dict

abbrev pub wiring_note : String
wiring_note =
    "Static wiring checks validated for browser -> APIM -> BFF -> Agent Execution Service -> MCP."

abbrev pub executed : (offenders : List String) (transport : String) → Report → Summary
executed offenders transport (evidence, execution_offenders) = record {
  transport = transport;
  offenders = offenders ++ execution_offenders;
  live_execution = true;
  notes =
      wiring_note
      ∷ ("Live browser smoke execution "
          <+> (if is_nil execution_offenders then "passed" else "failed")
          <+> " for transport '"
          <+> transport
          <+> "'.")
      ∷ [];
  live_evidence = evidence;
}

abbrev pub refused : (offenders : List String) (transport : String) → Summary
refused offenders transport = record {
  transport = transport;
  offenders = offenders;
  live_execution = true;
  notes =
      wiring_note ∷ "Live browser smoke skipped due to protected input validation failures." ∷ [];
  live_evidence = empty;
}

unfoldable pub summarize :
    Runtime
    → Environ
    → Files
    → (repo_root : String) → Mode
    → (transport_option : String) → Result Summary
unfolding validate_browser_smoke_wiring resolve_transport validate_live_inputs
    run_live_transport_smoke
summarize rt env files root static_mode transport_option = ok (record {
  transport = "static";
  offenders = validate_browser_smoke_wiring files root;
  live_execution = false;
  notes = wiring_note ∷ [];
  live_evidence = empty;
})
summarize rt env files root live_mode transport_option =
    let offenders = validate_browser_smoke_wiring files root in
    let transport = resolve_transport env (non_blank transport_option) in
    let live_offenders = validate_live_inputs rt.host env (some transport) in
    if is_nil live_offenders
    then (do
      report ← run_live_transport_smoke rt env transport
      ok (executed offenders transport report))
    else ok (refused (offenders ++ live_offenders) transport)

abbrev pub exit_code : Summary → ℕ
exit_code summary = if is_nil summary.offenders then 0 else 1

unfoldable pub main :
    Runtime → Environ → Files → (repo_root : String) → Mode → (transport_option : String) → Result ℕ
unfolding summarize
main rt env files root mode transport_option = do
  summary ← summarize rt env files root mode transport_option
  ok (exit_code summary)
