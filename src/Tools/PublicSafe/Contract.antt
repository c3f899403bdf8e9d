-- ===== src/Tools/PublicSafe/Contract.antt =====
-- tools/ci/public_safe_validation.py: the tokens of the telemetry contract. The design, the test and the
-- queries are files of the repository, and a design or a test that is missing reads as an empty text.
use agentic_identity_lab.Prelude.{
  String, not, List, [], ◌∷◌, ◌++◌, is_none, is_in, join, keep, lower, map, ◌<+>◌,
}
use agentic_identity_lab.Tools.Harness.Wiring.{Files, read_text}

abbrev pub telemetry_required_tokens : List String
telemetry_required_tokens =
    "requests" ∷ "dependencies" ∷ "traces" ∷ "logs" ∷ "authorization" ∷ "oid" ∷ "sub" ∷ "email"
    ∷ "upn" ∷ "preferred_username" ∷ "given_name" ∷ "family_name" ∷ "tracestate" ∷ []

-- The names, sorted.
abbrev pub kql_required_files : List String
kql_required_files = "m8-negative-leakage.kql" ∷ "m8-positive-chain.kql" ∷ []

abbrev pub kql_positive_required_tokens : List String
kql_positive_required_tokens =
    "requests" ∷ "apprequests" ∷ "dependencies" ∷ "appdependencies" ∷ "traces" ∷ "apptraces"
    ∷ "operation_id" ∷ []

abbrev pub kql_negative_required_tokens : List String
kql_negative_required_tokens =
    "requests" ∷ "dependencies" ∷ "traces" ∷ "apptraces" ∷ "containerappconsolelogs_cl"
    ∷ "authorization" ∷ "bearer " ∷ "eyj" ∷ "access_token" ∷ "refresh_token" ∷ "id_token"
    ∷ "\"oid\"" ∷ "\"sub\"" ∷ "\"email\"" ∷ "\"upn\"" ∷ "\"preferred_username\"" ∷ "\"name\""
    ∷ "\"given_name\"" ∷ "\"family_name\"" ∷ "tracestate" ∷ []

-- [message of token for token in tokens if token not in the file's lowered text]
unfoldable pub absent : Files → (path message : String) → List String → List String
unfolding keep is_in lower
absent files path message tokens =
    map (λ token. path <+> message <+> token <+> "'")
      (keep (λ token. not (is_in token (lower (read_text files path)))) tokens)

abbrev kql_offenders : Files → (kql_dir : String) → (missing : List String) → List String
kql_offenders files dir [] =
    absent files (dir <+> "/m8-positive-chain.kql") ": missing required token '"
      kql_positive_required_tokens
    ++ absent files (dir <+> "/m8-negative-leakage.kql") ": missing required token '"
        kql_negative_required_tokens
kql_offenders files dir (name ∷ names) =
    (dir <+> ": missing required KQL contract files " <+> join ", " (name ∷ names)) ∷ []

unfoldable pub scan_telemetry_contract :
    Files → (spec_design telemetry_test kql_dir : String) → List String
unfolding absent keep
scan_telemetry_contract files spec_design telemetry_test kql_dir =
    absent files spec_design ": missing telemetry contract token '" telemetry_required_tokens
    ++ (absent files telemetry_test ": missing telemetry static coverage for '"
          ("oid" ∷ "sub" ∷ "email" ∷ "upn" ∷ "preferred_username" ∷ [])
        ++ kql_offenders files kql_dir
            (keep (λ name. is_none (files (kql_dir <+> "/" <+> name))) kql_required_files))
