-- ===== src/Tools/PublicSafe/Scans.antt =====
-- tools/ci/public_safe_validation.py: the scans of a workflow's lines and of its uploads, of identifiers,
-- and of documents and modules.
use agentic_identity_lab.Prelude.{
  ℕ, ◌+◌, String, Bool, not, ◌||◌, Option, none, some, List, [], ◌∷◌, ◌++◌, is_none, is_in,
  contains, keep, map, lower, ◌<+>◌, if◌then◌else◌, pos,
}
use agentic_identity_lab.Value.{int}
use agentic_identity_lab.Host.{Host}
use agentic_identity_lab.Tools.Shell.{offender_if, split_lines, concat}
use agentic_identity_lab.Tools.Harness.Wiring.{Files, read_text}
use agentic_identity_lab.Tools.PublicSafe.{Regex, is_placeholder_line, upload_artifact_step_blocks}

abbrev pub unsafe_artifact_patterns : List String
unsafe_artifact_patterns =
    "\\.har(\\b|$)" ∷ "\\.trace(\\b|$)" ∷ "\\.log(\\b|$)"
    ∷ "\\b(jwt|cookie|cookies|secret|screenshot|video|storage-state|storage_state|auth-state|auth_state)\\b"
    ∷ []

-- [message of pattern for pattern in patterns if pattern.search(text)]
unfoldable pub matched : Regex → (message : String) → (text : String) → List String → List String
unfolding keep
matched regex message text patterns =
    map (λ pattern. message <+> pattern <+> "'")
      (keep (λ pattern. regex.search pattern text) patterns)

unfoldable pub block_offenders : Regex → (workflow block : String) → List String
unfolding matched lower is_in
block_offenders regex workflow block =
    offender_if (not (is_in "retention-days:" (lower block)))
      (workflow <+> ": artifact upload must set retention-days for hygiene")
    ++ matched regex (workflow <+> ": artifact upload references unsafe pattern '") (lower block)
        unsafe_artifact_patterns

unfoldable pub upload_offenders : Regex → (workflow text : String) → List String
unfolding block_offenders upload_artifact_step_blocks
upload_offenders regex workflow text =
    concat (map (block_offenders regex workflow) (upload_artifact_step_blocks regex text))

-- {path}:{line_number}
abbrev place : Host → (path : String) → (line_number : ℕ) → String
place host path line_number = path <+> ":" <+> host.repr (int (pos line_number))

abbrev account_show : String
account_show = "\\baz\\s+account\\s+show\\b"

abbrev safe_output : String
safe_output = "\\baz\\s+account\\s+show\\b(?:(?!\\n).)*(?:--output|-o)\\s+none\\b"

abbrev safe_query : String
safe_query =
    "\\baz\\s+account\\s+show\\b(?:(?!\\n).)*(?:--query)\\s+(?:(?!\\n).)*(?:tenantid|subscriptionid|id|name|user)"

unfoldable pub account_offenders : Host → Regex → (workflow : String) → ℕ → String → List String
account_offenders host regex workflow n line =
    if not (regex.search account_show line)
    then []
    else if not (regex.search safe_output line)
    then (place host workflow n <+> ": az account show must not emit account metadata to logs") ∷ []
    else offender_if (regex.search safe_query line)
        (place host workflow n <+> ": az account show query may expose account metadata")

-- A match object is true, so the second pattern is tried only if the first is not found.
unfoldable pub live_endpoint : Regex → String → Option String
live_endpoint regex line =
    first
      (regex.first_group "\\$(?:\\{)?([A-Z][A-Z0-9_]*(?:URL|URI|ENDPOINT|HOST)[A-Z0-9_]*)\\}?" line)
  where
    first : Option String → Option String
    first (some var_name) = some var_name
    first none =
        regex.first_group
          "\\$\\{\\{\\s*(?:vars|env)\\.([A-Z][A-Z0-9_]*(?:URL|URI|ENDPOINT|HOST)[A-Z0-9_]*)\\s*\\}\\}"
          line

abbrev endpoint_report : (place : String) → Option String → List String
endpoint_report at none = []
endpoint_report at (some var_name) =
    (at <+> ": workflow output must not print live endpoint variable '" <+> var_name <+> "'") ∷ []

unfoldable pub endpoint_offenders : Host → Regex → (workflow : String) → ℕ → String → List String
unfolding live_endpoint
endpoint_offenders host regex workflow n line =
    if regex.search "\\b(?:echo|printf|cat)\\b" line
    then endpoint_report (place host workflow n) (live_endpoint regex line)
    else []

-- for line_number, line in enumerate(lines, start=n)
abbrev pub numbered : (ℕ → String → List String) → ℕ → List String → List String
numbered scan n [] = []
numbered scan n (line ∷ rest) = scan n line ++ numbered scan (n + 1) rest

unfoldable pub scan_workflow_runtime_exposure :
    Host → Regex → (workflow text : String) → List String
unfolding account_offenders endpoint_offenders split_lines
scan_workflow_runtime_exposure host regex workflow text =
    numbered
      (λ n line.
        account_offenders host regex workflow n line
        ++ endpoint_offenders host regex workflow n line)
      1 (split_lines text)

abbrev pub sensitive_literal_patterns : List String
sensitive_literal_patterns =
    "authorization\\s*:\\s*bearer\\s+[a-z0-9_\\-\\.=]+" ∷ "\\bbearer\\s+[a-z0-9_\\-\\.=]{20,}"
    ∷ "\\beyj[a-z0-9_-]{10,}\\.[a-z0-9_-]{10,}\\.[a-z0-9_-]{10,}\\b"
    ∷ "\\bgh[pousr]_[a-z0-9]{20,}\\b" ∷ []

abbrev guid_pattern : String
guid_pattern = "\\b([0-9a-f]{8}-[0-9a-f]{4}-[1-5][0-9a-f]{3}-[89ab][0-9a-f]{3}-[0-9a-f]{12})\\b"

abbrev pub allowed_guids : List String
allowed_guids = "00000000-0000-0000-0000-000000000000" ∷ []

unfoldable pub is_allowed_guid : (line guid : String) → Bool
unfolding contains lower is_placeholder_line
is_allowed_guid line guid = contains (lower guid) allowed_guids || is_placeholder_line line

unfoldable pub identifier_offenders : Host → Regex → (path : String) → ℕ → String → List String
unfolding keep is_allowed_guid matched
identifier_offenders host regex path n line =
    map (λ guid. place host path n <+> ": non-placeholder GUID " <+> guid)
      (keep (λ guid. not (is_allowed_guid line guid)) (regex.find_all guid_pattern line))
    ++ matched regex (place host path n <+> ": forbidden secret/token-like literal '") line
        sensitive_literal_patterns

-- One file of the scan; which files it looks at is left to the file system.
unfoldable pub scan_identifiers : Host → Regex → (path text : String) → List String
unfolding identifier_offenders split_lines
scan_identifiers host regex path text =
    numbered (identifier_offenders host regex path) 1 (split_lines text)

abbrev pub required_rbac_doc_phrases : List String
required_rbac_doc_phrases =
    "deploy and smoke identities must be separate"
    ∷ "lifecycle identity is stop/start/scale focused"
    ∷ "must not perform broad deploy/apply/destroy" ∷ "scoped to the lab resource group" ∷ []

unfoldable pub missing_docs : Files → List String → List String
unfolding keep
missing_docs files docs =
    map (λ doc. doc <+> ": required RBAC scope documentation file is missing")
      (keep (λ doc. is_none (files doc)) docs)

unfoldable pub combined_docs : Files → List String → String
unfolding lower
combined_docs files [] = ""
combined_docs files (doc ∷ rest) =
    let later = combined_docs files rest in
    if is_none (files doc) then later else "\n" <+> lower (read_text files doc) <+> later

unfoldable pub scan_rbac_scope_signals : Files → (rbac_docs : List String) → List String
unfolding missing_docs combined_docs keep is_in
scan_rbac_scope_signals files docs =
    missing_docs files docs
    ++ map (λ phrase. "RBAC documentation missing required phrase '" <+> phrase <+> "'")
        (keep (λ phrase. not (is_in phrase (combined_docs files docs))) required_rbac_doc_phrases)
