-- ===== src/Tools/PublicSafe/Guarded.antt =====
-- What the workflows are when their policies find no offender.
use agentic_identity_lab.Prelude.{◌≡◌, String, true, false, List, All, contains, is_in, join, lower}
use agentic_identity_lab.Host.{Host}
use agentic_identity_lab.Tools.Shell.{split_lines}
use agentic_identity_lab.Tools.Harness.Wiring.{Files, read_text}
use agentic_identity_lab.Tools.PublicSafe.{Regex, is_upload, is_public_workflow}
use agentic_identity_lab.Tools.PublicSafe.Laws.{IsBlock}
use agentic_identity_lab.Tools.PublicSafe.Scans.{unsafe_artifact_patterns}
use agentic_identity_lab.Tools.PublicSafe.Policies.{forbidden_public_patterns}

-- No pattern of the list is found in the text.
abbrev IsFree : Regex → String → List String → Type 0
IsFree regex text patterns = All (λ pattern. regex.search pattern text ≡ false) patterns

-- A block of lines that keeps its artifact for a limited time and names nothing unsafe.
pub record IsHygienic (regex : Regex) (block : List String) : Type 0 where
  pub retention_set : is_in "retention-days:" (lower (join "\n" block)) ≡ true
  pub nothing_unsafe : IsFree regex (lower (join "\n" block)) unsafe_artifact_patterns

-- Each line that uploads an artifact stands in a block of the text that is hygienic.
abbrev pub IsKept : Regex → (text : String) → Type 0
IsKept regex text =
    (line : String)
    → contains line (split_lines text) ≡ true
    → is_upload regex line ≡ true
    → (block : List String) × IsBlock regex (split_lines text) block
      × (contains line block ≡ true)
      × IsHygienic regex block

-- A workflow that runs for everyone does nothing that only a protected run may do.
abbrev pub IsPublicSafe : Regex → (text : String) → Type 0
IsPublicSafe regex text =
    is_public_workflow regex text ≡ true → IsFree regex text forbidden_public_patterns

pub record IsGuarded (regex : Regex) (files : Files) (workflows m8_workflows : List String)
    : Type 0 where
  pub public_safe : All (λ workflow. IsPublicSafe regex (read_text files workflow)) workflows
  pub uploads_kept : All (λ workflow. IsKept regex (read_text files workflow)) m8_workflows
