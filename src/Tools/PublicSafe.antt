-- ===== src/Tools/PublicSafe.antt =====
-- tools/ci/public_safe_validation.py, its scans of a text line by line. What a regular expression
-- matches is a parameter.
pub mod Laws
pub mod Scans
pub mod Policies
pub mod Gate
pub mod Contract
pub mod Guarded
use agentic_identity_lab.Prelude.{
  ℕ, zero, suc, ◌-◌, String, Bool, true, false, not, ◌&&◌, ◌||◌, Option, none, some, List, [], ◌∷◌,
  ◌++◌, eqb, ltb, is_blank, is_none, is_in, contains, join, keep, map, lower, strip, lstrip,
  is_space, starts_with, ◌<+>◌, if◌then◌else◌, pos, or_default,
}
use Prim.Native.Char.{Char, code}
use agentic_identity_lab.Value.{int}
use agentic_identity_lab.Host.{Host}
use agentic_identity_lab.Tools.Shell.{offender_if, has_any, split_lines}
use agentic_identity_lab.Tools.Harness.Wiring.{Files, read_text}

-- Python's re: whether a pattern is found in a text, case ignored; the first group of its first match,
-- case kept; and the groups of all its matches, case ignored.
pub record Regex : Type 0 where
  pub search : (pattern text : String) → Bool
  pub first_group : (pattern text : String) → Option String
  pub find_all : (pattern text : String) → List String

unfoldable pub is_public_workflow : Regex → (workflow_text : String) → Bool
unfolding is_in
is_public_workflow regex workflow_text =
    is_in "pull_request:" workflow_text || regex.search "(^|\\n)\\s*push\\s*:" workflow_text

abbrev pub placeholder_hints : List String
placeholder_hints =
    "placeholder" ∷ "{tenant-id}" ∷ "{subscription-id}" ∷ "{client-id}"
    ∷ "<tenant-guid-placeholder>" ∷ "<subscription-guid-placeholder>" ∷ "<client-id-placeholder>"
    ∷ []

unfoldable pub is_placeholder_line : String → Bool
unfolding has_any lower
is_placeholder_line line = has_any placeholder_hints (lower line)

-- len(line) - len(line.lstrip())
unfoldable pub indent : String → ℕ
unfolding is_space
indent String.[] = 0
indent (String.◌∷◌ c s) = let rest = indent s in if is_space c then suc rest else 0

-- \s+name: at the start
unfoldable pub is_named : String → Bool
unfolding is_space lstrip
is_named String.[] = false
is_named (String.◌∷◌ c s) = is_space c && starts_with (lstrip s) "name:"

-- ^\s{n}-\s+name: at the start
unfoldable pub starts_step : (step_indent : ℕ) → String → Bool
unfolding is_space is_named
starts_step n String.[] = false
starts_step zero (String.◌∷◌ c s) = eqb (code c) b'-' && is_named s
starts_step (suc n) (String.◌∷◌ c s) = let rest = starts_step n s in is_space c && rest

unfoldable pub is_upload : Regex → String → Bool
is_upload regex line = regex.search "uses:\\s*actions/upload-artifact@" line

abbrev pub step_indent : String → ℕ
step_indent line = indent line - 2

unfoldable pub ends_block : (step_indent : ℕ) → (candidate : String) → Bool
unfolding strip indent starts_step
ends_block n candidate =
    not (is_blank (strip candidate)) && ltb (indent candidate) n || starts_step n candidate

-- The inner loop: the lines that follow in the block.
unfoldable pub block_lines : (step_indent : ℕ) → List String → List String
unfolding ends_block
block_lines n [] = []
block_lines n (candidate ∷ rest) =
    let later = block_lines n rest in if ends_block n candidate then [] else candidate ∷ later

abbrev pub stays : (inside : Option ℕ) → String → Bool
stays none line = false
stays (some n) line = not (ends_block n line)

-- The outer loop, line by line: `inside` is the indentation of the step whose block is being read.
unfoldable pub blocks_from : Regex → (inside : Option ℕ) → List String → List (List String)
unfolding block_lines ends_block is_upload indent
blocks_from regex inside [] = []
blocks_from regex inside (line ∷ rest) =
    let skipped = blocks_from regex inside rest in
    let outside = blocks_from regex none rest in
    let opened =
      (line ∷ block_lines (step_indent line) rest)
      ∷ blocks_from regex (some (step_indent line)) rest in
    if stays inside line then skipped else if is_upload regex line then opened else outside

unfoldable pub upload_artifact_step_blocks : Regex → (workflow_text : String) → List String
unfolding blocks_from split_lines
upload_artifact_step_blocks regex workflow_text =
    map (join "\n") (blocks_from regex none (split_lines workflow_text))
