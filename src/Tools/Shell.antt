-- ===== src/Tools/Shell.antt =====
-- What the tools share: a command's outcome, lines of text, and tests of texts for tokens.
pub mod Laws
use agentic_identity_lab.Prelude.{
  String, Bool, true, false, not, ◌&&◌, ◌||◌, List, [], ◌∷◌, ◌++◌, eqb, leb, keep, map, any,
  is_blank, is_in, strip, ◌<+>◌, if◌then◌else◌, ℤ,
}
use Prim.Native.Char.{Char, code}

-- subprocess.CompletedProcess
pub record Completed : Type 0 where
  pub returncode : ℤ
  pub stdout : String
  pub stderr : String

-- the line breaks of str.splitlines
unfoldable pub is_line_break : Char → Bool
is_line_break ch =
    let c = code ch in
    leb 10 c && leb c 13 || leb 28 c && leb c 30 || eqb c 133 || eqb c 8232 || eqb c 8233

abbrev last_line : String → List String
last_line cur = if is_blank cur then [] else cur ∷ []

-- str.splitlines: `cur` is the line so far, and a line feed after a carriage return ends no line
split_lines_from : (after_return : Bool) (cur : String) → String → List String
split_lines_from after_return cur String.[] = last_line cur
split_lines_from after_return cur (String.◌∷◌ c s) =
    let same = split_lines_from false cur s in
    let next = cur ∷ split_lines_from (eqb (code c) 13) "" s in
    let longer = split_lines_from false (cur <+> String.◌∷◌ c "") s in
    if after_return && eqb (code c) 10 then same else if is_line_break c then next else longer

unfoldable pub split_lines : String → List String
unfolding split_lines_from is_line_break
split_lines s = split_lines_from false "" s

-- {line.strip() for line in text.splitlines() if line.strip()}
unfoldable pub stripped_lines : String → List String
unfolding split_lines keep strip
stripped_lines s = keep (λ line. not (is_blank line)) (map strip (split_lines s))

-- any(hint in s for hint in hints)
unfoldable pub has_any : List String → String → Bool
unfolding any is_in
has_any hints s = any (λ hint. is_in hint s) hints

abbrev pub offender_if : Bool → String → List String
offender_if true offender = offender ∷ []
offender_if false offender = []

-- Lists one after the other, as a caller's `extend` builds them up.
abbrev pub concat {ℓ} : {A : Type ℓ} → List (List A) → List A
concat [] = []
concat (xs ∷ rest) = xs ++ concat rest
