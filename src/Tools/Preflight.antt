-- ===== src/Tools/Preflight.antt =====
-- tools/ci/m9_live_preflight.py: that the variables of a live run are given with real values. The
-- GUID pattern is written out, character by character.
pub mod Laws
use agentic_identity_lab.Prelude.{
  ℕ, zero, suc, String, Bool, true, false, not, ◌&&◌, ◌||◌, List, [], ◌∷◌, ◌++◌, eqb, leb, is_blank,
  is_nil, lower, strip, starts_with, ◌<+>◌, if◌then◌else◌,
}
use Prim.Native.Char.{Char, code}
use agentic_identity_lab.Auth.Settings.{Environ}
use agentic_identity_lab.Tools.Shell.{has_any}
use agentic_identity_lab.Tools.Harness.Inputs.{get_env}
use agentic_identity_lab.Tools.AgentBrowser.Token.{ends_with}

abbrev pub placeholder_tokens : List String
placeholder_tokens =
    "placeholder" ∷ "<" ∷ ">" ∷ "{" ∷ "}" ∷ "00000000-0000-0000-0000-000000000000" ∷ "example"
    ∷ "changeme" ∷ "todo" ∷ []

unfoldable pub looks_placeholder : String → Bool
unfolding strip lower has_any ends_with
looks_placeholder value =
    let normalized = lower (strip value) in
    is_blank normalized
    || has_any placeholder_tokens normalized
    || starts_with normalized "api://{"
    || ends_with normalized "-placeholder"

-- [0-9a-f], in either case
abbrev is_hex : Char → Bool
is_hex ch =
    let c = code ch in
    leb b'0' c && leb c b'9' || leb b'a' c && leb c b'f' || leb b'A' c && leb c b'F'

abbrev is_dash : Char → Bool
is_dash ch = eqb (code ch) b'-'

abbrev is_version : Char → Bool
is_version ch = leb b'1' (code ch) && leb (code ch) b'5'

abbrev is_variant : Char → Bool
is_variant ch =
    let c = code ch in
    eqb c b'8' || eqb c b'9' || eqb c b'a' || eqb c b'b' || eqb c b'A' || eqb c b'B'

abbrev repeat : ℕ → (Char → Bool) → List (Char → Bool)
repeat zero p = []
repeat (suc n) p = p ∷ repeat n p

abbrev guid_pattern : List (Char → Bool)
guid_pattern =
    repeat 8 is_hex
    ++ (is_dash
        ∷ (repeat 4 is_hex
            ++ (is_dash
                ∷ is_version
                ∷ (repeat 3 is_hex
                    ++ (is_dash
                        ∷ is_variant
                        ∷ (repeat 3 is_hex ++ (is_dash ∷ repeat 12 is_hex)))))))

-- One character for each class, and no more.
unfoldable pub full_match : List (Char → Bool) → String → Bool
full_match [] s = is_blank s
full_match (p ∷ rest) String.[] = false
full_match (p ∷ rest) (String.◌∷◌ c s) = p c && full_match rest s

unfoldable pub is_guid : String → Bool
unfolding full_match
is_guid = full_match guid_pattern

unfoldable pub is_guid_var : String → Bool
unfolding ends_with
is_guid_var name = ends_with name "_ID"

unfoldable pub check_variable : Environ → (context name : String) → List String
unfolding get_env strip looks_placeholder is_guid_var is_guid
check_variable env context name =
    let value = get_env name "" env in
    if is_blank (strip value)
    then ("[" <+> context <+> "] missing required variable: " <+> name) ∷ []
    else if looks_placeholder value
    then ("[" <+> context <+> "] variable appears placeholder-like: " <+> name) ∷ []
    else if is_guid_var name && not (is_guid (strip value))
    then ("[" <+> context <+> "] expected GUID-like value for: " <+> name) ∷ []
    else []

unfoldable pub run_checks : Environ → (required : List String) → (context : String) → List String
unfolding check_variable
run_checks env [] context = []
run_checks env (name ∷ rest) context =
    check_variable env context name ++ run_checks env rest context

-- The exit code.
unfoldable pub main : Environ → (required : List String) → (context : String) → ℕ
unfolding run_checks
main env required context = if is_nil (run_checks env required context) then 0 else 1
