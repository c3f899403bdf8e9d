-- ===== src/Tools/AgentBrowser/Token.antt =====
-- m9_agent_browser_command.py: the scopes to ask for, and the access token that the Azure CLI gives.
use agentic_identity_lab.Prelude.{
  String, Bool, not, ◌&&◌, ◌||◌, Option, none, some, List, [], ◌∷◌, ◌++◌, eqb, is_blank, is_space,
  is_in, keep, map, strip, partition, drop_chars, starts_with, dedupe, or_default, ◌==◌, ◌<+>◌,
  if◌then◌else◌, pos,
}
use Prim.Native.Char.{Char, code}
use agentic_identity_lab.Result.{
  Result, ok, raise, value_error, runtime_error, attribute_error, ◌>>=◌,
}
use agentic_identity_lab.Value.{Value, str, dict, Dict, lookup}
use agentic_identity_lab.Host.{Host, to_text}
use agentic_identity_lab.Tools.Shell.{Completed}
use agentic_identity_lab.Tools.Harness.Artifact.{eqb_ℤ}
use agentic_identity_lab.Tools.Harness.Inputs.{text_or}

abbrev pub Az : Type 0
Az = List String → Completed

-- s.endswith(suffix)
unfoldable pub ends_with : (s suffix : String) → Bool
ends_with String.[] suffix = is_blank suffix
ends_with (String.◌∷◌ c s) suffix = String.◌∷◌ c s == suffix || ends_with s suffix

-- s.split("://", 1), of a text that has it
unfoldable pub split_scheme : String → String × String
split_scheme String.[] = ("", "")
split_scheme (String.◌∷◌ c s) =
    let (scheme, remainder) = split_scheme s in
    if starts_with (String.◌∷◌ c s) "://"
    then ("", drop_chars 3 (String.◌∷◌ c s))
    else (String.◌∷◌ c scheme, remainder)

-- s.rsplit("/", 1)[0]
unfoldable pub before_last_slash : String → String
unfolding is_in
before_last_slash String.[] = ""
before_last_slash (String.◌∷◌ c s) =
    let before = before_last_slash s in
    if eqb (code c) b'/' && not (is_in "/" s) then "" else String.◌∷◌ c before

unfoldable pub audience_of : (scope : String) → String
unfolding split_scheme before_last_slash is_in partition
audience_of scope =
    let (scheme, remainder) = split_scheme scope in
    if is_in "://" scope
    then scheme <+> "://" <+> (partition b'/' remainder).0
    else if is_in "/" scope
    then before_last_slash scope
    else scope

unfoldable pub scope_candidates : (scope : String) → List String
unfolding ends_with audience_of strip dedupe keep
scope_candidates scope =
    let normalized = strip scope in
    dedupe (
      keep (λ candidate. not (is_blank candidate))
        (normalized
          ∷ (if ends_with normalized "/.default"
              then []
              else (audience_of normalized <+> "/.default") ∷ [])))

-- the characters of [\s,;]
unfoldable pub is_separator : Char → Bool
unfolding is_space
is_separator ch = is_space ch || eqb (code ch) b',' || eqb (code ch) b';'

-- re.split at runs of separators, without the blank parts; `cur` is the part so far
unfoldable pub parts_from : (cur : String) → String → List String
unfolding is_separator
parts_from cur String.[] = keep (λ part. not (is_blank part)) (cur ∷ [])
parts_from cur (String.◌∷◌ c s) =
    let next = parts_from "" s in
    let longer = parts_from (cur <+> String.◌∷◌ c "") s in
    if is_separator c then (if is_blank cur then next else cur ∷ next) else longer

unfoldable pub split_scopes : (raw_scope_value : String) → List String
unfolding parts_from strip keep
split_scopes raw = keep (λ value. not (is_blank value)) (map strip (parts_from "" (strip raw)))

abbrev pub token_field : Host → Dict → String
token_field host payload = strip (to_text host (or_default (lookup "accessToken" payload) (str "")))

-- The token of the CLI's answer, blank where it has none.
abbrev pub token_of : Host → Option Value → Result String
token_of host none = raise (value_error "JSONDecodeError")
token_of host (some (dict payload)) = ok (token_field host payload)
token_of host (some v) = raise attribute_error

abbrev pub az_command : (candidate : String) → List String
az_command candidate =
    "az" ∷ "account" ∷ "get-access-token" ∷ "--scope" ∷ candidate ∷ "-o" ∷ "json" ∷ []

-- A call that fails gives no token.
unfoldable pub ask_for_token :
    Host → (loads : String → Option Value) → Az → (candidate : String) → Result String
unfolding to_text strip lookup
ask_for_token host loads az candidate =
    let done = az (az_command candidate) in
    if eqb_ℤ done.returncode (pos 0)
    then token_of host (loads (text_or done.stdout "{}"))
    else ok ""

-- the inner and the outer loop: the first token that is not blank
unfoldable pub first_token :
    Host → (loads : String → Option Value) → Az → (candidates : List String) → Result String
unfolding ask_for_token
first_token host loads az [] =
    raise (runtime_error "Unable to acquire access token for smoke scope.")
first_token host loads az (candidate ∷ rest) =
    let later = first_token host loads az rest in
    ask_for_token host loads az candidate >>= λ token. if is_blank token then later else ok token

unfoldable pub all_candidates : (scopes : List String) → List String
unfolding scope_candidates
all_candidates [] = []
all_candidates (scope ∷ rest) = scope_candidates scope ++ all_candidates rest

unfoldable pub get_access_token :
    Host → (loads : String → Option Value) → Az → (scope_value : String) → Result String
unfolding first_token all_candidates split_scopes
get_access_token host loads az scope_value =
    first_token host loads az (all_candidates (split_scopes scope_value))
