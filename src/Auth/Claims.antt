-- ===== src/Auth/Claims.antt =====
-- claims.py: only allowlisted claims leave the library, trimmed and bounded.
pub mod Keys
use Prim.Native.String.{count}
use agentic_identity_lab.Prelude.{
  ℕ, zero, suc, String, Bool, true, false, Option, none, some, List, [], ◌∷◌, map, ltb, contains,
  keep, strip, take_chars, ◌<+>◌, if◌then◌else◌,
}
use agentic_identity_lab.Result.{Exception, attribute_error, Result, ok, raise}
use agentic_identity_lab.Value.{
  Value, null, bool, int, float, str, list, dict, Items, nil, cons, Dict, empty, entry, to_list,
  lookup, truthy, or_value, get,
}
use agentic_identity_lab.Host.{Host, to_text}

abbrev pub default_safe_claim_keys : List String
default_safe_claim_keys =
    "aud" ∷ "azp" ∷ "appid" ∷ "exp" ∷ "iat" ∷ "iss" ∷ "nbf" ∷ "roles" ∷ "scp" ∷ "tid" ∷ "ver"
    ∷ "xms_act_fct" ∷ []

-- What reading the allowlist file gives: no file, an OSError or a JSON error, or a parsed payload.
pub data AllowlistFile : Type 0 where
  missing unreadable : AllowlistFile
  parsed : Value → AllowlistFile

abbrev pub is_null : Value → Bool
is_null null = true
is_null v = false

abbrev allowlist_of : Host → Option Value → Result (List String)
allowlist_of host (some (list items)) = ok (map (to_text host) (keep truthy (to_list items)))
allowlist_of host none = ok []
allowlist_of host (some v) = ok default_safe_claim_keys

-- A payload that is no dict has no `get`: its AttributeError is not caught.
unfoldable pub load_safe_claims_allowlist : Host → AllowlistFile → Result (List String)
load_safe_claims_allowlist host missing = ok default_safe_claim_keys
load_safe_claims_allowlist host unreadable = ok default_safe_claim_keys
load_safe_claims_allowlist host (parsed (dict payload)) =
    allowlist_of host (lookup "allowlist" payload)
load_safe_claims_allowlist host (parsed v) = raise attribute_error

-- value.strip(), cut at `limit` characters and marked
unfoldable pub bounded : ℕ → String → String
bounded limit s = if ltb limit (count s) then take_chars limit s <+> "…" else s

-- A None among a dict's sanitized values is dropped.
abbrev pub entry_unless_null : String → Value → Dict → Dict
entry_unless_null k v rest = if is_null v then rest else entry k v rest

abbrev bounded_dict : Host → Dict → Value
bounded_dict host clean =
    let serialised = host.dumps clean in
    if ltb 512 (count serialised) then str (take_chars 512 serialised <+> "…") else dict clean

unfoldable mutual
  unfolding bounded

  pub sanitize_value : Host → Value → Value
  sanitize_value host null = null
  sanitize_value host (bool b) = bool b
  sanitize_value host (int n) = int n
  sanitize_value host (float f) = float f
  sanitize_value host (str s) = str (bounded 256 (strip s))
  sanitize_value host (list items) = list (sanitize_items host 20 items)
  sanitize_value host (dict d) = bounded_dict host (sanitize_entries host d)

  -- the items of list(value)[:n]
  pub sanitize_items : Host → ℕ → Items → Items
  sanitize_items host n nil = nil
  sanitize_items host zero (cons v vs) = nil
  sanitize_items host (suc n) (cons v vs) = cons (sanitize_value host v) (sanitize_items host n vs)

  pub sanitize_entries : Host → Dict → Dict
  sanitize_entries host empty = empty
  sanitize_entries host (entry k v d) =
      entry_unless_null k (sanitize_value host v) (sanitize_entries host d)

-- the loop over claims.items()
unfoldable pub sanitize_mapping : Host → Dict → Dict
sanitize_mapping host empty = empty
sanitize_mapping host (entry k v d) =
    let rest = sanitize_mapping host d in
    if contains k host.safe_claim_keys
    then entry_unless_null k (sanitize_value host v) rest
    else rest

unfoldable pub sanitize_claims : Host → Option Dict → Dict
unfolding sanitize_mapping
sanitize_claims host none = empty
sanitize_claims host (some claims) = sanitize_mapping host claims
