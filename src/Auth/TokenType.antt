-- ===== src/Auth/TokenType.antt =====
-- token_type.py
use agentic_identity_lab.Prelude.{
  String, Bool, false, not, Option, none, some, List, [], ◌∷◌, any, is_blank, strip, lower, split,
  ◌==◌, if◌then◌else◌,
}
use agentic_identity_lab.Value.{Value, str, list, Dict, to_list, truthy, or_value, get, dict_truthy}

-- any(item for item in texts)
abbrev pub any_text : List String → Bool
any_text = any (λ s. not (is_blank s))

unfoldable pub has_scopes : Value → Bool
has_scopes (str s) = any_text (split s)
has_scopes (list items) = any truthy (to_list items)
has_scopes v = false

unfoldable pub has_roles : Value → Bool
has_roles (str s) = any_text (split s)
has_roles (list items) = any truthy (to_list items)
has_roles v = false

-- claims.get("scp") or claims.get("scope")
abbrev pub scope_claim : Dict → Value
scope_claim claims = or_value (get "scp" claims) (get "scope" claims)

abbrev classify_present : Dict → String
classify_present claims =
    if has_scopes (scope_claim claims)
    then "delegated"
    else if has_roles (get "roles" claims)
    then "app-only"
    else "unknown"

unfoldable pub classify_claims_token_type : Option Dict → String
classify_claims_token_type none = "none"
classify_claims_token_type (some claims) =
    if dict_truthy claims then classify_present claims else "none"

abbrev scheme_type : String → String
scheme_type scheme =
    if scheme == "bearer" then "bearer" else if is_blank scheme then "unknown" else scheme

abbrev classify_parts : List String → String
classify_parts [] = "none"
classify_parts (part ∷ rest) = scheme_type (lower (strip part))

unfoldable pub classify_token_type : Option String → String
classify_token_type none = "none"
classify_token_type (some authorization) =
    if is_blank authorization then "none" else classify_parts (split authorization)
