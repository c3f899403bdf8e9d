-- ===== src/Tests/Bootstrap.antt =====
-- The bootstrap's merges and its apps at concrete inputs.
use agentic_identity_lab.Prelude.{
  ◌≡◌, refl, ◌↔◌, ◌⊎◌, String, true, false, some, map, List, [], ◌∷◌, ◌==◌, is_blank, pos, strip,
  contains, sorted, dedupe, keep, if◌then◌else◌,
}
use agentic_identity_lab.Result.{ok}
use agentic_identity_lab.Value.{
  bool, str, list, dict, nil, cons, Dict, empty, entry, lookup, set_item, to_list,
}
use agentic_identity_lab.Host.{to_text}
use agentic_identity_lab.Tools.Bootstrap.Merge.{
  Names, merge_preauthorized, update_first, update_permissions, merged_permissions, stripped_texts,
  dicts_of, list_field, iterate, stripped_text, text_field, merge_scopes, merged_scope, find_scope,
  set_default,
}
use agentic_identity_lab.Tools.Bootstrap.Merge.Grants.{
  IsGranted, WasGranted, merge_preauthorized_iff,
}
use agentic_identity_lab.Tools.Bootstrap.Merge.Scopes.{AreEnabled, merge_scopes-AreEnabled}
use agentic_identity_lab.Tools.Bootstrap.Apps.{AppSpec, Cli, run_az_json, matches}
use agentic_identity_lab.Tests.Unary

abbrev client : Dict
client =
    entry "appId" (str "smoke") (entry "delegatedPermissionIds" (list (cons (str "p-2") nil)) empty)

abbrev merged : Dict
merged =
    entry "appId" (str "smoke")
      (entry "delegatedPermissionIds" (list (cons (str "p-1") (cons (str "p-2") nil))) empty)

permission_added :
    merge_preauthorized Unary.host (dict client ∷ []) "smoke" ("p-1" ∷ []) ≡ ok (merged ∷ [])
unfolding merge_preauthorized update_first update_permissions merged_permissions stripped_texts
    dicts_of list_field iterate stripped_text text_field to_text lookup set_item to_list strip
    sorted dedupe keep
permission_added = refl

plain : strip "smoke" ≡ "smoke"
unfolding strip
plain = refl

merge_preauthorized_iff_example : IsGranted Unary.host "smoke" (merged ∷ []) "p-1" ↔ (
    (contains "p-1" ("p-1" ∷ []) ≡ true)
    ⊎ WasGranted Unary.host "smoke" (dicts_of (dict client ∷ [])) "p-1")
merge_preauthorized_iff_example =
    merge_preauthorized_iff Unary.host (dict client ∷ []) "smoke" ("p-1" ∷ []) (merged ∷ []) "p-1"
      plain permission_added

abbrev names : Names
names = record {
  host = Unary.host;
  stable_scope_id = λ display_name scope_value. "id-1";
  title_of = λ scope_value. scope_value;
}

-- The app has a scope of its own, which is switched off.
abbrev own_scope : Dict
own_scope =
    entry "id" (str "own") (entry "value" (str "mcp.access") (entry "isEnabled" (bool false) empty))

access_plain : strip "mcp.access" ≡ "mcp.access"
unfolding strip
access_plain = refl

access_given : is_blank "mcp.access" ≡ false
access_given = refl

id_kept :
    map (lookup "id") (merge_scopes names "bff" (dict own_scope ∷ []) ("mcp.access" ∷ []))
    ≡ some (str "own") ∷ []
unfolding merge_scopes merged_scope find_scope set_default stripped_text text_field to_text dicts_of
    lookup set_item strip
id_kept = refl

merge_scopes-AreEnabled_example :
    AreEnabled Unary.host
      (dicts_of (dict own_scope ∷ []))
      ("mcp.access" ∷ [])
      (merge_scopes names "bff" (dict own_scope ∷ []) ("mcp.access" ∷ []))
merge_scopes-AreEnabled_example =
    merge_scopes-AreEnabled names "bff" (dict own_scope ∷ []) ("mcp.access" ∷ [])
      ((access_plain, access_given), tt)

abbrev app : Dict
app = entry "appId" (str "a-1") (entry "displayName" (str "lab-bff") empty)

abbrev spec : AppSpec
spec = record { key = "bff"; display_name = "lab-bff"; scopes = []; public_client = false }

-- The world is the list of the calls; a listing prints "list", and all else one app.
abbrev answer : List String → String
answer command = if contains "list" command then "list" else "app"

abbrev cli : Cli (List (List String))
cli = record {
  host = Unary.host;
  loads = λ s. some (if s == "list" then list (cons (dict app) nil) else dict app);
  call = λ command calls.
      (record { returncode = pos 0; stdout = answer command; stderr = "" }, command ∷ calls);
}

abbrev list_command : List String
list_command =
    "az" ∷ "ad" ∷ "app" ∷ "list" ∷ "--display-name" ∷ "lab-bff" ∷ "--output" ∷ "json"
    ∷ "--only-show-errors" ∷ []

abbrev show_command : List String
show_command =
    "az" ∷ "ad" ∷ "app" ∷ "show" ∷ "--id" ∷ "a-1" ∷ "--output" ∷ "json" ∷ "--only-show-errors" ∷ []

app_listed :
    run_az_json cli ("ad" ∷ "app" ∷ "list" ∷ "--display-name" ∷ spec.display_name ∷ []) []
    ≡ (ok (list (cons (dict app) nil)), list_command ∷ [])
unfolding run_az_json contains
app_listed = refl

one_match : matches spec.display_name (list (cons (dict app) nil)) ≡ app ∷ []
unfolding keep to_list dicts_of lookup
one_match = refl

id_given : is_blank (stripped_text Unary.host "appId" app) ≡ false
unfolding stripped_text text_field to_text lookup strip
id_given = refl

app_shown :
    run_az_json cli
      ("ad" ∷ "app" ∷ "show" ∷ "--id" ∷ stripped_text Unary.host "appId" app ∷ [])
      (list_command ∷ [])
    ≡ (ok (dict app), show_command ∷ list_command ∷ [])
unfolding run_az_json stripped_text text_field to_text lookup strip contains
app_shown = refl
