-- ===== src/Tools/Bootstrap/Merge.antt =====
-- m9_entra_app_bootstrap.py: the merges of scopes, of the access that an app requires, and of the
-- clients that an app authorizes beforehand, with what an app has of them already.
pub mod Laws
pub mod Grants
pub mod Scopes
use agentic_identity_lab.Prelude.{
  String, Bool, true, false, not, ◌&&◌, ◌||◌, Option, none, some, List, [], ◌∷◌, ◌++◌, is_blank,
  dedupe, keep, leb_text, map, sorted, strip, or_default, ◌==◌, ◌<+>◌, if◌then◌else◌,
}
use agentic_identity_lab.Result.{Result, ok, raise, type_error, ◌>>=◌}
use agentic_identity_lab.Value.{
  Value, null, bool, int, float, str, list, dict, Items, nil, cons, Dict, empty, entry, lookup,
  to_list, set_item, has_key,
}
use agentic_identity_lab.Host.{Host, to_text}

-- The values of the runtime that are not modelled: str(), uuid.uuid5 of an app's scope, str.title.
pub record Names : Type 0 where
  pub host : Host
  pub stable_scope_id : (display_name scope_value : String) → String
  pub title_of : (scope_value : String) → String

-- str(d.get(key, ""))
unfoldable pub text_field : Host → String → Dict → String
unfolding to_text lookup
text_field host key d = to_text host (or_default (lookup key d) (str ""))

-- str(d.get(key, "")).strip()
unfoldable pub stripped_text : Host → String → Dict → String
unfolding text_field strip
stripped_text host key d = strip (text_field host key d)

-- [dict(item) for item in items if isinstance(item, dict)]
unfoldable pub dicts_of : List Value → List Dict
dicts_of [] = []
dicts_of (dict d ∷ rest) = d ∷ dicts_of rest
dicts_of (v ∷ rest) = dicts_of rest

unfoldable pub new_scope : Names → (display_name scope_value scope_id : String) → Dict
new_scope names display_name scope_value scope_id = entry "id" (str scope_id) (
    entry "value" (str scope_value) (
      entry "type" (str "User") (
        entry "isEnabled" (bool true) (
          entry "adminConsentDisplayName"
            (str (display_name <+> " " <+> names.title_of scope_value))
            (entry "adminConsentDescription"
              (str
                ("Allow delegated access to " <+> display_name <+> " (" <+> scope_value <+> ")."))
              (entry "userConsentDisplayName" (str ("Access " <+> display_name)) (
                entry "userConsentDescription"
                  (str ("Allow the app to access " <+> display_name <+> " on your behalf."))
                  empty)))))))

-- by_value.get(value): the last of the scopes with that value
unfoldable pub find_scope : Host → (value : String) → List Dict → Option Dict
unfolding stripped_text
find_scope host value [] = none
find_scope host value (scope ∷ rest) =
    let later = find_scope host value rest in
    elim later [
      | some found ↦ some found
      | none ↦
          if stripped_text host "value" scope == value && not (is_blank value)
          then some scope
          else none
    ]

-- d.setdefault(key, text)
unfoldable pub set_default : String → String → Dict → Dict
unfolding lookup set_item
set_default key text d = if has_key key d then d else set_item key (str text) d

unfoldable pub merged_scope : Names → (display_name scope_value : String) → Option Dict → Dict
unfolding new_scope set_default set_item
merged_scope names display_name scope_value none =
    new_scope names display_name scope_value (names.stable_scope_id display_name scope_value)
merged_scope names display_name scope_value (some scope) =
    set_default "userConsentDescription" ("Allow delegated access to " <+> display_name <+> ".") (
      set_default "userConsentDisplayName" ("Access " <+> display_name) (
        set_default "adminConsentDescription"
          ("Allow delegated access to " <+> display_name <+> ".")
          (set_default "adminConsentDisplayName" (display_name <+> " " <+> scope_value) (
            set_default "type" "User" (
              set_default "id" (names.stable_scope_id display_name scope_value)
                (set_item "isEnabled" (bool true) scope))))))

unfoldable pub merge_scopes :
    Names → (display_name : String) → (existing : List Value) → (required : List String) → List Dict
unfolding merged_scope find_scope dicts_of
merge_scopes names display_name existing [] = []
merge_scopes names display_name existing (scope_value ∷ rest) =
    merged_scope names display_name scope_value
      (find_scope names.host scope_value (dicts_of existing))
    ∷ merge_scopes names display_name existing rest

-- The texts of a text's characters.
unfoldable pub characters : String → List Value
characters String.[] = []
characters (String.◌∷◌ c s) = str (String.◌∷◌ c "") ∷ characters s

unfoldable pub keys_of_dict : Dict → List Value
keys_of_dict empty = []
keys_of_dict (entry key v d) = str key ∷ keys_of_dict d

-- What a `for` loop over a value goes through.
unfoldable pub iterate : Value → Result (List Value)
unfolding to_list characters keys_of_dict
iterate (list items) = ok (to_list items)
iterate (str s) = ok (characters s)
iterate (dict d) = ok (keys_of_dict d)
iterate v = raise type_error

-- d.get(key, [])
unfoldable pub list_field : String → Dict → Value
unfolding lookup
list_field key d = or_default (lookup key d) (list nil)

-- Dicts by their text under "id", in insertion order.
abbrev pub ById : Type 0
ById = List (String × Dict)

unfoldable pub has_id : String → ById → Bool
has_id id [] = false
has_id id ((key, item) ∷ rest) = key == id || has_id id rest

-- by_id[id] = item
unfoldable pub put_id : String → Dict → ById → ById
put_id id item [] = (id, item) ∷ []
put_id id item ((key, old) ∷ rest) =
    let later = put_id id item rest in if key == id then (key, item) ∷ rest else (key, old) ∷ later

-- the dict comprehension over the existing access: `done` is the dict so far
unfoldable pub index_access : Host → (done : ById) → List Dict → ById
unfolding text_field strip put_id
index_access host done [] = done
index_access host done (item ∷ rest) =
    let id = text_field host "id" item in
    let kept = index_access host (put_id id item done) rest in
    let dropped = index_access host done rest in if is_blank (strip id) then dropped else kept

abbrev pub scope_access : (scope_id : String) → Dict
scope_access scope_id = entry "id" (str scope_id) (entry "type" (str "Scope") empty)

-- the loop over the set of scope ids
unfoldable pub add_scopes : List String → ById → ById
unfolding has_id put_id
add_scopes [] by_id = by_id
add_scopes (scope_id ∷ rest) by_id =
    let present = add_scopes rest by_id in
    let added = add_scopes rest (put_id scope_id (scope_access scope_id) by_id) in
    if has_id scope_id by_id then present else added

unfoldable pub insert_id : String → Dict → ById → ById
insert_id id item [] = (id, item) ∷ []
insert_id id item ((key, old) ∷ rest) =
    let later = insert_id id item rest in
    if leb_text id key then (id, item) ∷ (key, old) ∷ rest else (key, old) ∷ later

-- sorted(by_id.values(), key=lambda item: str(item["id"])), whose keys are those of the dict
unfoldable pub sort_ids : ById → ById
unfolding insert_id
sort_ids [] = []
sort_ids ((key, item) ∷ rest) = insert_id key item (sort_ids rest)

abbrev pub items_of : ById → Items
items_of [] = nil
items_of ((key, item) ∷ rest) = cons (dict item) (items_of rest)

unfoldable pub merged_access : Host → List Value → (scope_ids : List String) → ById
unfolding index_access add_scopes sort_ids dedupe dicts_of
merged_access host existing scope_ids =
    sort_ids (add_scopes (dedupe scope_ids) (index_access host [] (dicts_of existing)))

unfoldable pub update_access : Host → (scope_ids : List String) → Dict → Result Dict
unfolding merged_access list_field iterate set_item
update_access host scope_ids app = do
  existing ← iterate (list_field "resourceAccess" app)
  ok (set_item "resourceAccess" (list (items_of (merged_access host existing scope_ids))) app)

-- The loop over the entries: the first one of the app is updated; `new` is what is appended if there
-- is none.
unfoldable pub update_first :
    Host
    → (key app_id : String) → (update : Dict → Result Dict) (new : List Dict) → List Dict
    → Result (List Dict)
unfolding stripped_text
update_first host key app_id update new [] = ok new
update_first host key app_id update new (app ∷ rest) =
    let later = update_first host key app_id update new rest in
    if stripped_text host key app == app_id
    then (do updated ← update app; ok (updated ∷ rest))
    else (do others ← later; ok (app ∷ others))

abbrev pub access_items : List String → Items
access_items [] = nil
access_items (scope_id ∷ rest) = cons (dict (scope_access scope_id)) (access_items rest)

abbrev pub new_access : (resource_app_id : String) (scope_ids : List String) → List Dict
new_access resource_app_id [] = []
new_access resource_app_id (x ∷ xs) =
    entry "resourceAppId" (str resource_app_id)
      (entry "resourceAccess" (list (access_items (sorted (dedupe (x ∷ xs))))) empty)
    ∷ []

unfoldable pub merge_required_resource_access :
    Host
    → (existing : List Value) (resource_app_id : String) (scope_ids : List String)
    → Result (List Dict)
unfolding update_first update_access sorted dedupe dicts_of
merge_required_resource_access host existing resource_app_id scope_ids =
    update_first host "resourceAppId" resource_app_id (update_access host scope_ids)
      (new_access resource_app_id scope_ids) (dicts_of existing)

abbrev pub text_items : List String → Items
text_items [] = nil
text_items (x ∷ xs) = cons (str x) (text_items xs)

-- {str(item).strip() for item in values if str(item).strip()}
unfoldable pub stripped_texts : Host → List Value → List String
unfolding to_text strip keep
stripped_texts host values =
    keep (λ id. not (is_blank id)) (map (λ v. strip (to_text host v)) values)

unfoldable pub merged_permissions : Host → List Value → (required : List String) → List String
unfolding stripped_texts sorted dedupe
merged_permissions host existing required =
    sorted (dedupe (stripped_texts host existing ++ required))

unfoldable pub update_permissions : Host → (required : List String) → Dict → Result Dict
unfolding merged_permissions list_field iterate set_item
update_permissions host required client = do
  existing ← iterate (list_field "delegatedPermissionIds" client)
  ok (
      set_item "delegatedPermissionIds"
        (list (text_items (merged_permissions host existing required))) client)

abbrev pub new_client : (client_app_id : String) (required : List String) → List Dict
new_client client_app_id [] = []
new_client client_app_id (x ∷ xs) =
    entry "appId" (str client_app_id)
      (entry "delegatedPermissionIds" (list (text_items (sorted (dedupe (x ∷ xs))))) empty)
    ∷ []

unfoldable pub merge_preauthorized :
    Host
    → (existing : List Value) (client_app_id : String) (delegated_permission_ids : List String)
    → Result (List Dict)
unfolding update_first update_permissions sorted dedupe dicts_of
merge_preauthorized host existing client_app_id delegated_permission_ids =
    update_first host "appId" client_app_id (update_permissions host delegated_permission_ids)
      (new_client client_app_id delegated_permission_ids) (dicts_of existing)
