-- ===== src/Tools/Bootstrap/Merge/Grants.antt =====
-- Which permissions a client has after a merge: those that it had, and those that are required.
use agentic_identity_lab.Prelude.{
  ◌≡◌, refl, ◌∙◌, ap, sym, ◌↔◌, ◌⊎◌, inl, inr, String, true, false, ◌||◌, none, some, List, [], ◌∷◌,
  ◌++◌, arith, eq_iff, Bool-cases, contains, contains-append, contains-sorted, contains-dedupe,
  dedupe, sorted, strip, or_default, ◌==◌,
}
use agentic_identity_lab.Result.{ok, >>=-eq-ok, ok_injective}
use agentic_identity_lab.Value.{
  Value, str, list, Dict, Items, empty, entry, lookup, set_item, lookup-set_item,
}
use agentic_identity_lab.Host.{Host, to_text}
use agentic_identity_lab.Tools.Bootstrap.Merge.{
  text_field, stripped_text, dicts_of, iterate, list_field, update_permissions, merged_permissions,
  stripped_texts, text_items, new_client, merge_preauthorized,
}
use agentic_identity_lab.Tools.Bootstrap.Merge.Laws.{
  find_entry, KeepsKey, find_entry-update_first_other, update_first-IsUpdated,
}

update_permissions-KeepsKey :
    (host : Host) (required : List String)
    → KeepsKey host "appId" (update_permissions host required)
unfolding update_permissions stripped_text text_field
update_permissions-KeepsKey host required d updated h =
    let (values, q, made) = >>=-eq-ok (iterate (list_field "delegatedPermissionIds" d)) _ h in
    ap (λ x. stripped_text host "appId" x) (sym (ok_injective made))
    ∙ ap (λ o. strip (to_text host (or_default o (str ""))))
        (lookup-set_item "appId" "delegatedPermissionIds"
          (list (text_items (merged_permissions host values required))) d)

contains-merged_permissions :
    (host : Host) (id : String) (values : List Value) (required : List String)
    → contains id (merged_permissions host values required)
      ≡ (contains id (stripped_texts host values) || contains id required)
unfolding merged_permissions
contains-merged_permissions host id values required =
    contains-sorted id (dedupe (stripped_texts host values ++ required))
    ∙ (contains-dedupe id (stripped_texts host values ++ required)
        ∙ contains-append id (stripped_texts host values) required)

text_items_injective : (xs ys : List String) → text_items xs ≡ text_items ys → xs ≡ ys
text_items_injective [] [] h = refl
text_items_injective [] (y ∷ ys) h = absurd cc
text_items_injective (x ∷ xs) [] h = absurd cc
text_items_injective (x ∷ xs) (y ∷ ys) h =
    let same : x ≡ y = cc in let rest : xs ≡ ys = text_items_injective xs ys cc in cc

-- The client's entry lists the permission.
pub record IsGranted (host : Host) (client : String) (entries : List Dict) (id : String)
    : Type 0 where
  pub found : Dict
  pub first : find_entry host "appId" client entries ≡ some found
  pub ids : List String
  pub listed : lookup "delegatedPermissionIds" found ≡ some (list (text_items ids))
  pub held : contains id ids ≡ true

-- The entry that the client had before, as Azure gave it, lists the permission.
pub record WasGranted (host : Host) (client : String) (entries : List Dict) (id : String)
    : Type 0 where
  pub found : Dict
  pub first : find_entry host "appId" client entries ≡ some found
  pub values : List Value
  pub listed : iterate (list_field "delegatedPermissionIds" found) ≡ ok values
  pub held : contains id (stripped_texts host values) ≡ true

new_nothing : (host : Host) (other : String) → find_entry host "appId" other [] ≡ none
unfolding find_entry
new_nothing host other = refl

new_other :
    (host : Host) (client other : String) (d : Dict)
    → strip client ≡ client
    → (client == other) ≡ false
    → find_entry host "appId" other (entry "appId" (str client) d ∷ []) ≡ none
unfolding find_entry stripped_text text_field to_text lookup
new_other host client other d plain differs = rw (plain, differs) refl

some_injective : {A : Type 0} {a b : A} → some a ≡ some b → a ≡ b
some_injective h = cc

list_injective : {a b : Items} → some (list a) ≡ some (list b) → a ≡ b
list_injective h = cc

-- Two entries of one client list the same permissions.
listed_once :
    (host : Host) (client : String) (entries : List Dict) (id : String) (d : Dict)
    (ids : List String)
    → find_entry host "appId" client entries ≡ some d
    → lookup "delegatedPermissionIds" d ≡ some (list (text_items ids))
    → IsGranted host client entries id
    → contains id ids ≡ true
listed_once host client entries id d ids first listed g =
    let same : g.found ≡ d = some_injective (sym g.first ∙ first) in
    let items : text_items g.ids ≡ text_items ids =
      list_injective (sym g.listed ∙ (ap (lookup "delegatedPermissionIds") same ∙ listed)) in
    ap (contains id) (sym (text_items_injective g.ids ids items)) ∙ g.held

was_listed :
    (host : Host) (client : String) (entries : List Dict) (id : String) (d : Dict)
    (values : List Value)
    → find_entry host "appId" client entries ≡ some d
    → iterate (list_field "delegatedPermissionIds" d) ≡ ok values
    → WasGranted host client entries id
    → contains id (stripped_texts host values) ≡ true
was_listed host client entries id d values first listed w =
    let same : w.found ≡ d = some_injective (sym w.first ∙ first) in
    let read : w.values ≡ values =
      ok_injective (
        sym w.listed ∙ (ap (λ x. iterate (list_field "delegatedPermissionIds" x)) same ∙ listed)) in
    ap (λ v. contains id (stripped_texts host v)) (sym read) ∙ w.held

-- The client had an entry, which was updated.
updated_iff :
    (host : Host) (client : String) (required : List String) (before found : List Dict)
    (d updated : Dict) (id : String)
    → find_entry host "appId" client before ≡ some d
    → find_entry host "appId" client found ≡ some updated
    → update_permissions host required d ≡ ok updated
    → IsGranted host client found id
      ↔ ((contains id required ≡ true) ⊎ WasGranted host client before id)
unfolding update_permissions
updated_iff host client required before found d updated id first after done =
    let (values, q, made) = >>=-eq-ok (iterate (list_field "delegatedPermissionIds" d)) _ done in
    by_values values q (ok_injective made)
  where
    by_values :
        (values : List Value)
        → iterate (list_field "delegatedPermissionIds" d) ≡ ok values
        → set_item "delegatedPermissionIds"
            (list (text_items (merged_permissions host values required)))
            d
          ≡ updated
        → IsGranted host client found id
          ↔ ((contains id required ≡ true) ⊎ WasGranted host client before id)
    by_values values q made =
        let merged = merged_permissions host values required in
        let listed : lookup "delegatedPermissionIds" updated ≡ some (list (text_items merged)) =
          ap (lookup "delegatedPermissionIds") (sym made)
          ∙ lookup-set_item "delegatedPermissionIds" "delegatedPermissionIds"
              (list (text_items merged)) d in
        let holds = contains-merged_permissions host id values required in
        (
          λ g.
              let held = listed_once host client found id updated merged after listed g in
              elim (Bool-cases (contains id required)) [
                | inl now ↦ inl now
                | inr not_now ↦ inr record {
                  found = d;
                  first = first;
                  values = values;
                  listed = q;
                  held = ground (arith, holds, held, not_now);
                }
              ],
          λ o. record {
            found = updated;
            first = after;
            ids = merged;
            listed = listed;
            held = elim o [
              | inl now ↦ ground (arith, holds, now)
              | inr w ↦ ground (arith, holds, was_listed host client before id d values first q w)
            ];
          },
        )

-- The client had no entry; one is appended where something is required.
appended_iff :
    (host : Host) (client : String) (required : List String) (before found : List Dict)
    (id : String)
    → strip client ≡ client
    → find_entry host "appId" client before ≡ none
    → find_entry host "appId" client found
      ≡ find_entry host "appId" client (new_client client required)
    → IsGranted host client found id
      ↔ ((contains id required ≡ true) ⊎ WasGranted host client before id)
unfolding find_entry stripped_text text_field to_text lookup contains
appended_iff host client [] before found id plain first after = (
  λ g. absurd (cc (sym g.first ∙ after)),
  λ o. elim o [ inl now ↦ absurd cc | inr w ↦ absurd (cc (sym w.first ∙ first)) ],
)
appended_iff host client (x ∷ xs) before found id plain first after =
    let ids = sorted (dedupe (x ∷ xs)) in
    let made : Dict =
      entry "appId" (str client) (entry "delegatedPermissionIds" (list (text_items ids)) empty) in
    let same : (strip client == client) ≡ true = (eq_iff (strip client) client).1 plain in
    let there : find_entry host "appId" client found ≡ some made = after ∙ rw same refl in
    let holds : contains id ids ≡ contains id (x ∷ xs) =
      contains-sorted id (dedupe (x ∷ xs)) ∙ contains-dedupe id (x ∷ xs) in
    (
      λ g. inl (sym holds ∙ listed_once host client found id made ids there refl g),
      λ o. record {
        found = made;
        first = there;
        ids = ids;
        listed = refl;
        held = elim o [ inl now ↦ holds ∙ now | inr w ↦ absurd (cc (sym w.first ∙ first)) ];
      },
    )

-- After the merge the client's entry lists exactly the permissions that it listed before, and those
-- that are required.
pub merge_preauthorized_iff :
    (host : Host) (existing : List Value) (client : String) (required : List String)
    (found : List Dict) (id : String)
    → strip client ≡ client
    → merge_preauthorized host existing client required ≡ ok found
    → IsGranted host client found id
      ↔ ((contains id required ≡ true) ⊎ WasGranted host client (dicts_of existing) id)
unfolding merge_preauthorized
merge_preauthorized_iff host existing client required found id plain h =
    elim (update_first-IsUpdated host "appId" client (update_permissions host required)
      (new_client client required) (dicts_of existing) found
      (update_permissions-KeepsKey host required) h) [
        | inl (d, updated, before, done, after) ↦
            updated_iff host client required (dicts_of existing) found d updated id before after
              done
        | inr (before, after) ↦
            appended_iff host client required (dicts_of existing) found id plain before after
      ]

-- The entries of all other clients are as they were.
pub merge_preauthorized_other :
    (host : Host) (existing : List Value) (client other : String) (required : List String)
    (found : List Dict)
    → strip client ≡ client
    → (client == other) ≡ false
    → merge_preauthorized host existing client required ≡ ok found
    → find_entry host "appId" other found ≡ find_entry host "appId" other (dicts_of existing)
unfolding merge_preauthorized
merge_preauthorized_other host existing client other required found plain differs h =
    find_entry-update_first_other host "appId" client other (update_permissions host required)
      (new_client client required) (dicts_of existing) found
      (update_permissions-KeepsKey host required) differs (fresh required) h
  where
    fresh : (ids : List String) → find_entry host "appId" other (new_client client ids) ≡ none
    fresh [] = new_nothing host other
    fresh (x ∷ xs) = new_other host client other _ plain differs
