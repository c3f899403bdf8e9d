-- ===== src/Tools/Bootstrap/Merge/Scopes.antt =====
-- The merged scopes are those that are required, in their order, and all of them are enabled.
use agentic_identity_lab.Prelude.{
  ◌≡◌, refl, ◌∙◌, ap, sym, ◌⊎◌, inl, inr, String, Bool, true, false, not, ◌&&◌, Option, none, some,
  List, [], ◌∷◌, eq_iff, All, Bool-cases, Option-cases, is_blank, is_none, strip, or_default, ◌==◌,
  if◌then◌else◌,
}
use agentic_identity_lab.Value.{Value, bool, str, Dict, lookup, has_key, lookup-set_item}
use agentic_identity_lab.Host.{Host, to_text}
use agentic_identity_lab.Tools.Bootstrap.Merge.{
  Names, text_field, stripped_text, dicts_of, new_scope, find_scope, set_default, merged_scope,
  merge_scopes,
}

lookup-set_default :
    (j key text : String) (d : Dict)
    → (key == j) ≡ false
    → lookup j (set_default key text d) ≡ lookup j d
unfolding set_default
lookup-set_default j key text d other = elim (Bool-cases (has_key key d)) [
  | inl there ↦ rw there refl
  | inr absent ↦ rw absent (lookup-set_item j key (str text) d ∙ rw other refl)
]

-- What the defaults of an existing scope leave as it is.
merged_scope_kept :
    (names : Names) (display_name scope_value j : String) (scope : Dict)
    → ("id" == j) ≡ false
    → ("type" == j) ≡ false
    → ("adminConsentDisplayName" == j) ≡ false
    → ("adminConsentDescription" == j) ≡ false
    → ("userConsentDisplayName" == j) ≡ false
    → ("userConsentDescription" == j) ≡ false
    → lookup j (merged_scope names display_name scope_value (some scope))
      ≡ (if "isEnabled" == j then some (bool true) else lookup j scope)
unfolding merged_scope
merged_scope_kept names display_name scope_value j scope a b c d e f =
    lookup-set_default j "userConsentDescription" _ _ f
    ∙ (lookup-set_default j "userConsentDisplayName" _ _ e
        ∙ (lookup-set_default j "adminConsentDescription" _ _ d
            ∙ (lookup-set_default j "adminConsentDisplayName" _ _ c
                ∙ (lookup-set_default j "type" _ _ b
                    ∙ (lookup-set_default j "id" _ _ a
                        ∙ lookup-set_item j "isEnabled" (bool true) scope)))))

some_injective : {A : Type 0} {a b : A} → some a ≡ some b → a ≡ b
some_injective h = cc

find_scope_value :
    (host : Host) (value : String) (scopes : List Dict) (scope : Dict)
    → find_scope host value scopes ≡ some scope
    → stripped_text host "value" scope ≡ value
unfolding find_scope
find_scope_value host value [] scope h = absurd cc
find_scope_value host value (s ∷ rest) scope h = elim (Option-cases (find_scope host value rest)) [
  | inr (found, e) ↦ find_scope_value host value rest scope (e ∙ (rw e at h))
  | inl e ↦ by_test (stripped_text host "value" s == value) refl (rw e at h)
]
  where
    by_test :
        (b : Bool)
        → (stripped_text host "value" s == value) ≡ b
        → (if b && not (is_blank value) then some s else none) ≡ some scope
        → stripped_text host "value" scope ≡ value
    by_test false e k = absurd cc
    by_test true e k = elim (Bool-cases (is_blank value)) [
      | inl blank ↦ absurd (cc (rw blank at k))
      | inr given ↦
          let same : s ≡ scope = some_injective (rw given at k) in
          sym (ap (stripped_text host "value") same)
          ∙ (eq_iff (stripped_text host "value" s) value).0 e
    ]

abbrev pub IsAmong : Dict → List Dict → Type 0
IsAmong d [] = ⊥
IsAmong d (other ∷ rest) = (d ≡ other) ⊎ IsAmong d rest

-- If a scope of the list has the value, one is found.
find_scope_found :
    (host : Host) (value : String) (scopes : List Dict) (scope : Dict)
    → is_blank value ≡ false
    → IsAmong scope scopes
    → stripped_text host "value" scope ≡ value
    → (found : Dict) × (find_scope host value scopes ≡ some found)
unfolding find_scope
find_scope_found host value [] scope given m h = absurd m
find_scope_found host value (s ∷ rest) scope given m h =
    elim (Option-cases (find_scope host value rest)) [
      | inr (found, e) ↦ (found, rw e refl)
      | inl e ↦ elim m [
        | inl same ↦
            let held : (stripped_text host "value" s == value) ≡ true =
              (eq_iff (stripped_text host "value" s) value).1
                (ap (stripped_text host "value") (sym same) ∙ h) in
            (s, rw (e, held, given) refl)
        | inr later ↦
            let (found, q) = find_scope_found host value rest scope given later h in
            absurd (cc (sym e ∙ q))
      ]
    ]

-- What is found is of the list.
find_scope-IsAmong :
    (host : Host) (value : String) (scopes : List Dict) (scope : Dict)
    → find_scope host value scopes ≡ some scope
    → IsAmong scope scopes
unfolding find_scope
find_scope-IsAmong host value [] scope h = absurd cc
find_scope-IsAmong host value (s ∷ rest) scope h =
    elim (Option-cases (find_scope host value rest)) [
      | inr (found, e) ↦ inr (find_scope-IsAmong host value rest scope (e ∙ (rw e at h)))
      | inl e ↦ by_test (stripped_text host "value" s == value && not (is_blank value)) (rw e at h)
    ]
  where
    by_test : (b : Bool) → (if b then some s else none) ≡ some scope → IsAmong scope (s ∷ rest)
    by_test false k = absurd cc
    by_test true k = inl (sym (some_injective k))

lookup-set_default_given :
    (j key text : String) (v : Value) (d : Dict)
    → lookup j d ≡ some v
    → lookup j (set_default key text d) ≡ some v
unfolding set_default
lookup-set_default_given j key text v d h = elim (Bool-cases (has_key key d)) [
  | inl there ↦ rw there h
  | inr absent ↦ elim (Bool-cases (key == j)) [
    | inl same ↦
        let keys : key ≡ j = (eq_iff key j).0 same in
        absurd (cc (ap is_none (ap (λ k. lookup k d) keys ∙ h), absent))
    | inr other ↦ rw absent (lookup-set_item j key (str text) d ∙ rw other h)
  ]
]

merged_scope_given :
    (names : Names) (display_name scope_value j : String) (v : Value) (scope : Dict)
    → ("isEnabled" == j) ≡ false
    → lookup j scope ≡ some v
    → lookup j (merged_scope names display_name scope_value (some scope)) ≡ some v
unfolding merged_scope
merged_scope_given names display_name scope_value j v scope other h =
    lookup-set_default_given j "userConsentDescription" _ v _ (
      lookup-set_default_given j "userConsentDisplayName" _ v _ (
        lookup-set_default_given j "adminConsentDescription" _ v _ (
          lookup-set_default_given j "adminConsentDisplayName" _ v _ (
            lookup-set_default_given j "type" _ v _ (
              lookup-set_default_given j "id" _ v _
                (lookup-set_item j "isEnabled" (bool true) scope ∙ rw other h))))))

-- A scope as it is required: under its value, and enabled. If the app has scopes with the value, one
-- of them is taken over, with all that it says but for isEnabled.
pub record IsEnabled (host : Host) (existing : List Dict) (value : String) (scope : Dict)
    : Type 0 where
  pub named : stripped_text host "value" scope ≡ value
  pub enabled : lookup "isEnabled" scope ≡ some (bool true)
  pub taken_over :
      (old : Dict)
      → IsAmong old existing
      → stripped_text host "value" old ≡ value
      → (kept : Dict) × IsAmong kept existing
        × (stripped_text host "value" kept ≡ value)
        × ((key : String) (v : Value)
            → ("isEnabled" == key) ≡ false
            → lookup key kept ≡ some v
            → lookup key scope ≡ some v)

-- One scope for each value, in order.
abbrev pub AreEnabled : Host → (existing : List Dict) → List String → List Dict → Type 0
AreEnabled host existing [] [] = Unit
AreEnabled host existing (value ∷ values) (scope ∷ scopes) =
    IsEnabled host existing value scope × AreEnabled host existing values scopes
AreEnabled host existing values scopes = ⊥

merged_scope-IsEnabled :
    (names : Names) (display_name value : String) (o : Option Dict) (existing : List Dict)
    → strip value ≡ value
    → is_blank value ≡ false
    → find_scope names.host value existing ≡ o
    → IsEnabled names.host existing value (merged_scope names display_name value o)
unfolding merged_scope new_scope stripped_text text_field to_text lookup
merged_scope-IsEnabled names display_name value none existing plain given h = record {
  named = plain;
  enabled = refl;
  taken_over = λ old m same.
      let (found, e) = find_scope_found names.host value existing old given m same in
      absurd (cc (sym h ∙ e));
}
merged_scope-IsEnabled names display_name value (some scope) existing plain given h = record {
  named =
      ap (λ o. strip (to_text names.host (or_default o (str ""))))
        (merged_scope_kept names display_name value "value" scope refl refl refl refl refl refl)
      ∙ find_scope_value names.host value existing scope h;
  enabled =
      merged_scope_kept names display_name value "isEnabled" scope refl refl refl refl refl refl;
  taken_over = λ old m same. (
    scope,
    find_scope-IsAmong names.host value existing scope h,
    find_scope_value names.host value existing scope h,
    λ key v other found. merged_scope_given names display_name value key v scope other found,
  );
}

-- The merge gives one scope for each required value, in order, under that value and enabled. If the
-- app has scopes with the value, the merged scope keeps every field of one of them but isEnabled. The
-- required values are not empty and have no spaces around them.
pub merge_scopes-AreEnabled :
    (names : Names) (display_name : String) (existing : List Value) (required : List String)
    → All (λ value. (strip value ≡ value) × (is_blank value ≡ false)) required
    → AreEnabled names.host
        (dicts_of existing)
        required
        (merge_scopes names display_name existing required)
unfolding merge_scopes
merge_scopes-AreEnabled names display_name existing [] h = tt
merge_scopes-AreEnabled names display_name existing (value ∷ rest) ((plain, given), h) = (
  merged_scope-IsEnabled names display_name value (find_scope names.host value (dicts_of existing))
      (dicts_of existing) plain given refl,
  merge_scopes-AreEnabled names display_name existing rest h,
)
