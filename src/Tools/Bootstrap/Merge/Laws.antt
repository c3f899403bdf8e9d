-- ===== src/Tools/Bootstrap/Merge/Laws.antt =====
-- A merge grants what is required, keeps what was granted, and leaves the other apps alone.
use agentic_identity_lab.Prelude.{
  ◌≡◌, refl, ◌∙◌, ap, sym, ◌⊎◌, inl, inr, String, true, false, Option, none, some, List, [], ◌∷◌,
  eq_iff, Bool-cases, ◌==◌, if◌then◌else◌,
}
use agentic_identity_lab.Result.{Result, ok, >>=-eq-ok, ok_injective}
use agentic_identity_lab.Value.{Dict}
use agentic_identity_lab.Host.{Host}
use agentic_identity_lab.Tools.Bootstrap.Merge.{stripped_text, update_first}

-- The first entry of an app.
unfoldable pub find_entry : Host → (key app_id : String) → List Dict → Option Dict
unfolding stripped_text
find_entry host key app_id [] = none
find_entry host key app_id (app ∷ rest) =
    if stripped_text host key app == app_id then some app else find_entry host key app_id rest

-- An update that does not touch the key.
abbrev pub KeepsKey : Host → (key : String) → (Dict → Result Dict) → Type 0
KeepsKey host key update =
    (d updated : Dict)
    → update d ≡ ok updated
    → stripped_text host key updated ≡ stripped_text host key d

pub find_entry-update_first_other :
    (host : Host) (key app_id other : String) (update : Dict → Result Dict)
    (new entries found : List Dict)
    → KeepsKey host key update
    → (app_id == other) ≡ false
    → find_entry host key other new ≡ none
    → update_first host key app_id update new entries ≡ ok found
    → find_entry host key other found ≡ find_entry host key other entries
unfolding update_first find_entry
find_entry-update_first_other host key app_id other update new [] found keeps differs fresh h =
    ap (find_entry host key other) (sym (ok_injective h)) ∙ fresh
find_entry-update_first_other host key app_id other update new (app ∷ rest) found keeps differs
      fresh h =
    elim (Bool-cases (stripped_text host key app == app_id)) [
      | inl here ↦ updated_here here (>>=-eq-ok (update app) _ (rw here at h))
      | inr elsewhere ↦
          updated_later (find_entry-update_first_other host key app_id other update new rest)
            (>>=-eq-ok (update_first host key app_id update new rest) _ (rw elsewhere at h))
    ]
  where
    updated_here :
        (stripped_text host key app == app_id) ≡ true
        → (d : Dict) × (update app ≡ ok d) × (ok (d ∷ rest) ≡ ok found)
        → find_entry host key other found ≡ find_entry host key other (app ∷ rest)
    updated_here here (d, q, made) =
        let name : stripped_text host key app ≡ app_id =
          (eq_iff (stripped_text host key app) app_id).0 here in
        let not_app : (stripped_text host key app == other) ≡ false =
          ap (λ t. t == other) name ∙ differs in
        let not_d : (stripped_text host key d == other) ≡ false =
          ap (λ t. t == other) (keeps app d q) ∙ not_app in
        ap (find_entry host key other) (sym (ok_injective made)) ∙ rw (not_app, not_d) refl

    updated_later :
        ((found : List Dict)
          → KeepsKey host key update
          → (app_id == other) ≡ false
          → find_entry host key other new ≡ none
          → update_first host key app_id update new rest ≡ ok found
          → find_entry host key other found ≡ find_entry host key other rest)
        → (others : List Dict) × (update_first host key app_id update new rest ≡ ok others)
          × (ok (app ∷ others) ≡ ok found)
        → find_entry host key other found ≡ find_entry host key other (app ∷ rest)
    updated_later later (others, q, made) =
        ap (find_entry host key other) (sym (ok_injective made))
        ∙ ap (λ o. if stripped_text host key app == other then some app else o)
            (later others keeps differs fresh q)

-- What the merge did for its own app: it updated the first entry, or appended a new one.
abbrev pub IsUpdated :
    Host → (key app_id : String) → (Dict → Result Dict) → (new entries found : List Dict) → Type 0
IsUpdated host key app_id update new entries found =
    ((d : Dict) × (updated : Dict) × (find_entry host key app_id entries ≡ some d)
      × (update d ≡ ok updated)
      × (find_entry host key app_id found ≡ some updated))
    ⊎ ((find_entry host key app_id entries ≡ none)
        × (find_entry host key app_id found ≡ find_entry host key app_id new))

pub update_first-IsUpdated :
    (host : Host) (key app_id : String) (update : Dict → Result Dict)
    (new entries found : List Dict)
    → KeepsKey host key update
    → update_first host key app_id update new entries ≡ ok found
    → IsUpdated host key app_id update new entries found
unfolding update_first find_entry
update_first-IsUpdated host key app_id update new [] found keeps h =
    inr (refl, ap (find_entry host key app_id) (sym (ok_injective h)))
update_first-IsUpdated host key app_id update new (app ∷ rest) found keeps h =
    elim (Bool-cases (stripped_text host key app == app_id)) [
      | inl here ↦ updated_here here (>>=-eq-ok (update app) _ (rw here at h))
      | inr elsewhere ↦
          updated_later elsewhere (update_first-IsUpdated host key app_id update new rest)
            (>>=-eq-ok (update_first host key app_id update new rest) _ (rw elsewhere at h))
    ]
  where
    updated_here :
        (stripped_text host key app == app_id) ≡ true
        → (d : Dict) × (update app ≡ ok d) × (ok (d ∷ rest) ≡ ok found)
        → IsUpdated host key app_id update new (app ∷ rest) found
    updated_here here (d, q, made) =
        let same : (stripped_text host key d == app_id) ≡ true =
          ap (λ t. t == app_id) (keeps app d q) ∙ here in
        inl (
          app,
          d,
          rw here refl,
          q,
          ap (find_entry host key app_id) (sym (ok_injective made)) ∙ rw same refl,
        )

    updated_later :
        (stripped_text host key app == app_id) ≡ false
        → ((found : List Dict)
            → KeepsKey host key update
            → update_first host key app_id update new rest ≡ ok found
            → IsUpdated host key app_id update new rest found)
        → (others : List Dict) × (update_first host key app_id update new rest ≡ ok others)
          × (ok (app ∷ others) ≡ ok found)
        → IsUpdated host key app_id update new (app ∷ rest) found
    updated_later elsewhere later (others, q, made) =
        let passed : find_entry host key app_id found ≡ find_entry host key app_id others =
          ap (find_entry host key app_id) (sym (ok_injective made)) ∙ rw elsewhere refl in
        elim (later others keeps q) [
          | inl (d, updated, before, done, after) ↦
              inl (d, updated, rw elsewhere before, done, passed ∙ after)
          | inr (before, after) ↦ inr (rw elsewhere before, passed ∙ after)
        ]
