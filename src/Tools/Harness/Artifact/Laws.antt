-- ===== src/Tools/Harness/Artifact/Laws.antt =====
-- That an accepted artifact is redacted throughout, and what a successful result is.
use agentic_identity_lab.Prelude.{
  ◌≡◌, refl, ◌∙◌, sym, ◌↔◌, ℕ, String, Bool, true, false, not, some, List, [], ◌∷◌, ◌++◌, arith,
  strip, ◌<+>◌, if◌then◌else◌, ℤ, pos, negsuc, suc, or_default,
}
use agentic_identity_lab.Prelude.Strip.{strip_idem}
use agentic_identity_lab.Value.{
  Value, null, bool, int, float, str, list, dict, Items, nil, cons, Dict, empty, entry, lookup,
}
use agentic_identity_lab.Host.{Host, to_text}
use agentic_identity_lab.Tools.Shell.{offender_if}
use agentic_identity_lab.Tools.Shell.Laws.{append_nil, offender_if_iff}
use agentic_identity_lab.Tools.Harness.Artifact.{
  contains_sensitive_text, contains_sensitive_value, is_sensitive_key,
  find_sensitive_artifact_paths, find_in_items, find_in_entries, to_bool, to_int, to_stripped,
  get_either, normalize_live_result, eqb_ℤ, is_set, evaluate_live_result,
}

-- No text below looks like a credential or an address, and no key names one.
unfoldable mutual
  pub IsRedacted : Value → Type 0
  IsRedacted null = Unit
  IsRedacted (bool b) = Unit
  IsRedacted (int n) = Unit
  IsRedacted (float x) = Unit
  IsRedacted (str s) = contains_sensitive_text s ≡ false
  IsRedacted (list items) = AreRedacted items
  IsRedacted (dict d) = HasRedacted d

  pub AreRedacted : Items → Type 0
  AreRedacted nil = Unit
  AreRedacted (cons v vs) = IsRedacted v × AreRedacted vs

  pub HasRedacted : Dict → Type 0
  HasRedacted empty = Unit
  HasRedacted (entry key v d) = (is_sensitive_key key ≡ false) × IsRedacted v × HasRedacted d

entry_iff :
    {B C : Type 0} (sensitive : Bool) (path : String) (below rest : List String)
    → (below ≡ []) ↔ B
    → (rest ≡ []) ↔ C
    → ((if sensitive then path ∷ rest else below ++ rest) ≡ []) ↔ ((sensitive ≡ false) × B × C)
entry_iff true path below rest b c = (λ h. absurd cc, λ (h, p, q). absurd cc)
entry_iff false path below rest b c = (
  λ h. let (p, q) = (append_nil below rest).0 h in (refl, b.0 p, c.0 q),
  λ (h, p, q). (append_nil below rest).1 (b.1 p, c.1 q),
)

mutual
  unfolding find_sensitive_artifact_paths IsRedacted contains_sensitive_value

  value_iff :
      (host : Host) (v : Value) (path : String)
      → (find_sensitive_artifact_paths host v path ≡ []) ↔ IsRedacted v
  value_iff host null path = (λ h. tt, λ h. refl)
  value_iff host (bool b) path = (λ h. tt, λ h. refl)
  value_iff host (int n) path = (λ h. tt, λ h. refl)
  value_iff host (float x) path = (λ h. tt, λ h. refl)
  value_iff host (str s) path = offender_if_iff (contains_sensitive_text s) path
  value_iff host (list items) path = items_iff host items path 0
  value_iff host (dict d) path = entries_iff host d path

  items_iff :
      (host : Host) (vs : Items) (path : String) (index : ℕ)
      → (find_in_items host vs path index ≡ []) ↔ AreRedacted vs
  items_iff host nil path index = (λ h. tt, λ h. refl)
  items_iff host (cons v vs) path index =
      let child = path <+> "[" <+> host.repr (int (pos index)) <+> "]" in
      let (to, from) =
        append_nil (find_sensitive_artifact_paths host v child)
          (find_in_items host vs path (suc index)) in
      let (v_to, v_from) = value_iff host v child in
      let (vs_to, vs_from) = items_iff host vs path (suc index) in
      (λ h. let (a, b) = to h in (v_to a, vs_to b), λ (a, b). from (v_from a, vs_from b))

  entries_iff :
      (host : Host) (d : Dict) (path : String) → (find_in_entries host d path ≡ []) ↔ HasRedacted d
  entries_iff host empty path = (λ h. tt, λ h. refl)
  entries_iff host (entry key v d) path =
      entry_iff (is_sensitive_key key) (path <+> "." <+> key)
        (find_sensitive_artifact_paths host v (path <+> "." <+> key)) (find_in_entries host d path)
        (value_iff host v (path <+> "." <+> key)) (entries_iff host d path)

-- No path is reported exactly when the whole value is redacted, at every depth, whatever the path
-- that it is reported under.
pub find_sensitive_artifact_paths_iff :
    (host : Host) (v : Value) (path : String)
    → (find_sensitive_artifact_paths host v path ≡ []) ↔ IsRedacted v
find_sensitive_artifact_paths_iff = value_iff

-- int() reads back what str() writes of an integer.
abbrev pub ReadsBack : Host → Type 0
ReadsBack host = (n : ℤ) → host.int_of (strip (host.repr (int n))) ≡ some n

pub to_int_lem : (host : Host) (n fallback : ℤ) → ReadsBack host → to_int host (int n) fallback ≡ n
unfolding to_int to_text
to_int_lem host n fallback reads = rw (reads n)

-- Normalizing a second time changes nothing, so a normalized result may be handed on as raw.
pub normalize_live_result_idem :
    (host : Host) (raw : Dict)
    → ReadsBack host
    → normalize_live_result host (normalize_live_result host raw) ≡ normalize_live_result host raw
unfolding normalize_live_result to_bool to_stripped to_text get_either lookup
normalize_live_result_idem host raw reads = rw (
  to_int_lem host _ (pos 0) reads,
  strip_idem (to_text host (get_either "targetUrlDigest" "target_url_digest" (str "") raw)),
  strip_idem (to_text host (get_either "resultSource" "result_source" (str "") raw)),
)

eqb_ℤ_iff : (m n : ℤ) → (eqb_ℤ m n ≡ true) ↔ (m ≡ n)
eqb_ℤ_iff (pos a) (pos b) = ground arith
eqb_ℤ_iff (negsuc a) (negsuc b) = ground arith
eqb_ℤ_iff (pos a) (negsuc b) = ground arith
eqb_ℤ_iff (negsuc a) (pos b) = ground arith

no_offender :
    (a b c : Bool) (s t u : String)
    → (offender_if (not a) s ++ (offender_if (not b) t ++ offender_if (not c) u) ≡ [])
      ↔ ((a ≡ true) × (b ≡ true) × (c ≡ true))
no_offender true true c s t u = ground arith
no_offender true false c s t u = ground arith
no_offender false b c s t u = ground arith

-- What the run is to show: the expected status, success, and a session id.
pub record IsSuccess (host : Host) (raw : Dict) (expected : ℤ) : Type 0 where
  pub status :
      to_int host (get_either "status" "observed_status" (int (pos 0)) raw) (pos 0) ≡ expected
  pub ok : to_bool (or_default (lookup "ok" raw) (bool false)) ≡ true
  pub session : to_bool (get_either "sessionIdPresent" "session_id_present" (bool false) raw) ≡ true

-- A normalized result is accepted exactly if the raw one has the expected status, was successful
-- and has a session id, under either spelling of its fields.
pub evaluate_live_result_iff :
    (host : Host) (raw : Dict) (expected : ℤ)
    → ReadsBack host
    → (evaluate_live_result host (normalize_live_result host raw) expected ≡ [])
      ↔ IsSuccess host raw expected
unfolding evaluate_live_result normalize_live_result is_set to_bool lookup
evaluate_live_result_iff host raw expected reads =
    let status = to_int host (get_either "status" "observed_status" (int (pos 0)) raw) (pos 0) in
    let read : to_int host (int status) (pos 0) ≡ status = to_int_lem host status (pos 0) reads in
    let (to, from) =
      no_offender (eqb_ℤ (to_int host (int status) (pos 0)) expected)
        (to_bool (or_default (lookup "ok" raw) (bool false)))
        (to_bool (get_either "sessionIdPresent" "session_id_present" (bool false) raw)) _ _ _ in
    (
      λ h.
          let (a, b, c) = to h in
          record {
            status = sym read ∙ (eqb_ℤ_iff (to_int host (int status) (pos 0)) expected).0 a;
            ok = b;
            session = c;
          },
      λ s. from (
        (eqb_ℤ_iff (to_int host (int status) (pos 0)) expected).1 (read ∙ s.status),
        s.ok,
        s.session,
      ),
    )
