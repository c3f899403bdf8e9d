-- ===== src/Tools/Harness/Artifact.antt =====
-- m8_browser_smoke_harness.py: what a smoke run found, as JSON: the search for data that is not
-- redacted, the normal form of a result, its evaluation, and the evidence that is published.
pub mod Laws
use agentic_identity_lab.Prelude.{
  ℕ, suc, String, Bool, true, false, not, ◌&&◌, ◌||◌, List, [], ◌∷◌, ◌++◌, eqb, leb, any, is_blank,
  is_in, contains, lower, strip, or_default, ◌<+>◌, if◌then◌else◌, ℤ, pos, negsuc,
}
use Prim.Native.Char.{code}
use agentic_identity_lab.Value.{
  Value, null, bool, int, float, str, list, dict, Items, nil, cons, Dict, empty, entry, lookup,
  truthy,
}
use agentic_identity_lab.Host.{Host, to_text}
use agentic_identity_lab.Tools.Shell.{has_any, offender_if}

abbrev pub sensitive_artifact_key_hints : List String
sensitive_artifact_key_hints =
    "token" ∷ "authorization" ∷ "cookie" ∷ "tenant" ∷ "client_id" ∷ "clientid" ∷ "endpoint"
    ∷ "claims" ∷ "trace_payload" ∷ "headers" ∷ []

abbrev pub sensitive_artifact_value_hints : List String
sensitive_artifact_value_hints =
    "bearer " ∷ "authorization" ∷ "set-cookie" ∷ "cookie=" ∷ "http://" ∷ "https://" ∷ []

-- s.count(".")
unfoldable pub count_dots : String → ℕ
count_dots String.[] = 0
count_dots (String.◌∷◌ c s) =
    let rest = count_dots s in if eqb (code c) b'.' then suc rest else rest

unfoldable pub contains_sensitive_text : String → Bool
unfolding has_any count_dots is_in lower
contains_sensitive_text s =
    let lowered = lower s in
    has_any sensitive_artifact_value_hints lowered
    || leb 2 (count_dots lowered) && is_in "eyj" lowered

unfoldable pub contains_sensitive_value : Value → Bool
unfolding contains_sensitive_text
contains_sensitive_value (str s) = contains_sensitive_text s
contains_sensitive_value v = false

unfoldable pub is_sensitive_key : String → Bool
unfolding has_any lower
is_sensitive_key key = has_any sensitive_artifact_key_hints (lower key)

-- The paths of the values that are not redacted.
unfoldable mutual
  unfolding contains_sensitive_value is_sensitive_key

  pub find_sensitive_artifact_paths : Host → Value → (path : String) → List String
  find_sensitive_artifact_paths host null path = []
  find_sensitive_artifact_paths host (bool b) path = []
  find_sensitive_artifact_paths host (int n) path = []
  find_sensitive_artifact_paths host (float x) path = []
  find_sensitive_artifact_paths host (str s) path =
      offender_if (contains_sensitive_value (str s)) path
  find_sensitive_artifact_paths host (list items) path = find_in_items host items path 0
  find_sensitive_artifact_paths host (dict d) path = find_in_entries host d path

  pub find_in_items : Host → Items → (path : String) (index : ℕ) → List String
  find_in_items host nil path index = []
  find_in_items host (cons v vs) path index =
      find_sensitive_artifact_paths host v (path <+> "[" <+> host.repr (int (pos index)) <+> "]")
      ++ find_in_items host vs path (suc index)

  pub find_in_entries : Host → Dict → (path : String) → List String
  find_in_entries host empty path = []
  find_in_entries host (entry key v d) path =
      let below = find_sensitive_artifact_paths host v (path <+> "." <+> key) in
      let rest = find_in_entries host d path in
      if is_sensitive_key key then (path <+> "." <+> key) ∷ rest else below ++ rest

unfoldable pub to_bool : Value → Bool
unfolding truthy contains lower strip
to_bool (bool b) = b
to_bool (str s) = contains (lower (strip s)) ("1" ∷ "true" ∷ "yes" ∷ "y" ∷ [])
to_bool (int n) = truthy (int n)
to_bool (float x) = truthy (float x)
to_bool v = false

unfoldable pub to_int : Host → Value → (fallback : ℤ) → ℤ
unfolding to_text strip
to_int host v fallback = or_default (host.int_of (strip (to_text host v))) fallback

-- str(v).strip()
unfoldable pub to_stripped : Host → Value → String
unfolding to_text strip
to_stripped host v = strip (to_text host v)

-- d.get(key, d.get(other, default))
unfoldable pub get_either : (key other : String) (default : Value) → Dict → Value
unfolding lookup
get_either key other default d = or_default (lookup key d) (or_default (lookup other d) default)

unfoldable pub normalize_live_result : Host → Dict → Dict
unfolding to_bool to_int to_stripped get_either
normalize_live_result host raw =
    entry "ok" (bool (to_bool (or_default (lookup "ok" raw) (bool false)))) (
      entry "status"
        (int (to_int host (get_either "status" "observed_status" (int (pos 0)) raw) (pos 0)))
        (entry "sessionIdPresent"
          (bool (to_bool (get_either "sessionIdPresent" "session_id_present" (bool false) raw)))
          (entry "expiresAtPresent"
            (bool (to_bool (get_either "expiresAtPresent" "expires_at_present" (bool false) raw)))
            (entry "targetUrlDigest"
              (str
                (to_stripped host (get_either "targetUrlDigest" "target_url_digest" (str "") raw)))
              (entry "resultSource"
                (str (to_stripped host (get_either "resultSource" "result_source" (str "") raw)))
                empty)))))

abbrev pub eqb_ℤ : ℤ → ℤ → Bool
eqb_ℤ (pos a) (pos b) = eqb a b
eqb_ℤ (negsuc a) (negsuc b) = eqb a b
eqb_ℤ a b = false

abbrev pub observed_status : Host → Dict → ℤ
observed_status host result =
    to_int host (or_default (lookup "status" result) (int (pos 0))) (pos 0)

unfoldable pub is_set : String → Dict → Bool
unfolding to_bool lookup
is_set key d = to_bool (or_default (lookup key d) (bool false))

unfoldable pub evaluate_live_result : Host → Dict → (expected_status : ℤ) → List String
unfolding to_int lookup is_set
evaluate_live_result host result expected =
    let observed = observed_status host result in
    offender_if (not (eqb_ℤ observed expected)) (
      "[live] chat/session status mismatch: expected "
      <+> host.repr (int expected)
      <+> ", observed "
      <+> host.repr (int observed))
    ++ (offender_if (not (is_set "ok" result)) "[live] chat/session response was not successful"
        ++ offender_if (not (is_set "sessionIdPresent" result))
            "[live] chat/session response missing session_id")

-- str(d.get(key, "")).strip()
unfoldable pub stripped_field : Host → String → Dict → String
unfolding to_stripped lookup
stripped_field host key d = to_stripped host (or_default (lookup key d) (str ""))

abbrev pub artifact_entry : (artifact_digest : String) → Dict
artifact_entry digest =
    if is_blank digest then empty else entry "artifact_digest" (str digest) empty

abbrev pub digest_or_fallback : (String → String) → (digest fallback_chat_url : String) → String
digest_or_fallback opaque_digest digest url =
    if is_blank digest && not (is_blank url) then opaque_digest url else digest

abbrev pub source_or_transport : (source transport : String) → String
source_or_transport source transport = if is_blank source then transport else source

-- `opaque_digest` is a prefix of a SHA-256 digest, in hexadecimal.
unfoldable pub create_redacted_evidence :
    Host
    → (opaque_digest : String → String) (transport : String) (result : Dict)
    → (expected_status : ℤ) (fallback_chat_url artifact_digest : String) → Dict
unfolding stripped_field to_int is_set
create_redacted_evidence host opaque_digest transport result expected url digest =
    entry "transport" (str transport) (
      entry "result_source"
        (str (source_or_transport (stripped_field host "resultSource" result) transport))
        (entry "expected_status" (int expected) (
          entry "observed_status" (int (observed_status host result)) (
            entry "session_id_present" (bool (is_set "sessionIdPresent" result)) (
              entry "expires_at_present" (bool (is_set "expiresAtPresent" result)) (
                entry "target_url_digest"
                  (str (
                    digest_or_fallback opaque_digest (stripped_field host "targetUrlDigest" result)
                      url))
                  (artifact_entry digest)))))))
