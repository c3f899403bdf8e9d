-- ===== src/Tools/AgentBrowser/Laws.antt =====
-- The command's result goes through the harness: it is redacted, and the harness reads from it what
-- the command put in.
use agentic_identity_lab.Prelude.{
  ◌≡◌, refl, ◌∙◌, ap, sym, ◌↔◌, String, Bool, true, false, Option, List, [], ◌∷◌, arith, eq_iff,
  contains, is_blank, strip, lower, if◌then◌else◌, ℤ, pos, negsuc, ◌<ℤ◌,
}
use agentic_identity_lab.Result.{ok, >>=-eq-ok, ok_injective}
use agentic_identity_lab.Value.{Value, dict, Dict, lookup, get, truthy}
use agentic_identity_lab.Host.{Host, to_text}
use agentic_identity_lab.Tools.Shell.{has_any}
use agentic_identity_lab.Tools.Harness.Artifact.{
  contains_sensitive_text, is_sensitive_key, find_sensitive_artifact_paths, normalize_live_result,
  to_bool, to_stripped, get_either, evaluate_live_result,
}
use agentic_identity_lab.Tools.Harness.Artifact.Laws.{
  IsRedacted, ReadsBack, to_int_lem, evaluate_live_result_iff, find_sensitive_artifact_paths_iff,
}
use agentic_identity_lab.Tools.AgentBrowser.{build_result, is_success}
use agentic_identity_lab.Tools.AgentBrowser.Token.{
  Az, ask_for_token, first_token, get_access_token, all_candidates, split_scopes,
}

-- What is known of a digest in hexadecimal digits: it has no spaces, and looks like no credential.
pub record IsOpaque (digest : String) : Type 0 where
  pub plain : strip digest ≡ digest
  pub harmless : contains_sensitive_text digest ≡ false

-- Whatever the BFF answers, the harness finds nothing in the command's result that is not redacted.
pub build_result-IsRedacted :
    (host : Host) (digest : String → String) (url : String) (status : ℤ) (payload : Dict)
    (path : String)
    → IsOpaque (digest url)
    → find_sensitive_artifact_paths host (dict (build_result digest url status payload)) path ≡ []
unfolding build_result IsRedacted is_sensitive_key contains_sensitive_text has_any lower
build_result-IsRedacted host digest url status payload path opaque =
    (find_sensitive_artifact_paths_iff host (dict (build_result digest url status payload)) path).1
      (refl, tt, (refl, tt, (refl, tt, (refl, tt, (refl, opaque.harmless, (refl, refl, tt))))))

-- The harness normalizes the result to itself.
pub normalize_live_result-build_result :
    (host : Host) (digest : String → String) (url : String) (status : ℤ) (payload : Dict)
    → ReadsBack host
    → IsOpaque (digest url)
    → normalize_live_result host (build_result digest url status payload)
      ≡ build_result digest url status payload
unfolding build_result normalize_live_result to_bool to_stripped to_text get_either lookup
normalize_live_result-build_result host digest url status payload reads opaque =
    rw (to_int_lem host status (pos 0) reads, opaque.plain)

is_success_iff :
    (status : ℤ) → (is_success status ≡ true) ↔ ((pos 199 <ℤ status) × (status <ℤ pos 300))
is_success_iff (pos n) = (λ h. ground arith, λ (a, b). ground arith)
is_success_iff (negsuc n) = (λ h. ground arith, λ (a, b). ground arith)

-- What the harness asks of the BFF's answer.
pub record IsSession (status expected : ℤ) (payload : Dict) : Type 0 where
  pub same : status ≡ expected
  pub above : pos 199 <ℤ status
  pub below : status <ℤ pos 300
  pub session : truthy (get "session_id" payload) ≡ true

-- If the host reads the numbers back that it prints, the harness accepts the command's result exactly
-- if the BFF answered with the expected status, that status is from 200 to 299, and the answer has a
-- session id.
pub evaluate_live_result-build_result :
    (host : Host) (digest : String → String) (url : String) (status expected : ℤ) (payload : Dict)
    → ReadsBack host
    → (evaluate_live_result host
          (normalize_live_result host (build_result digest url status payload))
          expected
        ≡ [])
      ↔ IsSession status expected payload
unfolding build_result to_bool get_either lookup
evaluate_live_result-build_result host digest url status expected payload reads =
    let (to, from) =
      evaluate_live_result_iff host (build_result digest url status payload) expected reads in
    (
      λ h.
          let s = to h in
          record {
            same = sym (to_int_lem host status (pos 0) reads) ∙ s.status;
            above = ((is_success_iff status).0 s.ok).0;
            below = ((is_success_iff status).0 s.ok).1;
            session = s.session;
          },
      λ s. from record {
        status = to_int_lem host status (pos 0) reads ∙ s.same;
        ok = (is_success_iff status).1 (s.above, s.below);
        session = s.session;
      },
    )

-- A token that the CLI gave for one of the candidates.
pub record IsIssued (host : Host) (loads : String → Option Value) (az : Az)
    (candidates : List String) (token : String) : Type 0 where
  pub candidate : String
  pub asked : contains candidate candidates ≡ true
  pub answer : ask_for_token host loads az candidate ≡ ok token
  pub not_blank : is_blank token ≡ false

first_token-IsIssued :
    (host : Host) (loads : String → Option Value) (az : Az) (candidates : List String)
    (token : String)
    → first_token host loads az candidates ≡ ok token
    → IsIssued host loads az candidates token
unfolding first_token contains
first_token-IsIssued host loads az [] token h = absurd cc
first_token-IsIssued host loads az (c ∷ rest) token h =
    let (answer, q, h₁) = >>=-eq-ok (ask_for_token host loads az c) _ h in
    from_answer (first_token-IsIssued host loads az rest token) answer q (is_blank answer) refl h₁
  where
    from_answer :
        (first_token host loads az rest ≡ ok token → IsIssued host loads az rest token)
        → (answer : String) → ask_for_token host loads az c ≡ ok answer
        → (b : Bool) → is_blank answer ≡ b
        → (if b then first_token host loads az rest else ok answer) ≡ ok token
        → IsIssued host loads az (c ∷ rest) token
    from_answer later_issued answer q true blank k =
        let later = later_issued k in
        record {
          candidate = later.candidate;
          asked = ground (arith, later.asked);
          answer = later.answer;
          not_blank = later.not_blank;
        }
    from_answer later_issued answer q false blank k =
        let same : answer ≡ token = ok_injective k in
        record {
          candidate = c;
          asked = ground (arith, eq_iff c c);
          answer = q ∙ ap ok same;
          not_blank = ap is_blank (sym same) ∙ blank;
        }

-- The token that is sent is not blank, and the CLI gave it for a candidate of a configured scope.
pub get_access_token-IsIssued :
    (host : Host) (loads : String → Option Value) (az : Az) (scope_value token : String)
    → get_access_token host loads az scope_value ≡ ok token
    → IsIssued host loads az (all_candidates (split_scopes scope_value)) token
unfolding get_access_token
get_access_token-IsIssued host loads az scope_value token h =
    first_token-IsIssued host loads az (all_candidates (split_scopes scope_value)) token h
