-- ===== src/Tools/Trace/Laws.antt =====
-- What accepted traces show.
use agentic_identity_lab.Prelude.{
  ◌≡◌, refl, ap, ◌↔◌, String, Bool, true, false, not, List, [], ◌∷◌, ◌++◌, arith, All, contains,
  is_nil, is_in, keep, length, lower, map, ◌<+>◌, pos,
}
use agentic_identity_lab.Value.{Dict, int}
use agentic_identity_lab.Host.{Host}
use agentic_identity_lab.Tools.Shell.{offender_if}
use agentic_identity_lab.Tools.Shell.Laws.{append_nil, offender_if_iff, keep_nil, All-map}
use agentic_identity_lab.Tools.Trace.{role_of, haystack_of, report_missing, evaluate_trace_results}

-- Every hop of the chain and every operation was seen, and nothing leaked.
pub record IsTraced (host : Host) (positive negative : List Dict) (roles operations : List String)
    : Type 0 where
  pub roles_seen : All (λ role. contains role (map (role_of host) positive) ≡ true) roles
  pub rows_given : is_nil positive ≡ false
  pub operations_seen :
      All (λ operation. is_in (lower operation) (haystack_of host positive) ≡ true) operations
  pub nothing_leaked : is_nil negative ≡ true

report_missing_iff :
    (message : String) (p : String → Bool) (xs : List String)
    → (report_missing message (keep (λ x. not (p x)) xs) ≡ []) ↔ All (λ x. p x ≡ true) xs
report_missing_iff message p xs =
    let (to, from) = keep_nil (λ x. not (p x)) xs in
    (
      λ h. All-map xs (λ x e. ground arith) (to (nothing (keep (λ x. not (p x)) xs) h)),
      λ h. ap (report_missing message) (from (All-map xs (λ x e. ground arith) h)),
    )
  where
    nothing : (ys : List String) → report_missing message ys ≡ [] → ys ≡ []
    nothing [] h = refl
    nothing (y ∷ ys) h = absurd cc

nil_iff : (b : Bool) (s : String) → (offender_if (not b) s ≡ []) ↔ (b ≡ true)
nil_iff true s = (λ h. refl, λ h. refl)
nil_iff false s = (λ h. absurd cc, λ h. absurd cc)

-- The traces are accepted exactly if every required role and every required operation is seen in the
-- positive rows, there are such rows, and the query for leaks gave none.
pub evaluate_trace_results_iff :
    (host : Host) (positive negative : List Dict) (roles operations : List String)
    → (evaluate_trace_results host positive negative roles operations ≡ [])
      ↔ IsTraced host positive negative roles operations
unfolding evaluate_trace_results
evaluate_trace_results_iff host positive negative roles operations =
    let role_message : String = "positive trace results missing required roles: " in
    let operation_message : String = "positive trace results missing required operations: " in
    let empty_message : String = "positive trace results are empty" in
    let leak_message : String =
      "negative leakage query returned " <+> host.repr (int (pos (length negative))) <+> " rows" in
    let seen : String → Bool = λ role. contains role (map (role_of host) positive) in
    let done : String → Bool = λ operation. is_in (lower operation) (haystack_of host positive) in
    let a = report_missing role_message (keep (λ x. not (seen x)) roles) in
    let c = report_missing operation_message (keep (λ x. not (done x)) operations) in
    let b = offender_if (is_nil positive) empty_message in
    let d = offender_if (not (is_nil negative)) leak_message in
    let (roles_to, roles_from) = report_missing_iff role_message seen roles in
    let (operations_to, operations_from) = report_missing_iff operation_message done operations in
    let (given_to, given_from) = offender_if_iff (is_nil positive) empty_message in
    let (clean_to, clean_from) = nil_iff (is_nil negative) leak_message in
    (
      λ h.
          let (p, h₁) = (append_nil a (b ++ (c ++ d))).0 h in
          let (q, h₂) = (append_nil b (c ++ d)).0 h₁ in
          let (r, s) = (append_nil c d).0 h₂ in
          record {
            roles_seen = roles_to p;
            rows_given = given_to q;
            operations_seen = operations_to r;
            nothing_leaked = clean_to s;
          },
      λ t. (append_nil a (b ++ (c ++ d))).1 (
        roles_from t.roles_seen,
        (append_nil b (c ++ d)).1 (
          given_from t.rows_given,
          (append_nil c d).1 (operations_from t.operations_seen, clean_from t.nothing_leaked),
        ),
      ),
    )
