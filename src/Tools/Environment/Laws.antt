-- ===== src/Tools/Environment/Laws.antt =====
-- The check passes exactly on the environments, secrets and variables that the profile names.
use agentic_identity_lab.Prelude.{
  ◌≡◌, refl, ◌↔◌, ◌∙◌, inl, inr, ap, sym, String, Bool, true, false, not, ◌&&◌, List, [], ◌∷◌,
  arith, eq_iff, All, is_nil, contains, contains-dedupe, contains-keep, contains-sorted, keep,
  dedupe, Bool-cases, ◌==◌,
}
use agentic_identity_lab.Tools.Environment.{
  NamesByEnvironment, ContractProfile, names_of, missing_of, missing_by_environment,
  evaluate_contract, is_failed,
}

-- Every name of the one list is in the other.
abbrev pub IsCovered : (required available : List String) → Type 0
IsCovered required available = All (λ name. contains name available ≡ true) required

-- `All` of a test is that it holds of each member.
All-contains :
    (p : String → Bool) (xs : List String)
    → All (λ x. p x ≡ true) xs
    → (a : String) → contains a xs ≡ true
    → p a ≡ true
unfolding contains
All-contains p [] h a held = absurd cc
All-contains p (x ∷ xs) (now, later) a held = elim (Bool-cases (x == a)) [
  | inl same ↦ sym (ap p ((eq_iff x a).0 same)) ∙ now
  | inr other ↦ All-contains p xs later a (ground arith)
]

All-of_contains :
    (p : String → Bool) (xs : List String)
    → ((a : String) → contains a xs ≡ true → p a ≡ true)
    → All (λ x. p x ≡ true) xs
unfolding contains
All-of_contains p [] h = tt
All-of_contains p (x ∷ xs) h =
    (h x (ground (arith, eq_iff x x)), All-of_contains p xs λ a held. h a (ground arith))

nil_of_contains : (xs : List String) → ((a : String) → contains a xs ≡ false) → xs ≡ []
unfolding contains
nil_of_contains [] h = refl
nil_of_contains (x ∷ xs) h = absurd (ground (arith, h x, eq_iff x x))

contains-missing_of :
    (a : String) (required available : List String)
    → contains a (missing_of required available)
      ≡ (not (contains a available) && contains a required)
unfolding missing_of
contains-missing_of a required available = ground (
  arith,
  contains-sorted a (keep (λ name. not (contains name available)) (dedupe required)),
  contains-keep (λ name. not (contains name available)) a (dedupe required),
  contains-dedupe a required,
)

missing_of_iff :
    (required available : List String)
    → (missing_of required available ≡ []) ↔ IsCovered required available
unfolding contains
missing_of_iff required available = (
  λ h.
      All-of_contains (λ name. contains name available) required
        λ a held. ground (arith, contains-missing_of a required available, ap (contains a) h, held),
  λ covered. nil_of_contains (missing_of required available) λ a.
      contains-missing_of a required available
      ∙ uncovered (contains a available) (contains a required)
          (All-contains (λ name. contains name available) required covered a),
)
  where
    uncovered : (b c : Bool) → (c ≡ true → b ≡ true) → (not b && c) ≡ false
    uncovered b true h = ground (arith, h refl)
    uncovered b false h = ground arith

-- Each environment's names are all found.
abbrev pub IsComplete : (required found : NamesByEnvironment) → Type 0
IsComplete required found =
    All (λ (environment, names). IsCovered names (names_of environment found)) required

missing_by_environment_iff :
    (required found : NamesByEnvironment)
    → (missing_by_environment required found ≡ []) ↔ IsComplete required found
unfolding missing_by_environment
missing_by_environment_iff [] found = (λ h. tt, λ h. refl)
missing_by_environment_iff ((environment, names) ∷ rest) found =
    let (to, from) = missing_by_environment_iff rest found in
    let (covered, back) = missing_of_iff names (names_of environment found) in
    elim (Bool-cases (is_nil (missing_of names (names_of environment found)))) [
      | inl nothing ↦ (
        λ h. (covered (ground arith), to (rw nothing at h)),
        λ (now, later). rw nothing (from later),
      )
      | inr something ↦
          (λ h. absurd (cc (rw something at h)), λ (now, later). absurd (ground (arith, back now)))
    ]

-- What the check demands of the names that the queries found.
pub record IsSatisfied (profile : ContractProfile) (existing : List String)
    (secrets variables : NamesByEnvironment) : Type 0 where
  pub environments : IsCovered profile.required_environments existing
  pub secrets_found : IsComplete profile.required_secrets secrets
  pub variables_found : IsComplete profile.required_variables variables

-- The evaluation fails nowhere exactly when each required environment exists and each required
-- secret and variable is among its environment's names; optional variables never matter.
pub evaluate_contract_iff :
    (profile : ContractProfile) (existing : List String) (secrets variables : NamesByEnvironment)
    → (is_failed (evaluate_contract profile existing secrets variables) ≡ false)
      ↔ IsSatisfied profile existing secrets variables
unfolding evaluate_contract
evaluate_contract_iff profile existing secrets variables =
    let (e, e') = missing_of_iff profile.required_environments existing in
    let (s, s') = missing_by_environment_iff profile.required_secrets secrets in
    let (v, v') = missing_by_environment_iff profile.required_variables variables in
    (
      λ h. record {
        environments = e (ground arith);
        secrets_found = s (ground arith);
        variables_found = v (ground arith);
      },
      λ c. ground (arith, e' c.environments, s' c.secrets_found, v' c.variables_found),
    )
