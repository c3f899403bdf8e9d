-- ===== src/Tools/Environment/Main.antt =====
-- What an exit code of 0 tells of the GitHub CLI's answers, and what else can come out.
use agentic_identity_lab.Prelude.{
  ◌≡◌, refl, ◌∙◌, ap, sym, subst, ◌⊎◌, inl, inr, String, false, some, List, [], ◌∷◌, arith, eq_iff,
  All, contains, Bool-cases, ◌==◌,
}
use agentic_identity_lab.Result.{
  Exception, Result, ok, raise, runtime_error, ◌>>=◌, >>=-eq-ok, ok_injective,
}
use agentic_identity_lab.Tools.Shell.{Completed}
use agentic_identity_lab.Tools.Environment.{
  NamesByEnvironment, Evaluation, exit_code, is_zero, Args, Shell, names_of, collect, evaluate,
  names_printed, query_names, requested_profile, is_failed, evaluate_contract,
  fetch_environment_names, fetch_environment_metadata_names, main,
}
use agentic_identity_lab.Tools.Environment.Laws.{IsCovered, IsComplete, evaluate_contract_iff}

-- The names that the collection holds for an environment are what the CLI printed for it, or none.
abbrev IsFetched : Shell → (repo metadata : String) → NamesByEnvironment → String → Type 0
IsFetched run repo metadata found environment =
    (names_of environment found ≡ [])
    ⊎ (fetch_environment_metadata_names run repo environment metadata
        ≡ ok (names_of environment found))

names_of-IsFetched :
    (run : Shell) (repo metadata e environment : String) (names : List String)
    (found : NamesByEnvironment)
    → fetch_environment_metadata_names run repo e metadata ≡ ok names
    → IsFetched run repo metadata found environment
    → IsFetched run repo metadata ((e, names) ∷ found) environment
unfolding names_of
names_of-IsFetched run repo metadata e environment names found h later =
    elim (Bool-cases (e == environment)) [
      | inl same ↦ rw same (inr (rw (sym ((eq_iff e environment).0 same)) h))
      | inr other ↦ rw other later
    ]

both-IsFetched :
    (run : Shell) (repo environment : String) (p q : NamesByEnvironment × NamesByEnvironment)
    → p ≡ q
    → IsFetched run repo "secrets" p.0 environment × IsFetched run repo "variables" p.1 environment
    → IsFetched run repo "secrets" q.0 environment × IsFetched run repo "variables" q.1 environment
both-IsFetched run repo environment p q same =
    subst
      (λ r.
        IsFetched run repo "secrets" r.0 environment
        × IsFetched run repo "variables" r.1 environment)
      same

collect-IsFetched :
    (run : Shell) (repo : String) (required existing : List String)
    (found : NamesByEnvironment × NamesByEnvironment)
    → collect run repo required existing ≡ ok found
    → (environment : String)
    → IsFetched run repo "secrets" found.0 environment
      × IsFetched run repo "variables" found.1 environment
unfolding collect names_of
collect-IsFetched run repo [] existing found h environment =
    both-IsFetched run repo environment ([], []) found (ok_injective h) (inl refl, inl refl)
collect-IsFetched run repo (e ∷ rest) existing found h environment =
    elim (Bool-cases (contains e existing)) [
      | inl here ↦
          let (names, q₁, h₁) =
            >>=-eq-ok (fetch_environment_metadata_names run repo e "secrets") _ (rw here at h) in
          let (values, q₂, h₂) =
            >>=-eq-ok (fetch_environment_metadata_names run repo e "variables") _ h₁ in
          let (more, q₃, h₃) = >>=-eq-ok (collect run repo rest existing) _ h₂ in
          joined names values more q₁ q₂ h₃
            (collect-IsFetched run repo rest existing more q₃ environment)
      | inr absent ↦ collect-IsFetched run repo rest existing found (rw absent at h) environment
    ]
  where
    joined :
        (names values : List String) (more : NamesByEnvironment × NamesByEnvironment)
        → fetch_environment_metadata_names run repo e "secrets" ≡ ok names
        → fetch_environment_metadata_names run repo e "variables" ≡ ok values
        → ok ((e, names) ∷ more.0, (e, values) ∷ more.1) ≡ ok found
        → IsFetched run repo "secrets" more.0 environment
          × IsFetched run repo "variables" more.1 environment
        → IsFetched run repo "secrets" found.0 environment
          × IsFetched run repo "variables" found.1 environment
    joined names values more q₁ q₂ h₃ (s, v) =
        both-IsFetched run repo environment ((e, names) ∷ more.0, (e, values) ∷ more.1) found
          (ok_injective h₃)
          (
            names_of-IsFetched run repo "secrets" e environment names more.0 q₁ s,
            names_of-IsFetched run repo "variables" e environment values more.1 q₂ v,
          )

-- What was asked of the CLI and found: the names that it printed for the environment, which hold
-- those that are required of it.
abbrev pub IsPrinted : Shell → (repo metadata : String) → String × List String → Type 0
IsPrinted run repo metadata (environment, names) =
    (names ≡ [])
    ⊎ ((printed : List String) × (fetch_environment_metadata_names run repo environment metadata
          ≡ ok printed)
        × IsCovered names printed)

covered_by_nothing : (names : List String) → IsCovered names [] → names ≡ []
unfolding contains
covered_by_nothing [] h = refl
covered_by_nothing (x ∷ xs) (h, rest) = absurd cc

IsComplete-IsPrinted :
    (run : Shell) (repo metadata : String) (found required : NamesByEnvironment)
    → ((environment : String) → IsFetched run repo metadata found environment)
    → IsComplete required found
    → All (IsPrinted run repo metadata) required
IsComplete-IsPrinted run repo metadata found [] fetched h = tt
IsComplete-IsPrinted run repo metadata found ((e, names) ∷ rest) fetched (covered, h) = (
  elim (fetched e) [
    | inl nothing ↦ inl (covered_by_nothing names (subst (IsCovered names) nothing covered))
    | inr printed ↦ inr (names_of e found, printed, covered)
  ],
  IsComplete-IsPrinted run repo metadata found rest fetched h,
)

pub record IsPresent (run : Shell) (args : Args) : Type 0 where
  pub existing : List String
  pub listed : fetch_environment_names run args.repo ≡ ok existing
  pub environments : IsCovered (requested_profile args).required_environments existing
  pub secrets_printed :
      All (IsPrinted run args.repo "secrets") (requested_profile args).required_secrets
  pub variables_printed :
      All (IsPrinted run args.repo "variables") (requested_profile args).required_variables

evaluate-IsPresent :
    (run : Shell) (args : Args) (e : Evaluation)
    → evaluate run args ≡ ok e
    → is_failed e ≡ false
    → IsPresent run args
unfolding evaluate
evaluate-IsPresent run args e h passed =
    let (existing, q₁, h₁) = >>=-eq-ok (fetch_environment_names run args.repo) _ h in
    let (found, q₂, h₂) =
      >>=-eq-ok (collect run args.repo (requested_profile args).required_environments existing)
        (λ found. ok (evaluate_contract (requested_profile args) existing found.0 found.1)) h₁ in
    from_found existing found q₁ q₂ h₂
  where
    from_found :
        (existing : List String) (found : NamesByEnvironment × NamesByEnvironment)
        → fetch_environment_names run args.repo ≡ ok existing
        → collect run args.repo (requested_profile args).required_environments existing ≡ ok found
        → ok (evaluate_contract (requested_profile args) existing found.0 found.1) ≡ ok e
        → IsPresent run args
    from_found existing found q₁ q₂ h₂ =
        let satisfied =
          (evaluate_contract_iff (requested_profile args) existing found.0 found.1).0
            (ap is_failed (ok_injective h₂) ∙ passed) in
        let fetched =
          collect-IsFetched run args.repo (requested_profile args).required_environments existing
            found q₂ in
        record {
          existing = existing;
          listed = q₁;
          environments = satisfied.environments;
          secrets_printed =
              IsComplete-IsPrinted run args.repo "secrets" found.0
                (requested_profile args).required_secrets (λ c. (fetched c).0)
                satisfied.secrets_found;
          variables_printed =
              IsComplete-IsPrinted run args.repo "variables" found.1
                (requested_profile args).required_variables (λ c. (fetched c).1)
                satisfied.variables_found;
        }

-- The check exits with 0 only if the GitHub CLI printed each required environment, and for each
-- environment the names of all its required secrets and variables.
pub main-IsPresent : (run : Shell) (args : Args) → main run args ≡ some 0 → IsPresent run args
unfolding main
main-IsPresent run args h = by_result (evaluate run args) refl h
  where
    by_result :
        (r : Result Evaluation) → evaluate run args ≡ r → exit_code r ≡ some 0 → IsPresent run args
    by_result (ok e) q code = evaluate-IsPresent run args e q (ground arith)
    by_result (raise (runtime_error m)) q code = absurd (ground arith)
    by_result (raise _) q code = absurd cc

-- A call succeeds, raises a RuntimeError, or passes on what running a command raised.
abbrev IsRuntime : {A : Type 0} → Shell → Result A → Type 0
IsRuntime run (ok a) = Unit
IsRuntime run (raise exception) =
    ((message : String) × (exception ≡ runtime_error message))
    ⊎ ((command : List String) × (run command ≡ raise exception))

IsRuntime->>= :
    {A B : Type 0} (run : Shell) (m : Result A) (f : A → Result B)
    → IsRuntime run m
    → ((a : A) → IsRuntime run (f a))
    → IsRuntime run (m >>= f)
IsRuntime->>= run (ok a) f h k = k a
IsRuntime->>= run (raise e) f h k = h

run-IsRuntime :
    (run : Shell) (command : List String) (r : Result Completed) → run command ≡ r → IsRuntime run r
run-IsRuntime run command (ok done) h = tt
run-IsRuntime run command (raise e) h = inr (command, h)

query_names-IsRuntime :
    (run : Shell) (path jq failure : String) → IsRuntime run (query_names run path jq failure)
unfolding query_names names_printed
query_names-IsRuntime run path jq failure =
    let command = "gh" ∷ "api" ∷ path ∷ "--paginate" ∷ "--jq" ∷ jq ∷ [] in
    IsRuntime->>= run (run command) (names_printed failure)
      (run-IsRuntime run command (run command) refl)
      λ proc. elim (Bool-cases (is_zero proc.returncode)) [
        | inl fine ↦ rw fine tt
        | inr failed ↦ rw failed (inl (_, refl))
      ]

collect-IsRuntime :
    (run : Shell) (repo : String) (required existing : List String)
    → IsRuntime run (collect run repo required existing)
unfolding collect fetch_environment_metadata_names contains
collect-IsRuntime run repo [] existing = tt
collect-IsRuntime run repo (e ∷ rest) existing = elim (Bool-cases (contains e existing)) [
  | inl here ↦ rw here (
      IsRuntime->>= run _ _ (query_names-IsRuntime run _ _ _) λ names.
        IsRuntime->>= run _ _ (query_names-IsRuntime run _ _ _)
          λ values. IsRuntime->>= run _ _ (collect-IsRuntime run repo rest existing) λ more. tt)
  | inr absent ↦ rw absent (collect-IsRuntime run repo rest existing)
]

-- Whatever the CLI answers, the check ends with one of the exit codes 0, 1 and 2, or with an exception
-- that running a command raised: no other one comes out, since only known kinds of metadata are
-- asked for.
pub main_codes :
    (run : Shell) (args : Args)
    → (main run args ≡ some 0)
      ⊎ (main run args ≡ some 1)
      ⊎ (main run args ≡ some 2)
      ⊎ ((e : Exception) × (evaluate run args ≡ raise e)
          × ((command : List String) × (run command ≡ raise e)))
unfolding main evaluate fetch_environment_names
main_codes run args = by_result (evaluate run args) refl (
    IsRuntime->>= run (fetch_environment_names run args.repo) _ (query_names-IsRuntime run _ _ _)
      λ existing.
        IsRuntime->>= run
          (collect run args.repo (requested_profile args).required_environments existing)
          (λ found. ok (evaluate_contract (requested_profile args) existing found.0 found.1))
          (collect-IsRuntime run args.repo (requested_profile args).required_environments existing)
          λ found. tt)
  where
    by_result :
        (r : Result Evaluation)
        → evaluate run args ≡ r
        → IsRuntime run r
        → (exit_code r ≡ some 0)
          ⊎ (exit_code r ≡ some 1)
          ⊎ (exit_code r ≡ some 2)
          ⊎ ((e : Exception) × (evaluate run args ≡ raise e)
              × ((command : List String) × (run command ≡ raise e)))
    by_result (ok e) same h = elim (Bool-cases (is_failed e)) [
      | inl failed ↦ rw failed (inr (inl refl))
      | inr passed ↦ rw passed (inl refl)
    ]
    by_result (raise e) same (inr raised) = inr (inr (inr (e, same, raised)))
    by_result (raise e) same (inl (m, h)) = inr (inr (inl (ap (λ x. exit_code (raise x)) h)))
