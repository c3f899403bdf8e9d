-- ===== src/Tools/Preflight/Laws.antt =====
-- What a passed preflight promises.
use agentic_identity_lab.Prelude.{
  ◌≡◌, refl, ◌↔◌, ℕ, String, Bool, true, false, not, ◌&&◌, List, [], ◌∷◌, arith, All, is_blank,
  is_nil, strip, if◌then◌else◌, ◌<+>◌,
}
use agentic_identity_lab.Auth.Settings.{Environ}
use agentic_identity_lab.Tools.Shell.Laws.{append_nil}
use agentic_identity_lab.Tools.Harness.Inputs.{get_env}
use agentic_identity_lab.Tools.Preflight.{
  looks_placeholder, is_guid, is_guid_var, check_variable, run_checks, main,
}

-- A variable that is set to a real value, which is a GUID where the name wants one.
pub record IsLive (env : Environ) (name : String) : Type 0 where
  pub given : is_blank (strip (get_env name "" env)) ≡ false
  pub real : looks_placeholder (get_env name "" env) ≡ false
  pub shaped : (is_guid_var name && not (is_guid (strip (get_env name "" env)))) ≡ false

check_variable_iff :
    (env : Environ) (context name : String)
    → (check_variable env context name ≡ []) ↔ IsLive env name
unfolding check_variable
check_variable_iff env context name =
    by_tests (is_blank (strip (get_env name "" env))) (looks_placeholder (get_env name "" env))
      (is_guid_var name && not (is_guid (strip (get_env name "" env)))) refl refl refl
  where
    by_tests :
        (a b c : Bool)
        → is_blank (strip (get_env name "" env)) ≡ a
        → looks_placeholder (get_env name "" env) ≡ b
        → (is_guid_var name && not (is_guid (strip (get_env name "" env)))) ≡ c
        → ((if a
              then ("[" <+> context <+> "] missing required variable: " <+> name) ∷ []
              else if b
              then ("[" <+> context <+> "] variable appears placeholder-like: " <+> name) ∷ []
              else if c
              then ("[" <+> context <+> "] expected GUID-like value for: " <+> name) ∷ []
              else [])
            ≡ [])
          ↔ IsLive env name
    by_tests true b c p q r = (λ h. absurd cc, λ l. absurd (cc l.given))
    by_tests false true c p q r = (λ h. absurd cc, λ l. absurd (cc l.real))
    by_tests false false true p q r = (λ h. absurd cc, λ l. absurd (cc l.shaped))
    by_tests false false false p q r = (λ h. record { given = p; real = q; shaped = r }, λ l. refl)

run_checks_iff :
    (env : Environ) (required : List String) (context : String)
    → (run_checks env required context ≡ []) ↔ All (IsLive env) required
unfolding run_checks
run_checks_iff env [] context = (λ h. tt, λ h. refl)
run_checks_iff env (name ∷ rest) context =
    let (split, both) =
      append_nil (check_variable env context name) (run_checks env rest context) in
    let (to, from) = check_variable_iff env context name in
    let (all, none) = run_checks_iff env rest context in
    (λ h. let (a, b) = split h in (to a, all b), λ (a, b). both (from a, none b))

-- The preflight exits with 0 exactly if every required variable is set, looks like no placeholder,
-- and is a GUID where its name ends in _ID.
pub main_iff :
    (env : Environ) (required : List String) (context : String)
    → (main env required context ≡ 0) ↔ All (IsLive env) required
unfolding main
main_iff env required context =
    let (to, from) = run_checks_iff env required context in
    (λ h. to (nothing (run_checks env required context) h), λ h. rw (from h) refl)
  where
    nothing :
        (offenders : List String)
        → ◌≡◌ {A = ℕ} (if is_nil offenders then 0 else 1) 0
        → offenders ≡ []
    nothing [] h = refl
    nothing (x ∷ xs) h = absurd (omega arith)
