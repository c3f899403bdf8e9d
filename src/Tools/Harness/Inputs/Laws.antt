-- ===== src/Tools/Harness/Inputs/Laws.antt =====
-- What the input check promises of the environment.
use agentic_identity_lab.Prelude.{
  ◌≡◌, refl, ◌∙◌, sym, ◌⊎◌, inl, inr, String, Bool, true, false, Option, none, some, List, [], ◌∷◌,
  ◌++◌, arith, eq_iff, Bool-cases, contains, is_blank, strip, lower, or_default, ◌==◌, ◌<+>◌,
  if◌then◌else◌, ℤ, pos,
}
use agentic_identity_lab.Result.{ok}
use agentic_identity_lab.Host.{Host}
use agentic_identity_lab.Auth.Settings.{Environ, getenv}
use agentic_identity_lab.Tools.Shell.{has_any}
use agentic_identity_lab.Tools.Shell.Laws.{append_nil}
use agentic_identity_lab.Tools.Harness.Inputs.{
  get_env, resolve_transport, check_required_protected_input, check_number, check_parsed,
  validate_live_inputs, allowed_transports, is_positive, is_status, placeholder_hints,
}
use agentic_identity_lab.Tools.Harness.Live.{require_env, int_env}

-- A protected input: it is given, and does not look like a placeholder.
pub record IsGiven (env : Environ) (name : String) : Type 0 where
  pub value : String
  pub read : require_env name env ≡ ok value
  pub not_blank : is_blank value ≡ false
  pub real : has_any placeholder_hints (lower value) ≡ false

check_required-IsGiven :
    (env : Environ) (name : String)
    → check_required_protected_input env name ≡ []
    → IsGiven env name
unfolding check_required_protected_input get_env require_env
check_required-IsGiven env name h = by_value (getenv name env) refl h
  where
    by_value :
        (o : Option String)
        → getenv name env ≡ o
        → (if is_blank (strip (or_default o ""))
            then ("[live] missing required protected input: " <+> name) ∷ []
            else if has_any placeholder_hints (lower (strip (or_default o "")))
            then ("[live] protected input appears placeholder-like: " <+> name) ∷ []
            else [])
          ≡ []
        → IsGiven env name
    by_value none e k = absurd cc
    by_value (some s) e k = record {
      value = strip s;
      read = rw e;
      not_blank = ground arith;
      real = ground arith;
    }

-- A number that int() reads, within its range.
pub record IsNumber (host : Host) (env : Environ) (name default : String) (is_valid : ℤ → Bool)
    : Type 0 where
  pub number : ℤ
  pub read : int_env host name default env ≡ ok number
  pub valid : is_valid number ≡ true

-- What int() reads of the defaults.
pub record ReadsDefaults (host : Host) : Type 0 where
  pub status : host.int_of "200" ≡ some (pos 200)
  pub timeout : host.int_of "30" ≡ some (pos 30)
  pub command_timeout : host.int_of "120" ≡ some (pos 120)

check_number-IsNumber :
    (host : Host) (env : Environ) (name default : String) (is_valid : ℤ → Bool) (message : String)
    (d : ℤ)
    → host.int_of default ≡ some d
    → is_valid d ≡ true
    → check_number host env name default is_valid message ≡ []
    → IsNumber host env name default is_valid
unfolding check_number int_env
check_number-IsNumber host env name default is_valid message d int_d valid_d h =
    elim (Bool-cases (is_blank (strip (get_env name default env)))) [
      | inl blank ↦ record { number = d; read = rw (blank, int_d); valid = valid_d }
      | inr given ↦
          by_parsed given (host.int_of (strip (get_env name default env))) refl (rw given at h)
    ]
  where
    by_parsed :
        is_blank (strip (get_env name default env)) ≡ false
        → (o : Option ℤ) → host.int_of (strip (get_env name default env)) ≡ o
        → check_parsed o is_valid
            ("[live] " <+> name <+> message)
            ("[live] " <+> name <+> " must be an integer")
          ≡ []
        → IsNumber host env name default is_valid
    by_parsed given none e k = absurd cc
    by_parsed given (some n) e k = record { number = n; read = rw (given, e); valid = ground arith }

-- What a transport demands of the environment.
pub data IsReady (host : Host) (env : Environ) : String → Type 0 where
  playwright_ready :
      IsGiven env "M9_PLAYWRIGHT_CHAT_URL"
      → IsGiven env "M9_PLAYWRIGHT_ACCESS_TOKEN"
      → IsReady host env "playwright"
  agent_browser_ready :
      IsGiven env "M9_PLAYWRIGHT_CHAT_URL"
      → IsGiven env "M9_AGENT_BROWSER_COMMAND"
      → IsNumber host env "M9_AGENT_BROWSER_TIMEOUT_SECONDS" "120" is_positive
      → IsReady host env "agent-browser"
  manual_ready : IsGiven env "M9_BROWSER_EVIDENCE_JSON" → IsReady host env "manual-artifact"

transport_cases :
    (t : String)
    → contains t allowed_transports ≡ true
    → ((t ≡ "playwright") ⊎ (t ≡ "agent-browser") ⊎ (t ≡ "manual-artifact"))
unfolding contains
transport_cases t h = elim (Bool-cases ("playwright" == t)) [
  | inl a ↦ inl (sym ((eq_iff "playwright" t).0 a))
  | inr na ↦ elim (Bool-cases ("agent-browser" == t)) [
    | inl b ↦ inr (inl (sym ((eq_iff "agent-browser" t).0 b)))
    | inr nb ↦ inr (inr (sym ((eq_iff "manual-artifact" t).0 (ground arith))))
  ]
]

-- The inputs of a live run in the given transport.
pub record IsValidated (host : Host) (env : Environ) (transport : String) : Type 0 where
  pub ready : IsReady host env transport
  pub expected_status : IsNumber host env "M9_PLAYWRIGHT_EXPECTED_STATUS" "200" is_status
  pub timeout_seconds : IsNumber host env "M9_PLAYWRIGHT_TIMEOUT_SECONDS" "30" is_positive

numbers_valid :
    (host : Host) (env : Environ)
    → ReadsDefaults host
    → (a b : List String)
    → check_number host env "M9_PLAYWRIGHT_EXPECTED_STATUS" "200" is_status
        " must be a valid HTTP status code"
      ≡ a
    → check_number host env "M9_PLAYWRIGHT_TIMEOUT_SECONDS" "30" is_positive
        " must be a positive integer"
      ≡ b
    → a ++ b ≡ []
    → IsNumber host env "M9_PLAYWRIGHT_EXPECTED_STATUS" "200" is_status
      × IsNumber host env "M9_PLAYWRIGHT_TIMEOUT_SECONDS" "30" is_positive
numbers_valid host env reads a b p q h =
    let (x, y) = (append_nil a b).0 h in
    (
      check_number-IsNumber host env "M9_PLAYWRIGHT_EXPECTED_STATUS" "200" is_status
          " must be a valid HTTP status code" (pos 200) reads.status refl (p ∙ x),
      check_number-IsNumber host env "M9_PLAYWRIGHT_TIMEOUT_SECONDS" "30" is_positive
          " must be a positive integer" (pos 30) reads.timeout refl (q ∙ y),
    )

-- An accepted environment has all that the transport needs, and numbers in range.
pub validate_live_inputs-IsValidated :
    (host : Host) (env : Environ) (transport_override : Option String)
    → ReadsDefaults host
    → validate_live_inputs host env transport_override ≡ []
    → IsValidated host env (resolve_transport env transport_override)
unfolding validate_live_inputs contains
validate_live_inputs-IsValidated host env o reads h =
    elim (Bool-cases (contains (resolve_transport env o) allowed_transports)) [
      | inr unknown ↦ absurd (ground arith)
      | inl known ↦ elim (transport_cases (resolve_transport env o) known) [
        | inl e ↦ rw e (playwright (rw e at h))
        | inr (inl e) ↦ rw e (agent_browser (rw e at h))
        | inr (inr e) ↦ rw e (manual (rw e at h))
      ]
    ]
  where
    expected_status : List String
    expected_status =
        check_number host env "M9_PLAYWRIGHT_EXPECTED_STATUS" "200" is_status
          " must be a valid HTTP status code"

    timeout_seconds : List String
    timeout_seconds =
        check_number host env "M9_PLAYWRIGHT_TIMEOUT_SECONDS" "30" is_positive
          " must be a positive integer"

    numbers : List String
    numbers = expected_status ++ timeout_seconds

    url : List String
    url = check_required_protected_input env "M9_PLAYWRIGHT_CHAT_URL"

    playwright :
        url ++ (check_required_protected_input env "M9_PLAYWRIGHT_ACCESS_TOKEN" ++ numbers) ≡ []
        → IsValidated host env "playwright"
    playwright k =
        let (a, k₁) = (append_nil url _).0 k in
        let (b, k₂) =
          (append_nil (check_required_protected_input env "M9_PLAYWRIGHT_ACCESS_TOKEN") numbers).0
            k₁ in
        let (s, t) = numbers_valid host env reads expected_status timeout_seconds refl refl k₂ in
        record {
          ready =
              playwright_ready (check_required-IsGiven env "M9_PLAYWRIGHT_CHAT_URL" a)
                (check_required-IsGiven env "M9_PLAYWRIGHT_ACCESS_TOKEN" b);
          expected_status = s;
          timeout_seconds = t;
        }

    manual :
        check_required_protected_input env "M9_BROWSER_EVIDENCE_JSON" ++ numbers ≡ []
        → IsValidated host env "manual-artifact"
    manual k =
        let (a, k₁) =
          (append_nil (check_required_protected_input env "M9_BROWSER_EVIDENCE_JSON") numbers).0
            k in
        let (s, t) = numbers_valid host env reads expected_status timeout_seconds refl refl k₁ in
        record {
          ready = manual_ready (check_required-IsGiven env "M9_BROWSER_EVIDENCE_JSON" a);
          expected_status = s;
          timeout_seconds = t;
        }

    command : List String
    command = check_required_protected_input env "M9_AGENT_BROWSER_COMMAND"

    command_timeout : List String
    command_timeout =
        check_number host env "M9_AGENT_BROWSER_TIMEOUT_SECONDS" "120" is_positive
          " must be a positive integer"

    agent_browser :
        url ++ ((command ++ command_timeout) ++ numbers) ≡ [] → IsValidated host env "agent-browser"
    agent_browser k =
        let (a, k₁) = (append_nil url _).0 k in
        let (b, k₂) = (append_nil (command ++ command_timeout) numbers).0 k₁ in
        let (c, d) = (append_nil command command_timeout).0 b in
        let (s, t) = numbers_valid host env reads expected_status timeout_seconds refl refl k₂ in
        record {
          ready =
              agent_browser_ready (check_required-IsGiven env "M9_PLAYWRIGHT_CHAT_URL" a)
                (check_required-IsGiven env "M9_AGENT_BROWSER_COMMAND" c)
                (check_number-IsNumber host env "M9_AGENT_BROWSER_TIMEOUT_SECONDS" "120" is_positive
                  " must be a positive integer" (pos 120) reads.command_timeout refl d);
          expected_status = s;
          timeout_seconds = t;
        }
