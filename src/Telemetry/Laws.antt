-- ===== src/Telemetry/Laws.antt =====
-- What is exported where, and that no personal claim is recorded.
use agentic_identity_lab.Prelude.{
  ◌≡◌, ◌≢◌, subst, refl, ◌⊎◌, inl, inr, String, Bool, true, false, Option, none, some, List, [],
  ◌∷◌, ◌++◌, arith, is_blank, eq_iff, starts_with, contains, All, Bool-cases, ◌==◌,
}
use agentic_identity_lab.Auth.Settings.{Environ}
use agentic_identity_lab.Telemetry.{
  otel_endpoint_env, connection_string_env, read_stripped, is_switched_off, is_disabled, Exporter,
  azure_monitor, otlp, tracer_provider, Packages, exporter_of, setup_telemetry,
  safe_span_attribute_key, Attribute, text, Span, set_attributes, AuthAttributes, auth_attributes,
  record_auth_attributes, authorized_attribute, aud_attribute, fixture_attribute,
}

-- Where spans go: to Azure Monitor where a connection string is given, else to a given endpoint.
pub data IsConfigured (env : Environ) : Exporter → Type 0 where
  to_azure :
      is_blank (read_stripped connection_string_env env) ≡ false
      → IsConfigured env (azure_monitor (read_stripped connection_string_env env))
  to_otlp :
      is_blank (read_stripped connection_string_env env) ≡ true
      → is_blank (read_stripped otel_endpoint_env env) ≡ false
      → IsConfigured env (otlp (read_stripped otel_endpoint_env env))

exporter_of-IsConfigured :
    (env : Environ) → is_disabled env ≡ false → IsConfigured env (exporter_of env)
unfolding is_disabled exporter_of
exporter_of-IsConfigured env h =
    elim (Bool-cases (is_blank (read_stripped connection_string_env env))) [
      | inl blank ↦ rw blank (to_otlp blank (ground arith))
      | inr given ↦ rw given (to_azure given)
    ]

-- A provider that exports is installed only where tracing is not switched off; it carries the
-- service's name and exports to the configured target, whose address is not blank.
pub setup_telemetry-IsConfigured :
    (packages : Packages) (env : Environ) (service_name name : String) (exporter : Exporter)
    → setup_telemetry packages env service_name ≡ some (tracer_provider name exporter)
    → (is_switched_off env ≡ false) × (name ≡ service_name) × IsConfigured env exporter
unfolding setup_telemetry is_disabled
setup_telemetry-IsConfigured packages env service_name name exporter h =
    elim (Bool-cases (is_disabled env)) [
      | inl off ↦ absurd (ground arith)
      | inr on ↦ elim (Bool-cases (packages.builds (exporter_of env))) [
        | inl built ↦
            let same : exporter_of env ≡ exporter = ground arith in
            (
              ground arith,
              ground arith,
              subst (IsConfigured env) same (exporter_of-IsConfigured env on),
            )
        | inr failed ↦ absurd (ground arith)
      ]
    ]

-- An attribute that may be recorded: its key is in the lab's namespace and names no personal claim,
-- and in strict mode it tells no fixture.
abbrev pub IsRecordable : (strict_mode : Bool) → String × Attribute → Type 0
IsRecordable strict_mode (key, value) =
    (starts_with key "identity_lab." ≡ true)
    × (safe_span_attribute_key key ≡ true)
    × ((strict_mode ≡ false) ⊎ (key ≢ "identity_lab.fixture_name") ⊎ (value ≡ text ""))

other : {s t : String} → (s == t) ≡ false → s ≢ t
other {s} {t} h e = ground (arith, eq_iff s t)

set_attributes-All :
    (P : String × Attribute → Type 0) (span : Span) (attributes : List (String × Attribute))
    → All P attributes
    → All P (set_attributes span attributes)
unfolding set_attributes
set_attributes-All P span [] h = tt
set_attributes-All P span ((key, value) ∷ rest) (p, h) =
    elim (Bool-cases (span.accepts key value)) [
      | inl held ↦ rw held (p, set_attributes-All P span rest h)
      | inr raised ↦ rw raised tt
    ]

All-append : {A : Type 0} (P : A → Type 0) (xs ys : List A) → All P xs → All P ys → All P (xs ++ ys)
All-append P [] ys h k = k
All-append P (x ∷ xs) ys (p, h) k = (p, All-append P xs ys h k)

authorized_attribute-All :
    (s : Bool) (o : Option Bool) → All (IsRecordable s) (authorized_attribute o)
unfolding safe_span_attribute_key contains
authorized_attribute-All s none = tt
authorized_attribute-All s (some b) = ((refl, refl, inr (inl (other refl))), tt)

aud_attribute-All : (s : Bool) (o : Option String) → All (IsRecordable s) (aud_attribute o)
unfolding safe_span_attribute_key contains
aud_attribute-All s none = tt
aud_attribute-All s (some aud) = ((refl, refl, inr (inl (other refl))), tt)

fixture_attribute-All :
    (o : Option String) (s : Bool) → All (IsRecordable s) (fixture_attribute o s)
unfolding safe_span_attribute_key contains
fixture_attribute-All fixture true = ((refl, refl, inr (inr refl)), tt)
fixture_attribute-All none false = tt
fixture_attribute-All (some name) false = ((refl, refl, inl refl), tt)

-- Whatever the request and the span, only such attributes are recorded: keys of the lab's namespace
-- that name no personal claim, and in strict mode an empty fixture name or none.
pub record_auth_attributes-IsRecordable :
    (span : Option Span) (a : AuthAttributes)
    → All (IsRecordable a.strict_mode) (record_auth_attributes span a)
unfolding record_auth_attributes auth_attributes safe_span_attribute_key contains
record_auth_attributes-IsRecordable none a = tt
record_auth_attributes-IsRecordable (some span) a =
    set_attributes-All (IsRecordable a.strict_mode) span (auth_attributes a) (
      (refl, refl, inr (inl (other refl))),
      All-append (IsRecordable a.strict_mode) (authorized_attribute a.authorized) _
          (authorized_attribute-All a.strict_mode a.authorized)
          (All-append (IsRecordable a.strict_mode) (aud_attribute a.aud) _
            (aud_attribute-All a.strict_mode a.aud)
            (fixture_attribute-All a.fixture_name a.strict_mode)),
    )
