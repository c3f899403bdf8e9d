-- ===== src/Diagnostics.antt =====
-- apps/shared/python/identity_lab_diagnostics/correlation.py, and the health and readiness payloads of
-- the services' diagnostics.py.
use agentic_identity_lab.Prelude.{
  ◌≡◌, String, false, Option, none, some, arith, is_nil, is_blank, lower, upper, if◌then◌else◌,
}
use agentic_identity_lab.Value.{Dict, empty, entry, str}
use agentic_identity_lab.Auth.Settings.{Headers}

-- a or b, for texts that may be missing
abbrev or_text : Option String → Option String → Option String
or_text none b = b
or_text (some a) b = if is_blank a then b else some a

abbrev or_fresh : Option String → String → String
or_fresh none fresh = fresh
or_fresh (some s) fresh = if is_blank s then fresh else s

unfoldable pub get_correlation_id : (headers : Headers) (header_name fresh : String) → String
get_correlation_id headers header_name fresh =
    if is_nil headers.items
    then fresh
    else or_fresh
        (or_text (headers.find header_name) (
          or_text (headers.find (lower header_name)) (
            or_text (headers.find (upper header_name))
              (or_text (headers.find "x-request-id") (headers.find "X-Request-ID")))))
        fresh

unfoldable pub build_health_payload : (service_name correlation_id : String) → Dict
build_health_payload service_name correlation_id =
    entry "status" (str "ok")
      (entry "service" (str service_name) (entry "correlation_id" (str correlation_id) empty))

unfoldable pub build_ready_payload : (service_name correlation_id : String) → Dict
build_ready_payload service_name correlation_id =
    entry "status" (str "ready")
      (entry "service" (str service_name) (entry "correlation_id" (str correlation_id) empty))

-- A correlation id is never blank, if a generated one is not.
pub get_correlation_id_present :
    (headers : Headers) (header_name fresh : String)
    → is_blank fresh ≡ false
    → is_blank (get_correlation_id headers header_name fresh) ≡ false
unfolding get_correlation_id
get_correlation_id_present headers header_name fresh h = ground arith

-- The configured header wins where it has a value.
pub get_correlation_id_given :
    (headers : Headers) (header_name fresh given : String)
    → is_nil headers.items ≡ false
    → headers.find header_name ≡ some given
    → is_blank given ≡ false
    → get_correlation_id headers header_name fresh ≡ given
unfolding get_correlation_id
get_correlation_id_given headers header_name fresh given some_header found filled = ground arith
