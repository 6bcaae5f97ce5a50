-- ===== src/Telemetry/ServiceName.antt =====
-- server/src/main.rs: `ServiceNameDetector`, the name of the service in traces.
use authust.Prelude.{String, Option, none, some, if◌then◌else◌}
use authust.Prelude.Eq.{◌==◌, Eq-string}

-- `filter(|s| !s.is_empty())`.
abbrev pub non_empty : Option String → Option String
non_empty none = none
non_empty (some s) = if s == "" then none else some s

abbrev pub unwrap_or : Option String → String → String
unwrap_or (some s) other = s
unwrap_or none other = other

-- `ServiceNameDetector::detect`, the value of `service.name`: of OTEL_SERVICE_NAME if it is Unicode, of
-- what `EnvResourceDetector` finds, or `CARGO_BIN_NAME`.
unfoldable pub detect :
    (otel_service_name : Option String) → (detected : Option String) → (bin_name : String) → String
detect otel_service_name detected bin_name =
    unwrap_or (non_empty otel_service_name) (unwrap_or (non_empty detected) bin_name)
