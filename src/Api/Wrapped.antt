-- ===== src/Api/Wrapped.antt =====
-- server/src/api/mod.rs: `ApiError`, an error with the trace of the spans it arose in.
use authust.Prelude.{Option, none, some, if◌then◌else◌}
use authust.Api.Error.{ApiErrorKind, is_internal}

-- `SpanTrace` is tracing_error's.
pub record ApiError (SpanTrace : Type 0) : Type 0 where
  pub kind : ApiErrorKind
  pub st : Option SpanTrace

-- `From<T>`, of the kind that the value becomes; `capture` is what `SpanTrace::capture` gives.
unfoldable pub from_kind :
    {SpanTrace : Type 0} (capture : SpanTrace) → ApiErrorKind → ApiError SpanTrace
unfolding is_internal
from_kind capture value = record {
  kind = value;
  st = if is_internal value then some capture else none;
}
