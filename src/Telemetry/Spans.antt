-- ===== src/Telemetry/Spans.antt =====
-- server/src/otel_middleware.rs: what the span of a request records. A span's fields are written by
-- `record`, the last value of a field last.
use authust.Prelude.{
  ℕ, String, Bool, ◌&&◌, Option, none, some, List, [], ◌∷◌, leb, ltb, if◌then◌else◌,
}
use Prim.Native.String.{◌++◌}
use authust.Prelude.Eq.{◌==◌, Eq-string}

-- `http::Scheme` by its text; the constants are "http" and "https".
unfoldable pub http_scheme : String → String
http_scheme scheme =
    if scheme == "http" then "http" else if scheme == "https" then "https" else scheme

-- `http::Version`; a version that is none of its constants has a `Debug` text.
pub data Version : Type 0 where
  http_09 http_10 http_11 http_2 http_3 : Version
  other : (debug : String) → Version

unfoldable pub http_flavor : Version → String
http_flavor http_09 = "0.9"
http_flavor http_10 = "1.0"
http_flavor http_11 = "1.1"
http_flavor http_2 = "2.0"
http_flavor http_3 = "3.0"
http_flavor (other debug) = debug

-- `http::Method`; `extension` holds the text of any other.
pub data Method : Type 0 where
  get head post put delete connect options trace patch : Method
  extension : String → Method

unfoldable pub http_method : Method → String
http_method get = "GET"
http_method head = "HEAD"
http_method post = "POST"
http_method put = "PUT"
http_method delete = "DELETE"
http_method connect = "CONNECT"
http_method options = "OPTIONS"
http_method trace = "TRACE"
http_method patch = "PATCH"
http_method (extension text) = text

-- What `make_span` reads of a request: the user agent if it is text, the extensions `Host` and
-- `MatchedPath`, and the parts of the address.
pub record SpanRequest : Type 0 where
  pub user_agent : Option String
  pub host : Option String
  pub matched_path : Option String
  pub scheme : Option String
  pub path : String
  pub path_and_query : Option String
  pub method : Method
  pub version : Version

abbrev pub or_text : Option String → String → String
or_text (some s) d = s
or_text none d = d

abbrev pub scheme_text : Option String → String
scheme_text (some s) = http_scheme s
scheme_text none = "http"

abbrev pub Span : Type 0
Span = List (String × String)

abbrev pub record_field : String → String → Span → Span
record_field name value [] = (name, value) ∷ []
record_field name value (f ∷ fs) = f ∷ record_field name value fs

-- `MakeSpan`; the random trace id is an argument. The status fields are empty.
unfoldable pub make_span : (trace_id : String) → SpanRequest → Span
unfolding http_scheme http_method http_flavor
make_span trace_id req =
    let route = or_text req.matched_path req.path in
    let method = http_method req.method in
    ("otel.name", method ++ " " ++ route)
    ∷ ("http.method", method)
    ∷ ("http.flavor", http_flavor req.version)
    ∷ ("http.target", or_text req.path_and_query "")
    ∷ ("http.host", or_text req.host "")
    ∷ ("http.scheme", scheme_text req.scheme)
    ∷ ("http.route", route)
    ∷ ("http.user_agent", or_text req.user_agent "")
    ∷ ("otel.kind", "server")
    ∷ ("trace_id", trace_id)
    ∷ []

-- `OnResponse`; `status` is the text of the status code.
unfoldable pub on_response : (status : String) → Span → Span
on_response status span =
    record_field "otel.status_code" "OK" (record_field "http.status_code" status span)

-- `ServerErrorsFailureClass` of tower_http.
pub data FailureClass : Type 0 where
  status_code : ℕ → FailureClass
  error : String → FailureClass

abbrev pub is_server_error : ℕ → Bool
is_server_error status = leb 500 status && ltb status 600

-- `OnFailure`.
unfoldable pub on_failure : FailureClass → Span → Span
on_failure (status_code status) span =
    if is_server_error status then record_field "otel.status_code" "ERROR" span else span
on_failure (error _) span = span
