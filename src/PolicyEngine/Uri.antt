-- ===== src/PolicyEngine/Uri.antt =====
-- policy-engine/src/uri.rs, request.rs and context.rs: what an expression policy can read. `Uri`
-- holds what the code asks an `http::Uri` for.
use authust.Prelude.{ℕ, String, Bool, true, false, Option, none, some, if◌then◌else◌}
use authust.Prelude.Eq.{◌==◌, Eq-string}
use authust.Prelude.Res.{Res, ok, err}
use authust.Model.User.{PartialUser, PendingUser}

pub record Uri : Type 0 where
  pub text : String
  pub port : Option ℕ
  pub path : String
  pub query : Option String

pub data Scheme : Type 0 where
  http https : Scheme

pub data RhaiUriError : Type 0 where
  missing_scheme unsupported_scheme : RhaiUriError

-- `Scheme::try_from(&http::uri::Scheme)`, which compares with the constants HTTP and HTTPS.
unfoldable pub scheme_from : String → Res RhaiUriError Scheme
scheme_from s =
    if s == "http" then ok http else if s == "https" then ok https else err unsupported_scheme

pub record RhaiUri : Type 0 where
  pub uri : String
  pub scheme : Scheme
  pub host : String
  pub port : Option ℕ
  pub path : String
  pub query : Option String

-- `RhaiUri::create`, which has no failing branch.
unfoldable pub create : Scheme → String → Uri → RhaiUri
create scheme host u = record {
  uri = u.text;
  scheme = scheme;
  host = host;
  port = u.port;
  path = u.path;
  query = u.query;
}

abbrev default_port : Scheme → ℕ
default_port https = 443
default_port http = 80

abbrev port_or : Scheme → Option ℕ → ℕ
port_or s (some p) = p
port_or s none = default_port s

-- The getter `port`.
unfoldable pub get_port : RhaiUri → ℕ
get_port u = port_or u.scheme u.port

-- `is_http` and `is_https` of a scheme.
unfoldable pub is_http : Scheme → Bool
is_http http = true
is_http https = false

unfoldable pub is_https : Scheme → Bool
is_https https = true
is_https http = false

pub record RhaiRequest : Type 0 where
  pub uri : RhaiUri
  pub user : Option PartialUser

pub record RhaiContext : Type 0 where
  pub pending_user : Option PendingUser

-- The constants `request` and `context` of an evaluation.
pub record Scope : Type 0 where
  pub request : RhaiRequest
  pub context : RhaiContext
