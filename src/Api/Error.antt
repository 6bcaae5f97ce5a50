-- ===== src/Api/Error.antt =====
-- server/src/api/mod.rs: the errors of the handlers, where they come from, and their answers.
use authust.Prelude.{ℕ, String, Bool, true, false, Option, some, if◌then◌else◌}
use authust.Prelude.Eq.{Eq-string, opt_eq}
use authust.Prelude.Res.{Res}
use authust.Model.Error.{SubmissionError}

-- argon2::password_hash::Error: a wrong password, or any other failure.
pub data PwHashError : Type 0 where
  password : PwHashError
  other : String → PwHashError

-- jsonwebtoken::errors::ErrorKind; the kinds that the code does not name are `other`.
pub data JwtError : Type 0 where
  invalid_ecdsa_key rsa_failed_signing invalid_algorithm_name invalid_key_format : JwtError
  invalid_algorithm missing_algorithm : JwtError
  invalid_rsa_key crypto other : String → JwtError

-- tokio_postgres::Error: the routine of the database error, if the database reported one.
pub record PgError : Type 0 where
  pub routine : Option String
  pub message : String

pub data ApiErrorKind : Type 0 where
  axum : String → ApiErrorKind
  invalid_login_data session_cookie_missing invalid_session_cookie not_found : ApiErrorKind
  misc_internal : String → ApiErrorKind
  unauthorized forbidden conflict : ApiErrorKind
  missing_middleware : String → ApiErrorKind
  pw_hash : PwHashError → ApiErrorKind
  pool_error : String → ApiErrorKind
  postgres_error : PgError → ApiErrorKind
  submission_error : SubmissionError → ApiErrorKind
  json_web_token : JwtError → ApiErrorKind

-- What a handler ends with.
abbrev pub Api {ℓ} : Type ℓ → Type ℓ
Api A = Res ApiErrorKind A

-- `From<jsonwebtoken::errors::Error>`.
unfoldable pub from_jwt : JwtError → ApiErrorKind
from_jwt (other s) = invalid_session_cookie
from_jwt e = json_web_token e

-- `From<tokio_postgres::Error>`.
unfoldable pub from_postgres : PgError → ApiErrorKind
from_postgres e = if opt_eq e.routine (some "_bt_check_unique") then conflict else postgres_error e

-- `From<argon2::password_hash::Error>`.
unfoldable pub from_pw_hash : PwHashError → ApiErrorKind
from_pw_hash PwHashError.password = invalid_login_data
from_pw_hash e = pw_hash e

unfoldable pub is_internal : ApiErrorKind → Bool
is_internal invalid_login_data = false
is_internal (pw_hash _) = true
is_internal not_found = false
is_internal (misc_internal _) = true
is_internal (submission_error _) = false
is_internal session_cookie_missing = false
is_internal invalid_session_cookie = false
is_internal (missing_middleware _) = true
is_internal unauthorized = false
is_internal (json_web_token _) = true
is_internal forbidden = false
is_internal conflict = false
is_internal (pool_error _) = true
is_internal (postgres_error _) = true
is_internal (axum _) = true

-- The body of an answer: nothing, a text, or an error as JSON.
pub data Body : Type 0 where
  empty : Body
  text : String → Body
  json : SubmissionError → Body

-- `ApiError::into_response`: the status code and the body; logging is left out.
unfoldable pub into_response : ApiErrorKind → ℕ × Body
into_response (axum _) = (500, empty)
into_response (pw_hash _) = (500, empty)
into_response (pool_error _) = (500, empty)
into_response (postgres_error _) = (500, empty)
into_response (misc_internal _) = (500, empty)
into_response (missing_middleware _) = (500, empty)
into_response (json_web_token _) = (500, empty)
into_response invalid_login_data = (401, empty)
into_response not_found = (404, empty)
into_response (submission_error e) = (400, json e)
into_response session_cookie_missing = (401, empty)
into_response unauthorized = (401, empty)
into_response invalid_session_cookie = (401, text "Invalid session cookie")
into_response forbidden = (403, empty)
into_response conflict = (409, empty)
