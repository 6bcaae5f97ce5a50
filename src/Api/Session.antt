-- ===== src/Api/Session.antt =====
-- server/src/auth.rs and server/src/api/v1/auth.rs: sessions, their cookie, and the extractors.
-- Tokens are signed and read by jsonwebtoken, the tables are PostgreSQL's: both are arguments.
use authust.Prelude.{String, Bool, true, false, ◌&&◌, Option, none, some, List, ◌∷◌, if◌then◌else◌}
use authust.Prelude.Res.{Res, ok, err, panic}
use authust.Model.User.{Uuid, OffsetDateTime}
use authust.Api.Error.{
  Api, JwtError, PgError, from_jwt, from_postgres, session_cookie_missing, missing_middleware,
  pool_error, forbidden,
}
use authust.Api.Monad.{M, ◌>>=◌, lift, pure, fail, convert}

pub record Claims : Type 0 where
  pub sid : String
  pub iss : String
  pub sub : Option Uuid
  pub authenticated : Bool
  pub is_admin : Bool

pub record Session : Type 0 where
  pub session_id : String
  pub user_id : Option Uuid
  pub is_admin : Bool

-- `jsonwebtoken::encode` and `decode` under the server's keys and `VALIDATION`.
pub record Tokens : Type 0 where
  pub encode : Claims → Res JwtError String
  pub decode : String → Res JwtError Claims

-- A row of `users`, less the password.
pub record UserRow : Type 0 where
  pub uid : Uuid
  pub name : String
  pub administrator : Bool
  pub password_change_date : OffsetDateTime

-- The queries: each prepares its statement and runs it.
pub record Database : Type 0 where
  pub user_by_name : String → Res PgError (Option UserRow)
  pub user_by_email : String → Res PgError (Option UserRow)
  pub user_by_uid : Uuid → Res PgError (Option UserRow)
  pub password_of : Uuid → Res PgError (Option String)
  -- `select user_id from sessions`, and what `insert into` and `update sessions` answer.
  pub session_user : String → Res PgError (Option (Option Uuid))
  pub insert_session : String → Res PgError (Unit {0})
  pub update_session : Uuid → String → Res PgError (Unit {0})
  -- Taking a connection from the pool, and beginning and committing a transaction on it.
  pub connect : Res String (Unit {0})
  pub begin : Res PgError (Unit {0})
  pub commit : Res PgError (Unit {0})

-- The statements that change `sessions`.
pub data SqlStatement : Type 0 where
  insert_session : (uid : String) → SqlStatement
  update_session : (user_id : Uuid) (uid : String) → SqlStatement

-- The session cookie of the jar (set with path "/", `SameSite=Strict` and `HttpOnly`), and the statements that were run on `sessions`, the last one first.
pub record Jar : Type 0 where
  pub session_cookie : Option String
  pub statements : List SqlStatement

-- The extension that the auth layer leaves on a request.
pub data AuthExtension : Type 0 where
  valid : Claims → AuthExtension
  missing_cookie : AuthExtension

abbrev pub read_token : Res JwtError Claims → Api AuthExtension
read_token (ok c) = ok (valid c)
read_token (err e) = err (from_jwt e)
read_token panic = panic

abbrev pub read_cookie : Tokens → Option String → Api AuthExtension
read_cookie tokens none = ok missing_cookie
read_cookie tokens (some value) = read_token (tokens.decode value)

-- `handle_auth`: an error is the layer's answer.
unfoldable pub handle_auth : Tokens → Jar → Api AuthExtension
handle_auth tokens jar = read_cookie tokens jar.session_cookie

-- `get_auth_extension_data`; `none` where the layer is not installed.
unfoldable pub get_auth_extension_data : Option AuthExtension → Api Claims
get_auth_extension_data none = err (missing_middleware "auth")
get_auth_extension_data (some (valid c)) = ok c
get_auth_extension_data (some missing_cookie) = err session_cookie_missing

-- `set_session_cookie`.
unfoldable pub set_session_cookie : Tokens → Claims → M Jar (Unit {0})
set_session_cookie tokens claims = do
  token ← lift (convert from_jwt (tokens.encode claims))
  λ jar. (ok tt, record jar { session_cookie = some token })

abbrev pub run : SqlStatement → M Jar (Unit {0})
run s jar = (ok tt, record jar { statements = s ∷ jar.statements })

abbrev pub new_claims : String → Claims
new_claims key = record {
  sid = key;
  iss = "authust";
  sub = none;
  authenticated = false;
  is_admin = false;
}

-- `make_new_session`, with the 96 characters that it draws.
unfoldable pub make_new_session : Tokens → Database → String → M Jar Session
unfolding set_session_cookie
make_new_session tokens db session_key = do
  _ ← lift (convert from_postgres (db.insert_session session_key))
  _ ← run (SqlStatement.insert_session session_key)
  _ ← set_session_cookie tokens (new_claims session_key)
  pure (record { session_id = session_key; user_id = none; is_admin = false })

abbrev pub known_session :
    Tokens → Database → String → Claims → Option (Option Uuid) → M Jar Session
known_session tokens db fresh claims (some user_id) =
    pure (record { session_id = claims.sid; user_id = user_id; is_admin = claims.is_admin })
known_session tokens db fresh claims none = make_new_session tokens db fresh

abbrev pub from_claims : Tokens → Database → String → Api Claims → M Jar Session
from_claims tokens db fresh (ok claims) = do
  row ← lift (convert from_postgres (db.session_user claims.sid))
  known_session tokens db fresh claims row
from_claims tokens db fresh (err session_cookie_missing) = make_new_session tokens db fresh
from_claims tokens db fresh (err e) = fail e
from_claims tokens db fresh panic = lift panic

-- `Session::from_request_parts`.
unfoldable pub session_from_request :
    Tokens → Database → (fresh : String) → Option AuthExtension → M Jar Session
session_from_request tokens db fresh ext = do
  _ ← lift (convert pool_error db.connect)
  from_claims tokens db fresh (get_auth_extension_data ext)

abbrev pub is_some : Option Uuid → Bool
is_some (some _) = true
is_some none = false

-- `AdminSession::from_request_parts`.
unfoldable pub admin_from_request :
    Tokens → Database → (fresh : String) → Option AuthExtension → M Jar (Unit {0})
admin_from_request tokens db fresh ext = do
  session ← session_from_request tokens db fresh ext
  if is_some session.user_id && session.is_admin then pure tt else fail forbidden
