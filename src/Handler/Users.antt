-- ===== src/Handler/Users.antt =====
-- server/src/service/user.rs, and `Session::get_user` of server/src/auth.rs.
use authust.Prelude.{String, Bool, Option, none, some, if◌then◌else◌}
use authust.Prelude.Res.{Res, ok, err, panic, ◌>>=◌}
use authust.Model.User.{Uuid, PartialUser}
use authust.Api.Error.{Api, PgError, from_postgres}
use authust.Api.Monad.{convert}
use authust.Api.Session.{Session, UserRow, Database}

abbrev pub partial_user : UserRow → PartialUser
partial_user r = record {
  uid = r.uid;
  name = r.name;
  avatar_url = none;
  is_admin = r.administrator;
  password_change_date = r.password_change_date;
}

abbrev partial_of : Option UserRow → Option PartialUser
partial_of none = none
partial_of (some r) = some (partial_user r)

-- `lookup_user_uid`.
unfoldable pub lookup_user_uid : Database → Uuid → Api (Option PartialUser)
lookup_user_uid db uid = do row ← convert from_postgres (db.user_by_uid uid); ok (partial_of row)

-- One search of `lookup_user`: a row ends it, and none goes on with `rest`.
abbrev pub or_next :
    Res PgError (Option UserRow) → Api (Option PartialUser) → Api (Option PartialUser)
or_next (ok (some r)) rest = ok (some (partial_user r))
or_next (ok none) rest = rest
or_next (err e) rest = err (from_postgres e)
or_next panic rest = panic

-- The search by uuid: a text that is no uuid finds nobody.
abbrev pub by_uuid : Database → Option Uuid → Api (Option PartialUser)
by_uuid db none = ok none
by_uuid db (some uid) = or_next (db.user_by_uid uid) (ok none)

-- `lookup_user`; `parse_uuid` is `Uuid::parse_str`.
unfoldable pub lookup_user :
    Database
    → (parse_uuid : String → Option Uuid) → String
    → (use_name use_email use_uuid : Bool) → Api (Option PartialUser)
lookup_user db parse_uuid txt use_name use_email use_uuid =
    let third = if use_uuid then by_uuid db (parse_uuid txt) else ok none in
    let second = if use_email then or_next (db.user_by_email txt) third else third in
    if use_name then or_next (db.user_by_name txt) second else second

abbrev get_user_of : Database → Option Uuid → Api (Option PartialUser)
get_user_of db none = ok none
get_user_of db (some id) = lookup_user_uid db id

-- `Session::get_user`.
unfoldable pub get_user : Database → Session → Api (Option PartialUser)
unfolding lookup_user_uid
get_user db s = get_user_of db s.user_id
