-- ===== src/Handler/UserInfo.antt =====
-- server/src/api/v1/auth.rs: `user_info`, and server/src/auth.rs under it.
use authust.Prelude.{Option}
use authust.Prelude.Res.{ok, ◌>>=◌}
use authust.Model.User.{PartialUser}
use authust.Api.Error.{Api, pool_error}
use authust.Api.Monad.{convert}
use authust.Api.Session.{Session, Database}
use authust.Handler.Users.{get_user}

-- `SessionResponse`.
pub record SessionResponse : Type 0 where
  pub user : Option PartialUser

unfoldable pub user_info : Database → Session → Api SessionResponse
unfolding get_user
user_info db session = do
  _ ← convert pool_error db.connect
  user ← get_user db session
  ok (record { user = user })
