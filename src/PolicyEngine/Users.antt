-- ===== src/PolicyEngine/Users.antt =====
-- policy-engine/src/user.rs: the getters of users. `uuid_text` is `Uuid::to_string`.
use authust.Prelude.{String, Bool, Option}
use authust.Model.User.{Uuid, PartialUser, PendingUser}

unfoldable pub get_uid_pending : (uuid_text : Uuid → String) → PendingUser → String
get_uid_pending uuid_text obj = uuid_text obj.uid

unfoldable pub get_name_pending : PendingUser → String
get_name_pending obj = obj.name

unfoldable pub get_avatar_url_pending : PendingUser → Option String
get_avatar_url_pending obj = obj.avatar_url

unfoldable pub get_authenticated_pending : PendingUser → Bool
get_authenticated_pending obj = obj.authenticated

unfoldable pub get_uid_partial : (uuid_text : Uuid → String) → PartialUser → String
get_uid_partial uuid_text obj = uuid_text obj.uid

unfoldable pub get_name_partial : PartialUser → String
get_name_partial obj = obj.name

unfoldable pub get_avatar_url_partial : PartialUser → Option String
get_avatar_url_partial obj = obj.avatar_url

-- The getter that scripts know as `authenticated`.
unfoldable pub get_is_admin_partial : PartialUser → Bool
get_is_admin_partial obj = obj.is_admin
