-- ===== src/PolicyEngine/Getters.antt =====
-- policy-engine/src/uri.rs, request.rs and context.rs: the getters of the values that a script is given.
use authust.Prelude.{String, Option}
use authust.Model.User.{PartialUser, PendingUser}
use authust.PolicyEngine.Uri.{Scheme, RhaiUri, RhaiRequest, RhaiContext}

unfoldable pub to_string : RhaiUri → String
to_string obj = obj.uri

unfoldable pub get_scheme : RhaiUri → Scheme
get_scheme obj = obj.scheme

unfoldable pub get_host : RhaiUri → String
get_host obj = obj.host

unfoldable pub get_path : RhaiUri → String
get_path obj = obj.path

unfoldable pub get_query : RhaiUri → Option String
get_query obj = obj.query

unfoldable pub get_uri : RhaiRequest → RhaiUri
get_uri req = req.uri

unfoldable pub get_user : RhaiRequest → Option PartialUser
get_user req = req.user

unfoldable pub get_pending_user : RhaiContext → Option PendingUser
get_pending_user context = context.pending_user
