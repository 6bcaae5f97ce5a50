-- ===== src/Scenarios/Api.antt =====
-- Sessions and errors.
use authust.Prelude.{true, some, ◌≡◌, ◌↔◌, ◌⊎◌, refl}
use authust.Prelude.Res.{ok}
use authust.Model.User.{Uuid}
use authust.Api.Error.{conflict, is_internal, into_response}
use authust.Api.Answers.{is_internal_iff}
use authust.Api.Session.{
  Claims, valid, get_auth_extension_data, session_from_request, admin_from_request,
}
use authust.Api.Access.{IsNew, IsKnown, session_from_request-IsKnown, admin_from_request-IsAdmin}
use authust.Scenarios.Fixtures.{tokens, db, jar, guest_claims, admin_claims, session}

is_internal_iff_example : (is_internal conflict ≡ true) ↔ ((into_response conflict).0 ≡ 500)
is_internal_iff_example = is_internal_iff conflict

finds : session_from_request tokens db "fresh" (some (valid guest_claims)) jar ≡ (ok session, jar)
unfolding session_from_request get_auth_extension_data
finds = refl

session_from_request-IsKnown_example :
    IsNew tokens db "fresh" jar session jar
    ⊎ IsKnown tokens db "fresh" (some (valid guest_claims)) jar session jar
session_from_request-IsKnown_example =
    session_from_request-IsKnown tokens db "fresh" (some (valid guest_claims)) jar jar session finds

admits : admin_from_request tokens db "fresh" (some (valid admin_claims)) jar ≡ (ok tt, jar)
unfolding admin_from_request session_from_request get_auth_extension_data
admits = refl

admin_from_request-IsAdmin_example :
    (claims : Claims) × (uid : Uuid) × (some (valid admin_claims) ≡ some (valid claims))
    × (claims.is_admin ≡ true)
    × (db.session_user claims.sid ≡ ok (some (some uid)))
admin_from_request-IsAdmin_example =
    admin_from_request-IsAdmin tokens db "fresh" (some (valid admin_claims)) jar jar admits
