-- ===== src/Scenarios/Handler.antt =====
-- Alice logs in: one form names her and gives her password, and the server logs her in.
use authust.Prelude.{true, false, some, [], ◌∷◌, ◌≡◌, ◌⊎◌, refl}
use mathlib.Core.List.{Memᴰ}
use authust.Prelude.Eq.{contains, Eq-int, Eq-string}
use authust.Prelude.Maps.{lookup}
use authust.Prelude.Res.{ok}
use authust.Model.Query.{Eq-unique_query}
use authust.Model.Stage.{requires_input}
use authust.Storage.Proxy.{frozen_optional, find_id}
use authust.Api.Session.{Claims, SqlStatement, valid, handle_auth, set_session_cookie}
use authust.Executor.State.{CheckContextRequest, new_context, get_check_context}
use authust.Executor.Entries.{get_entry, complete_current, lookup_stage, lookup_policy}
use authust.Executor.Checks.{
  negate, deref, into_output, check_authentication, create_scope, message, check_of_kind,
  check_policy, check_one, check_binding, check_bindings, check_all, check,
}
use authust.Executor.Registry.{freeze}
use authust.Handler.Users.{lookup_user}
use authust.Handler.Submission.{
  str_from_field, handle_password_stage, handle_identification, handle_stage, handle_submission,
}
use authust.Handler.Authentication.{handle_submission-Trusted}
use authust.Handler.Verified.{Trusted}
use authust.Handler.Complete.{RequestState, logged_in, log_in, run_stage, complete_from, complete}
use authust.Handler.Login.{IsSafe, LoginsVerified, complete-IsSafe}
use authust.Handler.Tokens.{log_in-handle_auth}
use authust.Handler.Search.{Gives, ByUuid, lookup_user-Gives}
use authust.Handler.Requests.{redirect_to, post_execution}
use authust.Handler.Posts.{posts, post_execution-refused, posts-LoginsVerified}
use authust.Scenarios.Fixtures.{
  alice, pending_alice, db, tokens, tokens-IsSound, form_ext, login_form, session, jar, ext, uri,
  request,
}
use authust.Scenarios.Executor.{execution}

handle_submission-Trusted_example :
    Trusted db form_ext
      (login_form ∷ [])
      (handle_submission db form_ext login_form execution).1.context.pending
unfolding new_context
handle_submission-Trusted_example =
    handle_submission-Trusted db form_ext (login_form ∷ []) login_form execution (Memᴰ.head refl) tt

abbrev start_state : RequestState
start_state = record { execution = execution; jar = jar }

complete-IsSafe_example :
    IsSafe tokens db session form_ext (login_form ∷ []) (complete tokens db session start_state).1
unfolding new_context
complete-IsSafe_example =
    complete-IsSafe tokens db session form_ext (login_form ∷ []) start_state (tt, tt)

-- A POST of the form, on the execution whose pending user and completion are then as expected.
abbrev end_state : RequestState
end_state = record {
  execution = record execution {
    context = record execution.context { pending = some pending_alice };
    current_entry_idx = 1;
    is_completed = true;
  };
  jar = record {
    session_cookie = some "alice";
    statements = SqlStatement.update_session 7 "s0" ∷ [];
  };
}

logs_in :
    post_execution ext db tokens form_ext session uri request login_form start_state
    ≡ (ok (redirect_to uri, false), end_state)
unfolding post_execution get_check_context check check_one check_all check_bindings check_binding
    check_of_kind check_policy check_authentication negate deref into_output create_scope message
    get_entry lookup_policy lookup_stage new_context freeze frozen_optional find_id lookup
    handle_submission handle_stage handle_identification handle_password_stage str_from_field
    lookup_user contains complete_current complete complete_from run_stage log_in set_session_cookie
    requires_input
logs_in = refl

posts-LoginsVerified_example :
    LoginsVerified tokens db session form_ext
      (login_form ∷ [])
      (posts ext db tokens form_ext session uri
        ((request, login_form) ∷ [])
        start_state).jar.statements
unfolding new_context
posts-LoginsVerified_example =
    posts-LoginsVerified ext db tokens form_ext session uri ((request, login_form) ∷ []) start_state
      refl refl

abbrev as_alice : CheckContextRequest
as_alice = record request { user = some alice }

refuses :
    check ext execution (get_check_context execution as_alice)
    ≡ ok (some "You must not be logged in to access this flow")
unfolding get_check_context check check_one check_authentication deref into_output message
refuses = refl

post_execution-refused_example :
    (post_execution ext db tokens form_ext session uri as_alice login_form start_state).1
    ≡ start_state
post_execution-refused_example =
    post_execution-refused ext db tokens form_ext session uri as_alice login_form start_state
      "You must not be logged in to access this flow" refuses

logs_in_jar : log_in tokens db session pending_alice jar ≡ (ok tt, end_state.jar)
unfolding log_in set_session_cookie
logs_in_jar = refl

log_in-handle_auth_example :
    (claims : Claims) × (handle_auth tokens jar ≡ ok (valid claims))
    × (handle_auth tokens end_state.jar ≡ ok (valid (logged_in pending_alice claims)))
    × (end_state.jar.statements ≡ SqlStatement.update_session 7 "s0" ∷ [])
log_in-handle_auth_example =
    log_in-handle_auth tokens db session pending_alice jar end_state.jar tokens-IsSound logs_in_jar

finds_alice : lookup_user db form_ext.parse_uuid "alice" true false false ≡ ok (some alice)
unfolding lookup_user
finds_alice = refl

lookup_user-Gives_example :
    ((true ≡ true) × Gives (db.user_by_name "alice") alice)
    ⊎ ((false ≡ true) × Gives (db.user_by_email "alice") alice)
    ⊎ ((false ≡ true) × ByUuid db form_ext.parse_uuid "alice" alice)
lookup_user-Gives_example =
    lookup_user-Gives db form_ext.parse_uuid "alice" alice true false false finds_alice
