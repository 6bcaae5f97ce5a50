-- ===== src/Handler/Posts.antt =====
-- server/src/api/v1/executor.rs: what POST requests can do to an execution.
use authust.Prelude.{String, Bool, Option, none, some, List, [], ◌∷◌, ◌≡◌, refl}
use mathlib.Core.List.{Memᴰ}
use authust.Prelude.Res.{ok, err, panic}
use authust.Model.Error.{Value, SubmissionError}
use authust.PolicyEngine.Uri.{Uri}
use authust.Api.Error.{
  Api, axum, invalid_login_data, session_cookie_missing, invalid_session_cookie, not_found,
  misc_internal, unauthorized, forbidden, conflict, missing_middleware, pw_hash, pool_error,
  postgres_error, submission_error, json_web_token, from_postgres,
}
use authust.Api.Monad.{M, continue, convert}
use authust.Api.Session.{Session, Tokens, Database}
use authust.Executor.State.{CheckContextRequest, CheckContext, get_check_context}
use authust.Executor.Entries.{complete_current}
use authust.Executor.Progress.{complete_current-context}
use authust.Executor.Externals.{Externals}
use authust.Executor.Checks.{check}
use authust.Executor.Component.{flow_data}
use authust.Handler.Submission.{Form, handle_submission}
use authust.Handler.Authentication.{handle_submission-Trusted}
use authust.Handler.Complete.{RequestState, complete}
use authust.Handler.Login.{IsSafe, LoginsVerified, complete-IsSafe}
use authust.Handler.Requests.{
  Answer, show, roll_back, finish, after_submission, submit, guarded, post_execution,
}

continue-same :
    {A B : Type 0} (r : Api A) (f : A → M RequestState B) (s : RequestState)
    → ((a : A) → (f a s).1 ≡ s)
    → (continue (r, s) f).1 ≡ s
continue-same (ok a) f s h = h a
continue-same (err x) f s h = refl
continue-same panic f s h = refl

module _ (ext : Externals) (db : Database) (tokens : Tokens) (form_ext : Form) (session : Session)
    (uri : Uri) where
  abbrev post : CheckContextRequest → Value → M RequestState (Answer × Bool)
  post = post_execution ext db tokens form_ext session uri

  show_same :
      (error : Option SubmissionError) (ctx : CheckContext) (s : RequestState)
      → (show ext db tokens form_ext session uri error ctx s).1 ≡ s
  show_same error ctx s = continue-same (flow_data ext s.execution error ctx) _ s (λ a. refl)

  roll_back_same :
      {A : Type 0} (r : Api A × RequestState) (s : RequestState)
      → r.1 ≡ s
      → (roll_back ext db tokens form_ext session uri s.jar r).1 ≡ s
  roll_back_same (ok a, t) s h = h
  roll_back_same (err x, t) s h = rw h refl
  roll_back_same (panic, t) s h = rw h refl

  -- If the check refuses access, a POST changes neither the execution nor the cookie nor the rows of
  -- the sessions, whatever the form holds.
  pub post_execution-refused :
      (req : CheckContextRequest) (form : Value) (s : RequestState) (message : String)
      → check ext s.execution (get_check_context s.execution req) ≡ ok (some message)
      → (post req form s).1 ≡ s
  unfolding post_execution
  post_execution-refused req form s message refused =
      let ctx = get_check_context s.execution req in
      rw refused (
        roll_back_same (show ext db tokens form_ext session uri none ctx s) s
          (show_same none ctx s))

  module _ (forms : List Value) where
    abbrev Safe : RequestState → Type 0
    Safe = IsSafe tokens db session form_ext forms

    roll_back-IsSafe :
        {A : Type 0} (r : Api A × RequestState) (s : RequestState)
        → Safe s
        → Safe r.1
        → Safe (roll_back ext db tokens form_ext session uri s.jar r).1
    roll_back-IsSafe (ok a, t) s h k = k
    roll_back-IsSafe (err x, t) s (h, logins) (k, ran) = (k, logins)
    roll_back-IsSafe (panic, t) s (h, logins) (k, ran) = (k, logins)

    then-IsSafe :
        {A B : Type 0} (r : Api A × RequestState) (f : A → M RequestState B)
        → Safe r.1
        → ((a : A) (t : RequestState) → Safe t → Safe (f a t).1)
        → Safe (continue r f).1
    then-IsSafe (ok a, t) f h k = k a t h
    then-IsSafe (err x, t) f h k = h
    then-IsSafe (panic, t) f h k = h

    update-IsSafe :
        (s : RequestState) → Safe s → Safe (record s { execution = complete_current s.execution })
    update-IsSafe s (h, logins) = (rw (complete_current-context s.execution) h, logins)

    finish-IsSafe :
        (s : RequestState) → Safe s → Safe (finish ext db tokens form_ext session uri s).1
    finish-IsSafe s h =
        let t = record s { execution = complete_current s.execution } in
        then-IsSafe (complete tokens db session t) _
          (complete-IsSafe tokens db session form_ext forms t (update-IsSafe s h))
          (λ a u safe. then-IsSafe (convert from_postgres db.commit, u) _ safe (λ b v ok_v. ok_v))

    show-IsSafe :
        (error : Option SubmissionError) (ctx : CheckContext) (s : RequestState)
        → Safe s
        → Safe (show ext db tokens form_ext session uri error ctx s).1
    show-IsSafe error ctx s h = rw (show_same error ctx s) h

    after_submission-IsSafe :
        (ctx : CheckContext) (r : Api (Unit {0})) (s : RequestState)
        → Safe s
        → Safe (after_submission ext db tokens form_ext session uri ctx r s).1
    after_submission-IsSafe ctx (ok x) s h = finish-IsSafe s h
    after_submission-IsSafe ctx (err (submission_error x)) s h = show-IsSafe (some x) ctx s h
    after_submission-IsSafe ctx (err invalid_login_data) s h = h
    after_submission-IsSafe ctx (err session_cookie_missing) s h = h
    after_submission-IsSafe ctx (err invalid_session_cookie) s h = h
    after_submission-IsSafe ctx (err not_found) s h = h
    after_submission-IsSafe ctx (err unauthorized) s h = h
    after_submission-IsSafe ctx (err forbidden) s h = h
    after_submission-IsSafe ctx (err conflict) s h = h
    after_submission-IsSafe ctx (err (axum x)) s h = h
    after_submission-IsSafe ctx (err (misc_internal x)) s h = h
    after_submission-IsSafe ctx (err (missing_middleware x)) s h = h
    after_submission-IsSafe ctx (err (pw_hash x)) s h = h
    after_submission-IsSafe ctx (err (pool_error x)) s h = h
    after_submission-IsSafe ctx (err (postgres_error x)) s h = h
    after_submission-IsSafe ctx (err (json_web_token x)) s h = h
    after_submission-IsSafe ctx panic s h = h

    submit-IsSafe :
        (ctx : CheckContext) (form : Value) (s : RequestState)
        → Memᴰ form forms
        → Safe s
        → Safe (submit ext db tokens form_ext session uri ctx form s).1
    submit-IsSafe ctx form s mem (h, logins) =
        let out = handle_submission db form_ext form s.execution in
        after_submission-IsSafe ctx out.0 (record s { execution = out.1 })
          (handle_submission-Trusted db form_ext forms form s.execution mem h, logins)

    guarded-IsSafe :
        (ctx : CheckContext) (form : Value) (r : Api (Option String)) (s : RequestState)
        → Memᴰ form forms
        → Safe s
        → Safe (guarded ext db tokens form_ext session uri ctx form r s).1
    guarded-IsSafe ctx form (ok (some m)) s mem h = show-IsSafe none ctx s h
    guarded-IsSafe ctx form (ok none) s mem h = submit-IsSafe ctx form s mem h
    guarded-IsSafe ctx form (err x) s mem h = submit-IsSafe ctx form s mem h
    guarded-IsSafe ctx form panic s mem h = h

    post_execution-IsSafe :
        (req : CheckContextRequest) (form : Value) (s : RequestState)
        → Memᴰ form forms
        → Safe s
        → Safe (post req form s).1
    unfolding post_execution
    post_execution-IsSafe req form s mem h =
        let ctx = get_check_context s.execution req in
        roll_back-IsSafe
          (guarded ext db tokens form_ext session uri ctx form (check ext s.execution ctx) s) s h
          (guarded-IsSafe ctx form (check ext s.execution ctx) s mem h)

  -- The requests of one session to one execution, one after another.
  abbrev pub posts : List (CheckContextRequest × Value) → RequestState → RequestState
  posts [] s = s
  posts ((req, form) ∷ rest) s = posts rest (post req form s).1

  abbrev pub forms_of : List (CheckContextRequest × Value) → List Value
  forms_of [] = []
  forms_of ((req, form) ∷ rest) = form ∷ forms_of rest

  posts-IsSafe :
      (forms : List Value) (requests : List (CheckContextRequest × Value)) (s : RequestState)
      → ((form : Value) → Memᴰ form (forms_of requests) → Memᴰ form forms)
      → Safe forms s
      → Safe forms (posts requests s)
  posts-IsSafe forms [] s within h = h
  posts-IsSafe forms ((req, form) ∷ rest) s within h =
      posts-IsSafe forms rest (post req form s).1 (λ f mem. within f (Memᴰ.tail mem))
        (post_execution-IsSafe forms req form s (within form (Memᴰ.head refl)) h)

  -- Whatever POST requests a session sends to an execution with nobody pending, as it is when it is
  -- started, and however each of them ends: every statement that logs somebody in is for that session,
  -- and for a user for whose stored hash the password of one of the submitted forms was accepted.
  pub posts-LoginsVerified :
      (requests : List (CheckContextRequest × Value)) (s : RequestState)
      → s.execution.context.pending ≡ none
      → s.jar.statements ≡ []
      → LoginsVerified tokens db session form_ext
          (forms_of requests)
          (posts requests s).jar.statements
  posts-LoginsVerified requests s nobody nothing =
      (posts-IsSafe (forms_of requests) requests s (λ f mem. mem) (rw nobody tt, rw nothing tt)).1
