-- ===== src/Handler/Requests.antt =====
-- server/src/api/v1/executor.rs: the two handlers of a flow. The cached execution is shared by the
-- requests, which change it in place; statements of a transaction that is dropped are taken back.
use authust.Prelude.{ℕ, String, Bool, true, false, Option, none, some}
use authust.Prelude.Res.{Res, ok, err, panic, ok_or}
use authust.Model.Query.{FlowQuery}
use authust.Model.User.{PartialUser, OffsetDateTime}
use authust.Model.Error.{Value, SubmissionError}
use authust.Model.Data.{FlowData}
use authust.PolicyEngine.Uri.{Uri, http}
use authust.Storage.Reverse.{Sources, Lookup, Diverged}
use authust.Api.Error.{
  Api, ApiErrorKind, misc_internal, not_found, pool_error, submission_error, from_postgres,
}
use authust.Api.Monad.{M, continue, ◌>>=◌, lift, pure, fail, convert}
use authust.Api.Session.{Session, Tokens, Database, Jar}
use authust.Executor.State.{
  FlowExecution, FlowKey, ExecutorQuery, CheckContextRequest, CheckContext, get_check_context,
}
use authust.Executor.Entries.{complete_current}
use authust.Executor.Externals.{Externals}
use authust.Executor.Checks.{check}
use authust.Executor.Component.{flow_data}
use authust.Executor.Registry.{Cache, get_key, get_execution, invalidate_flow}
use authust.Handler.Users.{get_user}
use authust.Handler.Submission.{Form, handle_submission}
use authust.Handler.Complete.{RequestState, update, complete}

-- What a handler answers: a page as JSON, or a redirect to the address of the request.
pub data Answer : Type 0 where
  page : FlowData → Answer
  redirect_to : Uri → Answer

-- What a handler takes from its request, beside the session and the form.
pub record HttpRequest : Type 0 where
  pub uri : Uri
  pub host : String
  pub query : Option ExecutorQuery

abbrev no_query : ExecutorQuery
no_query = record { next = none }

abbrev pub query_or_default : Option ExecutorQuery → ExecutorQuery
query_or_default none = no_query
query_or_default (some q) = q

abbrev pub request_of : HttpRequest → Option PartialUser → CheckContextRequest
request_of req user = record {
  uri = req.uri;
  host = req.host;
  scheme = http;
  query = query_or_default req.query;
  user = user;
}

abbrev pub page_of : FlowData × Bool → Answer
page_of (d, _) = page d

module _ (ext : Externals) (db : Database) (tokens : Tokens) (form_ext : Form) (session : Session)
    (uri : Uri) where
  -- The page of an execution, which a POST does not take out of the cache unless it is completed.
  abbrev pub show : Option SubmissionError → CheckContext → M RequestState (Answer × Bool)
  show error ctx s =
      continue (flow_data ext s.execution error ctx, s) (λ (d, gone). pure (page d, gone))

  -- The statements of the transaction are dropped with it.
  abbrev pub roll_back :
      {A : Type 0} → Jar → Res ApiErrorKind A × RequestState → Res ApiErrorKind A × RequestState
  roll_back before (ok a, s) = (ok a, s)
  roll_back before (err x, s) =
      (err x, record s { jar = record s.jar { statements = before.statements } })
  roll_back before (panic, s) =
      (panic, record s { jar = record s.jar { statements = before.statements } })

  -- After a submission that was handled: the next entry, the stages of the server, the commit.
  abbrev pub finish : M RequestState (Answer × Bool)
  finish = do
    _ ← update complete_current
    _ ← complete tokens db session
    _ ← lift (convert from_postgres db.commit)
    pure (redirect_to uri, false)

  abbrev pub after_submission : CheckContext → Api (Unit {0}) → M RequestState (Answer × Bool)
  after_submission ctx (ok _) = finish
  after_submission ctx (err (submission_error x)) = show (some x) ctx
  after_submission ctx (err x) = fail x
  after_submission ctx panic = lift panic

  abbrev pub submit : CheckContext → Value → M RequestState (Answer × Bool)
  submit ctx form s =
      let (r, e) = handle_submission db form_ext form s.execution in
      after_submission ctx r (record s { execution = e })

  -- The answer of the check: an error of it lets the submission through.
  abbrev pub guarded : CheckContext → Value → Api (Option String) → M RequestState (Answer × Bool)
  guarded ctx form (ok (some _)) = show none ctx
  guarded ctx form (ok none) = submit ctx form
  guarded ctx form (err _) = submit ctx form
  guarded ctx form panic = lift panic

  -- The part of `post_flow` that works on an execution, from the check on: the answer, and whether
  -- the execution leaves the cache.
  unfoldable pub post_execution : CheckContextRequest → Value → M RequestState (Answer × Bool)
  unfolding get_check_context
  post_execution req form s =
      let ctx = get_check_context s.execution req in
      roll_back s.jar (guarded ctx form (check ext s.execution ctx) s)

-- The state of the server for a request: the cache, and the request's jar.
pub record ServerState (C : Type 0) : Type 0 where
  pub executions : C
  pub jar : Jar

module _ {C E : Type 0} (cache : Cache C) (srcs : Sources E) (dc : Lookup E) (fuel : ℕ)
    (now : OffsetDateTime) (ext : Externals) (db : Database) (tokens : Tokens) (form_ext : Form)
    (session : Session) where
  -- A lookup that goes on for ever has no answer either.
  abbrev pub found : Res Diverged (Option FlowExecution) → Api FlowExecution
  found (ok (some e)) = ok e
  found (ok none) = err not_found
  found (err _) = panic
  found panic = panic

  abbrev pub execution_for : FlowKey → Bool → M (ServerState C) FlowExecution
  execution_for key start s =
      let (r, c) = get_execution cache srcs dc fuel now key start s.executions in
      (found r, record s { executions = c })

  abbrev pub leave : FlowKey → Bool → C → C
  leave key true c = (invalidate_flow cache srcs dc fuel now key c).1
  leave key false c = c

  abbrev get_page : FlowKey → HttpRequest → FlowExecution → M (ServerState C) Answer
  get_page key req e = do
    _ ← lift (convert pool_error db.connect)
    user ← lift (get_user db session)
    d ← lift (flow_data ext e none (get_check_context e (request_of req user)))
    λ s. (ok (page_of d), record s { executions = leave key d.1 s.executions })

  -- `get_flow`.
  unfoldable pub get_flow : FlowQuery → HttpRequest → M (ServerState C) Answer
  unfolding get_check_context
  get_flow flow req s =
      continue (ok_or (get_key session flow) (misc_internal "Key has slug instead of id"), s)
        λ key. do e ← execution_for key true; get_page key req e

  -- The execution that the cache holds is changed in place.
  abbrev pub written : FlowKey → Api (Answer × Bool) × RequestState → C → Api Answer × ServerState C
  written key (ok (a, gone), t) c =
      (ok a, record { executions = leave key gone (cache.insert key t.execution c); jar = t.jar })
  written key (err x, t) c =
      (err x, record { executions = cache.insert key t.execution c; jar = t.jar })
  written key (panic, t) c =
      (panic, record { executions = cache.insert key t.execution c; jar = t.jar })

  abbrev post_on : FlowKey → HttpRequest → Value → FlowExecution → M (ServerState C) Answer
  post_on key req form e = do
    _ ← lift (convert pool_error db.connect)
    _ ← lift (convert from_postgres db.begin)
    user ← lift (get_user db session)
    λ s.
        written key
          (post_execution ext db tokens form_ext session req.uri (request_of req user) form
            (record { execution = e; jar = s.jar }))
          s.executions

  -- `post_flow`: no execution is started for a submission.
  unfoldable pub post_flow : FlowQuery → HttpRequest → Value → M (ServerState C) Answer
  unfolding post_execution
  post_flow flow req form s =
      continue (ok_or (get_key session flow) not_found, s)
        λ key. do e ← execution_for key false; post_on key req form e
