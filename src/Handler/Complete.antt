-- ===== src/Handler/Complete.antt =====
-- server/src/api/v1/executor.rs: the stages that run on the server after a submission.
use authust.Prelude.{ℕ, zero, suc, Bool, true, false, Option, none, some, if◌then◌else◌}
use authust.Prelude.Res.{ok, panic, ok_or}
use authust.Model.User.{PendingUser}
use authust.Model.Error.{no_pending_user}
use authust.Model.Stage.{StageKind, user_login, user_logout, user_write, requires_input}
use authust.Model.Flow.{FlowEntry}
use authust.Api.Error.{submission_error, invalid_session_cookie, from_jwt, from_postgres}
use authust.Api.Monad.{M, continue, ◌>>=◌, lift, pure, convert}
use authust.Api.Session.{
  Claims, Session, Tokens, Database, Jar, SqlStatement, set_session_cookie, run,
}
use authust.Executor.State.{FlowExecution, ExecutionError, set_error}
use authust.Executor.Entries.{get_entry, lookup_stage, complete_current}

-- What a request works on: the execution, the cookie jar, and the transaction's statements.
pub record RequestState : Type 0 where
  pub execution : FlowExecution
  pub jar : Jar

abbrev pub on_jar : {A : Type 0} → M Jar A → M RequestState A
on_jar m s = let (r, jar) = m s.jar in (r, record s { jar = jar })

abbrev pub on_execution : {A : Type 0} → M FlowExecution A → M RequestState A
on_execution m s = let (r, e) = m s.execution in (r, record s { execution = e })

abbrev pub update : (FlowExecution → FlowExecution) → M RequestState (Unit {0})
update f s = (ok tt, record s { execution = f s.execution })

-- The claims of a session whose user has logged in.
abbrev pub logged_in : PendingUser → Claims → Claims
logged_in u claims = record claims { sub = some u.uid; authenticated = true; is_admin = u.is_admin }

abbrev pub login_failed : FlowEntry → ExecutionError
login_failed entry = record {
  stage = some entry.stage;
  message = "Authentication of pending user failed";
}

-- How a round of the loop ends: by `break`, or by going on.
pub data Round : Type 0 where
  break next : Round

module _ (tokens : Tokens) (db : Database) (session : Session) where
  -- The cookie and the row of the session of a user who is authenticated.
  unfoldable pub log_in : PendingUser → M Jar (Unit {0})
  unfolding set_session_cookie
  log_in user jar =
      continue (ok_or jar.session_cookie invalid_session_cookie, jar)
        λ cookie. do
          claims ← lift (convert from_jwt (tokens.decode cookie))
          _ ← set_session_cookie tokens (logged_in user claims)
          _ ← lift (convert from_postgres (db.update_session user.uid session.session_id))
          run (SqlStatement.update_session user.uid session.session_id)

  abbrev pub login_by : (authenticated : Bool) → FlowEntry → PendingUser → M RequestState Round
  login_by true entry user = do _ ← on_jar (log_in user); _ ← update complete_current; pure next
  login_by false entry user = do _ ← update (set_error (login_failed entry)); pure break

  abbrev pub login_with : FlowEntry → PendingUser → M RequestState Round
  login_with entry user = login_by user.authenticated entry user

  -- The `match` on the kind of a stage that needs no input, and `complete_current` behind it.
  unfoldable pub run_stage : FlowEntry → StageKind → M RequestState Round
  unfolding log_in
  run_stage entry user_login s =
      continue (ok_or s.execution.context.pending (submission_error no_pending_user), s)
        (login_with entry)
  run_stage entry user_logout s = (panic, s)
  run_stage entry user_write s = (panic, s)
  run_stage entry _ s = (panic, s)

  abbrev pub then_loop : M RequestState (Unit {0}) → Round → M RequestState (Unit {0})
  then_loop rest break = pure tt
  then_loop rest next = rest

  -- A round on a stage: it stops at one that needs input, or once `iterations > 40`, where there is
  -- no recursive call `rest`.
  abbrev pub act :
      (rest : Option (M RequestState (Unit {0})))
      → FlowEntry
      → (needs_input : Bool) → StageKind
      → M RequestState (Unit {0})
  act rest entry true k = pure tt
  act none entry false k = pure tt
  act (some r) entry false k = do end ← run_stage entry k; then_loop r end

  abbrev pub on_entry :
      (rest : Option (M RequestState (Unit {0}))) → FlowExecution → M RequestState (Unit {0})
  on_entry rest e = do
    entry ← lift (get_entry e)
    stage ← lift (lookup_stage e entry.stage)
    act rest entry (requires_input stage.kind) stage.kind

  abbrev pub round : (rest : Option (M RequestState (Unit {0}))) → M RequestState (Unit {0})
  round rest s = if s.execution.is_completed then (ok tt, s) else on_entry rest s.execution s

  -- The loop, with `rounds` = 41 - `iterations`.
  unfoldable pub complete_from : (rounds : ℕ) → M RequestState (Unit {0})
  unfolding run_stage
  complete_from zero = round none
  complete_from (suc rounds) = round (some (complete_from rounds))

  -- `complete`.
  unfoldable pub complete : M RequestState (Unit {0})
  unfolding complete_from
  complete = complete_from 41
