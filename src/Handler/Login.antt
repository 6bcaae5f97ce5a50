-- ===== src/Handler/Login.antt =====
-- The stages that run on the server log in verified users only.
use authust.Prelude.{
  ℕ, zero, suc, String, Bool, true, false, Option, none, some, List, [], ◌∷◌, ◌≡◌, refl, sym,
  if◌then◌else◌,
}
use mathlib.Core.Path.{subst}
use authust.Prelude.Res.{ok, err, panic, ok_or}
use authust.Model.User.{PendingUser}
use authust.Model.Error.{Value}
use authust.Model.Stage.{StageKind, user_login, requires_input}
use authust.Model.Flow.{FlowEntry}
use authust.Api.Error.{Api, from_jwt, from_postgres, invalid_session_cookie}
use authust.Api.Monad.{M, continue, lift, convert}
use authust.Api.Session.{Session, Tokens, Database, Jar, SqlStatement, run}
use authust.Executor.State.{set_error}
use authust.Executor.Entries.{get_entry, lookup_stage, complete_current}
use authust.Executor.Progress.{complete_current-context}
use authust.Handler.Submission.{Form}
use authust.Handler.Verified.{Verified, Trusted}
use authust.Handler.Complete.{
  RequestState, logged_in, log_in, login_by, login_with, Round, break, next, run_stage, then_loop,
  act, on_entry, round, complete_from, complete, on_jar, update,
}

module _ (tokens : Tokens) (db : Database) (session : Session) (ext : Form)
    (forms : List Value) where
  -- Each statement that logs somebody in does so for the request's session and for a user whose
  -- password was verified.
  abbrev pub LoginsVerified : List SqlStatement → Type 0
  LoginsVerified [] = Unit
  LoginsVerified (SqlStatement.insert_session _ ∷ rest) = LoginsVerified rest
  LoginsVerified (SqlStatement.update_session uid sid ∷ rest) =
      Verified db ext forms uid × (sid ≡ session.session_id) × LoginsVerified rest

  abbrev pub IsSafe : RequestState → Type 0
  IsSafe s = Trusted db ext forms s.execution.context.pending × LoginsVerified s.jar.statements

  lift-LoginsVerified :
      {A : Type 0} (r : Api A) (f : A → M Jar (Unit {0})) (jar : Jar)
      → LoginsVerified jar.statements
      → ((a : A) → LoginsVerified (f a jar).1.statements)
      → LoginsVerified (continue (r, jar) f).1.statements
  lift-LoginsVerified (ok a) f jar h k = k a
  lift-LoginsVerified (err x) f jar h k = h
  lift-LoginsVerified panic f jar h k = h

  cookie-LoginsVerified :
      (r : Api String) (f : Unit {0} → M Jar (Unit {0})) (jar : Jar)
      → LoginsVerified jar.statements
      → ((c : Option String)
          → LoginsVerified (f tt (record jar { session_cookie = c })).1.statements)
      → LoginsVerified
          (continue
            (continue (r, jar) (λ token j. (ok tt, record j { session_cookie = some token })))
            f).1.statements
  cookie-LoginsVerified (ok token) f jar h k = k (some token)
  cookie-LoginsVerified (err x) f jar h k = h
  cookie-LoginsVerified panic f jar h k = h

  log_in-LoginsVerified :
      (u : PendingUser) (jar : Jar)
      → Verified db ext forms u.uid
      → LoginsVerified jar.statements
      → LoginsVerified (log_in tokens db session u jar).1.statements
  unfolding log_in
  log_in-LoginsVerified u jar v h =
      lift-LoginsVerified (ok_or jar.session_cookie invalid_session_cookie) _ jar h (λ cookie.
        lift-LoginsVerified (convert from_jwt (tokens.decode cookie)) _ jar h (λ claims.
          cookie-LoginsVerified (convert from_jwt (tokens.encode (logged_in u claims))) _ jar h
            (λ c.
              lift-LoginsVerified
                (convert from_postgres (db.update_session u.uid session.session_id))
                (λ _. run (SqlStatement.update_session u.uid session.session_id))
                (record jar { session_cookie = c }) h (λ _. (v, refl, h)))))

  log_in_step-IsSafe :
      (u : PendingUser) (s : RequestState)
      → Verified db ext forms u.uid
      → IsSafe s
      → IsSafe (on_jar (log_in tokens db session u) s).1
  log_in_step-IsSafe u s v (h, l) = (h, log_in-LoginsVerified u s.jar v l)

  keep-IsSafe :
      {A B : Type 0} (r : Api A × RequestState) (f : A → M RequestState B)
      → IsSafe r.1
      → ((a : A) (s : RequestState) → IsSafe s → IsSafe (f a s).1)
      → IsSafe (continue r f).1
  keep-IsSafe (ok a, s) f h k = k a s h
  keep-IsSafe (err x, s) f h k = h
  keep-IsSafe (panic, s) f h k = h

  complete_current-IsSafe : (s : RequestState) → IsSafe s → IsSafe (update complete_current s).1
  complete_current-IsSafe s (h, l) = (rw (complete_current-context s.execution) h, l)

  login_by-IsSafe :
      (b : Bool) (entry : FlowEntry) (u : PendingUser) (s : RequestState)
      → (b ≡ true → Verified db ext forms u.uid)
      → IsSafe s
      → IsSafe (login_by tokens db session b entry u s).1
  login_by-IsSafe true entry u s v h =
      keep-IsSafe (on_jar (log_in tokens db session u) s) _ (log_in_step-IsSafe u s (v refl) h)
        (λ _ s'. complete_current-IsSafe s')
  login_by-IsSafe false entry u s v (h, l) = (unfold set_error in h, l)

  run_stage-IsSafe :
      (entry : FlowEntry) (k : StageKind) (s : RequestState)
      → IsSafe s
      → IsSafe (run_stage tokens db session entry k s).1
  unfolding run_stage
  run_stage-IsSafe entry user_login s (h, l) = go s.execution.context.pending refl
    where
      go :
          (o : Option PendingUser)
          → s.execution.context.pending ≡ o
          → IsSafe (run_stage tokens db session entry user_login s).1
      go none q =
          let step : (run_stage tokens db session entry user_login s).1 ≡ s = rw q in rw step (h, l)
      go (some u) q =
          let step : run_stage tokens db session entry user_login s
              ≡ login_with tokens db session entry u s =
            rw q in
          subst (λ (r : Api Round × RequestState). IsSafe r.1) (sym step)
            (login_by-IsSafe u.authenticated entry u s (rw q at h) (h, l))
  run_stage-IsSafe entry _ s h = h

  -- What a round asks of the recursive call.
  abbrev Keeps : Option (M RequestState (Unit {0})) → Type 0
  Keeps none = Unit
  Keeps (some r) = (t : RequestState) → IsSafe t → IsSafe (r t).1

  act-IsSafe :
      (rest : Option (M RequestState (Unit {0}))) (entry : FlowEntry) (b : Bool) (k : StageKind)
      (s : RequestState)
      → Keeps rest
      → IsSafe s
      → IsSafe (act tokens db session rest entry b k s).1
  act-IsSafe rest entry true k s keeps h = h
  act-IsSafe none entry false k s keeps h = h
  act-IsSafe (some r) entry false k s keeps h =
      keep-IsSafe (run_stage tokens db session entry k s) (then_loop tokens db session r)
        (run_stage-IsSafe entry k s h) (λ end t safe. ended end t safe)
    where
      ended :
          (end : Round) (t : RequestState)
          → IsSafe t
          → IsSafe (then_loop tokens db session r end t).1
      ended break t safe = safe
      ended next t safe = keeps t safe

  unless-IsSafe :
      (b : Bool) (s : RequestState) (r : Api (Unit {0}) × RequestState)
      → IsSafe s
      → IsSafe r.1
      → IsSafe (if b then (ok tt, s) else r).1
  unless-IsSafe true s r h k = h
  unless-IsSafe false s r h k = k

  round-IsSafe :
      (rest : Option (M RequestState (Unit {0}))) (s : RequestState)
      → Keeps rest
      → IsSafe s
      → IsSafe (round tokens db session rest s).1
  round-IsSafe rest s keeps h =
      unless-IsSafe s.execution.is_completed s (on_entry tokens db session rest s.execution s) h (
        keep-IsSafe (lift (get_entry s.execution) s) _ h (λ entry t safe.
          keep-IsSafe (lift (lookup_stage s.execution entry.stage) t)
            (λ stage. act tokens db session rest entry (requires_input stage.kind) stage.kind) safe
            (λ stage u ok_u.
              act-IsSafe rest entry (requires_input stage.kind) stage.kind u keeps ok_u)))

  complete_from-IsSafe :
      (rounds : ℕ) (s : RequestState)
      → IsSafe s
      → IsSafe (complete_from tokens db session rounds s).1
  unfolding complete_from
  complete_from-IsSafe zero s h = round-IsSafe none s tt h
  complete_from-IsSafe (suc rounds) s h =
      round-IsSafe (some (complete_from tokens db session rounds)) s
        (λ t safe. complete_from-IsSafe rounds t safe) h

  -- The loop behind a submission, also where it fails or panics on the way: each statement that it
  -- runs to log somebody in is for the session of the request, and for a user for whose stored hash
  -- the password of one of the forms was accepted, given that this held of the statements before and
  -- of a pending user who is marked as authenticated. It then still holds of the pending user.
  pub complete-IsSafe : (s : RequestState) → IsSafe s → IsSafe (complete tokens db session s).1
  unfolding complete
  complete-IsSafe s h = complete_from-IsSafe 41 s h
