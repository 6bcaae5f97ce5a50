-- ===== src/Handler/Submission.antt =====
-- server/src/api/v1/executor.rs: a submitted form, handled by the current stage. The state is the
-- execution, whose context a stage changes.
use authust.Prelude.{String, Bool, true, false, Option, none, some, List, if◌then◌else◌}
use authust.Prelude.Eq.{contains}
use authust.Prelude.Res.{Res, ok, err, panic}
use authust.Model.User.{Uuid, PartialUser, PendingUser}
use authust.Model.Error.{
  Value, field_type, FieldType, FieldErrorKind, missing, invalid, invalid_type, field_error,
  SubmissionError, no_pending_user,
}
use authust.Model.Query.{StageQuery}
use authust.Model.Stage.{
  StageKind, deny, prompt, identification, user_login, user_logout, user_write, consent,
  PasswordBackend, internal, UserField, Eq-backend, Eq-user_field,
}
use authust.Api.Error.{
  Api, ApiErrorKind, PwHashError, submission_error, from_pw_hash, from_postgres,
}
use authust.Api.Monad.{M, continue, ◌>>=◌, lift, pure, fail, convert}
use authust.Api.Session.{Database}
use authust.Executor.State.{FlowExecution}
use authust.Executor.Entries.{get_entry, lookup_stage}
use authust.Handler.Users.{lookup_user}

-- What a submission uses of other crates: `Value::get` (serde_json), `Uuid::parse_str` (uuid), and
-- `PasswordHash::parse` and `verify_password` with the default Argon2 (argon2).
pub record Form : Type 1 where
  pub value_get : String → Value → Option Value
  pub parse_uuid : String → Option Uuid
  pub Hash : Type 0
  pub parse_hash : String → Res PwHashError Hash
  pub verify_password : Hash → String → Res PwHashError (Unit {0})

-- `SubmissionError::Field(FieldError::new(name, kind))` as an error of the handler.
abbrev pub field_failure : String → FieldErrorKind → ApiErrorKind
field_failure name k = submission_error (SubmissionError.field (field_error name k))

-- `str_from_field`.
unfoldable pub str_from_field : String → Value → Api String
str_from_field name (Value.string v) = ok v
str_from_field name other =
    err (field_failure name (invalid_type FieldType.string (field_type other)))

-- `form.get(name).ok_or(Missing)` and then `str_from_field`.
abbrev pub field_text : String → Option Value → Api String
field_text name none = err (field_failure name missing)
field_text name (some v) = str_from_field name v

-- The change of `ctx.pending` that a right password makes.
abbrev pub authenticate : Option PendingUser → Option PendingUser
authenticate none = none
authenticate (some u) = some (record u { authenticated = true })

abbrev pub mark_authenticated : FlowExecution → FlowExecution
mark_authenticated e = record e {
  context = record e.context { pending = authenticate e.context.pending };
}

abbrev pub set_pending : PendingUser → FlowExecution → FlowExecution
set_pending u e = record e { context = record e.context { pending = some u } }

abbrev pub modify : (FlowExecution → FlowExecution) → M FlowExecution (Unit {0})
modify f e = (ok tt, f e)

abbrev pub wrong_password : ApiErrorKind
wrong_password = field_failure "password" (invalid "Invalid Password")

-- A wrong password is an answer; any other failure of the verification is an error.
abbrev pub is_valid : Res PwHashError (Unit {0}) → Api Bool
is_valid (ok _) = ok true
is_valid (err PwHashError.password) = ok false
is_valid (err e) = err (from_pw_hash e)
is_valid panic = panic

abbrev pub pending_user : FlowExecution → Api PendingUser
pending_user e = elim e.context.pending [
  | none ↦ err (submission_error no_pending_user)
  | some u ↦ ok u
]

abbrev pub pending_of_user : PartialUser → PendingUser
pending_of_user u = record {
  uid = u.uid;
  name = u.name;
  avatar_url = none;
  authenticated = false;
  is_admin = u.is_admin;
}

module _ (db : Database) (ext : Form) where
  open ext use {value_get, parse_uuid, Hash, parse_hash, verify_password}

  -- The comparison with the stored hash; no row is `NoPendingUser`.
  abbrev pub verify : (stored : Option String) → String → M FlowExecution Bool
  verify none password = fail (submission_error no_pending_user)
  verify (some stored) password = do
    hash ← lift (convert from_pw_hash (parse_hash stored))
    lift (is_valid (verify_password hash password))

  abbrev pub accept : Bool → M FlowExecution (Unit {0})
  accept true = modify mark_authenticated
  accept false = fail wrong_password

  abbrev pub check_password :
      (internal_backend : Bool) → PendingUser → String → M FlowExecution (Unit {0})
  check_password true pending password = do
    stored ← lift (convert from_postgres (db.password_of pending.uid))
    valid ← verify stored password
    accept valid
  check_password false pending password = fail wrong_password

  -- `handle_password_stage`.
  unfoldable pub handle_password_stage : Value → List PasswordBackend → M FlowExecution (Unit {0})
  unfolding str_from_field
  handle_password_stage form backends e =
      continue (pending_user e, e)
        λ pending. do
          password ← lift (field_text "password" (value_get "password" form))
          check_password (contains backends internal) pending password

  -- The stage that an identification stage embeds; another kind than a password stage is
  -- `unreachable!`.
  abbrev pub embedded : Value → StageKind → M FlowExecution (Unit {0})
  embedded form (StageKind.password backends) = handle_password_stage form backends
  embedded form _ = lift panic

  abbrev pub then_password : Value → Option StageQuery → M FlowExecution (Unit {0})
  then_password form none e = (ok tt, e)
  then_password form (some q) e = continue (lookup_stage e q, e) (λ s. embedded form s.kind)

  abbrev pub identified : Option PartialUser → M FlowExecution (Unit {0})
  identified (some u) = modify (set_pending (pending_of_user u))
  identified none = fail (field_failure "uid" (invalid "Failed to authenticate"))

  -- The user that the form names, by the fields that the stage allows.
  abbrev pub find_user : List UserField → String → Api (Option PartialUser)
  find_user user_fields uid =
      lookup_user db parse_uuid uid (contains user_fields UserField.name)
        (contains user_fields UserField.email) (contains user_fields UserField.uuid)

  abbrev pub identify : Value → Option StageQuery → Option PartialUser → M FlowExecution (Unit {0})
  identify form password user = do _ ← identified user; then_password form password

  -- The arm of `StageKind::Identification`.
  unfoldable pub handle_identification :
      Value → Option StageQuery → List UserField → M FlowExecution (Unit {0})
  unfolding str_from_field
  handle_identification form password user_fields = do
    uid ← lift (field_text "uid" (value_get "uid" form))
    user ← lift (find_user user_fields uid)
    identify form password user

  -- `handle_stage`.
  unfoldable pub handle_stage : Value → StageKind → M FlowExecution (Unit {0})
  handle_stage form deny = pure tt
  handle_stage form (prompt _) = pure tt
  handle_stage form (identification password user_fields) =
      handle_identification form password user_fields
  handle_stage form user_login = pure tt
  handle_stage form user_logout = pure tt
  handle_stage form user_write = pure tt
  handle_stage form (StageKind.password backends) = handle_password_stage form backends
  handle_stage form (consent _) = pure tt

  abbrev pub current_stage : FlowExecution → Value → M FlowExecution (Unit {0})
  current_stage e form = do
    entry ← lift (get_entry e)
    stage ← lift (lookup_stage e entry.stage)
    handle_stage form stage.kind

  -- `handle_submission`: nothing is left to do on a completed execution.
  unfoldable pub handle_submission : Value → M FlowExecution (Unit {0})
  handle_submission form e = if e.is_completed then (ok tt, e) else current_stage e form e
