-- ===== src/Handler/Authentication.antt =====
-- The pending user of an execution is authenticated by a password that was compared with the
-- stored hash, and by nothing else.
use authust.Prelude.{Bool, true, false, Option, none, some, List, ◌≡◌, refl, sym, if◌then◌else◌}
use mathlib.Core.List.{Memᴰ}
use mathlib.Core.Path.{subst}
use authust.Prelude.Eq.{contains}
use authust.Prelude.Res.{ok, err, panic}
use authust.Model.User.{PartialUser, PendingUser}
use authust.Model.Error.{Value}
use authust.Model.Query.{StageQuery}
use authust.Model.Stage.{
  StageKind, identification, PasswordBackend, internal, UserField, Eq-backend,
}
use authust.Api.Error.{Api}
use authust.Api.Monad.{M, continue}
use authust.Api.Session.{Database}
use authust.Executor.State.{FlowExecution}
use authust.Executor.Entries.{get_entry, lookup_stage}
use authust.Handler.Submission.{
  Form, check_password, handle_password_stage, handle_identification, handle_stage,
  handle_submission, set_pending, pending_of_user, field_text, embedded, then_password, identify,
  find_user, current_stage,
}
use authust.Handler.Verified.{Trusted, field_text-ok, with_text-Marks, Marks-Trusted}

module _ (db : Database) (ext : Form) (forms : List Value) where
  open ext use {value_get, parse_uuid, Hash, parse_hash, verify_password}

  -- A password stage, whatever is submitted and whatever it answers, keeps the pending user trusted.
  handle_password_stage-Trusted :
      (form : Value) (backends : List PasswordBackend) (e : FlowExecution)
      → Memᴰ form forms
      → Trusted db ext forms e.context.pending
      → Trusted db ext forms (handle_password_stage db ext form backends e).1.context.pending
  unfolding handle_password_stage
  handle_password_stage-Trusted form backends e mem h = go e.context.pending refl
    where
      go :
          (o : Option PendingUser)
          → e.context.pending ≡ o
          → Trusted db ext forms (handle_password_stage db ext form backends e).1.context.pending
      go none q =
          let step : (handle_password_stage db ext form backends e).1 ≡ e = rw q in rw step h
      go (some u) q =
          let r = field_text "password" (value_get "password" form) in
          let b = contains backends internal in
          let step : handle_password_stage db ext form backends e
              ≡ continue (r, e) (check_password db ext b u) =
            rw q in
          subst (λ (s : Api (Unit {0}) × FlowExecution). Trusted db ext forms s.1.context.pending)
            (sym step)
            (Marks-Trusted db ext forms u e _
              (with_text-Marks db ext forms b u r e (λ password got.
                (form, mem, field_text-ok db ext forms (value_get "password" form) password got)))
              q h)

  -- A step that only reads keeps what the rest keeps.
  lift-Trusted :
      {A : Type 0} (r : Api A) (f : A → M FlowExecution (Unit {0})) (e : FlowExecution)
      → Trusted db ext forms e.context.pending
      → ((a : A) → Trusted db ext forms (f a e).1.context.pending)
      → Trusted db ext forms (continue (r, e) f).1.context.pending
  lift-Trusted (ok a) f e h k = k a
  lift-Trusted (err x) f e h k = h
  lift-Trusted panic f e h k = h

  embedded-Trusted :
      (form : Value) (k : StageKind) (e : FlowExecution)
      → Memᴰ form forms
      → Trusted db ext forms e.context.pending
      → Trusted db ext forms (embedded db ext form k e).1.context.pending
  embedded-Trusted form (StageKind.password backends) e mem h =
      handle_password_stage-Trusted form backends e mem h
  embedded-Trusted form _ e mem h = h

  then_password-Trusted :
      (form : Value) (q : Option StageQuery) (e : FlowExecution)
      → Memᴰ form forms
      → Trusted db ext forms e.context.pending
      → Trusted db ext forms (then_password db ext form q e).1.context.pending
  then_password-Trusted form none e mem h = h
  then_password-Trusted form (some q) e mem h =
      lift-Trusted (lookup_stage e q) (λ s. embedded db ext form s.kind) e h
        (λ s. embedded-Trusted form s.kind e mem h)

  identified-Trusted :
      (form : Value) (q : Option StageQuery) (o : Option PartialUser) (e : FlowExecution)
      → Memᴰ form forms
      → Trusted db ext forms e.context.pending
      → Trusted db ext forms (identify db ext form q o e).1.context.pending
  identified-Trusted form q none e mem h = h
  identified-Trusted form q (some u) e mem h =
      then_password-Trusted form q (set_pending (pending_of_user u) e) mem (λ p. cc)

  handle_identification-Trusted :
      (form : Value) (q : Option StageQuery) (fields : List UserField) (e : FlowExecution)
      → Memᴰ form forms
      → Trusted db ext forms e.context.pending
      → Trusted db ext forms (handle_identification db ext form q fields e).1.context.pending
  unfolding handle_identification
  handle_identification-Trusted form q fields e mem h =
      lift-Trusted (field_text "uid" (value_get "uid" form)) _ e h (λ uid.
        lift-Trusted (find_user db ext fields uid) (identify db ext form q) e h
          (λ o. identified-Trusted form q o e mem h))

  -- Whichever form is submitted to whatever stage, and also where the handler fails or panics: a pending
  -- user who is marked as authenticated afterwards has had the password of one of the forms accepted
  -- for the hash that the database stores for this user's uid, given that this held before.
  pub handle_stage-Trusted :
      (form : Value) (k : StageKind) (e : FlowExecution)
      → Memᴰ form forms
      → Trusted db ext forms e.context.pending
      → Trusted db ext forms (handle_stage db ext form k e).1.context.pending
  unfolding handle_stage
  handle_stage-Trusted form (identification q fields) e mem h =
      handle_identification-Trusted form q fields e mem h
  handle_stage-Trusted form (StageKind.password backends) e mem h =
      handle_password_stage-Trusted form backends e mem h
  handle_stage-Trusted form _ e mem h = h

  current_stage-Trusted :
      (form : Value) (e : FlowExecution)
      → Memᴰ form forms
      → Trusted db ext forms e.context.pending
      → Trusted db ext forms (current_stage db ext e form e).1.context.pending
  current_stage-Trusted form e mem h = lift-Trusted (get_entry e) _ e h (λ entry.
      lift-Trusted (lookup_stage e entry.stage) (λ s. handle_stage db ext form s.kind) e h
        (λ s. handle_stage-Trusted form s.kind e mem h))

  unless-Trusted :
      (b : Bool) (e : FlowExecution) (r : Api (Unit {0}) × FlowExecution)
      → Trusted db ext forms e.context.pending
      → Trusted db ext forms r.1.context.pending
      → Trusted db ext forms (if b then (ok tt, e) else r).1.context.pending
  unless-Trusted true e r h k = h
  unless-Trusted false e r h k = k

  -- Whatever one of the forms does at the current entry of an execution, and however that ends: a
  -- pending user who is marked as authenticated afterwards has had the password of one of the forms
  -- accepted for the hash that the database stores for this user, given that this held before.
  pub handle_submission-Trusted :
      (form : Value) (e : FlowExecution)
      → Memᴰ form forms
      → Trusted db ext forms e.context.pending
      → Trusted db ext forms (handle_submission db ext form e).1.context.pending
  unfolding handle_submission
  handle_submission-Trusted form e mem h =
      unless-Trusted e.is_completed e (current_stage db ext e form e) h
        (current_stage-Trusted form e mem h)
