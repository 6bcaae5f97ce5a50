-- ===== src/Executor/Validate.antt =====
-- server/src/executor.rs: `Validate for PolicyKind`.
use authust.Prelude.{Option, some}
use authust.Prelude.Res.{Res, ok, panic}
use authust.Model.Policy.{PolicyKind, PolicyResult}
use authust.Model.User.{OffsetDateTime}
use authust.Executor.State.{ExecutionContext, PolicyUser}
use authust.Executor.Externals.{Externals}

module _ (ext : Externals) where
  open ext use {since, seconds, lt}

  -- `a > b` of two durations is `b < a`.
  abbrev expired : OffsetDateTime → PolicyKind → Option PolicyUser → PolicyResult
  expired start_time (PolicyKind.password_expiry max_age) (some user) =
      PolicyResult.value (lt (seconds max_age) (since start_time user.password_change_date))
  expired start_time _ _ = PolicyResult.not_applicable

  -- The other two arms are `todo!()`.
  unfoldable pub validate : PolicyKind → ExecutionContext → Res ⊥ PolicyResult
  validate (PolicyKind.password_expiry max_age) context =
      ok (expired context.start_time (PolicyKind.password_expiry max_age) context.user)
  validate PolicyKind.password_strength context = panic
  validate (PolicyKind.expression _) context = panic
