-- ===== src/Api/Answers.antt =====
-- server/src/api/mod.rs: the statuses that the errors are answered with.
use authust.Prelude.{String, Bool, true, false, Option, none, some, ◌≡◌, ◌↔◌, arith, if◌then◌else◌}
use authust.Prelude.Eq.{Eq-string, opt_eq}
use authust.Api.Error.{
  ApiErrorKind, PgError, conflict, postgres_error, from_postgres, is_internal, into_response,
}

-- An error is answered with status 500 exactly if `is_internal` says that it is an internal one, so
-- the errors that are hidden from the client are those that are logged as such.
pub is_internal_iff : (e : ApiErrorKind) → (is_internal e ≡ true) ↔ ((into_response e).0 ≡ 500)
unfolding is_internal into_response
is_internal_iff e = ground arith

opt_eq_iff : (a : Option String) (b : String) → (opt_eq a (some b) ≡ true) ↔ (a ≡ some b)
opt_eq_iff none b = ground arith
opt_eq_iff (some a) b = ground (arith, Eq-string.beq_iff a b)

choose :
    (b : Bool) (e : PgError) → ((if b then conflict else postgres_error e) ≡ conflict) ↔ (b ≡ true)
choose true e = ground arith
choose false e = ground arith

-- A database error becomes a conflict exactly if the routine that reported it is
-- `_bt_check_unique`, and then the answer has status 409 and no body.
from_postgres_conflict_iff :
    (e : PgError)
    → ((from_postgres e ≡ conflict) ↔ (e.routine ≡ some "_bt_check_unique"))
      × (from_postgres e ≡ conflict → (into_response (from_postgres e)).0 ≡ 409)
unfolding from_postgres into_response
from_postgres_conflict_iff e = (
  ground (
    arith,
    choose (opt_eq e.routine (some "_bt_check_unique")) e,
    opt_eq_iff e.routine "_bt_check_unique",
  ),
  λ h. rw h,
)
