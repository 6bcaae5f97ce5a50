-- ===== src/Executor/Checks.antt =====
-- server/src/executor/flow.rs: the checks that guard a flow and its entries, and
-- server/src/service/policy.rs: the scope of an expression policy.
use authust.Prelude.{String, Bool, true, false, Option, none, some, List, [], ◌∷◌, if◌then◌else◌}
use authust.Prelude.Eq.{Eq-nat, opt_eq}
use authust.Prelude.Res.{Res, ok, err, panic, ◌>>=◌}
use authust.Api.Error.{Api}
use authust.Model.Query.{UniqueQuery, PolicyQuery}
use authust.Model.User.{Uuid, PartialUser}
use authust.Model.Policy.{Policy, PolicyKind, password_expiry, password_strength, expression}
use authust.Model.Flow.{
  AuthenticationRequirement, superuser, required, none as anonymous, ignored, FlowBinding,
  FlowBindingKind,
}
use authust.PolicyEngine.Uri.{create, Scope}
use authust.Executor.State.{FlowExecution, CheckContext}
use authust.Executor.Entries.{get_entry, lookup_policy}
use authust.Executor.Externals.{Externals}

pub data FlowCheckOutput : Type 0 where
  passed failed failed_hard neutral : FlowCheckOutput

-- `FlowCheckOutput::negate`.
unfoldable pub negate : FlowCheckOutput → FlowCheckOutput
negate passed = failed
negate failed = passed
negate failed_hard = failed_hard
negate neutral = neutral

-- `Deref for FlowCheckOutput`.
unfoldable pub deref : FlowCheckOutput → Bool
deref passed = true
deref neutral = true
deref failed = false
deref failed_hard = false

-- `IntoFlowCheckOutput for bool`.
unfoldable pub into_output : Bool → FlowCheckOutput
into_output true = passed
into_output false = failed

pub data FlowCheck : Type 0 where
  authentication : AuthenticationRequirement → FlowCheck
  is_user : Uuid → FlowCheck
  policy : PolicyQuery → FlowCheck

abbrev is_some {ℓ} : {A : Type ℓ} → Option A → Bool
is_some (some _) = true
is_some none = false

abbrev is_none {ℓ} : {A : Type ℓ} → Option A → Bool
is_none (some _) = false
is_none none = true

abbrev pub user_uid : Option PartialUser → Option Uuid
user_uid none = none
user_uid (some u) = some u.uid

-- The arms of `FlowCheck::Authentication`.
unfoldable pub check_authentication :
    AuthenticationRequirement → Option PartialUser → FlowCheckOutput
unfolding into_output
check_authentication superuser (some u) = into_output u.is_admin
check_authentication superuser none = failed
check_authentication required u = into_output (is_some u)
check_authentication anonymous u = into_output (is_none u)
check_authentication ignored u = neutral

-- `create_scope`; `RhaiUri::create` never fails, so its `unwrap` does not panic.
unfoldable pub create_scope : CheckContext → Scope
create_scope ctx = record {
  request = record {
    uri = create ctx.request.scheme ctx.request.host ctx.request.uri;
    user = ctx.request.user;
  };
  context = record { pending_user = ctx.pending_user };
}

-- The answer of a script: an error fails hard.
abbrev pub script_output : Option Bool → FlowCheckOutput
script_output (some true) = passed
script_output (some false) = failed
script_output none = failed_hard

-- `FlowCheck::message`.
unfoldable pub message : FlowCheck → String
message (authentication superuser) = "You must be a superuser to access this flow"
message (authentication required) = "You must be logged in to access this flow"
message (authentication anonymous) = "You must not be logged in to access this flow"
message (authentication ignored) = "This is an error! "
message (is_user _) = "Access denied"
message (policy _) = "Access denied"

-- `FlowCheck::from(FlowBindingKind)`; a group binding is `todo!()`.
unfoldable pub check_of_kind : FlowBindingKind → Api FlowCheck
check_of_kind (FlowBindingKind.group _) = panic
check_of_kind (FlowBindingKind.user id) = ok (is_user id)
check_of_kind (FlowBindingKind.policy q) = ok (policy q)

abbrev pub verdict : FlowCheck → (negated : Bool) → FlowCheckOutput → Option String
verdict c negated out =
    let result = if negated then negate out else out in
    if deref result then none else some (message c)

-- The body of the two loops over bindings: the first message ends them.
abbrev pub or_else : Option String → Api (Option String) → Api (Option String)
or_else (some m) rest = ok (some m)
or_else none rest = rest

module _ (ext : Externals) where
  open ext use {since, seconds, lt, AST, get_ast, eval}

  abbrev expiry_output : FlowExecution → PolicyKind → Option PartialUser → FlowCheckOutput
  expiry_output e (password_expiry max_age) (some u) =
      into_output (lt (since e.context.start_time u.password_change_date) (seconds max_age))
  expiry_output e _ _ = neutral

  abbrev pub run_script : CheckContext → Option AST → FlowCheckOutput
  run_script ctx (some ast) = script_output (eval ast (create_scope ctx))
  run_script ctx none = neutral

  -- The arms of `check_policy`.
  abbrev pub with_ast : CheckContext → Res ⊥ (Option AST) → Api FlowCheckOutput
  with_ast ctx (ok ast) = ok (run_script ctx ast)
  with_ast ctx (err x) = absurd x
  with_ast ctx panic = panic

  abbrev pub check_kind : FlowExecution → CheckContext → Policy → PolicyKind → Api FlowCheckOutput
  check_kind e ctx p (password_expiry max_age) =
      ok (expiry_output e (password_expiry max_age) ctx.request.user)
  check_kind e ctx p password_strength = ok neutral
  check_kind e ctx p (expression _) = with_ast ctx (get_ast (UniqueQuery.uid p.uid))

  unfoldable pub check_policy : FlowExecution → CheckContext → Policy → Api FlowCheckOutput
  check_policy e ctx p = check_kind e ctx p p.kind

  -- `FlowCheck::check`.
  unfoldable pub check_one : FlowExecution → CheckContext → FlowCheck → Api FlowCheckOutput
  check_one e ctx (authentication r) = ok (check_authentication r ctx.request.user)
  check_one e ctx (is_user id) = ok (into_output (opt_eq (user_uid ctx.request.user) (some id)))
  check_one e ctx (policy q) = do p ← lookup_policy e q; check_policy e ctx p

  unfoldable pub check_binding : FlowExecution → CheckContext → FlowBinding → Api (Option String)
  check_binding e ctx b =
      if b.enabled
      then (do c ← check_of_kind b.kind; out ← check_one e ctx c; ok (verdict c b.negate out))
      else ok none

  unfoldable pub check_bindings :
      FlowExecution → CheckContext → List FlowBinding → Api (Option String)
  check_bindings e ctx [] = ok none
  check_bindings e ctx (b ∷ bs) = do
    let rest = check_bindings e ctx bs
    m ← check_binding e ctx b
    or_else m rest

  -- The two loops: over the flow's bindings, then over those of the current entry.
  unfoldable pub check_all : FlowExecution → CheckContext → Api (Option String)
  check_all e ctx = do
    m ← check_bindings e ctx e.flow.bindings
    or_else m (do entry ← get_entry e; check_bindings e ctx entry.bindings)

  -- `FlowExecution::check`: `none` where access is granted.
  unfoldable pub check : FlowExecution → CheckContext → Api (Option String)
  check e ctx =
      let auth = authentication e.flow.authentication in
      do out ← check_one e ctx auth; if deref out then check_all e ctx else ok (some (message auth))
