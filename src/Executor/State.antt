-- ===== src/Executor/State.antt =====
-- server/src/executor/context.rs, and the structs of server/src/executor.rs and executor/flow.rs.
-- A lock guards each mutable field; one request at a time works on an execution.
use authust.Prelude.{ℕ, String, Bool, Option, none}
use authust.Prelude.Res.{Res}
use authust.Model.Query.{StageQuery, PolicyQuery, FlowQuery}
use authust.Model.User.{Uuid, PartialUser, PendingUser, OffsetDateTime}
use authust.Model.Stage.{Stage}
use authust.Model.Policy.{Policy}
use authust.Model.Flow.{Flow}
use authust.PolicyEngine.Uri.{Uri, Scheme}

-- The lookups of the frozen storage, which the storage crate implements: `ok none` where it reports
-- an error, `panic` where it panics.
pub record FreezedStorage : Type 0 where
  pub stage : StageQuery → Res ⊥ (Option Stage)
  pub policy : PolicyQuery → Res ⊥ (Option Policy)

pub record ExecutionError : Type 0 where
  pub stage : Option StageQuery
  pub message : String

pub record PolicyUser : Type 0 where
  pub uid : Uuid
  pub name : String
  pub password_change_date : OffsetDateTime

-- The field `fields` is a store that no stage uses.
pub record ExecutionContext : Type 0 where
  pub session_id : String
  pub start_time : OffsetDateTime
  pub pending : Option PendingUser
  pub user : Option PolicyUser
  pub storage : FreezedStorage
  pub error : Option ExecutionError

-- `ExecutionContext::new`; the clock's reading is an argument.
unfoldable pub new_context : (now : OffsetDateTime) → String → FreezedStorage → ExecutionContext
new_context now session_id storage = record {
  session_id = session_id;
  start_time = now;
  pending = none;
  user = none;
  storage = storage;
  error = none;
}

pub record FlowKey : Type 0 where
  pub session : String
  pub flow : FlowQuery

-- `FlowExecutionInternal`; the executor and the policy service are arguments where they are used.
pub record FlowExecution : Type 0 where
  pub flow : Flow
  pub key : FlowKey
  pub context : ExecutionContext
  pub current_entry_idx : ℕ
  pub is_completed : Bool

pub record ExecutorQuery : Type 0 where
  pub next : Option String

pub record CheckContextRequest : Type 0 where
  pub uri : Uri
  pub host : String
  pub scheme : Scheme
  pub query : ExecutorQuery
  pub user : Option PartialUser

-- `CheckContextData`; the `execution` beside it in `CheckContext` is an argument of the checks.
pub record CheckContext : Type 0 where
  pub request : CheckContextRequest
  pub pending_user : Option PendingUser

-- `FlowExecution::get_check_context`.
unfoldable pub get_check_context : FlowExecution → CheckContextRequest → CheckContext
get_check_context e req = record { request = req; pending_user = e.context.pending }

-- `use_mut_context` with the closure `f`; the lock is free, since requests do not overlap.
unfoldable pub use_mut_context :
    (ExecutionContext → ExecutionContext) → FlowExecution → FlowExecution
use_mut_context f e = record e { context = f e.context }

-- `FlowExecution::set_error`.
unfoldable pub set_error : ExecutionError → FlowExecution → FlowExecution
unfolding use_mut_context
set_error x e = use_mut_context (λ c. record c { error = Option.some x }) e
