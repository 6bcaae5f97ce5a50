-- ===== src/Executor/Component.antt =====
-- server/src/executor/data.rs, and `FlowExecution::data` of server/src/executor/flow.rs: what the
-- client is shown.
use authust.Prelude.{String, Bool, true, false, Option, none, some, [], if◌then◌else◌}
use authust.Prelude.Res.{ok, panic, ◌>>=◌}
use mathlib.Core.Option
use authust.Api.Error.{Api}
use authust.Model.Query.{StageQuery}
use authust.Model.Error.{SubmissionError}
use authust.Model.Stage.{
  Stage, StageKind, deny, prompt, identification, user_login, user_logout, user_write, consent,
}
use authust.Model.Data.{
  FlowComponent, access_denied, redirect, FlowInfo, FlowData, PasswordComponentData, Sources,
}
use authust.Executor.State.{FlowExecution, CheckContext, ExecutionError}
use authust.Executor.Entries.{get_entry, lookup_stage}
use authust.Executor.Externals.{Externals}
use authust.Executor.Checks.{check}

abbrev no_recovery : PasswordComponentData
no_recovery = record { recovery_url = "" }

abbrev no_sources : Sources
no_sources = record { sources = []; show_source_labels = false }

-- The lookup of an embedded password stage: only its panic is seen.
abbrev lookup_password : FlowExecution → Option StageQuery → Api (Option Stage)
lookup_password e none = ok none
lookup_password e (some q) = do s ← lookup_stage e q; ok (some s)

-- `Stage::as_component`; `none` for a stage that runs on the server. Two arms are `todo!()`.
unfoldable pub as_component : FlowExecution → StageKind → Api (Option FlowComponent)
as_component e deny = ok (some (access_denied "Access denied"))
as_component e (prompt _) = panic
as_component e (identification password user_fields) = do
  _ ← lookup_password e password
  ok (
      some (
        FlowComponent.identification user_fields no_sources
          (Option.map (λ _. no_recovery) password)))
as_component e user_login = ok none
as_component e user_logout = ok none
as_component e user_write = ok none
as_component e (StageKind.password _) = ok (some (FlowComponent.password no_recovery))
as_component e (consent _) = panic

abbrev shown : Option FlowComponent → FlowComponent
shown (some v) = v
shown none = access_denied "Internal error while constructing component"

-- A recorded error hides the stage.
abbrev pub stage_component : FlowExecution → Option ExecutionError → StageKind → Api FlowComponent
stage_component e (some x) k = ok (FlowComponent.error x.message)
stage_component e none k = do c ← as_component e k; ok (shown c)

-- The component of a completed flow, and whether the flow is taken out of the executor.
abbrev pub completed_component : Option String → FlowComponent × Bool
completed_component (some to) = (redirect to, true)
completed_component none = (FlowComponent.error "Missing Redirect", false)

module _ (ext : Externals) where
  abbrev pub info : FlowExecution → FlowInfo
  info e = record { title = e.flow.title }

  abbrev pub denied : FlowExecution → Option SubmissionError → FlowData
  denied e error = record {
    flow = info e;
    error = error;
    pending_user = none;
    component = access_denied "Flow does not apply to current user";
  }

  abbrev pub present : FlowExecution → Option SubmissionError → FlowComponent → FlowData
  present e error component = record {
    flow = info e;
    error = error;
    pending_user = e.context.pending;
    component = component;
  }

  -- The part after the check, whose message is `refusal`.
  unfoldable pub data_of :
      FlowExecution
      → Option SubmissionError
      → CheckContext
      → StageKind
      → (refusal : Option String) → Api (FlowData × Bool)
  data_of e error ctx k refusal =
      if e.is_completed
      then (let (c, gone) = completed_component ctx.request.query.next in
          ok (present e error c, gone))
      else elim refusal [
        | some _ ↦ ok (denied e error, false)
        | none ↦ (do c ← stage_component e e.context.error k; ok (present e error c, false))
      ]

  -- `FlowExecution::data`: the answer, and whether `invalidate_flow` was called on the key.
  unfoldable pub flow_data :
      FlowExecution → Option SubmissionError → CheckContext → Api (FlowData × Bool)
  unfolding data_of
  flow_data e error ctx = do
    entry ← get_entry e
    stage ← lookup_stage e entry.stage
    refusal ← check ext e ctx
    data_of e error ctx stage.kind refusal
