-- ===== src/Executor/Registry.antt =====
-- server/src/executor.rs: the executor's cache of executions, and how one is started. The cache is
-- moka's, whose entries may be evicted at any time: its operations are arguments.
use authust.Prelude.{ℕ, Bool, false, Option, none, some, List, [], ◌∷◌, if◌then◌else◌}
use authust.Prelude.Res.{Res, ok, err, panic}
use authust.Prelude.State.{Step, ◌>>=◌, lift, pure}
use authust.Model.Query.{UniqueQuery, FlowQuery, Eq-unique_query}
use authust.Prelude.Eq.{Eq-int}
use authust.Model.User.{OffsetDateTime}
use authust.Model.Flow.{Flow, FlowEntry}
use authust.Storage.Proxy.{frozen_optional}
use authust.Storage.Reverse.{
  ProxiedStorage, FrozenData, Sources, Lookup, Diverged, create_proxied, create_freezed,
  reverse_flow,
}
use authust.Api.Session.{Session}
use authust.Executor.State.{FreezedStorage, new_context, FlowKey, FlowExecution}

-- moka::sync::Cache.
pub record Cache (C : Type 0) : Type 0 where
  pub get : FlowKey → C → Option FlowExecution
  pub insert : FlowKey → FlowExecution → C → C
  pub invalidate : FlowKey → C → C

-- `FlowExecutor::get_key` with `FlowKey::new`: only a flow that is named by its slug has a key.
unfoldable pub get_key : Session → FlowQuery → Option FlowKey
get_key session (UniqueQuery.slug s) =
    some (record { session = session.session_id; flow = UniqueQuery.slug s })
get_key session (UniqueQuery.uid _) = none

-- The lookups of the frozen data: they report no errors.
unfoldable pub freeze : FrozenData → FreezedStorage
freeze d = record { stage = frozen_optional d.stage; policy = frozen_optional d.policy }

abbrev pub execution_of : FlowKey → OffsetDateTime → Flow → FrozenData → FlowExecution
execution_of key now flow d = record {
  flow = flow;
  key = key;
  context = new_context now key.session (freeze d);
  current_entry_idx = 0;
  is_completed = false;
}

abbrev pub widen : {A : Type 0} → Res ⊥ A → Res Diverged A
widen (ok a) = ok a
widen (err x) = absurd x
widen panic = panic

-- The data that is frozen after the lookups of a flow.
abbrev pub frozen_of : Res Diverged (Unit {0}) × ProxiedStorage → Res Diverged FrozenData
frozen_of (ok _, t) = widen (create_freezed t)
frozen_of (err x, t) = err x
frozen_of (panic, t) = panic

module _ {C E : Type 0} (cache : Cache C) (srcs : Sources E) (dc : Lookup E) (fuel : ℕ)
    (now : OffsetDateTime) where
  abbrev pub store : FlowKey → FlowExecution → Step Diverged C (Option FlowExecution)
  store key e c = (ok (some e), cache.insert key e c)

  abbrev pub start_entries :
      FlowKey → Flow → List FlowEntry → Step Diverged C (Option FlowExecution)
  start_entries key flow [] = pure none
  start_entries key flow (_ ∷ _) = do
    d ← lift (frozen_of (reverse_flow srcs dc fuel flow create_proxied))
    store key (execution_of key now flow d)

  abbrev pub start_flow : FlowKey → Option Flow → Step Diverged C (Option FlowExecution)
  start_flow key none = pure none
  start_flow key (some flow) = start_entries key flow flow.entries

  -- `FlowExecutor::start`: an unknown flow and a flow without entries have no execution.
  unfoldable pub start : FlowKey → Step Diverged C (Option FlowExecution)
  start key = do
    flow ← lift (widen (dc.answer Flow (srcs.flow.find_optional key.flow)))
    start_flow key flow

  abbrev pub cached : FlowKey → Bool → Option FlowExecution → Step Diverged C (Option FlowExecution)
  cached key start_it (some e) = pure (some e)
  cached key start_it none = if start_it then start key else pure none

  -- `FlowExecutor::get_execution`.
  unfoldable pub get_execution :
      FlowKey → (start_it : Bool) → Step Diverged C (Option FlowExecution)
  unfolding start
  get_execution key start_it c = cached key start_it (cache.get key c) c

  -- `FlowExecutor::invalidate_flow`.
  unfoldable pub invalidate_flow : FlowKey → Step Diverged C (Unit {0})
  invalidate_flow key c = (ok tt, cache.invalidate key c)
