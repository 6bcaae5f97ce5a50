-- ===== src/Executor/Found.antt =====
-- What it means that an execution is new, and that its lookups find something: the lookups of
-- server/src/executor/flow.rs.
use authust.Prelude.{false, none, some, [], ◌≡◌, ◌≢◌}
use authust.Prelude.Res.{ok}
use authust.Model.Query.{Eq-unique_query, Eq-uid_query}
use authust.Prelude.Eq.{Eq-int}
use authust.Model.Policy.{Policy}
use authust.Model.Stage.{Stage, StageKind, identification}
use authust.Model.Flow.{FlowBinding, FlowBindingKind, FlowEntry}
use authust.Storage.Ready.{All}
use authust.Executor.State.{FlowKey, FlowExecution}
use authust.Executor.Entries.{lookup_stage, lookup_policy}

-- The lookups of an execution that a binding, an entry and a stage give rise to find something.
abbrev pub BindingFound : FlowExecution → FlowBindingKind → Type 0
BindingFound e (FlowBindingKind.policy q) = (p : Policy) × (lookup_policy e q ≡ ok p)
BindingFound e _ = Unit

abbrev pub EmbeddedFound : FlowExecution → StageKind → Type 0
EmbeddedFound e (identification (some q) _) = (s : Stage) × (lookup_stage e q ≡ ok s)
EmbeddedFound e _ = Unit

abbrev pub EntryFound : FlowExecution → FlowEntry → Type 0
EntryFound e entry =
    All (λ (b : FlowBinding). BindingFound e b.kind) entry.bindings
    × ((stage : Stage) × (lookup_stage e entry.stage ≡ ok stage) × EmbeddedFound e stage.kind)

-- A new execution under the key: at its first entry, with nobody pending.
abbrev pub IsFresh : FlowKey → FlowExecution → Type 0
IsFresh key e =
    (e.key ≡ key)
    × (e.flow.entries ≢ [])
    × (e.current_entry_idx ≡ 0)
    × (e.is_completed ≡ false)
    × (e.context.pending ≡ none)

abbrev pub AllFound : FlowExecution → Type 0
AllFound e =
    All (λ (b : FlowBinding). BindingFound e b.kind) e.flow.bindings
    × All (EntryFound e) e.flow.entries
