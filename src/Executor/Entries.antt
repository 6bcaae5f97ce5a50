-- ===== src/Executor/Entries.antt =====
-- server/src/executor/flow.rs: the entry of an execution, its completion, and the storage lookups.
use authust.Prelude.{ℕ, ◌+◌, true, Option, none, some, get_elem?}
use authust.Prelude.Res.{Res, ok, err, panic, expect}
use authust.Api.Error.{Api}
use authust.Model.Query.{StageQuery, PolicyQuery}
use authust.Model.Stage.{Stage}
use authust.Model.Policy.{Policy}
use authust.Model.Flow.{FlowEntry}
use authust.Executor.State.{FlowExecution}

-- `get_entry`, which panics on an index out of bounds.
unfoldable pub get_entry : FlowExecution → Api FlowEntry
get_entry e = expect (get_elem? e.flow.entries e.current_entry_idx)

abbrev advance : FlowExecution → ℕ → Option FlowEntry → FlowExecution
advance e new (some _) = record e { current_entry_idx = new }
advance e new none = record e { is_completed = true }

-- `complete_current`.
unfoldable pub complete_current : FlowExecution → FlowExecution
complete_current e =
    let new = e.current_entry_idx + 1 in advance e new (get_elem? e.flow.entries new)

abbrev found {ℓ} : {A : Type ℓ} → Res ⊥ (Option A) → Api A
found (ok (some a)) = ok a
found (ok none) = panic
found (err x) = absurd x
found panic = panic

-- `lookup_stage` and `lookup_policy`: a missing item panics.
unfoldable pub lookup_stage : FlowExecution → StageQuery → Api Stage
lookup_stage e q = found (e.context.storage.stage q)

unfoldable pub lookup_policy : FlowExecution → PolicyQuery → Api Policy
lookup_policy e q = found (e.context.storage.policy q)
