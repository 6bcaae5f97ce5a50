-- ===== src/Storage/Reverse.antt =====
-- storage/src/lib.rs, flow.rs and stage.rs: everything that a flow refers to is looked up through
-- the proxies, which are then frozen.
use authust.Prelude.{ℕ, zero, suc, Option, none, some, List, [], ◌∷◌, ◌≡◌}
use authust.Prelude.Eq.{Eq-string, Eq-int}
use authust.Prelude.Res.{Res, ok, err, panic}
use authust.Prelude.State.{Step, ◌>>=◌, pure}
use authust.Model.Query.{
  I32, UniqueQuery, FlowQuery, StageQuery, PolicyQuery, PromptQuery, TenantQuery, Eq-unique_query,
  Eq-uid_query,
}
use authust.Model.Policy.{Policy}
use authust.Model.Prompt.{Prompt, PromptBinding}
use authust.Model.Stage.{Stage, StageKind, prompt, identification}
use authust.Model.Flow.{Flow, FlowBinding, FlowBindingKind, FlowEntry}
use authust.Model.Tenant.{Tenant}
use authust.Storage.Proxy.{ProxyStorage, ExportedData, Source, new, find_optional, export_data}

-- `ProxiedStorage`: a proxy for each type.
pub record ProxiedStorage : Type 0 where
  pub flow : ProxyStorage FlowQuery I32 Flow
  pub stage : ProxyStorage StageQuery I32 Stage
  pub policy : ProxyStorage PolicyQuery I32 Policy
  pub prompt : ProxyStorage PromptQuery I32 Prompt
  pub tenant : ProxyStorage TenantQuery I32 Tenant

-- `FreezedStorage`.
pub record FrozenData : Type 0 where
  pub flow : ExportedData FlowQuery I32 Flow
  pub stage : ExportedData StageQuery I32 Stage
  pub policy : ExportedData PolicyQuery I32 Policy
  pub prompt : ExportedData PromptQuery I32 Prompt
  pub tenant : ExportedData TenantQuery I32 Tenant

-- The storages of the manager, which the proxies read.
pub record Sources (E : Type 0) : Type 0 where
  pub flow : Source FlowQuery I32 Flow E
  pub stage : Source StageQuery I32 Stage E
  pub policy : Source PolicyQuery I32 Policy E
  pub prompt : Source PromptQuery I32 Prompt E
  pub tenant : Source TenantQuery I32 Tenant E

-- What `datacache::storage_lookup!` makes of an answer of `find_optional`: a found value is passed
-- on, and nothing else becomes a found value (errors go to `handle_error`).
pub record Lookup (E : Type 0) : Type 1 where
  pub answer : (D : Type 0) → Res E (Option D) → Res ⊥ (Option D)
  pub found : (D : Type 0) (o : Option D) → answer D (ok o) ≡ ok o
  pub sound :
      (D : Type 0) (r : Res E (Option D)) (d : D) → answer D r ≡ ok (some d) → r ≡ ok (some d)

-- `create_proxied`.
unfoldable pub create_proxied : ProxiedStorage
unfolding new
create_proxied = record { flow = new; stage = new; policy = new; prompt = new; tenant = new }

-- The recursion through embedded password stages was cut off.
pub data Diverged : Type 0 where
  diverged : Diverged

abbrev pub Run : Type 0 → Type 0
Run A = Step Diverged ProxiedStorage A

-- `expect` on the answer of a lookup.
abbrev pub expect_found : {D : Type 0} → Res ⊥ (Option D) → Res Diverged D
expect_found (ok (some d)) = ok d
expect_found (ok none) = panic
expect_found (err x) = absurd x
expect_found panic = panic

module _ {E : Type 0} (srcs : Sources E) (dc : Lookup E) where
  open dc use {answer}

  unfoldable pub need_flow : FlowQuery → Run Flow
  need_flow q s =
      let (r, p) = find_optional srcs.flow q s.flow in
      (expect_found (answer Flow r), record s { flow = p })

  unfoldable pub need_stage : StageQuery → Run Stage
  need_stage q s =
      let (r, p) = find_optional srcs.stage q s.stage in
      (expect_found (answer Stage r), record s { stage = p })

  unfoldable pub need_policy : PolicyQuery → Run Policy
  need_policy q s =
      let (r, p) = find_optional srcs.policy q s.policy in
      (expect_found (answer Policy r), record s { policy = p })

  unfoldable pub need_prompt : PromptQuery → Run Prompt
  need_prompt q s =
      let (r, p) = find_optional srcs.prompt q s.prompt in
      (expect_found (answer Prompt r), record s { prompt = p })

  unfoldable pub reverse_prompts : List PromptBinding → Run (Unit {0})
  reverse_prompts [] = pure tt
  reverse_prompts (b ∷ bs) = do _ ← need_prompt b.prompt; reverse_prompts bs

  -- `ReverseLookup<Stage>`, with fuel for the embedded stages.
  abbrev pub reverse_kind : (Stage → Run (Unit {0})) → StageKind → Run (Unit {0})
  reverse_kind rest (prompt bindings) = reverse_prompts bindings
  reverse_kind rest (identification (some password) _) = do stage ← need_stage password; rest stage
  reverse_kind rest _ = pure tt

  unfoldable pub reverse_stage : ℕ → Stage → Run (Unit {0})
  reverse_stage zero sub s = (err diverged, s)
  reverse_stage (suc fuel) sub s = reverse_kind (reverse_stage fuel) sub.kind s

  abbrev pub reverse_binding : FlowBindingKind → Run (Unit {0})
  reverse_binding (FlowBindingKind.policy q) = do _ ← need_policy q; pure tt
  reverse_binding _ = pure tt

  unfoldable pub reverse_bindings : List FlowBinding → Run (Unit {0})
  reverse_bindings [] = pure tt
  reverse_bindings (b ∷ bs) = do _ ← reverse_binding b.kind; reverse_bindings bs

  unfoldable pub reverse_entries : ℕ → List FlowEntry → Run (Unit {0})
  reverse_entries fuel [] = pure tt
  reverse_entries fuel (e ∷ es) = do
    _ ← reverse_bindings e.bindings
    stage ← need_stage e.stage
    _ ← reverse_stage fuel stage
    reverse_entries fuel es

  -- `ReverseLookup<Flow>`.
  unfoldable pub reverse_flow : ℕ → Flow → Run (Unit {0})
  reverse_flow fuel sub = do
    _ ← need_flow (UniqueQuery.uid sub.uid)
    _ ← reverse_bindings sub.bindings
    reverse_entries fuel sub.entries

-- `create_freezed`: each proxy is exported.
abbrev pub export_or : {E A B : Type 0} → Res E A → (A → Res E B) → Res E B
export_or (ok a) f = f a
export_or (err x) f = err x
export_or panic f = panic

unfoldable pub create_freezed : ProxiedStorage → Res ⊥ FrozenData
create_freezed m = export_or (export_data m.flow).0 λ flow.
    export_or (export_data m.stage).0 λ stage. export_or (export_data m.policy).0 λ policy.
      export_or (export_data m.prompt).0 λ prompt. export_or (export_data m.tenant).0 λ tenant.
        ok
          (record { flow = flow; stage = stage; policy = policy; prompt = prompt; tenant = tenant })
