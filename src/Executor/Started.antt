-- ===== src/Executor/Started.antt =====
-- server/src/executor.rs: an execution that is started finds everything that its flow refers to.
use authust.Prelude.{ℕ, Option, none, some, List, [], ◌∷◌, ◌≡◌, refl, sym}
use authust.Prelude.Res.{Res, ok, err, panic}
use authust.Prelude.State.{continue-ok, same_result, same_state}
use authust.Model.Query.{StageQuery, PolicyQuery, Eq-unique_query, Eq-uid_query}
use authust.Prelude.Eq.{Eq-int}
use authust.Model.User.{OffsetDateTime}
use authust.Model.Policy.{Policy}
use authust.Model.Stage.{
  Stage, StageKind, deny, prompt, identification, user_login, user_logout, user_write, consent,
}
use authust.Model.Flow.{Flow, FlowBinding, FlowBindingKind, FlowEntry}
use authust.Storage.Proxy.{export_data}
use authust.Storage.Faithful.{new-IsFaithful, frozen_optional-exported}
use authust.Storage.Reverse.{
  ProxiedStorage, FrozenData, Sources, Lookup, Diverged, create_proxied, create_freezed, export_or,
  reverse_flow,
}
use authust.Storage.Ready.{AreCoherent, All, AllFaithful, HoldsStage, HoldsPolicy}
use authust.Storage.Recorded.{
  EmbeddedHeld, KindHeld, BindingsHeld, EntryHeld, EntriesHeld, reverse_flow-EntriesHeld,
}
use authust.Executor.State.{new_context, FlowKey, FlowExecution}
use authust.Executor.Entries.{lookup_stage, lookup_policy}
use authust.Executor.Registry.{
  Cache, freeze, execution_of, frozen_of, widen, start, start_flow, start_entries,
}
use authust.Executor.Found.{BindingFound, EmbeddedFound, EntryFound, IsFresh, AllFound}

export_or-ok :
    {X A B : Type 0} (r : Res X A) (f : A → Res X B) {b : B}
    → export_or r f ≡ ok b
    → (a : A) × (r ≡ ok a) × (f a ≡ ok b)
export_or-ok (ok a) f h = (a, refl, h)
export_or-ok (err x) f h = cc
export_or-ok panic f h = cc

create_freezed-ok :
    (m : ProxiedStorage) (d : FrozenData)
    → create_freezed m ≡ ok d
    → ((export_data {E = ⊥} m.stage).0 ≡ ok d.stage)
      × ((export_data {E = ⊥} m.policy).0 ≡ ok d.policy)
unfolding create_freezed
create_freezed-ok m d h =
    let (a, h1, r1) = export_or-ok (export_data {E = ⊥} m.flow).0 _ h in
    let (b, h2, r2) = export_or-ok (export_data {E = ⊥} m.stage).0 _ r1 in
    let (c, h3, r3) = export_or-ok (export_data {E = ⊥} m.policy).0 _ r2 in
    let (x, h4, r4) = export_or-ok (export_data {E = ⊥} m.prompt).0 _ r3 in
    let (y, h5, r5) = export_or-ok (export_data {E = ⊥} m.tenant).0 _ r4 in
    let one : record { flow = a; stage = b; policy = c; prompt = x; tenant = y } ≡ d = cc in
    rw (sym one) (h2, h3)

module _ {E : Type 0} (srcs : Sources E) (dc : Lookup E) (c : AreCoherent srcs) where
  pub create_proxied-AllFaithful : AllFaithful srcs dc c create_proxied
  unfolding create_proxied
  create_proxied-AllFaithful = record {
    flow = new-IsFaithful srcs.flow c.flow;
    stage = new-IsFaithful srcs.stage c.stage;
    policy = new-IsFaithful srcs.policy c.policy;
    prompt = new-IsFaithful srcs.prompt c.prompt;
    tenant = new-IsFaithful srcs.tenant c.tenant;
  }

  module _ (t : ProxiedStorage) (d : FrozenData) (e : FlowExecution) (h : AllFaithful srcs dc c t)
      (is : create_freezed t ≡ ok d) (same : e.context.storage ≡ freeze d) where
    stage_lem :
        (q : StageQuery)
        → HoldsStage srcs dc c t q
        → (s : Stage) × (lookup_stage e q ≡ ok s) × (srcs.stage.find_optional q ≡ ok (some s))
    unfolding lookup_stage freeze
    stage_lem q held =
        let (s, at, found) =
          frozen_optional-exported srcs.stage c.stage t.stage q d.stage h.stage held
            (create_freezed-ok t d is).0 in
        (s, rw (same, at) refl, found)

    policy_lem :
        (q : PolicyQuery) → HoldsPolicy srcs dc c t q → (p : Policy) × (lookup_policy e q ≡ ok p)
    unfolding lookup_policy freeze
    policy_lem q held =
        let (p, at, found) =
          frozen_optional-exported srcs.policy c.policy t.policy q d.policy h.policy held
            (create_freezed-ok t d is).1 in
        (p, rw (same, at) refl)

    binding_lem : (k : FlowBindingKind) → KindHeld srcs dc c t k → BindingFound e k
    binding_lem (FlowBindingKind.policy q) held = policy_lem q held
    binding_lem (FlowBindingKind.user u) held = tt
    binding_lem (FlowBindingKind.group u) held = tt

    bindings_lem :
        (bs : List FlowBinding)
        → BindingsHeld srcs dc c t bs
        → All (λ (b : FlowBinding). BindingFound e b.kind) bs
    bindings_lem [] held = tt
    bindings_lem (b ∷ bs) (first, rest) = (binding_lem b.kind first, bindings_lem bs rest)

    embedded_lem : (k : StageKind) → EmbeddedHeld srcs dc c t k → EmbeddedFound e k
    embedded_lem (identification (some q) fs) held =
        let (s, at, found) = stage_lem q held in (s, at)
    embedded_lem (identification none fs) held = tt
    embedded_lem deny held = tt
    embedded_lem (prompt bs) held = tt
    embedded_lem user_login held = tt
    embedded_lem user_logout held = tt
    embedded_lem user_write held = tt
    embedded_lem (StageKind.password bs) held = tt
    embedded_lem (consent m) held = tt

    entry_lem : (en : FlowEntry) → EntryHeld srcs dc c t en → EntryFound e en
    entry_lem en (policies, held, inner) =
        let (s, at, found) = stage_lem en.stage held in
        (bindings_lem en.bindings policies, (s, at, embedded_lem s.kind (inner s found)))

    entries_lem : (es : List FlowEntry) → EntriesHeld srcs dc c t es → All (EntryFound e) es
    entries_lem [] held = tt
    entries_lem (en ∷ es) (first, rest) = (entry_lem en first, entries_lem es rest)

  widen-ok : {A : Type 0} (r : Res ⊥ A) {a : A} → widen r ≡ ok a → r ≡ ok a
  widen-ok (ok x) h = cc
  widen-ok (err x) h = absurd x
  widen-ok panic h = cc

  frozen_of-ok :
      (r : Res Diverged (Unit {0}) × ProxiedStorage) {d : FrozenData}
      → frozen_of r ≡ ok d
      → (t : ProxiedStorage) × (r ≡ (ok tt, t)) × (create_freezed t ≡ ok d)
  frozen_of-ok (ok x, t) h = (t, refl, widen-ok (create_freezed t) h)
  frozen_of-ok (err x, t) h = cc
  frozen_of-ok (panic, t) h = cc

  module _ {C : Type 0} (cache : Cache C) (fuel : ℕ) (now : OffsetDateTime) where
    entries_found :
        (flow : Flow) (d : FrozenData) (key : FlowKey)
        → frozen_of (reverse_flow srcs dc fuel flow create_proxied) ≡ ok d
        → AllFound (execution_of key now flow d)
    unfolding new_context
    entries_found flow d key h =
        let (t, ran, froze) = frozen_of-ok (reverse_flow srcs dc fuel flow create_proxied) h in
        let (faithful, bindings, entries) =
          reverse_flow-EntriesHeld srcs dc c fuel flow create_proxied t create_proxied-AllFaithful
            ran in
        let e = execution_of key now flow d in
        (
          bindings_lem t d e faithful froze refl flow.bindings bindings,
          entries_lem t d e faithful froze refl flow.entries entries,
        )

    made_lem :
        (key : FlowKey) (flow : Flow) (d : FrozenData) (en : FlowEntry) (es : List FlowEntry)
        (k j k' : C) (e : FlowExecution)
        → flow.entries ≡ en ∷ es
        → frozen_of (reverse_flow srcs dc fuel flow create_proxied) ≡ ok d
        → k ≡ j
        → execution_of key now flow d ≡ e
        → cache.insert key (execution_of key now flow d) j ≡ k'
        → IsFresh key e × (k' ≡ cache.insert key e k) × AllFound e
    unfolding new_context
    made_lem key flow d en es k j k' e is froze s one end =
        rw (sym one, sym end, s)
          ((refl, (λ empty. cc), refl, refl, refl), refl, entries_found flow d key froze)

    start_entries_lem :
        (key : FlowKey) (flow : Flow) (es : List FlowEntry) (k k' : C) (e : FlowExecution)
        → flow.entries ≡ es
        → start_entries cache srcs dc fuel now key flow es k ≡ (ok (some e), k')
        → IsFresh key e × (k' ≡ cache.insert key e k) × AllFound e
    start_entries_lem key flow [] k k' e is h = cc (same_result (ok none) (ok (some e)) k k' h)
    start_entries_lem key flow (en ∷ es) k k' e is h =
        let frozen = frozen_of (reverse_flow srcs dc fuel flow create_proxied) in
        let (d, j, first, rest) = continue-ok (frozen, k) _ h in
        let first' = same_result frozen (ok d) k j first in
        let s : k ≡ j = same_state frozen (ok d) k j first in
        let made = execution_of key now flow d in
        let out : ◌≡◌ {A = Res Diverged (Option FlowExecution)} (ok (some made)) (ok (some e)) =
          same_result (ok (some made)) (ok (some e)) (cache.insert key made j) k' rest in
        let one : made ≡ e = cc in
        let end : cache.insert key made j ≡ k' =
          same_state (ok (some made)) (ok (some e)) (cache.insert key made j) k' rest in
        made_lem key flow d en es k j k' e is first' s one end

    start_flow_lem :
        (key : FlowKey) (o : Option Flow) (k k' : C) (e : FlowExecution)
        → start_flow cache srcs dc fuel now key o k ≡ (ok (some e), k')
        → IsFresh key e × (k' ≡ cache.insert key e k) × AllFound e
    start_flow_lem key none k k' e h = cc (same_result (ok none) (ok (some e)) k k' h)
    start_flow_lem key (some flow) k k' e h = start_entries_lem key flow flow.entries k k' e refl h

    -- If the storages are coherent and `start` gives an execution, then it is a new one under the key,
    -- it is in the cache, and none of its lookups fails: it finds the policy of each binding of its
    -- flow and of each entry, the stage of each entry, and the password stage that such a stage embeds.
    pub start-AllFound :
        (key : FlowKey) (k k' : C) (e : FlowExecution)
        → start cache srcs dc fuel now key k ≡ (ok (some e), k')
        → IsFresh key e × (k' ≡ cache.insert key e k) × AllFound e
    unfolding start
    start-AllFound key k k' e h =
        let looked = widen (dc.answer Flow (srcs.flow.find_optional key.flow)) in
        let (o, j, first, rest) = continue-ok (looked, k) _ h in
        rw (same_state looked (ok o) k j first) (start_flow_lem key o j k' e rest)
