-- ===== src/Executor/Starts.antt =====
-- server/src/executor.rs: a flow that exists with all that it refers to is started.
use authust.Prelude.{ℕ, some, List, [], ◌∷◌, ◌≡◌, ◌≢◌, refl, ap, ◌∙◌}
use authust.Prelude.Res.{ok}
use authust.Model.Query.{Eq-unique_query, Eq-uid_query}
use authust.Prelude.Eq.{Eq-int}
use authust.Model.User.{OffsetDateTime}
use authust.Model.Flow.{Flow, FlowEntry}
use authust.Storage.Proxy.{export_data}
use authust.Storage.Reverse.{
  ProxiedStorage, FrozenData, Sources, Lookup, create_proxied, create_freezed, reverse_flow,
}
use authust.Storage.Ready.{AreCoherent, AllFaithful}
use authust.Storage.Recorded.{reverse_flow-EntriesHeld}
use authust.Storage.Returns.{FlowExists, reverse_flow-Returns}
use authust.Executor.State.{FlowKey, FlowExecution}
use authust.Executor.Registry.{Cache, execution_of, widen, frozen_of, start, start_entries}
use authust.Executor.Found.{IsFresh, AllFound}
use authust.Executor.Started.{create_proxied-AllFaithful, start-AllFound}

module _ {C E : Type 0} (srcs : Sources E) (dc : Lookup E) (c : AreCoherent srcs) (cache : Cache C)
    (fuel : ℕ) (now : OffsetDateTime) where
  create_freezed-AllFaithful :
      (t : ProxiedStorage) → AllFaithful srcs dc c t → (d : FrozenData) × (create_freezed t ≡ ok d)
  unfolding create_freezed export_data
  create_freezed-AllFaithful t h =
      let (fi, fq, f1, f2, f3) = h.flow in
      let (si, sq, s1, s2, s3) = h.stage in
      let (pi, pq, p1, p2, p3) = h.policy in
      let (ri, rq, r1, r2, r3) = h.prompt in
      let (ti, tq, t1, t2, t3) = h.tenant in
      (
        record {
          flow = record { items = fi; query = fq };
          stage = record { items = si; query = sq };
          policy = record { items = pi; query = pq };
          prompt = record { items = ri; query = rq };
          tenant = record { items = ti; query = tq };
        },
        rw (f1, f2, s1, s2, p1, p2, r1, r2, t1, t2) refl,
      )

  frozen_lem :
      (flow : Flow)
      → FlowExists srcs fuel flow
      → (d : FrozenData) × (frozen_of (reverse_flow srcs dc fuel flow create_proxied) ≡ ok d)
  frozen_lem flow exist =
      let start_h = create_proxied-AllFaithful srcs dc c in
      let (t, ran) = reverse_flow-Returns srcs dc c fuel flow create_proxied start_h exist in
      let (faithful, bindings, entries) =
        reverse_flow-EntriesHeld srcs dc c fuel flow create_proxied t start_h ran in
      let (d, froze) = create_freezed-AllFaithful t faithful in
      (d, ap frozen_of ran ∙ ap widen froze)

  entries_lem :
      (key : FlowKey) (flow : Flow) (es : List FlowEntry) (d : FrozenData) (k : C)
      → es ≢ []
      → frozen_of (reverse_flow srcs dc fuel flow create_proxied) ≡ ok d
      → start_entries cache srcs dc fuel now key flow es k ≡ (
        ok (some (execution_of key now flow d)),
        cache.insert key (execution_of key now flow d) k,
      )
  entries_lem key flow [] d k some_entry froze = absurd (some_entry refl)
  entries_lem key flow (en ∷ es) d k some_entry froze = rw froze refl

  started_lem :
      (key : FlowKey) (flow : Flow) (d : FrozenData) (k : C)
      → srcs.flow.find_optional key.flow ≡ ok (some flow)
      → flow.entries ≢ []
      → frozen_of (reverse_flow srcs dc fuel flow create_proxied) ≡ ok d
      → start cache srcs dc fuel now key k ≡ (
        ok (some (execution_of key now flow d)),
        cache.insert key (execution_of key now flow d) k,
      )
  unfolding start
  started_lem key flow d k found some_entry froze =
      let looked : widen (dc.answer Flow (srcs.flow.find_optional key.flow)) ≡ ok (some flow) =
        ap (λ r. widen (dc.answer Flow r)) found ∙ ap widen (dc.found Flow (some flow)) in
      rw looked (entries_lem key flow flow.entries d k some_entry froze)

  -- If the flow that a key names is found in coherent storages, has an entry, and all that it refers
  -- to exists with stages nested less than `fuel` deep, then `start` gives an execution of the flow: a
  -- new one, which is put into the cache, and none of whose lookups fails.
  pub start-Starts :
      (key : FlowKey) (flow : Flow) (k : C)
      → srcs.flow.find_optional key.flow ≡ ok (some flow)
      → flow.entries ≢ []
      → FlowExists srcs fuel flow
      → (e : FlowExecution) × (start cache srcs dc fuel now key k
          ≡ (ok (some e), cache.insert key e k))
        × (e.flow ≡ flow)
        × IsFresh key e
        × AllFound e
  start-Starts key flow k found some_entry exist =
      let (d, froze) = frozen_lem flow exist in
      let e = execution_of key now flow d in
      let ran = started_lem key flow d k found some_entry froze in
      let (fresh, cached, all) =
        start-AllFound srcs dc c cache fuel now key k (cache.insert key e k) e ran in
      (e, ran, refl, fresh, all)
