-- ===== src/Storage/Recorded.antt =====
-- storage/src/flow.rs and stage.rs: after `reverse_lookup` of a flow, everything that it refers to is
-- recorded, to the embedded password stages.
use authust.Prelude.{ℕ, zero, suc, none, some, List, [], ◌∷◌, ◌≡◌, ap, sym}
use authust.Prelude.Res.{Res, ok}
use authust.Prelude.State.{continue-ok}
use authust.Model.Query.{UniqueQuery, Eq-unique_query, Eq-uid_query}
use authust.Model.Stage.{
  Stage, StageKind, deny, prompt, identification, user_login, user_logout, user_write, consent,
}
use authust.Model.Flow.{Flow, FlowBinding, FlowBindingKind, FlowEntry}
use authust.Storage.Reverse.{
  ProxiedStorage, Sources, Lookup, Diverged, Run, need_flow, need_stage, need_policy, reverse_kind,
  reverse_stage, reverse_binding, reverse_bindings, reverse_entries, reverse_flow,
}
use authust.Storage.Ready.{
  AreCoherent, All, AllFaithful, HoldsStage, HoldsPolicy, Grows, Grows-refl, Grows-trans,
  need_flow-Grows, need_policy-Grows, need_stage-Grows, reverse_prompts-Grows,
}

module _ {E : Type 0} (srcs : Sources E) (dc : Lookup E) (c : AreCoherent srcs) where
  abbrev pub G : ProxiedStorage → ProxiedStorage → Type 0
  G = Grows srcs dc c

  -- The password stage that a stage embeds is recorded.
  abbrev pub EmbeddedHeld : ProxiedStorage → StageKind → Type 0
  EmbeddedHeld t (identification (some q) _) = HoldsStage srcs dc c t q
  EmbeddedHeld t _ = Unit

  abbrev pub KindHeld : ProxiedStorage → FlowBindingKind → Type 0
  KindHeld t (FlowBindingKind.policy q) = HoldsPolicy srcs dc c t q
  KindHeld t _ = Unit

  abbrev pub BindingsHeld : ProxiedStorage → List FlowBinding → Type 0
  BindingsHeld t = All (λ b. KindHeld t b.kind)

  -- The policies of the entry's bindings, its stage, and the password stage embedded in that.
  abbrev pub EntryHeld : ProxiedStorage → FlowEntry → Type 0
  EntryHeld t e =
      BindingsHeld t e.bindings
      × HoldsStage srcs dc c t e.stage
      × ((stage : Stage)
          → srcs.stage.find_optional e.stage ≡ ok (some stage)
          → EmbeddedHeld t stage.kind)

  abbrev pub EntriesHeld : ProxiedStorage → List FlowEntry → Type 0
  EntriesHeld t = All (EntryHeld t)

  EmbeddedHeld-grows :
      (k : StageKind) (s t : ProxiedStorage) → G s t → EmbeddedHeld s k → EmbeddedHeld t k
  EmbeddedHeld-grows (identification (some q) fs) s t g h = g.stages q h
  EmbeddedHeld-grows (identification none fs) s t g h = tt
  EmbeddedHeld-grows deny s t g h = tt
  EmbeddedHeld-grows (prompt bs) s t g h = tt
  EmbeddedHeld-grows user_login s t g h = tt
  EmbeddedHeld-grows user_logout s t g h = tt
  EmbeddedHeld-grows user_write s t g h = tt
  EmbeddedHeld-grows (StageKind.password bs) s t g h = tt
  EmbeddedHeld-grows (consent m) s t g h = tt

  KindHeld-grows :
      (k : FlowBindingKind) (s t : ProxiedStorage) → G s t → KindHeld s k → KindHeld t k
  KindHeld-grows (FlowBindingKind.policy q) s t g h = g.policies q h
  KindHeld-grows (FlowBindingKind.user u) s t g h = tt
  KindHeld-grows (FlowBindingKind.group u) s t g h = tt

  BindingsHeld-grows :
      (bs : List FlowBinding) (s t : ProxiedStorage) → G s t → BindingsHeld s bs → BindingsHeld t bs
  BindingsHeld-grows [] s t g h = tt
  BindingsHeld-grows (b ∷ bs) s t g (first, rest) =
      (KindHeld-grows b.kind s t g first, BindingsHeld-grows bs s t g rest)

  same_end :
      (s t : ProxiedStorage)
      → ◌≡◌ {A = Res Diverged (Unit {0}) × ProxiedStorage} (ok tt, s) (ok tt, t)
      → AllFaithful srcs dc c s
      → G s t
  same_end s t run h =
      rw (sym (ap (λ (v : Res Diverged (Unit {0}) × ProxiedStorage). v.1) run))
        (Grows-refl srcs dc c s h)

  abbrev pub Recording :
      StageKind → (ProxiedStorage → Res Diverged (Unit {0}) × ProxiedStorage) → Type 0
  Recording k m =
      (s t : ProxiedStorage) → AllFaithful srcs dc c s → m s ≡ (ok tt, t) → G s t × EmbeddedHeld t k

  reverse_kind-Grows :
      (rest : Stage → Run (Unit {0})) (k : StageKind)
      → ((stage : Stage) → Recording stage.kind (rest stage))
      → Recording k (reverse_kind srcs dc rest k)
  reverse_kind-Grows rest (identification (some q) fs) ih s t h run =
      let (stage, u, first, last) = continue-ok (need_stage srcs dc q s) _ run in
      let (g, held, found) = need_stage-Grows srcs dc c q s u stage h first in
      let (g', inner) = ih stage u t g.faithful last in
      (Grows-trans srcs dc c s u t g g', g'.stages q held)
  reverse_kind-Grows rest (prompt bs) ih s t h run =
      (reverse_prompts-Grows srcs dc c bs s t h run, tt)
  reverse_kind-Grows rest (identification none fs) ih s t h run = (same_end s t run h, tt)
  reverse_kind-Grows rest deny ih s t h run = (same_end s t run h, tt)
  reverse_kind-Grows rest user_login ih s t h run = (same_end s t run h, tt)
  reverse_kind-Grows rest user_logout ih s t h run = (same_end s t run h, tt)
  reverse_kind-Grows rest user_write ih s t h run = (same_end s t run h, tt)
  reverse_kind-Grows rest (StageKind.password bs) ih s t h run = (same_end s t run h, tt)
  reverse_kind-Grows rest (consent m) ih s t h run = (same_end s t run h, tt)

  pub reverse_stage-Grows :
      (fuel : ℕ) (sub : Stage) → Recording sub.kind (reverse_stage srcs dc fuel sub)
  unfolding reverse_stage
  reverse_stage-Grows zero sub s t h run =
      cc (ap (λ (v : Res Diverged (Unit {0}) × ProxiedStorage). v.0) run)
  reverse_stage-Grows (suc fuel) sub s t h run =
      reverse_kind-Grows (reverse_stage srcs dc fuel) sub.kind
        (λ stage. reverse_stage-Grows fuel stage) s t h run

  pub reverse_binding-Grows :
      (k : FlowBindingKind) (s t : ProxiedStorage)
      → AllFaithful srcs dc c s
      → reverse_binding srcs dc k s ≡ (ok tt, t)
      → G s t × KindHeld t k
  reverse_binding-Grows (FlowBindingKind.policy q) s t h run =
      let (p, u, first, rest) = continue-ok (need_policy srcs dc q s) _ run in
      let (g, held) = need_policy-Grows srcs dc c q s u p h first in
      let same : u ≡ t = ap (λ (v : Res Diverged (Unit {0}) × ProxiedStorage). v.1) rest in
      rw (sym same) (g, held)
  reverse_binding-Grows (FlowBindingKind.user u) s t h run = (same_end s t run h, tt)
  reverse_binding-Grows (FlowBindingKind.group u) s t h run = (same_end s t run h, tt)

  pub reverse_bindings-Grows :
      (bs : List FlowBinding) (s t : ProxiedStorage)
      → AllFaithful srcs dc c s
      → reverse_bindings srcs dc bs s ≡ (ok tt, t)
      → G s t × BindingsHeld t bs
  unfolding reverse_bindings
  reverse_bindings-Grows [] s t h run = (same_end s t run h, tt)
  reverse_bindings-Grows (b ∷ bs) s t h run =
      let (x, u, first, rest) = continue-ok (reverse_binding srcs dc b.kind s) _ run in
      let (g, held) = reverse_binding-Grows b.kind s u h first in
      let (g', helds) = reverse_bindings-Grows bs u t g.faithful rest in
      (Grows-trans srcs dc c s u t g g', (KindHeld-grows b.kind u t g' held, helds))

  reverse_entries-Grows :
      (fuel : ℕ) (es : List FlowEntry) (s t : ProxiedStorage)
      → AllFaithful srcs dc c s
      → reverse_entries srcs dc fuel es s ≡ (ok tt, t)
      → G s t × EntriesHeld t es
  unfolding reverse_entries
  reverse_entries-Grows fuel [] s t h run = (same_end s t run h, tt)
  reverse_entries-Grows fuel (e ∷ es) s t h run =
      let (x, u, first, rest) = continue-ok (reverse_bindings srcs dc e.bindings s) _ run in
      let (g, held) = reverse_bindings-Grows e.bindings s u h first in
      let (stage, v, second, rest') = continue-ok (need_stage srcs dc e.stage u) _ rest in
      let (g', held', found) = need_stage-Grows srcs dc c e.stage u v stage g.faithful second in
      let (y, w, third, rest'') = continue-ok (reverse_stage srcs dc fuel stage v) _ rest' in
      let (g'', inner) = reverse_stage-Grows fuel stage v w g'.faithful third in
      let (g3, helds) = reverse_entries-Grows fuel es w t g''.faithful rest'' in
      let g4 = Grows-trans srcs dc c v w t g'' g3 in
      let g5 = Grows-trans srcs dc c u v t g' g4 in
      (
        Grows-trans srcs dc c s u t g g5,
        (
          (
            BindingsHeld-grows e.bindings u t g5 held,
            g4.stages e.stage held',
            λ stage' found'.
                let same : stage' ≡ stage = cc in
                rw same (EmbeddedHeld-grows stage.kind w t g3 inner),
          ),
          helds,
        ),
      )

  -- If the storages are coherent and the lookups of a flow end without a panic, from proxies that
  -- agree with their storages, then the proxies still agree, and they have recorded the policy of
  -- every binding of the flow and of its entries, the stage of every entry, and the password stage
  -- that such a stage embeds.
  pub reverse_flow-EntriesHeld :
      (fuel : ℕ) (flow : Flow) (s t : ProxiedStorage)
      → AllFaithful srcs dc c s
      → reverse_flow srcs dc fuel flow s ≡ (ok tt, t)
      → AllFaithful srcs dc c t × BindingsHeld t flow.bindings × EntriesHeld t flow.entries
  unfolding reverse_flow
  reverse_flow-EntriesHeld fuel flow s t h run =
      let (x, u, first, rest) =
        continue-ok (need_flow srcs dc (UniqueQuery.uid flow.uid) s) _ run in
      let g = need_flow-Grows srcs dc c (UniqueQuery.uid flow.uid) s u x h first in
      let (y, v, second, rest') = continue-ok (reverse_bindings srcs dc flow.bindings u) _ rest in
      let (g', held) = reverse_bindings-Grows flow.bindings u v g.faithful second in
      let (g'', helds) = reverse_entries-Grows fuel flow.entries v t g'.faithful rest' in
      (g''.faithful, BindingsHeld-grows flow.bindings v t g'' held, helds)
