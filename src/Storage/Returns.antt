-- ===== src/Storage/Returns.antt =====
-- storage/src/flow.rs and stage.rs: the reverse lookup of a flow comes to an end where everything that
-- the flow refers to exists, with fuel for the nesting of its stages.
use authust.Prelude.{ℕ, zero, suc, Option, none, some, List, [], ◌∷◌, ◌≡◌, refl, ap, ◌∙◌}
use authust.Prelude.Res.{Res, ok}
use authust.Prelude.State.{◌>>=◌}
use authust.Model.Query.{
  UniqueQuery, FlowQuery, StageQuery, PolicyQuery, PromptQuery, Eq-unique_query, Eq-uid_query,
}
use authust.Prelude.Eq.{Eq-int}
use authust.Model.Policy.{Policy}
use authust.Model.Prompt.{Prompt, PromptBinding}
use authust.Model.Stage.{
  Stage, StageKind, deny, prompt, identification, user_login, user_logout, user_write, consent,
}
use authust.Model.Flow.{Flow, FlowBinding, FlowBindingKind, FlowEntry}
use authust.Storage.Proxy.{find_optional}
use authust.Storage.Faithful.{find_optional-IsFaithful}
use authust.Storage.Reverse.{
  ProxiedStorage, Sources, Lookup, Diverged, Run, need_flow, need_stage, need_policy, need_prompt,
  expect_found, reverse_prompts, reverse_kind, reverse_stage, reverse_binding, reverse_bindings,
  reverse_entries, reverse_flow,
}
use authust.Storage.Ready.{
  AreCoherent, All, AllFaithful, need_flow-Grows, need_stage-Grows, need_prompt-Grows,
}
use authust.Storage.Recorded.{reverse_stage-Grows, reverse_binding-Grows, reverse_bindings-Grows}

module _ {E : Type 0} (srcs : Sources E) where
  -- The stage's references exist, and stages are nested less than `depth` deep.
  abbrev pub StageExists : (depth : ℕ) → StageKind → Type 0
  StageExists zero k = ⊥
  StageExists (suc depth) (prompt bindings) =
      All (λ (b : PromptBinding). (p : Prompt) × (srcs.prompt.find_optional b.prompt ≡ ok (some p)))
        bindings
  StageExists (suc depth) (identification (some q) _) =
      (stage : Stage) × (srcs.stage.find_optional q ≡ ok (some stage))
      × StageExists depth stage.kind
  StageExists (suc depth) _ = Unit

  abbrev pub PolicyExists : FlowBindingKind → Type 0
  PolicyExists (FlowBindingKind.policy q) =
      (p : Policy) × (srcs.policy.find_optional q ≡ ok (some p))
  PolicyExists _ = Unit

  abbrev pub PoliciesExist : List FlowBinding → Type 0
  PoliciesExist = All (λ (b : FlowBinding). PolicyExists b.kind)

  abbrev pub EntryExists : ℕ → FlowEntry → Type 0
  EntryExists depth e =
      PoliciesExist e.bindings
      × ((stage : Stage) × (srcs.stage.find_optional e.stage ≡ ok (some stage))
          × StageExists depth stage.kind)

  -- All that the flow refers to exists.
  abbrev pub FlowExists : ℕ → Flow → Type 0
  FlowExists depth flow =
      ((d : Flow) × (srcs.flow.find_optional (UniqueQuery.uid flow.uid) ≡ ok (some d)))
      × PoliciesExist flow.bindings
      × All (EntryExists depth) flow.entries

abbrev Returns : {A : Type 0} → Run A → A → ProxiedStorage → Type 0
Returns m a s = (t : ProxiedStorage) × (m s ≡ (ok a, t))

then-Returns :
    {A B : Type 0} (m : Run A) (f : A → Run B) (a : A) (b : B) (s u : ProxiedStorage)
    → m s ≡ (ok a, u)
    → Returns (f a) b u
    → Returns (m >>= f) b s
then-Returns m f a b s u first (t, rest) = (t, rw first rest)

module _ {E : Type 0} (srcs : Sources E) (dc : Lookup E) (c : AreCoherent srcs) where
  found_lem :
      {D : Type 0} (r r' : Res E (Option D)) (d : D)
      → r ≡ r'
      → r' ≡ ok (some d)
      → expect_found (dc.answer D r) ≡ ok d
  found_lem {D} r r' d same found =
      let is : r ≡ ok (some d) = same ∙ found in
      ap (λ x. expect_found (dc.answer D x)) is ∙ ap expect_found (dc.found D (some d))

  need_stage-Returns :
      (q : StageQuery) (d : Stage) (s : ProxiedStorage)
      → AllFaithful srcs dc c s
      → srcs.stage.find_optional q ≡ ok (some d)
      → Returns (need_stage srcs dc q) d s
  unfolding need_stage
  need_stage-Returns q d s h found =
      let same = (find_optional-IsFaithful srcs.stage c.stage q s.stage h.stage).0 in
      (
        record s { stage = (find_optional srcs.stage q s.stage).1 },
        ap
            (λ (r : Res Diverged Stage).
              (r, record s { stage = (find_optional srcs.stage q s.stage).1 }))
            (found_lem _ _ d same found),
      )

  need_policy-Returns :
      (q : PolicyQuery) (d : Policy) (s : ProxiedStorage)
      → AllFaithful srcs dc c s
      → srcs.policy.find_optional q ≡ ok (some d)
      → Returns (need_policy srcs dc q) d s
  unfolding need_policy
  need_policy-Returns q d s h found =
      let same = (find_optional-IsFaithful srcs.policy c.policy q s.policy h.policy).0 in
      (
        record s { policy = (find_optional srcs.policy q s.policy).1 },
        ap
            (λ (r : Res Diverged Policy).
              (r, record s { policy = (find_optional srcs.policy q s.policy).1 }))
            (found_lem _ _ d same found),
      )

  need_prompt-Returns :
      (q : PromptQuery) (d : Prompt) (s : ProxiedStorage)
      → AllFaithful srcs dc c s
      → srcs.prompt.find_optional q ≡ ok (some d)
      → Returns (need_prompt srcs dc q) d s
  unfolding need_prompt
  need_prompt-Returns q d s h found =
      let same = (find_optional-IsFaithful srcs.prompt c.prompt q s.prompt h.prompt).0 in
      (
        record s { prompt = (find_optional srcs.prompt q s.prompt).1 },
        ap
            (λ (r : Res Diverged Prompt).
              (r, record s { prompt = (find_optional srcs.prompt q s.prompt).1 }))
            (found_lem _ _ d same found),
      )

  need_flow-Returns :
      (q : FlowQuery) (d : Flow) (s : ProxiedStorage)
      → AllFaithful srcs dc c s
      → srcs.flow.find_optional q ≡ ok (some d)
      → Returns (need_flow srcs dc q) d s
  unfolding need_flow
  need_flow-Returns q d s h found =
      let same = (find_optional-IsFaithful srcs.flow c.flow q s.flow h.flow).0 in
      (
        record s { flow = (find_optional srcs.flow q s.flow).1 },
        ap
            (λ (r : Res Diverged Flow).
              (r, record s { flow = (find_optional srcs.flow q s.flow).1 }))
            (found_lem _ _ d same found),
      )

  reverse_prompts-Returns :
      (bs : List PromptBinding) (s : ProxiedStorage)
      → AllFaithful srcs dc c s
      → All
          (λ (b : PromptBinding). (p : Prompt) × (srcs.prompt.find_optional b.prompt ≡ ok (some p)))
          bs
      → Returns (reverse_prompts srcs dc bs) tt s
  unfolding reverse_prompts
  reverse_prompts-Returns [] s h exist = (s, refl)
  reverse_prompts-Returns (b ∷ bs) s h ((p, found), exist) =
      let (u, first) = need_prompt-Returns b.prompt p s h found in
      let g = need_prompt-Grows srcs dc c b.prompt s u p h first in
      then-Returns (need_prompt srcs dc b.prompt) _ p tt s u first
        (reverse_prompts-Returns bs u g.faithful exist)

  abbrev Reverses : (depth : ℕ) → Type 0
  Reverses depth =
      (sub : Stage) (s : ProxiedStorage)
      → AllFaithful srcs dc c s
      → StageExists srcs depth sub.kind
      → Returns (reverse_stage srcs dc depth sub) tt s

  reverse_kind-Returns :
      (depth : ℕ) (k : StageKind) (s : ProxiedStorage)
      → Reverses depth
      → AllFaithful srcs dc c s
      → StageExists srcs (suc depth) k
      → Returns (reverse_kind srcs dc (reverse_stage srcs dc depth) k) tt s
  reverse_kind-Returns depth (prompt bs) s rest h exist = reverse_prompts-Returns bs s h exist
  reverse_kind-Returns depth (identification (some q) fs) s rest h (stage, found, deeper) =
      let (u, first) = need_stage-Returns q stage s h found in
      let (g, held, is) = need_stage-Grows srcs dc c q s u stage h first in
      then-Returns (need_stage srcs dc q) _ stage tt s u first (rest stage u g.faithful deeper)
  reverse_kind-Returns depth (identification none fs) s rest h exist = (s, refl)
  reverse_kind-Returns depth deny s rest h exist = (s, refl)
  reverse_kind-Returns depth user_login s rest h exist = (s, refl)
  reverse_kind-Returns depth user_logout s rest h exist = (s, refl)
  reverse_kind-Returns depth user_write s rest h exist = (s, refl)
  reverse_kind-Returns depth (StageKind.password bs) s rest h exist = (s, refl)
  reverse_kind-Returns depth (consent m) s rest h exist = (s, refl)

  reverse_stage-Returns : (depth : ℕ) → Reverses depth
  unfolding reverse_stage
  reverse_stage-Returns zero sub s h exist = absurd exist
  reverse_stage-Returns (suc depth) sub s h exist =
      reverse_kind-Returns depth sub.kind s (reverse_stage-Returns depth) h exist

  reverse_binding-Returns :
      (k : FlowBindingKind) (s : ProxiedStorage)
      → AllFaithful srcs dc c s
      → PolicyExists srcs k
      → Returns (reverse_binding srcs dc k) tt s
  reverse_binding-Returns (FlowBindingKind.policy q) s h (p, found) =
      let (u, first) = need_policy-Returns q p s h found in
      then-Returns (need_policy srcs dc q) _ p tt s u first (u, refl)
  reverse_binding-Returns (FlowBindingKind.user u) s h exist = (s, refl)
  reverse_binding-Returns (FlowBindingKind.group u) s h exist = (s, refl)

  reverse_bindings-Returns :
      (bs : List FlowBinding) (s : ProxiedStorage)
      → AllFaithful srcs dc c s
      → PoliciesExist srcs bs
      → Returns (reverse_bindings srcs dc bs) tt s
  unfolding reverse_bindings
  reverse_bindings-Returns [] s h exist = (s, refl)
  reverse_bindings-Returns (b ∷ bs) s h (one, exist) =
      let (u, first) = reverse_binding-Returns b.kind s h one in
      let (g, held) = reverse_binding-Grows srcs dc c b.kind s u h first in
      then-Returns (reverse_binding srcs dc b.kind) _ tt tt s u first
        (reverse_bindings-Returns bs u g.faithful exist)

  reverse_entries-Returns :
      (depth : ℕ) (es : List FlowEntry) (s : ProxiedStorage)
      → AllFaithful srcs dc c s
      → All (EntryExists srcs depth) es
      → Returns (reverse_entries srcs dc depth es) tt s
  unfolding reverse_entries
  reverse_entries-Returns depth [] s h exist = (s, refl)
  reverse_entries-Returns depth (e ∷ es) s h ((policies, (stage, found, deeper)), exist) =
      let (u, first) = reverse_bindings-Returns e.bindings s h policies in
      let (g, held) = reverse_bindings-Grows srcs dc c e.bindings s u h first in
      let (v, second) = need_stage-Returns e.stage stage u g.faithful found in
      let (g', held', is) = need_stage-Grows srcs dc c e.stage u v stage g.faithful second in
      let (w, third) = reverse_stage-Returns depth stage v g'.faithful deeper in
      let (g'', inner) = reverse_stage-Grows srcs dc c depth stage v w g'.faithful third in
      then-Returns (reverse_bindings srcs dc e.bindings) _ tt tt s u first (
        then-Returns (need_stage srcs dc e.stage) _ stage tt u v second (
          then-Returns (reverse_stage srcs dc depth stage) _ tt tt v w third
            (reverse_entries-Returns depth es w g''.faithful exist)))

  -- If everything that a flow refers to exists in coherent storages, with stages nested less than
  -- `depth` deep, then the lookups of the flow through proxies that agree with their storages come to
  -- an end with fuel `depth`: they neither panic nor run out of fuel.
  pub reverse_flow-Returns :
      (depth : ℕ) (flow : Flow) (s : ProxiedStorage)
      → AllFaithful srcs dc c s
      → FlowExists srcs depth flow
      → (t : ProxiedStorage) × (reverse_flow srcs dc depth flow s ≡ (ok tt, t))
  unfolding reverse_flow
  reverse_flow-Returns depth flow s h ((d, found), policies, entries) =
      let (u, first) = need_flow-Returns (UniqueQuery.uid flow.uid) d s h found in
      let g = need_flow-Grows srcs dc c (UniqueQuery.uid flow.uid) s u d h first in
      let (v, second) = reverse_bindings-Returns flow.bindings u g.faithful policies in
      let (g', held) = reverse_bindings-Grows srcs dc c flow.bindings u v g.faithful second in
      then-Returns (need_flow srcs dc (UniqueQuery.uid flow.uid)) _ d tt s u first (
        then-Returns (reverse_bindings srcs dc flow.bindings) _ tt tt u v second
          (reverse_entries-Returns depth flow.entries v g'.faithful entries))
