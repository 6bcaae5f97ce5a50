-- ===== src/Storage/Ready.antt =====
-- After `reverse_lookup` everything that the flow refers to is recorded.
use authust.Prelude.{Option, none, some, List, [], ◌∷◌, ◌≡◌, ap, sym, ◌∙◌}
use authust.Prelude.Eq.{Eq-string, Eq-int}
use authust.Prelude.Res.{Res, ok, err, panic}
use authust.Prelude.State.{continue-ok}
use authust.Model.Query.{
  FlowQuery, StageQuery, PolicyQuery, PromptQuery, Eq-unique_query, Eq-uid_query,
}
use authust.Model.Policy.{Policy}
use authust.Model.Prompt.{Prompt, PromptBinding}
use authust.Model.Stage.{Stage}
use authust.Model.Flow.{Flow}
use authust.Storage.Proxy.{find_optional}
use authust.Storage.Faithful.{IsCoherent, IsFaithful, Holds, find_optional-IsFaithful}
use authust.Storage.Reverse.{
  ProxiedStorage, Sources, Lookup, Diverged, expect_found, need_flow, need_stage, need_policy,
  need_prompt, reverse_prompts,
}

pub record AreCoherent {E : Type 0} (srcs : Sources E) : Type 0 where
  pub flow : IsCoherent srcs.flow
  pub stage : IsCoherent srcs.stage
  pub policy : IsCoherent srcs.policy
  pub prompt : IsCoherent srcs.prompt
  pub tenant : IsCoherent srcs.tenant

abbrev pub All {ℓ κ} : {A : Type ℓ} → (A → Type κ) → List A → Type κ
All P [] = Unit
All P (x ∷ xs) = P x × All P xs

expect_found-ok :
    {D : Type 0} (r : Res ⊥ (Option D)) {d : D} → expect_found r ≡ ok d → r ≡ ok (some d)
expect_found-ok (ok (some d)) h = cc
expect_found-ok (ok none) h = cc
expect_found-ok (err x) h = absurd x
expect_found-ok panic h = cc

module _ {E : Type 0} (srcs : Sources E) (dc : Lookup E) (c : AreCoherent srcs) where
  -- Every proxy agrees with the storage behind it.
  pub record AllFaithful (s : ProxiedStorage) : Type 0 where
    pub flow : IsFaithful srcs.flow c.flow s.flow
    pub stage : IsFaithful srcs.stage c.stage s.stage
    pub policy : IsFaithful srcs.policy c.policy s.policy
    pub prompt : IsFaithful srcs.prompt c.prompt s.prompt
    pub tenant : IsFaithful srcs.tenant c.tenant s.tenant

  abbrev pub HoldsStage : ProxiedStorage → StageQuery → Type 0
  HoldsStage s q = Holds srcs.stage c.stage s.stage q

  abbrev pub HoldsPolicy : ProxiedStorage → PolicyQuery → Type 0
  HoldsPolicy s q = Holds srcs.policy c.policy s.policy q

  -- The proxies still agree, and have forgotten no stage and no policy.
  pub record Grows (s t : ProxiedStorage) : Type 0 where
    pub faithful : AllFaithful t
    pub stages : (q : StageQuery) → HoldsStage s q → HoldsStage t q
    pub policies : (q : PolicyQuery) → HoldsPolicy s q → HoldsPolicy t q

  pub Grows-refl : (s : ProxiedStorage) → AllFaithful s → Grows s s
  Grows-refl s h = record { faithful = h; stages = λ q k. k; policies = λ q k. k }

  pub Grows-trans : (s t u : ProxiedStorage) → Grows s t → Grows t u → Grows s u
  Grows-trans s t u g h = record {
    faithful = h.faithful;
    stages = λ q k. h.stages q (g.stages q k);
    policies = λ q k. h.policies q (g.policies q k);
  }

  pub need_flow-Grows :
      (q : FlowQuery) (s t : ProxiedStorage) (d : Flow)
      → AllFaithful s
      → need_flow srcs dc q s ≡ (ok d, t)
      → Grows s t
  unfolding need_flow
  need_flow-Grows q s t d h run =
      let (same, faithful, holds, keeps) =
        find_optional-IsFaithful srcs.flow c.flow q s.flow h.flow in
      let is : t ≡ record s { flow = (find_optional srcs.flow q s.flow).1 } =
        sym (ap (λ (v : Res Diverged Flow × ProxiedStorage). v.1) run) in
      rw is (record {
        faithful = record {
          flow = faithful;
          stage = h.stage;
          policy = h.policy;
          prompt = h.prompt;
          tenant = h.tenant;
        };
        stages = λ q' k. k;
        policies = λ q' k. k;
      })

  pub need_prompt-Grows :
      (q : PromptQuery) (s t : ProxiedStorage) (d : Prompt)
      → AllFaithful s
      → need_prompt srcs dc q s ≡ (ok d, t)
      → Grows s t
  unfolding need_prompt
  need_prompt-Grows q s t d h run =
      let (same, faithful, holds, keeps) =
        find_optional-IsFaithful srcs.prompt c.prompt q s.prompt h.prompt in
      let is : t ≡ record s { prompt = (find_optional srcs.prompt q s.prompt).1 } =
        sym (ap (λ (v : Res Diverged Prompt × ProxiedStorage). v.1) run) in
      rw is (record {
        faithful = record {
          flow = h.flow;
          stage = h.stage;
          policy = h.policy;
          prompt = faithful;
          tenant = h.tenant;
        };
        stages = λ q' k. k;
        policies = λ q' k. k;
      })

  pub need_policy-Grows :
      (q : PolicyQuery) (s t : ProxiedStorage) (d : Policy)
      → AllFaithful s
      → need_policy srcs dc q s ≡ (ok d, t)
      → Grows s t × HoldsPolicy t q
  unfolding need_policy
  need_policy-Grows q s t d h run =
      let (same, faithful, holds, keeps) =
        find_optional-IsFaithful srcs.policy c.policy q s.policy h.policy in
      let is : t ≡ record s { policy = (find_optional srcs.policy q s.policy).1 } =
        sym (ap (λ (v : Res Diverged Policy × ProxiedStorage). v.1) run) in
      let found : srcs.policy.find_optional q ≡ ok (some d) =
        sym same
        ∙ dc.sound Policy _ d
            (expect_found-ok _ (ap (λ (v : Res Diverged Policy × ProxiedStorage). v.0) run)) in
      rw is (
        (
          record {
            faithful = record {
              flow = h.flow;
              stage = h.stage;
              policy = faithful;
              prompt = h.prompt;
              tenant = h.tenant;
            };
            stages = λ q' k. k;
            policies = λ q' k. keeps q' k;
          },
          holds d found,
        ))

  pub need_stage-Grows :
      (q : StageQuery) (s t : ProxiedStorage) (d : Stage)
      → AllFaithful s
      → need_stage srcs dc q s ≡ (ok d, t)
      → Grows s t × HoldsStage t q × (srcs.stage.find_optional q ≡ ok (some d))
  unfolding need_stage
  need_stage-Grows q s t d h run =
      let (same, faithful, holds, keeps) =
        find_optional-IsFaithful srcs.stage c.stage q s.stage h.stage in
      let is : t ≡ record s { stage = (find_optional srcs.stage q s.stage).1 } =
        sym (ap (λ (v : Res Diverged Stage × ProxiedStorage). v.1) run) in
      let found : srcs.stage.find_optional q ≡ ok (some d) =
        sym same
        ∙ dc.sound Stage _ d
            (expect_found-ok _ (ap (λ (v : Res Diverged Stage × ProxiedStorage). v.0) run)) in
      rw is (
        (
          record {
            faithful = record {
              flow = h.flow;
              stage = faithful;
              policy = h.policy;
              prompt = h.prompt;
              tenant = h.tenant;
            };
            stages = λ q' k. keeps q' k;
            policies = λ q' k. k;
          },
          holds d found,
          found,
        ))

  pub reverse_prompts-Grows :
      (bs : List PromptBinding) (s t : ProxiedStorage)
      → AllFaithful s
      → reverse_prompts srcs dc bs s ≡ (ok tt, t)
      → Grows s t
  unfolding reverse_prompts
  reverse_prompts-Grows [] s t h run =
      rw (sym (ap (λ (v : Res Diverged (Unit {0}) × ProxiedStorage). v.1) run)) (Grows-refl s h)
  reverse_prompts-Grows (b ∷ bs) s t h run =
      let (p, u, first, rest) = continue-ok (need_prompt srcs dc b.prompt s) _ run in
      let g = need_prompt-Grows b.prompt s u p h first in
      Grows-trans s u t g (reverse_prompts-Grows bs u t g.faithful rest)
