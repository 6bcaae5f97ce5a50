-- ===== src/Storage/Loaders/Manager.antt =====
-- storage/src/lib.rs: `create_manager`, the storages of datacache over the executors.
use authust.Prelude.{Option, some, List, [], ◌∷◌, ◌≡◌, refl, sym, ap, ◌∙◌}
use mathlib.Core.List.{Memᴰ}
use authust.Prelude.Res.{Res, ok, err, panic, ◌>>=◌}
use authust.Model.Query.{
  UniqueQuery, UidQuery, FlowQuery, StageQuery, PolicyQuery, PromptQuery, TenantQuery,
}
use authust.Model.Policy.{Policy}
use authust.Model.Prompt.{Prompt}
use authust.Model.Stage.{Stage}
use authust.Model.Flow.{Flow}
use authust.Model.Tenant.{Tenant}
use authust.Storage.Faithful.{IsCoherent}
use authust.Storage.Reverse.{Sources}
use authust.Storage.Ready.{AreCoherent}
use authust.Storage.Sql.{Postgres, Param, StorageError, R, from_pool, prepared, prompt_by_id}
use authust.Storage.Loaders.Datacache.{Datacache, IsDatacache, storage-IsCoherent}
use authust.Storage.Loaders.Table.{storage, IsTable, IsIdTable, optional_row-some, table-IsCoherent}
use authust.Storage.Loaders.Prompts
use authust.Storage.Loaders.Prompts.{prompt_executor}
use authust.Storage.Loaders.Tenants
use authust.Storage.Loaders.Tenants.{tenant_executor}
use authust.Storage.Loaders.Policies
use authust.Storage.Loaders.Policies.{policy_executor}
use authust.Storage.Loaders.Stages
use authust.Storage.Loaders.Stages.{stage_executor}
use authust.Storage.Loaders.Flows
use authust.Storage.Loaders.Flows.{flow_executor}
use authust.Storage.Loaders.Keys.{
  flow-HasKeys, stage-HasKeys, policy-HasKeys, prompt-HasKeys, tenant-HasKeys,
}

abbrev pub flow_queries : Flow → List FlowQuery
flow_queries d = UniqueQuery.uid d.uid ∷ UniqueQuery.slug d.slug ∷ []

abbrev pub stage_queries : Stage → List StageQuery
stage_queries d = UniqueQuery.uid d.uid ∷ UniqueQuery.slug d.slug ∷ []

abbrev pub policy_queries : Policy → List PolicyQuery
policy_queries d = UniqueQuery.uid d.uid ∷ UniqueQuery.slug d.slug ∷ []

abbrev pub prompt_queries : Prompt → List PromptQuery
prompt_queries d = UidQuery.uid d.uid ∷ []

abbrev pub tenant_queries : Tenant → List TenantQuery
tenant_queries d = UniqueQuery.uid d.uid ∷ UniqueQuery.slug d.host ∷ []

module _ {Row P G : Type 0} (pg : Postgres Row P G) where
  unfoldable pub create_manager : Datacache → Sources (StorageError P G)
  create_manager dc = record {
    flow = dc.storage (flow_executor pg) flow_queries;
    stage = dc.storage (stage_executor pg) stage_queries;
    policy = dc.storage (policy_executor pg) policy_queries;
    prompt = dc.storage (prompt_executor pg) prompt_queries;
    tenant = dc.storage (tenant_executor pg) tenant_queries;
  }

  -- A connection, and then a statement over it.
  abbrev pub connected : {A : Type 0} → R pg A → R pg A
  connected look = from_pool pg.get_conn >>= λ _. look

  abbrev pub look_prompt : PromptQuery → R pg (Option Row)
  look_prompt (UidQuery.uid uid) =
      connected (prepared pg pg.query_opt prompt_by_id (Param.int uid ∷ []))

  -- The tables are asked by unique columns, and nobody changes them meanwhile.
  pub record IsDatabase : Type 0 where
    pub flows :
        IsTable
          (λ q. connected (Flows.ask pg pg.query_opt q))
          (pg.get_i32 "uid")
          (pg.get_text "slug")
    pub stages :
        IsTable
          (λ q. connected (Stages.ask pg pg.query_opt q))
          (pg.get_i32 "uid")
          (pg.get_text "slug")
    pub policies :
        IsTable
          (λ q. connected (Policies.ask pg pg.query_opt q))
          (pg.get_i32 "uid")
          (pg.get_text "slug")
    pub prompts : IsIdTable look_prompt (pg.get_i32 "uid")
    pub tenants :
        IsTable
          (λ q. connected (Tenants.ask pg pg.query_opt q))
          (pg.get_i32 "uid")
          (pg.get_text "host")

bind_assoc :
    {E A B C : Type 0} (m : Res E A) (f : A → Res E B) (g : B → Res E C)
    → (m >>= λ a. f a >>= g) ≡ ((m >>= f) >>= g)
bind_assoc (ok a) f g = refl
bind_assoc (err e) f g = refl
bind_assoc panic f g = refl

single : {A : Type 0} (x y : A) → Memᴰ x (y ∷ []) → x ≡ y
single x y (Memᴰ.head e) = e
single x y (Memᴰ.tail m) = elim m [ ]

module _ {Row P G : Type 0} (pg : Postgres Row P G) (dc : Datacache) (laws : IsDatacache dc)
    (db : IsDatabase pg) where
  flows-IsCoherent : IsCoherent (dc.storage (flow_executor pg) flow_queries)
  unfolding Flows.find_optional Flows.get_id
  flows-IsCoherent =
      storage-IsCoherent dc laws (flow_executor pg) flow_queries
        (dc.storage (flow_executor pg) flow_queries).find_all
        (table-IsCoherent (λ q. connected pg (Flows.ask pg pg.query_opt q)) (Flows.from_row pg)
          (pg.get_i32 "uid") (pg.get_text "slug") (λ d. d.uid) (λ d. d.slug) (flow-HasKeys pg)
          db.flows (flow_executor pg) (dc.storage (flow_executor pg) flow_queries).find_all
          (λ q. bind_assoc (from_pool pg.get_conn) _ _) (λ d. refl))

  stages-IsCoherent : IsCoherent (dc.storage (stage_executor pg) stage_queries)
  unfolding Stages.find_optional Stages.get_id
  stages-IsCoherent =
      storage-IsCoherent dc laws (stage_executor pg) stage_queries
        (dc.storage (stage_executor pg) stage_queries).find_all
        (table-IsCoherent (λ q. connected pg (Stages.ask pg pg.query_opt q)) (Stages.from_row pg)
          (pg.get_i32 "uid") (pg.get_text "slug") (λ d. d.uid) (λ d. d.slug) (stage-HasKeys pg)
          db.stages (stage_executor pg) (dc.storage (stage_executor pg) stage_queries).find_all
          (λ q. bind_assoc (from_pool pg.get_conn) _ _) (λ d. refl))

  policies-IsCoherent : IsCoherent (dc.storage (policy_executor pg) policy_queries)
  unfolding Policies.find_optional Policies.get_id
  policies-IsCoherent =
      storage-IsCoherent dc laws (policy_executor pg) policy_queries
        (dc.storage (policy_executor pg) policy_queries).find_all
        (table-IsCoherent (λ q. connected pg (Policies.ask pg pg.query_opt q))
          (Policies.from_row pg) (pg.get_i32 "uid") (pg.get_text "slug") (λ d. d.uid) (λ d. d.slug)
          (policy-HasKeys pg) db.policies (policy_executor pg)
          (dc.storage (policy_executor pg) policy_queries).find_all
          (λ q. bind_assoc (from_pool pg.get_conn) _ _) (λ d. refl))

  tenants-IsCoherent : IsCoherent (dc.storage (tenant_executor pg) tenant_queries)
  unfolding Tenants.find_optional Tenants.get_id
  tenants-IsCoherent =
      storage-IsCoherent dc laws (tenant_executor pg) tenant_queries
        (dc.storage (tenant_executor pg) tenant_queries).find_all
        (table-IsCoherent (λ q. connected pg (Tenants.ask pg pg.query_opt q)) (Tenants.from_row pg)
          (pg.get_i32 "uid") (pg.get_text "host") (λ d. d.uid) (λ d. d.host) (tenant-HasKeys pg)
          db.tenants (tenant_executor pg) (dc.storage (tenant_executor pg) tenant_queries).find_all
          (λ q. bind_assoc (from_pool pg.get_conn) _ _) (λ d. refl))

  prompt_found :
      (q : PromptQuery) (d : Prompt)
      → Prompts.find_optional pg q ≡ ok (some d)
      → q ≡ UidQuery.uid d.uid
  unfolding Prompts.find_optional
  prompt_found (UidQuery.uid i) d h =
      let look = look_prompt pg (UidQuery.uid i) in
      let (row, found, is) =
        optional_row-some look (Prompts.from_row pg)
          (sym (bind_assoc (from_pool pg.get_conn) _ _) ∙ h) in
      let a = db.prompts.where_uid i row found in
      let b = prompt-HasKeys pg row d is in ap UidQuery.uid (cc (a, b))

  loaded_prompts-IsCoherent :
      (find_all : Option PromptQuery → R pg (List Prompt))
      → IsCoherent (storage (prompt_executor pg) find_all prompt_queries)
  unfolding Prompts.get_id
  loaded_prompts-IsCoherent find_all = record {
    answers = λ q d h. Memᴰ.head (prompt_found q d h);
    coherent = λ q q' d h m.
        let same : q ≡ q' = prompt_found q d h ∙ sym (single q' (UidQuery.uid d.uid) m) in
        rw (sym same) h;
    unique = λ q q' d d' h h' e.
        let same : q ≡ q' = prompt_found q d h ∙ ap UidQuery.uid e ∙ sym (prompt_found q' d' h') in
        let again : Prompts.find_optional pg q ≡ ok (some d') = rw same h' in cc;
  }

  prompts-IsCoherent : IsCoherent (dc.storage (prompt_executor pg) prompt_queries)
  prompts-IsCoherent =
      storage-IsCoherent dc laws (prompt_executor pg) prompt_queries
        (dc.storage (prompt_executor pg) prompt_queries).find_all
        (loaded_prompts-IsCoherent (dc.storage (prompt_executor pg) prompt_queries).find_all)

  -- If each table of a quiescent database has one row for an id and one for a slug or host, then the
  -- caching storages over the executors are coherent: what they find answers to its own id and slug and to
  -- nothing else, under both it is found again, and an id names one value.
  pub create_manager-AreCoherent : AreCoherent (create_manager pg dc)
  unfolding create_manager
  create_manager-AreCoherent = record {
    flow = flows-IsCoherent;
    stage = stages-IsCoherent;
    policy = policies-IsCoherent;
    prompt = prompts-IsCoherent;
    tenant = tenants-IsCoherent;
  }
