-- ===== src/Storage/Loaders/Kinds.antt =====
-- The kinds of loaded stages and policies, and the agreement of `find_one` with `find_optional`.
use authust.Prelude.{String, Option, some, List, [], ◌∷◌, ◌≡◌, ◌↔◌, sym, ap, ◌∙◌}
use authust.Prelude.Res.{Res, ok, err, panic, expect, ◌>>=◌, >>=-eq-ok}
use authust.Prelude.Sort.{sort_by_key, IsAscending, sort_by_key-IsAscending}
use authust.Model.Query.{I32, UniqueQuery, StageQuery, PolicyQuery, UidQuery}
use authust.Model.Policy.{Policy, PolicyKind, PolicyKindSimple, simple_kind}
use authust.Model.Prompt.{PromptBinding}
use authust.Model.Stage.{Stage, StageKind, ConsentMode, UserField, internal}
use authust.Storage.Sql.{
  Postgres, Param, StorageError, R, from_pool, from_database, prepared, get_enum, from_label,
  map_or_panic, stage_identification_by_id, stage_consent_by_id, stage_prompt_bindings_by_stage,
  policy_password_expiration_by_id, policy_expression_by_id,
}
use authust.Storage.Loaders.Common.{Executor, optional_row}
use authust.Storage.Loaders.Table.{optional_row-some, some-optional_row}
use authust.Storage.Loaders.Policies
use authust.Storage.Loaders.Policies.{policy_kinds, policy_kind, policy_executor}
use authust.Storage.Loaders.Stages
use authust.Storage.Loaders.Stages.{
  PgStageKind, PgConsentMode, stage_kinds, stage_kind, user_fields, prompt_binding, consent_modes,
  consent_mode, identification_stage, consent_stage, prompt_stage, stage_executor,
}
use authust.Storage.Loaders.Flows.{flow_executor}
use authust.Storage.Loaders.Flows
use authust.Storage.Loaders.Tenants.{tenant_executor}
use authust.Storage.Loaders.Tenants
use authust.Storage.Loaders.Prompts.{prompt_executor}
use authust.Storage.Loaders.Prompts

-- The kind of stage that a row of a kind becomes.
abbrev pub Becomes : PgStageKind → StageKind → Type 0
Becomes PgStageKind.deny k = k ≡ StageKind.deny
Becomes PgStageKind.prompt k =
    (bindings : List PromptBinding) × (k ≡ StageKind.prompt bindings)
    × IsAscending (λ (v : PromptBinding). v.order) bindings
Becomes PgStageKind.identification k =
    (password : Option StageQuery) × (fields : List UserField) × (k
      ≡ StageKind.identification password fields)
Becomes PgStageKind.user_login k = k ≡ StageKind.user_login
Becomes PgStageKind.user_logout k = k ≡ StageKind.user_write
Becomes PgStageKind.user_write k = k ≡ StageKind.user_write
Becomes PgStageKind.password k = k ≡ StageKind.password (internal ∷ [])
Becomes PgStageKind.consent k = (mode : ConsentMode) × (k ≡ StageKind.consent mode)

ok_inj : {E A : Type 0} (a b : A) → ◌≡◌ {A = Res E A} (ok a) (ok b) → a ≡ b
ok_inj a b h = cc

module _ {Row P G : Type 0} (pg : Postgres Row P G) where
  prompt_stage-Becomes :
      (id : I32) (k : StageKind) → prompt_stage pg id ≡ ok k → Becomes PgStageKind.prompt k
  unfolding prompt_stage
  prompt_stage-Becomes id k h =
      let (rows, e1, h1) =
        >>=-eq-ok (prepared pg pg.query stage_prompt_bindings_by_stage (Param.int id ∷ [])) _ h in
      let (bindings, e2, h2) = >>=-eq-ok (map_or_panic (prompt_binding pg) rows) _ h1 in
      let order = λ (v : PromptBinding). v.order in
      (sort_by_key order bindings, sym (ok_inj _ k h2), sort_by_key-IsAscending order bindings)

  identification_stage-Becomes :
      (row : Row) (k : StageKind)
      → identification_stage pg row ≡ ok k
      → Becomes PgStageKind.identification k
  unfolding identification_stage
  identification_stage-Becomes row k h =
      let (password, e1, h1) =
        >>=-eq-ok (expect (pg.get_optional_i32 "identification_password_stage" row)) _ h in
      let (id, e2, h2) = >>=-eq-ok (expect (pg.get_i32 "identification_stage" row)) _ h1 in
      let (id_row, e3, h3) =
        >>=-eq-ok (prepared pg pg.query_one stage_identification_by_id (Param.int id ∷ [])) _ h2 in
      let (labels, e4, h4) = >>=-eq-ok (expect (pg.get_labels "fields" id_row)) _ h3 in
      let (fields, e5, h5) =
        >>=-eq-ok (map_or_panic (λ label. expect (from_label user_fields label)) labels) _ h4 in
      (Stages.stage_reference password, fields, sym (ok_inj _ k h5))

  consent_stage-Becomes :
      (row : Row) (k : StageKind) → consent_stage pg row ≡ ok k → Becomes PgStageKind.consent k
  unfolding consent_stage
  consent_stage-Becomes row k h =
      let (x1, e1, h1) = >>=-eq-ok (from_database (pg.prepare stage_consent_by_id)) _ h in
      let (id, e2, h2) = >>=-eq-ok (expect (pg.get_i32 "consent_stage" row)) _ h1 in
      let (consent_row, e3, h3) =
        >>=-eq-ok (from_database (pg.query_one stage_consent_by_id (Param.int id ∷ []))) _ h2 in
      let (mode, e4, h4) = >>=-eq-ok (get_enum pg consent_modes "mode" consent_row) _ h3 in
      let (mode', e5, h5) = >>=-eq-ok (consent_mode pg mode consent_row) _ h4 in
      (mode', sym (ok_inj _ k h5))

  stage_kind-Becomes :
      (simple : PgStageKind) (uid : I32) (row : Row) (k : StageKind)
      → stage_kind pg simple uid row ≡ ok k
      → Becomes simple k
  unfolding stage_kind Stages.password_stage
  stage_kind-Becomes PgStageKind.deny uid row k h = sym (ok_inj _ k h)
  stage_kind-Becomes PgStageKind.prompt uid row k h = prompt_stage-Becomes uid k h
  stage_kind-Becomes PgStageKind.identification uid row k h = identification_stage-Becomes row k h
  stage_kind-Becomes PgStageKind.user_login uid row k h = sym (ok_inj _ k h)
  stage_kind-Becomes PgStageKind.user_logout uid row k h = sym (ok_inj _ k h)
  stage_kind-Becomes PgStageKind.user_write uid row k h = sym (ok_inj _ k h)
  stage_kind-Becomes PgStageKind.password uid row k h = sym (ok_inj _ k h)
  stage_kind-Becomes PgStageKind.consent uid row k h = consent_stage-Becomes row k h

  -- A stage that is found was made of a row of its table, and is of the kind that the row's label
  -- names, with the bindings of a prompt stage in ascending order, except that a row of the kind
  -- `user_logout` becomes a `user_write` stage.
  pub find_optional-Becomes :
      (q : StageQuery) (d : Stage)
      → Stages.find_optional pg q ≡ ok (some d)
      → (row : Row) × (simple : PgStageKind) × (Stages.ask pg pg.query_opt q ≡ ok (some row))
        × (get_enum pg {E = StorageError P G} stage_kinds "kind" row ≡ ok simple)
        × Becomes simple d.kind
  unfolding Stages.find_optional Stages.from_row
  find_optional-Becomes q d h =
      let (x, e, h1) = >>=-eq-ok (from_pool pg.get_conn) _ h in
      let (row, found, is) =
        optional_row-some (Stages.ask pg pg.query_opt q) (Stages.from_row pg) h1 in
      let (uid, e2, h2) = >>=-eq-ok (expect (pg.get_i32 "uid" row)) _ is in
      let (simple, e3, h3) = >>=-eq-ok (get_enum pg stage_kinds "kind" row) _ h2 in
      let (kind, e4, h4) = >>=-eq-ok (stage_kind pg simple uid row) _ h3 in
      let (slug, e5, h5) = >>=-eq-ok (expect (pg.get_text "slug" row)) _ h4 in
      let (timeout, e6, h6) = >>=-eq-ok (expect (pg.get_i32 "timeout" row)) _ h5 in
      let same : kind ≡ d.kind = ap (λ (x : Stage). x.kind) (ok_inj _ d h6) in
      (row, simple, found, e3, rw same at (stage_kind-Becomes simple uid row kind e4))

  policy_kind-simple_kind :
      (simple : PolicyKindSimple) (row : Row) (k : PolicyKind)
      → policy_kind pg simple row ≡ ok k
      → simple_kind k ≡ simple
  unfolding policy_kind Policies.password_expiry_policy Policies.password_strength_policy
      Policies.expression_policy simple_kind
  policy_kind-simple_kind PolicyKindSimple.password_expiry row k h =
      let (id, e1, h1) = >>=-eq-ok (expect (pg.get_i32 "password_expiration" row)) _ h in
      let (sub, e2, h2) =
        >>=-eq-ok (prepared pg pg.query_one policy_password_expiration_by_id (Param.int id ∷ [])) _
          h1 in
      let (age, e3, h3) = >>=-eq-ok (expect (pg.get_i32 "max_age" sub)) _ h2 in
      sym (ap simple_kind (ok_inj _ k h3))
  policy_kind-simple_kind PolicyKindSimple.password_strength row k h =
      let (id, e1, h1) = >>=-eq-ok (expect (pg.get_i32 "password_strength" row)) _ h in
      sym (ap simple_kind (ok_inj _ k h1))
  policy_kind-simple_kind PolicyKindSimple.expression row k h =
      let (id, e1, h1) = >>=-eq-ok (expect (pg.get_i32 "expression" row)) _ h in
      let (sub, e2, h2) =
        >>=-eq-ok (prepared pg pg.query_one policy_expression_by_id (Param.int id ∷ [])) _ h1 in
      let (text, e3, h3) = >>=-eq-ok (expect (pg.get_text "expression" sub)) _ h2 in
      sym (ap simple_kind (ok_inj _ k h3))

  pub find_optional-simple_kind :
      (q : PolicyQuery) (d : Policy)
      → Policies.find_optional pg q ≡ ok (some d)
      → (row : Row) × (Policies.ask pg pg.query_opt q ≡ ok (some row))
        × (get_enum pg {E = StorageError P G} policy_kinds "kind" row ≡ ok (simple_kind d.kind))
  unfolding Policies.find_optional Policies.from_row
  find_optional-simple_kind q d h =
      let (x, e, h1) = >>=-eq-ok (from_pool pg.get_conn) _ h in
      let (row, found, is) =
        optional_row-some (Policies.ask pg pg.query_opt q) (Policies.from_row pg) h1 in
      let (simple, e2, h2) = >>=-eq-ok (get_enum pg policy_kinds "kind" row) _ is in
      let (kind, e3, h3) = >>=-eq-ok (policy_kind pg simple row) _ h2 in
      let (uid, e4, h4) = >>=-eq-ok (expect (pg.get_i32 "uid" row)) _ h3 in
      let (slug, e5, h5) = >>=-eq-ok (expect (pg.get_text "slug" row)) _ h4 in
      let same : kind ≡ d.kind = ap (λ (x : Policy). x.kind) (ok_inj _ d h5) in
      let is_simple = policy_kind-simple_kind simple row kind e3 in
      (row, found, e2 ∙ ap (λ x. ok x) (sym is_simple ∙ ap simple_kind same))

  -- What tokio_postgres says of `query_one`: the row of `query_opt`, where there is one.
  abbrev pub OneIsOptional : Type 0
  OneIsOptional =
      (sql : String) (args : List Param) (row : Row)
      → (pg.query_one sql args ≡ ok row) ↔ (pg.query_opt sql args ≡ ok (some row))

  abbrev pub Agrees : {Q D : Type 0} → Executor Q D (StorageError P G) → Type 0
  Agrees {Q} {D} exc =
      (q : Q) (d : D) → (exc.find_one q ≡ ok d) ↔ (exc.find_optional q ≡ ok (some d))

  ok-from_database : {A : Type 0} (r : Res G A) {a : A} → r ≡ ok a → from_database {P = P} r ≡ ok a
  ok-from_database r h = rw h

  database_ok : {A : Type 0} (r : Res G A) {a : A} → from_database {P = P} r ≡ ok a → r ≡ ok a
  database_ok (ok a) h = cc
  database_ok (err e) h = cc
  database_ok panic h = cc

  prepared_lem :
      {A B : Type 0} (ask : String → List Param → Res G A) (ask' : String → List Param → Res G B)
      (sql : String) (args : List Param) (a : A) (b : B)
      → (ask sql args ≡ ok a → ask' sql args ≡ ok b)
      → prepared pg ask sql args ≡ ok a
      → prepared pg ask' sql args ≡ ok b
  prepared_lem ask ask' sql args a b then_b h =
      let (x, e, h1) = >>=-eq-ok (from_database (pg.prepare sql)) _ h in
      rw e (ok-from_database (ask' sql args) (then_b (database_ok (ask sql args) h1)))

  prepared_iff :
      OneIsOptional
      → (sql : String) (args : List Param) (row : Row)
      → (prepared pg pg.query_one sql args ≡ ok row)
        ↔ (prepared pg pg.query_opt sql args ≡ ok (some row))
  prepared_iff same sql args row = (
    prepared_lem pg.query_one pg.query_opt sql args row (some row) (same sql args row).0,
    prepared_lem pg.query_opt pg.query_one sql args (some row) row (same sql args row).1,
  )

  loaded_iff :
      {D : Type 0} (one : R pg Row) (opt : R pg (Option Row)) (from_row : Row → R pg D) (d : D)
      → ((row : Row) → (one ≡ ok row) ↔ (opt ≡ ok (some row)))
      → ((from_pool pg.get_conn >>= λ _. one >>= from_row) ≡ ok d)
        ↔ ((from_pool pg.get_conn >>= λ _. opt >>= optional_row from_row) ≡ ok (some d))
  loaded_iff one opt from_row d same = (
    λ h.
        let (x, e, h1) = >>=-eq-ok (from_pool pg.get_conn) _ h in
        let (row, found, is) = >>=-eq-ok one _ h1 in
        rw e (some-optional_row opt from_row row d ((same row).0 found) is),
    λ h.
        let (x, e, h1) = >>=-eq-ok (from_pool pg.get_conn) _ h in
        let (row, found, is) = optional_row-some opt from_row h1 in rw (e, (same row).1 found, is),
  )

  flow-Agrees : OneIsOptional → Agrees (flow_executor pg)
  unfolding Flows.find_one Flows.find_optional
  flow-Agrees same (UniqueQuery.uid i) d = loaded_iff _ _ _ d (prepared_iff same _ _)
  flow-Agrees same (UniqueQuery.slug s) d = loaded_iff _ _ _ d (prepared_iff same _ _)

  stage-Agrees : OneIsOptional → Agrees (stage_executor pg)
  unfolding Stages.find_one Stages.find_optional
  stage-Agrees same (UniqueQuery.uid i) d = loaded_iff _ _ _ d (prepared_iff same _ _)
  stage-Agrees same (UniqueQuery.slug s) d = loaded_iff _ _ _ d (prepared_iff same _ _)

  policy-Agrees : OneIsOptional → Agrees (policy_executor pg)
  unfolding Policies.find_one Policies.find_optional
  policy-Agrees same (UniqueQuery.uid i) d = loaded_iff _ _ _ d (prepared_iff same _ _)
  policy-Agrees same (UniqueQuery.slug s) d = loaded_iff _ _ _ d (prepared_iff same _ _)

  tenant-Agrees : OneIsOptional → Agrees (tenant_executor pg)
  unfolding Tenants.find_one Tenants.find_optional
  tenant-Agrees same (UniqueQuery.uid i) d = loaded_iff _ _ _ d (prepared_iff same _ _)
  tenant-Agrees same (UniqueQuery.slug s) d = loaded_iff _ _ _ d (prepared_iff same _ _)

  prompt-Agrees : OneIsOptional → Agrees (prompt_executor pg)
  unfolding Prompts.find_one Prompts.find_optional
  prompt-Agrees same (UidQuery.uid i) d = loaded_iff _ _ _ d (prepared_iff same _ _)

  -- If `query_one` gives the row that `query_opt` gives, and only then, the two lookups of each
  -- executor find the same values.
  pub find_one_iff :
      OneIsOptional
      → Agrees (flow_executor pg)
        × Agrees (stage_executor pg)
        × Agrees (policy_executor pg)
        × Agrees (prompt_executor pg)
        × Agrees (tenant_executor pg)
  find_one_iff same = (
    flow-Agrees same,
    stage-Agrees same,
    policy-Agrees same,
    prompt-Agrees same,
    tenant-Agrees same,
  )
