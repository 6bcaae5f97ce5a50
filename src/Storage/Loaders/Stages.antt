-- ===== src/Storage/Loaders/Stages.antt =====
-- storage/src/stage.rs: the executor.
use authust.Prelude.{String, Option, none, some, List, [], ◌∷◌}
use authust.Prelude.Res.{Res, ok, panic, ◌>>=◌, expect}
use authust.Prelude.Sort.{sort_by_key}
use authust.Model.Query.{I32, StageQuery, UniqueQuery, UidQuery}
use authust.Model.Prompt.{PromptBinding}
use authust.Model.Stage.{Stage, StageKind, ConsentMode, UserField, internal}
use authust.Storage.Sql.{
  Postgres, Param, StorageError, R, from_pool, from_database, prepared, get_enum, from_label,
  map_or_panic, stage_by_id, stage_by_slug, stage_all_ids, stage_identification_by_id,
  stage_consent_by_id, stage_prompt_bindings_by_stage,
}
use authust.Storage.Loaders.Common.{Executor, optional_row, ids_of_rows}

pub data PgStageKind : Type 0 where
  deny prompt identification user_login user_logout user_write password consent : PgStageKind

-- `PgConsentMode` of model/src/stage.rs.
pub data PgConsentMode : Type 0 where
  always once until : PgConsentMode

-- The labels of the derived `FromSql`s.
abbrev pub stage_kinds : List (String × PgStageKind)
stage_kinds =
    ("deny", PgStageKind.deny)
    ∷ ("prompt", PgStageKind.prompt)
    ∷ ("identification", PgStageKind.identification)
    ∷ ("user_login", PgStageKind.user_login)
    ∷ ("user_logout", PgStageKind.user_logout)
    ∷ ("user_write", PgStageKind.user_write)
    ∷ ("password", PgStageKind.password)
    ∷ ("consent", PgStageKind.consent)
    ∷ []

abbrev pub consent_modes : List (String × PgConsentMode)
consent_modes =
    ("always", PgConsentMode.always)
    ∷ ("once", PgConsentMode.once)
    ∷ ("until", PgConsentMode.until)
    ∷ []

abbrev pub user_fields : List (String × UserField)
user_fields = ("email", UserField.email) ∷ ("name", UserField.name) ∷ ("uuid", UserField.uuid) ∷ []

-- `map(|uid| DataRef::new(StageQuery::uid(uid)))`.
abbrev pub stage_reference : Option I32 → Option StageQuery
stage_reference none = none
stage_reference (some uid) = some (UniqueQuery.uid uid)

module _ {Row P G : Type 0} (pg : Postgres Row P G) where
  unfoldable pub identification_stage : Row → R pg StageKind
  identification_stage row = do
    password_stage_id ← expect (pg.get_optional_i32 "identification_password_stage" row)
    identification_id ← expect (pg.get_i32 "identification_stage" row)
    id_row ← prepared pg pg.query_one stage_identification_by_id (Param.int identification_id ∷ [])
    labels ← expect (pg.get_labels "fields" id_row)
    fields ← map_or_panic (λ label. expect (from_label user_fields label)) labels
    ok (StageKind.identification (stage_reference password_stage_id) fields)

  unfoldable pub password_stage : Row → R pg StageKind
  password_stage _ = ok (StageKind.password (internal ∷ []))

  abbrev pub consent_mode : PgConsentMode → Row → R pg ConsentMode
  consent_mode PgConsentMode.always row = ok ConsentMode.always
  consent_mode PgConsentMode.once row = ok ConsentMode.once
  consent_mode PgConsentMode.until row = do
    duration ← expect (pg.get_i32 "until" row)
    ok (ConsentMode.until duration)

  unfoldable pub consent_stage : Row → R pg StageKind
  consent_stage row = do
    _ ← from_database (pg.prepare stage_consent_by_id)
    consent_id ← expect (pg.get_i32 "consent_stage" row)
    consent_row ← from_database (pg.query_one stage_consent_by_id (Param.int consent_id ∷ []))
    mode ← get_enum pg consent_modes "mode" consent_row
    mode ← consent_mode mode consent_row
    ok (StageKind.consent mode)

  unfoldable pub prompt_binding : Row → R pg PromptBinding
  prompt_binding row = do
    order ← expect (pg.get_i16 "ordering" row)
    id ← expect (pg.get_i32 "prompt" row)
    ok (record { order = order; prompt = UidQuery.uid id })

  unfoldable pub prompt_stage : I32 → R pg StageKind
  unfolding prompt_binding
  prompt_stage stage_id = do
    rows ← prepared pg pg.query stage_prompt_bindings_by_stage (Param.int stage_id ∷ [])
    bindings ← map_or_panic prompt_binding rows
    ok (StageKind.prompt (sort_by_key (λ (v : PromptBinding). v.order) bindings))

  -- The `match` of `from_row`. A row of kind `UserLogout` becomes a `UserWrite`, as in the source.
  unfoldable pub stage_kind : PgStageKind → I32 → Row → R pg StageKind
  unfolding identification_stage password_stage consent_stage prompt_stage
  stage_kind PgStageKind.deny uid row = ok StageKind.deny
  stage_kind PgStageKind.prompt uid row = prompt_stage uid
  stage_kind PgStageKind.identification uid row = identification_stage row
  stage_kind PgStageKind.user_login uid row = ok StageKind.user_login
  stage_kind PgStageKind.user_logout uid row = ok StageKind.user_write
  stage_kind PgStageKind.user_write uid row = ok StageKind.user_write
  stage_kind PgStageKind.password uid row = password_stage row
  stage_kind PgStageKind.consent uid row = consent_stage row

  unfoldable pub from_row : Row → R pg Stage
  unfolding stage_kind
  from_row row = do
    uid ← expect (pg.get_i32 "uid" row)
    simple ← get_enum pg stage_kinds "kind" row
    kind ← stage_kind simple uid row
    slug ← expect (pg.get_text "slug" row)
    timeout ← expect (pg.get_i32 "timeout" row)
    ok (record { uid = uid; slug = slug; kind = kind; timeout = timeout })

  unfoldable pub get_id : Stage → I32
  get_id d = d.uid

  abbrev pub ask : {A : Type 0} → (String → List Param → Res G A) → StageQuery → R pg A
  ask query (UniqueQuery.uid uid) = prepared pg query stage_by_id (Param.int uid ∷ [])
  ask query (UniqueQuery.slug slug) = prepared pg query stage_by_slug (Param.text slug ∷ [])

  unfoldable pub find_one : StageQuery → R pg Stage
  unfolding from_row
  find_one q = do _ ← from_pool pg.get_conn; row ← ask pg.query_one q; from_row row

  unfoldable pub find_all_ids : Option StageQuery → R pg (List I32)
  find_all_ids (some (UniqueQuery.uid id)) = ok (id ∷ [])
  find_all_ids (some (UniqueQuery.slug _)) = panic
  find_all_ids none = do _ ← from_pool pg.get_conn; ids_of_rows pg stage_all_ids

  unfoldable pub find_optional : StageQuery → R pg (Option Stage)
  unfolding from_row
  find_optional q = do
    _ ← from_pool pg.get_conn
    row ← ask pg.query_opt q
    optional_row from_row row

  -- `todo!()`.
  unfoldable pub delete : StageQuery → R pg (List I32)
  delete _ = panic

  abbrev pub stage_executor : Executor StageQuery Stage (StorageError P G)
  stage_executor = record {
    get_id = get_id;
    find_one = find_one;
    find_all_ids = find_all_ids;
    find_optional = find_optional;
    delete = delete;
  }
