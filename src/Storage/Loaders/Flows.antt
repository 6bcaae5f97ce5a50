-- ===== src/Storage/Loaders/Flows.antt =====
-- storage/src/flow.rs: the executor.
use authust.Prelude.{String, Option, none, some, List, [], ◌∷◌}
use authust.Prelude.Res.{Res, ok, panic, ◌>>=◌, expect}
use authust.Prelude.Sort.{sort_by_key}
use authust.Model.Query.{I32, FlowQuery, UniqueQuery}
use authust.Model.User.{Uuid}
use authust.Model.Flow.{
  Flow, FlowBinding, FlowBindingKind, FlowEntry, FlowDesignation, AuthenticationRequirement,
}
use authust.Storage.Sql.{
  Postgres, Param, StorageError, R, from_pool, from_database, prepared, get_enum, map_or_panic,
  flow_by_id, flow_by_slug, flow_all_ids, flow_bindings_by_flow, flow_bindings_by_entry,
  flow_entries_by_flow,
}
use authust.Storage.Loaders.Common.{Executor, optional_row, ids_of_rows}

-- The labels of the derived `FromSql`s.
abbrev pub flow_designations : List (String × FlowDesignation)
flow_designations =
    ("invalidation", FlowDesignation.invalidation)
    ∷ ("authentication", FlowDesignation.authentication)
    ∷ ("authorization", FlowDesignation.authorization)
    ∷ ("enrollment", FlowDesignation.enrollment)
    ∷ ("recovery", FlowDesignation.recovery)
    ∷ ("unenrollment", FlowDesignation.unenrollment)
    ∷ ("configuration", FlowDesignation.configuration)
    ∷ []

abbrev pub authentication_requirements : List (String × AuthenticationRequirement)
authentication_requirements =
    ("superuser", AuthenticationRequirement.superuser)
    ∷ ("required", AuthenticationRequirement.required)
    ∷ ("none", AuthenticationRequirement.none)
    ∷ ("ignored", AuthenticationRequirement.ignored)
    ∷ []

-- `Uuid::nil()`.
abbrev pub nil : Uuid
nil = 0

module _ {Row P G : Type 0} (pg : Postgres Row P G) where
  -- The chain of `if let`s of `binding_from_row`: a column is read where those before it are NULL.
  abbrev policy_kind_of : Option I32 → FlowBindingKind
  policy_kind_of (some policy) = FlowBindingKind.policy (UniqueQuery.uid policy)
  policy_kind_of none = FlowBindingKind.user nil

  abbrev group_kind_of : Row → Option Uuid → R pg FlowBindingKind
  group_kind_of row (some group) = ok (FlowBindingKind.group group)
  group_kind_of row none = do
    policy ← expect (pg.get_optional_i32 "policy" row)
    ok (policy_kind_of policy)

  abbrev user_kind_of : Row → Option Uuid → R pg FlowBindingKind
  user_kind_of row (some user) = ok (FlowBindingKind.user user)
  user_kind_of row none = do
    group ← expect (pg.get_optional_uuid "group_binding" row)
    group_kind_of row group

  unfoldable pub binding_kind : Row → R pg FlowBindingKind
  binding_kind row = do
    user ← expect (pg.get_optional_uuid "user_binding" row)
    user_kind_of row user

  unfoldable pub binding_from_row : Row → R pg FlowBinding
  unfolding binding_kind
  binding_from_row row = do
    kind ← binding_kind row
    enabled ← expect (pg.get_bool "enabled" row)
    negate ← expect (pg.get_bool "negate" row)
    order ← expect (pg.get_i16 "ordering" row)
    ok (record { enabled = enabled; negate = negate; order = order; kind = kind })

  -- The statement is prepared by the caller.
  unfoldable pub get_bindings : String → I32 → R pg (List FlowBinding)
  unfolding binding_from_row
  get_bindings statement id = do
    rows ← from_database (pg.query statement (Param.int id ∷ []))
    bindings ← map_or_panic binding_from_row rows
    ok (sort_by_key (λ (v : FlowBinding). v.order) bindings)

  unfoldable pub entry_from_row : Row → R pg FlowEntry
  unfolding get_bindings
  entry_from_row row = do
    _ ← from_database (pg.prepare flow_bindings_by_entry)
    uid ← expect (pg.get_i32 "uid" row)
    bindings ← get_bindings flow_bindings_by_entry uid
    ordering ← expect (pg.get_i16 "ordering" row)
    stage ← expect (pg.get_i32 "stage" row)
    ok (record { ordering = ordering; bindings = bindings; stage = UniqueQuery.uid stage })

  -- The loop of `get_entries`, which stops at the first error.
  abbrev pub entries_from_rows : List Row → R pg (List FlowEntry)
  entries_from_rows = map_or_panic entry_from_row

  unfoldable pub get_entries : I32 → R pg (List FlowEntry)
  unfolding entry_from_row
  get_entries id = do
    rows ← prepared pg pg.query flow_entries_by_flow (Param.int id ∷ [])
    entries_from_rows rows

  unfoldable pub from_row : Row → R pg Flow
  unfolding get_bindings get_entries
  from_row row = do
    _ ← from_database (pg.prepare flow_bindings_by_flow)
    uid ← expect (pg.get_i32 "uid" row)
    bindings ← get_bindings flow_bindings_by_flow uid
    entries ← get_entries uid
    slug ← expect (pg.get_text "slug" row)
    title ← expect (pg.get_text "title" row)
    designation ← get_enum pg flow_designations "designation" row
    authentication ← get_enum pg authentication_requirements "authentication" row
    ok (record {
      uid = uid;
      slug = slug;
      title = title;
      designation = designation;
      authentication = authentication;
      bindings = bindings;
      entries = entries;
    })

  unfoldable pub get_id : Flow → I32
  get_id d = d.uid

  abbrev pub ask : {A : Type 0} → (String → List Param → Res G A) → FlowQuery → R pg A
  ask query (UniqueQuery.uid uid) = prepared pg query flow_by_id (Param.int uid ∷ [])
  ask query (UniqueQuery.slug slug) = prepared pg query flow_by_slug (Param.text slug ∷ [])

  unfoldable pub find_one : FlowQuery → R pg Flow
  unfolding from_row
  find_one q = do _ ← from_pool pg.get_conn; row ← ask pg.query_one q; from_row row

  unfoldable pub find_all_ids : Option FlowQuery → R pg (List I32)
  find_all_ids (some (UniqueQuery.uid id)) = ok (id ∷ [])
  find_all_ids (some (UniqueQuery.slug _)) = panic
  find_all_ids none = do _ ← from_pool pg.get_conn; ids_of_rows pg flow_all_ids

  unfoldable pub find_optional : FlowQuery → R pg (Option Flow)
  unfolding from_row
  find_optional q = do
    _ ← from_pool pg.get_conn
    row ← ask pg.query_opt q
    optional_row from_row row

  -- `todo!()`.
  unfoldable pub delete : FlowQuery → R pg (List I32)
  delete _ = panic

  abbrev pub flow_executor : Executor FlowQuery Flow (StorageError P G)
  flow_executor = record {
    get_id = get_id;
    find_one = find_one;
    find_all_ids = find_all_ids;
    find_optional = find_optional;
    delete = delete;
  }
