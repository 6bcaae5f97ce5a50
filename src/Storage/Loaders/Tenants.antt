-- ===== src/Storage/Loaders/Tenants.antt =====
-- storage/src/tenant.rs.
use authust.Prelude.{String, Option, none, some, List, [], ◌∷◌}
use authust.Prelude.Res.{Res, ok, panic, ◌>>=◌, expect}
use authust.Model.Query.{I32, FlowQuery, TenantQuery, UniqueQuery}
use authust.Model.Tenant.{Tenant}
use authust.Storage.Sql.{
  Postgres, Param, StorageError, R, from_pool, prepared, tenant_by_id, tenant_by_host,
  tenant_all_ids,
}
use authust.Storage.Loaders.Common.{Executor, optional_row, ids_of_rows}

-- `map(|uid| DataRef::new(FlowQuery::uid(uid)))`.
abbrev pub flow_reference : Option I32 → Option FlowQuery
flow_reference none = none
flow_reference (some uid) = some (UniqueQuery.uid uid)

module _ {Row P G : Type 0} (pg : Postgres Row P G) where
  abbrev pub reference : String → Row → R pg (Option FlowQuery)
  reference column row = do uid ← expect (pg.get_optional_i32 column row); ok (flow_reference uid)

  unfoldable pub from_row : Row → R pg Tenant
  from_row row = do
    uid ← expect (pg.get_i32 "uid" row)
    host ← expect (pg.get_text "host" row)
    default ← expect (pg.get_bool "is_default" row)
    title ← expect (pg.get_text "title" row)
    logo ← expect (pg.get_text "logo" row)
    favicon ← expect (pg.get_text "favicon" row)
    invalidation_flow ← reference "invalidation_flow" row
    authentication_flow ← reference "authentication_flow" row
    authorization_flow ← reference "authorization_flow" row
    enrollment_flow ← reference "enrollment_flow" row
    recovery_flow ← reference "recovery_flow" row
    unenrollment_flow ← reference "unenrollment_flow" row
    configuration_flow ← reference "configuration_flow" row
    ok (record {
      uid = uid;
      host = host;
      default = default;
      title = title;
      logo = logo;
      favicon = favicon;
      invalidation_flow = invalidation_flow;
      authentication_flow = authentication_flow;
      authorization_flow = authorization_flow;
      enrollment_flow = enrollment_flow;
      recovery_flow = recovery_flow;
      unenrollment_flow = unenrollment_flow;
      configuration_flow = configuration_flow;
    })

  unfoldable pub get_id : Tenant → I32
  get_id d = d.uid

  abbrev pub ask : {A : Type 0} → (String → List Param → Res G A) → TenantQuery → R pg A
  ask query (UniqueQuery.uid uid) = prepared pg query tenant_by_id (Param.int uid ∷ [])
  ask query (UniqueQuery.slug host) = prepared pg query tenant_by_host (Param.text host ∷ [])

  unfoldable pub find_one : TenantQuery → R pg Tenant
  unfolding from_row
  find_one q = do _ ← from_pool pg.get_conn; row ← ask pg.query_one q; from_row row

  unfoldable pub find_all_ids : Option TenantQuery → R pg (List I32)
  find_all_ids (some (UniqueQuery.uid id)) = ok (id ∷ [])
  find_all_ids (some (UniqueQuery.slug _)) = panic
  find_all_ids none = do _ ← from_pool pg.get_conn; ids_of_rows pg tenant_all_ids

  unfoldable pub find_optional : TenantQuery → R pg (Option Tenant)
  unfolding from_row
  find_optional q = do
    _ ← from_pool pg.get_conn
    row ← ask pg.query_opt q
    optional_row from_row row

  -- `todo!()`.
  unfoldable pub delete : TenantQuery → R pg (List I32)
  delete _ = panic

  abbrev pub tenant_executor : Executor TenantQuery Tenant (StorageError P G)
  tenant_executor = record {
    get_id = get_id;
    find_one = find_one;
    find_all_ids = find_all_ids;
    find_optional = find_optional;
    delete = delete;
  }
