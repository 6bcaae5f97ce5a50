-- ===== src/Interface/Running.antt =====
-- What a server of server/src/main.rs has once it is started.
use authust.Prelude.{ℕ, String, Option, none, some, [], ◌≡◌, ◌⊎◌, inl, inr, ap, sym}
use mathlib.Core.List.{Memᴰ}
use authust.Prelude.Res.{Res, ok, err, panic, expect, >>=-eq-ok}
use authust.Model.Query.{I32, UniqueQuery}
use authust.Model.Tenant.{Tenant}
use authust.Model.User.{OffsetDateTime}
use authust.Storage.Reverse.{Sources, Lookup}
use authust.Storage.Ready.{AreCoherent}
use authust.Storage.Sql.{Postgres, StorageError}
use authust.Storage.Loaders.Datacache.{Datacache, IsDatacache}
use authust.Storage.Loaders.Tenants.{tenant_executor}
use authust.Storage.Loaders.Keys.{expect-ok}
use authust.Storage.Loaders.Manager.{
  IsDatabase, create_manager, create_manager-AreCoherent, tenant_queries,
}
use authust.Executor.State.{FlowKey, FlowExecution}
use authust.Executor.Registry.{Cache, start}
use authust.Executor.Found.{IsFresh, AllFound}
use authust.Executor.Started.{start-AllFound}
use authust.Interface.Defaults.{
  expect_ok, preload, select_default, default_of, find_default, new_defaults,
}
use authust.Interface.Startup.{SharedState, Fresh, start_server}

expect_ok-ok : {E E' A : Type 0} (r : Res E A) {a : A} → expect_ok {E' = E'} r ≡ ok a → r ≡ ok a
expect_ok-ok (ok a) h = cc
expect_ok-ok (err e) h = cc
expect_ok-ok panic h = cc

same_fields :
    {E C A : Type 0} (made state : SharedState E C A)
    → ◌≡◌ {A = Res ⊥ (SharedState E C A)} (ok made) (ok state)
    → (state.storage ≡ made.storage) × (state.tenant ≡ made.tenant)
same_fields made state h =
    let same : made ≡ state = cc in
    (
      sym (ap (λ (s : SharedState _ _ _). s.storage) same),
      sym (ap (λ (s : SharedState _ _ _). s.tenant) same),
    )

module _ {Row P G C A : Type 0} (pg : Postgres Row P G) (dc : Datacache) (fresh : Fresh C A) where
  state_lem :
      (secret : String) (state : SharedState (StorageError P G) C A)
      → start_server pg dc fresh secret ≡ ok state
      → (state.storage ≡ create_manager pg dc)
        × ((tenant : Option Tenant) × (state.tenant ≡ tenant)
            × (new_defaults pg (create_manager pg dc) ≡ ok tenant))
  unfolding start_server
  state_lem secret state h =
      let (x, e, h1) = >>=-eq-ok (expect_ok {E' = ⊥} (preload (create_manager pg dc))) _ h in
      let (tenant, e1, h2) = >>=-eq-ok (new_defaults pg (create_manager pg dc)) _ h1 in
      let made : SharedState (StorageError P G) C A = record {
        executions = fresh.executions;
        auth_data = fresh.from_secret secret;
        storage = create_manager pg dc;
        tenant = tenant;
        asts = fresh.asts;
      } in
      let (storage', tenant') = same_fields made state h2 in (storage', (tenant, tenant', e1))

  -- The default tenant is the one whose id the row that is marked as default has. There is none if no
  -- row is marked, or if nothing is found under its id.
  abbrev pub IsDefault : Sources (StorageError P G) → Option Tenant → Type 0
  IsDefault storage (some tenant) =
      (row : Row) × (pg.query_opt select_default [] ≡ ok (some row))
      × (pg.get_i32 "uid" row ≡ some tenant.uid)
      × (storage.tenant.find_optional (UniqueQuery.uid tenant.uid) ≡ ok (some tenant))
  IsDefault storage none =
      (pg.query_opt select_default [] ≡ ok none)
      ⊎ ((row : Row) × (uid : I32) × (pg.query_opt select_default [] ≡ ok (some row))
          × (pg.get_i32 "uid" row ≡ some uid)
          × (storage.tenant.find_optional (UniqueQuery.uid uid) ≡ ok none))

  has_uid :
      (laws : IsDatacache dc) (coherent : AreCoherent (create_manager pg dc)) (uid : I32)
      (tenant : Tenant)
      → (create_manager pg dc).tenant.find_optional (UniqueQuery.uid uid) ≡ ok (some tenant)
      → uid ≡ tenant.uid
  unfolding create_manager
  has_uid laws coherent uid tenant h =
      let member = coherent.tenant.answers (UniqueQuery.uid uid) tenant h in
      in_queries (rw (laws.create_queries (tenant_executor pg) tenant_queries) at member)
    where
      in_queries : Memᴰ (UniqueQuery.uid uid) (tenant_queries tenant) → uid ≡ tenant.uid
      in_queries (Memᴰ.head e) = cc
      in_queries (Memᴰ.tail (Memᴰ.head e)) = cc
      in_queries (Memᴰ.tail (Memᴰ.tail m)) = elim m [ ]

  default_of-IsDefault :
      (laws : IsDatacache dc) (coherent : AreCoherent (create_manager pg dc)) (o : Option Row)
      (tenant : Option Tenant)
      → pg.query_opt select_default [] ≡ ok o
      → default_of pg (create_manager pg dc) o ≡ ok tenant
      → IsDefault (create_manager pg dc) tenant
  default_of-IsDefault laws coherent none (some tenant) asked h = cc
  default_of-IsDefault laws coherent none none asked h = inl asked
  default_of-IsDefault laws coherent (some row) tenant asked h =
      let (uid, is_uid, h1) = >>=-eq-ok (expect (pg.get_i32 "uid" row)) _ h in
      let found = expect_ok-ok _ h1 in go uid tenant (expect-ok _ is_uid) found
    where
      go :
          (uid : I32) (tenant : Option Tenant)
          → pg.get_i32 "uid" row ≡ some uid
          → (create_manager pg dc).tenant.find_optional (UniqueQuery.uid uid) ≡ ok tenant
          → IsDefault (create_manager pg dc) tenant
      go uid none is found = inr (row, uid, asked, is, found)
      go uid (some tenant) is found =
          let same = has_uid laws coherent uid tenant found in
          (row, asked, rw same at is, rw same at found)

  new_defaults-IsDefault :
      (laws : IsDatacache dc) (coherent : AreCoherent (create_manager pg dc))
      (tenant : Option Tenant)
      → new_defaults pg (create_manager pg dc) ≡ ok tenant
      → IsDefault (create_manager pg dc) tenant
  unfolding new_defaults find_default
  new_defaults-IsDefault laws coherent tenant h =
      let (x, e, h1) = >>=-eq-ok (expect_ok pg.get_conn) _ h in
      let (y, e1, h2) = >>=-eq-ok (expect_ok (pg.prepare select_default)) _ h1 in
      let (o, asked, h3) = >>=-eq-ok (expect_ok (pg.query_opt select_default [])) _ h2 in
      default_of-IsDefault laws coherent o tenant (expect_ok-ok _ asked) h3

  -- A server over a quiescent database whose tables have one row for an id and one for a slug or host:
  -- once it is started, its default tenant is the one of the row that is marked as default, if there is
  -- one; and each execution that its executor starts is a new one under its key, is cached, and finds in
  -- its frozen storage every policy, stage and embedded password stage of its flow.
  pub start_server-AllFound :
      (laws : IsDatacache dc) (db : IsDatabase pg) (secret : String)
      (state : SharedState (StorageError P G) C A)
      (started : start_server pg dc fresh secret ≡ ok state) (lookups : Lookup (StorageError P G))
      (cache : Cache C) (fuel : ℕ) (now : OffsetDateTime) (key : FlowKey) (k k' : C)
      (e : FlowExecution)
      → start cache state.storage lookups fuel now key k ≡ (ok (some e), k')
      → IsDefault state.storage state.tenant
        × IsFresh key e
        × (k' ≡ cache.insert key e k)
        × AllFound e
  start_server-AllFound laws db secret state started lookups cache fuel now key k k' e h =
      let (same, (tenant, is_tenant, new)) = state_lem secret state started in
      let direct = create_manager-AreCoherent pg dc laws db in
      let coherent : AreCoherent state.storage = rw same direct in
      let default : IsDefault state.storage state.tenant =
        rw (same, is_tenant) (new_defaults-IsDefault laws direct tenant new) in
      let (is_new, is_cached, finds) =
        start-AllFound state.storage lookups coherent cache fuel now key k k' e h in
      (default, is_new, is_cached, finds)
