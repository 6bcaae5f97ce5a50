-- ===== src/Interface/Startup.antt =====
-- server/src/main.rs: `start_server`, up to the state that the router serves.
use authust.Prelude.{String, Option}
use authust.Prelude.Res.{Res, ok, ◌>>=◌}
use authust.Model.Tenant.{Tenant}
use authust.Storage.Reverse.{Sources}
use authust.Storage.Sql.{Postgres, StorageError}
use authust.Storage.Loaders.Datacache.{Datacache}
use authust.Storage.Loaders.Manager.{create_manager}
use authust.Api.Session.{Tokens}
use authust.Interface.Defaults.{expect_ok, preload, new_defaults}

-- `InternalSharedState`: the executor by its cache of executions, the policy service by its cache of
-- scripts, the defaults by the default tenant. The service of users has no state.
pub record SharedState (E C A : Type 0) : Type 0 where
  pub executions : C
  pub auth_data : Tokens
  pub storage : Sources E
  pub tenant : Option Tenant
  pub asts : A

-- The new caches of moka, and `EncodingKey::from_secret` with `DecodingKey::from_secret`.
pub record Fresh (C A : Type 0) : Type 0 where
  pub executions : C
  pub asts : A
  pub from_secret : String → Tokens

module _ {Row P G C A : Type 0} (pg : Postgres Row P G) (dc : Datacache) (fresh : Fresh C A) where
  unfoldable pub start_server : (secret : String) → Res ⊥ (SharedState (StorageError P G) C A)
  unfolding create_manager preload new_defaults
  start_server secret = do
    _ ← expect_ok (preload (create_manager pg dc))
    tenant ← new_defaults pg (create_manager pg dc)
    ok (record {
      executions = fresh.executions;
      auth_data = fresh.from_secret secret;
      storage = create_manager pg dc;
      tenant = tenant;
      asts = fresh.asts;
    })
