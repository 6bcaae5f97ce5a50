-- ===== src/Interface/Defaults.antt =====
-- server/src/main.rs: the loading of the tables at start-up, the default tenant, and the answer to a
-- request that takes too long.
use authust.Prelude.{ℕ, String, Bool, Option, none, some, [], if◌then◌else◌}
use Prim.Native.String.{◌++◌}
use authust.Prelude.Res.{Res, ok, err, panic, ◌>>=◌, expect}
use authust.Model.Query.{UniqueQuery}
use authust.Model.Tenant.{Tenant}
use authust.Storage.Reverse.{Sources}
use authust.Storage.Sql.{Postgres}

-- `expect` on a result.
abbrev pub expect_ok : {E E' A : Type 0} → Res E A → Res E' A
expect_ok (ok a) = ok a
expect_ok (err e) = panic
expect_ok panic = panic

-- `preload`: every storage of the manager reads all that it has, and the first error ends it.
unfoldable pub preload : {E : Type 0} → Sources E → Res E (Unit {0})
preload storage = do
  _ ← storage.flow.find_all none
  _ ← storage.stage.find_all none
  _ ← storage.policy.find_all none
  _ ← storage.prompt.find_all none
  _ ← storage.tenant.find_all none
  ok tt

abbrev pub select_default : String
select_default = "select uid from tenants where is_default = true"

module _ {Row P G E : Type 0} (pg : Postgres Row P G) (storage : Sources E) where
  abbrev pub default_of : Option Row → Res ⊥ (Option Tenant)
  default_of none = ok none
  default_of (some row) = do
    uid ← expect (pg.get_i32 "uid" row)
    expect_ok (storage.tenant.find_optional (UniqueQuery.uid uid))

  -- `Defaults::find_default`.
  unfoldable pub find_default : Res ⊥ (Option Tenant)
  find_default = do
    _ ← expect_ok (pg.prepare select_default)
    row ← expect_ok (pg.query_opt select_default [])
    default_of row

  -- The tenant of `Defaults::new`.
  unfoldable pub new_defaults : Res ⊥ (Option Tenant)
  unfolding find_default
  new_defaults = do _ ← expect_ok pg.get_conn; find_default

-- `handle_timeout_error`: the status code and the text.
unfoldable pub handle_timeout_error : (is_elapsed : Bool) → (message : String) → ℕ × String
handle_timeout_error is_elapsed message =
    if is_elapsed
    then (408, "Request took too long")
    else (500, "Unhandled internal error: " ++ message)
