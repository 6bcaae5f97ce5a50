-- ===== src/Storage/Sql.antt =====
-- storage/src/lib.rs: the errors of the loaders, and what they use of the connection pool and of
-- PostgreSQL. The statements are the files of storage/src/sql.
use authust.Prelude.{String, Bool, true, false, Option, none, some, List, [], ◌∷◌}
use authust.Prelude.Eq.{◌==◌, Eq-string}
use authust.Prelude.Res.{Res, ok, err, panic, ◌>>=◌, expect}
use authust.Model.Query.{I16, I32}
use authust.Model.User.{Uuid}

-- `StorageError`, with `From<PoolError>` and `From<tokio_postgres::Error>` as its constructors.
pub data StorageError (PoolError PgError : Type 0) : Type 0 where
  pool : PoolError → StorageError PoolError PgError
  database : PgError → StorageError PoolError PgError

pub data Param : Type 0 where
  int : I32 → Param
  text : String → Param

-- What the code uses of deadpool and tokio_postgres. A getter gives nothing where `Row::get`
-- panics: on a missing column, on a NULL for a type that has none, and on a value of another type.
-- The value of a PostgreSQL enum is its label.
pub record Postgres (Row PoolError PgError : Type 0) : Type 0 where
  pub get_conn : Res PoolError (Unit {0})
  pub prepare : String → Res PgError (Unit {0})
  pub query : String → List Param → Res PgError (List Row)
  pub query_one : String → List Param → Res PgError Row
  pub query_opt : String → List Param → Res PgError (Option Row)
  pub get_i16 : String → Row → Option I16
  pub get_i32 : String → Row → Option I32
  pub get_bool : String → Row → Option Bool
  pub get_text : String → Row → Option String
  pub get_label : String → Row → Option String
  pub get_labels : String → Row → Option (List String)
  pub get_optional_i32 : String → Row → Option (Option I32)
  pub get_optional_text : String → Row → Option (Option String)
  pub get_optional_uuid : String → Row → Option (Option Uuid)

module _ {P G : Type 0} where
  -- The conversions of the `?` operator.
  abbrev pub from_pool {ℓ} : {A : Type ℓ} → Res P A → Res (StorageError P G) A
  from_pool (ok a) = ok a
  from_pool (err e) = err (pool e)
  from_pool panic = panic

  abbrev pub from_database {ℓ} : {A : Type ℓ} → Res G A → Res (StorageError P G) A
  from_database (ok a) = ok a
  from_database (err e) = err (database e)
  from_database panic = panic

-- `into_iter().map(f).collect()`, where `f` may panic.
abbrev pub map_or_panic {ℓ} : {E A B : Type ℓ} → (A → Res E B) → List A → Res E (List B)
map_or_panic f [] = ok []
map_or_panic f (x ∷ xs) = do y ← f x; ys ← map_or_panic f xs; ok (y ∷ ys)

-- The derived `FromSql` of an enum: the value whose label it is.
abbrev pub from_label : {A : Type 0} → List (String × A) → String → Option A
from_label [] s = none
from_label ((label, a) ∷ rest) s =
    let next = from_label rest s in elim (label == s) [ true ↦ some a | false ↦ next ]

module _ {Row P G : Type 0} (pg : Postgres Row P G) where
  abbrev pub R : Type 0 → Type 0
  R = Res (StorageError P G)

  -- `conn.query_one(&conn.prepare_cached(sql).await?, args).await?`, and its fellows.
  abbrev pub prepared : {A : Type 0} → (String → List Param → Res G A) → String → List Param → R A
  prepared ask sql args = from_database (pg.prepare sql) >>= λ _. from_database (ask sql args)

  -- `row.get(column)` of an enum.
  abbrev pub get_enum : {E A : Type 0} → List (String × A) → String → Row → Res E A
  get_enum labels column row = do
    label ← expect (pg.get_label column row)
    expect (from_label labels label)

-- storage/src/sql.
abbrev pub flow_by_id : String
flow_by_id = "select * from flows where uid = $1"

abbrev pub flow_by_slug : String
flow_by_slug = "select * from flows where slug = $1"

abbrev pub flow_all_ids : String
flow_all_ids = "select uid from flows"

abbrev pub flow_bindings_by_flow : String
flow_bindings_by_flow = "select * from flow_bindings where flow = $1"

abbrev pub flow_bindings_by_entry : String
flow_bindings_by_entry = "select * from flow_bindings where entry = $1"

abbrev pub flow_entries_by_flow : String
flow_entries_by_flow = "select * from flow_entries where flow = $1"

abbrev pub stage_by_id : String
stage_by_id = "select * from stages where uid = $1"

abbrev pub stage_by_slug : String
stage_by_slug = "select * from stages where slug = $1"

abbrev pub stage_all_ids : String
stage_all_ids = "select uid from stages"

abbrev pub stage_identification_by_id : String
stage_identification_by_id = "select * from identification_stages where uid = $1"

-- An empty file.
abbrev pub stage_consent_by_id : String
stage_consent_by_id = ""

abbrev pub stage_prompt_bindings_by_stage : String
stage_prompt_bindings_by_stage = "select * from stage_prompt_bindings where stage = $1;"

abbrev pub policy_by_id : String
policy_by_id = "select * from policies where uid = $1"

abbrev pub policy_by_slug : String
policy_by_slug = "select * from policies where slug = $1"

abbrev pub policy_all_ids : String
policy_all_ids = "select uid from policies"

abbrev pub policy_password_expiration_by_id : String
policy_password_expiration_by_id = "select * from password_expiration_policies where uid = $1"

abbrev pub policy_expression_by_id : String
policy_expression_by_id = "select * from expression_policies where uid = $1"

abbrev pub prompt_by_id : String
prompt_by_id = "select * from prompts where uid = $1"

abbrev pub prompt_all_ids : String
prompt_all_ids = "select uid from prompts"

abbrev pub tenant_by_id : String
tenant_by_id = "select * from tenants where uid = $1"

abbrev pub tenant_by_host : String
tenant_by_host = "select * from tenants where host = $1"

abbrev pub tenant_all_ids : String
tenant_all_ids = "select uid from tenants"
