-- ===== src/Storage/Loaders/Common.antt =====
-- What the executors share: their interface of datacache, and the reading of a list of ids.
use authust.Prelude.{String, Option, none, some, List, []}
use authust.Prelude.Res.{Res, ok, ◌>>=◌, expect}
use authust.Model.Query.{I32}
use authust.Storage.Sql.{Postgres, R, map_or_panic, prepared}

-- `DataQueryExecutor`.
pub record Executor (Q D E : Type 0) : Type 0 where
  pub get_id : D → I32
  pub find_one : Q → Res E D
  pub find_all_ids : Option Q → Res E (List I32)
  pub find_optional : Q → Res E (Option D)
  pub delete : Q → Res E (List I32)

-- `match row { Some(row) => Some(from_row(row)?), None => None }`.
abbrev pub optional_row : {E Row D : Type 0} → (Row → Res E D) → Option Row → Res E (Option D)
optional_row from_row none = ok none
optional_row from_row (some row) = do d ← from_row row; ok (some d)

module _ {Row P G : Type 0} (pg : Postgres Row P G) where
  -- `conn.query(sql, &[]).await?.into_iter().map(|row| row.get("uid")).collect()`.
  abbrev pub ids_of_rows : String → R pg (List I32)
  ids_of_rows sql = do
    rows ← prepared pg pg.query sql []
    map_or_panic (λ row. expect (pg.get_i32 "uid" row)) rows
