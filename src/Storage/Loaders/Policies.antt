-- ===== src/Storage/Loaders/Policies.antt =====
-- storage/src/policy.rs.
use authust.Prelude.{String, Option, none, some, List, [], ◌∷◌}
use authust.Prelude.Res.{Res, ok, panic, ◌>>=◌, expect}
use authust.Model.Query.{I32, PolicyQuery, UniqueQuery}
use authust.Model.Policy.{Policy, PolicyKind, PolicyKindSimple}
use authust.Storage.Sql.{
  Postgres, Param, StorageError, R, from_pool, prepared, get_enum, policy_by_id, policy_by_slug,
  policy_all_ids, policy_password_expiration_by_id, policy_expression_by_id,
}
use authust.Storage.Loaders.Common.{Executor, optional_row, ids_of_rows}

-- The labels of the derived `FromSql` of `PolicyKindSimple`.
abbrev pub policy_kinds : List (String × PolicyKindSimple)
policy_kinds =
    ("password_expiry", PolicyKindSimple.password_expiry)
    ∷ ("password_strength", PolicyKindSimple.password_strength)
    ∷ ("expression", PolicyKindSimple.expression)
    ∷ []

module _ {Row P G : Type 0} (pg : Postgres Row P G) where
  unfoldable pub password_expiry_policy : I32 → R pg PolicyKind
  password_expiry_policy id = do
    row ← prepared pg pg.query_one policy_password_expiration_by_id (Param.int id ∷ [])
    max_age ← expect (pg.get_i32 "max_age" row)
    ok (PolicyKind.password_expiry max_age)

  unfoldable pub password_strength_policy : I32 → R pg PolicyKind
  password_strength_policy _ = ok PolicyKind.password_strength

  unfoldable pub expression_policy : I32 → R pg PolicyKind
  expression_policy id = do
    row ← prepared pg pg.query_one policy_expression_by_id (Param.int id ∷ [])
    expression ← expect (pg.get_text "expression" row)
    ok (PolicyKind.expression expression)

  -- The `match` of `from_row`.
  unfoldable pub policy_kind : PolicyKindSimple → Row → R pg PolicyKind
  unfolding password_expiry_policy password_strength_policy expression_policy
  policy_kind PolicyKindSimple.password_expiry row = do
    id ← expect (pg.get_i32 "password_expiration" row)
    password_expiry_policy id
  policy_kind PolicyKindSimple.password_strength row = do
    id ← expect (pg.get_i32 "password_strength" row)
    password_strength_policy id
  policy_kind PolicyKindSimple.expression row = do
    id ← expect (pg.get_i32 "expression" row)
    expression_policy id

  unfoldable pub from_row : Row → R pg Policy
  unfolding policy_kind
  from_row row = do
    simple ← get_enum pg policy_kinds "kind" row
    kind ← policy_kind simple row
    uid ← expect (pg.get_i32 "uid" row)
    slug ← expect (pg.get_text "slug" row)
    ok (record { uid = uid; slug = slug; kind = kind })

  unfoldable pub get_id : Policy → I32
  get_id d = d.uid

  abbrev pub ask : {A : Type 0} → (String → List Param → Res G A) → PolicyQuery → R pg A
  ask query (UniqueQuery.uid uid) = prepared pg query policy_by_id (Param.int uid ∷ [])
  ask query (UniqueQuery.slug slug) = prepared pg query policy_by_slug (Param.text slug ∷ [])

  unfoldable pub find_one : PolicyQuery → R pg Policy
  unfolding from_row
  find_one q = do _ ← from_pool pg.get_conn; row ← ask pg.query_one q; from_row row

  unfoldable pub find_all_ids : Option PolicyQuery → R pg (List I32)
  find_all_ids (some (UniqueQuery.uid id)) = ok (id ∷ [])
  find_all_ids (some (UniqueQuery.slug _)) = panic
  find_all_ids none = do _ ← from_pool pg.get_conn; ids_of_rows pg policy_all_ids

  unfoldable pub find_optional : PolicyQuery → R pg (Option Policy)
  unfolding from_row
  find_optional q = do
    _ ← from_pool pg.get_conn
    row ← ask pg.query_opt q
    optional_row from_row row

  -- `todo!()`.
  unfoldable pub delete : PolicyQuery → R pg (List I32)
  delete _ = panic

  abbrev pub policy_executor : Executor PolicyQuery Policy (StorageError P G)
  policy_executor = record {
    get_id = get_id;
    find_one = find_one;
    find_all_ids = find_all_ids;
    find_optional = find_optional;
    delete = delete;
  }
