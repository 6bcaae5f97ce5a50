-- ===== src/Policies/Api.antt =====
-- server/src/api/v1/policy.rs: the handlers of policies, which run for an admin session.
use authust.Prelude.{
  ℕ, String, Option, none, some, List, [], ◌∷◌, ◌++◌, ◌+◌, length, ltb, if◌then◌else◌,
}
use authust.Prelude.Int.{pos, ltb_ℤ}
use authust.Prelude.Res.{Res, ok, err, panic}
use authust.Model.Query.{I32}
use authust.Model.Policy.{PolicyKind, PolicyKindSimple, PartialPolicy, simple_kind}
use authust.PolicyEngine.Uri.{Scope}
use authust.PolicyEngine.Script.{
  Engine, Bytes, Compiled, invalid_base64, parse, compile, encode_base64,
}
use authust.Api.Error.{Api, ApiErrorKind, PgError, from_postgres, axum, pool_error}
use authust.Api.Monad.{M, ◌>>=◌, lift, pure, convert}
use authust.Policies.Service.{dummy_scope}

-- The statements that create a policy; the last two answer with the number of rows.
pub data PolicyStatement : Type 0 where
  insert_policy : (slug : String) (kind : PolicyKindSimple) → PolicyStatement
  insert_expiration : (max_age : I32) → PolicyStatement
  insert_expression : (expression : String) → PolicyStatement
  set_expiration : (sub_uid uid : I32) → PolicyStatement
  set_expression : (sub_uid uid : I32) → PolicyStatement

-- What the running transaction has done, and what is committed; the last statement comes first.
pub record Tables : Type 0 where
  pub pending : List PolicyStatement
  pub committed : List PolicyStatement

-- The pool and PostgreSQL. `run` prepares a statement and runs it after those before it in the
-- transaction; its answer is the column `uid` of `returning uid`.
pub record Connection : Type 0 where
  pub connect : Res String (Unit {0})
  pub begin : Res PgError (Unit {0})
  pub run : List PolicyStatement → PolicyStatement → Res PgError I32
  pub commit : Res PgError (Unit {0})

-- The answers of the handlers, with the status code that they have.
pub data Answer : Type 0 where
  created : PartialPolicy → Answer
  bad_request : String → Answer
  payload_too_large : String → Answer
  internal_server_error : Answer

abbrev pub H : Type 0 → Type 0
H = M Tables

-- `MAX_EXPRESSION_LEN`.
abbrev pub max_expression_len : ℕ
max_expression_len = 2048

-- The loop over the body's chunks; a chunk that fails ends the handler with an error, and `none` is the
-- early return of a body that is too large.
unfoldable pub read_body : List (Res String Bytes) → Bytes → Api (Option Bytes)
read_body [] bytes = ok (some bytes)
read_body (err e ∷ _) bytes = err (axum e)
read_body (panic ∷ _) bytes = panic
read_body (ok chunk ∷ chunks) bytes =
    let rest = read_body chunks (bytes ++ chunk) in
    if ltb max_expression_len (length bytes + length chunk) then ok none else rest

module _ (db : Connection) where
  abbrev pub ran : PolicyStatement → Res PgError I32 → H I32
  ran statement (ok uid) s = (ok uid, record s { pending = statement ∷ s.pending })
  ran statement (err e) s = (err (from_postgres e), s)
  ran statement panic s = (panic, s)

  abbrev pub run : PolicyStatement → H I32
  run statement s = ran statement (db.run s.pending statement) s

  abbrev pub begun : Res PgError (Unit {0}) → H (Unit {0})
  begun (ok _) s = (ok tt, record s { pending = [] })
  begun (err e) s = (err (from_postgres e), s)
  begun panic s = (panic, s)

  -- `state.defaults().connection()` and `transaction()`.
  abbrev pub transaction : H (Unit {0})
  transaction = do _ ← lift (convert pool_error db.connect); begun db.begin

  abbrev pub committed_by : Res PgError (Unit {0}) → H (Unit {0})
  committed_by (ok _) s = (ok tt, record { pending = []; committed = s.pending ++ s.committed })
  committed_by (err e) s = (err (from_postgres e), s)
  committed_by panic s = (panic, s)

  abbrev pub commit : H (Unit {0})
  commit = committed_by db.commit

  -- The row of the kind, and the reference to it.
  abbrev pub create_sub : PolicyKind → I32 → H (Unit {0})
  create_sub (PolicyKind.password_expiry max_age) uid = do
    sub_uid ← run (insert_expiration max_age)
    _ ← run (set_expiration sub_uid uid)
    pure tt
  create_sub PolicyKind.password_strength uid = lift panic
  create_sub (PolicyKind.expression expression) uid = do
    sub_uid ← run (insert_expression expression)
    _ ← run (set_expression sub_uid uid)
    pure tt

  -- `create`.
  unfoldable pub create : String → PolicyKind → H PartialPolicy
  unfolding simple_kind
  create slug kind = do
    uid ← run (insert_policy slug (simple_kind kind))
    _ ← create_sub kind uid
    pure (record { uid = uid; slug = slug; kind = simple_kind kind })

  -- A transaction that is dropped without a commit is rolled back.
  abbrev pub rolled_back : Res ApiErrorKind Answer × Tables → Res ApiErrorKind Answer × Tables
  rolled_back r = (r.0, record r.1 { pending = [] })

  abbrev pub store : String → PolicyKind → H Answer
  store slug kind = do partial ← create slug kind; _ ← commit; pure (created partial)

  -- `create_expiration`.
  unfoldable pub create_expiration : String → I32 → H Answer
  unfolding create
  create_expiration slug max_age s =
      if ltb_ℤ max_age (pos 0)
      then (ok (bad_request "max_age must be positive"), s)
      else rolled_back ((transaction >>= λ _. store slug (PolicyKind.password_expiry max_age)) s)

  module _ {AST ParseError : Type 0} (engine : Engine AST ParseError Scope)
      (show : ParseError → String) where
    abbrev pub if_compiled : String → String → Compiled engine AST → H Answer
    if_compiled slug expression (ok _) = store slug (PolicyKind.expression expression)
    if_compiled slug expression (err invalid_base64) = pure internal_server_error
    if_compiled slug expression (err (parse e)) = pure (bad_request (show e))
    if_compiled slug expression panic = lift panic

    abbrev pub if_utf8 : String → Option String → H Answer
    if_utf8 slug none = pure (bad_request "Requset body must be utf8")
    if_utf8 slug (some text) =
        let expression = encode_base64 engine text in
        if_compiled slug expression (compile engine expression dummy_scope)

    abbrev pub if_read : String → Option Bytes → H Answer
    if_read slug none = pure (payload_too_large "Request body too large")
    if_read slug (some bytes) = if_utf8 slug (engine.from_utf8 bytes)

    -- `create_expression`; the chunks are those of the body's stream.
    unfoldable pub create_expression : String → List (Res String Bytes) → H Answer
    unfolding read_body create encode_base64 compile dummy_scope
    create_expression slug chunks s =
        rolled_back ((do _ ← transaction; body ← lift (read_body chunks []); if_read slug body) s)
