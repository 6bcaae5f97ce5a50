-- ===== src/Scenarios/Database.antt =====
-- A small database: a flow with two bindings and an entry, a prompt stage, a policy, a prompt and a
-- tenant. Its statements are answered by a search in the rows of a table.
use authust.Prelude.{
  String, Bool, true, false, Option, none, some, List, [], ◌∷◌, ◌≡◌, refl, sym, ap, ◌∙◌, inl, inr,
  if◌then◌else◌,
}
use authust.Prelude.Int.{pos}
use authust.Prelude.Eq.{◌==◌, ==_cases, ==_refl, Eq-int, Eq-string, Eq-nat}
use authust.Prelude.Maps.{lookup}
use authust.Prelude.Res.{Res, ok, err, panic}
use authust.Model.Query.{I16, I32, UniqueQuery}
use authust.Model.User.{Uuid}
use authust.Storage.Sql.{
  Postgres, Param, StorageError, flow_by_id, flow_by_slug, flow_bindings_by_flow,
  flow_bindings_by_entry, flow_entries_by_flow, stage_by_id, stage_by_slug,
  stage_prompt_bindings_by_stage, policy_by_id, policy_by_slug, policy_expression_by_id,
  prompt_by_id, tenant_by_id, tenant_by_host,
}
use authust.Storage.Loaders.Table.{IsTable}

pub data Cell : Type 0 where
  null : Cell
  int2 int4 : I32 → Cell
  bool : Bool → Cell
  varchar enum : String → Cell
  enums : List String → Cell
  uuid : Uuid → Cell

abbrev pub Row : Type 0
Row = List (String × Cell)

abbrev pub as_int2 : Option Cell → Option I16
as_int2 (some (int2 i)) = some i
as_int2 _ = none

abbrev pub as_int4 : Option Cell → Option I32
as_int4 (some (int4 i)) = some i
as_int4 _ = none

abbrev pub as_bool : Option Cell → Option Bool
as_bool (some (bool b)) = some b
as_bool _ = none

abbrev pub as_text : Option Cell → Option String
as_text (some (varchar s)) = some s
as_text _ = none

abbrev pub as_label : Option Cell → Option String
as_label (some (enum s)) = some s
as_label _ = none

abbrev pub as_labels : Option Cell → Option (List String)
as_labels (some (enums ss)) = some ss
as_labels _ = none

abbrev pub as_optional_int4 : Option Cell → Option (Option I32)
as_optional_int4 (some null) = some none
as_optional_int4 (some (int4 i)) = some (some i)
as_optional_int4 _ = none

abbrev pub as_optional_text : Option Cell → Option (Option String)
as_optional_text (some null) = some none
as_optional_text (some (varchar s)) = some (some s)
as_optional_text _ = none

abbrev pub as_optional_uuid : Option Cell → Option (Option Uuid)
as_optional_uuid (some null) = some none
as_optional_uuid (some (uuid u)) = some (some u)
as_optional_uuid _ = none

abbrev pub is_param : Option Cell → Param → Bool
is_param (some (int4 i)) (Param.int j) = i == j
is_param (some (varchar s)) (Param.text t) = s == t
is_param _ _ = false

-- A statement names a table, a column, and asks for the rows with the parameter there, or for all.
abbrev pub Table : Type 0
Table = String × List Row

abbrev pub selected : String → Param → List Row → List Row
selected column p [] = []
selected column p (r ∷ rs) =
    let rest = selected column p rs in if is_param (lookup column r) p then r ∷ rest else rest

abbrev pub select : Option Table → List Param → Res String (List Row)
select (some (column, rows)) (p ∷ []) = ok (selected column p rows)
select (some (column, rows)) [] = ok rows
select _ _ = err "syntax error"

abbrev pub first : Res String (List Row) → Res String (Option Row)
first (ok []) = ok none
first (ok (r ∷ _)) = ok (some r)
first (err e) = err e
first panic = panic

abbrev pub required : Res String (Option Row) → Res String Row
required (ok (some r)) = ok r
required (ok none) = err "no row"
required (err e) = err e
required panic = panic

abbrev pub flow_row : Row
flow_row =
    ("uid", int4 (pos 1))
    ∷ ("slug", varchar "login")
    ∷ ("title", varchar "Log in")
    ∷ ("designation", enum "authentication")
    ∷ ("authentication", enum "none")
    ∷ []

abbrev pub stage_row : Row
stage_row =
    ("uid", int4 (pos 5))
    ∷ ("slug", varchar "ask")
    ∷ ("kind", enum "prompt")
    ∷ ("timeout", int4 (pos 60))
    ∷ []

abbrev pub policy_row : Row
policy_row =
    ("uid", int4 (pos 7))
    ∷ ("slug", varchar "local")
    ∷ ("kind", enum "expression")
    ∷ ("expression", int4 (pos 2))
    ∷ []

abbrev pub prompt_row : Row
prompt_row =
    ("uid", int4 (pos 9))
    ∷ ("field_key", varchar "name")
    ∷ ("label", varchar "Name")
    ∷ ("kind", enum "username")
    ∷ ("placeholder", null)
    ∷ ("required", bool true)
    ∷ ("help_text", null)
    ∷ []

abbrev pub tenant_row : Row
tenant_row =
    ("uid", int4 (pos 3))
    ∷ ("host", varchar "example.org")
    ∷ ("is_default", bool true)
    ∷ ("title", varchar "Example")
    ∷ ("logo", varchar "")
    ∷ ("favicon", varchar "")
    ∷ ("invalidation_flow", null)
    ∷ ("authentication_flow", int4 (pos 1))
    ∷ ("authorization_flow", null)
    ∷ ("enrollment_flow", null)
    ∷ ("recovery_flow", null)
    ∷ ("unenrollment_flow", null)
    ∷ ("configuration_flow", null)
    ∷ []

abbrev pub entry_row : Row
entry_row =
    ("uid", int4 (pos 4))
    ∷ ("flow", int4 (pos 1))
    ∷ ("stage", int4 (pos 5))
    ∷ ("ordering", int2 (pos 0))
    ∷ []

-- A binding of a flow. The last argument names the column of the negation.
abbrev pub binding_row : I32 → I16 → Cell → Cell → String → Row
binding_row flow order policy user negate =
    ("flow", int4 flow)
    ∷ ("entry", null)
    ∷ ("policy", policy)
    ∷ ("group_binding", null)
    ∷ ("user_binding", user)
    ∷ ("ordering", int2 order)
    ∷ ("enabled", bool true)
    ∷ (negate, bool false)
    ∷ []

abbrev pub table : String → String → List Row → String × Table
table sql column rows = (sql, (column, rows))

abbrev pub tables : List Row → List (String × Table)
tables bindings =
    table flow_by_id "uid" (flow_row ∷ [])
    ∷ table flow_by_slug "slug" (flow_row ∷ [])
    ∷ table flow_bindings_by_flow "flow" bindings
    ∷ table flow_bindings_by_entry "entry" bindings
    ∷ table flow_entries_by_flow "flow" (entry_row ∷ [])
    ∷ table stage_by_id "uid" (stage_row ∷ [])
    ∷ table stage_by_slug "slug" (stage_row ∷ [])
    ∷ table stage_prompt_bindings_by_stage "stage" (
        (("stage", int4 (pos 5)) ∷ ("prompt", int4 (pos 9)) ∷ ("ordering", int2 (pos 1)) ∷ []) ∷ [])
    ∷ table policy_by_id "uid" (policy_row ∷ [])
    ∷ table policy_by_slug "slug" (policy_row ∷ [])
    ∷ table policy_expression_by_id "uid"
        ((("uid", int4 (pos 2)) ∷ ("expression", varchar "dHJ1ZQ") ∷ []) ∷ [])
    ∷ table prompt_by_id "uid" (prompt_row ∷ [])
    ∷ table tenant_by_id "uid" (tenant_row ∷ [])
    ∷ table tenant_by_host "host" (tenant_row ∷ [])
    ∷ table "select uid from tenants where is_default = true" "uid" (tenant_row ∷ [])
    ∷ []

abbrev pub database : List Row → Postgres Row String String
database bindings = record {
  get_conn = ok tt;
  prepare = λ sql. ok tt;
  query = λ sql args. select (lookup sql (tables bindings)) args;
  query_one = λ sql args. required (first (select (lookup sql (tables bindings)) args));
  query_opt = λ sql args. first (select (lookup sql (tables bindings)) args);
  get_i16 = λ column row. as_int2 (lookup column row);
  get_i32 = λ column row. as_int4 (lookup column row);
  get_bool = λ column row. as_bool (lookup column row);
  get_text = λ column row. as_text (lookup column row);
  get_label = λ column row. as_label (lookup column row);
  get_labels = λ column row. as_labels (lookup column row);
  get_optional_i32 = λ column row. as_optional_int4 (lookup column row);
  get_optional_text = λ column row. as_optional_text (lookup column row);
  get_optional_uuid = λ column row. as_optional_uuid (lookup column row);
}

-- As the code expects the table of bindings, and as the migration creates it.
abbrev pub expected : Postgres Row String String
expected = database (
    binding_row (pos 1) (pos 2) (int4 (pos 7)) null "negate"
    ∷ binding_row (pos 1) (pos 1) (int4 (pos 7)) (uuid 11) "negate"
    ∷ [])

abbrev pub migrated : Postgres Row String String
migrated = database (binding_row (pos 2) (pos 1) (int4 (pos 7)) null "negate_result" ∷ [])

-- A table of one row.
abbrev pub one_row :
    Row → I32 → String → UniqueQuery → Res (StorageError String String) (Option Row)
one_row row i s (UniqueQuery.uid j) = if i == j then ok (some row) else ok none
one_row row i s (UniqueQuery.slug t) = if s == t then ok (some row) else ok none

one_row-is :
    (row row' : Row) (i : I32) (s : String) (q : UniqueQuery)
    → one_row row i s q ≡ ok (some row')
    → row ≡ row'
one_row-is row row' i s (UniqueQuery.uid j) h = elim (==_cases i j) [
  | inl (t, _) ↦ let found : one_row row i s (UniqueQuery.uid j) ≡ ok (some row) = rw t in cc
  | inr (f, _) ↦ let found : one_row row i s (UniqueQuery.uid j) ≡ ok none = rw f in cc
]
one_row-is row row' i s (UniqueQuery.slug j) h = elim (==_cases s j) [
  | inl (t, _) ↦ let found : one_row row i s (UniqueQuery.slug j) ≡ ok (some row) = rw t in cc
  | inr (f, _) ↦ let found : one_row row i s (UniqueQuery.slug j) ≡ ok none = rw f in cc
]

one_row_key :
    (t : Bool) (row row' : Row)
    → ◌≡◌ {A = Res (StorageError String String) (Option Row)}
        (if t then ok (some row) else ok none)
        (ok (some row'))
    → t ≡ true
one_row_key true row row' h = refl
one_row_key false row row' h = cc

pub one_row-IsTable :
    (row : Row) (i : I32) (s : String) (uid : Row → Option I32) (slug : Row → Option String)
    → uid row ≡ some i
    → slug row ≡ some s
    → IsTable (one_row row i s) uid slug
one_row-IsTable row i s uid slug is_uid is_slug = record {
  where_uid = λ j row' h.
      let same = one_row-is row row' i s (UniqueQuery.uid j) h in
      let t = (Eq-int.beq_iff i j).0 (one_row_key (i == j) row row' h) in
      rw (sym same) (is_uid ∙ ap (λ x. some x) t);
  where_slug = λ t row' h.
      let same = one_row-is row row' i s (UniqueQuery.slug t) h in
      let t' = (Eq-string.beq_iff s t).0 (one_row_key (s == t) row row' h) in
      rw (sym same) (is_slug ∙ ap (λ x. some x) t');
  unique_uid = λ q row' j h at.
      let same : row ≡ row' = one_row-is row row' i s q h in
      let at' : uid row ≡ some j = rw same at in
      let t : i ≡ j = cc in rw (sym same, sym t, ==_refl i);
  unique_slug = λ q row' t h at.
      let same : row ≡ row' = one_row-is row row' i s q h in
      let at' : slug row ≡ some t = rw same at in
      let t' : s ≡ t = cc in rw (sym same, sym t', ==_refl s);
}
