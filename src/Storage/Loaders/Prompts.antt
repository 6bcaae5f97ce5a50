-- ===== src/Storage/Loaders/Prompts.antt =====
-- storage/src/prompt.rs.
use authust.Prelude.{String, Option, none, some, List, [], ◌∷◌}
use authust.Prelude.Res.{ok, panic, ◌>>=◌, expect}
use authust.Model.Query.{I32, PromptQuery, UidQuery}
use authust.Model.Prompt.{
  Prompt, PromptKind, username, email, password, text, text_read_only, signed_number,
  unsigned_number, checkbox, switch, date, date_time, seperator, static, locale,
}
use authust.Storage.Sql.{
  Postgres, Param, StorageError, R, from_pool, prepared, get_enum, prompt_by_id, prompt_all_ids,
}
use authust.Storage.Loaders.Common.{Executor, optional_row, ids_of_rows}

-- The labels of the derived `FromSql` of `PromptKind`.
abbrev pub prompt_kinds : List (String × PromptKind)
prompt_kinds =
    ("username", username)
    ∷ ("email", email)
    ∷ ("password", password)
    ∷ ("text", text)
    ∷ ("text_read_only", text_read_only)
    ∷ ("signed_number", signed_number)
    ∷ ("unsigned_number", unsigned_number)
    ∷ ("checkbox", checkbox)
    ∷ ("switch", switch)
    ∷ ("date", date)
    ∷ ("date_time", date_time)
    ∷ ("seperator", seperator)
    ∷ ("static", static)
    ∷ ("locale", locale)
    ∷ []

module _ {Row P G : Type 0} (pg : Postgres Row P G) where
  unfoldable pub from_row : Row → R pg Prompt
  from_row row = do
    uid ← expect (pg.get_i32 "uid" row)
    field_key ← expect (pg.get_text "field_key" row)
    label ← expect (pg.get_text "label" row)
    kind ← get_enum pg prompt_kinds "kind" row
    placeholder ← expect (pg.get_optional_text "placeholder" row)
    required ← expect (pg.get_bool "required" row)
    help_text ← expect (pg.get_optional_text "help_text" row)
    ok (record {
      uid = uid;
      field_key = field_key;
      label = label;
      kind = kind;
      placeholder = placeholder;
      required = required;
      help_text = help_text;
    })

  unfoldable pub get_id : Prompt → I32
  get_id d = d.uid

  unfoldable pub find_one : PromptQuery → R pg Prompt
  unfolding from_row
  find_one (UidQuery.uid uid) = do
    _ ← from_pool pg.get_conn
    row ← prepared pg pg.query_one prompt_by_id (Param.int uid ∷ [])
    from_row row

  unfoldable pub find_all_ids : Option PromptQuery → R pg (List I32)
  find_all_ids (some (UidQuery.uid id)) = ok (id ∷ [])
  find_all_ids none = do _ ← from_pool pg.get_conn; ids_of_rows pg prompt_all_ids

  unfoldable pub find_optional : PromptQuery → R pg (Option Prompt)
  unfolding from_row
  find_optional (UidQuery.uid uid) = do
    _ ← from_pool pg.get_conn
    row ← prepared pg pg.query_opt prompt_by_id (Param.int uid ∷ [])
    optional_row from_row row

  -- `todo!()`.
  unfoldable pub delete : PromptQuery → R pg (List I32)
  delete _ = panic

  abbrev pub prompt_executor : Executor PromptQuery Prompt (StorageError P G)
  prompt_executor = record {
    get_id = get_id;
    find_one = find_one;
    find_all_ids = find_all_ids;
    find_optional = find_optional;
    delete = delete;
  }
