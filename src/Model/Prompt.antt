-- ===== src/Model/Prompt.antt =====
-- model/src/prompt.rs.
use authust.Prelude.{String, Bool, Option}
use authust.Model.Query.{I16, I32, PromptQuery}

pub record PromptBinding : Type 0 where
  pub order : I16
  pub prompt : PromptQuery

pub data PromptKind : Type 0 where
  username email password text text_read_only signed_number unsigned_number : PromptKind
  checkbox switch date date_time seperator static locale : PromptKind

pub record Prompt : Type 0 where
  pub uid : I32
  pub field_key : String
  pub label : String
  pub kind : PromptKind
  pub placeholder : Option String
  pub required : Bool
  pub help_text : Option String
