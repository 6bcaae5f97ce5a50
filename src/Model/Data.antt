-- ===== src/Model/Data.antt =====
-- model/src/data.rs: what the client is sent.
use authust.Prelude.{String, Bool, List, Option}
use authust.Model.Error.{SubmissionError}
use authust.Model.Stage.{UserField}
use authust.Model.User.{PendingUser}

pub record PasswordComponentData : Type 0 where
  pub recovery_url : String

pub record Source : Type 0 where
  pub name : String
  pub icon_url : String

pub record Sources : Type 0 where
  pub sources : List Source
  pub show_source_labels : Bool

pub data FlowComponent : Type 0 where
  access_denied : (message : String) → FlowComponent
  identification :
      (user_fields : List UserField) (sources : Sources) (password : Option PasswordComponentData)
      → FlowComponent
  password : PasswordComponentData → FlowComponent
  redirect : (to : String) → FlowComponent
  error : (message : String) → FlowComponent

pub record FlowInfo : Type 0 where
  pub title : String

pub record FlowData : Type 0 where
  pub flow : FlowInfo
  pub error : Option SubmissionError
  pub pending_user : Option PendingUser
  pub component : FlowComponent
