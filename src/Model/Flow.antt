-- ===== src/Model/Flow.antt =====
-- model/src/flow.rs.
use authust.Prelude.{String, Bool, List}
use authust.Model.Query.{I16, I32, PolicyQuery, StageQuery}
use authust.Model.User.{Uuid}

pub data AuthenticationRequirement : Type 0 where
  superuser required none ignored : AuthenticationRequirement

pub data FlowDesignation : Type 0 where
  invalidation authentication authorization enrollment : FlowDesignation
  recovery unenrollment configuration : FlowDesignation

pub data FlowBindingKind : Type 0 where
  group : Uuid → FlowBindingKind
  user : Uuid → FlowBindingKind
  policy : PolicyQuery → FlowBindingKind

pub record FlowBinding : Type 0 where
  pub enabled : Bool
  pub negate : Bool
  pub order : I16
  pub kind : FlowBindingKind

pub record FlowEntry : Type 0 where
  pub ordering : I16
  pub bindings : List FlowBinding
  pub stage : StageQuery

pub record Flow : Type 0 where
  pub uid : I32
  pub slug : String
  pub title : String
  pub designation : FlowDesignation
  pub authentication : AuthenticationRequirement
  pub bindings : List FlowBinding
  pub entries : List FlowEntry
