-- ===== src/Model/Tenant.antt =====
-- model/src/tenant.rs.
use authust.Prelude.{String, Bool, Option}
use authust.Model.Query.{I32, FlowQuery}
use authust.Model.Flow.{
  FlowDesignation, invalidation, authentication, authorization, enrollment, recovery, unenrollment,
  configuration,
}

pub record Tenant : Type 0 where
  pub uid : I32
  pub host : String
  pub default : Bool
  pub title : String
  pub logo : String
  pub favicon : String
  pub invalidation_flow : Option FlowQuery
  pub authentication_flow : Option FlowQuery
  pub authorization_flow : Option FlowQuery
  pub enrollment_flow : Option FlowQuery
  pub recovery_flow : Option FlowQuery
  pub unenrollment_flow : Option FlowQuery
  pub configuration_flow : Option FlowQuery

-- `Tenant::get_flow`; the arm of `Recovery` reads `enrollment_flow`, as in the source.
unfoldable pub get_flow : Tenant → FlowDesignation → Option FlowQuery
get_flow t invalidation = t.invalidation_flow
get_flow t authentication = t.authentication_flow
get_flow t authorization = t.authorization_flow
get_flow t enrollment = t.enrollment_flow
get_flow t recovery = t.enrollment_flow
get_flow t unenrollment = t.unenrollment_flow
get_flow t configuration = t.configuration_flow
