-- ===== src/Model/Policy.antt =====
-- model/src/policy.rs.
use authust.Prelude.{String, Bool}
use authust.Model.Query.{I32}

pub data PolicyKind : Type 0 where
  password_expiry : (max_age : I32) → PolicyKind
  password_strength : PolicyKind
  expression : String → PolicyKind

pub data PolicyKindSimple : Type 0 where
  password_expiry password_strength expression : PolicyKindSimple

pub record PartialPolicy : Type 0 where
  pub uid : I32
  pub slug : String
  pub kind : PolicyKindSimple

pub record Policy : Type 0 where
  pub uid : I32
  pub slug : String
  pub kind : PolicyKind

-- `PolicyKindSimple::from(&PolicyKind)`.
unfoldable pub simple_kind : PolicyKind → PolicyKindSimple
simple_kind (PolicyKind.password_expiry max_age) = PolicyKindSimple.password_expiry
simple_kind PolicyKind.password_strength = PolicyKindSimple.password_strength
simple_kind (PolicyKind.expression _) = PolicyKindSimple.expression

-- `PartialPolicy::from(&Policy)`.
unfoldable pub partial_policy : Policy → PartialPolicy
partial_policy p = record { uid = p.uid; slug = p.slug; kind = simple_kind p.kind }

pub data PolicyResult : Type 0 where
  not_applicable : PolicyResult
  value : Bool → PolicyResult
