-- ===== src/Executor/Externals.antt =====
-- What the checks use: the clock's arithmetic (time), the compiled policies of the policy service, and
-- the script engine (rhai).
use authust.Prelude.{Bool, Option}
use authust.Prelude.Res.{Res}
use authust.Prelude.Int.{ℤ}
use authust.Model.Query.{PolicyQuery}
use authust.Model.User.{OffsetDateTime}
use authust.PolicyEngine.Uri.{Scope}

pub record Externals : Type 1 where
  -- `time::Duration`, its difference of two time stamps, `Duration::seconds`, and `<`.
  pub Duration : Type 0
  pub since : OffsetDateTime → OffsetDateTime → Duration
  pub seconds : ℤ → Duration
  pub lt : Duration → Duration → Bool
  -- `PolicyService::get_ast` (modelled by Policies.Service.get_ast), whose lookup in the storage may
  -- panic; and an evaluation of a script to a Boolean, `none` on a script error.
  pub AST : Type 0
  pub get_ast : PolicyQuery → Res ⊥ (Option AST)
  pub eval : AST → Scope → Option Bool
