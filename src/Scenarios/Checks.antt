-- ===== src/Scenarios/Checks.antt =====
-- The checks of a login flow, and what is shown.
use authust.Prelude.{String, true, Option, none, some, ◌≡◌, ◌↔◌, ◌⊎◌, refl, arith}
use authust.Prelude.Eq.{Eq-int, Eq-string}
use authust.Prelude.Maps.{lookup}
use authust.Prelude.Res.{ok}
use authust.Model.Query.{Eq-unique_query, Eq-uid_query}
use authust.Model.Flow.{FlowEntry}
use authust.Model.Data.{redirect, FlowData}
use authust.Storage.Proxy.{frozen_optional, find_id}
use authust.Executor.State.{FlowExecution, CheckContext, new_context}
use authust.Executor.Entries.{get_entry, lookup_stage, lookup_policy}
use authust.Executor.Checks.{
  negate, deref, into_output, check_authentication, create_scope, message, check_of_kind,
  check_policy, check_one, check_binding, check_bindings, check_all, check,
}
use authust.Executor.Access.{Meets, All, BindingAllows, check_iff}
use authust.Executor.Registry.{freeze}
use authust.Executor.Component.{data_of, flow_data}
use authust.Executor.Shown.{flow_data-pending, flow_data-invalidates}
use authust.Scenarios.Fixtures.{ext, request, alice, pending_alice}
use authust.Executor.Total.{check-Ends}
use authust.Scenarios.Executor.{execution, execution-AllFound}

abbrev ctx : CheckContext
ctx = record { request = request; pending_user = none }

check_iff_example : (check ext execution ctx ≡ ok none) ↔ (
    Meets execution.flow.authentication ctx.request.user
    × All (BindingAllows ext execution ctx) execution.flow.bindings
    × ((entry : FlowEntry) × (get_entry execution ≡ ok entry)
        × All (BindingAllows ext execution ctx) entry.bindings))
check_iff_example = check_iff ext execution ctx

-- The flow is for users that are not logged in, and the policy allows the request.
grants : check ext execution ctx ≡ ok none
unfolding check check_one check_all check_bindings check_binding check_of_kind check_policy
    check_authentication negate deref into_output create_scope message get_entry lookup_policy
    new_context freeze frozen_optional find_id lookup
grants = refl

-- Somebody who is logged in is refused.
refuses :
    check ext execution
      (record { request = record request { user = some alice }; pending_user = none })
    ≡ ok (some "You must not be logged in to access this flow")
unfolding check check_one check_authentication deref into_output message
refuses = refl

abbrev first_page : FlowData
first_page = record {
  flow = record { title = "Login" };
  error = none;
  pending_user = some pending_alice;
  component = redirect "/";
}

-- The execution of a login that has been completed.
abbrev done : FlowExecution
done = record execution {
  context = record execution.context { pending = some pending_alice };
  current_entry_idx = 1;
  is_completed = true;
}

shows : flow_data ext done none ctx ≡ ok (first_page, true)
unfolding flow_data data_of check check_one check_all check_bindings check_binding check_of_kind
    check_policy check_authentication negate deref into_output create_scope message get_entry
    lookup_policy lookup_stage new_context freeze frozen_optional find_id lookup
shows = refl

flow_data-pending_example :
    (done.context.pending ≡ some pending_alice)
    × ((done.is_completed ≡ true) ⊎ (check ext done ctx ≡ ok none))
flow_data-pending_example =
    flow_data-pending ext done none ctx first_page true pending_alice shows refl

flow_data-invalidates_example :
    (done.is_completed ≡ true)
    × ((to : String) × (ctx.request.query.next ≡ some to) × (first_page.component ≡ redirect to))
flow_data-invalidates_example = flow_data-invalidates ext done none ctx first_page true shows refl

check-Ends_example : (answer : Option String) × (check ext execution ctx ≡ ok answer)
check-Ends_example =
    check-Ends ext execution ctx (λ id. (some true, refl)) (omega arith) execution-AllFound (tt, tt)
      (tt, (tt, tt))
