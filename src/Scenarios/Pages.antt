-- ===== src/Scenarios/Pages.antt =====
-- A page that redirects to a flow, the field store of a context, and a future of the middleware.
use authust.Prelude.{ℕ, String, true, none, some, [], ◌≡◌, ◌↔◌, refl, arith, if◌then◌else◌}
use authust.Prelude.Int.{pos}
use authust.Prelude.Eq.{◌==◌, Eq-string, Eq-nat}
use authust.Prelude.Res.{Res, ok, err}
use authust.Model.Query.{UniqueQuery, Eq-unique_query}
use authust.Model.Flow.{Flow, FlowDesignation, AuthenticationRequirement}
use authust.Model.Tenant.{Tenant}
use authust.Interface.Redirect.{Pages, Response, found, get_flow_page}
use authust.Interface.Found.{Serves, IsTarget, get_flow_page_iff}
use authust.Executor.Fields.{FieldKey, wrong_type, get_typed, insert_typed, get_typed-insert_typed}
use authust.Telemetry.Middleware.{Future, ready, pending, Axum, call}
use authust.Telemetry.Driven.{drive, drive-call, answers}

abbrev login : Flow
login = record {
  uid = pos 1;
  slug = "login";
  title = "Log in";
  designation = FlowDesignation.authentication;
  authentication = AuthenticationRequirement.none;
  bindings = [];
  entries = [];
}

abbrev tenant : Tenant
tenant = record {
  uid = pos 3;
  host = "example.org";
  default = true;
  title = "Example";
  logo = "";
  favicon = "";
  invalidation_flow = none;
  authentication_flow = some (UniqueQuery.uid (pos 1));
  authorization_flow = none;
  enrollment_flow = none;
  recovery_flow = some (UniqueQuery.uid (pos 1));
  unenrollment_flow = none;
  configuration_flow = none;
}

abbrev pages : Pages
pages = record {
  interface_base_uri = none;
  lookup_flow = λ q. if q == UniqueQuery.uid (pos 1) then ok (some login) else ok none;
  lookup_tenant = λ q. ok none;
  default_tenant = some tenant;
}

page_redirects :
    get_flow_page pages {HostRejection = String}
      (λ _. 400)
      (ok "other.org")
      FlowDesignation.authentication
      (some "next=/")
    ≡ ok (found "/flow/login?next=/")
unfolding get_flow_page
page_redirects = refl

-- The tenant's recovery flow is not looked at.
recovery_is_missing :
    get_flow_page pages {HostRejection = String}
      (λ _. 400)
      (ok "other.org")
      FlowDesignation.recovery
      none
    ≡ ok Response.not_found
unfolding get_flow_page
recovery_is_missing = refl

get_flow_page_iff_example :
    (get_flow_page pages {HostRejection = String}
        (λ _. 400)
        (ok "other.org")
        FlowDesignation.authentication
        (some "next=/")
      ≡ ok (found "/flow/login?next=/"))
    ↔ ((name : String) × (t : Tenant) × (◌≡◌ {A = Res String String} (ok "other.org") (ok name))
        × Serves pages name t
        × IsTarget pages FlowDesignation.authentication (some "next=/") t "/flow/login?next=/")
get_flow_page_iff_example =
    get_flow_page_iff pages (λ _. 400) (ok "other.org") FlowDesignation.authentication
      (some "next=/") "/flow/login?next=/"

-- Two types of fields: 0 is a box, 1 a text.
abbrev El : ℕ → Type 0
El t = String

abbrev key : FieldKey {Ty = ℕ} 1
key = record { name = "email" }

get_typed-insert_typed_example :
    get_typed El 0 1 key (insert_typed El 0 1 key "a@b" [])
    ≡ (if key.name == key.name then err wrong_type else get_typed El 0 1 key [])
get_typed-insert_typed_example =
    get_typed-insert_typed El 0 1 1 key key "a@b" [] (λ e. omega (arith, e))

abbrev axum : Axum String String String String
axum = record {
  host = λ req. pending (ready (ok "example.org"));
  rejection_response = λ e. e;
  insert_host = λ host req. host;
  into_response = λ r. r;
}

abbrev inner : String → Future (Res String String)
inner req = pending (pending (ready (ok req)))

drive-call_example : drive axum 4 (call axum inner "request") ≡ answers axum inner "request"
drive-call_example = drive-call axum inner "request"
