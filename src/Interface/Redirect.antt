-- ===== src/Interface/Redirect.antt =====
-- server/src/interface/flow.rs: the redirect to the flow that a tenant has for a designation.
use authust.Prelude.{ℕ, String, Option, none, some}
use Prim.Native.String.{◌++◌}
use authust.Prelude.Res.{Res, ok, err, panic, ok_or}
use authust.Model.Query.{UniqueQuery, FlowQuery, TenantQuery}
use authust.Model.Flow.{Flow, FlowDesignation}
use authust.Model.Tenant.{Tenant, get_flow}

-- `host` holds axum's rejection.
pub data TenantRejection (HostRejection : Type 0) : Type 0 where
  host : HostRejection → TenantRejection HostRejection
  not_found : TenantRejection HostRejection

-- The status of an answer, and its `Location`.
pub data Response : Type 0 where
  found : (location : String) → Response
  not_found : Response
  rejected : (status : ℕ) → Response

-- `base_uri`: the environment variable, if it is set.
unfoldable pub base_uri : Option String → String
base_uri (some v) = v
base_uri none = ""

-- What the page uses: the `lookup`s of the storage manager, whose loaders may panic, and the default
-- tenant.
pub record Pages : Type 0 where
  pub interface_base_uri : Option String
  pub lookup_flow : FlowQuery → Res ⊥ (Option Flow)
  pub lookup_tenant : TenantQuery → Res ⊥ (Option Tenant)
  pub default_tenant : Option Tenant

module _ (pages : Pages) where
  -- The address of a flow, with the query of the request.
  unfoldable pub flow_uri : Flow → Option String → String
  unfolding base_uri
  flow_uri flow (some query) =
      base_uri pages.interface_base_uri ++ "/flow/" ++ flow.slug ++ "?" ++ query
  flow_uri flow none = base_uri pages.interface_base_uri ++ "/flow/" ++ flow.slug

  abbrev pub to_flow : Option String → Res ⊥ (Option Flow) → Res ⊥ Response
  to_flow query (ok (some flow)) = ok (found (flow_uri flow query))
  to_flow query (ok none) = ok Response.not_found
  to_flow query (err x) = absurd x
  to_flow query panic = panic

  abbrev pub to_reference : Option String → Option FlowQuery → Res ⊥ Response
  to_reference query (some flow) = to_flow query (pages.lookup_flow flow)
  to_reference query none = ok Response.not_found

  unfoldable pub tenant_flow_redirect : Tenant → FlowDesignation → Option String → Res ⊥ Response
  unfolding get_flow flow_uri
  tenant_flow_redirect tenant designation query = to_reference query (get_flow tenant designation)

  module _ {HostRejection : Type 0} where
    abbrev pub or_default : Res ⊥ (Option Tenant) → Res (TenantRejection HostRejection) Tenant
    or_default (ok (some tenant)) = ok tenant
    or_default (ok none) = ok_or pages.default_tenant TenantRejection.not_found
    or_default (err x) = absurd x
    or_default panic = panic

    abbrev pub tenant_of : Res HostRejection String → Res (TenantRejection HostRejection) Tenant
    tenant_of (ok h) = or_default (pages.lookup_tenant (UniqueQuery.slug h))
    tenant_of (err e) = err (TenantRejection.host e)
    tenant_of panic = panic

    -- `Data<Tenant>::from_request_parts`; the argument is what `Host` extracts.
    unfoldable pub tenant_from_request :
        Res HostRejection String → Res (TenantRejection HostRejection) Tenant
    tenant_from_request h = tenant_of h

    -- `TenantRejection::into_response`; `status` is that of axum's rejection.
    unfoldable pub reject : (HostRejection → ℕ) → TenantRejection HostRejection → Response
    reject status (host e) = rejected (status e)
    reject status TenantRejection.not_found = Response.not_found

    abbrev pub page :
        (HostRejection → ℕ)
        → FlowDesignation
        → Option String
        → Res (TenantRejection HostRejection) Tenant
        → Res ⊥ Response
    page status designation query (ok tenant) = tenant_flow_redirect tenant designation query
    page status designation query (err e) = ok (reject status e)
    page status designation query panic = panic

    -- A request to `/flow/-/:flow_designation`: the tenant is extracted first.
    unfoldable pub get_flow_page :
        (HostRejection → ℕ)
        → Res HostRejection String
        → FlowDesignation
        → Option String
        → Res ⊥ Response
    unfolding tenant_flow_redirect tenant_from_request reject
    get_flow_page status h designation query = page status designation query (tenant_from_request h)
