-- ===== src/Interface/Found.antt =====
-- server/src/interface/flow.rs: which requests are redirected, and where to.
use authust.Prelude.{ℕ, String, Option, none, some, ◌≡◌, ◌↔◌, ◌⊎◌, inl, inr, refl, sym, ◌∙◌}
use authust.Prelude.Res.{Res, ok, err, panic, ok_or}
use authust.Model.Query.{UniqueQuery, FlowQuery}
use authust.Model.Flow.{Flow, FlowDesignation}
use authust.Model.Tenant.{Tenant, get_flow}
use authust.Interface.Redirect.{
  Pages, Response, TenantRejection, found, flow_uri, to_flow, to_reference, tenant_flow_redirect,
  or_default, tenant_of, tenant_from_request, reject, page, get_flow_page,
}

module _ (pages : Pages) where
  -- The tenant of a host: the one that the storage has for it, and else the default.
  abbrev pub Serves : String → Tenant → Type 0
  Serves name tenant =
      (pages.lookup_tenant (UniqueQuery.slug name) ≡ ok (some tenant))
      ⊎ ((pages.lookup_tenant (UniqueQuery.slug name) ≡ ok none)
          × (pages.default_tenant ≡ some tenant))

  -- The flow that a tenant's page for a designation leads to.
  abbrev pub has_flow : Tenant → FlowDesignation → Option FlowQuery
  has_flow tenant FlowDesignation.authentication = tenant.authentication_flow
  has_flow tenant FlowDesignation.authorization = tenant.authorization_flow
  has_flow tenant FlowDesignation.invalidation = tenant.invalidation_flow
  has_flow tenant FlowDesignation.enrollment = tenant.enrollment_flow
  has_flow tenant FlowDesignation.unenrollment = tenant.unenrollment_flow
  has_flow tenant FlowDesignation.configuration = tenant.configuration_flow
  has_flow tenant FlowDesignation.recovery = tenant.recovery_flow

  -- The page for recovery is served as that for enrollment.
  abbrev pub served_as : FlowDesignation → FlowDesignation
  served_as FlowDesignation.recovery = FlowDesignation.enrollment
  served_as designation = designation

  get_flow-has_flow :
      (tenant : Tenant) (designation : FlowDesignation)
      → get_flow tenant designation ≡ has_flow tenant (served_as designation)
  unfolding get_flow
  get_flow-has_flow tenant FlowDesignation.authentication = refl
  get_flow-has_flow tenant FlowDesignation.authorization = refl
  get_flow-has_flow tenant FlowDesignation.invalidation = refl
  get_flow-has_flow tenant FlowDesignation.enrollment = refl
  get_flow-has_flow tenant FlowDesignation.unenrollment = refl
  get_flow-has_flow tenant FlowDesignation.configuration = refl
  get_flow-has_flow tenant FlowDesignation.recovery = refl

  abbrev pub IsTarget : FlowDesignation → Option String → Tenant → String → Type 0
  IsTarget designation query tenant location =
      (q : FlowQuery) × (flow : Flow) × (has_flow tenant (served_as designation) ≡ some q)
      × (pages.lookup_flow q ≡ ok (some flow))
      × (location ≡ flow_uri pages flow query)

  redirect-IsTarget :
      (tenant : Tenant) (designation : FlowDesignation) (query : Option String) (location : String)
      → tenant_flow_redirect pages tenant designation query ≡ ok (found location)
      → IsTarget designation query tenant location
  unfolding tenant_flow_redirect
  redirect-IsTarget tenant designation query location h = go (get_flow tenant designation) refl h
    where
      inner :
          (q : FlowQuery) (o : Res ⊥ (Option Flow))
          → get_flow tenant designation ≡ some q
          → pages.lookup_flow q ≡ o
          → to_flow pages query o ≡ ok (found location)
          → IsTarget designation query tenant location
      inner q (ok (some flow)) is is_flow h =
          (q, flow, sym (get_flow-has_flow tenant designation) ∙ is, is_flow, cc)
      inner q (ok none) is is_flow h = cc
      inner q (err x) is is_flow h = absurd x
      inner q panic is is_flow h = cc

      go :
          (o : Option FlowQuery)
          → get_flow tenant designation ≡ o
          → to_reference pages query o ≡ ok (found location)
          → IsTarget designation query tenant location
      go (some q) is h = inner q (pages.lookup_flow q) is refl h
      go none is h = cc

  IsTarget-redirect :
      (tenant : Tenant) (designation : FlowDesignation) (query : Option String) (location : String)
      → IsTarget designation query tenant location
      → tenant_flow_redirect pages tenant designation query ≡ ok (found location)
  unfolding tenant_flow_redirect
  IsTarget-redirect tenant designation query location (q, flow, is, is_flow, at) =
      rw (get_flow-has_flow tenant designation ∙ is, is_flow, at) refl

  tenant_of-Serves :
      {HostRejection : Type 0} (name : String) (tenant : Tenant)
      → tenant_of pages {HostRejection = HostRejection} (ok name) ≡ ok tenant
      → Serves name tenant
  tenant_of-Serves {HostRejection} name tenant h =
      go (pages.lookup_tenant (UniqueQuery.slug name)) refl h
    where
      default :
          (o : Option Tenant)
          → ◌≡◌ {A = Res (TenantRejection HostRejection) Tenant}
              (ok_or o TenantRejection.not_found)
              (ok tenant)
          → o ≡ some tenant
      default (some t) h = cc
      default none h = cc

      go :
          (o : Res ⊥ (Option Tenant))
          → pages.lookup_tenant (UniqueQuery.slug name) ≡ o
          → or_default pages {HostRejection = HostRejection} o ≡ ok tenant
          → Serves name tenant
      go (ok (some t)) is h = inl (cc)
      go (ok none) is h = inr (is, default pages.default_tenant h)
      go (err x) is h = absurd x
      go panic is h = cc

  Serves-tenant_of :
      {HostRejection : Type 0} (name : String) (tenant : Tenant)
      → Serves name tenant
      → tenant_of pages {HostRejection = HostRejection} (ok name) ≡ ok tenant
  Serves-tenant_of name tenant (inl is) = rw is
  Serves-tenant_of name tenant (inr (is, is_default)) = rw (is, is_default)

  refused_lem :
      {HostRejection : Type 0} (status : HostRejection → ℕ) (e : TenantRejection HostRejection)
      (location : String)
      → ◌≡◌ {A = Res ⊥ Response} (ok (reject pages status e)) (ok (found location))
      → ⊥
  unfolding reject
  refused_lem status (TenantRejection.host e) location h = cc
  refused_lem status TenantRejection.not_found location h = cc

  -- A request for the page of a designation is redirected exactly if it names a host, the tenant of
  -- the host, or else the default tenant, has a flow for the designation, and the flow is found; then
  -- it is sent to the address of that flow, with its own query. For recovery, it takes the tenant's flow
  -- for enrollment, and the tenant's flow for recovery does not matter.
  pub get_flow_page_iff :
      {HostRejection : Type 0} (status : HostRejection → ℕ) (h : Res HostRejection String)
      (designation : FlowDesignation) (query : Option String) (location : String)
      → (get_flow_page pages status h designation query ≡ ok (found location)) ↔ (
          (name : String) × (tenant : Tenant) × (h ≡ ok name)
          × Serves name tenant
          × IsTarget designation query tenant location)
  unfolding get_flow_page tenant_from_request
  get_flow_page_iff {HostRejection} status h designation query location = (there h, back)
    where
      served :
          (name : String) (r : Res (TenantRejection HostRejection) Tenant)
          → tenant_of pages (ok name) ≡ r
          → page pages status designation query r ≡ ok (found location)
          → (tenant : Tenant) × Serves name tenant × IsTarget designation query tenant location
      served name (ok tenant) is run = (
        tenant,
        tenant_of-Serves name tenant is,
        redirect-IsTarget tenant designation query location run,
      )
      served name (err (TenantRejection.host e)) is run =
          absurd (refused_lem status (TenantRejection.host e) location run)
      served name (err TenantRejection.not_found) is run =
          absurd (refused_lem status TenantRejection.not_found location run)
      served name panic is run = cc

      there :
          (h : Res HostRejection String)
          → page pages status designation query (tenant_of pages h) ≡ ok (found location)
          → (name : String) × (tenant : Tenant) × (h ≡ ok name)
            × Serves name tenant
            × IsTarget designation query tenant location
      there (ok name) run =
          let (tenant, serves, target) = served name (tenant_of pages (ok name)) refl run in
          (name, tenant, refl, serves, target)
      there (err e) run = absurd (refused_lem status (TenantRejection.host e) location run)
      there panic run = cc

      back :
          ((name : String) × (tenant : Tenant) × (h ≡ ok name)
            × Serves name tenant
            × IsTarget designation query tenant location)
          → page pages status designation query (tenant_of pages h) ≡ ok (found location)
      back (name, tenant, is, serves, target) =
          rw (is, Serves-tenant_of name tenant serves)
            (IsTarget-redirect tenant designation query location target)
