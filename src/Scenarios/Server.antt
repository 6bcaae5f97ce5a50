-- ===== src/Scenarios/Server.antt =====
-- A server that starts over the small database, and the layers of its API.
use authust.Prelude.{String, true, false, Option, none, some, [], ◌∷◌, ◌≡◌, ◌↔◌, inr, refl}
use authust.Prelude.Int.{pos}
use authust.Prelude.Eq.{Eq-int, Eq-string}
use authust.Prelude.Maps.{lookup, insert}
use authust.Prelude.Res.{ok, err}
use authust.Prelude.Sort.{sort_by_key}
use authust.Model.Query.{UniqueQuery, UidQuery, Eq-unique_query, Eq-uid_query}
use authust.Model.Policy.{PolicyKind}
use authust.Model.Stage.{StageKind}
use authust.Model.Tenant.{Tenant}
use authust.Storage.Sql.{StorageError}
use authust.Storage.Proxy.{new, insert_queries, insert_data, find_optional, export_data}
use authust.Storage.Reverse.{
  FrozenData, create_proxied, create_freezed, need_flow, need_stage, need_policy, need_prompt,
  reverse_prompts, reverse_stage, reverse_bindings, reverse_entries, reverse_flow,
}
use authust.Storage.Loaders.Manager.{create_manager}
use authust.Storage.Loaders.Flows
use authust.Storage.Loaders.Stages
use authust.Storage.Loaders.Policies
use authust.Storage.Loaders.Prompts
use authust.Storage.Loaders.Tenants
use authust.Csrf.Token.{codes}
use authust.Csrf.Check
use authust.Csrf.Check.{Request, Cookies}
use authust.Csrf.Acceptance.{TokenPasses}
use authust.Api.Session.{valid}
use authust.Api.Layers.{setup_api_v1}
use authust.Api.Reached.{IsExtension, IsReadable, shows, setup_api_v1_iff}
use authust.Executor.State.{FlowKey, FlowExecution}
use authust.Executor.Registry.{Cache, freeze, execution_of, start}
use authust.Executor.Found.{IsFresh, AllFound}
use authust.Interface.Startup.{SharedState, Fresh, start_server}
use authust.Interface.Running.{IsDefault, start_server-AllFound}
use authust.Scenarios.Fixtures.{tokens, jar, guest_claims}
use authust.Scenarios.Sources.{lookups_of}
use authust.Scenarios.Database.{expected}
use authust.Scenarios.Loaders.{expected-IsDatabase, datacache, datacache-IsDatacache, bound_flow}

abbrev cache : Cache (Option FlowExecution)
cache = record { get = λ _ c. c; insert = λ _ e _. some e; invalidate = λ _ _. none }

abbrev fresh : Fresh (Option FlowExecution) (Unit {0})
fresh = record { executions = none; asts = tt; from_secret = λ _. tokens }

abbrev example_tenant : Tenant
example_tenant = record {
  uid = pos 3;
  host = "example.org";
  default = true;
  title = "Example";
  logo = "";
  favicon = "";
  invalidation_flow = none;
  authentication_flow = some (UniqueQuery.uid (pos 1));
  authorization_flow = none;
  enrollment_flow = none;
  recovery_flow = none;
  unenrollment_flow = none;
  configuration_flow = none;
}

abbrev running : SharedState (StorageError String String) (Option FlowExecution) (Unit {0})
running = record {
  executions = none;
  auth_data = tokens;
  storage = create_manager expected datacache;
  tenant = some example_tenant;
  asts = tt;
}

runs : start_server expected datacache fresh "secret" ≡ ok running
unfolding start_server Tenants.find_optional lookup
runs = refl

abbrev key : FlowKey
key = record { session = "s0"; flow = UniqueQuery.slug "login" }

abbrev frozen : FrozenData
frozen = record {
  flow = record { items = []; query = [] };
  stage = record {
    items =
        (
          pos 5,
          record {
            uid = pos 5;
            slug = "ask";
            kind =
                StageKind.prompt ((record { order = pos 1; prompt = UidQuery.uid (pos 9) }) ∷ []);
            timeout = pos 60;
          },
        )
        ∷ [];
    query = (UniqueQuery.uid (pos 5), pos 5) ∷ (UniqueQuery.slug "ask", pos 5) ∷ [];
  };
  policy = record {
    items =
        (pos 7, record { uid = pos 7; slug = "local"; kind = PolicyKind.expression "dHJ1ZQ" }) ∷ [];
    query = (UniqueQuery.uid (pos 7), pos 7) ∷ (UniqueQuery.slug "local", pos 7) ∷ [];
  };
  prompt = record { items = []; query = [] };
  tenant = record { items = []; query = [] };
}

abbrev execution : FlowExecution
execution = execution_of key (pos 0) bound_flow frozen

execution_starts :
    start cache running.storage (lookups_of (StorageError String String)) 2 (pos 0) key none
    ≡ (ok (some execution), some execution)
unfolding start reverse_flow reverse_entries reverse_bindings reverse_stage reverse_prompts
    need_flow need_stage need_policy need_prompt create_proxied create_freezed new find_optional
    insert_data insert_queries insert lookup export_data create_manager Flows.find_optional
    Stages.find_optional Policies.find_optional Prompts.find_optional sort_by_key Stages.get_id
    Policies.get_id freeze
execution_starts = refl

start_server-AllFound_example :
    IsDefault expected datacache fresh running.storage running.tenant
    × IsFresh key execution
    × (some execution ≡ some execution)
    × AllFound execution
start_server-AllFound_example =
    start_server-AllFound expected datacache fresh datacache-IsDatacache expected-IsDatabase
      "secret" running runs (lookups_of (StorageError String String)) cache 2 (pos 0) key none
      (some execution) execution execution_starts

abbrev post_request : Request
post_request = record {
  method = Check.post;
  https = false;
  host = Check.text (codes "example.org");
  origin = Check.text (codes "http://elsewhere");
  csrf_token = Check.absent;
}

abbrev no_cookies : Cookies
no_cookies = record { csrf_cookie = none; added = [] }

-- It comes through, and to the router with the claims of the session cookie.
comes_through :
    (setup_api_v1 tokens (codes "fresh") shows post_request no_cookies jar).0
    ≡ err (post_request, valid guest_claims)
comes_through =
    (setup_api_v1_iff (codes "fresh") tokens post_request no_cookies jar (valid guest_claims)).1
      (tt, inr (codes "example.org", refl, λ e. cc), ("guest", refl, refl))

setup_api_v1_iff_example :
    ((setup_api_v1 tokens (codes "fresh") shows post_request no_cookies jar).0
      ≡ err (post_request, valid guest_claims))
    ↔ (TokenPasses Check.absent none
        × IsReadable post_request
        × IsExtension tokens jar (valid guest_claims))
setup_api_v1_iff_example =
    setup_api_v1_iff (codes "fresh") tokens post_request no_cookies jar (valid guest_claims)
