-- ===== src/Scenarios/Executor.antt =====
-- A login flow that is started, checked and completed.
use authust.Prelude.{
  String, true, Option, none, some, [], ◌∷◌, ◌≡◌, ◌↔◌, refl, arith, ◌≤◌, ◌+◌, length,
}
use authust.Prelude.Int.{pos}
use authust.Prelude.Eq.{contains, Eq-int, Eq-string}
use authust.Prelude.Maps.{insert, lookup}
use authust.Prelude.Res.{ok}
use authust.Model.Query.{UniqueQuery, Eq-unique_query, Eq-uid_query}
use authust.Model.Query.{I32}
use authust.Model.Policy.{Policy}
use authust.Model.Stage.{Stage}
use authust.Storage.Proxy.{
  ProxyStorage, ExportedData, new, insert_queries, insert_data, find_optional, export_data,
  frozen_optional,
}
use authust.Storage.Faithful.{
  IsFaithful, Holds, new-IsFaithful, find_optional-IsFaithful, frozen_optional-find_optional,
}
use authust.Storage.Reverse.{
  ProxiedStorage, FrozenData, create_proxied, create_freezed, need_flow, need_stage, need_policy,
  need_prompt, reverse_prompts, reverse_stage, reverse_bindings, reverse_entries, reverse_flow,
}
use authust.Storage.Ready.{AllFaithful}
use authust.Storage.Recorded.{BindingsHeld, EntriesHeld, reverse_flow-EntriesHeld}
use authust.Executor.Entries.{complete_current}
use authust.Executor.State.{FlowKey, FlowExecution}
use authust.Executor.Registry.{Cache, execution_of, start}
use authust.Executor.Starts.{start-Starts}
use authust.Storage.Returns.{FlowExists, reverse_flow-Returns}
use authust.Executor.Found.{IsFresh, AllFound}
use authust.Executor.Started.{start-AllFound, create_proxied-AllFaithful}
use authust.Executor.Progress.{
  complete_current-IsInBounds, IsInBounds, complete_times, complete_times_iff,
}
use authust.Scenarios.Fixtures.{
  login_flow, identification_stage, password_stage, login_stage, local_policy,
}
use authust.Scenarios.Sources.{sources, sources_are_coherent, lookups}

abbrev pub key : FlowKey
key = record { session = "s0"; flow = UniqueQuery.slug "login" }

-- A cache with one slot.
abbrev cache : Cache (Option FlowExecution)
cache = record { get = λ _ c. c; insert = λ _ e _. some e; invalidate = λ _ _. none }

abbrev frozen : FrozenData
frozen = record {
  flow = record {
    items = (pos 1, login_flow) ∷ [];
    query = (UniqueQuery.uid (pos 1), pos 1) ∷ (UniqueQuery.slug "login", pos 1) ∷ [];
  };
  stage = record {
    items = (pos 1, identification_stage) ∷ (pos 2, password_stage) ∷ (pos 3, login_stage) ∷ [];
    query =
        (UniqueQuery.uid (pos 1), pos 1)
        ∷ (UniqueQuery.uid (pos 2), pos 2)
        ∷ (UniqueQuery.uid (pos 3), pos 3)
        ∷ [];
  };
  policy = record {
    items = (pos 1, local_policy) ∷ [];
    query = (UniqueQuery.uid (pos 1), pos 1) ∷ [];
  };
  prompt = record { items = []; query = [] };
  tenant = record { items = []; query = [] };
}

abbrev pub execution : FlowExecution
execution = execution_of key (pos 0) login_flow frozen

starts : start cache sources lookups 2 (pos 0) key none ≡ (ok (some execution), some execution)
unfolding start reverse_flow reverse_entries reverse_bindings reverse_stage reverse_prompts
    need_flow need_stage need_policy need_prompt create_proxied create_freezed new find_optional
    insert_data insert_queries insert lookup export_data contains
starts = refl

start-AllFound_example :
    IsFresh key execution × (some execution ≡ some execution) × AllFound execution
start-AllFound_example =
    start-AllFound sources lookups sources_are_coherent cache 2 (pos 0) key none (some execution)
      execution starts

-- The proxies after the lookups.
abbrev looked_up : ProxiedStorage
looked_up = record {
  flow = record { items = some frozen.flow.items; query = some frozen.flow.query };
  stage = record { items = some frozen.stage.items; query = some frozen.stage.query };
  policy = record { items = some frozen.policy.items; query = some frozen.policy.query };
  prompt = record { items = some frozen.prompt.items; query = some frozen.prompt.query };
  tenant = record { items = some frozen.tenant.items; query = some frozen.tenant.query };
}

looks_up : reverse_flow sources lookups 2 login_flow create_proxied ≡ (ok tt, looked_up)
unfolding reverse_flow reverse_entries reverse_bindings reverse_stage reverse_prompts need_flow
    need_stage need_policy need_prompt create_proxied new find_optional insert_data insert_queries
    insert lookup
looks_up = refl

reverse_flow-EntriesHeld_example :
    AllFaithful sources lookups sources_are_coherent looked_up
    × BindingsHeld sources lookups sources_are_coherent looked_up login_flow.bindings
    × EntriesHeld sources lookups sources_are_coherent looked_up login_flow.entries
reverse_flow-EntriesHeld_example =
    reverse_flow-EntriesHeld sources lookups sources_are_coherent 2 login_flow create_proxied
      looked_up (create_proxied-AllFaithful sources lookups sources_are_coherent) looks_up

looked_up-AllFaithful : AllFaithful sources lookups sources_are_coherent looked_up
looked_up-AllFaithful =
    (reverse_flow-EntriesHeld sources lookups sources_are_coherent 2 login_flow create_proxied
      looked_up (create_proxied-AllFaithful sources lookups sources_are_coherent) looks_up).0

abbrev policy_query : UniqueQuery
policy_query = UniqueQuery.uid (pos 1)

abbrev empty : ProxyStorage UniqueQuery I32 Policy
empty = record { items = some []; query = some [] }

empty-IsFaithful : IsFaithful sources.policy sources_are_coherent.policy empty
unfolding new
empty-IsFaithful = new-IsFaithful sources.policy sources_are_coherent.policy

find_optional-IsFaithful_example :
    ((find_optional sources.policy policy_query empty).0 ≡ ok (some local_policy))
    × IsFaithful sources.policy sources_are_coherent.policy
        (find_optional sources.policy policy_query empty).1
    × ((d : Policy)
        → sources.policy.find_optional policy_query ≡ ok (some d)
        → Holds sources.policy sources_are_coherent.policy
            (find_optional sources.policy policy_query empty).1
            policy_query)
    × ((q' : UniqueQuery)
        → Holds sources.policy sources_are_coherent.policy empty q'
        → Holds sources.policy sources_are_coherent.policy
            (find_optional sources.policy policy_query empty).1
            q')
find_optional-IsFaithful_example =
    find_optional-IsFaithful sources.policy sources_are_coherent.policy policy_query empty
      empty-IsFaithful

frozen_optional-find_optional_example :
    (copy : ExportedData UniqueQuery I32 Stage) × (d : Stage) × ((export_data {E = String}
        looked_up.stage).0
      ≡ ok copy)
    × (frozen_optional copy (UniqueQuery.uid (pos 2)) ≡ ok (some d))
    × (sources.stage.find_optional (UniqueQuery.uid (pos 2)) ≡ ok (some d))
unfolding lookup
frozen_optional-find_optional_example =
    frozen_optional-find_optional sources.stage sources_are_coherent.stage looked_up.stage
      (UniqueQuery.uid (pos 2)) looked_up-AllFaithful.stage (frozen.stage.query, pos 2, refl, refl)

pub execution-AllFound : AllFound execution
execution-AllFound =
    (start-AllFound sources lookups sources_are_coherent cache 2 (pos 0) key none (some execution)
      execution starts).2

complete_current-IsInBounds_example : IsInBounds (complete_current execution)
complete_current-IsInBounds_example = complete_current-IsInBounds execution (omega arith)

complete_times_iff_example :
    ((complete_times 2 execution).is_completed ≡ true)
    ↔ (length execution.flow.entries ≤ execution.current_entry_idx + 2)
complete_times_iff_example = complete_times_iff 2 execution (omega arith) refl

login_flow_exists : FlowExists sources 2 login_flow
login_flow_exists = (
  (login_flow, refl),
  ((local_policy, refl), tt),
  (
    (tt, (identification_stage, refl, (password_stage, refl, tt))),
    ((tt, (login_stage, refl, tt)), tt),
  ),
)

reverse_flow-Returns_example :
    (t : ProxiedStorage) × (reverse_flow sources lookups 2 login_flow create_proxied ≡ (ok tt, t))
reverse_flow-Returns_example =
    reverse_flow-Returns sources lookups sources_are_coherent 2 login_flow create_proxied
      (create_proxied-AllFaithful sources lookups sources_are_coherent) login_flow_exists

start-Starts_example :
    (e : FlowExecution) × (start cache sources lookups 2 (pos 0) key none ≡ (ok (some e), some e))
    × (e.flow ≡ login_flow)
    × IsFresh key e
    × AllFound e
start-Starts_example =
    start-Starts sources lookups sources_are_coherent cache 2 (pos 0) key login_flow none refl
      (λ e. cc) login_flow_exists
