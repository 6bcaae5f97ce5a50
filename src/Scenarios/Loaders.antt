-- ===== src/Scenarios/Loaders.antt =====
-- The loaders of storage/src over the small database.
use authust.Prelude.{
  String, Bool, true, false, Option, none, some, List, [], ◌∷◌, ◌≡◌, refl, sym, ◌∙◌, Bool-cases,
  inl, inr, if◌then◌else◌,
}
use mathlib.Core.Path.{subst, fun_ext}
use authust.Prelude.Sort.{sort_by_key}
use authust.Model.Stage.{StageKind}
use authust.Storage.Loaders.Loaded
use authust.Storage.Loaders.Kinds
use authust.Storage.Loaders.Policies
use authust.Storage.Loaders.Tenants
use authust.Storage.Loaders.Table.{IsTable, storage}
use authust.Prelude.Int.{pos}
use authust.Prelude.Eq.{◌==◌, Eq-int, Eq-string, Eq-nat}
use authust.Prelude.Maps.{lookup}
use authust.Prelude.Res.{Res, ok, panic}
use authust.Model.Query.{I32, UniqueQuery, UidQuery}
use authust.Model.Flow.{
  Flow, FlowBindingKind, FlowEntry, FlowDesignation, AuthenticationRequirement,
}
use authust.Storage.Ready.{AreCoherent, All}
use authust.Storage.Sql.{Param, StorageError, from_database, get_enum, flow_bindings_by_flow}
use authust.Storage.Loaders.Flows
use authust.Storage.Loaders.Stages
use authust.Storage.Loaders.Stages.{PgStageKind, stage_kinds}
use authust.Storage.Loaders.Loaded.{find_optional-AreBindings, find_optional-unbound}
use authust.Storage.Loaders.Kinds.{find_optional-Becomes}
use authust.Storage.Loaders.Datacache.{Datacache, IsDatacache}
use authust.Storage.Loaders.Manager.{
  IsDatabase, connected, look_prompt, create_manager, create_manager-AreCoherent,
}
use authust.Scenarios.Database.{
  null, int4, Row, Table, selected, is_param, as_bool, one_row, database, expected, migrated,
  flow_row, stage_row, policy_row, prompt_row, tenant_row, binding_row, first, select, tables,
  one_row-IsTable,
}

abbrev pub bound_flow : Flow
bound_flow = record {
  uid = pos 1;
  slug = "login";
  title = "Log in";
  designation = FlowDesignation.authentication;
  authentication = AuthenticationRequirement.none;
  bindings =
      (record { enabled = true; negate = false; order = pos 1; kind = FlowBindingKind.user 11 })
      ∷ (record {
        enabled = true;
        negate = false;
        order = pos 2;
        kind = FlowBindingKind.policy (UniqueQuery.uid (pos 7));
      })
      ∷ [];
  entries = (record { ordering = pos 0; bindings = []; stage = UniqueQuery.uid (pos 5) }) ∷ [];
}

flow_loads : Flows.find_optional expected (UniqueQuery.slug "login") ≡ ok (some bound_flow)
unfolding Flows.find_optional sort_by_key lookup
flow_loads = refl

-- A flow with no binding of its own, where the table of bindings is as the migration creates it.
abbrev unbound_flow : Flow
unbound_flow = record bound_flow { bindings = [] }

unbound_loads : Flows.find_optional migrated (UniqueQuery.uid (pos 1)) ≡ ok (some unbound_flow)
unfolding Flows.find_optional sort_by_key lookup
unbound_loads = refl

-- A binding of the flow makes the load panic there.
bound_panics :
    Flows.find_optional
      (database (binding_row (pos 1) (pos 2) (int4 (pos 7)) null "negate_result" ∷ []))
      (UniqueQuery.uid (pos 1))
    ≡ panic
unfolding Flows.find_optional sort_by_key lookup
bound_panics = refl

stage_loads :
    Stages.find_optional expected (UniqueQuery.slug "ask")
    ≡ ok (
        some (record {
          uid = pos 5;
          slug = "ask";
          kind = StageKind.prompt ((record { order = pos 1; prompt = UidQuery.uid (pos 9) }) ∷ []);
          timeout = pos 60;
        }))
unfolding Stages.find_optional sort_by_key lookup
stage_loads = refl

find_optional-AreBindings_example :
    Loaded.AreBindings expected flow_bindings_by_flow (pos 1) bound_flow.bindings
    × Loaded.AreEntries expected (pos 1) bound_flow.entries
find_optional-AreBindings_example =
    find_optional-AreBindings expected (UniqueQuery.slug "login") bound_flow flow_loads

find_optional-Becomes_example :
    (row : Row) × (simple : PgStageKind) × (Stages.ask expected expected.query_opt
        (UniqueQuery.slug "ask")
      ≡ ok (some row))
    × (get_enum expected {E = StorageError String String} stage_kinds "kind" row ≡ ok simple)
    × Kinds.Becomes simple
        (StageKind.prompt ((record { order = pos 1; prompt = UidQuery.uid (pos 9) }) ∷ []))
find_optional-Becomes_example =
    find_optional-Becomes expected (UniqueQuery.slug "ask") _ stage_loads

-- No row of the migrated database has the column `negate`.
abbrev Lacks : Row → Type 0
Lacks row = as_bool (lookup "negate" row) ≡ none

selected-All :
    (P : Row → Type 0) (column : String) (p : Param) (rows : List Row)
    → All P rows
    → All P (selected column p rows)
selected-All P column p [] h = tt
selected-All P column p (r ∷ rs) (one, rest) =
    go (is_param (lookup column r) p) (selected-All P column p rs rest)
  where
    go :
        (b : Bool)
        → All P (selected column p rs)
        → All P (if b then r ∷ selected column p rs else selected column p rs)
    go true ih = (one, ih)
    go false ih = ih

select-All :
    (P : Row → Type 0) (ts : List (String × Table)) (sql : String) (p : Param) (rows : List Row)
    → All (λ (t : String × Table). All P t.1.1) ts
    → select (lookup sql ts) (p ∷ []) ≡ ok rows
    → All P rows
unfolding lookup
select-All P [] sql p rows h run = cc
select-All P ((key, (column, table_rows)) ∷ ts) sql p rows (one, rest) run =
    elim (Bool-cases (key == sql)) [
      | inl t ↦
          let same : selected column p table_rows ≡ rows = cc (rw t at run) in
          rw same at (selected-All P column p table_rows one)
      | inr f ↦ select-All P ts sql p rows rest (rw f at run)
    ]

migrated_lacks : Loaded.SchemaLacksNegate migrated
unfolding lookup
migrated_lacks statement id rows asked =
    select-All (Loaded.LacksNegate migrated)
      (tables (binding_row (pos 2) (pos 1) (int4 (pos 7)) null "negate_result" ∷ [])) statement
      (Param.int id) rows all_lack asked
  where
    all_lack :
        All
          (λ (t : String × Table). All (Loaded.LacksNegate migrated) t.1.1)
          (tables (binding_row (pos 2) (pos 1) (int4 (pos 7)) null "negate_result" ∷ []))
    all_lack = (
      (refl, tt),
      (
        (refl, tt),
        (
          (refl, tt),
          (
            (refl, tt),
            (
              (refl, tt),
              (
                (refl, tt),
                (
                  (refl, tt),
                  (
                    (refl, tt),
                    (
                      (refl, tt),
                      (
                        (refl, tt),
                        ((refl, tt), ((refl, tt), ((refl, tt), ((refl, tt), ((refl, tt), tt))))),
                      ),
                    ),
                  ),
                ),
              ),
            ),
          ),
        ),
      ),
    )

find_optional-unbound_example :
    ([] ≡ unbound_flow.bindings) × All (λ (e : FlowEntry). e.bindings ≡ []) unbound_flow.entries
find_optional-unbound_example =
    find_optional-unbound migrated (UniqueQuery.uid (pos 1)) unbound_flow migrated_lacks
      unbound_loads

-- A statement over a table of one row.
found_one :
    (b : Bool) (row : Row)
    → from_database {P = String} (first (ok (if b then row ∷ [] else [])))
      ≡ (if b then ok (some row) else ok none)
found_one true row = refl
found_one false row = refl

as_one_row :
    (look : UniqueQuery → Res (StorageError String String) (Option Row)) (row : Row) (i : I32)
    (s : String) (uid : Row → Option I32) (slug : Row → Option String)
    → ((q : UniqueQuery) → one_row row i s q ≡ look q)
    → uid row ≡ some i
    → slug row ≡ some s
    → IsTable look uid slug
as_one_row look row i s uid slug same is_uid is_slug =
    subst (λ (l : UniqueQuery → Res (StorageError String String) (Option Row)). IsTable l uid slug)
      (fun_ext same) (one_row-IsTable row i s uid slug is_uid is_slug)

flow_look :
    (q : UniqueQuery)
    → one_row flow_row (pos 1) "login" q
      ≡ connected expected (Flows.ask expected expected.query_opt q)
unfolding lookup
flow_look (UniqueQuery.uid j) = sym (found_one (pos 1 == j) flow_row)
flow_look (UniqueQuery.slug j) = sym (found_one ("login" == j) flow_row)

stage_look :
    (q : UniqueQuery)
    → one_row stage_row (pos 5) "ask" q
      ≡ connected expected (Stages.ask expected expected.query_opt q)
unfolding lookup
stage_look (UniqueQuery.uid j) = sym (found_one (pos 5 == j) stage_row)
stage_look (UniqueQuery.slug j) = sym (found_one ("ask" == j) stage_row)

policy_look :
    (q : UniqueQuery)
    → one_row policy_row (pos 7) "local" q
      ≡ connected expected (Policies.ask expected expected.query_opt q)
unfolding lookup
policy_look (UniqueQuery.uid j) = sym (found_one (pos 7 == j) policy_row)
policy_look (UniqueQuery.slug j) = sym (found_one ("local" == j) policy_row)

tenant_look :
    (q : UniqueQuery)
    → one_row tenant_row (pos 3) "example.org" q
      ≡ connected expected (Tenants.ask expected expected.query_opt q)
unfolding lookup
tenant_look (UniqueQuery.uid j) = sym (found_one (pos 3 == j) tenant_row)
tenant_look (UniqueQuery.slug j) = sym (found_one ("example.org" == j) tenant_row)

prompt_where :
    (i : I32) (row : Row)
    → look_prompt expected (UidQuery.uid i) ≡ ok (some row)
    → expected.get_i32 "uid" row ≡ some i
unfolding lookup
prompt_where i row h =
    (one_row-IsTable prompt_row (pos 9) "" (λ r. expected.get_i32 "uid" r) (λ r. some "") refl
        refl).where_uid
      i row (sym (found_one (pos 9 == i) prompt_row) ∙ h)

pub expected-IsDatabase : IsDatabase expected
unfolding lookup
expected-IsDatabase = record {
  flows = as_one_row _ flow_row (pos 1) "login" _ _ flow_look refl refl;
  stages = as_one_row _ stage_row (pos 5) "ask" _ _ stage_look refl refl;
  policies = as_one_row _ policy_row (pos 7) "local" _ _ policy_look refl refl;
  prompts = record { where_uid = prompt_where };
  tenants = as_one_row _ tenant_row (pos 3) "example.org" _ _ tenant_look refl refl;
}

-- A datacache that caches nothing.
abbrev pub datacache : Datacache
datacache = record { storage = λ exc queries. storage exc (λ _. ok []) queries }

pub datacache-IsDatacache : IsDatacache datacache
datacache-IsDatacache = record {
  get_id = λ exc queries. refl;
  create_queries = λ exc queries. refl;
  loaded = λ exc queries q d h. inl h;
  loads = λ exc queries q d h. (d, h);
}

create_manager-AreCoherent_example : AreCoherent (create_manager expected datacache)
create_manager-AreCoherent_example =
    create_manager-AreCoherent expected datacache datacache-IsDatacache expected-IsDatabase
