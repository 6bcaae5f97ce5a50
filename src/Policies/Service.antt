-- ===== src/Policies/Service.antt =====
-- server/src/service/policy/service.rs: the cache of compiled policies, and the list of policies.
-- The cache is moka's, which may drop an entry at any time.
use authust.Prelude.{Option, none, some, List, [], ◌∷◌}
use authust.Prelude.Res.{Res, ok, err, panic, ◌>>=◌, expect}
use authust.Prelude.State.{Step}
use authust.Model.Query.{I32, UniqueQuery, PolicyQuery}
use authust.Model.Policy.{Policy, PolicyKind, PartialPolicy, partial_policy}
use authust.PolicyEngine.Uri.{Uri, Scope, http}
use authust.PolicyEngine.Script.{Engine, compile, Compiled}
use authust.Executor.Checks.{create_scope}
use authust.Storage.Sql.{Postgres, map_or_panic}

-- `Uri::from_static("http://host/")`.
abbrev host_uri : Uri
host_uri = record { text = "http://host/"; port = none; path = "/"; query = none }

-- `DUMMY_SCOPE` of server/src/service/policy.rs.
unfoldable pub dummy_scope : Scope
unfolding create_scope
dummy_scope = create_scope (record {
  request = record {
    uri = host_uri;
    host = "host";
    scheme = http;
    query = record { next = none };
    user = none;
  };
  pending_user = none;
})

-- `StorageManager::lookup`: an error is logged and gives nothing, and the loader of a policy may panic.
abbrev pub Lookup : Type 0
Lookup = PolicyQuery → Res ⊥ (Option Policy)

-- `moka::sync::Cache<i32, Option<Arc<AST>>>`.
pub record Asts (AST C : Type 0) : Type 0 where
  pub get : I32 → C → Option (Option AST)
  pub insert : I32 → Option AST → C → C
  pub invalidate : I32 → C → C

-- `expect` on a result.
abbrev pub expect_done : {E A : Type 0} → Res E A → Res E A
expect_done (ok a) = ok a
expect_done (err e) = panic
expect_done panic = panic

module _ {AST ParseError C : Type 0} (engine : Engine AST ParseError Scope)
    (asts : Asts AST C) where
  -- `compile` has no branch that panics.
  abbrev pub ast_of : Compiled engine AST → Option AST
  ast_of (ok ast) = some ast
  ast_of (err e) = none
  ast_of panic = none

  -- The closure of `get_ast`: a policy that is no expression has no entry. A failed compilation is
  -- logged.
  unfoldable pub compiled_policy : PolicyKind → Option (Option AST)
  unfolding dummy_scope
  compiled_policy (PolicyKind.expression expr) = some (ast_of (compile engine expr dummy_scope))
  compiled_policy (PolicyKind.password_expiry _) = none
  compiled_policy PolicyKind.password_strength = none

  -- `optionally_get_with` where nothing is cached: what the closure gives is stored.
  abbrev pub initialised : I32 → Option (Option AST) → C → Option (Option AST) × C
  initialised key (some v) c = (some v, asts.insert key v c)
  initialised key none c = (none, c)

  abbrev pub or_initialised :
      I32 → Option (Option AST) → Option (Option AST) → C → Option (Option AST) × C
  or_initialised key (some v) init c = (some v, c)
  or_initialised key none init c = initialised key init c

  abbrev pub flatten : Option (Option AST) → Option AST
  flatten none = none
  flatten (some o) = o

  abbrev pub flattened : Option (Option AST) × C → Option AST × C
  flattened (v, c) = (flatten v, c)

  abbrev pub ast_of_policy : Option Policy → C → Option AST × C
  ast_of_policy none c = (none, c)
  ast_of_policy (some p) c =
      flattened (or_initialised p.uid (asts.get p.uid c) (compiled_policy p.kind) c)

  abbrev pub answered : Option AST × C → Res ⊥ (Option AST) × C
  answered (ast, c) = (ok ast, c)

  abbrev pub ast_of_lookup : Res ⊥ (Option Policy) → C → Res ⊥ (Option AST) × C
  ast_of_lookup (ok o) c = answered (ast_of_policy o c)
  ast_of_lookup (err x) c = absurd x
  ast_of_lookup panic c = (panic, c)

  -- `InternalPolicyService::get_ast`.
  unfoldable pub get_ast : Lookup → PolicyQuery → C → Res ⊥ (Option AST) × C
  unfolding compiled_policy
  get_ast lookup policy c = ast_of_lookup (lookup policy) c

  -- `InternalPolicyService::invalidate`; `invalidate_policy` is the storage's.
  unfoldable pub invalidate :
      {E : Type 0} → (PolicyQuery → Res E (Unit {0})) → I32 → Step E C (Unit {0})
  invalidate invalidate_policy policy c =
      (expect_done (invalidate_policy (UniqueQuery.uid policy)), asts.invalidate policy c)

module _ {Row P G : Type 0} (pg : Postgres Row P G) where
  -- `InternalPolicyService::list_all_references`; `rec.get(0)` is the one column of the statement.
  unfoldable pub list_all_references : Res G (List PolicyQuery)
  list_all_references = do
    _ ← pg.prepare "select uid from policies"
    records ← pg.query "select uid from policies" []
    map_or_panic (λ rec. expect (pg.get_i32 "uid" rec) >>= λ uid. ok (UniqueQuery.uid uid)) records

  abbrev pub pushed :
      Res ⊥ (Option Policy) → Res G (List PartialPolicy) → Res G (List PartialPolicy)
  pushed (ok none) rest = rest
  pushed (ok (some p)) rest = do ps ← rest; ok (partial_policy p ∷ ps)
  pushed (err x) rest = absurd x
  pushed panic rest = panic

  -- The loop of `list_all`.
  unfoldable pub found_policies : Lookup → List PolicyQuery → Res G (List PartialPolicy)
  found_policies lookup [] = ok []
  found_policies lookup (q ∷ qs) = pushed (lookup q) (found_policies lookup qs)

  -- `InternalPolicyService::list_all`.
  unfoldable pub list_all : Lookup → Res G (List PartialPolicy)
  unfolding list_all_references found_policies
  list_all lookup = do references ← list_all_references; found_policies lookup references
