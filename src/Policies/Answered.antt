-- ===== src/Policies/Answered.antt =====
-- The checks of server/src/executor/flow.rs over the policy service of
-- server/src/service/policy/service.rs: where the storage answers, so does `get_ast`.
use authust.Prelude.{Bool, Option, ◌≡◌, refl}
use authust.Prelude.Res.{ok}
use authust.Model.Query.{I32, UniqueQuery, PolicyQuery}
use authust.Model.Policy.{Policy}
use authust.PolicyEngine.Uri.{Scope}
use authust.PolicyEngine.Script.{Engine}
use authust.Policies.Service.{Lookup, Asts, ast_of_policy, get_ast}
use authust.Executor.Externals.{Externals}
use authust.Executor.Total.{Answers}

module _ {AST ParseError C : Type 0} (engine : Engine AST ParseError Scope) (asts : Asts AST C)
    (lookup : Lookup) where
  get_ast-ok :
      (q : PolicyQuery) (c : C) {o : Option Policy}
      → lookup q ≡ ok o
      → (ast : Option AST) × ((get_ast engine asts lookup q c).0 ≡ ok ast)
  unfolding get_ast
  get_ast-ok q c {o} h = ((ast_of_policy engine asts o c).0, rw h refl)

  -- What a check uses, with the service in place of the parameter: `c` is its cache at the time.
  abbrev pub served : Externals → (eval : AST → Scope → Option Bool) → C → Externals
  served base eval c = record {
    Duration = base.Duration;
    since = base.since;
    seconds = base.seconds;
    lt = base.lt;
    AST = AST;
    get_ast = λ q. (get_ast engine asts lookup q c).0;
    eval = eval;
  }

  -- If no lookup of a policy by its id panics, then the policy service answers every check, whatever
  -- its cache holds.
  served-Answers :
      (base : Externals) (eval : AST → Scope → Option Bool) (c : C)
      → ((id : I32) → (o : Option Policy) × (lookup (UniqueQuery.uid id) ≡ ok o))
      → Answers (served base eval c)
  served-Answers base eval c found id =
      let (o, is) = found id in get_ast-ok (UniqueQuery.uid id) c is
