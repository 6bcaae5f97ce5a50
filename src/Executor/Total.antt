-- ===== src/Executor/Total.antt =====
-- server/src/executor/flow.rs: the checks of a started execution come to an answer.
use authust.Prelude.{
  ℕ, zero, suc, get_elem?, String, Bool, true, false, Option, none, some, List, [], ◌∷◌, ◌≡◌, refl,
  ap, sym, if◌then◌else◌,
}
use authust.Prelude.Res.{ok, ◌>>=◌, expect}
use authust.Model.Query.{I32, UniqueQuery}
use authust.Model.Policy.{Policy, PolicyKind}
use authust.Model.Flow.{FlowBinding, FlowBindingKind, FlowEntry}
use authust.Storage.Ready.{All}
use authust.Api.Error.{Api, ApiErrorKind}
use authust.Executor.State.{FlowExecution, CheckContext}
use authust.Executor.Entries.{get_entry}
use authust.Executor.Externals.{Externals}
use authust.Executor.Checks.{
  check_of_kind, check_one, check_binding, check_bindings, check_all, check, check_policy,
  check_kind, with_ast, verdict, policy, or_else, deref, check_authentication,
}
use authust.Executor.Progress.{IsInBounds, get_elem?-lt}
use authust.Executor.Found.{BindingFound, EntryFound, AllFound}

-- The code ends with a value: no error, no panic.
abbrev pub Ends : {A : Type 0} → Api A → Type 0
Ends {A} r = (a : A) × (r ≡ ok a)

-- A binding to a group is not implemented.
abbrev pub IsNoGroup : FlowBindingKind → Type 0
IsNoGroup (FlowBindingKind.group _) = ⊥
IsNoGroup _ = Unit

abbrev pub HaveNoGroup : List FlowBinding → Type 0
HaveNoGroup = All (λ b. IsNoGroup b.kind)

>>=-Ends :
    {A B : Type 0} (r : Api A) (f : A → Api B) → Ends r → ((a : A) → Ends (f a)) → Ends (r >>= f)
>>=-Ends r f (a, is) h = let (b, then_b) = h a in (b, rw is then_b)

or_else-Ends : (m : Option String) (r : Api (Option String)) → Ends r → Ends (or_else m r)
or_else-Ends (some m) r h = (some m, refl)
or_else-Ends none r h = h

get-All :
    {A : Type 0} (P : A → Type 0) (xs : List A) (i : ℕ) {a : A}
    → get_elem? xs i ≡ some a
    → All P xs
    → P a
get-All P [] i h all = cc
get-All P (x ∷ xs) zero {a} h (first, rest) = let same : x ≡ a = cc in rw (sym same) first
get-All P (x ∷ xs) (suc i) h (first, rest) = get-All P xs i h rest

-- The service of policies answers for the policies of expressions: its lookup does not panic.
abbrev pub Answers : Externals → Type 0
Answers ext = (id : I32) → (ast : Option ext.AST) × (ext.get_ast (UniqueQuery.uid id) ≡ ok ast)

module _ (ext : Externals) (e : FlowExecution) (ctx : CheckContext) (answers : Answers ext) where
  check_kind-Ends : (p : Policy) (kind : PolicyKind) → Ends (check_kind ext e ctx p kind)
  check_kind-Ends p (PolicyKind.password_expiry max_age) = (_, refl)
  check_kind-Ends p PolicyKind.password_strength = (_, refl)
  check_kind-Ends p (PolicyKind.expression _) =
      let (ast, is) = answers p.uid in (_, ap (with_ast ext ctx) is)

  check_one-Ends :
      (k : FlowBindingKind) (negated : Bool)
      → IsNoGroup k
      → BindingFound e k
      → Ends (do c ← check_of_kind k; out ← check_one ext e ctx c; ok (verdict c negated out))
  unfolding check_of_kind check_one check_policy
  check_one-Ends (FlowBindingKind.user id) negated single found = (_, refl)
  check_one-Ends (FlowBindingKind.policy q) negated single (p, is) =
      let (out, ends) = check_kind-Ends p p.kind in
      (verdict (policy q) negated out, rw (is, ends) refl)
  check_one-Ends (FlowBindingKind.group id) negated single found = absurd single

  if_enabled :
      (enabled : Bool) (r : Api (Option String)) → Ends r → Ends (if enabled then r else ok none)
  if_enabled true r h = h
  if_enabled false r h = (none, refl)

  check_bindings-Ends :
      (bs : List FlowBinding)
      → HaveNoGroup bs
      → All (λ (b : FlowBinding). BindingFound e b.kind) bs
      → Ends (check_bindings ext e ctx bs)
  unfolding check_bindings check_binding
  check_bindings-Ends [] single found = (none, refl)
  check_bindings-Ends (b ∷ bs) (single, singles) (found, founds) =
      >>=-Ends (check_binding ext e ctx b) _
        (if_enabled b.enabled _ (check_one-Ends b.kind b.negate single found))
        (λ m. or_else-Ends m _ (check_bindings-Ends bs singles founds))

  if_met :
      (met : Bool) (r : Api (Option String)) (m : Option String)
      → Ends r
      → Ends (if met then r else ok m)
  if_met true r m h = h
  if_met false r m h = (m, refl)

  entry_answers :
      (r : Api FlowEntry) (entry : FlowEntry)
      → r ≡ ok entry
      → HaveNoGroup entry.bindings
      → All (λ (b : FlowBinding). BindingFound e b.kind) entry.bindings
      → Ends (do en ← r; check_bindings ext e ctx en.bindings)
  entry_answers r entry got singles founds =
      rw got (check_bindings-Ends entry.bindings singles founds)

  -- If the current entry exists, no binding is to a group, the execution finds all that its flow refers
  -- to, and the service of policies answers without a panic, then the check of any request comes to an answer: access, or a message; no panic.
  pub check-Ends :
      IsInBounds e
      → AllFound e
      → HaveNoGroup e.flow.bindings
      → All (λ (en : FlowEntry). HaveNoGroup en.bindings) e.flow.entries
      → (answer : Option String) × (check ext e ctx ≡ ok answer)
  unfolding check check_all check_one get_entry
  check-Ends bounds (founds, entries) singles all_singles =
      let (entry, at) = get_elem?-lt e.flow.entries e.current_entry_idx bounds in
      let got : expect {E = ApiErrorKind} (get_elem? e.flow.entries e.current_entry_idx)
          ≡ ok entry =
        ap expect at in
      let found = get-All (EntryFound e) e.flow.entries e.current_entry_idx at entries in
      let single = get-All _ e.flow.entries e.current_entry_idx at all_singles in
      if_met (deref (check_authentication e.flow.authentication ctx.request.user)) _ _ (
        >>=-Ends (check_bindings ext e ctx e.flow.bindings) _
          (check_bindings-Ends e.flow.bindings singles founds)
          (λ m. or_else-Ends m _ (entry_answers _ entry got single found.0)))
