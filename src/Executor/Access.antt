-- ===== src/Executor/Access.antt =====
-- When the checks of an execution grant access.
use authust.Prelude.{
  String, Bool, true, false, Option, none, some, List, [], ◌∷◌, ◌≡◌, ◌≢◌, ◌↔◌, ◌⊎◌, inl, inr, refl,
  ap, ◌∙◌, arith, Bool-cases,
}
use authust.Prelude.Eq.{Eq-nat, opt_eq}
use authust.Prelude.Res.{ok, err, panic, ◌>>=◌, >>=-eq-ok}
use authust.Api.Error.{Api}
use authust.Model.Query.{PolicyQuery}
use authust.Model.User.{Uuid, PartialUser}
use authust.Model.Policy.{Policy}
use authust.Model.Flow.{
  AuthenticationRequirement, superuser, required, none as anonymous, ignored, FlowBinding,
  FlowBindingKind, FlowEntry,
}
use authust.Executor.State.{FlowExecution, CheckContext}
use authust.Executor.Entries.{get_entry, lookup_policy}
use authust.Executor.Externals.{Externals}
use authust.Executor.Checks.{
  FlowCheckOutput, passed, failed, failed_hard, neutral, negate, deref, into_output, FlowCheck,
  is_user, policy, check_authentication, check_policy, check_one, check_of_kind, verdict,
  check_binding, or_else, check_bindings, check_all, check, user_uid,
}

-- The user that the requirement of a flow asks for.
abbrev pub Meets : AuthenticationRequirement → Option PartialUser → Type 0
Meets superuser u = (a : PartialUser) × (u ≡ some a) × (a.is_admin ≡ true)
Meets required u = u ≢ none
Meets anonymous u = u ≡ none
Meets ignored u = Unit

check_authentication_iff :
    (r : AuthenticationRequirement) (u : Option PartialUser)
    → (deref (check_authentication r u) ≡ true) ↔ Meets r u
unfolding check_authentication deref
check_authentication_iff superuser (some a) = (λ h. (a, refl, ground arith), λ h. ground arith)
check_authentication_iff superuser none = (λ h. cc, λ h. ground arith)
check_authentication_iff required u = ground arith
check_authentication_iff anonymous u = ground arith
check_authentication_iff ignored u = (λ _. tt, λ _. refl)

-- What a binding lets through, negated or not. A policy that fails hard lets nobody through, a
-- neutral one everybody, on either side of the negation.
abbrev pub Allows : FlowCheckOutput → (negated : Bool) → Type 0
Allows passed negated = negated ≡ false
Allows failed negated = negated ≡ true
Allows failed_hard negated = ⊥
Allows neutral negated = Unit

verdict_iff :
    (c : FlowCheck) (negated : Bool) (out : FlowCheckOutput)
    → (verdict c negated out ≡ none) ↔ Allows out negated
unfolding deref negate
verdict_iff c negated out = ground arith

opt_eq_iff : (o : Option Uuid) (id : Uuid) → (opt_eq o (some id) ≡ true) ↔ (o ≡ some id)
opt_eq_iff none id = (λ h. cc, λ h. cc)
opt_eq_iff (some a) id = ground arith

abbrev pub All {ℓ κ} : {A : Type ℓ} → (A → Type κ) → List A → Type κ
All P [] = Unit
All P (x ∷ xs) = P x × All P xs

or_else_none :
    (m : Option String) (r : Api (Option String))
    → or_else m r ≡ ok none
    → (m ≡ none) × (r ≡ ok none)
or_else_none none r h = (refl, h)
or_else_none (some s) r h = cc

module _ (ext : Externals) (e : FlowExecution) (ctx : CheckContext) where
  -- What an enabled binding asks of the request: the user it names (another one, if negated), or a
  -- policy that is stored, and whose check comes to an answer that allows it.
  abbrev pub KindAllows : FlowBindingKind → (negated : Bool) → Type 0
  KindAllows (FlowBindingKind.group _) negated = ⊥
  KindAllows (FlowBindingKind.user id) negated =
      ((user_uid ctx.request.user ≡ some id) × (negated ≡ false))
      ⊎ ((user_uid ctx.request.user ≢ some id) × (negated ≡ true))
  KindAllows (FlowBindingKind.policy q) negated =
      (p : Policy) × (out : FlowCheckOutput) × (lookup_policy e q ≡ ok p)
      × (check_policy ext e ctx p ≡ ok out)
      × Allows out negated

  abbrev pub BindingAllows : FlowBinding → Type 0
  BindingAllows b = (b.enabled ≡ false) ⊎ KindAllows b.kind b.negate

  user_iff :
      (id : Uuid) (negated : Bool)
      → (verdict (is_user id) negated (into_output (opt_eq (user_uid ctx.request.user) (some id)))
          ≡ none)
        ↔ KindAllows (FlowBindingKind.user id) negated
  unfolding into_output
  user_iff id negated = ground (
    arith,
    opt_eq_iff (user_uid ctx.request.user) id,
    verdict_iff (is_user id) negated passed,
    verdict_iff (is_user id) negated failed,
  )

  abbrev kind_verdict : FlowBindingKind → Bool → Api (Option String)
  kind_verdict k negated = do
    c ← check_of_kind k
    out ← check_one ext e ctx c
    ok (verdict c negated out)

  output_iff :
      (q : PolicyQuery) (negated : Bool) (r : Api FlowCheckOutput)
      → ((do out ← r; ok (verdict (policy q) negated out)) ≡ ok none)
        ↔ ((out : FlowCheckOutput) × (r ≡ ok out) × Allows out negated)
  output_iff q negated (ok out) = (
    λ h. (out, refl, ground (arith, verdict_iff (policy q) negated out)),
    λ (out', same, allows).
        let back : out' ≡ out = cc in
        ground (arith, rw back at allows, verdict_iff (policy q) negated out),
  )
  output_iff q negated (err x) = (λ h. cc, λ h. cc (h.1))
  output_iff q negated panic = (λ h. cc, λ h. cc (h.1))

  policy_iff :
      (q : PolicyQuery) (negated : Bool) (r : Api Policy)
      → ((do out ← (do p ← r; check_policy ext e ctx p); ok (verdict (policy q) negated out))
          ≡ ok none)
        ↔ ((p : Policy) × (out : FlowCheckOutput) × (r ≡ ok p)
            × (check_policy ext e ctx p ≡ ok out)
            × Allows out negated)
  policy_iff q negated (ok p) =
      let both = output_iff q negated (check_policy ext e ctx p) in
      (
        λ h. let (out, is, allows) = both.0 h in (p, out, refl, is, allows),
        λ (p', out, same, is, allows).
            let back : p' ≡ p = cc in both.1 (out, rw back at is, allows),
      )
  policy_iff q negated (err x) = (λ h. cc, λ (p, out, same, is, allows). cc)
  policy_iff q negated panic = (λ h. cc, λ (p, out, same, is, allows). cc)

  kind_iff :
      (k : FlowBindingKind) (negated : Bool)
      → (kind_verdict k negated ≡ ok none) ↔ KindAllows k negated
  unfolding check_of_kind check_one
  kind_iff (FlowBindingKind.group _) negated = (λ h. cc, λ h. elim h [ ])
  kind_iff (FlowBindingKind.user id) negated = ground (arith, user_iff id negated)
  kind_iff (FlowBindingKind.policy q) negated = policy_iff q negated (lookup_policy e q)

  -- A disabled binding lets everybody through, an enabled one whom its kind allows.
  pub check_binding_iff :
      (b : FlowBinding) → (check_binding ext e ctx b ≡ ok none) ↔ BindingAllows b
  unfolding check_binding
  check_binding_iff b = ground (arith, kind_iff b.kind b.negate)

  check_bindings_iff :
      (bs : List FlowBinding) → (check_bindings ext e ctx bs ≡ ok none) ↔ All BindingAllows bs
  unfolding check_bindings
  check_bindings_iff [] = (λ _. tt, λ _. refl)
  check_bindings_iff (b ∷ bs) = ground (arith, check_binding_iff b, check_bindings_iff bs)

  entry_iff :
      (r : Api FlowEntry)
      → ((do entry ← r; check_bindings ext e ctx entry.bindings) ≡ ok none)
        ↔ ((entry : FlowEntry) × (r ≡ ok entry) × All BindingAllows entry.bindings)
  entry_iff (ok entry) = (
    λ h. (entry, refl, (check_bindings_iff entry.bindings).0 h),
    λ (entry', same, allows).
        let back : entry' ≡ entry = cc in (check_bindings_iff entry.bindings).1 (rw back at allows),
  )
  entry_iff (err x) = (λ h. cc, λ h. cc (h.1))
  entry_iff panic = (λ h. cc, λ h. cc (h.1))

  check_all_iff : (check_all ext e ctx ≡ ok none) ↔ (
      All BindingAllows e.flow.bindings
      × ((entry : FlowEntry) × (get_entry e ≡ ok entry) × All BindingAllows entry.bindings))
  unfolding check_all
  check_all_iff = (
    λ h.
        let (m, first, rest) = >>=-eq-ok (check_bindings ext e ctx e.flow.bindings) _ h in
        let (no_message, second) = or_else_none m _ rest in
        (
          (check_bindings_iff e.flow.bindings).0 (first ∙ ap ok no_message),
          (entry_iff (get_entry e)).0 second,
        ),
    λ (all, entry).
        rw ((check_bindings_iff e.flow.bindings).1 all) ((entry_iff (get_entry e)).1 entry),
  )

  -- Access to a flow is granted exactly when its authentication requirement is met, every binding
  -- of the flow lets the request through, and so does every binding of the current entry.
  pub check_iff : (check ext e ctx ≡ ok none) ↔ (
      Meets e.flow.authentication ctx.request.user
      × All BindingAllows e.flow.bindings
      × ((entry : FlowEntry) × (get_entry e ≡ ok entry) × All BindingAllows entry.bindings))
  unfolding check check_one
  check_iff =
      let who = check_authentication_iff e.flow.authentication ctx.request.user in
      (
        λ h.
            elim (Bool-cases
              (deref (check_authentication e.flow.authentication ctx.request.user))) [
                | inl met ↦
                    let (all, entry) = check_all_iff.0 (rw met at h) in (who.0 met, all, entry)
                | inr unmet ↦ cc (let bad = rw unmet at h in bad)
              ],
        λ (met, all, entry). rw (who.1 met) (check_all_iff.1 (all, entry)),
      )
