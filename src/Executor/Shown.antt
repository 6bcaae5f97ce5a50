-- ===== src/Executor/Shown.antt =====
-- server/src/executor/flow.rs, `FlowExecution::data`: who is shown what.
use authust.Prelude.{
  String, Bool, true, false, Option, none, some, ◌≡◌, refl, ap, sym, ◌∙◌, ◌⊎◌, inl, inr,
  if◌then◌else◌,
}
use authust.Prelude.Res.{ok, >>=-eq-ok}
use authust.Api.Error.{Api}
use authust.Model.User.{PendingUser}
use authust.Model.Error.{SubmissionError}
use authust.Model.Stage.{StageKind}
use authust.Model.Data.{FlowComponent, redirect, FlowData}
use authust.Executor.State.{FlowExecution, CheckContext}
use authust.Executor.Entries.{get_entry, lookup_stage}
use authust.Executor.Externals.{Externals}
use authust.Executor.Checks.{check}
use authust.Executor.Component.{
  completed_component, stage_component, denied, present, data_of, flow_data,
}

if_then : {A : Type 0} (b : Bool) (x y z : A) → b ≡ true → (if b then x else y) ≡ z → x ≡ z
if_then true x y z is h = h
if_then false x y z is h = cc

if_else : {A : Type 0} (b : Bool) (x y z : A) → b ≡ false → (if b then x else y) ≡ z → y ≡ z
if_else false x y z is h = h
if_else true x y z is h = cc

answer_parts :
    (d d' : FlowData) (b b' : Bool)
    → ◌≡◌ {A = Api (FlowData × Bool)} (ok (d, b)) (ok (d', b'))
    → (d' ≡ d) × (b' ≡ b)
answer_parts d d' b b' h =
    let same : ◌≡◌ {A = FlowData × Bool} (d, b) (d', b') = cc in
    (sym (ap (λ (v : FlowData × Bool). v.0) same), sym (ap (λ (v : FlowData × Bool). v.1) same))

module _ (ext : Externals) (e : FlowExecution) (error : Option SubmissionError)
    (ctx : CheckContext) where
  -- The answers of `data` on a completed execution, on one that is refused, and on any other.
  pub data Shown : FlowData → Bool → Type 0 where
    completed :
        (d : FlowData) (gone : Bool)
        → e.is_completed ≡ true
        → (d ≡ present ext e error (completed_component ctx.request.query.next).0)
        → (gone ≡ (completed_component ctx.request.query.next).1)
        → Shown d gone
    refused :
        (d : FlowData) (gone : Bool) (message : String)
        → e.is_completed ≡ false
        → (check ext e ctx ≡ ok (some message))
        → (d ≡ denied ext e error)
        → (gone ≡ false)
        → Shown d gone
    granted :
        (d : FlowData) (gone : Bool) (k : StageKind) (c : FlowComponent)
        → e.is_completed ≡ false
        → (check ext e ctx ≡ ok none)
        → (stage_component e e.context.error k ≡ ok c)
        → (d ≡ present ext e error c)
        → (gone ≡ false)
        → Shown d gone

  data_of_lem :
      (b : Bool) (k : StageKind) (refusal : Option String) (d : FlowData) (gone : Bool)
      → e.is_completed ≡ b
      → check ext e ctx ≡ ok refusal
      → data_of ext e error ctx k refusal ≡ ok (d, gone)
      → Shown d gone
  unfolding data_of
  data_of_lem true k refusal d gone is checked h =
      let c = completed_component ctx.request.query.next in
      let (shown, left) =
        answer_parts (present ext e error c.0) d c.1 gone (if_then e.is_completed _ _ _ is h) in
      completed d gone is shown left
  data_of_lem false k (some m) d gone is checked h =
      let (shown, left) =
        answer_parts (denied ext e error) d false gone (if_else e.is_completed _ _ _ is h) in
      refused d gone m is checked shown left
  data_of_lem false k none d gone is checked h =
      let (c, made, last) =
        >>=-eq-ok (stage_component e e.context.error k) _ (if_else e.is_completed _ _ _ is h) in
      let (shown, left) = answer_parts (present ext e error c) d false gone last in
      granted d gone k c is checked made shown left

  flow_data-Shown :
      (d : FlowData) (gone : Bool) → flow_data ext e error ctx ≡ ok (d, gone) → Shown d gone
  unfolding flow_data
  flow_data-Shown d gone h =
      let (entry, h1, r1) = >>=-eq-ok (get_entry e) _ h in
      let (stage, h2, r2) = >>=-eq-ok (lookup_stage e entry.stage) _ r1 in
      let (refusal, checked, r3) = >>=-eq-ok (check ext e ctx) _ r2 in
      data_of_lem e.is_completed stage.kind refusal d gone refl checked r3

  pending_lem :
      (d : FlowData) (gone : Bool) (u : PendingUser)
      → d.pending_user ≡ some u
      → Shown d gone
      → (e.context.pending ≡ some u) × ((e.is_completed ≡ true) ⊎ (check ext e ctx ≡ ok none))
  pending_lem d gone u has (completed _ _ is shown left) =
      (sym (ap (λ (v : FlowData). v.pending_user) shown) ∙ has, inl is)
  pending_lem d gone u has (granted _ _ k c is checked made shown left) =
      (sym (ap (λ (v : FlowData). v.pending_user) shown) ∙ has, inr checked)
  pending_lem d gone u has (refused _ _ m is checked shown left) =
      cc (sym (ap (λ (v : FlowData). v.pending_user) shown) ∙ has)

  -- An answer of `data` that shows a pending user shows the one of the execution, and the check
  -- granted access to the request or the execution is completed.
  pub flow_data-pending :
      (d : FlowData) (gone : Bool) (u : PendingUser)
      → flow_data ext e error ctx ≡ ok (d, gone)
      → d.pending_user ≡ some u
      → (e.context.pending ≡ some u) × ((e.is_completed ≡ true) ⊎ (check ext e ctx ≡ ok none))
  flow_data-pending d gone u h has = pending_lem d gone u has (flow_data-Shown d gone h)

  next_lem :
      (o : Option String) (c : FlowComponent)
      → c ≡ (completed_component o).0
      → (completed_component o).1 ≡ true
      → (to : String) × (o ≡ some to) × (c ≡ redirect to)
  next_lem (some to) c is h = (to, refl, is)
  next_lem none c is h = cc

  gone_lem :
      (d : FlowData) (gone : Bool)
      → gone ≡ true
      → Shown d gone
      → (e.is_completed ≡ true)
        × ((to : String) × (ctx.request.query.next ≡ some to) × (d.component ≡ redirect to))
  gone_lem d gone t (completed _ _ is shown left) = (
    is,
    next_lem ctx.request.query.next d.component (ap (λ (v : FlowData). v.component) shown)
        (sym left ∙ t),
  )
  gone_lem d gone t (refused _ _ m is checked shown left) = cc
  gone_lem d gone t (granted _ _ k c is checked made shown left) = cc

  -- `data` takes the execution out of the executor only if it is completed, and only with a redirect
  -- to the address that the request's query names.
  pub flow_data-invalidates :
      (d : FlowData) (gone : Bool)
      → flow_data ext e error ctx ≡ ok (d, gone)
      → gone ≡ true
      → (e.is_completed ≡ true)
        × ((to : String) × (ctx.request.query.next ≡ some to) × (d.component ≡ redirect to))
  flow_data-invalidates d gone h t = gone_lem d gone t (flow_data-Shown d gone h)
