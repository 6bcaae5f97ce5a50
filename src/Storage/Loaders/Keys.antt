-- ===== src/Storage/Loaders/Keys.antt =====
-- The keys of what `from_row` makes of a row are those of the row.
use authust.Prelude.{Option, none, some, ◌≡◌, ap, ◌∙◌}
use authust.Prelude.Res.{Res, ok, expect, >>=-eq-ok}
use authust.Model.Policy.{Policy}
use authust.Model.Prompt.{Prompt}
use authust.Model.Stage.{Stage}
use authust.Model.Flow.{Flow}
use authust.Model.Tenant.{Tenant}
use authust.Storage.Sql.{Postgres, from_database, get_enum, flow_bindings_by_flow}
use authust.Storage.Loaders.Prompts
use authust.Storage.Loaders.Prompts.{prompt_kinds}
use authust.Storage.Loaders.Tenants
use authust.Storage.Loaders.Tenants.{reference}
use authust.Storage.Loaders.Policies
use authust.Storage.Loaders.Policies.{policy_kinds, policy_kind}
use authust.Storage.Loaders.Stages
use authust.Storage.Loaders.Stages.{stage_kinds, stage_kind}
use authust.Storage.Loaders.Flows
use authust.Storage.Loaders.Flows.{
  get_bindings, get_entries, flow_designations, authentication_requirements,
}

pub expect-ok : {E A : Type 0} (o : Option A) {a : A} → expect {E = E} o ≡ ok a → o ≡ some a
expect-ok (some a) h = cc
expect-ok none h = cc

same_field :
    {E D F : Type 0} (f : D → F) (a d : D)
    → ◌≡◌ {A = Res E D} (ok a) (ok d)
    → some (f a) ≡ some (f d)
same_field f a d h = let same : a ≡ d = cc in ap (λ x. some (f x)) same

module _ {Row P G : Type 0} (pg : Postgres Row P G) where
  pub flow-HasKeys :
      (row : Row) (d : Flow)
      → Flows.from_row pg row ≡ ok d
      → (pg.get_i32 "uid" row ≡ some d.uid) × (pg.get_text "slug" row ≡ some d.slug)
  unfolding Flows.from_row
  flow-HasKeys row d h =
      let (x1, e1, h1) = >>=-eq-ok (from_database (pg.prepare flow_bindings_by_flow)) _ h in
      let (uid, is_uid, h2) = >>=-eq-ok (expect (pg.get_i32 "uid" row)) _ h1 in
      let (x3, e3, h3) = >>=-eq-ok (get_bindings pg flow_bindings_by_flow uid) _ h2 in
      let (x4, e4, h4) = >>=-eq-ok (get_entries pg uid) _ h3 in
      let (slug, is_slug, h5) = >>=-eq-ok (expect (pg.get_text "slug" row)) _ h4 in
      let (x6, e6, h6) = >>=-eq-ok (expect (pg.get_text "title" row)) _ h5 in
      let (x7, e7, h7) = >>=-eq-ok (get_enum pg flow_designations "designation" row) _ h6 in
      let (x8, e8, h8) =
        >>=-eq-ok (get_enum pg authentication_requirements "authentication" row) _ h7 in
      (
        expect-ok _ is_uid ∙ same_field (λ (x : Flow). x.uid) _ d h8,
        expect-ok _ is_slug ∙ same_field (λ (x : Flow). x.slug) _ d h8,
      )

  pub policy-HasKeys :
      (row : Row) (d : Policy)
      → Policies.from_row pg row ≡ ok d
      → (pg.get_i32 "uid" row ≡ some d.uid) × (pg.get_text "slug" row ≡ some d.slug)
  unfolding Policies.from_row
  policy-HasKeys row d h =
      let (simple, e1, h1) = >>=-eq-ok (get_enum pg policy_kinds "kind" row) _ h in
      let (x2, e2, h2) = >>=-eq-ok (policy_kind pg simple row) _ h1 in
      let (uid, e3, h3) = >>=-eq-ok (expect (pg.get_i32 "uid" row)) _ h2 in
      let (slug, e4, h4) = >>=-eq-ok (expect (pg.get_text "slug" row)) _ h3 in
      (
        expect-ok _ e3 ∙ same_field (λ (x : Policy). x.uid) _ d h4,
        expect-ok _ e4 ∙ same_field (λ (x : Policy). x.slug) _ d h4,
      )

  pub stage-HasKeys :
      (row : Row) (d : Stage)
      → Stages.from_row pg row ≡ ok d
      → (pg.get_i32 "uid" row ≡ some d.uid) × (pg.get_text "slug" row ≡ some d.slug)
  unfolding Stages.from_row
  stage-HasKeys row d h =
      let (uid, e1, h1) = >>=-eq-ok (expect (pg.get_i32 "uid" row)) _ h in
      let (simple, e2, h2) = >>=-eq-ok (get_enum pg stage_kinds "kind" row) _ h1 in
      let (x3, e3, h3) = >>=-eq-ok (stage_kind pg simple uid row) _ h2 in
      let (slug, e4, h4) = >>=-eq-ok (expect (pg.get_text "slug" row)) _ h3 in
      let (x5, e5, h5) = >>=-eq-ok (expect (pg.get_i32 "timeout" row)) _ h4 in
      (
        expect-ok _ e1 ∙ same_field (λ (x : Stage). x.uid) _ d h5,
        expect-ok _ e4 ∙ same_field (λ (x : Stage). x.slug) _ d h5,
      )

  pub prompt-HasKeys :
      (row : Row) (d : Prompt)
      → Prompts.from_row pg row ≡ ok d
      → (pg.get_i32 "uid" row ≡ some d.uid)
  unfolding Prompts.from_row
  prompt-HasKeys row d h =
      let (uid, e1, h1) = >>=-eq-ok (expect (pg.get_i32 "uid" row)) _ h in
      let (x2, e2, h2) = >>=-eq-ok (expect (pg.get_text "field_key" row)) _ h1 in
      let (x3, e3, h3) = >>=-eq-ok (expect (pg.get_text "label" row)) _ h2 in
      let (x4, e4, h4) = >>=-eq-ok (get_enum pg prompt_kinds "kind" row) _ h3 in
      let (x5, e5, h5) = >>=-eq-ok (expect (pg.get_optional_text "placeholder" row)) _ h4 in
      let (x6, e6, h6) = >>=-eq-ok (expect (pg.get_bool "required" row)) _ h5 in
      let (x7, e7, h7) = >>=-eq-ok (expect (pg.get_optional_text "help_text" row)) _ h6 in
      expect-ok _ e1 ∙ same_field (λ (x : Prompt). x.uid) _ d h7

  pub tenant-HasKeys :
      (row : Row) (d : Tenant)
      → Tenants.from_row pg row ≡ ok d
      → (pg.get_i32 "uid" row ≡ some d.uid) × (pg.get_text "host" row ≡ some d.host)
  unfolding Tenants.from_row
  tenant-HasKeys row d h =
      let (uid, e1, h1) = >>=-eq-ok (expect (pg.get_i32 "uid" row)) _ h in
      let (slug, e2, h2) = >>=-eq-ok (expect (pg.get_text "host" row)) _ h1 in
      let (x3, e3, h3) = >>=-eq-ok (expect (pg.get_bool "is_default" row)) _ h2 in
      let (x4, e4, h4) = >>=-eq-ok (expect (pg.get_text "title" row)) _ h3 in
      let (x5, e5, h5) = >>=-eq-ok (expect (pg.get_text "logo" row)) _ h4 in
      let (x6, e6, h6) = >>=-eq-ok (expect (pg.get_text "favicon" row)) _ h5 in
      let (x7, e7, h7) = >>=-eq-ok (reference pg "invalidation_flow" row) _ h6 in
      let (x8, e8, h8) = >>=-eq-ok (reference pg "authentication_flow" row) _ h7 in
      let (x9, e9, h9) = >>=-eq-ok (reference pg "authorization_flow" row) _ h8 in
      let (x10, e10, h10) = >>=-eq-ok (reference pg "enrollment_flow" row) _ h9 in
      let (x11, e11, h11) = >>=-eq-ok (reference pg "recovery_flow" row) _ h10 in
      let (x12, e12, h12) = >>=-eq-ok (reference pg "unenrollment_flow" row) _ h11 in
      let (x13, e13, h13) = >>=-eq-ok (reference pg "configuration_flow" row) _ h12 in
      (
        expect-ok _ e1 ∙ same_field (λ (x : Tenant). x.uid) _ d h13,
        expect-ok _ e2 ∙ same_field (λ (x : Tenant). x.host) _ d h13,
      )
