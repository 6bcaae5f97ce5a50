-- ===== src/Model/Query.antt =====
-- The query types that `#[datacache(queryable)]` derives from the marked fields of the model's
-- structs; a `DataRef<D>` wraps one query.
use authust.Prelude.{String, Bool, true, false, ◌≡◌, ◌↔◌, arith}
use authust.Prelude.Int.{ℤ, eqb_ℤ_iff}
use authust.Prelude.Eq.{Eq, ◌==◌, Eq-string, Eq-int}
use text.Mathlib.TextEquality.{eq_iff}

abbrev pub I32 : Type 0
I32 = ℤ

abbrev pub I16 : Type 0
I16 = ℤ

-- A struct with the queryable fields `uid` and `slug` (`host` for a tenant).
pub data UniqueQuery : Type 0 where
  uid : I32 → UniqueQuery
  slug : String → UniqueQuery

-- A struct whose one queryable field is `uid`.
pub data UidQuery : Type 0 where
  uid : I32 → UidQuery

abbrev pub unique_beq : UniqueQuery → UniqueQuery → Bool
unique_beq (UniqueQuery.uid a) (UniqueQuery.uid b) = a == b
unique_beq (slug a) (slug b) = a == b
unique_beq _ _ = false

pub unique_beq_iff : (a b : UniqueQuery) → (unique_beq a b ≡ true) ↔ (a ≡ b)
unique_beq_iff (UniqueQuery.uid a) (UniqueQuery.uid b) = ground (arith, eqb_ℤ_iff a b)
unique_beq_iff (slug a) (slug b) = ground (arith, eq_iff a b)
unique_beq_iff (UniqueQuery.uid a) (slug b) = ground arith
unique_beq_iff (slug a) (UniqueQuery.uid b) = ground arith

abbrev pub uid_beq : UidQuery → UidQuery → Bool
uid_beq (UidQuery.uid a) (UidQuery.uid b) = a == b

pub uid_beq_iff : (a b : UidQuery) → (uid_beq a b ≡ true) ↔ (a ≡ b)
uid_beq_iff (UidQuery.uid a) (UidQuery.uid b) = ground (arith, eqb_ℤ_iff a b)

instance abbrev pub Eq-unique_query : Eq UniqueQuery
Eq-unique_query = record { beq = unique_beq; beq_iff = unique_beq_iff }

instance abbrev pub Eq-uid_query : Eq UidQuery
Eq-uid_query = record { beq = uid_beq; beq_iff = uid_beq_iff }

abbrev pub FlowQuery : Type 0
FlowQuery = UniqueQuery

abbrev pub StageQuery : Type 0
StageQuery = UniqueQuery

abbrev pub PolicyQuery : Type 0
PolicyQuery = UniqueQuery

abbrev pub TenantQuery : Type 0
TenantQuery = UniqueQuery

abbrev pub PromptQuery : Type 0
PromptQuery = UidQuery
