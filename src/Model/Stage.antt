-- ===== src/Model/Stage.antt =====
-- model/src/stage.rs.
use authust.Prelude.{String, Bool, true, false, Option, List, ◌≡◌, ◌↔◌, arith}
use authust.Prelude.Eq.{Eq}
use authust.Model.Query.{I32, StageQuery}
use authust.Model.Prompt.{PromptBinding}

pub data PasswordBackend : Type 0 where
  internal ldap : PasswordBackend

pub data UserField : Type 0 where
  email name uuid : UserField

pub data ConsentMode : Type 0 where
  always once : ConsentMode
  until : (duration : I32) → ConsentMode

pub data StageKind : Type 0 where
  deny : StageKind
  prompt : (bindings : List PromptBinding) → StageKind
  identification : (password : Option StageQuery) (user_fields : List UserField) → StageKind
  user_login user_logout user_write : StageKind
  password : (backends : List PasswordBackend) → StageKind
  consent : (mode : ConsentMode) → StageKind

pub record Stage : Type 0 where
  pub uid : I32
  pub slug : String
  pub kind : StageKind
  pub timeout : I32

-- `StageKind::requires_input`.
unfoldable pub requires_input : StageKind → Bool
requires_input deny = true
requires_input (prompt _) = true
requires_input (identification _ _) = true
requires_input user_login = false
requires_input user_logout = false
requires_input user_write = false
requires_input (StageKind.password _) = true
requires_input (consent _) = true

-- The derived `PartialEq` of the two enums that are searched by `contains`.
abbrev pub backend_beq : PasswordBackend → PasswordBackend → Bool
backend_beq internal internal = true
backend_beq ldap ldap = true
backend_beq _ _ = false

pub backend_beq_iff : (a b : PasswordBackend) → (backend_beq a b ≡ true) ↔ (a ≡ b)
backend_beq_iff a b = ground arith

instance abbrev pub Eq-backend : Eq PasswordBackend
Eq-backend = record { beq = backend_beq; beq_iff = backend_beq_iff }

abbrev pub field_beq : UserField → UserField → Bool
field_beq email email = true
field_beq name name = true
field_beq uuid uuid = true
field_beq _ _ = false

pub field_beq_iff : (a b : UserField) → (field_beq a b ≡ true) ↔ (a ≡ b)
field_beq_iff a b = ground arith

instance abbrev pub Eq-user_field : Eq UserField
Eq-user_field = record { beq = field_beq; beq_iff = field_beq_iff }
