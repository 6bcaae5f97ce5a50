-- ===== src/Model/User.antt =====
-- model/src/user.rs, and `PendingUser` of model/src/data.rs. A `Uuid` is its 128-bit number, an
-- `OffsetDateTime` the nanoseconds since the epoch.
use authust.Prelude.{ℕ, String, Bool, Option}
use authust.Prelude.Int.{ℤ}

abbrev pub Uuid : Type 0
Uuid = ℕ

abbrev pub OffsetDateTime : Type 0
OffsetDateTime = ℤ

pub record PartialUser : Type 0 where
  pub uid : Uuid
  pub name : String
  pub avatar_url : Option String
  pub is_admin : Bool
  pub password_change_date : OffsetDateTime

pub record PendingUser : Type 0 where
  pub uid : Uuid
  pub name : String
  pub avatar_url : Option String
  pub authenticated : Bool
  pub is_admin : Bool
