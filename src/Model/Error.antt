-- ===== src/Model/Error.antt =====
-- model/src/error.rs. `Value` is the JSON value of the submitted form (serde_json); a number's
-- text is not looked at, and arrays and objects matter only as the kinds they are.
use authust.Prelude.{String, Bool}
use authust.Prelude.Eq.{Eq-string}

pub data FieldType : Type 0 where
  null boolean string number object array : FieldType

mutual
  pub data Value : Type 0 where
    null : Value
    bool : Bool → Value
    number : String → Value
    string : String → Value
    array : Items → Value
    object : Fields → Value

  pub data Items : Type 0 where
    nil : Items
    cons : Value → Items → Items

  pub data Fields : Type 0 where
    end : Fields
    field : String → Value → Fields → Fields

-- `FieldType::from(&Value)`.
unfoldable pub field_type : Value → FieldType
field_type Value.null = FieldType.null
field_type (Value.bool _) = FieldType.boolean
field_type (Value.number _) = FieldType.number
field_type (Value.string _) = FieldType.string
field_type (Value.array _) = FieldType.array
field_type (Value.object _) = FieldType.object

pub data FieldErrorKind : Type 0 where
  missing : FieldErrorKind
  invalid : (message : String) → FieldErrorKind
  invalid_type : (expected got : FieldType) → FieldErrorKind

pub record FieldError : Type 0 where
  pub kind : FieldErrorKind
  pub field : String

-- `FieldError::new`.
abbrev pub field_error : String → FieldErrorKind → FieldError
field_error name k = record { kind = k; field = name }

pub data SubmissionError : Type 0 where
  no_pending_user : SubmissionError
  field : FieldError → SubmissionError
