-- ===== src/Executor/Fields.antt =====
-- server/src/executor/context.rs: the field store of a context, a map from names to boxed values of
-- any type. No stage uses it. `El t` is the Rust type with the `TypeId` t, and `boxed` the id of
-- `Box<dyn Any + Send + Sync>`.
use authust.Prelude.{
  String, Bool, true, false, not, Option, none, some, List, [], ◌≡◌, ◌≢◌, ◌⊎◌, refl, ap, ◌∙◌, inl,
  inr, if◌then◌else◌,
}
use mathlib.Core.Path.{subst}
use authust.Prelude.Eq.{Eq, ◌==◌, ==_cases, Eq-string}
use authust.Prelude.Maps.{lookup, insert, lookup-insert}
use authust.Prelude.Res.{Res, ok, err, panic}

pub data FieldStorageError : Type 0 where
  wrong_type : FieldStorageError

-- `FieldKey<Value>`: the type of the value is that of the key.
pub record FieldKey {Ty : Type 0} (type_id : Ty) : Type 0 where
  pub name : String

module _ {Ty : Type 0} ⦃e : Eq Ty⦄ (El : Ty → Type 0) (boxed : Ty) where
  -- A `Box<dyn Any + Send + Sync>`.
  abbrev pub Boxed : Type 0
  Boxed = (t : Ty) × El t

  abbrev pub FieldStorage : Type 0
  FieldStorage = List (String × Boxed)

  -- `FieldStorage::new`.
  unfoldable pub new_fields : FieldStorage
  new_fields = []

  -- `downcast_ref` of the value in the box, under `expect`.
  abbrev pub downcast : (t : Ty) → Boxed → Res FieldStorageError (Option (El t))
  downcast t (t', v) = elim (==_cases t' t) [
    | inl (_, same) ↦ ok (some (subst El same v))
    | inr _ ↦ panic
  ]

  -- `entry` is a reference to the box, so `entry.type_id()` is the id of the box type, whatever is in
  -- it.
  abbrev pub entry_of : (t : Ty) → Option Boxed → Res FieldStorageError (Option (El t))
  entry_of t none = ok none
  entry_of t (some entry) = if not (boxed == t) then err wrong_type else downcast t entry

  unfoldable pub get_dynamic :
      (t : Ty) → String → FieldStorage → Res FieldStorageError (Option (El t))
  get_dynamic t field_name fields = entry_of t (lookup field_name fields)

  unfoldable pub get_typed :
      (t : Ty) → FieldKey t → FieldStorage → Res FieldStorageError (Option (El t))
  unfolding get_dynamic
  get_typed t key fields = get_dynamic t key.name fields

  unfoldable pub insert_dynamic : (t : Ty) → String → El t → FieldStorage → FieldStorage
  insert_dynamic t name value fields = insert name (t, value) fields

  unfoldable pub insert_typed : (t : Ty) → FieldKey t → El t → FieldStorage → FieldStorage
  unfolding insert_dynamic
  insert_typed t key value fields = insert_dynamic t key.name value fields

  if_then : {A : Type 0} (x y : A) (b : Bool) → b ≡ false → (if not b then x else y) ≡ x
  if_then x y false h = refl
  if_then x y true h = cc

  -- A field that is inserted cannot be read back as any type but that of a box, its own type included:
  -- the reading ends in `WrongType`. The other fields read as before.
  pub get_typed-insert_typed :
      (t t' : Ty) (key : FieldKey t) (key' : FieldKey t') (value : El t') (fields : FieldStorage)
      → boxed ≢ t
      → get_typed t key (insert_typed t' key' value fields)
        ≡ (if key'.name == key.name then err wrong_type else get_typed t key fields)
  unfolding get_typed insert_typed
  get_typed-insert_typed t t' key key' value fields other =
      ap (entry_of t) (lookup-insert key'.name key.name (t', value) fields)
      ∙ go (key'.name == key.name) (==_cases boxed t)
    where
      go :
          (b : Bool)
          → (((boxed == t) ≡ true) × (boxed ≡ t)) ⊎ (((boxed == t) ≡ false) × (boxed ≢ t))
          → entry_of t (if b then some (t', value) else lookup key.name fields)
            ≡ (if b then err wrong_type else entry_of t (lookup key.name fields))
      go false c = refl
      go true (inl (_, same)) = absurd (other same)
      go true (inr (f, _)) = if_then _ _ (boxed == t) f
