-- ===== src/Handler/Search.antt =====
-- server/src/service/user.rs, `lookup_user`: whom a search finds.
use authust.Prelude.{
  String, Bool, true, false, Option, none, some, ◌≡◌, refl, ◌⊎◌, inl, inr, if◌then◌else◌,
}
use authust.Prelude.Res.{Res, ok, err, panic}
use authust.Model.User.{Uuid, PartialUser}
use authust.Api.Error.{Api, PgError}
use authust.Api.Session.{UserRow, Database}
use authust.Handler.Users.{partial_user, or_next, by_uuid, lookup_user}

-- The user is that of the row which the query gave.
abbrev pub Gives : Res PgError (Option UserRow) → PartialUser → Type 0
Gives query user = (row : UserRow) × (query ≡ ok (some row)) × (user ≡ partial_user row)

or_next-Gives :
    (query : Res PgError (Option UserRow)) (rest : Api (Option PartialUser)) (user : PartialUser)
    → or_next query rest ≡ ok (some user)
    → Gives query user ⊎ ((query ≡ ok none) × (rest ≡ ok (some user)))
or_next-Gives (ok (some row)) rest user h = inl (row, refl, cc)
or_next-Gives (ok none) rest user h = inr (refl, h)
or_next-Gives (err e) rest user h = cc
or_next-Gives panic rest user h = cc

module _ (db : Database) (parse_uuid : String → Option Uuid) (txt : String)
    (user : PartialUser) where
  -- The row was found under the parsed uuid.
  abbrev pub ByUuid : Type 0
  ByUuid = (id : Uuid) × (parse_uuid txt ≡ some id) × Gives (db.user_by_uid id) user

  by_uuid-ByUuid : (o : Option Uuid) → parse_uuid txt ≡ o → by_uuid db o ≡ ok (some user) → ByUuid
  by_uuid-ByUuid none is h = cc
  by_uuid-ByUuid (some id) is h = elim (or_next-Gives (db.user_by_uid id) (ok none) user h) [
    | inl gives ↦ (id, is, gives)
    | inr (none_found, rest) ↦ cc
  ]

  third_lem :
      (use_uuid : Bool)
      → (if use_uuid then by_uuid db (parse_uuid txt) else ok none) ≡ ok (some user)
      → (use_uuid ≡ true) × ByUuid
  third_lem true h = (refl, by_uuid-ByUuid (parse_uuid txt) refl h)
  third_lem false h = cc

  step_lem :
      (used : Bool) (query : Res PgError (Option UserRow)) (rest : Api (Option PartialUser))
      → (if used then or_next query rest else rest) ≡ ok (some user)
      → ((used ≡ true) × Gives query user) ⊎ (rest ≡ ok (some user))
  step_lem true query rest h = elim (or_next-Gives query rest user h) [
    | inl gives ↦ inl (refl, gives)
    | inr (none_found, found) ↦ inr found
  ]
  step_lem false query rest h = inr h

  -- A user that `lookup_user` finds was found under the text in a field that the search was told to
  -- use: as a name, as an email address, or, if it parses, as a uuid.
  pub lookup_user-Gives :
      (use_name use_email use_uuid : Bool)
      → lookup_user db parse_uuid txt use_name use_email use_uuid ≡ ok (some user)
      → ((use_name ≡ true) × Gives (db.user_by_name txt) user)
        ⊎ ((use_email ≡ true) × Gives (db.user_by_email txt) user)
        ⊎ ((use_uuid ≡ true) × ByUuid)
  unfolding lookup_user
  lookup_user-Gives use_name use_email use_uuid h =
      elim (step_lem use_name (db.user_by_name txt) _ h) [
        | inl by_name ↦ inl by_name
        | inr later ↦ elim (step_lem use_email (db.user_by_email txt) _ later) [
          | inl by_email ↦ inr (inl by_email)
          | inr last ↦ inr (inr (third_lem use_uuid last))
        ]
      ]
