-- ===== src/Handler/Verified.antt =====
-- server/src/api/v1/executor.rs, `handle_password_stage`: whom a password verifies.
use authust.Prelude.{
  String, Bool, true, false, Option, none, some, List, ◌≡◌, ◌⊎◌, inl, inr, refl, ap, sym, ◌∙◌,
  arith,
}
use mathlib.Core.List.{Memᴰ}
use mathlib.Core.Path.{subst}
use authust.Prelude.Res.{Res, ok, err, panic}
use authust.Model.User.{Uuid, PendingUser}
use authust.Model.Error.{Value}
use authust.Model.Stage.{Eq-backend}
use authust.Api.Error.{Api, PwHashError, PgError}
use authust.Api.Monad.{continue}
use authust.Api.Session.{Database}
use authust.Executor.State.{FlowExecution}
use authust.Handler.Submission.{
  Form, str_from_field, verify, accept, check_password, mark_authenticated, authenticate, is_valid,
  field_text,
}

module _ (db : Database) (ext : Form) (forms : List Value) where
  open ext use {value_get, parse_uuid, Hash, parse_hash, verify_password}

  -- The password of one of the forms.
  abbrev pub Sent : String → Type 0
  Sent password =
      (form : Value) × Memᴰ form forms × (value_get "password" form ≡ some (Value.string password))

  -- The password of one of the forms was accepted for the hash that is stored for the user.
  abbrev pub Verified : Uuid → Type 0
  Verified uid =
      (stored : String) × (hash : Hash) × (password : String) × Sent password
      × (db.password_of uid ≡ ok (some stored))
      × (parse_hash stored ≡ ok hash)
      × (verify_password hash password ≡ ok tt)

  -- The pending user, if marked as authenticated, was verified.
  abbrev pub Trusted : Option PendingUser → Type 0
  Trusted none = Unit
  Trusted (some u) = u.authenticated ≡ true → Verified u.uid

  pub field_text-ok :
      (o : Option Value) (text : String)
      → field_text "password" o ≡ ok text
      → o ≡ some (Value.string text)
  unfolding str_from_field
  field_text-ok (some (Value.string v)) text h = cc
  field_text-ok (some Value.null) text h = cc
  field_text-ok (some (Value.bool b)) text h = cc
  field_text-ok (some (Value.number b)) text h = cc
  field_text-ok (some (Value.array b)) text h = cc
  field_text-ok (some (Value.object b)) text h = cc
  field_text-ok none text h = cc

  is_valid-true : (r : Res PwHashError (Unit {0})) → is_valid r ≡ ok true → r ≡ ok tt
  is_valid-true (ok u) h = refl
  is_valid-true (err PwHashError.password) h = cc
  is_valid-true (err (PwHashError.other s)) h = cc
  is_valid-true panic h = cc

  verify-true :
      (o : Option String) (password : String) (e : FlowExecution)
      → (verify db ext o password e).0 ≡ ok true
      → (stored : String) × (hash : Hash) × (o ≡ some stored)
        × (parse_hash stored ≡ ok hash)
        × (verify_password hash password ≡ ok tt)
  verify-true none password e h = cc
  verify-true (some stored) password e h = go (parse_hash stored) refl
    where
      go :
          (r : Res PwHashError Hash)
          → parse_hash stored ≡ r
          → (s : String) × (hash : Hash) × (some stored ≡ some s)
            × (parse_hash s ≡ ok hash)
            × (verify_password hash password ≡ ok tt)
      go (ok hash) q = (stored, hash, refl, q, is_valid-true _ (rw q at h))
      go (err x) q = cc (rw q at h)
      go panic q = cc (rw q at h)

  verify-state :
      (o : Option String) (password : String) (e : FlowExecution)
      → (verify db ext o password e).1 ≡ e
  verify-state none password e = refl
  verify-state (some stored) password e = ground arith

  -- A step leaves the execution alone, or marks the pending user `u`, who was verified.
  abbrev pub Marks : PendingUser → FlowExecution → FlowExecution → Type 0
  Marks u e s = (s ≡ e) ⊎ ((s ≡ mark_authenticated e) × Verified u.uid)

  check_stored :
      (u : PendingUser) (password : String) (e : FlowExecution) (o : Option String)
      → Sent password
      → db.password_of u.uid ≡ ok o
      → Marks u e (continue (verify db ext o password e) (accept db ext)).1
  check_stored u password e o sent q = go (verify db ext o password e) refl
    where
      go :
          (v : Api Bool × FlowExecution)
          → verify db ext o password e ≡ v
          → Marks u e (continue v (accept db ext)).1
      go (ok true, s) p =
          let (stored, hash, found, parsed, right) = verify-true o password e (ap (λ v. v.0) p) in
          let same : s ≡ e = sym (ap (λ v. v.1) p) ∙ verify-state o password e in
          inr (
            ap mark_authenticated same,
            (stored, hash, password, sent, q ∙ ap ok found, parsed, right),
          )
      go (ok false, s) p = inl (sym (ap (λ v. v.1) p) ∙ verify-state o password e)
      go (err x, s) p = inl (sym (ap (λ v. v.1) p) ∙ verify-state o password e)
      go (panic, s) p = inl (sym (ap (λ v. v.1) p) ∙ verify-state o password e)

  check_password-Marks :
      (b : Bool) (u : PendingUser) (password : String) (e : FlowExecution)
      → Sent password
      → Marks u e (check_password db ext b u password e).1
  check_password-Marks false u password e sent = inl refl
  check_password-Marks true u password e sent = go (db.password_of u.uid) refl
    where
      go :
          (r : Res PgError (Option String))
          → db.password_of u.uid ≡ r
          → Marks u e (check_password db ext true u password e).1
      go (ok o) q =
          let step : check_password db ext true u password e
              ≡ continue (verify db ext o password e) (accept db ext) =
            rw q in
          subst (λ (s : Api (Unit {0}) × FlowExecution). Marks u e s.1) (sym step)
            (check_stored u password e o sent q)
      go (err x) q = inl (rw q)
      go panic q = inl (rw q)

  pub with_text-Marks :
      (b : Bool) (u : PendingUser) (r : Api String) (e : FlowExecution)
      → ((password : String) → r ≡ ok password → Sent password)
      → Marks u e (continue (r, e) (check_password db ext b u)).1
  with_text-Marks b u (ok password) e sent =
      check_password-Marks b u password e (sent password refl)
  with_text-Marks b u (err x) e sent = inl refl
  with_text-Marks b u panic e sent = inl refl

  pub Marks-Trusted :
      (u : PendingUser) (e s : FlowExecution)
      → Marks u e s
      → e.context.pending ≡ some u
      → Trusted e.context.pending
      → Trusted s.context.pending
  Marks-Trusted u e s (inl same) q h = rw same h
  Marks-Trusted u e s (inr (same, v)) q h =
      let marked : s.context.pending ≡ some (record u { authenticated = true }) =
        ap (λ (x : FlowExecution). x.context.pending) same ∙ ap authenticate q in
      rw marked (λ _. v)
