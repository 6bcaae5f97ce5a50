-- ===== src/Api/Access.antt =====
-- server/src/api/v1/auth.rs: what the session extractors let through.
use authust.Prelude.{
  String, Bool, true, false, Option, none, some, ◌∷◌, ◌≡◌, refl, sym, ◌∙◌, ◌⊎◌, inl, inr, ◌&&◌, ◌↔◌,
  arith, if◌then◌else◌,
}
use authust.Prelude.Res.{Res, ok, err, panic}
use authust.Model.User.{Uuid}
use authust.Api.Error.{
  Api, ApiErrorKind, JwtError, from_jwt, from_postgres, missing_middleware, forbidden, pool_error,
}
use authust.Prelude.State.{continue-ok, same_result, same_state}
use authust.Api.Monad.{pure, fail, convert}
use authust.Api.Session.{
  Claims, Session, Tokens, Database, Jar, SqlStatement, AuthExtension, valid, missing_cookie,
  handle_auth, get_auth_extension_data, set_session_cookie, make_new_session, session_from_request,
  admin_from_request, read_token, read_cookie, known_session, from_claims, new_claims, is_some,
}

read_token_iff : (r : Res JwtError Claims) (c : Claims) → (read_token r ≡ ok (valid c)) ↔ (r ≡ ok c)
read_token_iff (ok d) c = ground arith
read_token_iff (err e) c = ground arith
read_token_iff panic c = ground arith

read_cookie_iff :
    (tokens : Tokens) (o : Option String) (c : Claims)
    → (read_cookie tokens o ≡ ok (valid c))
      ↔ ((value : String) × (o ≡ some value) × (tokens.decode value ≡ ok c))
read_cookie_iff tokens none c = ((λ h. cc), (λ (value, is, decodes). cc))
read_cookie_iff tokens (some v) c =
    let both = read_token_iff (tokens.decode v) c in
    ((λ h. (v, refl, both.0 h)), (λ (value, is, decodes). both.1 (cc)))

-- The auth layer leaves claims on a request exactly if the request has a session cookie that
-- `jsonwebtoken` decodes to them.
pub handle_auth_iff :
    (tokens : Tokens) (jar : Jar) (c : Claims)
    → (handle_auth tokens jar ≡ ok (valid c))
      ↔ ((value : String) × (jar.session_cookie ≡ some value) × (tokens.decode value ≡ ok c))
unfolding handle_auth
handle_auth_iff tokens jar c = read_cookie_iff tokens jar.session_cookie c

pub convert-ok :
    {E A : Type 0} (from : E → ApiErrorKind) (r : Res E A) {a : A}
    → convert from r ≡ ok a
    → r ≡ ok a
convert-ok from (ok x) h = cc
convert-ok from (err e) h = cc
convert-ok from panic h = cc

-- A successful `set_session_cookie` leaves the encoded claims in the cookie, and nothing else.
pub set_session_cookie-ok :
    (tokens : Tokens) (claims : Claims) (jar jar' : Jar) (x : Unit {0})
    → set_session_cookie tokens claims jar ≡ (ok x, jar')
    → (token : String) × (tokens.encode claims ≡ ok token)
      × (jar' ≡ record jar { session_cookie = some token })
unfolding set_session_cookie
set_session_cookie-ok tokens claims jar jar' x h =
    let (token, j, first, rest) = continue-ok (convert from_jwt (tokens.encode claims), jar) _ h in
    let same : jar ≡ j =
      same_state (convert from_jwt (tokens.encode claims)) (ok token) jar j first in
    (
      token,
      convert-ok from_jwt (tokens.encode claims)
          (same_result (convert from_jwt (tokens.encode claims)) (ok token) jar j first),
      rw same
          (sym (same_state (ok tt) (ok x) (record j { session_cookie = some token }) jar' rest)),
    )

module _ (tokens : Tokens) (db : Database) (fresh : String) where
  -- A new session: its row is inserted, and it belongs to nobody.
  abbrev pub IsNew : Jar → Session → Jar → Type 0
  IsNew jar s jar' =
      (s.session_id ≡ fresh)
      × (s.user_id ≡ none)
      × (s.is_admin ≡ false)
      × (jar'.statements ≡ SqlStatement.insert_session fresh ∷ jar.statements)

  -- The session of the claims, whose row is in the database.
  abbrev pub IsKnown : Option AuthExtension → Jar → Session → Jar → Type 0
  IsKnown ext jar s jar' =
      (claims : Claims) × (ext ≡ some (valid claims))
      × (s.session_id ≡ claims.sid)
      × (s.is_admin ≡ claims.is_admin)
      × (db.session_user claims.sid ≡ ok (some s.user_id))
      × (jar' ≡ jar)

  new_session_lem :
      (jar jar' : Jar) (s : Session)
      → make_new_session tokens db fresh jar ≡ (ok s, jar')
      → IsNew jar s jar'
  unfolding make_new_session
  new_session_lem jar jar' s h =
      let (x, j, first, rest) =
        continue-ok (convert from_postgres (db.insert_session fresh), jar) _ h in
      let same : jar ≡ j =
        same_state (convert from_postgres (db.insert_session fresh)) (ok x) jar j first in
      let inserted : Jar = record j {
        statements = SqlStatement.insert_session fresh ∷ j.statements;
      } in
      let (y, k, second, last) =
        continue-ok (set_session_cookie tokens (new_claims fresh) inserted) _ rest in
      let (token, encoded, is) =
        set_session_cookie-ok tokens (new_claims fresh) inserted k y second in
      let made : Session = record { session_id = fresh; user_id = none; is_admin = false } in
      let end : k ≡ jar' = same_state (ok made) (ok s) k jar' last in
      let out : ◌≡◌ {A = Api Session} (ok made) (ok s) = same_result (ok made) (ok s) k jar' last in
      let one : made ≡ s = cc in rw (sym one, sym end, is, same) (refl, refl, refl, refl)

  known_session_lem :
      (claims : Claims) (row : Option (Option Uuid)) (jar jar' : Jar) (s : Session)
      → db.session_user claims.sid ≡ ok row
      → known_session tokens db fresh claims row jar ≡ (ok s, jar')
      → IsNew jar s jar' ⊎ IsKnown (some (valid claims)) jar s jar'
  known_session_lem claims none jar jar' s is h = inl (new_session_lem jar jar' s h)
  known_session_lem claims (some user) jar jar' s is h =
      let made : Session = record {
        session_id = claims.sid;
        user_id = user;
        is_admin = claims.is_admin;
      } in
      let end : jar ≡ jar' = same_state (ok made) (ok s) jar jar' h in
      let out : ◌≡◌ {A = Api Session} (ok made) (ok s) = same_result (ok made) (ok s) jar jar' h in
      let one : made ≡ s = cc in inr (rw (sym one, sym end) (claims, refl, refl, refl, is, refl))

  from_claims_lem :
      (ext : Option AuthExtension) (jar jar' : Jar) (s : Session)
      → from_claims tokens db fresh (get_auth_extension_data ext) jar ≡ (ok s, jar')
      → IsNew jar s jar' ⊎ IsKnown ext jar s jar'
  unfolding get_auth_extension_data
  from_claims_lem (some (valid claims)) jar jar' s h =
      let (row, j, first, rest) =
        continue-ok (convert from_postgres (db.session_user claims.sid), jar) _ h in
      let same : jar ≡ j =
        same_state (convert from_postgres (db.session_user claims.sid)) (ok row) jar j first in
      let is : db.session_user claims.sid ≡ ok row =
        convert-ok from_postgres (db.session_user claims.sid)
          (same_result (convert from_postgres (db.session_user claims.sid)) (ok row) jar j first) in
      rw same (known_session_lem claims row j jar' s is rest)
  from_claims_lem (some missing_cookie) jar jar' s h = inl (new_session_lem jar jar' s h)
  from_claims_lem none jar jar' s h =
      cc (same_result (err (missing_middleware "auth")) (ok s) jar jar' h)

  -- The session that the extractor finds for a request is either a new one, whose row was inserted
  -- and which belongs to nobody, or the session of the claims that the auth layer left, with the
  -- user of its row in the database and with the admin flag of the claims, and nothing changed.
  pub session_from_request-IsKnown :
      (ext : Option AuthExtension) (jar jar' : Jar) (s : Session)
      → session_from_request tokens db fresh ext jar ≡ (ok s, jar')
      → IsNew jar s jar' ⊎ IsKnown ext jar s jar'
  unfolding session_from_request
  session_from_request-IsKnown ext jar jar' s h =
      let (x, j, first, rest) = continue-ok (convert pool_error db.connect, jar) _ h in
      let same : jar ≡ j = same_state (convert pool_error db.connect) (ok x) jar j first in
      rw same (from_claims_lem ext j jar' s rest)

  is_admin_lem :
      (ext : Option AuthExtension) (jar jar' : Jar) (s : Session) (u : Uuid)
      → s.user_id ≡ some u
      → s.is_admin ≡ true
      → IsNew jar s jar' ⊎ IsKnown ext jar s jar'
      → (claims : Claims) × (uid : Uuid) × (ext ≡ some (valid claims))
        × (claims.is_admin ≡ true)
        × (db.session_user claims.sid ≡ ok (some (some uid)))
  is_admin_lem ext jar jar' s u has admin (inl (id, nobody, plain, row)) = cc
  is_admin_lem ext jar jar' s u has admin (inr (claims, is, id, flag, row, same)) =
      (claims, u, is, sym flag ∙ admin, rw (sym has) row)

  guard_lem :
      (user : Option Uuid) (admin : Bool) (jar jar' : Jar)
      → (if is_some user && admin then pure tt else fail forbidden) jar ≡ (ok tt, jar')
      → (u : Uuid) × (user ≡ some u) × (admin ≡ true)
  guard_lem (some u) true jar jar' h = (u, refl, refl)
  guard_lem (some u) false jar jar' h = cc (same_result (err forbidden) (ok tt) jar jar' h)
  guard_lem none true jar jar' h = cc (same_result (err forbidden) (ok tt) jar jar' h)
  guard_lem none false jar jar' h = cc (same_result (err forbidden) (ok tt) jar jar' h)

  -- A request that the admin extractor lets through carries claims with the admin flag, whose
  -- session has a row with a user in the database.
  pub admin_from_request-IsAdmin :
      (ext : Option AuthExtension) (jar jar' : Jar)
      → admin_from_request tokens db fresh ext jar ≡ (ok tt, jar')
      → (claims : Claims) × (uid : Uuid) × (ext ≡ some (valid claims))
        × (claims.is_admin ≡ true)
        × (db.session_user claims.sid ≡ ok (some (some uid)))
  unfolding admin_from_request
  admin_from_request-IsAdmin ext jar jar' h =
      let (s, j, first, rest) = continue-ok (session_from_request tokens db fresh ext jar) _ h in
      let (u, has, admin) = guard_lem s.user_id s.is_admin j jar' rest in
      is_admin_lem ext jar j s u has admin (session_from_request-IsKnown ext jar j s first)
