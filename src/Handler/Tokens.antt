-- ===== src/Handler/Tokens.antt =====
-- server/src/api/v1/executor.rs and auth.rs: the claims of a login reach the next request.
use authust.Prelude.{String, ◌∷◌, Option, none, some, ◌≡◌, refl, sym}
use authust.Prelude.Res.{ok, ok_or}
use authust.Prelude.State.{continue-ok, same_state, same_result}
use authust.Model.User.{PendingUser}
use authust.Api.Error.{invalid_session_cookie, from_jwt, from_postgres}
use authust.Api.Monad.{convert}
use authust.Api.Session.{
  Claims, Session, Tokens, Database, Jar, SqlStatement, valid, handle_auth, set_session_cookie,
}
use authust.Api.Access.{handle_auth_iff, set_session_cookie-ok, convert-ok}
use authust.Handler.Complete.{logged_in, log_in}

-- What `decode` of jsonwebtoken does under `VALIDATION`, which demands the issuer "authust": it accepts
-- no other issuer, and gives back what was encoded under the same key. The claims have no expiry.
pub record IsSound (tokens : Tokens) : Type 0 where
  pub issuer :
      (claims : Claims) (token : String) → tokens.decode token ≡ ok claims → claims.iss ≡ "authust"
  pub decodes :
      (claims : Claims) (token : String)
      → claims.iss ≡ "authust"
      → tokens.encode claims ≡ ok token
      → tokens.decode token ≡ ok claims

ok_or-ok : (o : Option String) (v : String) → ok_or o invalid_session_cookie ≡ ok v → o ≡ some v
ok_or-ok (some w) v h = cc
ok_or-ok none v h = cc

-- The jars of a login, one after another.
chain_lem :
    (jar a b c d jar' : Jar) (token : String) (st : SqlStatement)
    → jar ≡ a
    → a ≡ b
    → c ≡ record b { session_cookie = some token }
    → c ≡ d
    → record d { statements = st ∷ d.statements } ≡ jar'
    → (jar'.session_cookie ≡ some token) × (jar'.statements ≡ st ∷ jar.statements)
chain_lem jar a b c d jar' token st s1 s2 s3 s4 s5 =
    (rw (sym s5, sym s4, s3) refl, rw (sym s5, sym s4, s3, s1, s2) refl)

-- If a successful `log_in` has run, tokens of another issuer than "authust" are refused and those of
-- this issuer are decoded to the claims that were encoded, then the auth layer reads off the new cookie the claims of the old one, with the user, `authenticated` and
-- the user's admin flag put in; the session keeps its row, which is given the user.
pub log_in-handle_auth :
    (tokens : Tokens) (db : Database) (session : Session) (user : PendingUser) (jar jar' : Jar)
    → IsSound tokens
    → log_in tokens db session user jar ≡ (ok tt, jar')
    → (claims : Claims) × (handle_auth tokens jar ≡ ok (valid claims))
      × (handle_auth tokens jar' ≡ ok (valid (logged_in user claims)))
      × (jar'.statements ≡ SqlStatement.update_session user.uid session.session_id ∷ jar.statements)
unfolding log_in
log_in-handle_auth tokens db session user jar jar' sound h =
    let got = ok_or jar.session_cookie invalid_session_cookie in
    let (cookie, a, h1, r1) = continue-ok (got, jar) _ h in
    let s1 : jar ≡ a = same_state got (ok cookie) jar a h1 in
    let has : jar.session_cookie ≡ some cookie =
      ok_or-ok jar.session_cookie cookie (same_result got (ok cookie) jar a h1) in
    let decoded = convert from_jwt (tokens.decode cookie) in
    let (claims, b, h2, r2) = continue-ok (decoded, a) _ r1 in
    let s2 : a ≡ b = same_state decoded (ok claims) a b h2 in
    let decodes : tokens.decode cookie ≡ ok claims =
      convert-ok from_jwt (tokens.decode cookie) (same_result decoded (ok claims) a b h2) in
    let (x, c, h3, r3) = continue-ok (set_session_cookie tokens (logged_in user claims) b) _ r2 in
    let (token, encodes, s3) = set_session_cookie-ok tokens (logged_in user claims) b c x h3 in
    let updated = convert from_postgres (db.update_session user.uid session.session_id) in
    let (y, d, h4, r4) = continue-ok (updated, c) _ r3 in
    let s4 : c ≡ d = same_state updated (ok y) c d h4 in
    let s5 : record d {
      statements = SqlStatement.update_session user.uid session.session_id ∷ d.statements;
    }
        ≡ jar' =
      same_state (ok tt) (ok tt)
        (record d {
          statements = SqlStatement.update_session user.uid session.session_id ∷ d.statements;
        })
        jar' r4 in
    let (cookie', statements') =
      chain_lem jar a b c d jar' token (SqlStatement.update_session user.uid session.session_id) s1
        s2 s3 s4 s5 in
    (
      claims,
      (handle_auth_iff tokens jar claims).1 (cookie, has, decodes),
      (handle_auth_iff tokens jar' (logged_in user claims)).1 (
        token,
        cookie',
        sound.decodes (logged_in user claims) token (sound.issuer claims cookie decodes) encodes,
      ),
      statements',
    )
