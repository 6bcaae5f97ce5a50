-- ===== src/Api/Layers.antt =====
-- server/src/api/v1/mod.rs: the layers around the router of the API, the CSRF layer outside.
use authust.Prelude.{ℕ, Option, none, some, List, [], ◌∷◌}
use authust.Prelude.Res.{Res, ok, panic}
use authust.Csrf.Token.{codes}
use authust.Csrf.Check.{Request, Cookies, Response, response, CsrfFuture, declined, future}
use authust.Csrf.Check
use authust.Api.Error.{Body, text}
use authust.Api.Session.{Tokens, Jar, AuthExtension}
use authust.Api.Service

abbrev pub answer_of : Response → ℕ × Body
answer_of (response status body) = (status, text body)

-- `CsrfLayer::new(vec!["*".into()])`.
abbrev pub allowed_hosts : List (List ℕ)
allowed_hosts = codes "*" ∷ []

module _ {E : Type 0} (tokens : Tokens) where
  -- How the call of the outer layer goes on; the request of an accepted one is the router's.
  abbrev pub served :
      (Request → AuthExtension → Res E (ℕ × Body)) → Jar → Option CsrfFuture → Res E (ℕ × Body)
  served router session none = panic
  served router session (some (declined r)) = ok (answer_of r)
  served router session (some (future req)) = Service.call tokens (router req) session

  -- `setup_api_v1`: what a request is answered with, and the CSRF cookies then. `router` is the inner
  -- router, of the request and the extension that the auth layer adds; `fresh` is the text that is
  -- drawn for a new CSRF cookie.
  unfoldable pub setup_api_v1 :
      (fresh : List ℕ)
      → (router : Request → AuthExtension → Res E (ℕ × Body)) → Request
      → Cookies
      → Jar
      → Res E (ℕ × Body) × Cookies
  unfolding Check.call Service.call
  setup_api_v1 fresh router req cookies session =
      let (f, cookies') = Check.call fresh allowed_hosts req cookies in
      (served router session f, cookies')
