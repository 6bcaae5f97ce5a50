-- ===== src/Api/Reached.antt =====
-- Which requests come through the layers of server/src/api/v1/mod.rs to the router.
use authust.Prelude.{
  ℕ, String, Bool, true, Option, none, some, List, ◌≡◌, ◌≢◌, ◌⊎◌, ◌↔◌, inl, inr, refl,
}
use authust.Prelude.Res.{Res, ok, err, panic}
use mathlib.Core.List.{Memᴰ}
use authust.Csrf.Token.{codes}
use authust.Csrf.Check.{
  Request, Cookies, Header, absent, opaque, text, is_safe, check_csrf, layer, CsrfFuture, declined,
  future,
}
use authust.Csrf.Check
use authust.Csrf.Acceptance.{TokenPasses, OriginPasses, check_csrf_iff, contains_text_iff}
use authust.Api.Error.{Api, Body, JwtError}
use authust.Api.Session.{
  Claims, Tokens, Jar, AuthExtension, valid, missing_cookie, handle_auth, read_token, read_cookie,
}
use authust.Api.Access.{handle_auth_iff}
use authust.Api.Service
use authust.Api.Service.{called}
use authust.Api.Layers.{setup_api_v1, served, allowed_hosts}

-- The extension is what the session cookie decodes to, or that there is none.
abbrev pub IsExtension : Tokens → Jar → AuthExtension → Type 0
IsExtension tokens jar missing_cookie = jar.session_cookie ≡ none
IsExtension tokens jar (valid c) =
    (value : String) × (jar.session_cookie ≡ some value) × (tokens.decode value ≡ ok c)

-- The method is safe, or the host is named and the origin is absent or text.
abbrev pub IsReadable : Request → Type 0
IsReadable req =
    (is_safe req.method ≡ true) ⊎ ((host : List ℕ) × (req.host ≡ text host) × (req.origin ≢ opaque))

-- The router that shows what it is given.
abbrev pub shows : Request → AuthExtension → Res (Request × AuthExtension) (ℕ × Body)
shows req extension = err (req, extension)

called_iff :
    (tokens : Tokens) (req req' : Request) (extension : AuthExtension) (a : Api AuthExtension)
    → (called tokens (shows req) a ≡ err (req', extension)) ↔ ((req ≡ req') × (a ≡ ok extension))
called_iff tokens req req' extension (ok e) = ((λ h. (cc, cc)), (λ (same, is). cc))
called_iff tokens req req' extension (err e) = ((λ h. cc), (λ (same, is). cc))
called_iff tokens req req' extension panic = ((λ h. cc), (λ (same, is). cc))

service_iff :
    (tokens : Tokens) (session : Jar) (req req' : Request) (extension : AuthExtension)
    → (Service.call tokens (shows req) session ≡ err (req', extension))
      ↔ ((req ≡ req') × (handle_auth tokens session ≡ ok extension))
unfolding Service.call
service_iff tokens session req req' extension =
    called_iff tokens req req' extension (handle_auth tokens session)

token-valid : (r : Res JwtError Claims) → read_token r ≢ ok missing_cookie
token-valid (ok c) = λ h. cc
token-valid (err e) = λ h. cc
token-valid panic = λ h. cc

missing_iff :
    (tokens : Tokens) (o : Option String) → (read_cookie tokens o ≡ ok missing_cookie) ↔ (o ≡ none)
missing_iff tokens none = ((λ _. refl), (λ _. refl))
missing_iff tokens (some v) = ((λ h. absurd (token-valid (tokens.decode v) h)), (λ h. cc))

handle_auth-IsExtension :
    (tokens : Tokens) (session : Jar) (extension : AuthExtension)
    → (handle_auth tokens session ≡ ok extension) ↔ IsExtension tokens session extension
handle_auth-IsExtension tokens session missing_cookie =
    unfold handle_auth in missing_iff tokens session.session_cookie
handle_auth-IsExtension tokens session (valid c) = handle_auth_iff tokens session c

origin_iff :
    (https wildcard : Bool) (hosts : List (List ℕ)) (host origin : Header)
    → wildcard ≡ true
    → OriginPasses https wildcard hosts host origin
      ↔ ((named : List ℕ) × (host ≡ text named) × (origin ≢ opaque))
origin_iff https wildcard hosts (text h) absent all = ((λ _. (h, refl, λ e. cc)), (λ _. tt))
origin_iff https wildcard hosts (text h) (text o) all =
    ((λ _. (h, refl, λ e. cc)), (λ _. inr (inl all)))
origin_iff https wildcard hosts (text h) opaque all =
    ((λ p. absurd p), (λ (named, is, readable). readable refl))
origin_iff https wildcard hosts absent origin all = ((λ p. absurd p), (λ (named, is, readable). cc))
origin_iff https wildcard hosts opaque origin all = ((λ p. absurd p), (λ (named, is, readable). cc))

all_hosts : layer allowed_hosts ≡ true
unfolding layer
all_hosts = (contains_text_iff allowed_hosts (codes "*")).1 (Memᴰ.head refl)

checked_iff :
    (fresh : List ℕ) (req : Request) (cookies : Cookies)
    → ((check_csrf fresh req (layer allowed_hosts) allowed_hosts cookies).0 ≡ ok tt)
      ↔ (TokenPasses req.csrf_token cookies.csrf_cookie × IsReadable req)
checked_iff fresh req cookies =
    let both = check_csrf_iff fresh req (layer allowed_hosts) allowed_hosts cookies in
    let origin =
      origin_iff req.https (layer allowed_hosts) allowed_hosts req.host req.origin all_hosts in
    (
      (λ h. ((both.0 h).0, elim (both.0 h).1 [ inl s ↦ inl s | inr o ↦ inr (origin.0 o) ])),
      (λ (t, r). both.1 (t, elim r [ inl s ↦ inl s | inr o ↦ inr (origin.1 o) ])),
    )

-- What the outer layer's call comes to, by the result of the check.
served_iff :
    (tokens : Tokens) (session : Jar) (req : Request) (extension : AuthExtension)
    (r : Res Check.Response (Unit {0}))
    → (served tokens shows session
          (elim r [ ok _ ↦ some (future req) | err e ↦ some (declined e) | panic ↦ none ])
        ≡ err (req, extension))
      ↔ ((r ≡ ok tt) × (handle_auth tokens session ≡ ok extension))
served_iff tokens session req extension (ok _) =
    let inner = service_iff tokens session req req extension in
    ((λ h. (refl, (inner.0 h).1)), (λ (is, e). inner.1 (refl, e)))
served_iff tokens session req extension (err e) = ((λ h. cc), (λ (is, e). cc))
served_iff tokens session req extension panic = ((λ h. cc), (λ (is, e). cc))

-- A request comes through the layers of the API to the router, with an extension, exactly if its CSRF
-- token passes, its method is safe or else its `Host` header is text and its `Origin` header absent or
-- text, and the extension is what its session cookie decodes to, or that it has none.
pub setup_api_v1_iff :
    (fresh : List ℕ) (tokens : Tokens) (req : Request) (cookies : Cookies) (session : Jar)
    (extension : AuthExtension)
    → ((setup_api_v1 tokens fresh shows req cookies session).0 ≡ err (req, extension)) ↔ (
        TokenPasses req.csrf_token cookies.csrf_cookie
        × IsReadable req
        × IsExtension tokens session extension)
unfolding setup_api_v1 Check.call
setup_api_v1_iff fresh tokens req cookies session extension =
    let checked = checked_iff fresh req cookies in
    let known = handle_auth-IsExtension tokens session extension in
    let inner =
      served_iff tokens session req extension
        (check_csrf fresh req (layer allowed_hosts) allowed_hosts cookies).0 in
    (
      (λ h. let (passes, e) = inner.0 h in let (t, r) = checked.0 passes in (t, r, known.0 e)),
      (λ (t, r, e). inner.1 (checked.1 (t, r), known.1 e)),
    )
