-- ===== src/Csrf/Check.antt =====
-- server/src/api/csrf.rs: the check of a request. Of a request it reads the method, the `Host`,
-- `Origin` and `x-csrf-token` headers, whether the URI's scheme is https, and the cookie jar.
use authust.Prelude.{
  ℕ, String, Bool, true, false, ◌||◌, Option, none, some, List, [], ◌∷◌, ◌++◌, if◌then◌else◌,
}
use authust.Prelude.Res.{Res, ok, err, panic}
use authust.Csrf.Token.{codes, text_eq, validate_token}

pub data Method : Type 0 where
  options get post put delete head trace connect patch : Method
  extension : List ℕ → Method

-- A header that is absent, that is no visible ASCII (`to_str` fails), or that is a text.
pub data Header : Type 0 where
  absent : Header
  opaque : Header
  text : List ℕ → Header

pub record Request : Type 0 where
  pub method : Method
  pub https : Bool
  pub host : Header
  pub origin : Header
  pub csrf_token : Header

-- The jar of the cookie layer: the value of the cookie `csrf-token`, and the values added to the
-- response under that name (`SameSite=Lax`, path "/").
pub record Cookies : Type 0 where
  pub csrf_cookie : Option (List ℕ)
  pub added : List (List ℕ)

-- A status code and a body.
pub data Response : Type 0 where
  response : (status : ℕ) (body : String) → Response

unfoldable pub csrf_error_response : Response
csrf_error_response = response 403 "CSRF Error"

pub data CsrfCookieError : Type 0 where
  missing_cookie invalid_header validation_error : CsrfCookieError

-- The methods of the `matches!`.
unfoldable pub is_safe : Method → Bool
is_safe get = true
is_safe head = true
is_safe options = true
is_safe trace = true
is_safe _ = false

-- `add_csrf_cookie`, with the text that `generate_csrf` draws.
unfoldable pub add_csrf_cookie : List ℕ → Cookies → Cookies
add_csrf_cookie fresh jar = record { csrf_cookie = some fresh; added = jar.added ++ fresh ∷ [] }

abbrev pub check_token : Option Bool → Res CsrfCookieError (Unit {0})
check_token none = panic
check_token (some true) = ok tt
check_token (some false) = err validation_error

abbrev pub check_header : Header → List ℕ → Res CsrfCookieError (Unit {0})
check_header absent cookie = err invalid_header
check_header opaque cookie = err invalid_header
check_header (text s) cookie = check_token (validate_token s cookie)

unfoldable pub check_stored :
    (fresh : List ℕ)
    → Header
    → (add : Bool) → Cookies
    → Option (List ℕ)
    → Res CsrfCookieError (Unit {0}) × Cookies
check_stored fresh header add jar none =
    (err missing_cookie, if add then add_csrf_cookie fresh jar else jar)
check_stored fresh header add jar (some cookie) = (check_header header cookie, jar)

unfoldable pub check_cookie :
    (fresh : List ℕ) → Request → (add : Bool) → Cookies → Res CsrfCookieError (Unit {0}) × Cookies
unfolding check_stored add_csrf_cookie
check_cookie fresh req add jar = check_stored fresh req.csrf_token add jar jar.csrf_cookie

-- Both callers drop every error of `check_cookie` but `ValidationError`.
abbrev pub refuse_invalid :
    Res CsrfCookieError (Unit {0}) × Cookies → Res Response (Unit {0}) × Cookies
refuse_invalid (err validation_error, jar) = (err csrf_error_response, jar)
refuse_invalid (panic, jar) = (panic, jar)
refuse_invalid (_, jar) = (ok tt, jar)

abbrev pub scheme_prefix : Bool → List ℕ
scheme_prefix true = codes "https://"
scheme_prefix false = codes "http://"

-- `Vec<String>::contains`.
unfoldable pub contains_text : List (List ℕ) → List ℕ → Bool
contains_text [] t = false
contains_text (h ∷ hosts) t = text_eq h t || contains_text hosts t

-- `host == origin || allowed_hosts_wildcard || allowed_hosts.contains(&host)`.
unfoldable pub origin_allowed :
    (https wildcard : Bool) (allowed_hosts : List (List ℕ)) (host origin : List ℕ) → Bool
origin_allowed https wildcard allowed_hosts host origin =
    let own = scheme_prefix https ++ host in
    text_eq own origin || wildcard || contains_text allowed_hosts own

-- The `Origin` test of a request whose `Host` header is `host`.
abbrev pub check_origin :
    Header → (https wildcard : Bool) → List (List ℕ) → List ℕ → Res Response (Unit {0})
check_origin absent https wildcard hosts host = ok tt
check_origin opaque https wildcard hosts host = err (response 400 "")
check_origin (text origin) https wildcard hosts host =
    if origin_allowed https wildcard hosts host origin then ok tt else err csrf_error_response

abbrev pub check_host :
    Header → Header → (https wildcard : Bool) → List (List ℕ) → Res Response (Unit {0})
check_host absent origin https wildcard hosts = err (response 400 "Misssing host header")
check_host opaque origin https wildcard hosts = err (response 400 "Invalid Host header")
check_host (text host) origin https wildcard hosts = check_origin origin https wildcard hosts host

abbrev pub then_cookie :
    (fresh : List ℕ)
    → Request
    → Cookies
    → Res Response (Unit {0})
    → Res Response (Unit {0}) × Cookies
then_cookie fresh req jar (ok _) = refuse_invalid (check_cookie fresh req true jar)
then_cookie fresh req jar (err r) = (err r, jar)
then_cookie fresh req jar panic = (panic, jar)

unfoldable pub check_csrf :
    (fresh : List ℕ)
    → Request
    → (wildcard : Bool) → (allowed_hosts : List (List ℕ)) → Cookies
    → Res Response (Unit {0}) × Cookies
check_csrf fresh req wildcard hosts jar =
    if is_safe req.method
    then refuse_invalid (check_cookie fresh req true jar)
    else then_cookie fresh req jar (check_host req.host req.origin req.https wildcard hosts)

-- `CsrfLayer::layer`: the wildcard flag of the endpoint.
unfoldable pub layer : List (List ℕ) → Bool
unfolding contains_text text_eq
layer allowed_hosts = contains_text allowed_hosts (codes "*")

-- `CsrfEndpoint::call`: a refused request never reaches the inner service.
pub data CsrfFuture : Type 0 where
  declined : Response → CsrfFuture
  future : Request → CsrfFuture

unfoldable pub call :
    (fresh : List ℕ)
    → (allowed_hosts : List (List ℕ)) → Request
    → Cookies
    → Option CsrfFuture × Cookies
call fresh hosts req jar =
    let (r, jar') = check_csrf fresh req (layer hosts) hosts jar in
    (elim r [ ok _ ↦ some (future req) | err e ↦ some (declined e) | panic ↦ none ], jar')
