-- ===== src/Csrf/Service.antt =====
-- What the CSRF layer leaves in the cookie jar, and how it ends on each kind of token.
use authust.Prelude.{
  ℕ, Bool, true, false, Option, none, some, List, [], ◌∷◌, ◌++◌, ◌≡◌, ◌≢◌, inl, inr, refl, arith,
  length,
}
use authust.Prelude.Res.{ok, panic}
use mathlib.Core.List.{Memᴰ}
use authust.Csrf.Token.{
  codes, validate_token, unmask_csrf, byte_len, position, mask_op, split_at, csrf_secret_length,
}
use authust.Csrf.Alphabet.{IsAlphanumeric, All}
use authust.Csrf.Roundtrip.{byte_len-alphanumeric, byte_len-append, split_at-append}
use authust.Csrf.Check.{
  Request, Cookies, Header, absent, opaque, text, is_safe, check_csrf, check_cookie, check_stored,
  add_csrf_cookie, refuse_invalid, layer, call, future,
}
use authust.Csrf.Acceptance.{TokenPasses, OriginPasses, check_csrf_iff, contains_text_iff}

-- The jar with a fresh cookie, or as it was if it had one.
abbrev pub issued : List ℕ → Cookies → Option (List ℕ) → Cookies
issued fresh jar none = record { csrf_cookie = some fresh; added = jar.added ++ fresh ∷ [] }
issued fresh jar (some c) = jar

stored_jar :
    (fresh : List ℕ) (jar : Cookies) (h : Header) (o : Option (List ℕ))
    → (refuse_invalid (check_stored fresh h true jar o)).1 ≡ issued fresh jar o
unfolding check_stored add_csrf_cookie
stored_jar fresh jar h none = refl
stored_jar fresh jar absent (some c) = refl
stored_jar fresh jar opaque (some c) = refl
stored_jar fresh jar (text s) (some c) = ground arith

-- A request that passes the check leaves with a CSRF cookie in the jar: its own, or the fresh one,
-- which is then the one cookie added to the response.
pub check_csrf-issued :
    (fresh : List ℕ) (req : Request) (wildcard : Bool) (hosts : List (List ℕ)) (jar : Cookies)
    → (check_csrf fresh req wildcard hosts jar).0 ≡ ok tt
    → (check_csrf fresh req wildcard hosts jar).1 ≡ issued fresh jar jar.csrf_cookie
unfolding check_csrf check_cookie
check_csrf-issued fresh req wildcard hosts jar h =
    ground (arith, stored_jar fresh jar req.csrf_token jar.csrf_cookie)

call-passes :
    (fresh : List ℕ) (hosts : List (List ℕ)) (req : Request) (jar : Cookies)
    → (check_csrf fresh req (layer hosts) hosts jar).0 ≡ ok tt
    → (call fresh hosts req jar).0 ≡ some (future req)
unfolding call
call-passes fresh hosts req jar h = ground (arith, h)

origin_of_wildcard :
    (https wildcard : Bool) (hosts : List (List ℕ)) (host : List ℕ) (origin : Header)
    → wildcard ≡ true
    → origin ≢ opaque
    → OriginPasses https wildcard hosts (text host) origin
origin_of_wildcard https wildcard hosts host absent w o = tt
origin_of_wildcard https wildcard hosts host opaque w o = absurd (o refl)
origin_of_wildcard https wildcard hosts host (text s) w o = inr (inl w)

-- Where the layer was set up with a list that holds "*", no origin is refused: a request of any
-- method that names its host and whose `Origin` header is absent or readable reaches the inner
-- service if its token passes.
call_wildcard :
    (fresh : List ℕ) (hosts : List (List ℕ)) (req : Request) (jar : Cookies) {host : List ℕ}
    → Memᴰ (codes "*") hosts
    → req.host ≡ text host
    → req.origin ≢ opaque
    → TokenPasses req.csrf_token jar.csrf_cookie
    → (call fresh hosts req jar).0 ≡ some (future req)
unfolding layer
call_wildcard fresh hosts req jar {host} m h o t =
    let all : layer hosts ≡ true = (contains_text_iff hosts (codes "*")).1 m in
    let passes : OriginPasses req.https (layer hosts) hosts req.host req.origin =
      rw h (origin_of_wildcard req.https (layer hosts) hosts host req.origin all o) in
    call-passes fresh hosts req jar
      ((check_csrf_iff fresh req (layer hosts) hosts jar).1 (t, inr passes))

mask_op-none :
    (mask rest : List ℕ) (c : ℕ) → position c ≡ none → mask_op mask (c ∷ rest) false ≡ none
unfolding mask_op
mask_op-none [] rest c bad = rw bad
mask_op-none (m ∷ mask) rest c bad = rw bad

validate_token-none :
    (mask rest cookie : List ℕ) (c : ℕ)
    → All IsAlphanumeric mask
    → length mask ≡ csrf_secret_length
    → byte_len (c ∷ rest) ≡ csrf_secret_length
    → position c ≡ none
    → validate_token (mask ++ c ∷ rest) cookie ≡ none
unfolding validate_token unmask_csrf
validate_token-none mask rest cookie c hm lm lr bad =
    let size : byte_len (mask ++ c ∷ rest) ≡ 64 =
      omega (arith, byte_len-append mask (c ∷ rest), byte_len-alphanumeric mask hm) in
    let cut : split_at (mask ++ c ∷ rest) csrf_secret_length ≡ some (mask, c ∷ rest) =
      rw lm at (split_at-append mask (c ∷ rest) hm) in
    rw (size, cut, mask_op-none mask rest c bad)

-- On a request of a safe method with a CSRF cookie, a token whose first half are 32 characters of the
-- alphabet, and whose second half has 32 bytes and begins with a character outside the alphabet, makes
-- the comparison panic: the handler of the request does not answer.
pub call_panics :
    (fresh : List ℕ) (hosts : List (List ℕ)) (req : Request) (jar : Cookies)
    (mask rest cookie : List ℕ) (c : ℕ)
    → is_safe req.method ≡ true
    → jar.csrf_cookie ≡ some cookie
    → req.csrf_token ≡ text (mask ++ c ∷ rest)
    → All IsAlphanumeric mask
    → length mask ≡ csrf_secret_length
    → byte_len (c ∷ rest) ≡ csrf_secret_length
    → position c ≡ none
    → (call fresh hosts req jar).0 ≡ none
unfolding call check_csrf check_cookie check_stored
call_panics fresh hosts req jar mask rest cookie c safe stored sent hm lm lr bad =
    let bad_token = validate_token-none mask rest cookie c hm lm lr bad in
    let stops : (check_csrf fresh req (layer hosts) hosts jar).0 ≡ panic =
      ground (arith, bad_token) in
    ground (arith, stops)
