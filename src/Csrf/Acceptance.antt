-- ===== src/Csrf/Acceptance.antt =====
-- Which requests the CSRF check lets through, and what it leaves in the cookie jar.
use authust.Prelude.{
  ℕ, Bool, true, Option, none, some, List, [], ◌∷◌, ◌++◌, ◌≡◌, ◌↔◌, ◌⊎◌, inl, inr, refl, sym, arith,
  Bool-cases,
}
use mathlib.Core.List.{Memᴰ}
use authust.Prelude.Res.{ok}
use authust.Csrf.Token.{text_eq, validate_token}
use authust.Csrf.Roundtrip.{text_eq_refl}
use authust.Csrf.Check.{
  Request, Cookies, Header, absent, opaque, text, is_safe, origin_allowed, scheme_prefix,
  check_csrf, check_cookie, check_stored, contains_text, refuse_invalid, check_host,
}

-- The token does not stand in the way: no cookie yet, no readable header, or a valid token.
abbrev pub TokenPasses : Header → Option (List ℕ) → Type 0
TokenPasses h none = Unit
TokenPasses absent (some c) = Unit
TokenPasses opaque (some c) = Unit
TokenPasses (text s) (some c) = validate_token s c ≡ some true

-- The host is named, and the origin is absent, or the host itself, or listed, or all are allowed.
abbrev pub OriginPasses : (https wildcard : Bool) → List (List ℕ) → Header → Header → Type 0
OriginPasses https wildcard hosts (text h) absent = Unit
OriginPasses https wildcard hosts (text h) (text o) =
    (scheme_prefix https ++ h ≡ o) ⊎ (wildcard ≡ true) ⊎ Memᴰ (scheme_prefix https ++ h) hosts
OriginPasses _ _ _ _ _ = ⊥

text_eq-eq : (a b : List ℕ) → text_eq a b ≡ true → a ≡ b
unfolding text_eq
text_eq-eq [] [] h = refl
text_eq-eq (x ∷ a) (y ∷ b) h = ground (arith, text_eq-eq a b)
text_eq-eq [] (y ∷ b) h = cc
text_eq-eq (x ∷ a) [] h = cc

text_eq_iff : (a b : List ℕ) → (text_eq a b ≡ true) ↔ (a ≡ b)
text_eq_iff a b = (text_eq-eq a b, λ e. rw e (text_eq_refl b))

contains_text-Memᴰ :
    (hosts : List (List ℕ)) (t : List ℕ) → contains_text hosts t ≡ true → Memᴰ t hosts
unfolding contains_text
contains_text-Memᴰ [] t h = cc
contains_text-Memᴰ (x ∷ hosts) t h = elim (Bool-cases (text_eq x t)) [
  | inl e ↦ Memᴰ.head (sym ((text_eq_iff x t).0 e))
  | inr e ↦ Memᴰ.tail (contains_text-Memᴰ hosts t (ground arith))
]

Memᴰ-contains_text :
    (hosts : List (List ℕ)) (t : List ℕ) → Memᴰ t hosts → contains_text hosts t ≡ true
unfolding contains_text
Memᴰ-contains_text [] t m = elim m [ ]
Memᴰ-contains_text (x ∷ hosts) t (Memᴰ.head e) = ground (arith, text_eq_iff x t, e)
Memᴰ-contains_text (x ∷ hosts) t (Memᴰ.tail m) = ground (arith, Memᴰ-contains_text hosts t m)

pub contains_text_iff :
    (hosts : List (List ℕ)) (t : List ℕ) → (contains_text hosts t ≡ true) ↔ Memᴰ t hosts
contains_text_iff hosts t = (contains_text-Memᴰ hosts t, Memᴰ-contains_text hosts t)

stored_iff :
    (fresh : List ℕ) (jar : Cookies) (h : Header) (o : Option (List ℕ))
    → ((refuse_invalid (check_stored fresh h true jar o)).0 ≡ ok tt) ↔ TokenPasses h o
unfolding check_stored
stored_iff fresh jar h none = (λ _. tt, λ _. refl)
stored_iff fresh jar absent (some c) = (λ _. tt, λ _. refl)
stored_iff fresh jar opaque (some c) = (λ _. tt, λ _. refl)
stored_iff fresh jar (text s) (some c) = ground arith

origin_allowed_iff :
    (https wildcard : Bool) (hosts : List (List ℕ)) (h o : List ℕ)
    → (origin_allowed https wildcard hosts h o ≡ true)
      ↔ OriginPasses https wildcard hosts (text h) (text o)
unfolding origin_allowed
origin_allowed_iff https wildcard hosts h o = ground (
  arith,
  text_eq_iff (scheme_prefix https ++ h) o,
  contains_text_iff hosts (scheme_prefix https ++ h),
)

host_iff :
    (https wildcard : Bool) (hosts : List (List ℕ)) (host origin : Header)
    → (check_host host origin https wildcard hosts ≡ ok tt)
      ↔ OriginPasses https wildcard hosts host origin
host_iff https wildcard hosts (text h) absent = (λ _. tt, λ _. refl)
host_iff https wildcard hosts (text h) (text o) =
    ground (arith, origin_allowed_iff https wildcard hosts h o)
host_iff https wildcard hosts _ _ = (λ h. cc, λ h. elim h [ ])

-- A request passes the check exactly when its token passes and, unless its method is one of GET,
-- HEAD, OPTIONS and TRACE, its origin passes.
pub check_csrf_iff :
    (fresh : List ℕ) (req : Request) (wildcard : Bool) (hosts : List (List ℕ)) (jar : Cookies)
    → ((check_csrf fresh req wildcard hosts jar).0 ≡ ok tt) ↔ (
        TokenPasses req.csrf_token jar.csrf_cookie
        × ((is_safe req.method ≡ true) ⊎ OriginPasses req.https wildcard hosts req.host req.origin))
unfolding check_csrf check_cookie
check_csrf_iff fresh req wildcard hosts jar = ground (
  arith,
  stored_iff fresh jar req.csrf_token jar.csrf_cookie,
  host_iff req.https wildcard hosts req.host req.origin,
)
