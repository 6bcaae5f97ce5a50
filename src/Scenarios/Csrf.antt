-- ===== src/Scenarios/Csrf.antt =====
-- Requests that meet the CSRF layer.
use Prim.Native.Nat.{ℕ, zero, suc}
use authust.Prelude.{true, false, none, some, List, [], ◌∷◌, ◌++◌, ◌≡◌, ◌≢◌, ◌↔◌, ◌⊎◌, refl, arith}
use authust.Prelude.Res.{ok}
use authust.Csrf.Token.{
  codes, position_from, position, alphanumeric_chars, byte_len, mask_csrf, unmask_csrf,
  validate_token, text_eq,
}
use authust.Csrf.Alphabet.{IsAlphanumeric, All}
use authust.Csrf.Roundtrip.{unmask_csrf-mask_csrf, validate_token-mask_csrf}
use authust.Csrf.Check.{
  post, get, absent, text, Request, Cookies, is_safe, check_stored, check_cookie, check_csrf,
  contains_text, origin_allowed, call,
}
use authust.Csrf.Acceptance.{TokenPasses, OriginPasses, check_csrf_iff}
use authust.Csrf.Service.{issued, check_csrf-issued, call_panics}

abbrev replicate : ℕ → ℕ → List ℕ
replicate zero c = []
replicate (suc n) c = c ∷ replicate n c

replicate-All : (n c : ℕ) → IsAlphanumeric c → All IsAlphanumeric (replicate n c)
replicate-All zero c h = tt
replicate-All (suc n) c h = (h, replicate-All n c h)

a-IsAlphanumeric : IsAlphanumeric 97
unfolding position position_from alphanumeric_chars
a-IsAlphanumeric = (0, refl)

z-IsAlphanumeric : IsAlphanumeric 122
unfolding position position_from alphanumeric_chars
z-IsAlphanumeric = (25, refl)

abbrev mask : List ℕ
mask = replicate 32 97

abbrev secret : List ℕ
secret = replicate 32 122

unmask_csrf-mask_csrf_example :
    (token : List ℕ) × (mask_csrf mask secret ≡ some token) × (unmask_csrf token ≡ some secret)
unmask_csrf-mask_csrf_example =
    unmask_csrf-mask_csrf mask secret (replicate-All 32 97 a-IsAlphanumeric) refl
      (replicate-All 32 122 z-IsAlphanumeric) (omega arith)

validate_token-mask_csrf_example :
    (token : List ℕ) × (mask_csrf mask secret ≡ some token)
    × (validate_token token secret ≡ some true)
    × (validate_token secret secret ≡ some true)
validate_token-mask_csrf_example =
    validate_token-mask_csrf mask secret (replicate-All 32 97 a-IsAlphanumeric) refl
      (replicate-All 32 122 z-IsAlphanumeric) refl

abbrev host : List ℕ
host = codes "localhost"

abbrev first_post : Request
first_post = record {
  method = post;
  https = false;
  host = text host;
  origin = absent;
  csrf_token = absent;
}

abbrev no_cookies : Cookies
no_cookies = record { csrf_cookie = none; added = [] }

check_csrf_iff_example : ((check_csrf secret first_post false [] no_cookies).0 ≡ ok tt) ↔ (
    TokenPasses absent none
    × ((is_safe post ≡ true) ⊎ OriginPasses false false [] (text host) absent))
check_csrf_iff_example = check_csrf_iff secret first_post false [] no_cookies

passes : (check_csrf secret first_post false [] no_cookies).0 ≡ ok tt
unfolding check_csrf is_safe check_cookie check_stored
passes = refl

check_csrf-issued_example :
    (check_csrf secret first_post false [] no_cookies).1 ≡ issued secret no_cookies none
check_csrf-issued_example = check_csrf-issued secret first_post false [] no_cookies passes

abbrev foreign_post : Request
foreign_post = record first_post { origin = text (codes "http://elsewhere") }

-- Without the wildcard, a foreign origin is refused.
refuses : (check_csrf secret foreign_post false [] no_cookies).0 ≢ ok tt
unfolding check_csrf is_safe origin_allowed contains_text text_eq
refuses = λ h. cc

-- 64 bytes, with a dash after the mask.
abbrev broken : List ℕ
broken = replicate 31 97

abbrev broken_get : Request
broken_get = record first_post { method = get; csrf_token = text (mask ++ 45 ∷ broken) }

abbrev cookies : Cookies
cookies = record { csrf_cookie = some secret; added = [] }

call_panics_example : (call secret [] broken_get cookies).0 ≡ none
unfolding is_safe byte_len position position_from alphanumeric_chars
call_panics_example =
    call_panics secret [] broken_get cookies mask broken secret 45 refl refl refl
      (replicate-All 32 97 a-IsAlphanumeric) refl refl refl
