-- ===== src/Csrf/Token.antt =====
-- server/src/api/csrf.rs: masking, unmasking and comparing tokens. `none` is a panic.
use Prim.Native.Char.{code}
use authust.Prelude.{
  ℕ, ◌+◌, ◌-◌, ◌%◌, ◌^◌, String, Bool, true, false, Option, none, some, List, [], ◌∷◌, ◌++◌, ltb,
  leb, length, get_elem?, if◌then◌else◌, ◌&&◌, ◌≡◌, refl,
}
use authust.Prelude.Eq.{◌==◌, Eq-nat}

-- The code points of a literal of the source.
abbrev pub codes : String → List ℕ
codes String.[] = []
codes (String.◌∷◌ c s) = code c ∷ codes s

abbrev pub csrf_secret_length : ℕ
csrf_secret_length = 32

abbrev pub csrf_token_length : ℕ
csrf_token_length = 64

unfoldable pub alphanumeric_chars : List ℕ
alphanumeric_chars = codes "abcdefghijklmnopqrstuvwxyzABCDEFGHIJKLMNOPQRSTUVWXYZ0123456789"

-- The length in the array's type `[char; 62]`.
abbrev pub alphanumeric_range : ℕ
alphanumeric_range = 62

alphanumeric_chars_len : length alphanumeric_chars ≡ alphanumeric_range
unfolding alphanumeric_chars
alphanumeric_chars_len = refl

infixl 5 ◌>>=◌
abbrev pub ◌>>=◌ {ℓ κ} : {A : Type ℓ} {B : Type κ} → Option A → (A → Option B) → Option B
none >>= k = none
some a >>= k = k a

-- `iter().position(|&v| v == c)`, from index `i` on.
unfoldable pub position_from : ℕ → List ℕ → ℕ → Option ℕ
position_from i [] c = none
position_from i (v ∷ vs) c =
    let rest = position_from (i + 1) vs c in if v == c then some i else rest

unfoldable pub position : ℕ → Option ℕ
unfolding position_from alphanumeric_chars
position c = position_from 0 alphanumeric_chars c

abbrev pub usize_mod : ℕ
usize_mod = 2 ^ 64

unfoldable pub overflowing_sub_chars : ℕ → ℕ → ℕ
overflowing_sub_chars x y =
    let value = (x + usize_mod - y) % usize_mod in
    if ltb x y then alphanumeric_range - 1 - (usize_mod - 1 - value) else value

-- The index of the masked (or unmasked) character.
unfoldable pub shift : Bool → ℕ → ℕ → ℕ
unfolding overflowing_sub_chars
shift add x y = if add then (x + y) % alphanumeric_range else overflowing_sub_chars x y

-- `zip` asks `chars` first, so a character past the end of the mask is still looked up.
unfoldable pub mask_op : List ℕ → List ℕ → Bool → Option (List ℕ)
mask_op mask [] add = some []
mask_op [] (c ∷ chars) add = do x ← position c; some []
mask_op (m ∷ mask) (c ∷ chars) add = do
  x ← position c
  y ← position m
  z ← get_elem? alphanumeric_chars (shift add x y)
  out ← mask_op mask chars add
  some (z ∷ out)

-- `str::len` and slicing count bytes of UTF-8; a cut inside a character or past the end panics.
abbrev pub utf8_len : ℕ → ℕ
utf8_len c = if ltb c 0x80 then 1 else if ltb c 0x800 then 2 else if ltb c 0x10000 then 3 else 4

unfoldable pub byte_len : List ℕ → ℕ
byte_len [] = 0
byte_len (c ∷ s) = utf8_len c + byte_len s

-- `(&s[..n], &s[n..])`.
unfoldable pub split_at : List ℕ → ℕ → Option (List ℕ × List ℕ)
split_at [] n = if n == 0 then some ([], []) else none
split_at (c ∷ s) n =
    let rest = split_at s (n - utf8_len c) in
    if n == 0
    then some ([], c ∷ s)
    else if leb (utf8_len c) n
    then (do p ← rest; some (c ∷ p.0, p.1))
    else none

unfoldable pub unmask_csrf : List ℕ → Option (List ℕ)
unmask_csrf token = do p ← split_at token csrf_secret_length; mask_op p.0 p.1 false

-- `generate_csrf` draws the mask: it is an argument.
unfoldable pub mask_csrf : (mask_str secret : List ℕ) → Option (List ℕ)
mask_csrf mask_str secret = do out ← mask_op mask_str secret true; some (mask_str ++ out)

-- `str == str`.
unfoldable pub text_eq : List ℕ → List ℕ → Bool
text_eq [] [] = true
text_eq (a ∷ as') (b ∷ bs) = a == b && text_eq as' bs
text_eq [] (_ ∷ _) = false
text_eq (_ ∷ _) [] = false

unfoldable pub validate_token : (request_token secret : List ℕ) → Option Bool
unfolding text_eq
validate_token request_token secret =
    if byte_len request_token == csrf_token_length
    then (do token ← unmask_csrf request_token; some (text_eq token secret))
    else some (text_eq request_token secret)
