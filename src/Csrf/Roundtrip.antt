-- ===== src/Csrf/Roundtrip.antt =====
-- A masked secret is unmasked to the secret, and validates against it.
use authust.Prelude.{
  ℕ, suc, ◌+◌, ◌-◌, ◌≤◌, ◌<◌, ◌≡◌, refl, Bool, true, false, some, List, [], ◌∷◌, ◌++◌, arith,
  length,
}
use authust.Csrf.Token.{
  position, shift, mask_op, mask_csrf, unmask_csrf, validate_token, split_at, byte_len, utf8_len,
  csrf_secret_length, text_eq,
}
use authust.Csrf.Alphabet.{IsAlphanumeric, All, char_at, position-get}

ascii : (c i : ℕ) → position c ≡ some i → utf8_len c ≡ 1
ascii c i p =
    let (got, lt) = position-get c i p in
    let (d, got_d, pos_d, small) = char_at i lt in let same : c ≡ d = cc in rw same (ground arith)

shift-lt : (add : Bool) (x y : ℕ) → x < 62 → y < 62 → shift add x y < 62
unfolding shift
shift-lt true x y hx hy = omega arith
shift-lt false x y hx hy = ground arith

shift-shift : (x y : ℕ) → x < 62 → y < 62 → shift false (shift true x y) y ≡ x
unfolding shift
shift-shift x y hx hy = ground arith

-- One character masked and unmasked.
mask_char :
    (c m : ℕ)
    → IsAlphanumeric c
    → IsAlphanumeric m
    → (z : ℕ) × IsAlphanumeric z
      × (mask_op (m ∷ []) (c ∷ []) true ≡ some (z ∷ []))
      × (mask_op (m ∷ []) (z ∷ []) false ≡ some (c ∷ []))
unfolding mask_op
mask_char c m (x, hc) (y, hm) =
    let (got_c, lt_c) = position-get c x hc in
    let (got_m, lt_m) = position-get m y hm in
    let (z, got_z, pos_z, _) = char_at (shift true x y) (shift-lt true x y lt_c lt_m) in
    (
      z,
      (shift true x y, pos_z),
      rw (hc, hm, got_z),
      rw (pos_z, hm, shift-shift x y lt_c lt_m, got_c),
    )

mask_op-cons :
    (m c z : ℕ) (mask chars out : List ℕ) (add : Bool)
    → mask_op (m ∷ []) (c ∷ []) add ≡ some (z ∷ [])
    → mask_op mask chars add ≡ some out
    → mask_op (m ∷ mask) (c ∷ chars) add ≡ some (z ∷ out)
unfolding mask_op
mask_op-cons m c z mask chars out add h k = ground arith

-- A secret no longer than the mask is masked, and comes back.
mask_op-mask_op :
    (mask secret : List ℕ)
    → All IsAlphanumeric mask
    → All IsAlphanumeric secret
    → length secret ≤ length mask
    → (out : List ℕ) × (mask_op mask secret true ≡ some out)
      × (mask_op mask out false ≡ some secret)
      × (byte_len out ≡ length secret)
unfolding mask_op byte_len
mask_op-mask_op mask [] hm hs le = ([], refl, refl, refl)
mask_op-mask_op [] (c ∷ secret) hm hs le = absurd (omega arith)
mask_op-mask_op (m ∷ mask) (c ∷ secret) (am, hm) (ac, hs) le =
    let (z, (i, pos_z), masked, unmasked) = mask_char c m ac am in
    let (out, there, back, len) = mask_op-mask_op mask secret hm hs (omega arith) in
    (
      z ∷ out,
      mask_op-cons m c z mask secret out true masked there,
      mask_op-cons m z c mask out secret false unmasked back,
      ground (arith, len, ascii z i pos_z),
    )

pub byte_len-alphanumeric : (s : List ℕ) → All IsAlphanumeric s → byte_len s ≡ length s
unfolding byte_len
byte_len-alphanumeric [] h = refl
byte_len-alphanumeric (c ∷ s) ((i, p), h) = ground (arith, ascii c i p, byte_len-alphanumeric s h)

pub byte_len-append : (s t : List ℕ) → byte_len (s ++ t) ≡ byte_len s + byte_len t
unfolding byte_len
byte_len-append [] t = omega arith
byte_len-append (c ∷ s) t = omega (arith, byte_len-append s t)

-- A cut at the end of a text of one-byte characters.
pub split_at-append :
    (s t : List ℕ) → All IsAlphanumeric s → split_at (s ++ t) (length s) ≡ some (s, t)
unfolding split_at
split_at-append [] [] h = refl
split_at-append [] (c ∷ t) h = refl
split_at-append (c ∷ s) t ((i, p), h) =
    let same : suc (length s) - utf8_len c ≡ length s = omega (arith, ascii c i p) in
    rw (same, split_at-append s t h, ascii c i p) (ground arith)

pub text_eq_refl : (s : List ℕ) → text_eq s s ≡ true
unfolding text_eq
text_eq_refl [] = refl
text_eq_refl (c ∷ s) = ground (arith, text_eq_refl s)

-- A mask drawn from the 32 characters of a secret, and a secret of at most that length: masking
-- succeeds and unmasking the result gives the secret back.
pub unmask_csrf-mask_csrf :
    (mask secret : List ℕ)
    → All IsAlphanumeric mask
    → length mask ≡ csrf_secret_length
    → All IsAlphanumeric secret
    → length secret ≤ csrf_secret_length
    → (token : List ℕ) × (mask_csrf mask secret ≡ some token) × (unmask_csrf token ≡ some secret)
unfolding mask_csrf unmask_csrf
unmask_csrf-mask_csrf mask secret hm lm hs le =
    let (out, there, back, len) = mask_op-mask_op mask secret hm hs (omega arith) in
    let cut : split_at (mask ++ out) csrf_secret_length ≡ some (mask, out) =
      rw lm at (split_at-append mask out hm) in
    (mask ++ out, rw there, rw cut back)

-- A mask and a secret of the 32 characters that `generate_csrf` draws from the alphabet: masking
-- succeeds, and the masked token is valid for the secret, and so is the bare secret.
pub validate_token-mask_csrf :
    (mask secret : List ℕ)
    → All IsAlphanumeric mask
    → length mask ≡ csrf_secret_length
    → All IsAlphanumeric secret
    → length secret ≡ csrf_secret_length
    → (token : List ℕ) × (mask_csrf mask secret ≡ some token)
      × (validate_token token secret ≡ some true)
      × (validate_token secret secret ≡ some true)
unfolding validate_token mask_csrf unmask_csrf
validate_token-mask_csrf mask secret hm lm hs ls =
    let (out, there, back, len) = mask_op-mask_op mask secret hm hs (omega arith) in
    let cut : split_at (mask ++ out) csrf_secret_length ≡ some (mask, out) =
      rw lm at (split_at-append mask out hm) in
    let size : byte_len (mask ++ out) ≡ 64 =
      omega (arith, byte_len-append mask out, byte_len-alphanumeric mask hm) in
    let short : byte_len secret ≡ 32 = omega (arith, byte_len-alphanumeric secret hs) in
    (
      mask ++ out,
      rw there,
      rw (size, cut, back, text_eq_refl secret),
      rw (short, text_eq_refl secret),
    )
