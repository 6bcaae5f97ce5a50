-- ===== src/Csrf/Alphabet.antt =====
-- The 62 characters of a token, and their indices.
use authust.Prelude.{
  ℕ, zero, suc, ◌+◌, ◌<◌, ◌≡◌, refl, ap, length, Bool, true, false, Option, none, some, List, [],
  inl, inr, ◌∷◌, arith, ltb, get_elem?, ◌&&◌,
}
use authust.Prelude.Eq.{==_cases, Eq-nat, ◌==◌}
use authust.Csrf.Token.{alphanumeric_chars, alphanumeric_range, position_from, position}

-- The character occurs in `ALPHANUMERIC_CHARS`.
abbrev pub IsAlphanumeric : ℕ → Type 0
IsAlphanumeric c = (x : ℕ) × (position c ≡ some x)

abbrev pub All : (ℕ → Type 0) → List ℕ → Type 0
All P [] = Unit
All P (x ∷ xs) = P x × All P xs

position_from-get :
    (i : ℕ) (vs : List ℕ) (c x : ℕ)
    → position_from i vs c ≡ some x
    → (d : ℕ) × (x ≡ i + d) × (get_elem? vs d ≡ some c) × (d < length vs)
unfolding position_from
position_from-get i [] c x h = cc
position_from-get i (v ∷ vs) c x h = elim (==_cases v c) [
  | inl (t, e) ↦ (0, ground arith, ap some e, omega arith)
  | inr (f, e) ↦
      let (d, eq, got, lt) = position_from-get (i + 1) vs c x (ground arith) in
      (suc d, omega arith, got, omega arith)
]

-- The character `o` at index `i` is found at `i`, and takes one byte.
abbrev found_at : ℕ → Option ℕ → Bool
found_at i none = false
found_at i (some c) = is_at (position c) && ltb c 0x80
  where
    is_at : Option ℕ → Bool
    is_at none = false
    is_at (some j) = j == i

-- The first `count` characters of the alphabet are found where they are.
first_found : (count : ℕ) → Bool
first_found zero = true
first_found (suc last) = first_found last && found_at last (get_elem? alphanumeric_chars last)

first_found-found_at :
    (count i : ℕ)
    → i < count
    → first_found count ≡ true
    → found_at i (get_elem? alphanumeric_chars i) ≡ true
unfolding first_found
first_found-found_at zero i below h = absurd (omega arith)
first_found-found_at (suc last) i below h = elim (==_cases i last) [
  | inl (_, same) ↦ ground (arith, same, h)
  | inr (_, other) ↦ first_found-found_at last i (omega (arith, other)) (ground (arith, h))
]

found_table : first_found 62 ≡ true
unfolding first_found position
found_table = refl

found_at_sound :
    (i : ℕ) (o : Option ℕ)
    → found_at i o ≡ true
    → (c : ℕ) × (o ≡ some c) × (position c ≡ some i) × (c < 0x80)
found_at_sound i none h = cc
found_at_sound i (some c) h = (c, refl, ground arith, ground arith)

pub char_at :
    (i : ℕ)
    → i < alphanumeric_range
    → (c : ℕ) × (get_elem? alphanumeric_chars i ≡ some c) × (position c ≡ some i) × (c < 0x80)
char_at i h = found_at_sound i _ (first_found-found_at 62 i h found_table)

pub position-get :
    (c x : ℕ)
    → position c ≡ some x
    → (get_elem? alphanumeric_chars x ≡ some c) × (x < alphanumeric_range)
unfolding position
position-get c x h =
    let (d, eq, got, lt) = position_from-get 0 alphanumeric_chars c x h in
    let same : x ≡ d = omega arith in rw same (got, unfold alphanumeric_chars in lt)
