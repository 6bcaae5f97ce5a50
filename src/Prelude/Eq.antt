-- ===== src/Prelude/Eq.antt =====
-- Rust's `==` as an interface: a Boolean test that decides equality.
use Prim.Native.Nat.{ℕ}
use Prim.Native.String.{String}
use mathlib.Core.Path.{◌≡◌, refl}
use mathlib.Core.Logic.{◌↔◌, ◌⊎◌, ◌≢◌, inl, inr}
use mathlib.Core.Bool.{Bool, true, false, ◌||◌}
use mathlib.Core.Option.{Option, none, some}
use mathlib.Core.List.{List, [], ◌∷◌}
use text.Mathlib.Text.{◌==◌ as str_eq}
use text.Mathlib.TextEquality.{eq_iff}
use authust.Prelude.Tests.{◌==◌ as nat_eq, ==_iff, Bool-cases}
use authust.Prelude.Int.{ℤ, eqb_ℤ, eqb_ℤ_iff}

pub record Eq {ℓ} (A : Type ℓ) : Type ℓ where
  pub beq : A → A → Bool
  pub beq_iff : (x y : A) → (beq x y ≡ true) ↔ (x ≡ y)

infix 50 ◌==◌
abbrev pub ◌==◌ {ℓ} : {A : Type ℓ} ⦃e : Eq A⦄ → A → A → Bool
◌==◌ ⦃e⦄ = e.beq

instance abbrev pub Eq-nat : Eq ℕ
Eq-nat = record { beq = nat_eq; beq_iff = ==_iff }

instance abbrev pub Eq-string : Eq String
Eq-string = record { beq = str_eq; beq_iff = eq_iff }

instance abbrev pub Eq-int : Eq ℤ
Eq-int = record { beq = eqb_ℤ; beq_iff = eqb_ℤ_iff }

module _ {ℓ} {A : Type ℓ} ⦃e : Eq A⦄ where
  pub ==_refl : (a : A) → (a == a) ≡ true
  ==_refl a = (e.beq_iff a a).1 refl

  pub ==_cases : (a b : A) → (((a == b) ≡ true) × (a ≡ b)) ⊎ (((a == b) ≡ false) × (a ≢ b))
  ==_cases a b = elim (Bool-cases (a == b)) [
    | inl h ↦ inl (h, (e.beq_iff a b).0 h)
    | inr h ↦ inr (h, λ p. cc (h, (e.beq_iff a b).1 p))
  ]

  -- `Vec::contains`.
  unfoldable pub contains : List A → A → Bool
  contains [] a = false
  contains (x ∷ xs) a = x == a || contains xs a

-- `Option<T> == Option<T>`.
abbrev pub opt_eq {ℓ} : {A : Type ℓ} ⦃e : Eq A⦄ → Option A → Option A → Bool
opt_eq none none = true
opt_eq (some a) (some b) = a == b
opt_eq _ _ = false
