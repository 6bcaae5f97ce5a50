-- ===== src/Prelude/Res.antt =====
-- Results of code that can return an error or panic.
use mathlib.Core.Path.{◌≡◌, refl}
use mathlib.Core.Option.{Option, none, some}

-- `panic` stands for an unwinding thread: `panic!`, `expect`, `unreachable!`, `todo!`.
pub data Res {ℓ κ} (E : Type ℓ) (A : Type κ) : Type (ℓ ⊔ κ) where
  ok : A → Res E A
  err : E → Res E A
  panic : Res E A

infixl 5 ◌>>=◌ ◌>>◌
abbrev pub ◌>>=◌ {ℓ κ μ} :
    {E : Type ℓ} {A : Type κ} {B : Type μ} → Res E A → (A → Res E B) → Res E B
ok a >>= f = f a
err e >>= f = err e
panic >>= f = panic

abbrev pub ◌>>◌ {ℓ κ μ} : {E : Type ℓ} {A : Type κ} {B : Type μ} → Res E A → Res E B → Res E B
m >> k = m >>= λ _. k

-- `Option::ok_or`, and `expect` on an `Option`.
abbrev pub ok_or {ℓ κ} : {E : Type ℓ} {A : Type κ} → Option A → E → Res E A
ok_or (some a) e = ok a
ok_or none e = err e

abbrev pub expect {ℓ κ} : {E : Type ℓ} {A : Type κ} → Option A → Res E A
expect (some a) = ok a
expect none = panic

pub >>=-eq-ok {ℓ κ μ} :
    {E : Type ℓ} {A : Type κ} {B : Type μ} (first : Res E A) (then_b : A → Res E B) {out : B}
    → (first >>= then_b) ≡ ok out
    → (x : A) × (first ≡ ok x) × (then_b x ≡ ok out)
>>=-eq-ok panic then_b h = cc
>>=-eq-ok (err e) then_b h = cc
>>=-eq-ok (ok x) then_b h = (x, refl, h)
