-- ===== src/Prelude/State.antt =====
-- Steps that end in a result, an error or a panic, and leave a state in each case: what a step has
-- changed before it fails stays changed.
use mathlib.Core.Path.{◌≡◌, refl, ap}
use authust.Prelude.Res.{Res, ok, err, panic}

abbrev pub Step : Type 0 → Type 0 → Type 0 → Type 0
Step E S A = S → Res E A × S

abbrev pub continue : {E S A B : Type 0} → Res E A × S → (A → Step E S B) → Res E B × S
continue (ok a, s) f = f a s
continue (err e, s) f = (err e, s)
continue (panic, s) f = (panic, s)

infixl 5 ◌>>=◌ ◌>>◌
abbrev pub ◌>>=◌ : {E S A B : Type 0} → Step E S A → (A → Step E S B) → Step E S B
◌>>=◌ m f s = continue (m s) f

abbrev pub ◌>>◌ : {E S A B : Type 0} → Step E S A → Step E S B → Step E S B
◌>>◌ m k s = continue (m s) (λ _. k)

-- A step that does not touch the state.
abbrev pub lift : {E S A : Type 0} → Res E A → Step E S A
lift r s = (r, s)

abbrev pub pure : {E S A : Type 0} → A → Step E S A
pure a s = (ok a, s)

abbrev pub fail : {E S A : Type 0} → E → Step E S A
fail e s = (err e, s)

-- A step that ends in a result: its parts do.
pub continue-ok :
    {E S A B : Type 0} (r : Res E A × S) (f : A → Step E S B) {b : B} {t : S}
    → continue r f ≡ (ok b, t)
    → (a : A) × (s : S) × (r ≡ (ok a, s)) × (f a s ≡ (ok b, t))
continue-ok (ok a, s) f h = (a, s, refl, h)
continue-ok (err x, s) f h = cc (ap (λ v. v.0) h)
continue-ok (panic, s) f h = cc (ap (λ v. v.0) h)

pub same_result :
    {E S A : Type 0} (r r' : Res E A) (s t : S) → ◌≡◌ {A = Res E A × S} (r, s) (r', t) → r ≡ r'
same_result {E} {S} {A} r r' s t h = ap (λ (v : Res E A × S). v.0) h

pub same_state :
    {E S A : Type 0} (r r' : Res E A) (s t : S) → ◌≡◌ {A = Res E A × S} (r, s) (r', t) → s ≡ t
same_state {E} {S} {A} r r' s t h = ap (λ (v : Res E A × S). v.1) h
