-- ===== src/Prelude/Maps.antt =====
-- `HashMap`: `get` and `insert`, as an association list.
use mathlib.Core.Path.{◌≡◌, refl}
use mathlib.Core.Option.{Option, none, some}
use mathlib.Core.List.{List, [], ◌∷◌}
use native.Mathlib.Omega.{arith}
use authust.Prelude.Tests.{if◌then◌else◌}
use authust.Prelude.Eq.{Eq, ◌==◌, ==_refl}

module _ {ℓ κ} {K : Type ℓ} {V : Type κ} ⦃e : Eq K⦄ where
  unfoldable pub lookup : K → List (K × V) → Option V
  lookup wanted [] = none
  lookup wanted ((k, v) ∷ rest) = if k == wanted then some v else lookup wanted rest

  unfoldable pub insert : K → V → List (K × V) → List (K × V)
  insert key value [] = (key, value) ∷ []
  insert key value ((k, v) ∷ rest) =
      if k == key then (key, value) ∷ rest else (k, v) ∷ insert key value rest

  pub lookup-insert :
      (key wanted : K) (value : V) (entries : List (K × V))
      → lookup wanted (insert key value entries)
        ≡ (if key == wanted then some value else lookup wanted entries)
  unfolding lookup insert
  lookup-insert key wanted value [] = refl
  lookup-insert key wanted value ((other, old) ∷ entries) = ground (
    arith,
    lookup-insert key wanted value entries,
    e.beq_iff other key,
    e.beq_iff other wanted,
    e.beq_iff key wanted,
  )

  pub lookup-insert_self : (k : K) (v : V) (m : List (K × V)) → lookup k (insert k v m) ≡ some v
  lookup-insert_self k v m = simp (lookup-insert, ==_refl)
