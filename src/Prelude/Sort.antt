-- ===== src/Prelude/Sort.antt =====
-- `Vec::sort_by_key` of Rust, a stable sort: the ascending rearrangement of the list in which items
-- of one key keep their order. The model computes it by insertion.
use authust.Prelude.Int.{ℤ, leb_ℤ, eqb_ℤ, eqb_ℤ_iff}
use authust.Prelude.Tests.{if◌then◌else◌, Bool-cases}
use mathlib.Core.Path.{◌≡◌, refl, sym, ap, ◌∙◌}
use mathlib.Core.Logic.{◌⊎◌, inl, inr}
use mathlib.Core.Bool.{true, false}
use mathlib.Core.List.{List, [], ◌∷◌, Perm}
use mathlib.Core.List.Perm
use native.Mathlib.Omega.{arith}

leb_ℤ_total : (a b : ℤ) → leb_ℤ a b ≡ false → leb_ℤ b a ≡ true
leb_ℤ_total a b h = ground arith

leb_ℤ_refl : (a b : ℤ) → eqb_ℤ a b ≡ true → leb_ℤ a b ≡ true
leb_ℤ_refl a b h = ground arith

module _ {A : Type 0} (key : A → ℤ) where
  unfoldable pub insert_by : A → List A → List A
  insert_by x [] = x ∷ []
  insert_by x (y ∷ ys) =
      let rest = insert_by x ys in if leb_ℤ (key x) (key y) then x ∷ y ∷ ys else y ∷ rest

  unfoldable pub sort_by_key : List A → List A
  unfolding insert_by
  sort_by_key [] = []
  sort_by_key (x ∷ xs) = insert_by x (sort_by_key xs)

  -- Each key is at most the next.
  abbrev pub IsAscending : List A → Type 0
  IsAscending [] = Unit
  IsAscending (x ∷ []) = Unit
  IsAscending (x ∷ y ∷ l) = (leb_ℤ (key x) (key y) ≡ true) × IsAscending (y ∷ l)

  -- The items of a key, in their order.
  abbrev pub of_key : ℤ → List A → List A
  of_key k [] = []
  of_key k (x ∷ xs) = if eqb_ℤ (key x) k then x ∷ of_key k xs else of_key k xs

  -- The head that an insertion leaves is the new item or the old head.
  insert_by-IsAscending : (x : A) (l : List A) → IsAscending l → IsAscending (insert_by x l)
  unfolding insert_by
  insert_by-IsAscending x [] h = tt
  insert_by-IsAscending x (y ∷ []) h = elim (Bool-cases (leb_ℤ (key x) (key y))) [
    | inl t ↦ rw t (t, tt)
    | inr f ↦ rw f (leb_ℤ_total (key x) (key y) f, tt)
  ]
  insert_by-IsAscending x (y ∷ z ∷ l) (first, rest) = elim (Bool-cases (leb_ℤ (key x) (key y))) [
    | inl t ↦ rw t (t, (first, rest))
    | inr f ↦
        rw f (go (Bool-cases (leb_ℤ (key x) (key z))) (insert_by-IsAscending x (z ∷ l) rest) f)
  ]
    where
      go :
          (leb_ℤ (key x) (key z) ≡ true) ⊎ (leb_ℤ (key x) (key z) ≡ false)
          → IsAscending (insert_by x (z ∷ l))
          → leb_ℤ (key x) (key y) ≡ false
          → IsAscending (y ∷ insert_by x (z ∷ l))
      go (inl t) ih f = rw t (leb_ℤ_total (key x) (key y) f, rw t at ih)
      go (inr g) ih f = rw g (first, rw g at ih)

  insert_by-perm : (x : A) (l : List A) → Perm (insert_by x l) (x ∷ l)
  unfolding insert_by
  insert_by-perm x [] = Perm.rfl
  insert_by-perm x (y ∷ l) = elim (Bool-cases (leb_ℤ (key x) (key y))) [
    | inl t ↦ rw t Perm.rfl
    | inr f ↦ rw f (Perm.trans (Perm.cons y (insert_by-perm x l)) (Perm.swap x y l))
  ]

  of_key-insert_by : (k : ℤ) (x : A) (l : List A) → of_key k (insert_by x l) ≡ of_key k (x ∷ l)
  unfolding insert_by
  of_key-insert_by k x [] = refl
  of_key-insert_by k x (y ∷ l) = elim (Bool-cases (leb_ℤ (key x) (key y))) [
    | inl t ↦ rw t refl
    | inr f ↦ rw f (go f (Bool-cases (eqb_ℤ (key x) k)) (of_key-insert_by k x l))
  ]
    where
      go :
          leb_ℤ (key x) (key y) ≡ false
          → (eqb_ℤ (key x) k ≡ true) ⊎ (eqb_ℤ (key x) k ≡ false)
          → of_key k (insert_by x l) ≡ of_key k (x ∷ l)
          → of_key k (y ∷ insert_by x l) ≡ of_key k (x ∷ y ∷ l)
      go f (inl t) ih = elim (Bool-cases (eqb_ℤ (key y) k)) [
        | inl u ↦
            let same : key x ≡ key y =
              (eqb_ℤ_iff (key x) k).0 t ∙ sym ((eqb_ℤ_iff (key y) k).0 u) in
            let le = leb_ℤ_refl (key x) (key y) ((eqb_ℤ_iff (key x) (key y)).1 same) in cc (f, le)
        | inr u ↦ rw (t, u) (rw t at ih)
      ]
      go f (inr t) ih = rw t (rw t at (ap (λ r. if eqb_ℤ (key y) k then y ∷ r else r) ih))

  pub sort_by_key-IsAscending : (l : List A) → IsAscending (sort_by_key l)
  unfolding sort_by_key
  sort_by_key-IsAscending [] = tt
  sort_by_key-IsAscending (x ∷ l) =
      insert_by-IsAscending x (sort_by_key l) (sort_by_key-IsAscending l)

  pub sort_by_key-perm : (l : List A) → Perm (sort_by_key l) l
  unfolding sort_by_key
  sort_by_key-perm [] = Perm.rfl
  sort_by_key-perm (x ∷ l) =
      Perm.trans (insert_by-perm x (sort_by_key l)) (Perm.cons x (sort_by_key-perm l))

  pub of_key-sort_by_key : (k : ℤ) (l : List A) → of_key k (sort_by_key l) ≡ of_key k l
  unfolding sort_by_key
  of_key-sort_by_key k [] = refl
  of_key-sort_by_key k (x ∷ l) =
      of_key-insert_by k x (sort_by_key l)
      ∙ ap (λ r. if eqb_ℤ (key x) k then x ∷ r else r) (of_key-sort_by_key k l)
