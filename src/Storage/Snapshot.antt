-- ===== src/Storage/Snapshot.antt =====
-- The maps of a proxy agree with the storage behind it on every query that they hold, and so does
-- the frozen copy.
use authust.Prelude.{some, List, [], ◌∷◌, ◌≡◌, ◌⊎◌, inl, inr, sym, arith}
use mathlib.Core.List.{Memᴰ}
use authust.Prelude.Eq.{Eq, ==_cases}
use authust.Prelude.Maps.{lookup, insert, lookup-insert}
use authust.Storage.Proxy.{insert_queries}

module _ {Q I : Type 0} ⦃eq : Eq Q⦄ where
  pub lookup-insert-cases :
      (x q : Q) (id i : I) (m : List (Q × I))
      → lookup q (insert x id m) ≡ some i
      → ((q ≡ x) × (i ≡ id)) ⊎ (lookup q m ≡ some i)
  lookup-insert-cases x q id i m h = elim (==_cases x q) [
    | inl (t, same) ↦ inl (sym same, cc (lookup-insert x q id m, t, h))
    | inr (f, _) ↦ inr (ground (arith, lookup-insert x q id m, f, h))
  ]

  pub insert_queries-cases :
      (qs : List Q) (q : Q) (id i : I) (m : List (Q × I))
      → lookup q (insert_queries qs id m) ≡ some i
      → (Memᴰ q qs × (i ≡ id)) ⊎ (lookup q m ≡ some i)
  unfolding insert_queries
  insert_queries-cases [] q id i m h = inr h
  insert_queries-cases (x ∷ qs) q id i m h =
      elim (insert_queries-cases qs q id i (insert x id m) h) [
        | inl (mem, same) ↦ inl (Memᴰ.tail mem, same)
        | inr old ↦ elim (lookup-insert-cases x q id i m old) [
          | inl (here, same) ↦ inl (Memᴰ.head here, same)
          | inr older ↦ inr older
        ]
      ]

  -- A key that is bound to `id` stays so.
  insert_queries-keeps :
      (qs : List Q) (q : Q) (id : I) (m : List (Q × I))
      → lookup q m ≡ some id
      → lookup q (insert_queries qs id m) ≡ some id
  unfolding insert_queries
  insert_queries-keeps [] q id m h = h
  insert_queries-keeps (x ∷ qs) q id m h =
      insert_queries-keeps qs q id (insert x id m) (elim (==_cases x q) [
        | inl (t, _) ↦ ground (arith, lookup-insert x q id m, t, h)
        | inr (f, _) ↦ ground (arith, lookup-insert x q id m, f, h)
      ])

  pub insert_queries-mem :
      (qs : List Q) (q : Q) (id : I) (m : List (Q × I))
      → Memᴰ q qs
      → lookup q (insert_queries qs id m) ≡ some id
  unfolding insert_queries
  insert_queries-mem [] q id m mem = elim mem [ ]
  insert_queries-mem (x ∷ qs) q id m (Memᴰ.head same) =
      insert_queries-keeps qs q id (insert x id m)
        (ground (arith, lookup-insert x q id m, eq.beq_iff x q, same))
  insert_queries-mem (x ∷ qs) q id m (Memᴰ.tail mem) =
      insert_queries-mem qs q id (insert x id m) mem

  -- A bound key stays bound.
  pub insert_queries-bound :
      (qs : List Q) (q : Q) (id i : I) (m : List (Q × I))
      → lookup q m ≡ some i
      → (j : I) × (lookup q (insert_queries qs id m) ≡ some j)
  unfolding insert_queries
  insert_queries-bound [] q id i m h = (i, h)
  insert_queries-bound (x ∷ qs) q id i m h = elim (==_cases x q) [
    | inl (t, _) ↦
        insert_queries-bound qs q id id (insert x id m) (ground (arith, lookup-insert x q id m, t))
    | inr (f, _) ↦
        insert_queries-bound qs q id i (insert x id m)
          (ground (arith, lookup-insert x q id m, f, h))
  ]
