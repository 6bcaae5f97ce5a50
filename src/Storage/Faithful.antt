-- ===== src/Storage/Faithful.antt =====
-- A proxy agrees with the storage behind it on every query that it has recorded, and so does the
-- frozen copy that is made of it.
use authust.Prelude.{Option, none, some, List, [], ◌≡◌, ◌⊎◌, inl, inr, refl, sym, ◌∙◌, arith}
use mathlib.Core.List.{Memᴰ}
use mathlib.Core.Path.{subst}
use authust.Prelude.Eq.{Eq, ==_cases}
use authust.Prelude.Maps.{lookup, insert, lookup-insert, lookup-insert_self}
use authust.Prelude.Res.{Res, ok, err, panic}
use authust.Storage.Proxy.{
  ProxyStorage, ExportedData, Source, new, insert_queries, insert_data, find_optional, export_data,
  frozen_optional, record_optional, exported,
}
use authust.Storage.Snapshot.{insert_queries-cases, insert_queries-mem, insert_queries-bound}

-- What the code relies on: a stored value answers to its own queries and to no others, and a table
-- holds one value under an id. This is so of a storage over a database that does not change while
-- the proxy reads it.
pub record IsCoherent {Q I D E : Type 0} (src : Source Q I D E) : Type 0 where
  pub answers : (q : Q) (d : D) → src.find_optional q ≡ ok (some d) → Memᴰ q (src.create_queries d)
  pub coherent :
      (q q' : Q) (d : D)
      → src.find_optional q ≡ ok (some d)
      → Memᴰ q' (src.create_queries d)
      → src.find_optional q' ≡ ok (some d)
  pub unique :
      (q q' : Q) (d d' : D)
      → src.find_optional q ≡ ok (some d)
      → src.find_optional q' ≡ ok (some d')
      → src.get_id d ≡ src.get_id d'
      → d ≡ d'

module _ {Q I D E : Type 0} ⦃eq : Eq Q⦄ ⦃ei : Eq I⦄ (src : Source Q I D E)
    (c : IsCoherent src) where
  open src use {get_id, create_queries}

  -- Every recorded query leads to the value that the storage behind gives for it.
  abbrev Agrees : List (I × D) → List (Q × I) → Type 0
  Agrees items query =
      (q : Q) (i : I)
      → lookup q query ≡ some i
      → (d : D) × (lookup i items ≡ some d) × (get_id d ≡ i) × (src.find_optional q ≡ ok (some d))

  abbrev pub IsFaithful : ProxyStorage Q I D → Type 0
  IsFaithful p =
      (items : List (I × D)) × (query : List (Q × I)) × (p.items ≡ some items)
      × (p.query ≡ some query)
      × Agrees items query

  -- The proxy has recorded the query.
  abbrev pub Holds : ProxyStorage Q I D → Q → Type 0
  Holds p q = (query : List (Q × I)) × (i : I) × (p.query ≡ some query) × (lookup q query ≡ some i)

  pub new-IsFaithful : IsFaithful new
  unfolding new lookup
  new-IsFaithful = ([], [], refl, refl, λ q i h. cc)

  insert-Agrees :
      (q : Q) (d : D) (items : List (I × D)) (query : List (Q × I))
      → src.find_optional q ≡ ok (some d)
      → Agrees items query
      → Agrees (insert (get_id d) d items) (insert_queries (create_queries d) (get_id d) query)
  insert-Agrees q d items query found agrees q' i h =
      elim (insert_queries-cases (create_queries d) q' (get_id d) i query h) [
        | inl (mem, same) ↦ (
          d,
          rw same (lookup-insert_self (get_id d) d items),
          sym same,
          c.coherent q q' d found mem,
        )
        | inr old ↦
            let (d', at, id', found') = agrees q' i old in
            elim (==_cases (get_id d) i) [
              | inl (t, same) ↦
                  let one : d ≡ d' = c.unique q q' d d' found found' (same ∙ sym id') in
                  (d', ground (arith, lookup-insert (get_id d) i d items, t, one), id', found')
              | inr (f, _) ↦
                  (d', ground (arith, lookup-insert (get_id d) i d items, f, at), id', found')
            ]
      ]

  insert_data-IsFaithful :
      (q : Q) (d : D) (p : ProxyStorage Q I D)
      → src.find_optional q ≡ ok (some d)
      → IsFaithful p
      → IsFaithful (insert_data src d p).1
  unfolding insert_data
  insert_data-IsFaithful q d p found (items, query, is_items, is_query, agrees) =
      rw (is_items, is_query)
        (
          insert (get_id d) d items,
          insert_queries (create_queries d) (get_id d) query,
          refl,
          refl,
          insert-Agrees q d items query found agrees,
        )

  insert_data-ok : (d : D) (p : ProxyStorage Q I D) → IsFaithful p → (insert_data src d p).0 ≡ ok tt
  unfolding insert_data
  insert_data-ok d p (items, query, is_items, is_query, agrees) = rw (is_items, is_query)

  insert_data-Holds :
      (d : D) (p : ProxyStorage Q I D) (q : Q)
      → IsFaithful p
      → Memᴰ q (create_queries d) ⊎ Holds p q
      → Holds (insert_data src d p).1 q
  unfolding insert_data
  insert_data-Holds d p q (items, query, is_items, is_query, agrees) (inl mem) =
      rw (is_items, is_query)
        (
          insert_queries (create_queries d) (get_id d) query,
          get_id d,
          refl,
          insert_queries-mem (create_queries d) q (get_id d) query mem,
        )
  insert_data-Holds d p q (items, query, is_items, is_query, agrees) (inr (query', i, is', at)) =
      let same : query' ≡ query = cc in
      let (j, bound) =
        insert_queries-bound (create_queries d) q (get_id d) i query (rw same at at) in
      rw (is_items, is_query) (insert_queries (create_queries d) (get_id d) query, j, refl, bound)

  -- A lookup through the proxy gives the answer of the storage behind, and records a value that it
  -- finds, if nothing was exported yet; what was recorded before stays recorded.
  pub find_optional-IsFaithful :
      (q : Q) (p : ProxyStorage Q I D)
      → IsFaithful p
      → ((find_optional src q p).0 ≡ src.find_optional q)
        × IsFaithful (find_optional src q p).1
        × ((d : D) → src.find_optional q ≡ ok (some d) → Holds (find_optional src q p).1 q)
        × ((q' : Q) → Holds p q' → Holds (find_optional src q p).1 q')
  unfolding find_optional
  find_optional-IsFaithful q p h = go (src.find_optional q) refl
    where
      go :
          (r : Res E (Option D))
          → src.find_optional q ≡ r
          → ((record_optional src r p).0 ≡ r)
            × IsFaithful (record_optional src r p).1
            × ((d : D) → r ≡ ok (some d) → Holds (record_optional src r p).1 q)
            × ((q' : Q) → Holds p q' → Holds (record_optional src r p).1 q')
      go (ok (some d)) found =
          let ran : record_optional src (ok (some d)) p ≡ (ok (some d), (insert_data src d p).1) =
            rw (insert_data-ok d p h) in
          subst
            (λ (r : Res E (Option D) × ProxyStorage Q I D).
              (r.0 ≡ ok (some d))
              × IsFaithful r.1
              × ((d' : D) → ◌≡◌ {A = Res E (Option D)} (ok (some d)) (ok (some d')) → Holds r.1 q)
              × ((q' : Q) → Holds p q' → Holds r.1 q'))
            (sym ran)
            (
              refl,
              insert_data-IsFaithful q d p found h,
              λ d' e. insert_data-Holds d p q h (inl (c.answers q d found)),
              λ q' k. insert_data-Holds d p q' h (inr k),
            )
      go (ok none) found = (refl, h, λ d e. cc, λ q' k. k)
      go (err x) found = (refl, h, λ d e. cc, λ q' k. k)
      go panic found = (refl, h, λ d e. cc, λ q' k. k)

  -- The frozen copy of a proxy answers every query that was recorded as the storage behind does, with
  -- the value itself; it does not panic on it.
  pub frozen_optional-find_optional :
      (p : ProxyStorage Q I D) (q : Q)
      → IsFaithful p
      → Holds p q
      → (frozen : ExportedData Q I D) × (d : D) × ((export_data {E = E} p).0 ≡ ok frozen)
        × (frozen_optional frozen q ≡ ok (some d))
        × (src.find_optional q ≡ ok (some d))
  unfolding export_data frozen_optional
  frozen_optional-find_optional p q (items, query, is_items, is_query, agrees)
        (query', i, is', at) =
      let same : query' ≡ query = cc in
      let bound : lookup q query ≡ some i = rw same at at in
      let (d, stored, id, found) = agrees q i bound in
      (
        record { items = items; query = query },
        d,
        rw (is_items, is_query),
        rw (bound, stored),
        found,
      )

  exported_lem :
      (a : Option (List (I × D))) (b : Option (List (Q × I))) (items : List (I × D))
      (query : List (Q × I)) (frozen : ExportedData Q I D)
      → a ≡ some items
      → b ≡ some query
      → exported {E = ⊥} a b ≡ ok frozen
      → record { items = items; query = query } ≡ frozen
  exported_lem (some x) (some y) items query frozen ha hb h = cc
  exported_lem none b items query frozen ha hb h = cc
  exported_lem (some x) none items query frozen ha hb h = cc

  -- The same of a given copy.
  pub frozen_optional-exported :
      (p : ProxyStorage Q I D) (q : Q) (frozen : ExportedData Q I D)
      → IsFaithful p
      → Holds p q
      → (export_data {E = ⊥} p).0 ≡ ok frozen
      → (d : D) × (frozen_optional frozen q ≡ ok (some d)) × (src.find_optional q ≡ ok (some d))
  unfolding export_data frozen_optional
  frozen_optional-exported p q frozen (items, query, is_items, is_query, agrees)
        (query', i, is', at) is =
      let same : query' ≡ query = cc in
      let bound : lookup q query ≡ some i = rw same at at in
      let (d, stored, id, found) = agrees q i bound in
      let one : record { items = items; query = query } ≡ frozen =
        exported_lem p.items p.query items query frozen is_items is_query is in
      (d, rw (sym one, bound, stored) refl, found)
