-- ===== src/Storage/Proxy.antt =====
-- storage/src/lib.rs: the storage that records what passes through it, and the frozen copy. The
-- storage behind the proxy is datacache's: its answers are an argument.
use authust.Prelude.{Option, none, some, List, [], ◌∷◌}
use authust.Prelude.Eq.{Eq}
use authust.Prelude.Maps.{lookup, insert}
use authust.Prelude.Res.{Res, ok, err, panic}

-- The two maps behind mutexes, `none` once they are exported. (`data` is a reserved word.)
pub record ProxyStorage (Q I D : Type 0) : Type 0 where
  pub items : Option (List (I × D))
  pub query : Option (List (Q × I))

pub record ExportedData (Q I D : Type 0) : Type 0 where
  pub items : List (I × D)
  pub query : List (Q × I)

-- What the proxy uses of the storage behind it, and of the derived `DataMarker`.
pub record Source (Q I D E : Type 0) : Type 0 where
  pub find_one : Q → Res E D
  pub find_all : Option Q → Res E (List D)
  pub find_optional : Q → Res E (Option D)
  pub get_id : D → I
  pub create_queries : D → List Q

-- `ProxyStorage::new`.
unfoldable pub new : {Q I D : Type 0} → ProxyStorage Q I D
new = record { items = some []; query = some [] }

-- The loop of `insert_data`.
unfoldable pub insert_queries :
    {Q I : Type 0} → ⦃e : Eq Q⦄ → List Q → I → List (Q × I) → List (Q × I)
insert_queries [] id m = m
insert_queries (q ∷ qs) id m = insert_queries qs id (insert q id m)

-- The value that is passed on once it is recorded.
abbrev answered : {E A S : Type 0} → A → Res E (Unit {0}) × S → Res E A × S
answered a (ok _, p) = (ok a, p)
answered a (err x, p) = (err x, p)
answered a (panic, p) = (panic, p)

module _ {Q I D E : Type 0} ⦃eq : Eq Q⦄ ⦃ei : Eq I⦄ (src : Source Q I D E) where
  open src use {get_id, create_queries}

  -- A method of the proxy: its result, and the maps that it leaves.
  abbrev pub P : Type 0 → Type 0
  P A = ProxyStorage Q I D → Res E A × ProxyStorage Q I D

  abbrev recorded :
      D
      → ProxyStorage Q I D
      → Option (List (I × D))
      → Option (List (Q × I))
      → Res E (Unit {0}) × ProxyStorage Q I D
  recorded d p (some items) (some query) =
      let id = get_id d in
      (
        ok tt,
        record {
          items = some (insert id d items);
          query = some (insert_queries (create_queries d) id query);
        },
      )
  recorded d p none (some query) =
      (panic, record p { query = some (insert_queries (create_queries d) (get_id d) query) })
  recorded d p _ none = (panic, p)

  -- `insert_data`, which panics after an export.
  unfoldable pub insert_data : D → P (Unit {0})
  insert_data d p = recorded d p p.items p.query

  abbrev pub record_one : Res E D → P D
  record_one (ok d) p = answered d (insert_data d p)
  record_one (err x) p = (err x, p)
  record_one panic p = (panic, p)

  abbrev pub record_optional : Res E (Option D) → P (Option D)
  record_optional (ok (some d)) p = answered (some d) (insert_data d p)
  record_optional (ok none) p = (ok none, p)
  record_optional (err x) p = (err x, p)
  record_optional panic p = (panic, p)

  -- The `DataStorage` of the proxy. What `find_all` reads is not recorded.
  unfoldable pub find_one : Q → P D
  find_one q p = record_one (src.find_one q) p

  unfoldable pub find_all : Option Q → P (List D)
  find_all q p = (src.find_all q, p)

  unfoldable pub find_optional : Q → P (Option D)
  find_optional q p = record_optional (src.find_optional q) p

  unfoldable pub delete : Q → P (Unit {0})
  delete q p = (panic, p)

  unfoldable pub invalidate : Q → P (Unit {0})
  invalidate q p = (panic, p)

abbrev pub exported :
    {Q I D E : Type 0} → Option (List (I × D)) → Option (List (Q × I)) → Res E (ExportedData Q I D)
exported (some items) (some query) = ok (record { items = items; query = query })
exported _ _ = panic

-- `export_data` takes both maps away.
unfoldable pub export_data :
    {Q I D E : Type 0} → ProxyStorage Q I D → Res E (ExportedData Q I D) × ProxyStorage Q I D
export_data p = (exported p.items p.query, record { items = none; query = none })

module _ {Q I D : Type 0} ⦃eq : Eq Q⦄ ⦃ei : Eq I⦄ (frozen : ExportedData Q I D) where
  abbrev found {ℓ} : {A : Type ℓ} → Option A → Res ⊥ A
  found (some a) = ok a
  found none = panic

  -- `DummyStorage::find_id` and `get_data`.
  unfoldable pub find_id : Q → Res ⊥ I
  find_id q = found (lookup q frozen.query)

  unfoldable pub get_data : I → Res ⊥ D
  get_data id = found (lookup id frozen.items)

  abbrev then_data : Res ⊥ I → Res ⊥ D
  then_data (ok id) = get_data id
  then_data (err x) = err x
  then_data panic = panic

  abbrev then_optional : Res ⊥ I → Res ⊥ (Option D)
  then_optional (ok id) = ok (lookup id frozen.items)
  then_optional (err x) = err x
  then_optional panic = panic

  -- The `DataStorage` of the frozen copy: `find_one` and `find_optional` panic on a query that was
  -- never recorded; `find_all`, `delete` and `invalidate` always panic.
  unfoldable pub frozen_one : Q → Res ⊥ D
  unfolding find_id get_data
  frozen_one q = then_data (find_id q)

  unfoldable pub frozen_optional : Q → Res ⊥ (Option D)
  unfolding find_id
  frozen_optional q = then_optional (find_id q)
