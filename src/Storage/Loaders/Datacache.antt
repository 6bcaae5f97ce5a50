-- ===== src/Storage/Loaders/Datacache.antt =====
-- What the code relies on of datacache: a storage over an executor, which caches what it loads.
use authust.Prelude.{Option, some, List, ◌≡◌, ◌⊎◌, inl, inr}
use mathlib.Core.List.{Memᴰ}
use authust.Prelude.Res.{Res, ok}
use authust.Model.Query.{I32}
use authust.Storage.Proxy.{Source}
use authust.Storage.Faithful.{IsCoherent}
use authust.Storage.Loaders.Common.{Executor}
use authust.Storage.Loaders.Table.{storage}

-- The storage that is registered for an executor; the queries of a value are those that `DataMarker`
-- derives.
pub record Datacache : Type 1 where
  pub storage : {Q D E : Type 0} → Executor Q D E → (D → List Q) → Source Q I32 D E

-- A storage finds what its executor finds under the query, or what it has loaded by another query and
-- caches under the queries of the value. Where the executor finds something, the storage does.
pub record IsDatacache (dc : Datacache) : Type 1 where
  pub get_id :
      {Q D E : Type 0} (exc : Executor Q D E) (queries : D → List Q)
      → (dc.storage exc queries).get_id ≡ exc.get_id
  pub create_queries :
      {Q D E : Type 0} (exc : Executor Q D E) (queries : D → List Q)
      → (dc.storage exc queries).create_queries ≡ queries
  pub loaded :
      {Q D E : Type 0} (exc : Executor Q D E) (queries : D → List Q) (q : Q) (d : D)
      → (dc.storage exc queries).find_optional q ≡ ok (some d)
      → (exc.find_optional q ≡ ok (some d))
        ⊎ ((q' : Q) × (exc.find_optional q' ≡ ok (some d)) × Memᴰ q (queries d))
  pub loads :
      {Q D E : Type 0} (exc : Executor Q D E) (queries : D → List Q) (q : Q) (d : D)
      → exc.find_optional q ≡ ok (some d)
      → (d' : D) × ((dc.storage exc queries).find_optional q ≡ ok (some d'))

module _ (dc : Datacache) (laws : IsDatacache dc) {Q D E : Type 0} (exc : Executor Q D E)
    (queries : D → List Q) (find_all : Option Q → Res E (List D))
    (direct : IsCoherent (storage exc find_all queries)) where
  -- What is cached is what would be loaded.
  find-executor :
      (q : Q) (d : D)
      → (dc.storage exc queries).find_optional q ≡ ok (some d)
      → exc.find_optional q ≡ ok (some d)
  find-executor q d h = elim (laws.loaded exc queries q d h) [
    | inl now ↦ now
    | inr (q', before, member) ↦ direct.coherent q' q d before member
  ]

  executor-find :
      (q : Q) (d : D)
      → exc.find_optional q ≡ ok (some d)
      → (dc.storage exc queries).find_optional q ≡ ok (some d)
  executor-find q d h =
      let (d', found) = laws.loads exc queries q d h in
      let again = find-executor q d' found in let same : d ≡ d' = cc in rw same found

  -- A storage over an executor whose answers are coherent is coherent.
  pub storage-IsCoherent : IsCoherent (dc.storage exc queries)
  storage-IsCoherent = record {
    answers =
        λ q d h. rw (laws.create_queries exc queries) (direct.answers q d (find-executor q d h));
    coherent = λ q q' d h m.
        executor-find q' d (
          direct.coherent q q' d (find-executor q d h) (rw (laws.create_queries exc queries) at m));
    unique = λ q q' d d' h h' e.
        direct.unique q q' d d' (find-executor q d h) (find-executor q' d' h')
          (rw (laws.get_id exc queries) at e);
  }
