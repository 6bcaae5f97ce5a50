-- ===== src/Storage/Loaders/Table.antt =====
-- What the executors rely on: a table of the database has one row for an id and one for a slug, and
-- does not change while it is read. The answers over such a table are coherent.
use authust.Prelude.{String, Option, none, some, List, [], ◌∷◌, ◌≡◌, refl, sym, ap, ◌∙◌}
use mathlib.Core.List.{Memᴰ}
use authust.Prelude.Res.{Res, ok, err, panic, ◌>>=◌, >>=-eq-ok}
use authust.Model.Query.{I32, UniqueQuery, UidQuery}
use authust.Storage.Proxy.{Source}
use authust.Storage.Faithful.{IsCoherent}
use authust.Storage.Loaders.Common.{Executor, optional_row}

-- The answers of an executor itself, as those of a storage that caches nothing.
abbrev pub storage :
    {Q D E : Type 0}
    → Executor Q D E
    → (Option Q → Res E (List D))
    → (D → List Q)
    → Source Q I32 D E
storage exc find_all create_queries = record {
  find_one = exc.find_one;
  find_all = find_all;
  find_optional = exc.find_optional;
  get_id = exc.get_id;
  create_queries = create_queries;
}

-- The answers of the statements `... where uid = $1` and `... where slug = $1` over a table in
-- which both columns are unique.
pub record IsTable {E Row : Type 0} (look : UniqueQuery → Res E (Option Row))
    (uid : Row → Option I32) (slug : Row → Option String) : Type 0 where
  pub where_uid :
      (i : I32) (row : Row) → look (UniqueQuery.uid i) ≡ ok (some row) → uid row ≡ some i
  pub where_slug :
      (s : String) (row : Row) → look (UniqueQuery.slug s) ≡ ok (some row) → slug row ≡ some s
  pub unique_uid :
      (q : UniqueQuery) (row : Row) (i : I32)
      → look q ≡ ok (some row)
      → uid row ≡ some i
      → look (UniqueQuery.uid i) ≡ ok (some row)
  pub unique_slug :
      (q : UniqueQuery) (row : Row) (s : String)
      → look q ≡ ok (some row)
      → slug row ≡ some s
      → look (UniqueQuery.slug s) ≡ ok (some row)

-- The same of a table that is asked by id only.
pub record IsIdTable {E Row : Type 0} (look : UidQuery → Res E (Option Row))
    (uid : Row → Option I32) : Type 0 where
  pub where_uid : (i : I32) (row : Row) → look (UidQuery.uid i) ≡ ok (some row) → uid row ≡ some i

pub optional_row-some :
    {E Row D : Type 0} (look : Res E (Option Row)) (from_row : Row → Res E D) {d : D}
    → (look >>= optional_row from_row) ≡ ok (some d)
    → (row : Row) × (look ≡ ok (some row)) × (from_row row ≡ ok d)
optional_row-some (ok (some row)) from_row h =
    let (d, is, same) = >>=-eq-ok (from_row row) (λ d. ok (some d)) h in (row, refl, cc)
optional_row-some (ok none) from_row h = cc
optional_row-some (err e) from_row h = cc
optional_row-some panic from_row h = cc

pub some-optional_row :
    {E Row D : Type 0} (look : Res E (Option Row)) (from_row : Row → Res E D) (row : Row) (d : D)
    → look ≡ ok (some row)
    → from_row row ≡ ok d
    → (look >>= optional_row from_row) ≡ ok (some d)
some-optional_row look from_row row d h h' = rw (h, h')

module _ {E Row D : Type 0} (look : UniqueQuery → Res E (Option Row)) (from_row : Row → Res E D)
    (uid : Row → Option I32) (slug : Row → Option String) (get_uid : D → I32)
    (get_slug : D → String)
    (keys : (row : Row) (d : D)
      → from_row row ≡ ok d
      → (uid row ≡ some (get_uid d)) × (slug row ≡ some (get_slug d)))
    (t : IsTable look uid slug) where
  find : UniqueQuery → Res E (Option D)
  find q = look q >>= optional_row from_row

  queries : D → List UniqueQuery
  queries d = UniqueQuery.uid (get_uid d) ∷ UniqueQuery.slug (get_slug d) ∷ []

  mem_queries :
      (q : UniqueQuery) (row : Row) (d : D)
      → look q ≡ ok (some row)
      → from_row row ≡ ok d
      → Memᴰ q (queries d)
  unfolding queries
  mem_queries (UniqueQuery.uid i) row d h is =
      let (e, _) = keys row d is in let e' = t.where_uid i row h in Memᴰ.head (cc)
  mem_queries (UniqueQuery.slug s) row d h is =
      let (_, e) = keys row d is in let e' = t.where_slug s row h in Memᴰ.tail (Memᴰ.head (cc))

  queries_look :
      (q q' : UniqueQuery) (row : Row) (d : D)
      → look q ≡ ok (some row)
      → from_row row ≡ ok d
      → Memᴰ q' (queries d)
      → look q' ≡ ok (some row)
  unfolding queries
  queries_look q q' row d h is (Memᴰ.head e) =
      rw e (t.unique_uid q row (get_uid d) h (keys row d is).0)
  queries_look q q' row d h is (Memᴰ.tail (Memᴰ.head e)) =
      rw e (t.unique_slug q row (get_slug d) h (keys row d is).1)
  queries_look q q' row d h is (Memᴰ.tail (Memᴰ.tail m)) = elim m [ ]

  find_answers : (q : UniqueQuery) (d : D) → find q ≡ ok (some d) → Memᴰ q (queries d)
  unfolding find
  find_answers q d h =
      let (row, found, is) = optional_row-some (look q) from_row h in mem_queries q row d found is

  find_coherent :
      (q q' : UniqueQuery) (d : D)
      → find q ≡ ok (some d)
      → Memᴰ q' (queries d)
      → find q' ≡ ok (some d)
  unfolding find
  find_coherent q q' d h m =
      let (row, found, is) = optional_row-some (look q) from_row h in
      some-optional_row (look q') from_row row d (queries_look q q' row d found is m) is

  find_unique :
      (q q' : UniqueQuery) (d d' : D)
      → find q ≡ ok (some d)
      → find q' ≡ ok (some d')
      → get_uid d ≡ get_uid d'
      → d ≡ d'
  unfolding queries
  find_unique q q' d d' h h' e =
      let a = find_coherent q (UniqueQuery.uid (get_uid d)) d h (Memᴰ.head refl) in
      let b =
        find_coherent q' (UniqueQuery.uid (get_uid d)) d' h' (Memᴰ.head (ap UniqueQuery.uid e)) in
      cc

  -- The answers of an executor over the table are coherent.
  pub table-IsCoherent :
      (exc : Executor UniqueQuery D E) (find_all : Option UniqueQuery → Res E (List D))
      → ((q : UniqueQuery) → exc.find_optional q ≡ (look q >>= optional_row from_row))
      → ((d : D) → exc.get_id d ≡ get_uid d)
      → IsCoherent (
          storage exc find_all
            (λ d. UniqueQuery.uid (get_uid d) ∷ UniqueQuery.slug (get_slug d) ∷ []))
  unfolding find queries
  table-IsCoherent exc find_all same id = record {
    answers = λ q d h. find_answers q d (sym (same q) ∙ h);
    coherent = λ q q' d h m. same q' ∙ find_coherent q q' d (sym (same q) ∙ h) m;
    unique = λ q q' d d' h h' e.
        find_unique q q' d d' (sym (same q) ∙ h) (sym (same q') ∙ h') (sym (id d) ∙ e ∙ id d');
  }
