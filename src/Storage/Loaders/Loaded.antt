-- ===== src/Storage/Loaders/Loaded.antt =====
-- What a loaded flow, stage or policy is: the order of its bindings, and its kind.
use authust.Prelude.{String, none, some, List, [], ◌∷◌, ◌≡◌, ◌≢◌, sym, ap, ◌∙◌}
use mathlib.Core.List.{Perm}
use mathlib.Core.List.Perm
use authust.Prelude.Res.{Res, ok, err, panic, expect, >>=-eq-ok}
use authust.Prelude.Sort.{
  sort_by_key, IsAscending, of_key, sort_by_key-IsAscending, sort_by_key-perm, of_key-sort_by_key,
}
use authust.Model.Query.{I32, I16, UniqueQuery, FlowQuery}
use authust.Model.Flow.{Flow, FlowBinding, FlowEntry}
use authust.Storage.Ready.{All}
use authust.Storage.Sql.{
  Postgres, Param, from_pool, from_database, prepared, get_enum, map_or_panic,
  flow_bindings_by_flow, flow_bindings_by_entry, flow_entries_by_flow,
}
use authust.Storage.Loaders.Table.{optional_row-some}
use authust.Storage.Loaders.Keys.{expect-ok}
use authust.Storage.Loaders.Flows
use authust.Storage.Loaders.Flows.{
  binding_from_row, get_bindings, get_entries, entry_from_row, flow_designations,
  authentication_requirements,
}

-- Two lists are related one by one.
abbrev pub Pairwise : {A B : Type 0} → (A → B → Type 0) → List A → List B → Type 0
Pairwise R [] [] = Unit
Pairwise R (x ∷ xs) (y ∷ ys) = R x y × Pairwise R xs ys
Pairwise R _ _ = ⊥

map_or_panic-Pairwise :
    {E A B : Type 0} (R : A → B → Type 0) (f : A → Res E B) (xs : List A) (ys : List B)
    → ((x : A) (y : B) → f x ≡ ok y → R x y)
    → map_or_panic f xs ≡ ok ys
    → Pairwise R xs ys
map_or_panic-Pairwise R f [] ys each h = let same : ys ≡ [] = cc in rw same tt
map_or_panic-Pairwise R f (x ∷ xs) ys each h =
    let (y, e1, h1) = >>=-eq-ok (f x) _ h in
    let (zs, e2, h2) = >>=-eq-ok (map_or_panic f xs) _ h1 in
    let same : ys ≡ y ∷ zs = cc in rw same (each x y e1, map_or_panic-Pairwise R f xs zs each e2)

of_ok : {E D F : Type 0} (f : D → F) (a d : D) → ◌≡◌ {A = Res E D} (ok a) (ok d) → f a ≡ f d
of_ok f a d h = let same : a ≡ d = cc in ap f same

module _ {Row P G : Type 0} (pg : Postgres Row P G) where
  -- The bindings that a statement gives: the decoded rows by their `ordering`, and rows of one
  -- `ordering` as the database gave them.
  abbrev pub AreBindings : String → I32 → List FlowBinding → Type 0
  AreBindings statement id bindings =
      (rows : List Row) × (items : List FlowBinding) × (pg.query statement (Param.int id ∷ [])
        ≡ ok rows)
      × (map_or_panic (binding_from_row pg) rows ≡ ok items)
      × IsAscending (λ (v : FlowBinding). v.order) bindings
      × Perm bindings items
      × ((k : I16)
          → of_key (λ (v : FlowBinding). v.order) k bindings
            ≡ of_key (λ (v : FlowBinding). v.order) k items)

  from_database-ok : {A : Type 0} (r : Res G A) {a : A} → from_database {P = P} r ≡ ok a → r ≡ ok a
  from_database-ok (ok a) h = cc
  from_database-ok (err e) h = cc
  from_database-ok panic h = cc

  get_bindings-AreBindings :
      (statement : String) (id : I32) (bindings : List FlowBinding)
      → get_bindings pg statement id ≡ ok bindings
      → AreBindings statement id bindings
  unfolding get_bindings
  get_bindings-AreBindings statement id bindings h =
      let (rows, e1, h1) = >>=-eq-ok (from_database (pg.query statement (Param.int id ∷ []))) _ h in
      let (items, e2, h2) = >>=-eq-ok (map_or_panic (binding_from_row pg) rows) _ h1 in
      let order = λ (v : FlowBinding). v.order in
      let same : bindings ≡ sort_by_key order items = cc in
      (
        rows,
        items,
        from_database-ok _ e1,
        e2,
        rw same (sort_by_key-IsAscending order items),
        rw same (sort_by_key-perm order items),
        λ k. rw same (of_key-sort_by_key order k items),
      )

  -- The entry of a row: its bindings are those of the row's id, and its ordering and its stage are the
  -- row's.
  abbrev pub EntryLoaded : Row → FlowEntry → Type 0
  EntryLoaded row e =
      (uid : I32) × (stage : I32) × (pg.get_i32 "uid" row ≡ some uid)
      × AreBindings flow_bindings_by_entry uid e.bindings
      × (pg.get_i16 "ordering" row ≡ some e.ordering)
      × (pg.get_i32 "stage" row ≡ some stage)
      × (e.stage ≡ UniqueQuery.uid stage)

  -- The entries of a flow are those of its rows, in the order of the rows.
  abbrev pub AreEntries : I32 → List FlowEntry → Type 0
  AreEntries id entries =
      (rows : List Row) × (pg.query flow_entries_by_flow (Param.int id ∷ []) ≡ ok rows)
      × Pairwise EntryLoaded rows entries

  entry_from_row-EntryLoaded :
      (row : Row) (e : FlowEntry) → entry_from_row pg row ≡ ok e → EntryLoaded row e
  unfolding entry_from_row
  entry_from_row-EntryLoaded row e h =
      let (x1, e1, h1) = >>=-eq-ok (from_database (pg.prepare flow_bindings_by_entry)) _ h in
      let (uid, e2, h2) = >>=-eq-ok (expect (pg.get_i32 "uid" row)) _ h1 in
      let (bindings, e3, h3) = >>=-eq-ok (get_bindings pg flow_bindings_by_entry uid) _ h2 in
      let (ordering, e4, h4) = >>=-eq-ok (expect (pg.get_i16 "ordering" row)) _ h3 in
      let (stage, e5, h5) = >>=-eq-ok (expect (pg.get_i32 "stage" row)) _ h4 in
      let same : bindings ≡ e.bindings = of_ok (λ (x : FlowEntry). x.bindings) _ e h5 in
      (
        uid,
        stage,
        expect-ok _ e2,
        get_bindings-AreBindings flow_bindings_by_entry uid e.bindings
            (e3 ∙ ap (λ (b : List FlowBinding). ok b) same),
        expect-ok _ e4 ∙ ap (λ (i : I16). some i) (of_ok (λ (x : FlowEntry). x.ordering) _ e h5),
        expect-ok _ e5,
        sym (of_ok (λ (x : FlowEntry). x.stage) _ e h5),
      )

  get_entries-AreEntries :
      (id : I32) (es : List FlowEntry) → get_entries pg id ≡ ok es → AreEntries id es
  unfolding get_entries
  get_entries-AreEntries id es h =
      let (rows, e1, h1) =
        >>=-eq-ok (prepared pg pg.query flow_entries_by_flow (Param.int id ∷ [])) _ h in
      let (x, e2, h2) = >>=-eq-ok (from_database (pg.prepare flow_entries_by_flow)) _ e1 in
      (
        rows,
        from_database-ok _ h2,
        map_or_panic-Pairwise EntryLoaded (entry_from_row pg) rows es entry_from_row-EntryLoaded h1,
      )

  from_row-Loaded :
      (row : Row) (d : Flow)
      → Flows.from_row pg row ≡ ok d
      → AreBindings flow_bindings_by_flow d.uid d.bindings × AreEntries d.uid d.entries
  unfolding Flows.from_row
  from_row-Loaded row d h =
      let (x1, e1, h1) = >>=-eq-ok (from_database (pg.prepare flow_bindings_by_flow)) _ h in
      let (uid, e2, h2) = >>=-eq-ok (expect (pg.get_i32 "uid" row)) _ h1 in
      let (bindings, e3, h3) = >>=-eq-ok (get_bindings pg flow_bindings_by_flow uid) _ h2 in
      let (entries, e4, h4) = >>=-eq-ok (get_entries pg uid) _ h3 in
      let (x5, e5, h5) = >>=-eq-ok (expect (pg.get_text "slug" row)) _ h4 in
      let (x6, e6, h6) = >>=-eq-ok (expect (pg.get_text "title" row)) _ h5 in
      let (x7, e7, h7) = >>=-eq-ok (get_enum pg flow_designations "designation" row) _ h6 in
      let (x8, e8, h8) =
        >>=-eq-ok (get_enum pg authentication_requirements "authentication" row) _ h7 in
      let one : bindings ≡ d.bindings = of_ok (λ (x : Flow). x.bindings) _ d h8 in
      let two : entries ≡ d.entries = of_ok (λ (x : Flow). x.entries) _ d h8 in
      let id : uid ≡ d.uid = of_ok (λ (x : Flow). x.uid) _ d h8 in
      (
        rw (sym id) (
            get_bindings-AreBindings flow_bindings_by_flow uid d.bindings
              (e3 ∙ ap (λ (b : List FlowBinding). ok b) one)),
        rw (sym id)
            (get_entries-AreEntries uid d.entries (e4 ∙ ap (λ (b : List FlowEntry). ok b) two)),
      )

  -- A flow that is found has as bindings exactly those that its rows decode to, in ascending order of
  -- `ordering`, rows of one `ordering` in the order of the rows. Its entries are those of the rows of
  -- its id, in their order: the entry of a row has the bindings of the row's id, in such an order too,
  -- and the row's ordering and stage.
  pub find_optional-AreBindings :
      (q : FlowQuery) (d : Flow)
      → Flows.find_optional pg q ≡ ok (some d)
      → AreBindings flow_bindings_by_flow d.uid d.bindings × AreEntries d.uid d.entries
  unfolding Flows.find_optional
  find_optional-AreBindings q d h =
      let (x, e, h1) = >>=-eq-ok (from_pool pg.get_conn) _ h in
      let (row, found, is) =
        optional_row-some (Flows.ask pg pg.query_opt q) (Flows.from_row pg) h1 in
      from_row-Loaded row d is

  -- The column that the code reads is not there.
  abbrev pub LacksNegate : Row → Type 0
  LacksNegate row = pg.get_bool "negate" row ≡ none

  binding_from_row-panics :
      (row : Row) (b : FlowBinding) → LacksNegate row → binding_from_row pg row ≢ ok b
  unfolding binding_from_row
  binding_from_row-panics row b lacks h =
      let (x1, e1, h1) = >>=-eq-ok (Flows.binding_kind pg row) _ h in
      let (x2, e2, h2) = >>=-eq-ok (expect (pg.get_bool "enabled" row)) _ h1 in
      let (x3, e3, h3) = >>=-eq-ok (expect (pg.get_bool "negate" row)) _ h2 in
      let a = expect-ok _ e3 in cc (a, lacks)

  decoded_empty :
      (rows : List Row) (items : List FlowBinding)
      → All LacksNegate rows
      → map_or_panic (binding_from_row pg) rows ≡ ok items
      → items ≡ []
  decoded_empty [] items lacks h = cc
  decoded_empty (row ∷ rows) items (lacks, _) h =
      let (b, e1, h1) = >>=-eq-ok (binding_from_row pg row) _ h in
      absurd (binding_from_row-panics row b lacks e1)

  -- No row of `flow_bindings` has the column `negate`.
  abbrev pub SchemaLacksNegate : Type 0
  SchemaLacksNegate =
      (statement : String) (id : I32) (rows : List Row)
      → pg.query statement (Param.int id ∷ []) ≡ ok rows
      → All LacksNegate rows

  bindings_empty :
      SchemaLacksNegate
      → (statement : String) (id : I32) (bindings : List FlowBinding)
      → AreBindings statement id bindings
      → bindings ≡ []
  bindings_empty schema statement id bindings (rows, items, asked, decoded, _, perm, _) =
      let none_left : items ≡ [] =
        decoded_empty rows items (schema statement id rows asked) decoded in
      Perm.eq-nil (rw none_left at perm)

  All-bindings_empty :
      SchemaLacksNegate
      → (rows : List Row) (es : List FlowEntry) → Pairwise EntryLoaded rows es
      → All (λ (e : FlowEntry). e.bindings ≡ []) es
  All-bindings_empty schema [] [] h = tt
  All-bindings_empty schema [] (e ∷ es) h = absurd h
  All-bindings_empty schema (row ∷ rows) [] h = tt
  All-bindings_empty schema (row ∷ rows) (e ∷ es) ((uid, stage, is, first, _, _, _), rest) = (
    bindings_empty schema flow_bindings_by_entry uid e.bindings first,
    All-bindings_empty schema rows es rest,
  )

  -- Where the rows of bindings have no column `negate`, as the migration creates their table, a flow
  -- is found only if neither it nor an entry of it has a binding: any other load does not return a flow.
  pub find_optional-unbound :
      (q : FlowQuery) (d : Flow)
      → SchemaLacksNegate
      → Flows.find_optional pg q ≡ ok (some d)
      → (d.bindings ≡ []) × All (λ (e : FlowEntry). e.bindings ≡ []) d.entries
  find_optional-unbound q d schema h =
      let (own, (rows, asked, entries)) = find_optional-AreBindings q d h in
      (
        bindings_empty schema flow_bindings_by_flow d.uid d.bindings own,
        All-bindings_empty schema rows d.entries entries,
      )
