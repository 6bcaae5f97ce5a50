-- ===== src/Scenarios/Sources.antt =====
-- Storages over fixed rows, which answer as a database does that nobody changes, and a lookup of a
-- login flow through the proxies.
use authust.Prelude.{
  String, Option, none, some, List, [], ◌∷◌, ◌≡◌, refl, ap, sym, ◌∙◌, arith, inl, inr,
  if◌then◌else◌,
}
use mathlib.Core.List.{Memᴰ}
use authust.Prelude.Int.{pos}
use authust.Prelude.Eq.{◌==◌, ==_cases, ==_refl, Eq-int, Eq-nat, Eq-string}
use authust.Prelude.Res.{Res, ok, err, panic}
use authust.Model.Query.{I32, UniqueQuery, Eq-unique_query, Eq-uid_query}
use authust.Model.Policy.{Policy}
use authust.Model.Stage.{Stage}
use authust.Storage.Proxy.{Source}
use authust.Storage.Faithful.{IsCoherent}
use authust.Storage.Reverse.{Sources, Lookup}
use authust.Storage.Ready.{AreCoherent}
use authust.Scenarios.Fixtures.{
  identification_stage, password_stage, login_stage, local_policy, login_flow,
}

-- The rows of a table, found by their id.
abbrev find_row : {D : Type 0} → (D → I32) → List D → I32 → Option D
find_row id [] i = none
find_row id (d ∷ ds) i = let rest = find_row id ds i in if id d == i then some d else rest

find_row-id :
    {D : Type 0} (id : D → I32) (ds : List D) (i : I32) {d : D}
    → find_row id ds i ≡ some d
    → id d ≡ i
find_row-id id [] i h = cc
find_row-id id (x ∷ ds) i {d} h = elim (==_cases (id x) i) [
  | inl (t, same) ↦ let one : x ≡ d = ground (arith, t, h) in rw (sym one) same
  | inr (f, other) ↦ find_row-id id ds i (ground (arith, f, h))
]

abbrev by_id : {D : Type 0} → (D → I32) → List D → UniqueQuery → Res String (Option D)
by_id id ds (UniqueQuery.uid i) = ok (find_row id ds i)
by_id id ds (UniqueQuery.slug _) = ok none

abbrev one_of : {D : Type 0} → Res String (Option D) → Res String D
one_of (ok (some d)) = ok d
one_of (ok none) = err "not found"
one_of (err e) = err e
one_of panic = panic

abbrev pub rows_source : {D : Type 0} → (D → I32) → List D → Source UniqueQuery I32 D String
rows_source id ds = record {
  find_one = λ q. one_of (by_id id ds q);
  find_all = λ _. ok ds;
  find_optional = by_id id ds;
  get_id = id;
  create_queries = λ d. UniqueQuery.uid (id d) ∷ [];
}

by_id-uid :
    {D : Type 0} (id : D → I32) (ds : List D) (q : UniqueQuery) (d : D)
    → by_id id ds q ≡ ok (some d)
    → q ≡ UniqueQuery.uid (id d)
by_id-uid id ds (UniqueQuery.uid i) d h =
    let at : find_row id ds i ≡ some d = cc in ap UniqueQuery.uid (sym (find_row-id id ds i at))
by_id-uid id ds (UniqueQuery.slug s) d h = cc

single : {A : Type 0} (x y : A) → Memᴰ x (y ∷ []) → x ≡ y
single x y (Memᴰ.head e) = e
single x y (Memᴰ.tail m) = elim m [ ]

pub rows_source-IsCoherent :
    {D : Type 0} (id : D → I32) (ds : List D) → IsCoherent (rows_source id ds)
rows_source-IsCoherent id ds = record {
  answers = λ q d h. Memᴰ.head (by_id-uid id ds q d h);
  coherent = λ q q' d h m.
      let same : q ≡ q' = by_id-uid id ds q d h ∙ sym (single q' (UniqueQuery.uid (id d)) m) in
      rw (sym same) h;
  unique = λ q q' d d' h h' e.
      let same : q ≡ q' =
        by_id-uid id ds q d h ∙ ap UniqueQuery.uid e ∙ sym (by_id-uid id ds q' d' h') in
      let again : by_id id ds q ≡ ok (some d') = rw same h' in cc;
}

-- A table of one row, which is also found by its slug.
abbrev find_in : {D : Type 0} → I32 → String → D → UniqueQuery → Res String (Option D)
find_in i s d q =
    ok (if q == UniqueQuery.uid i then some d else if q == UniqueQuery.slug s then some d else none)

abbrev pub one_source : {D : Type 0} → I32 → String → D → Source UniqueQuery I32 D String
one_source i s d = record {
  find_one = λ q. one_of (find_in i s d q);
  find_all = λ _. ok (d ∷ []);
  find_optional = find_in i s d;
  get_id = λ _. i;
  create_queries = λ _. UniqueQuery.uid i ∷ UniqueQuery.slug s ∷ [];
}

find_in-Memᴰ :
    {D : Type 0} (i : I32) (s : String) (d : D) (q : UniqueQuery) (x : D)
    → find_in i s d q ≡ ok (some x)
    → Memᴰ q (UniqueQuery.uid i ∷ UniqueQuery.slug s ∷ []) × (d ≡ x)
find_in-Memᴰ i s d q x h = elim (==_cases q (UniqueQuery.uid i)) [
  | inl (t, same) ↦ (Memᴰ.head same, ground (arith, t, h))
  | inr (f, _) ↦ elim (==_cases q (UniqueQuery.slug s)) [
    | inl (t, same) ↦ (Memᴰ.tail (Memᴰ.head same), ground (arith, f, t, h))
    | inr (g, _) ↦ absurd (ground (arith, f, g, h))
  ]
]

Memᴰ-find_in :
    {D : Type 0} (i : I32) (s : String) (d : D) (q : UniqueQuery)
    → Memᴰ q (UniqueQuery.uid i ∷ UniqueQuery.slug s ∷ [])
    → find_in i s d q ≡ ok (some d)
Memᴰ-find_in i s d q (Memᴰ.head e) = ground (arith, ==_refl (UniqueQuery.uid i), e)
Memᴰ-find_in i s d q (Memᴰ.tail (Memᴰ.head e)) = ground (arith, ==_refl (UniqueQuery.slug s), e)
Memᴰ-find_in i s d q (Memᴰ.tail (Memᴰ.tail m)) = elim m [ ]

pub one_source-IsCoherent :
    {D : Type 0} (i : I32) (s : String) (d : D) → IsCoherent (one_source i s d)
one_source-IsCoherent i s d = record {
  answers = λ q x h. (find_in-Memᴰ i s d q x h).0;
  coherent =
      λ q q' x h m. Memᴰ-find_in i s d q' m ∙ ap (λ v. ok (some v)) (find_in-Memᴰ i s d q x h).1;
  unique = λ q q' x x' h h' e. sym (find_in-Memᴰ i s d q x h).1 ∙ (find_in-Memᴰ i s d q' x' h').1;
}

abbrev no_rows : {Q D : Type 0} → Source Q I32 D String
no_rows = record {
  find_one = λ _. err "not found";
  find_all = λ _. ok [];
  find_optional = λ _. ok none;
  get_id = λ _. pos 0;
  create_queries = λ _. [];
}

pub no_rows-IsCoherent : {Q D : Type 0} → IsCoherent (no_rows {Q = Q} {D = D})
no_rows-IsCoherent = record {
  answers = λ q d h. cc;
  coherent = λ q q' d h m. cc;
  unique = λ q q' d d' h h' e. cc;
}

abbrev pub sources : Sources String
sources = record {
  flow = one_source (pos 1) "login" login_flow;
  stage =
      rows_source (λ (s : Stage). s.uid) (identification_stage ∷ password_stage ∷ login_stage ∷ []);
  policy = rows_source (λ (p : Policy). p.uid) (local_policy ∷ []);
  prompt = no_rows;
  tenant = no_rows;
}

abbrev pub sources_are_coherent : AreCoherent sources
sources_are_coherent = record {
  flow = one_source-IsCoherent (pos 1) "login" login_flow;
  stage =
      rows_source-IsCoherent (λ (s : Stage). s.uid)
        (identification_stage ∷ password_stage ∷ login_stage ∷ []);
  policy = rows_source-IsCoherent (λ (p : Policy). p.uid) (local_policy ∷ []);
  prompt = no_rows-IsCoherent;
  tenant = no_rows-IsCoherent;
}

-- An error is logged and nothing is found.
abbrev pub answer_of : {E : Type 0} (D : Type 0) → Res E (Option D) → Res ⊥ (Option D)
answer_of D (ok o) = ok o
answer_of D (err e) = ok none
answer_of D panic = panic

pub answer_of_sound :
    {E : Type 0} (D : Type 0) (r : Res E (Option D)) (d : D)
    → answer_of D r ≡ ok (some d)
    → r ≡ ok (some d)
answer_of_sound D (ok o) d h = cc
answer_of_sound D (err e) d h = cc
answer_of_sound D panic d h = cc

abbrev pub lookups_of : (E : Type 0) → Lookup E
lookups_of E = record { answer = answer_of; found = λ D o. refl; sound = answer_of_sound }

abbrev pub lookups : Lookup String
lookups = lookups_of String
