-- ===== src/Scenarios/Policies.antt =====
-- Policies: a script engine with one script, a cache of one entry, and requests to create policies.
use authust.Prelude.{
  String, false, Option, none, some, List, [], ◌∷◌, ◌≡◌, ◌≢◌, ◌⊎◌, ◌↔◌, ◌≤◌, inl, inr, refl, sym,
  ap, ◌∙◌, length, if◌then◌else◌,
}
use authust.Prelude.{arith}
use authust.Prelude.Int.{pos, pos_part, ltb_ℤ}
use authust.Prelude.Eq.{◌==◌, ==_cases, Eq-int, Eq-nat, Eq-string}
use authust.Prelude.Res.{Res, ok}
use authust.Model.Query.{I32, UniqueQuery, PolicyQuery, Eq-unique_query}
use authust.Model.Policy.{Policy, PolicyKind, PolicyKindSimple}
use authust.PolicyEngine.Uri.{Scope}
use authust.PolicyEngine.Script.{Engine, Bytes, compile}
use authust.Policies.Service.{Asts, Lookup, get_ast, invalidate, compiled_policy}
use authust.Policies.Cache.{IsCache, IsFresh, script_of, get_ast-script_of, invalidate-IsFresh}
use authust.Policies.Api.{
  Connection, Tables, created, insert_policy, insert_expression, set_expression, insert_expiration,
  set_expiration, create_expression, create_expiration, read_body, max_expression_len,
}
use authust.Policies.Body.{Gives, joined, read_body_iff}
use authust.Policies.Creation.{
  AllOrNothing, IsCompiled, create_expression-AllOrNothing, create_expiration-AllOrNothing,
}

-- The text "true", and its base64.
abbrev pub true_bytes : Bytes
true_bytes = 116 ∷ 114 ∷ 117 ∷ 101 ∷ []

abbrev pub engine : Engine String String Scope
engine = record {
  encode = λ b. if length b == 4 then "dHJ1ZQ" else "";
  decode = λ s. if s == "dHJ1ZQ" then some true_bytes else if s == "" then some [] else none;
  as_bytes = λ s. if s == "true" then true_bytes else [];
  from_utf8_lossy = λ b. if length b == 4 then "true" else "";
  from_utf8 = λ b. some (if length b == 4 then "true" else "");
  compile_with_scope = λ scope s. if s == "true" then inr "ast" else inl "unexpected end";
}

-- A cache that remembers one entry.
abbrev Slot : Type 0
Slot = Option (I32 × Option String)

abbrev slot_get : I32 → Slot → Option (Option String)
slot_get key none = none
slot_get key (some (k, v)) = if k == key then some v else none

abbrev slot_invalidate : I32 → Slot → Slot
slot_invalidate key none = none
slot_invalidate key (some (k, v)) = if k == key then none else some (k, v)

abbrev pub asts : Asts String Slot
asts = record { get = slot_get; insert = λ key v c. some (key, v); invalidate = slot_invalidate }

slot_get_insert :
    (key wanted : I32) (v w : Option String) (c : Slot)
    → slot_get wanted (some (key, v)) ≡ some w
    → ((key ≡ wanted) × (w ≡ v)) ⊎ (slot_get wanted c ≡ some w)
slot_get_insert key wanted v w c h = elim (==_cases key wanted) [
  | inl (t, same) ↦
      let found : slot_get wanted (some (key, v)) ≡ some v = rw t in inl (same, cc (h, found))
  | inr (f, _) ↦ let found : slot_get wanted (some (key, v)) ≡ none = rw f in absurd (cc (h, found))
]

slot_get_invalidate :
    (key wanted : I32) (w : Option String) (c : Slot)
    → slot_get wanted (slot_invalidate key c) ≡ some w
    → (key ≢ wanted) × (slot_get wanted c ≡ some w)
slot_get_invalidate key wanted w none h = cc
slot_get_invalidate key wanted w (some (k, v)) h = elim (==_cases k key) [
  | inl (t, _) ↦
      let gone : slot_get wanted (slot_invalidate key (some (k, v))) ≡ none = rw t in
      absurd (cc (h, gone))
  | inr (f, other) ↦
      let kept : slot_invalidate key (some (k, v)) ≡ some (k, v) = rw f in
      let old : slot_get wanted (some (k, v)) ≡ some w = rw kept at h in
      (
        λ e. elim (==_cases k wanted) [
          | inl (_, same) ↦ other (same ∙ sym e)
          | inr (g, _) ↦
              let missing : slot_get wanted (some (k, v)) ≡ none = rw g in cc (old, missing)
        ],
        old,
      )
]

asts_IsCache : IsCache asts
asts_IsCache = record { get_insert = slot_get_insert; get_invalidate = slot_get_invalidate }

-- One policy, before and after its expression changes.
abbrev pub stored : String → Policy
stored expression = record { uid = pos 7; slug = "local"; kind = PolicyKind.expression expression }

abbrev lookup_in : Policy → Lookup
lookup_in p q = if q == UniqueQuery.uid (pos 7) then ok (some p) else ok none

lookup_in-is : (p p' : Policy) (q : PolicyQuery) → lookup_in p q ≡ ok (some p') → p ≡ p'
lookup_in-is p p' q h = elim (==_cases q (UniqueQuery.uid (pos 7))) [
  | inl (t, _) ↦ let found : lookup_in p q ≡ ok (some p) = rw t in cc (h, found)
  | inr (f, _) ↦ let found : lookup_in p q ≡ ok none = rw f in absurd (cc (h, found))
]

get_ast-script_of_example :
    ((get_ast engine asts (lookup_in (stored "dHJ1ZQ")) (UniqueQuery.uid (pos 7)) none).0
      ≡ script_of engine asts asts_IsCache (ok (some (stored "dHJ1ZQ"))))
    × IsFresh engine asts asts_IsCache
        (lookup_in (stored "dHJ1ZQ"))
        (get_ast engine asts (lookup_in (stored "dHJ1ZQ")) (UniqueQuery.uid (pos 7)) none).1
get_ast-script_of_example =
    get_ast-script_of engine asts asts_IsCache (lookup_in (stored "dHJ1ZQ"))
      (UniqueQuery.uid (pos 7)) none
      (λ q q' p p' h h' same.
        sym (lookup_in-is (stored "dHJ1ZQ") p q h) ∙ lookup_in-is (stored "dHJ1ZQ") p' q' h')
      (λ q p v h at. cc (at))

-- Another policy, which stays as it is, and whose script is cached.
abbrev other : Policy
other = record { uid = pos 8; slug = "other"; kind = PolicyKind.expression "dHJ1ZQ" }

abbrev lookup_two : Policy → Lookup
lookup_two p q = if q == UniqueQuery.uid (pos 8) then ok (some other) else lookup_in p q

abbrev cached : Option (I32 × Option String)
cached = some (pos 8, some "ast")

-- What is found under another id than 7 is the other policy.
lookup_two-other :
    (p p' : Policy) (q : PolicyQuery)
    → p.uid ≡ pos 7
    → lookup_two p q ≡ ok (some p')
    → p'.uid ≢ pos 7
    → other ≡ p'
lookup_two-other p p' q is h ne = elim (==_cases q (UniqueQuery.uid (pos 8))) [
  | inl (t, _) ↦ let found : lookup_two p q ≡ ok (some other) = rw t in cc (h, found)
  | inr (f, _) ↦
      let old : lookup_in p q ≡ ok (some p') = rw f at h in
      let one : p ≡ p' = lookup_in-is p p' q old in absurd (ne (rw one at is))
]

cached-IsFresh : IsFresh engine asts asts_IsCache (lookup_two (stored "dHJ1ZQ")) cached
unfolding compiled_policy compile
cached-IsFresh q p v h at = elim (==_cases (pos 8) p.uid) [
  | inl (t, same) ↦
      let one : other ≡ p =
        lookup_two-other (stored "dHJ1ZQ") p q refl h (λ e. absurd (eight (same ∙ e))) in
      let found : slot_get p.uid cached ≡ some (some "ast") = rw t in
      let value : v ≡ some "ast" = cc (found, at) in rw (sym one, value) refl
  | inr (f, _) ↦ let found : slot_get p.uid cached ≡ none = rw f in absurd (cc (found, at))
]
  where
    eight : ◌≡◌ {A = I32} (pos 8) (pos 7) → ⊥
    eight e = omega (arith, ap pos_part e)

invalidate-IsFresh_example :
    compiled_policy engine asts (PolicyKind.expression "dHJ1ZQ") ≡ some (some "ast")
unfolding invalidate
invalidate-IsFresh_example =
    invalidate-IsFresh engine asts asts_IsCache {E = String} (lookup_two (stored "dHJ1ZQ"))
      (lookup_two (stored "")) (pos 7) (λ _. ok tt) cached
      (λ q p h ne. (
        UniqueQuery.uid (pos 8),
        ap (λ (x : Policy). ok (some x)) (lookup_two-other (stored "") p q refl h ne),
      ))
      cached-IsFresh (UniqueQuery.uid (pos 8)) other (some "ast") refl refl

-- A body in two chunks.
abbrev chunks : List (Res String Bytes)
chunks = ok (116 ∷ 114 ∷ []) ∷ ok (117 ∷ 101 ∷ []) ∷ []

body_is_read : read_body chunks [] ≡ ok (some true_bytes)
unfolding read_body
body_is_read = refl

read_body_iff_example : (read_body chunks [] ≡ ok (some true_bytes)) ↔ (
    (parts : List Bytes) × Gives chunks parts
    × (true_bytes ≡ joined parts)
    × (length true_bytes ≤ max_expression_len))
read_body_iff_example = read_body_iff chunks true_bytes

-- A database that gives the ids 20 and 21.
abbrev connection : Connection
connection = record {
  connect = ok tt;
  begin = ok tt;
  run = λ before statement. ok (pos (if length before == 0 then 20 else 21));
  commit = ok tt;
}

abbrev no_tables : Tables
no_tables = record { pending = []; committed = [] }

policy_is_created : create_expression connection engine (λ e. e) "local" chunks no_tables ≡ (
  ok (created (record { uid = pos 20; slug = "local"; kind = PolicyKindSimple.expression })),
  record {
    pending = [];
    committed =
        set_expression (pos 21) (pos 20)
        ∷ insert_expression "dHJ1ZQ"
        ∷ insert_policy "local" PolicyKindSimple.expression
        ∷ [];
  },
)
unfolding create_expression
policy_is_created = refl

create_expression-AllOrNothing_example :
    AllOrNothing connection
      (IsCompiled connection engine (λ e. e) chunks)
      "local"
      []
      (create_expression connection engine (λ e. e) "local" chunks no_tables).0
      (create_expression connection engine (λ e. e) "local" chunks no_tables).1
create_expression-AllOrNothing_example =
    create_expression-AllOrNothing connection engine (λ e. e) "local" chunks no_tables

expiration_is_created : create_expiration connection "monthly" (pos 30) no_tables ≡ (
  ok (created (record { uid = pos 20; slug = "monthly"; kind = PolicyKindSimple.password_expiry })),
  record {
    pending = [];
    committed =
        set_expiration (pos 21) (pos 20)
        ∷ insert_expiration (pos 30)
        ∷ insert_policy "monthly" PolicyKindSimple.password_expiry
        ∷ [];
  },
)
unfolding create_expiration
expiration_is_created = refl

create_expiration-AllOrNothing_example :
    AllOrNothing connection
      (λ kind. (kind ≡ PolicyKind.password_expiry (pos 30)) × (ltb_ℤ (pos 30) (pos 0) ≡ false))
      "monthly"
      []
      (create_expiration connection "monthly" (pos 30) no_tables).0
      (create_expiration connection "monthly" (pos 30) no_tables).1
create_expiration-AllOrNothing_example =
    create_expiration-AllOrNothing connection "monthly" (pos 30) no_tables
