-- ===== src/Policies/Cache.antt =====
-- The cache of compiled policies answers as a compilation of the stored policy would.
use authust.Prelude.{Option, none, some, ◌≡◌, ◌≢◌, ◌⊎◌, inl, inr, refl, sym, ap, ◌∙◌}
use authust.Prelude.Res.{Res, ok, err, panic}
use authust.Prelude.Eq.{Eq-int}
use authust.Model.Query.{I32, PolicyQuery}
use authust.Model.Policy.{Policy}
use authust.PolicyEngine.Uri.{Scope}
use authust.PolicyEngine.Script.{Engine}
use authust.Policies.Service.{
  Lookup, Asts, compiled_policy, or_initialised, flatten, flattened, ast_of_lookup, get_ast,
  invalidate,
}

-- What the code relies on of moka: an entry that is found was the last inserted under its key, and
-- not invalidated since. Entries may be gone.
pub record IsCache {AST C : Type 0} (asts : Asts AST C) : Type 0 where
  pub get_insert :
      (key wanted : I32) (v w : Option AST) (c : C)
      → asts.get wanted (asts.insert key v c) ≡ some w
      → ((key ≡ wanted) × (w ≡ v)) ⊎ (asts.get wanted c ≡ some w)
  pub get_invalidate :
      (key wanted : I32) (w : Option AST) (c : C)
      → asts.get wanted (asts.invalidate key c) ≡ some w
      → (key ≢ wanted) × (asts.get wanted c ≡ some w)

module _ {AST ParseError C : Type 0} (engine : Engine AST ParseError Scope) (asts : Asts AST C)
    (cache : IsCache asts) where
  -- Every entry of a policy that the storage has is what the policy compiles to.
  abbrev pub IsFresh : Lookup → C → Type 0
  IsFresh lookup c =
      (q : PolicyQuery) (p : Policy) (v : Option AST)
      → lookup q ≡ ok (some p)
      → asts.get p.uid c ≡ some v
      → compiled_policy engine asts p.kind ≡ some v

  -- The storage has one policy under an id.
  abbrev pub IsUnique : Lookup → Type 0
  IsUnique lookup =
      (q q' : PolicyQuery) (p p' : Policy)
      → lookup q ≡ ok (some p)
      → lookup q' ≡ ok (some p')
      → p.uid ≡ p'.uid
      → p ≡ p'

  -- The abstract script of a reference: compile what the storage has, with no cache.
  abbrev pub script_of : Res ⊥ (Option Policy) → Res ⊥ (Option AST)
  script_of (ok none) = ok none
  script_of (ok (some p)) = ok (flatten engine asts (compiled_policy engine asts p.kind))
  script_of (err x) = absurd x
  script_of panic = panic

  insert-IsFresh :
      (lookup : Lookup) (q : PolicyQuery) (p : Policy) (v : Option AST) (c : C)
      → IsUnique lookup
      → lookup q ≡ ok (some p)
      → compiled_policy engine asts p.kind ≡ some v
      → IsFresh lookup c
      → IsFresh lookup (asts.insert p.uid v c)
  insert-IsFresh lookup q p v c unique found is fresh q' p' w found' at =
      elim (cache.get_insert p.uid p'.uid v w c at) [
        | inl (same, value) ↦
            let one : p ≡ p' = unique q q' p p' found found' same in
            rw (sym one) (is ∙ ap (λ x. some x) (sym value))
        | inr old ↦ fresh q' p' w found' old
      ]

  cached-script :
      (lookup : Lookup) (q : PolicyQuery) (p : Policy) (c : C)
      (cached compiled : Option (Option AST))
      → IsUnique lookup
      → lookup q ≡ ok (some p)
      → IsFresh lookup c
      → asts.get p.uid c ≡ cached
      → compiled_policy engine asts p.kind ≡ compiled
      → ((flattened engine asts (or_initialised engine asts p.uid cached compiled c)).0
          ≡ flatten engine asts compiled)
        × IsFresh lookup
            (flattened engine asts (or_initialised engine asts p.uid cached compiled c)).1
  cached-script lookup q p c (some v) compiled unique found fresh at is =
      let same : compiled ≡ some v = sym is ∙ fresh q p v found at in
      (ap (flatten engine asts) (sym same), fresh)
  cached-script lookup q p c none (some v) unique found fresh at is =
      (refl, insert-IsFresh lookup q p v c unique found is fresh)
  cached-script lookup q p c none none unique found fresh at is = (refl, fresh)

  -- If the storage has one policy under an id, and every cached script is that of the stored policy,
  -- then `get_ast` gives the script that the policy of the reference compiles to, none where it is
  -- missing, is no expression or does not compile; it panics exactly if the storage's lookup does; and
  -- the cache stays so.
  pub get_ast-script_of :
      (lookup : Lookup) (q : PolicyQuery) (c : C)
      → IsUnique lookup
      → IsFresh lookup c
      → ((get_ast engine asts lookup q c).0 ≡ script_of (lookup q))
        × IsFresh lookup (get_ast engine asts lookup q c).1
  unfolding get_ast
  get_ast-script_of lookup q c unique fresh = go (lookup q) refl
    where
      go :
          (o : Res ⊥ (Option Policy))
          → lookup q ≡ o
          → ((ast_of_lookup engine asts o c).0 ≡ script_of o)
            × IsFresh lookup (ast_of_lookup engine asts o c).1
      go (ok none) found = (refl, fresh)
      go (ok (some p)) found =
          let (script, still) =
            cached-script lookup q p c (asts.get p.uid c) (compiled_policy engine asts p.kind)
              unique found fresh refl refl in
          (ap (λ (o : Option AST). ok o) script, still)
      go (err x) found = absurd x
      go panic found = (refl, fresh)

  -- If a policy changes in the storage and no other does, then a cache that was right before is right
  -- again once `invalidate` has run for the policy, also when the storage's own invalidation fails.
  pub invalidate-IsFresh :
      {E : Type 0} (before after : Lookup) (id : I32)
      (invalidate_policy : PolicyQuery → Res E (Unit {0})) (c : C)
      → ((q : PolicyQuery) (p : Policy)
          → after q ≡ ok (some p)
          → p.uid ≢ id
          → (q' : PolicyQuery) × (before q' ≡ ok (some p)))
      → IsFresh before c
      → IsFresh after (invalidate engine asts invalidate_policy id c).1
  unfolding invalidate
  invalidate-IsFresh before after id invalidate_policy c others fresh q p v found at =
      let (other, old) = cache.get_invalidate id p.uid v c at in
      let (q', found') = others q p found (λ e. other (sym e)) in fresh q' p v found' old
