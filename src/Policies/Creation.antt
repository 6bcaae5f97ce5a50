-- ===== src/Policies/Creation.antt =====
-- server/src/api/v1/policy.rs: what a request to create a policy leaves in the database.
use authust.Prelude.{
  String, Bool, true, false, Option, none, some, List, [], ◌∷◌, ◌++◌, ◌≡◌, refl, sym, ap, ◌∙◌,
  if◌then◌else◌,
}
use mathlib.Core.Path.{ap₂, subst}
use mathlib.Core.List.{append_assoc, append-nil}
use authust.Prelude.Int.{pos, ltb_ℤ}
use authust.Prelude.Res.{Res, ok, err, panic}
use authust.Model.Query.{I32}
use authust.Model.Policy.{PolicyKind, PartialPolicy, simple_kind}
use authust.PolicyEngine.Uri.{Scope}
use authust.PolicyEngine.Script.{
  Engine, Bytes, Compiled, invalid_base64, parse, compile, encode_base64,
}
use authust.Api.Error.{Api, ApiErrorKind, PgError, pool_error}
use authust.Api.Monad.{◌>>=◌, continue, lift, pure, convert}
use authust.Policies.Service.{dummy_scope}
use authust.Policies.Api.{
  Connection, Tables, Answer, created, bad_request, payload_too_large, internal_server_error, H,
  PolicyStatement, insert_policy, insert_expiration, insert_expression, set_expiration,
  set_expression, read_body, run, ran, begun, transaction, committed_by, create, create_sub, store,
  rolled_back, create_expiration, create_expression, if_compiled, if_utf8, if_read,
}

-- A postcondition of a step, on its result and the state after it.
abbrev pub Post : Type 0 → Type 1
Post A = Res ApiErrorKind A → Tables → Type 0

abbrev pub Holds : {A : Type 0} → Post A → Res ApiErrorKind A × Tables → Type 0
Holds post r = post r.0 r.1

-- A step is followed by another: what it may end with, and what the other does then.
then_lem :
    {A B : Type 0} (post : Post A) (post' : Post B) (m : Res ApiErrorKind A × Tables) (f : A → H B)
    → Holds post m
    → ((e : ApiErrorKind) (t : Tables) → post (err e) t → post' (err e) t)
    → ((t : Tables) → post panic t → post' panic t)
    → ((a : A) (t : Tables) → post (ok a) t → Holds post' (f a t))
    → Holds post' (continue m f)
then_lem post post' (ok a, s) f h on_err on_panic on_ok = on_ok a s h
then_lem post post' (err e, s) f h on_err on_panic on_ok = on_err e s h
then_lem post post' (panic, s) f h on_err on_panic on_ok = on_panic s h

module _ (db : Connection) where
  -- The statement is in the transaction, and nothing is committed.
  abbrev Ran : PolicyStatement → Tables → Post I32
  Ran statement s (ok uid) t =
      (db.run s.pending statement ≡ ok uid)
      × (t.pending ≡ statement ∷ s.pending)
      × (t.committed ≡ s.committed)
  Ran statement s _ t = t.committed ≡ s.committed

  run-Ran :
      (statement : PolicyStatement) (s : Tables) → Holds (Ran statement s) (run db statement s)
  run-Ran statement s = go (db.run s.pending statement) refl
    where
      go :
          (r : Res PgError I32)
          → db.run s.pending statement ≡ r
          → Holds (Ran statement s) (ran db statement r s)
      go (ok uid) is = (is, refl, refl)
      go (err e) is = refl
      go panic is = refl

  -- A sub-row is in the transaction, with the reference to it.
  abbrev pub sub_statements : PolicyKind → I32 → I32 → List PolicyStatement
  sub_statements (PolicyKind.password_expiry max_age) uid sub =
      set_expiration sub uid ∷ insert_expiration max_age ∷ []
  sub_statements PolicyKind.password_strength uid sub = []
  sub_statements (PolicyKind.expression expression) uid sub =
      set_expression sub uid ∷ insert_expression expression ∷ []

  -- The sub-row of a kind was inserted after the statements before it, and has the id.
  abbrev pub HasSub : PolicyKind → List PolicyStatement → I32 → Type 0
  HasSub (PolicyKind.password_expiry max_age) before sub =
      db.run before (insert_expiration max_age) ≡ ok sub
  HasSub PolicyKind.password_strength before sub = ⊥
  HasSub (PolicyKind.expression expression) before sub =
      db.run before (insert_expression expression) ≡ ok sub

  abbrev Subbed : PolicyKind → I32 → Tables → Post (Unit {0})
  Subbed kind uid s (ok _) t =
      (sub : I32) × HasSub kind s.pending sub
      × (t.pending ≡ sub_statements kind uid sub ++ s.pending)
      × (t.committed ≡ s.committed)
  Subbed kind uid s _ t = t.committed ≡ s.committed

  abbrev Both : PolicyStatement → (I32 → PolicyStatement) → Tables → Post (Unit {0})
  Both first second s (ok _) t =
      (sub : I32) × (db.run s.pending first ≡ ok sub)
      × (t.pending ≡ second sub ∷ first ∷ s.pending)
      × (t.committed ≡ s.committed)
  Both first second s _ t = t.committed ≡ s.committed

  -- Two statements, the second of which refers to the row of the first.
  two_statements :
      (first : PolicyStatement) (second : I32 → PolicyStatement) (s : Tables)
      → Holds
          (Both first second s)
          (continue (run db first s) (λ sub. run db (second sub) >>= λ _. pure tt))
  two_statements first second s =
      then_lem (Ran first s) (Both first second s) (run db first s) _ (run-Ran first s) (λ e t h. h)
        (λ t h. h)
        (λ sub t (has, pending, same).
          then_lem (Ran (second sub) t) (Both first second s) (run db (second sub) t) _
            (run-Ran (second sub) t) (λ e u h. h ∙ same) (λ u h. h ∙ same)
            (λ x u (_, pending', same').
              (sub, has, pending' ∙ ap (λ l. second sub ∷ l) pending, same' ∙ same)))

  create_sub-Subbed :
      (kind : PolicyKind) (uid : I32) (s : Tables)
      → Holds (Subbed kind uid s) (create_sub db kind uid s)
  create_sub-Subbed (PolicyKind.password_expiry max_age) uid s =
      two_statements (insert_expiration max_age) (λ sub. set_expiration sub uid) s
  create_sub-Subbed PolicyKind.password_strength uid s = refl
  create_sub-Subbed (PolicyKind.expression expression) uid s =
      two_statements (insert_expression expression) (λ sub. set_expression sub uid) s

  -- The statements that a policy is made of, the last one first.
  abbrev pub statements_of : String → PolicyKind → I32 → I32 → List PolicyStatement
  statements_of slug kind uid sub =
      sub_statements kind uid sub ++ (insert_policy slug (simple_kind kind) ∷ [])

  -- The answer is the policy of the statements, which were run after those before them: its id is that
  -- of its row, and the id that its row refers to is that of the row of its kind.
  abbrev pub IsMade :
      List PolicyStatement → String → PolicyKind → PartialPolicy → List PolicyStatement → Type 0
  IsMade before slug kind partial statements =
      let row = insert_policy slug (simple_kind kind) in
      (sub : I32) × (db.run before row ≡ ok partial.uid)
      × HasSub kind (row ∷ before) sub
      × (partial.slug ≡ slug)
      × (partial.kind ≡ simple_kind kind)
      × (statements ≡ statements_of slug kind partial.uid sub)

  abbrev Made : String → PolicyKind → Tables → Post PartialPolicy
  Made slug kind s (ok partial) t =
      (statements : List PolicyStatement) × IsMade s.pending slug kind partial statements
      × (t.pending ≡ statements ++ s.pending)
      × (t.committed ≡ s.committed)
  Made slug kind s _ t = t.committed ≡ s.committed

  create-Made :
      (slug : String) (kind : PolicyKind) (s : Tables)
      → Holds (Made slug kind s) (create db slug kind s)
  unfolding create
  create-Made slug kind s =
      let row = insert_policy slug (simple_kind kind) in
      then_lem (Ran row s) (Made slug kind s) (run db row s) _ (run-Ran row s) (λ e t h. h)
        (λ t h. h)
        (λ uid t (has, pending, same).
          then_lem (Subbed kind uid t) (Made slug kind s) (create_sub db kind uid t) _
            (create_sub-Subbed kind uid t) (λ e u h. h ∙ same) (λ u h. h ∙ same)
            (λ x u (sub, has_sub, pending', same'). (
              statements_of slug kind uid sub,
              (sub, has, subst (λ l. HasSub kind l sub) pending has_sub, refl, refl, refl),
              pending'
                  ∙ ap (λ l. sub_statements kind uid sub ++ l) pending
                  ∙ sym (append_assoc (sub_statements kind uid sub) (row ∷ []) s.pending),
              same' ∙ same,
            )))

  -- Either a policy of an allowed kind is answered and its statements are committed, or nothing is
  -- committed.
  abbrev pub AllOrNothing :
      (PolicyKind → Type 0)
      → String
      → List PolicyStatement
      → Res ApiErrorKind Answer
      → Tables
      → Type 0
  AllOrNothing allowed slug before (ok (created partial)) t =
      (kind : PolicyKind) × (statements : List PolicyStatement) × allowed kind
      × IsMade [] slug kind partial statements
      × (t.committed ≡ statements ++ before)
  AllOrNothing allowed slug before _ t = t.committed ≡ before

  store-AllOrNothing :
      (allowed : PolicyKind → Type 0) (slug : String) (kind : PolicyKind) (s : Tables)
      → allowed kind
      → s.pending ≡ []
      → Holds (AllOrNothing allowed slug s.committed) (store db slug kind s)
  store-AllOrNothing allowed slug kind s may empty =
      then_lem (Made slug kind s) (AllOrNothing allowed slug s.committed) (create db slug kind s) _
        (create-Made slug kind s) (λ e t h. h) (λ t h. h)
        (λ partial t (statements, made, pending, same).
          go partial t statements (subst (λ l. IsMade l slug kind partial statements) empty made)
            (pending ∙ ap (λ l. statements ++ l) empty ∙ append-nil statements) same db.commit)
    where
      go :
          (partial : PartialPolicy) (t : Tables) (statements : List PolicyStatement)
          → IsMade [] slug kind partial statements
          → t.pending ≡ statements
          → t.committed ≡ s.committed
          → (r : Res PgError (Unit {0}))
          → Holds
              (AllOrNothing allowed slug s.committed)
              (continue (committed_by db r t) (λ _. pure (created partial)))
      go partial t statements made pending same (ok x) =
          (kind, statements, may, made, ap₂ ◌++◌ pending same)
      go partial t statements made pending same (err e) = same
      go partial t statements made pending same panic = same

  -- A transaction begins with nothing in it.
  abbrev Begun : Tables → Post (Unit {0})
  Begun s (ok _) t = (t.pending ≡ []) × (t.committed ≡ s.committed)
  Begun s _ t = t.committed ≡ s.committed

  transaction-Begun : (s : Tables) → Holds (Begun s) (transaction db s)
  transaction-Begun s = go db.connect db.begin
    where
      go :
          (c : Res String (Unit {0})) (b : Res PgError (Unit {0}))
          → Holds (Begun s) (continue (lift (convert pool_error c) s) (λ _. begun db b))
      go (ok x) (ok y) = (refl, refl)
      go (ok x) (err e) = refl
      go (ok x) panic = refl
      go (err e) b = refl
      go panic b = refl

  from_transaction :
      (allowed : PolicyKind → Type 0) (slug : String) (s : Tables) (rest : H Answer)
      → ((t : Tables) → t.pending ≡ [] → Holds (AllOrNothing allowed slug t.committed) (rest t))
      → Holds
          (AllOrNothing allowed slug s.committed)
          (rolled_back db (continue (transaction db s) (λ _. rest)))
  from_transaction allowed slug s rest h = dropped (continue (transaction db s) (λ _. rest)) (
      then_lem (Begun s) (AllOrNothing allowed slug s.committed) (transaction db s) _
        (transaction-Begun s) (λ e t same. same) (λ t same. same)
        (λ x t (empty, same).
          subst (λ b. Holds (AllOrNothing allowed slug b) (rest t)) same (h t empty)))
    where
      dropped :
          (r : Res ApiErrorKind Answer × Tables)
          → Holds (AllOrNothing allowed slug s.committed) r
          → Holds (AllOrNothing allowed slug s.committed) (rolled_back db r)
      dropped (ok (created partial), t) k = k
      dropped (ok (bad_request m), t) k = k
      dropped (ok (payload_too_large m), t) k = k
      dropped (ok internal_server_error, t) k = k
      dropped (err e, t) k = k
      dropped (panic, t) k = k

  -- Creating a password expiry policy either answers with the policy, and then its row, the row of its
  -- age and the reference between them are committed and the age is not negative, or commits nothing.
  pub create_expiration-AllOrNothing :
      (slug : String) (max_age : I32) (s : Tables)
      → Holds
          (AllOrNothing
            (λ kind. (kind ≡ PolicyKind.password_expiry max_age) × (ltb_ℤ max_age (pos 0) ≡ false))
            slug
            s.committed)
          (create_expiration db slug max_age s)
  unfolding create_expiration
  create_expiration-AllOrNothing slug max_age s = go (ltb_ℤ max_age (pos 0)) refl
    where
      go :
          (b : Bool)
          → ltb_ℤ max_age (pos 0) ≡ b
          → Holds
              (AllOrNothing
                (λ kind.
                  (kind ≡ PolicyKind.password_expiry max_age) × (ltb_ℤ max_age (pos 0) ≡ false))
                slug
                s.committed)
              (if b
                then (ok (bad_request "max_age must be positive"), s)
                else rolled_back db (
                    continue
                      (transaction db s)
                      (λ _. store db slug (PolicyKind.password_expiry max_age))))
      go true is = refl
      go false is =
          from_transaction _ slug s (store db slug (PolicyKind.password_expiry max_age)) (λ t empty.
            store-AllOrNothing _ slug (PolicyKind.password_expiry max_age) t (refl, is) empty)

  module _ {AST ParseError : Type 0} (engine : Engine AST ParseError Scope)
      (show : ParseError → String) where
    -- The expression is the encoded text of the body, and it compiles.
    abbrev pub IsCompiled : List (Res String Bytes) → PolicyKind → Type 0
    IsCompiled chunks kind =
        (bytes : Bytes) × (text : String) × (ast : AST) × (read_body chunks [] ≡ ok (some bytes))
        × (engine.from_utf8 bytes ≡ some text)
        × (kind ≡ PolicyKind.expression (encode_base64 engine text))
        × (compile engine (encode_base64 engine text) dummy_scope ≡ ok ast)

    if_compiled-AllOrNothing :
        (chunks : List (Res String Bytes)) (slug text : String) (bytes : Bytes)
        (r : Compiled engine AST) (s : Tables)
        → read_body chunks [] ≡ ok (some bytes)
        → engine.from_utf8 bytes ≡ some text
        → compile engine (encode_base64 engine text) dummy_scope ≡ r
        → s.pending ≡ []
        → Holds
            (AllOrNothing (IsCompiled chunks) slug s.committed)
            (if_compiled db engine show slug (encode_base64 engine text) r s)
    if_compiled-AllOrNothing chunks slug text bytes (ok ast) s read utf8 is empty =
        store-AllOrNothing (IsCompiled chunks) slug
          (PolicyKind.expression (encode_base64 engine text)) s
          (bytes, text, ast, read, utf8, refl, is) empty
    if_compiled-AllOrNothing chunks slug text bytes (err invalid_base64) s read utf8 is empty = refl
    if_compiled-AllOrNothing chunks slug text bytes (err (parse e)) s read utf8 is empty = refl
    if_compiled-AllOrNothing chunks slug text bytes panic s read utf8 is empty = refl

    if_utf8-AllOrNothing :
        (chunks : List (Res String Bytes)) (slug : String) (bytes : Bytes) (o : Option String)
        (s : Tables)
        → read_body chunks [] ≡ ok (some bytes)
        → engine.from_utf8 bytes ≡ o
        → s.pending ≡ []
        → Holds
            (AllOrNothing (IsCompiled chunks) slug s.committed)
            (if_utf8 db engine show slug o s)
    if_utf8-AllOrNothing chunks slug bytes none s read utf8 empty = refl
    if_utf8-AllOrNothing chunks slug bytes (some text) s read utf8 empty =
        if_compiled-AllOrNothing chunks slug text bytes
          (compile engine (encode_base64 engine text) dummy_scope) s read utf8 refl empty

    if_read-AllOrNothing :
        (chunks : List (Res String Bytes)) (slug : String) (r : Api (Option Bytes)) (s : Tables)
        → read_body chunks [] ≡ r
        → s.pending ≡ []
        → Holds
            (AllOrNothing (IsCompiled chunks) slug s.committed)
            (continue (lift r s) (λ body. if_read db engine show slug body))
    if_read-AllOrNothing chunks slug (ok none) s read empty = refl
    if_read-AllOrNothing chunks slug (ok (some bytes)) s read empty =
        if_utf8-AllOrNothing chunks slug bytes (engine.from_utf8 bytes) s read refl empty
    if_read-AllOrNothing chunks slug (err e) s read empty = refl
    if_read-AllOrNothing chunks slug panic s read empty = refl

    -- Creating an expression policy either answers with the policy, and then its row, the row of its
    -- expression and the reference between them are committed, the body was read to its end as UTF-8,
    -- the expression is its encoding and compiles, or it commits nothing.
    pub create_expression-AllOrNothing :
        (slug : String) (chunks : List (Res String Bytes)) (s : Tables)
        → Holds
            (AllOrNothing (IsCompiled chunks) slug s.committed)
            (create_expression db engine show slug chunks s)
    unfolding create_expression
    create_expression-AllOrNothing slug chunks s =
        from_transaction (IsCompiled chunks) slug s _
          (λ t empty. if_read-AllOrNothing chunks slug (read_body chunks []) t refl empty)
