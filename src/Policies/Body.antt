-- ===== src/Policies/Body.antt =====
-- server/src/api/v1/policy.rs: which bodies `create_expression` reads.
use authust.Prelude.{
  String, false, some, List, [], ◌∷◌, ◌++◌, ◌+◌, ◌≤◌, ◌≡◌, ◌↔◌, refl, sym, ap, ◌∙◌, length,
  length-append, ltb, ltb→lt, Bool-cases, inl, inr, arith,
}
use mathlib.Core.List.{append_assoc, append-nil}
use authust.Prelude.Res.{Res, ok, err, panic}
use authust.PolicyEngine.Script.{Bytes}
use authust.Policies.Api.{max_expression_len, read_body}

abbrev pub joined : List Bytes → Bytes
joined [] = []
joined (p ∷ ps) = p ++ joined ps

-- The stream gives these parts, and no error.
abbrev pub Gives : List (Res String Bytes) → List Bytes → Type 0
Gives [] [] = Unit
Gives (ok chunk ∷ chunks) (p ∷ ps) = (chunk ≡ p) × Gives chunks ps
Gives _ _ = ⊥

abbrev pub Reads : List (Res String Bytes) → Bytes → Bytes → Type 0
Reads chunks before bytes =
    (parts : List Bytes) × Gives chunks parts
    × (bytes ≡ before ++ joined parts)
    × (length bytes ≤ max_expression_len)

fits_lem :
    (a b c : Bytes)
    → length ((a ++ b) ++ c) ≤ max_expression_len
    → ltb max_expression_len (length a + length b) ≡ false
fits_lem a b c h = elim (Bool-cases (ltb max_expression_len (length a + length b))) [
  | inl t ↦
      let over = ltb→lt max_expression_len (length a + length b) t in
      absurd (omega (arith, over, length-append a b, length-append (a ++ b) c))
  | inr f ↦ f
]

read_body-Reads :
    (chunks : List (Res String Bytes)) (before bytes : Bytes)
    → length before ≤ max_expression_len
    → read_body chunks before ≡ ok (some bytes)
    → Reads chunks before bytes
unfolding read_body
read_body-Reads [] before bytes h run =
    let same : before ≡ bytes = cc in ([], tt, sym same ∙ sym (append-nil before), rw same at h)
read_body-Reads (err e ∷ chunks) before bytes h run = cc
read_body-Reads (panic ∷ chunks) before bytes h run = cc
read_body-Reads (ok chunk ∷ chunks) before bytes h run =
    elim (Bool-cases (ltb max_expression_len (length before + length chunk))) [
      | inl t ↦ cc (rw t at run)
      | inr f ↦
          let fits : length (before ++ chunk) ≤ max_expression_len =
            ground (arith, length-append before chunk, f) in
          let (parts, gives, is, small) =
            read_body-Reads chunks (before ++ chunk) bytes fits (rw f at run) in
          (chunk ∷ parts, (refl, gives), is ∙ append_assoc before chunk (joined parts), small)
    ]

Reads-read_body :
    (chunks : List (Res String Bytes)) (parts : List Bytes) (before : Bytes)
    → Gives chunks parts
    → length (before ++ joined parts) ≤ max_expression_len
    → read_body chunks before ≡ ok (some (before ++ joined parts))
unfolding read_body
Reads-read_body [] [] before gives small = ap (λ b. ok (some b)) (sym (append-nil before))
Reads-read_body (ok chunk ∷ chunks) (p ∷ ps) before (same, gives) small =
    let assoc = append_assoc before p (joined ps) in
    let fits = fits_lem before p (joined ps) (rw (sym assoc) at small) in
    rw (same, fits)
      (Reads-read_body chunks ps (before ++ p) gives (rw (sym assoc) at small)
        ∙ ap (λ b. ok (some b)) assoc)
Reads-read_body [] (p ∷ ps) before gives small = absurd gives
Reads-read_body (ok chunk ∷ chunks) [] before gives small = absurd gives
Reads-read_body (err e ∷ chunks) [] before gives small = absurd gives
Reads-read_body (err e ∷ chunks) (p ∷ ps) before gives small = absurd gives
Reads-read_body (panic ∷ chunks) [] before gives small = absurd gives
Reads-read_body (panic ∷ chunks) (p ∷ ps) before gives small = absurd gives

-- A body is read to its end exactly if no chunk of it fails and it is at most 2048 bytes long, and
-- what is read is the chunks one after another.
pub read_body_iff :
    (chunks : List (Res String Bytes)) (bytes : Bytes)
    → (read_body chunks [] ≡ ok (some bytes)) ↔ (
        (parts : List Bytes) × Gives chunks parts
        × (bytes ≡ joined parts)
        × (length bytes ≤ max_expression_len))
read_body_iff chunks bytes = (
  λ run. read_body-Reads chunks [] bytes (omega arith) run,
  λ (parts, gives, is, small).
      let run = Reads-read_body chunks parts [] gives (rw is at small) in
      run ∙ ap (λ b. ok (some b)) (sym is),
)
