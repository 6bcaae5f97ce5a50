-- ===== src/PolicyEngine/Script.antt =====
-- policy-engine/src/lib.rs: the text of an expression policy, its compilation and its run. Base64
-- (BASE64_URL_SAFE_NO_PAD), UTF-8 and the engine of rhai are arguments.
use authust.Prelude.{ℕ, String, Bool, Option, List, [], ◌∷◌, ◌++◌, ◌≡◌, ◌⊎◌, inl, inr}
use authust.Prelude.Res.{Res, ok, err, ◌>>=◌}

abbrev pub Bytes : Type 0
Bytes = List ℕ

pub data ExpressionCompilationError (ParseError : Type 0) : Type 0 where
  invalid_base64 : ExpressionCompilationError ParseError
  parse : ParseError → ExpressionCompilationError ParseError

-- `as_bytes` is `str::as_bytes`; a scope is what names a script may use.
pub record Engine (AST ParseError Scope : Type 0) : Type 0 where
  pub encode : Bytes → String
  pub decode : String → Option Bytes
  pub as_bytes : String → Bytes
  pub from_utf8_lossy : Bytes → String
  pub from_utf8 : Bytes → Option String
  pub compile_with_scope : Scope → String → ParseError ⊎ AST

module _ {AST ParseError Scope : Type 0} (engine : Engine AST ParseError Scope) where
  abbrev pub Compiled : Type 0 → Type 0
  Compiled = Res (ExpressionCompilationError ParseError)

  unfoldable pub encode_base64 : String → String
  encode_base64 txt = engine.encode (engine.as_bytes txt)

  -- `From<base64::DecodeError>` and `From<ParseError>`, under `?`.
  abbrev pub decoded : Option Bytes → Compiled Bytes
  decoded (Option.some bytes) = ok bytes
  decoded Option.none = err invalid_base64

  abbrev pub parsed : ParseError ⊎ AST → Compiled AST
  parsed (inr ast) = ok ast
  parsed (inl e) = err (parse e)

  unfoldable pub compile : String → Scope → Compiled AST
  compile expression scope = do
    bytes ← decoded (engine.decode expression)
    parsed (engine.compile_with_scope scope (engine.from_utf8_lossy bytes))

  -- Where base64 and UTF-8 decode what they encode, a text that is encoded compiles as the script
  -- itself does.
  pub compile-encode_base64 :
      (txt : String) (scope : Scope)
      → ((bytes : Bytes) → engine.decode (engine.encode bytes) ≡ Option.some bytes)
      → ((s : String) → engine.from_utf8_lossy (engine.as_bytes s) ≡ s)
      → compile (encode_base64 txt) scope ≡ parsed (engine.compile_with_scope scope txt)
  unfolding compile encode_base64
  compile-encode_base64 txt scope base64 utf8 = rw (base64 (engine.as_bytes txt), utf8 txt)

-- rhai's position of a `debug` call.
pub record RhaiDebugEntry : Type 0 where
  pub text : String
  pub source : Option String
  pub position : ℕ × ℕ

pub data LogEntry : Type 0 where
  text : String → LogEntry
  debug : RhaiDebugEntry → LogEntry

pub record ExecutionResult (EvalError : Type 0) : Type 0 where
  pub output : List LogEntry
  pub result : Res EvalError Bool

-- What a run of a script does to its callbacks, in order: the calls of `print` and of `debug`.
pub data Call : Type 0 where
  print : String → Call
  debug : String → Option String → ℕ × ℕ → Call

-- The callbacks of `on_print` and `on_debug`.
abbrev pub log_entry : Call → LogEntry
log_entry (print txt) = LogEntry.text txt
log_entry (Call.debug txt source position) =
    LogEntry.debug (record { text = txt; source = source; position = position })

abbrev pub push_all : List LogEntry → List Call → List LogEntry
push_all out [] = out
push_all out (c ∷ cs) = push_all (out ++ (log_entry c ∷ [])) cs

-- `execute`; `eval_ast_with_scope` gives the calls of the run and its result.
unfoldable pub execute :
    {AST Scope EvalError : Type 0}
    → (AST → Scope → List Call × Res EvalError Bool)
    → AST
    → Scope
    → ExecutionResult EvalError
execute eval_ast_with_scope ast scope =
    let (calls, result) = eval_ast_with_scope ast scope in
    record { output = push_all [] calls; result = result }
