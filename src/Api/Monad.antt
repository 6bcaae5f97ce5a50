-- ===== src/Api/Monad.antt =====
-- Handlers: steps whose errors are the API's.
use authust.Prelude.Res.{Res, ok, err, panic}
use authust.Prelude.State.{Step}
use authust.Api.Error.{ApiErrorKind, Api}
pub use authust.Prelude.State.{continue, ◌>>=◌, ◌>>◌, lift, pure, fail}

abbrev pub M : Type 0 → Type 0 → Type 0
M S A = Step ApiErrorKind S A

-- `?` on a foreign error, through its `From`.
abbrev pub convert : {E A : Type 0} → (E → ApiErrorKind) → Res E A → Api A
convert from (ok a) = ok a
convert from (err e) = err (from e)
convert from panic = panic
