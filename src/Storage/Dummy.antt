-- ===== src/Storage/Dummy.antt =====
-- storage/src/lib.rs: what a frozen storage does not support: every call panics.
use authust.Prelude.{Option, List}
use authust.Prelude.Res.{Res, panic}

-- `DummyStorage`: `find_all`, `delete`, `invalidate` and `get_executor`.
unfoldable pub frozen_all : {Q D : Type 0} → Option Q → Res ⊥ (List D)
frozen_all _ = panic

unfoldable pub frozen_delete : {Q : Type 0} → Q → Res ⊥ (Unit {0})
frozen_delete _ = panic

unfoldable pub frozen_invalidate : {Q : Type 0} → Q → Res ⊥ (Unit {0})
frozen_invalidate _ = panic

unfoldable pub get_executor : {X : Type 0} → Res ⊥ X
get_executor = panic
