-- ===== src/Storage/DummyExecutor.antt =====
-- storage/src/lib.rs: `DummyExecutor`, the executor of a frozen storage: every call panics.
use authust.Prelude.{Option, List}
use authust.Prelude.Res.{Res, panic}

unfoldable pub get_id : {D I : Type 0} → D → Res ⊥ I
get_id _ = panic

unfoldable pub find_one : {Q D : Type 0} → Q → Res ⊥ D
find_one _ = panic

unfoldable pub find_all_ids : {Q I : Type 0} → Option Q → Res ⊥ (List I)
find_all_ids _ = panic

unfoldable pub find_optional : {Q D : Type 0} → Q → Res ⊥ (Option D)
find_optional _ = panic

unfoldable pub delete : {Q I : Type 0} → Q → Res ⊥ (List I)
delete _ = panic
