-- ===== src/Executor/Logs.antt =====
-- server/src/executor/flow.rs: what the log of a script is reported as, and the message of a negated check.
use authust.Prelude.{String, Bool, List, [], ◌∷◌, if◌then◌else◌}
use Prim.Native.String.{◌++◌}
use authust.Model.Query.{PolicyQuery}
use authust.PolicyEngine.Script.{LogEntry}
use authust.Executor.Checks.{FlowCheck, authentication, is_user, policy, message}

-- The levels of tracing that the code uses.
pub data Level : Type 0 where
  warn debug : Level

-- An event of tracing: its level, its message, and the entry whose position and source are fields of it.
pub record Event : Type 0 where
  pub level : Level
  pub policy : PolicyQuery
  pub text : String
  pub entry : LogEntry

abbrev pub level_of : (has_error : Bool) → Level
level_of has_error = if has_error then warn else debug

abbrev pub entry_text : LogEntry → String
entry_text (LogEntry.text text) = "INFO: " ++ text
entry_text (LogEntry.debug entry) = "DEBUG: " ++ entry.text

-- `dispatch_expression_log_entries`: the events, in order.
unfoldable pub dispatch_expression_log_entries :
    PolicyQuery → List LogEntry → (has_error : Bool) → List Event
dispatch_expression_log_entries p [] has_error = []
dispatch_expression_log_entries p (entry ∷ entries) has_error =
    record { level = level_of has_error; policy = p; text = entry_text entry; entry = entry }
    ∷ dispatch_expression_log_entries p entries has_error

-- `FlowCheck::negated_message`.
unfoldable pub negated_message : FlowCheck → String
unfolding message
negated_message (authentication requirement) = message (authentication requirement)
negated_message (is_user uid) = message (is_user uid)
negated_message (policy q) = message (policy q)
