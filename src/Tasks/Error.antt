-- ===== src/Tasks/Error.antt =====
-- The exceptions of comet_rag/tasks: of store.py, states.py, runner.py and service.py, with the
-- built-in ones that they raise. `raised` is any other exception, by its type's name and its text.
use comet_rag.Prelude.{ℕ, String}
use comet_rag.Tasks.Status.{TaskStatus}

pub data Error : Type 0 where
  task_not_found : String → Error
  version_conflict : ℕ → ℕ → Error
  task_busy : String → TaskStatus → Error
  invalid_transition : TaskStatus → TaskStatus → Error
  value_error : String → Error
  type_error : String → Error
  runtime_error : String → Error
  unknown_kind : String → Error
  backlogged : ℕ → Error
  task_cancelled : String → Error
  retriable_error : String → String → Error
  timeout_error : Error
  cancelled_error : Error
  raised : String → String → Error

-- `type(exc).__name__`
unfoldable pub type_name : Error → String
type_name (task_not_found id) = "TaskNotFound"
type_name (version_conflict v e) = "VersionConflict"
type_name (task_busy id s) = "TaskBusy"
type_name (invalid_transition a b) = "InvalidTransition"
type_name (value_error m) = "ValueError"
type_name (type_error m) = "TypeError"
type_name (runtime_error m) = "RuntimeError"
type_name (unknown_kind k) = "UnknownKind"
type_name (backlogged n) = "Backlogged"
type_name (task_cancelled id) = "TaskCancelled"
type_name (retriable_error m c) = "RetriableError"
type_name timeout_error = "TimeoutError"
type_name cancelled_error = "CancelledError"
type_name (raised n m) = n
