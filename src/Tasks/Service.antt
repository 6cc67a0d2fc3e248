-- ===== src/Tasks/Service.antt =====
-- `TaskService` of comet_rag/tasks/service.py over a store and an executor. The executor's `submit`
-- and `request_cancel` are what `TaskExecutor` asks of a subclass.
pub mod Admission
pub mod Idempotent
pub mod Retry
use comet_rag.Prelude.{
  ℕ, zero, suc, String, Bool, true, false, ◌&&◌, ◌||◌, Option, none, some, List, [], ◌∷◌, ◌++◌, ltb,
  leb, eqb, if◌then◌else◌, length,
}
use comet_rag.Tasks.Status.{
  TaskStatus, pending, running, cancelling, succeeded, failed, cancelled, same, value,
}
use comet_rag.Tasks.Value.{Value}
use comet_rag.Tasks.Error.{Error, value_error, backlogged}
use comet_rag.Tasks.Models.{Task, text}
use comet_rag.Tasks.Models.Fields
use comet_rag.Tasks.Models.Fields.{Field}
use comet_rag.Tasks.Effect.{M, pure, raise, attempt, ◌>>=◌, ◌>>◌}
use comet_rag.Tasks.Memory.{load}
use comet_rag.Tasks.Cas.{require}
use comet_rag.Tasks.Store

pub record TaskExecutor : Type 0 where
  pub submit : String → M (Unit {0})
  pub request_cancel : String → M Bool

-- `_ALREADY_HANDLED`
unfoldable pub already_handled : TaskStatus → Bool
already_handled running = true
already_handled cancelling = true
already_handled cancelled = true
already_handled succeeded = true
already_handled failed = true
already_handled pending = false

abbrev pub refuse_over : ℕ → List Task → M (Unit {0})
refuse_over cap tasks = if leb cap (length tasks) then raise (backlogged cap) else pure tt

-- `_check_backlog`
unfoldable pub check_backlog : ℕ → M (Unit {0})
check_backlog cap =
    if eqb cap 0
    then pure tt
    else (Store.list_tasks none (some pending) none cap 0 >>= refuse_over cap)

pub record Backlog : Type 0 where
  pub pending : ℕ
  pub at_least : Bool
  pub max_backlog : Option ℕ

-- `backlog`
unfoldable pub backlog : ℕ → M Backlog
backlog max_backlog =
    let cap = if eqb max_backlog 0 then 1000 else max_backlog in
    Store.list_tasks none (some pending) none cap 0 >>= λ tasks. pure (record {
      pending = length tasks;
      at_least = leb cap (length tasks);
      max_backlog = if eqb max_backlog 0 then none else some max_backlog;
    })

abbrev handled : Option Task → Bool
handled none = false
handled (some task) = already_handled task.status

abbrev passed_over : String → Error → M (Unit {0})
passed_over task_id (value_error m) =
    load task_id >>= λ current. if handled current then pure tt else raise (value_error m)
passed_over task_id e = raise e

-- `_enqueue`
unfoldable pub enqueue : TaskExecutor → String → M (Unit {0})
unfolding already_handled
enqueue ex task_id = attempt (ex.submit task_id) pure (passed_over task_id)

abbrev enqueue_new : TaskExecutor → Task → M (Unit {0})
enqueue_new ex task =
    if same task.status pending && eqb task.attempts 0 then enqueue ex task.task_id else pure tt

-- `submit`. `task_id` is what `new_task_id()` gives.
unfoldable pub submit :
    TaskExecutor
    → ℕ
    → String
    → String
    → Value
    → Option String
    → Option String
    → ℕ
    → List Field
    → M Task
unfolding check_backlog enqueue
submit ex max_backlog task_id kind request owner_id idempotency_key max_attempts fields = do
  check_backlog max_backlog
  task ← Store.create task_id kind request owner_id idempotency_key max_attempts fields
  enqueue_new ex task
  require task.task_id

-- `cancel`
unfoldable pub cancel : TaskExecutor → String → M Bool
cancel ex task_id = ex.request_cancel task_id

abbrev pub retry_fields : Bool → Bool → List Field
retry_fields reset_attempts from_scratch =
    Fields.error none
    ∷ Fields.message (text "已重新排队")
    ∷ ((if reset_attempts then Fields.attempts 0 ∷ [] else [])
        ++ (if from_scratch then Fields.resume_stage none ∷ [] else []))

unfoldable pub retry_found : TaskExecutor → String → Bool → Bool → Task → M Task
retry_found ex task_id reset_attempts from_scratch task =
    if same task.status failed
    then (Store.transition task_id pending none (some (text "人工重试"))
          (retry_fields reset_attempts from_scratch)
        >> (ex.submit task_id >> require task_id))
    else raise (value_error (value task.status))

-- `retry`
unfoldable pub retry : TaskExecutor → String → Bool → Bool → M Task
unfolding retry_found
retry ex task_id reset_attempts from_scratch =
    require task_id >>= retry_found ex task_id reset_attempts from_scratch

-- `delete`
unfoldable pub delete : TaskExecutor → String → Bool → M Bool
delete ex task_id force =
    if force
    then (ex.request_cancel task_id >> Store.delete task_id true)
    else Store.delete task_id false
