-- ===== src/Tasks/Executor.antt =====
-- `StoreDrivenExecutor` of comet_rag/tasks/executor.py: one task from PENDING to an end, and the
-- cancel requests. A time limit on the runner shows as a runner that raises `timeout_error`. What
-- `_detach` starts runs at once, as one of the orders that the event loop may choose; its
-- exceptions are dropped. How a run ends is in Tasks/Endings.
pub mod Legal
pub mod Claim
pub mod Quiet
pub mod Moves
pub mod Handoff
pub mod Failure
pub mod Budget
use comet_rag.Prelude.{
  ℕ, zero, suc, ◌+◌, ◌-◌, ◌*◌, ◌/◌, ◌^◌, String, Bool, true, false, ◌&&◌, not, Option, none, some,
  List, [], ◌∷◌, ltb, eqb, if◌then◌else◌, ◌==◌,
}
use comet_rag.Tasks.Status.{
  TaskStatus, pending, running, cancelling, succeeded, failed, cancelled, same, is_terminal,
}
use comet_rag.Tasks.Value.{Value}
use comet_rag.Tasks.Error.{
  Error, version_conflict, task_cancelled, retriable_error, timeout_error, cancelled_error, raised,
  type_name,
}
use comet_rag.Tasks.Models.{Task, TaskError, Message, text, text_of, retry_note, handoff_note}
use comet_rag.Tasks.Models.Fields
use comet_rag.Tasks.Models.Fields.{Field}
use comet_rag.Tasks.Effect.{World, Result, ok, err, M, pure, raise, lift, now, attempt, ◌>>=◌, ◌>>◌}
use comet_rag.Tasks.Memory.{load, is_text}
use comet_rag.Tasks.Store.{transition}
use comet_rag.Tasks.Endings.{Executor, cancelled_by, finish, on_error}
use comet_rag.Tasks.Runner.{Outcome, done, handoff, TaskContext, Runner, Registry, get_runner}

abbrev pub unless_conflict : Error → M Bool
unless_conflict (version_conflict v e) = pure false
unless_conflict e = raise e

abbrev pub claim_fields : Executor → Task → List Field
claim_fields ex task =
    Fields.attempts (task.attempts + 1)
    ∷ Fields.worker_id (some ex.worker_id)
    ∷ Fields.error none
    ∷ Fields.message (text "执行中")
    ∷ []

-- The claim: true if this worker has the task now, false if another was first.
unfoldable pub claim : Executor → Task → String → M Bool
claim ex task task_id =
    attempt (transition task_id running (some task.version) none (claim_fields ex task))
      (λ _. pure true) unless_conflict

abbrev pub context_of : Executor → String → ℕ → TaskContext
context_of ex task_id at = record {
  task_id = task_id;
  worker_id = some ex.worker_id;
  lane = ex.lane;
  hb_interval = 10;
  last_beat = at;
}

unfoldable pub run_claimed : Executor → String → Runner → M (Unit {0})
unfolding on_error finish
run_claimed ex task_id runner =
    attempt (now >>= λ at. runner (context_of ex task_id at) >>= finish ex task_id) pure
      (on_error ex true task_id)

-- What is done before the claim holds: the runner that was found, if the claim succeeded.
unfoldable pub take_up : Executor → Registry → String → Task → M (Option Runner)
unfolding get_runner claim
take_up ex registry task_id task = lift (get_runner task.kind registry) >>= λ runner.
    claim ex task task_id >>= λ mine. pure (if mine then some runner else none)

abbrev pub go_on : Executor → String → Option Runner → M (Unit {0})
go_on ex task_id none = pure tt
go_on ex task_id (some runner) = run_claimed ex task_id runner

unfoldable pub execute_found : Executor → Registry → String → Option Task → M (Unit {0})
unfolding take_up run_claimed on_error
execute_found ex registry task_id none = pure tt
execute_found ex registry task_id (some task) =
    if same task.status pending
    then attempt (take_up ex registry task_id task) (go_on ex task_id) (on_error ex false task_id)
    else pure tt

-- `execute`
unfoldable pub execute : Executor → Registry → String → M (Unit {0})
unfolding execute_found
execute ex registry task_id = load task_id >>= execute_found ex registry task_id

unfoldable pub accept_found : String → Option Task → M Bool
unfolding is_terminal
accept_found task_id none = pure false
accept_found task_id (some task) =
    if is_terminal task.status
    then pure false
    else if same task.status running
    then (transition task_id cancelling none none (Fields.message (text "正在取消…") ∷ []) >> pure true)
    else if same task.status cancelling
    then pure true
    else (now >>= λ at.
        transition task_id cancelled none none
          (Fields.error (some (cancelled_by "任务被主动取消" at)) ∷ Fields.message (text "已取消") ∷ [])
        >> pure true)

-- `_accept_cancel`, which is `request_cancel`
unfoldable pub accept_cancel : String → M Bool
unfolding accept_found
accept_cancel task_id = load task_id >>= accept_found task_id
