-- ===== src/Tasks/Executor/Budget.antt =====
-- The retry budget of a task whose runner always fails in a way that may be tried again.
use comet_rag.Prelude.{
  ℕ, zero, suc, ◌+◌, ◌≤◌, String, ◌≡◌, ap, ◌∙◌, true, some, arith, ltb, if◌then◌else◌, ◌&&◌,
}
use comet_rag.Dict.{lookup}
use comet_rag.Tasks.Status.{pending, failed}
use comet_rag.Tasks.Error.{Error}
use comet_rag.Tasks.Models.{Task}
use comet_rag.Tasks.Effect.{Db, World, ok, err}
use comet_rag.Tasks.Effect.Runs.{quiet}
use comet_rag.Tasks.Runner.{TaskContext, Runner, Registry, get_runner}
use comet_rag.Tasks.Executor.{execute}
use comet_rag.Tasks.Endings.{Executor, to_task_error}
use comet_rag.Tasks.Executor.Moves.{Schedules}
use comet_rag.Tasks.Executor.Failure.{is_failure, execute-fails}

-- The task is executed so many times, one after the other.
unfoldable pub runs : ℕ → Executor → Registry → String → World → World
runs zero ex registry id w = w
runs (suc n) ex registry id w = runs n ex registry id (execute ex registry id w).1

-- Nobody interrupts, the registered runner leaves the store alone and always raises the same
-- exception, one that may be tried again (a `RetriableError` or a time-out). Then after any number
-- of runs from one up to what is left of the budget, the task has one more attempt for each run,
-- and it is PENDING while attempts are left and FAILED once they are used up.
pub runs_budget :
    (n : ℕ) (ex : Executor) (id : String) (d : Db) (t : Task) (registry : Registry)
    (runner : Runner) (e : Error)
    → lookup id d.tasks ≡ some t
    → t.task_id ≡ id
    → t.status ≡ pending
    → Schedules ex
    → get_runner t.kind registry ≡ ok runner
    → ((ctx : TaskContext) (w : World) → runner ctx w ≡ (err e, w))
    → is_failure e ≡ true
    → ((at : ℕ) → (to_task_error e at).retriable ≡ true)
    → t.attempts + suc n ≤ t.max_attempts
    → (u : Task) × (lookup id (runs (suc n) ex registry id (quiet d)).db.tasks ≡ some u)
      × (u.attempts ≡ t.attempts + suc n)
      × (u.status ≡ (if ltb (t.attempts + suc n) t.max_attempts then pending else failed))
unfolding runs
runs_budget zero ex id d t registry runner e found filed waits schedules known raises plain again
      room =
    let (v, u, ran, at, status, attempts, error, stage, rest) =
      execute-fails ex id d t registry runner e found filed waits schedules known raises plain in
    (u, ap (λ r. lookup id r.1.db.tasks) ran ∙ at, attempts, rw (again d.clock) at status)
runs_budget (suc n) ex id d t registry runner e found filed waits schedules known raises plain again
      room =
    let (v, u, ran, at, status, attempts, error, stage, rest) =
      execute-fails ex id d t registry runner e found filed waits schedules known raises plain in
    let more : ((to_task_error e d.clock).retriable && ltb (t.attempts + 1) t.max_attempts) ≡ true =
      ground (arith, again d.clock) in
    let (most, kind, task_id) = rest more in
    let (u', at', attempts', status') =
      runs_budget n ex id v u registry runner e at task_id (rw more at status) schedules
        (rw kind known) raises plain again (omega (arith, most, attempts)) in
    (
      u',
      ap (λ r. lookup id (runs (suc n) ex registry id r.1).db.tasks) ran ∙ at',
      omega (arith, attempts, attempts'),
      ground (arith, attempts, most, status'),
    )
