-- ===== src/Tasks/Executor/Failure.antt =====
-- How one run of `execute` ends when nobody interrupts it: by a failure that
-- is tried again, or one for good. The runner leaves the store alone, and the executor's
-- ways to queue a task again return.
use comet_rag.Prelude.{
  Bool-cases, inl, inr, ℕ, ◌+◌, String, ◌≡◌, refl, sym, ap, ◌∙◌, Bool, true, false, none, some, ltb,
  if◌then◌else◌, ◌&&◌,
}
use comet_rag.Dict.{lookup}
use comet_rag.Tasks.Status.{pending, failed}
use comet_rag.Tasks.States.{can_transition}
use comet_rag.Tasks.Error.{
  Error, task_not_found, version_conflict, task_busy, invalid_transition, value_error, type_error,
  runtime_error, unknown_kind, backlogged, task_cancelled, retriable_error, timeout_error,
  cancelled_error, raised,
}
use comet_rag.Tasks.Models.{Task, TaskError, text}
use comet_rag.Tasks.Models.Fields.{setattr}
use comet_rag.Tasks.Effect.{Db, World, ok, err, pure, now}
use comet_rag.Tasks.Effect.Runs.{quiet, bind_returns, now_lem}
use comet_rag.Tasks.Cas.{check_fields, anchor_if_missing, close_stage}
use comet_rag.Tasks.Store.{transition, moved, settle}
use comet_rag.Tasks.Store.Quiet.{logged-lookup, entering-id, entering, logged}
use comet_rag.Tasks.Runner.{TaskContext, Runner, Registry, get_runner}
use comet_rag.Tasks.Executor.{execute}
use comet_rag.Tasks.Endings.{
  Executor, still_mine, fail_owned, retry_fields, dead_fields, retry_delay, may_retry, mark_failed,
  to_task_error, on_error,
}
use comet_rag.Tasks.Executor.Quiet.{
  mine-quiet, run-raises, execute-claims, branch_true, branch_false,
}
use comet_rag.Tasks.Executor.Moves.{Schedules, taken, taken_db, move-quiet}

true_and_false : {b : Bool} → b ≡ true → b ≡ false → ⊥
true_and_false p q = cc

module _ (ex : Executor) (id : String) (d : Db) (t : Task) (found : lookup id d.tasks ≡ some t)
    (filed : t.task_id ≡ id) (waits : t.status ≡ pending) (schedules : Schedules ex) where
  abbrev own : Task
  own = taken ex id d t found filed waits schedules

  abbrev own_db : Db
  own_db = taken_db ex id d t found filed waits schedules

  -- The record of the failure, and what the task becomes by it.
  abbrev failure : Error → TaskError
  failure e = to_task_error e d.clock

  abbrev delay : ℕ
  delay = retry_delay ex own.attempts

  requeued : TaskError → Task
  requeued e = entering (retry_fields e own delay) pending d.clock own

  dead : TaskError → Task
  dead e = entering (dead_fields e own) failed d.clock own

  retry-quiet :
      (e : TaskError)
      → may_retry e own ≡ true
      → fail_owned ex id e (some own) (quiet own_db)
        ≡ (ok tt, quiet (logged id pending (some (text "可重试失败，重排队")) own (requeued e) own_db))
  unfolding fail_owned requeued check_fields can_transition moved setattr settle
  retry-quiet e again =
      branch_true _ _ (quiet own_db) again
      ∙ bind_returns
          (transition id pending none (some (text "可重试失败，重排队")) (retry_fields e own delay)) _
          (quiet own_db) _ _
          (move-quiet ex id d t found filed waits schedules pending _ (retry_fields e own delay)
            refl refl)
      ∙ schedules.retries id delay _

  dead-quiet :
      (e : TaskError)
      → may_retry e own ≡ false
      → fail_owned ex id e (some own) (quiet own_db)
        ≡ (ok tt, quiet (logged id failed none own (dead e) own_db))
  unfolding fail_owned dead check_fields can_transition moved setattr settle pure
  dead-quiet e over =
      branch_false _ _ (quiet own_db) over
      ∙ bind_returns (transition id failed none none (dead_fields e own)) _ (quiet own_db) _ _ (
          move-quiet ex id d t found filed waits schedules failed none (dead_fields e own) refl
            refl)

  requeued-lookup :
      (e : TaskError)
      → lookup id (logged id pending (some (text "可重试失败，重排队")) own (requeued e) own_db).tasks
        ≡ some (requeued e)
  unfolding requeued check_fields moved setattr settle
  requeued-lookup e =
      logged-lookup id pending (some (text "可重试失败，重排队")) own (requeued e) own_db
        (entering-id (retry_fields e own delay) pending d.clock own refl ∙ filed)

  dead-lookup :
      (e : TaskError) → lookup id (logged id failed none own (dead e) own_db).tasks ≡ some (dead e)
  unfolding dead check_fields moved setattr settle
  dead-lookup e =
      logged-lookup id failed none own (dead e) own_db
        (entering-id (dead_fields e own) failed d.clock own refl ∙ filed)

  requeued_fields :
      (e : TaskError)
      → ((requeued e).attempts ≡ t.attempts + 1)
        × ((requeued e).status ≡ pending)
        × ((requeued e).error ≡ some e)
        × ((requeued e).resume_stage ≡ t.stage)
        × ((requeued e).max_attempts ≡ t.max_attempts)
        × ((requeued e).kind ≡ t.kind)
        × ((requeued e).task_id ≡ id)
  unfolding requeued moved settle setattr anchor_if_missing close_stage
  requeued_fields e = (refl, refl, refl, refl, refl, refl, filed)

  dead_task_fields :
      (e : TaskError)
      → ((dead e).attempts ≡ t.attempts + 1)
        × ((dead e).status ≡ failed)
        × ((dead e).error ≡ some e)
        × ((dead e).resume_stage ≡ t.stage)
  unfolding dead moved settle setattr anchor_if_missing close_stage
  dead_task_fields e = (refl, refl, refl, refl)

  fail-quiet :
      (e : TaskError)
      → (v : Db) × (u : Task) × (fail_owned ex id e (some own) (quiet own_db) ≡ (ok tt, quiet v))
        × (lookup id v.tasks ≡ some u)
        × (u.status ≡ (if may_retry e own then pending else failed))
        × (u.attempts ≡ t.attempts + 1)
        × (u.error ≡ some e)
        × (u.resume_stage ≡ t.stage)
        × ((may_retry e own ≡ true)
            → (u.max_attempts ≡ t.max_attempts) × (u.kind ≡ t.kind) × (u.task_id ≡ id))
  fail-quiet e = elim (Bool-cases (may_retry e own)) [
    | inl again ↦
        let f = requeued_fields e in
        (
          (logged id pending (some (text "可重试失败，重排队")) own (requeued e) own_db),
          requeued e,
          retry-quiet e again,
          requeued-lookup e,
          f.1 ∙ ap (λ b. if b then pending else failed) (sym again),
          f.0,
          f.2,
          f.3,
          λ _. (f.4, f.5, f.6),
        )
    | inr over ↦
        let f = dead_task_fields e in
        (
          (logged id failed none own (dead e) own_db),
          dead e,
          dead-quiet e over,
          dead-lookup e,
          f.1 ∙ ap (λ b. if b then pending else failed) (sym over),
          f.0,
          f.2,
          f.3,
          λ again. absurd (true_and_false again over),
        )
  ]

  own_budget :
      (e : TaskError) → may_retry e own ≡ (e.retriable && ltb (t.attempts + 1) t.max_attempts)
  unfolding may_retry moved settle setattr
  own_budget e = refl

-- The exceptions that `execute` treats as failures: all but the two of a cancellation.
abbrev pub is_failure : Error → Bool
is_failure cancelled_error = false
is_failure (task_cancelled i) = false
is_failure e = true

on_error-failure :
    (ex : Executor) (id : String) (e : Error)
    → is_failure e ≡ true
    → on_error ex true id e ≡ mark_failed ex true id e
unfolding on_error
on_error-failure ex id cancelled_error h = cc
on_error-failure ex id (task_cancelled i) h = cc
on_error-failure ex id (task_not_found i) h = refl
on_error-failure ex id (version_conflict v x) h = refl
on_error-failure ex id (task_busy i s) h = refl
on_error-failure ex id (invalid_transition a b) h = refl
on_error-failure ex id (value_error m) h = refl
on_error-failure ex id (type_error m) h = refl
on_error-failure ex id (runtime_error m) h = refl
on_error-failure ex id (unknown_kind m) h = refl
on_error-failure ex id (backlogged n) h = refl
on_error-failure ex id (retriable_error m c) h = refl
on_error-failure ex id timeout_error h = refl
on_error-failure ex id (raised n m) h = refl

-- One run with a runner that raises `e`.
pub execute-fails :
    (ex : Executor) (id : String) (d : Db) (t : Task) (registry : Registry) (runner : Runner)
    (e : Error)
    → lookup id d.tasks ≡ some t
    → t.task_id ≡ id
    → t.status ≡ pending
    → Schedules ex
    → get_runner t.kind registry ≡ ok runner
    → ((ctx : TaskContext) (w : World) → runner ctx w ≡ (err e, w))
    → is_failure e ≡ true
    → (v : Db) × (u : Task) × (execute ex registry id (quiet d) ≡ (ok tt, quiet v))
      × (lookup id v.tasks ≡ some u)
      × (u.status ≡ (
          if (to_task_error e d.clock).retriable && ltb (t.attempts + 1) t.max_attempts
          then pending
          else failed))
      × (u.attempts ≡ t.attempts + 1)
      × (u.error ≡ some (to_task_error e d.clock))
      × (u.resume_stage ≡ t.stage)
      × (((to_task_error e d.clock).retriable && ltb (t.attempts + 1) t.max_attempts ≡ true)
          → (u.max_attempts ≡ t.max_attempts) × (u.kind ≡ t.kind) × (u.task_id ≡ id))
unfolding mark_failed
execute-fails ex id d t registry runner e found filed waits schedules known raises plain =
    let x = to_task_error e d.clock in
    let own' : Task = taken ex id d t found filed waits schedules in
    let own_db' : Db = taken_db ex id d t found filed waits schedules in
    let (v, u, ran, at, status, attempts, error, stage, rest) =
      fail-quiet ex id d t found filed waits schedules x in
    let b = own_budget ex id d t found filed waits schedules x in
    (
      v,
      u,
      execute-claims ex id d t found filed waits registry runner known
          ∙ run-raises ex id d t found filed waits runner (err e) (raises _ _) e refl
          ∙ ap (λ m. m (quiet own_db')) (on_error-failure ex id e plain)
          ∙ bind_returns now _ (quiet own_db') (quiet own_db') d.clock (now_lem _)
          ∙ bind_returns (still_mine ex true id) (fail_owned ex id x) (quiet own_db')
              (quiet own_db') (some own')
              (mine-quiet ex id d t found filed waits runner (err e) (raises _ _))
          ∙ ran,
      at,
      rw b at status,
      attempts,
      error,
      stage,
      λ again. rest (b ∙ again),
    )
