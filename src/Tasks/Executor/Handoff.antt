-- ===== src/Tasks/Executor/Handoff.antt =====
-- How one run of `execute` ends when nobody interrupts it: by a hand-off of `_hand_off`.
use comet_rag.Prelude.{◌+◌, String, ◌≡◌, refl, ap, ◌∙◌, true, none, some, arith}
use comet_rag.Dict.{lookup}
use comet_rag.Tasks.Status.{pending}
use comet_rag.Tasks.States.{can_transition}
use comet_rag.Tasks.Models.{Task, Message, handoff_note}
use comet_rag.Tasks.Models.Fields.{setattr}
use comet_rag.Tasks.Effect.{Db, ok}
use comet_rag.Tasks.Effect.Runs.{quiet, bind_returns}
use comet_rag.Tasks.Cas.{check_fields, anchor_if_missing, close_stage}
use comet_rag.Tasks.Store.{transition, moved, settle}
use comet_rag.Tasks.Store.Quiet.{logged-lookup, entering-id, entering, logged}
use comet_rag.Tasks.Runner.{handoff, Runner, Registry, get_runner}
use comet_rag.Tasks.Executor.{context_of, execute}
use comet_rag.Tasks.Endings.{Executor, still_mine, hand_off, hand_off_owned, handoff_fields, finish}
use comet_rag.Tasks.Executor.Quiet.{mine-quiet, run-returns, execute-claims}
use comet_rag.Tasks.Executor.Moves.{Schedules, taken, taken_db, move-quiet}

module _ (ex : Executor) (id : String) (d : Db) (t : Task) (found : lookup id d.tasks ≡ some t)
    (filed : t.task_id ≡ id) (waits : t.status ≡ pending) (schedules : Schedules ex) where
  abbrev own : Task
  own = taken ex id d t found filed waits schedules

  abbrev own_db : Db
  own_db = taken_db ex id d t found filed waits schedules

  handed : String → Message → Task
  handed stage m = entering (handoff_fields own stage m) pending d.clock own

  handoff-quiet :
      (lane stage : String) (m : Message)
      → hand_off_owned ex id lane stage m (some own) (quiet own_db) ≡ (
        ok tt,
        quiet (logged id pending (some (handoff_note ex.lane lane)) own (handed stage m) own_db),
      )
  unfolding hand_off_owned handed check_fields can_transition moved setattr settle
  handoff-quiet lane stage m =
      bind_returns
        (transition id pending none (some (handoff_note ex.lane lane)) (handoff_fields own stage m))
        _ (quiet own_db) _ _
        (move-quiet ex id d t found filed waits schedules pending _ (handoff_fields own stage m)
          refl refl)
      ∙ schedules.handoffs id lane _

  handed-lookup :
      (lane stage : String) (m : Message)
      → lookup id
          (logged id pending (some (handoff_note ex.lane lane)) own (handed stage m) own_db).tasks
        ≡ some (handed stage m)
  unfolding handed check_fields moved setattr settle
  handed-lookup lane stage m =
      logged-lookup id pending (some (handoff_note ex.lane lane)) own (handed stage m) own_db
        (entering-id (handoff_fields own stage m) pending d.clock own refl ∙ filed)

  handed_fields :
      (stage : String) (m : Message)
      → ((handed stage m).attempts ≡ t.attempts)
        × ((handed stage m).status ≡ pending)
        × ((handed stage m).resume_stage ≡ some stage)
        × ((handed stage m).worker_id ≡ none)
        × ((handed stage m).version ≡ t.version + 2)
  unfolding handed moved settle setattr anchor_if_missing close_stage
  handed_fields stage m = (omega arith, refl, refl, refl, omega arith)

  module _ (registry : Registry) (runner : Runner)
      (known : get_runner t.kind registry ≡ ok runner) where
    -- A hand-off costs no attempt. Nobody else is at work, the record of the task stands under its
    -- own id and is PENDING, the executor's ways to queue a task return and leave the store alone,
    -- and the runner registered for its kind leaves the store alone as well and returns a hand-off,
    -- when it runs after the claim. Then the run of `execute` returns, and the task is PENDING, has
    -- as many attempts as before the run, the stage of the hand-off to go on from, no worker, and a
    -- version two up.
    pub execute-handoff :
        (lane stage : String) (m : Message)
        → runner (context_of ex id d.clock) (quiet own_db)
          ≡ (ok (handoff lane stage m), quiet own_db)
        → ((execute ex registry id (quiet d)).0 ≡ ok tt)
          × ((u : Task) × (lookup id (execute ex registry id (quiet d)).1.db.tasks ≡ some u)
              × (u.attempts ≡ t.attempts)
              × (u.status ≡ pending)
              × (u.resume_stage ≡ some stage)
              × (u.worker_id ≡ none)
              × (u.version ≡ t.version + 2))
    unfolding finish hand_off
    execute-handoff lane stage m idle =
        let ran =
          execute-claims ex id d t found filed waits registry runner known
          ∙ run-returns ex id d t found filed waits runner _ idle (handoff lane stage m) _ refl (
              bind_returns (still_mine ex true id) _ (quiet own_db) (quiet own_db) (some own)
                (mine-quiet ex id d t found filed waits runner _ idle)
              ∙ handoff-quiet lane stage m) in
        let f = handed_fields stage m in
        (
          ap (λ r. r.0) ran,
          (
            handed stage m,
            ap (λ r. lookup id r.1.db.tasks) ran ∙ handed-lookup lane stage m,
            f.0,
            f.1,
            f.2,
            f.3,
            f.4,
          ),
        )
