-- ===== src/Tasks/Executor/Moves.antt =====
-- The task that a worker has claimed, and its next change of status, when nobody interrupts.
use comet_rag.Prelude.{ℕ, String, ◌≡◌, refl, true, Option, none, some, List}
use comet_rag.Dict.{lookup}
use comet_rag.Tasks.Status.{TaskStatus, pending, running}
use comet_rag.Tasks.States.{can_transition}
use comet_rag.Tasks.Models.{Task, Message}
use comet_rag.Tasks.Models.Fields.{Field, setattr}
use comet_rag.Tasks.Effect.{Db, World, ok}
use comet_rag.Tasks.Effect.Runs.{quiet}
use comet_rag.Tasks.Cas.{check_fields, check_version}
use comet_rag.Tasks.Store.{transition, moved, settle}
use comet_rag.Tasks.Store.Quiet.{transition-quiet, entering, logged}
use comet_rag.Tasks.Endings.{Executor}
use comet_rag.Tasks.Executor.Quiet.{claimed, after_claim, claimed-lookup}

-- `schedule_retry` and `schedule_handoff` return and leave the tables alone.
pub record Schedules (ex : Executor) : Type 0 where
  pub retries : (id : String) (delay : ℕ) (w : World) → ex.schedule_retry id delay w ≡ (ok tt, w)
  pub handoffs : (id lane : String) (w : World) → ex.schedule_handoff id lane w ≡ (ok tt, w)

module _ (ex : Executor) (id : String) (d : Db) (t : Task) (found : lookup id d.tasks ≡ some t)
    (filed : t.task_id ≡ id) (waits : t.status ≡ pending) (schedules : Schedules ex) where
  abbrev pub taken : Task
  taken = claimed ex id d t found filed waits

  abbrev pub taken_db : Db
  taken_db = after_claim ex id d t found filed waits

  -- A change of status of the claimed task, by this executor.
  pub move-quiet :
      (to : TaskStatus) (label : Option Message) (fs : List Field)
      → check_fields fs ≡ ok tt
      → can_transition running to ≡ true
      → transition id to none label fs (quiet taken_db) ≡ (
        ok (entering fs to d.clock taken),
        quiet (logged id to label taken (entering fs to d.clock taken) taken_db),
      )
  unfolding check_version moved setattr settle
  move-quiet to label fs allowed legal =
      transition-quiet id to none label fs taken_db taken
        (claimed-lookup ex id d t found filed waits) allowed filed refl legal
