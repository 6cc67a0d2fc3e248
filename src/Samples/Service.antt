-- ===== src/Samples/Service.antt =====
-- Submissions and a retry against a table with one task: runs of comet_rag/tasks/service.py.
use comet_rag.Prelude.{ℕ, ◌<◌, ◌≡◌, refl, ◌↔◌, ◌⊎◌, none, some, [], ◌∷◌, true, false, ◌≢◌, length}
use comet_rag.Tasks.Value.{null}
use comet_rag.Tasks.Models.{Task, text, new_task}
use comet_rag.Tasks.Error.{value_error}
use comet_rag.Tasks.Status.{failed, value}
use comet_rag.Tasks.Memory.{append_event, append_locked}
use comet_rag.Dict.{lookup}
use comet_rag.Tasks.Effect.{Db, ok, err, pure, ◌>>◌}
use comet_rag.Tasks.Effect.Runs.{quiet, bind_returns}
use comet_rag.Tasks.Store.{create}
use comet_rag.Tasks.Store.Quiet.{append-quiet}
use comet_rag.Tasks.Service.{TaskExecutor, retry, check_backlog}
use comet_rag.Tasks.Service.Retry.{Reopened, retry-Reopened}
use comet_rag.Tasks.Service.Admission.{waiting_tasks, check_backlog_iff}
use comet_rag.Tasks.Service.Idempotent.{IsUnder, Once, create-Once}

abbrev first : Task
first = new_task "t1" "ingest" null none (some "k1") 2 5

abbrev one_waits : Db
one_waits = record { tasks = ("t1", first) ∷ []; events = []; clock = 7 }

check_backlog_iff_example :
    (((check_backlog 1 (quiet one_waits)).0 ≡ ok tt)
      ↔ ((◌≡◌ {A = ℕ} 1 0) ⊎ (length (waiting_tasks one_waits) < 1)))
    × ((check_backlog 1 (quiet one_waits)).1 ≡ quiet one_waits)
check_backlog_iff_example = check_backlog_iff 1 one_waits

create-Once_example :
    (u : Task) × ((create "t2" "ingest" null none (some "k1") 2 [] (quiet one_waits)).0 ≡ ok u)
    × IsUnder "ingest" "k1" u
    × Once "t2" "ingest" null none "k1" 2 [] one_waits u
create-Once_example = create-Once "t2" "ingest" null none "k1" 2 [] one_waits refl refl

abbrev desk : TaskExecutor
desk = record {
  submit = λ id. append_event id "submit" (text "") [] >> pure tt;
  request_cancel = λ id. pure false;
}

abbrev given_up : Task
given_up = record first { status = failed; attempts = 2; stage = some "embed" }

abbrev one_failed : Db
one_failed = record { tasks = ("t1", given_up) ∷ []; events = []; clock = 9 }

abbrev submitted : Db → Db
submitted d = (append_locked "t1" "submit" (text "") [] d).1

submits : (e : Db) → desk.submit "t1" (quiet e) ≡ (ok tt, quiet (submitted e))
unfolding pure
submits e =
    bind_returns (append_event "t1" "submit" (text "") []) (λ _. pure tt) (quiet e) _ _
      (append-quiet "t1" "submit" (text "") [] e)

retry-Reopened_example :
    ((given_up.status ≡ failed)
      × (u : Task) × (e : Db) × (lookup "t1" e.tasks ≡ some u)
      × Reopened true false given_up u
      × (retry desk "t1" true false (quiet one_failed) ≡ (ok u, quiet (submitted e))))
    ⊎ ((given_up.status ≢ failed)
        × (retry desk "t1" true false (quiet one_failed)
            ≡ (err (value_error (value given_up.status)), quiet one_failed)))
unfolding lookup new_task
retry-Reopened_example =
    retry-Reopened desk "t1" one_failed given_up refl refl true false submitted submits (λ e. refl)
