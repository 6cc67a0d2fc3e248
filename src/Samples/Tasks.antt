-- ===== src/Samples/Tasks.antt =====
-- One task of the kind "ingest" and its worker: runs of comet_rag/tasks at concrete inputs.
use comet_rag.Prelude.{
  ◌+◌, String, ◌≡◌, ◌≢◌, refl, ◌↔◌, ◌⊎◌, inl, inr, true, false, none, some, List, [], ◌∷◌, arith,
  ltb, if◌then◌else◌, ◌==◌, eq_iff, Bool-cases, subst,
}
use comet_rag.Dict.{lookup, insert}
use comet_rag.Tasks.Status.{pending, running, cancelling, succeeded, failed}
use comet_rag.Tasks.States.{can_transition}
use comet_rag.Tasks.States.Reach.{Reach, Reach-iff, is_closed}
use comet_rag.Tasks.Value.{null}
use comet_rag.Tasks.Error.{retriable_error}
use comet_rag.Tasks.Models.{Task, text, new_task}
use comet_rag.Tasks.Models.Fields.{setattr, set_fields}
use comet_rag.Tasks.Effect.{Db, World, ok, pure, raise, lift, now, attempt, pause, atomic, ◌>>=◌}
use comet_rag.Tasks.Effect.Keeps.{Keeps, Keeps-pure, Keeps-raise, Friendly}
use comet_rag.Tasks.Effect.Runs.{quiet}
use comet_rag.Tasks.Store.Legal.{Legal, Legal-preorder, IsFiled, Moves-refl}
use comet_rag.Tasks.Runner.{Runner, Registry, get_runner, handoff}
use comet_rag.Tasks.Executor.{execute, claim}
use comet_rag.Tasks.Endings.{Executor, to_task_error}
use comet_rag.Tasks.Memory.{load, save, append_event}
use comet_rag.Tasks.Cas.{cas, cas_rounds, require, check_fields, check_version}
use comet_rag.Tasks.Store
use comet_rag.Tasks.Models.Fields
use comet_rag.Tasks.Models.Fields.{Field}
use comet_rag.Tasks.Store.{transition, guarded_move, moved, settle, update, heartbeat, enter_stage}
use comet_rag.Tasks.Store.Methods.{methods-Legal}
use comet_rag.Tasks.Store.Quiet.{entering}
use comet_rag.Tasks.Store.Closing.{Closes, transition-Closes}
use comet_rag.Tasks.Store.Settled.{Settled, transition-Settled}
use comet_rag.Tasks.Executor.Claim.{claim_once}
use comet_rag.Tasks.Executor.Legal.{SafeExecutor, SafeRegistry, execute-Legal}
use comet_rag.Tasks.Executor.Moves.{Schedules}
use comet_rag.Tasks.Executor.Handoff.{execute-handoff}
use comet_rag.Tasks.Executor.Budget.{runs, runs_budget}

Reach-iff_example :
    Reach cancelling running ↔ ((running ≡ cancelling) ⊎ (is_closed cancelling ≡ false))
Reach-iff_example = Reach-iff cancelling running

abbrev waiting : Task
waiting = new_task "t1" "ingest" null none none 2 5

abbrev finished : Task
finished = record (new_task "t2" "ingest" null none none 2 5) { status = succeeded; version = 3 }

abbrev tables : Db
tables = record { tasks = ("t1", waiting) ∷ ("t2", finished) ∷ []; events = []; clock = 7 }

flaky : Runner
flaky ctx = raise (retriable_error "busy" "503")

abbrev registry : Registry
registry = ("ingest", flaky) ∷ []

abbrev worker : Executor
worker = record {
  worker_id = "w1";
  lane = some "cpu";
  backoff = 2;
  schedule_retry = λ id delay. pure tt;
  schedule_handoff = λ id lane. pure tt;
}

worker-Schedules : Schedules worker
unfolding pure
worker-Schedules = record { retries = λ id delay w. refl; handoffs = λ id lane w. refl }

runs_budget_example :
    (u : Task) × (lookup "t1" (runs 2 worker registry "t1" (quiet tables)).db.tasks ≡ some u)
    × (u.attempts ≡ waiting.attempts + 2)
    × (u.status ≡ (if ltb (waiting.attempts + 2) waiting.max_attempts then pending else failed))
unfolding new_task lookup get_runner flaky raise to_task_error
runs_budget_example =
    runs_budget 1 worker "t1" tables waiting registry flaky (retriable_error "busy" "503") refl refl
      refl worker-Schedules refl (λ ctx w. refl) refl (λ at. refl) (omega arith)

abbrev passing : Runner
passing ctx = pure (handoff "io" "embed" (text "已移交"))

execute-handoff_example :
    ((execute worker (("ingest", passing) ∷ []) "t1" (quiet tables)).0 ≡ ok tt)
    × ((u : Task) × (lookup "t1"
            (execute worker (("ingest", passing) ∷ []) "t1" (quiet tables)).1.db.tasks
          ≡ some u)
        × (u.attempts ≡ 0)
        × (u.status ≡ pending)
        × (u.resume_stage ≡ some "embed")
        × (u.worker_id ≡ none)
        × (u.version ≡ 2))
unfolding new_task lookup get_runner pure
execute-handoff_example =
    execute-handoff worker "t1" tables waiting refl refl refl worker-Schedules
      (("ingest", passing) ∷ []) passing refl "io" "embed" (text "已移交") refl

tick : Db → Db
tick d = record d { clock = d.clock + 1 }

tick-Legal : (j : String) (d : Db) → Legal j d (tick d)
unfolding tick
tick-Legal j d filed = (filed, Moves-refl (lookup j d.tasks))

abbrev ticks : List (Db → Db)
ticks = tick ∷ tick ∷ tick ∷ []

ticks-Friendly : (j : String) → Friendly (Legal-preorder j) ticks
ticks-Friendly j = (tick-Legal j, (tick-Legal j, (tick-Legal j, tt)))

tables-IsFiled : IsFiled tables
unfolding lookup new_task
tables-IsFiled j t at = ground (arith, eq_iff "t1" j, eq_iff "t2" j)

abbrev crowded : World
crowded = record { db = tables; others = ticks }

worker-Safe : (j : String) → SafeExecutor j worker
worker-Safe j = record {
  retries = λ id delay. Keeps-pure (Legal-preorder j) tt;
  handoffs = λ id lane. Keeps-pure (Legal-preorder j) tt;
}

registry-Safe : (j : String) → SafeRegistry j registry
unfolding get_runner lookup flaky
registry-Safe j kind runner ctx known = elim (Bool-cases ("ingest" == kind)) [
  | inl hit ↦
      let e : flaky ≡ runner = ground arith in
      subst (λ (r : Runner). Keeps (Legal-preorder j) (r ctx)) e
        (Keeps-raise (Legal-preorder j) (retriable_error "busy" "503"))
  | inr miss ↦ absurd (ground arith)
]

execute-Legal_example : Legal "t2" tables (execute worker registry "t1" crowded).1.db
execute-Legal_example =
    execute-Legal worker registry "t1" "t2" crowded (worker-Safe "t2") (registry-Safe "t2")
      (ticks-Friendly "t2")

rival : Executor
rival = record worker { worker_id = "w2" }

abbrev after_first : Db
after_first = (claim worker waiting "t1" crowded).1.db

first_wins : (claim worker waiting "t1" crowded).0 ≡ ok true
unfolding claim transition cas cas_rounds require load save atomic pause pure raise lift now attempt
    ◌>>=◌ lookup insert tick new_task check_fields check_version guarded_move append_event
    can_transition moved set_fields setattr settle
first_wins = refl

claim_once_example :
    (claim rival waiting "t1" (record { db = after_first; others = ticks })).0 ≢ ok true
claim_once_example =
    claim_once worker rival waiting waiting "t1" crowded
      (record { db = after_first; others = ticks }) refl (ticks-Friendly "t1") (ticks-Friendly "t1")
      tables-IsFiled first_wins (λ filed. (filed, Moves-refl (lookup "t1" after_first.tasks)))

-- One tick passes before the change of status reads the clock.
abbrev started : Task
started = entering [] running 8 waiting

start-returns : (transition "t1" running (some 0) none [] crowded).0 ≡ ok started
unfolding transition cas cas_rounds require load save atomic pause pure raise lift now attempt ◌>>=◌
    lookup insert tick new_task check_fields check_version guarded_move append_event can_transition
    moved set_fields setattr settle
start-returns = refl

transition-Settled_example : Settled running started
transition-Settled_example =
    transition-Settled "t1" running (some 0) none [] crowded started start-returns

abbrev at_work : Task
at_work = record waiting {
  status = running;
  stage_history =
      record {
        stage = "embed";
        started_at = 5;
        finished_at = none;
        status = "running";
        note = none;
      }
      ∷ [];
}

abbrev one_runs : Db
one_runs = record { tasks = ("t1", at_work) ∷ []; events = []; clock = 9 }

transition-Closes_example :
    let r = transition "t1" succeeded none none [] (quiet one_runs) in
    (u : Task) × (r.0 ≡ ok u)
    × (lookup "t1" r.1.db.tasks ≡ some u)
    × Closes (some "succeeded") 9 at_work.stage_history u.stage_history
unfolding lookup new_task check_fields check_version can_transition set_fields
transition-Closes_example =
    transition-Closes "t1" succeeded none none [] one_runs at_work refl refl refl refl refl

abbrev half_done : List Field
half_done = Fields.progress (record { num = 1; den = 2 }) ∷ []

methods-Legal_example :
    Legal "t2" tables (update "t1" none half_done crowded).1.db
    × Legal "t2" tables (transition "t1" running none none half_done crowded).1.db
    × Legal "t2" tables (heartbeat "t1" crowded).1.db
    × Legal "t2" tables (enter_stage "t1" "parse" half_done crowded).1.db
    × Legal "t2" tables (Store.delete "t1" true crowded).1.db
methods-Legal_example =
    methods-Legal "t1" "t2" "parse" running none none half_done true crowded (ticks-Friendly "t2")
