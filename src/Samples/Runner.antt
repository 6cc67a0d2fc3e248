-- ===== src/Samples/Runner.antt =====
-- A pipeline of two lanes and a worker of the first: a run of comet_rag/tasks/runner.py.
use comet_rag.Prelude.{String, ◌≡◌, refl, ap, sym, Option, none, some, List, [], ◌∷◌}
use comet_rag.Dict.{lookup, insert}
use comet_rag.Tasks.Value.{null}
use comet_rag.Tasks.Status.{running}
use comet_rag.Tasks.Models.{text, new_task}
use comet_rag.Tasks.Models.Fields.{setattr, set_fields}
use comet_rag.Tasks.Effect.{
  Db, World, M, Result, ok, err, pure, raise, lift, now, atomic, pause, attempt, ◌>>=◌,
}
use comet_rag.Tasks.Effect.Runs.{quiet}
use comet_rag.Tasks.Memory.{load, save, append_event}
use comet_rag.Tasks.Cas.{
  cas, cas_rounds, require, check_fields, check_version, close_stage, close_last,
}
use comet_rag.Tasks.Store
use comet_rag.Tasks.Runner.{
  Outcome, handoff, TaskContext, Stage, snapshot, checkpoint, enter_stage, other_lane, start_of,
  run_stage, run_stages, run_pipeline,
}
use comet_rag.Tasks.Runner.Lanes.{Owed, run_pipeline-Owed}

idle : TaskContext → M (Option Outcome × TaskContext)
idle ctx = pure (none, ctx)

abbrev parse : Stage
parse = record { name = "parse"; fn = idle; lane = some "cpu" }

abbrev embed : Stage
embed = record { name = "embed"; fn = idle; lane = some "io" }

abbrev two_lanes : List Stage
two_lanes = parse ∷ embed ∷ []

abbrev at_work : TaskContext
at_work = record {
  task_id = "t1";
  worker_id = some "w1";
  lane = some "cpu";
  hb_interval = 10;
  last_beat = 7;
}

abbrev busy : Db
busy = record {
  tasks = ("t1", record (new_task "t1" "ingest" null none none 2 5) { status = running }) ∷ [];
  events = [];
  clock = 7;
}

lane_left : Option String → Result (Option Outcome × TaskContext) → Option String
lane_left l (ok p) = p.1.lane
lane_left l (err e) = l

idle-KeepsLane :
    (c c' : TaskContext) (w : World) (o : Option Outcome)
    → (idle c w).0 ≡ ok (o, c')
    → c'.lane ≡ c.lane
unfolding idle pure lane_left
idle-KeepsLane c c' w o h = sym (ap (lane_left c.lane) h)

goes_over : (run_pipeline two_lanes at_work (quiet busy)).0 ≡ ok (handoff "io" "embed" (text "已移交"))
unfolding run_pipeline run_stages run_stage start_of other_lane snapshot checkpoint enter_stage idle
    Store.enter_stage Store.entered cas cas_rounds require load save atomic pause pure raise lift
    now attempt ◌>>=◌ lookup insert new_task check_fields check_version append_event set_fields
    setattr close_stage close_last
goes_over = refl

run_pipeline-Owed_example : Owed (some "cpu") "io" "embed" two_lanes
run_pipeline-Owed_example =
    run_pipeline-Owed two_lanes at_work (quiet busy) "io" "embed" (text "已移交")
      (idle-KeepsLane, (idle-KeepsLane, tt)) goes_over
