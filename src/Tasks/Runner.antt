-- ===== src/Tasks/Runner.antt =====
-- comet_rag/tasks/runner.py: outcomes, the context that a runner works through, the registry and
-- the stage pipeline. A stage takes the context, whose last beat `checkpoint` moves, and hands it
-- on.
pub mod Lanes
use comet_rag.Prelude.{
  ℕ, suc, ◌+◌, String, Bool, Option, none, some, List, [], ◌∷◌, ltb, leb, if◌then◌else◌, ◌==◌, drop,
  length, ◌++◌,
}
use comet_rag.Dict.{Dict, lookup, insert, erase}
use comet_rag.Tasks.Status.{cancelling, same}
use comet_rag.Tasks.Value.{Value, null, str}
use comet_rag.Tasks.Error.{task_cancelled, unknown_kind, value_error}
use comet_rag.Tasks.Models.{Task, Message, Fraction, text}
use comet_rag.Tasks.Models.Fields
use comet_rag.Tasks.Models.Fields.{Field}
use comet_rag.Tasks.Effect.{M, Result, ok, err, pure, raise, now, ◌>>=◌, ◌>>◌}
use comet_rag.Tasks.Cas.{require}
use comet_rag.Tasks.Store

pub data Outcome : Type 0 where
  done : Value → Option String → Message → Outcome
  handoff : String → String → Message → Outcome

pub record TaskContext : Type 0 where
  pub task_id : String
  pub worker_id : Option String
  pub lane : Option String
  pub hb_interval : ℕ
  pub last_beat : ℕ

abbrev pub Runner : Type 0
Runner = TaskContext → M Outcome

-- `snapshot`
unfoldable pub snapshot : TaskContext → M Task
snapshot ctx = require ctx.task_id

abbrev pub beat_if_due : TaskContext → ℕ → M TaskContext
beat_if_due ctx at =
    if leb (ctx.last_beat + ctx.hb_interval) at
    then (Store.heartbeat ctx.task_id >> pure (record ctx { last_beat = at }))
    else pure ctx

abbrev pub unless_cancelling : TaskContext → Task → M TaskContext
unless_cancelling ctx task =
    if same task.status cancelling
    then raise (task_cancelled ctx.task_id)
    else (now >>= beat_if_due ctx)

-- `checkpoint`
unfoldable pub checkpoint : TaskContext → M TaskContext
unfolding snapshot
checkpoint ctx = snapshot ctx >>= unless_cancelling ctx

abbrev if_some : {A : Type 0} → (A → Field) → Option A → List Field
if_some f none = []
if_some f (some a) = f a ∷ []

abbrev if_text : String → List Field
if_text s = if s == "" then [] else Fields.message (text s) ∷ []

-- `TaskContext.enter_stage`
unfoldable pub enter_stage : TaskContext → String → Option Fraction → String → M (Unit {0})
enter_stage ctx stage progress message = do
  Store.enter_stage ctx.task_id stage (if_some Fields.progress progress ++ if_text message)
  pure tt

abbrev merge : Dict Value → Dict Value → Dict Value
merge old [] = old
merge old ((k, v) ∷ rest) = merge (insert k v old) rest

-- `put`
unfoldable pub put : TaskContext → Dict Value → M (Unit {0})
unfolding snapshot
put ctx values = do
  task ← snapshot ctx
  Store.update ctx.task_id none (Fields.context (merge task.context values) ∷ [])
  pure tt

-- `max(0.0, min(1.0, progress))` of a fraction that is not negative
abbrev clamped : Fraction → Fraction
clamped p = if ltb p.den p.num then record { num = 1; den = 1 } else p

abbrev update_any : String → List Field → M (Unit {0})
update_any task_id [] = pure tt
update_any task_id (f ∷ fs) = Store.update task_id none (f ∷ fs) >> pure tt

-- `report`
unfoldable pub report : TaskContext → Option Fraction → Option Message → M (Unit {0})
report ctx progress message =
    update_any ctx.task_id
      (if_some (λ p. Fields.progress (clamped p)) progress ++ if_some Fields.message message)

-- `_REGISTRY`
abbrev pub Registry : Type 0
Registry = Dict Runner

-- `register`
unfoldable pub register : String → Bool → Runner → Registry → Result Registry
register kind replace fn registry = elim (lookup kind registry) [
  | none ↦ ok (insert kind fn registry)
  | some _ ↦ if replace then ok (insert kind fn registry) else err (value_error "kind")
]

-- `unregister`
unfoldable pub unregister : String → Registry → Registry
unregister kind registry = erase kind registry

-- `get_runner`
unfoldable pub get_runner : String → Registry → Result Runner
get_runner kind registry = elim (lookup kind registry) [
  | none ↦ err (unknown_kind kind)
  | some fn ↦ ok fn
]

pub record Stage : Type 0 where
  pub name : String
  pub fn : TaskContext → M (Option Outcome × TaskContext)
  pub lane : Option String

-- `StagePipeline.lane_of`
unfoldable pub lane_of : List Stage → Option String → Option String
lane_of stages none = none
lane_of [] (some stage) = none
lane_of (s ∷ rest) (some stage) =
    let other = lane_of rest (some stage) in if s.name == stage then s.lane else other

-- `names.index(name)`, 0 if it is not there, and the stages from there on
abbrev index_from : List Stage → String → ℕ → Option ℕ
index_from [] name i = none
index_from (s ∷ rest) name i =
    let other = index_from rest name (suc i) in if s.name == name then some i else other

unfoldable pub start_of : List Stage → Option String → ℕ
start_of stages none = 0
start_of stages (some resume) = elim (index_from stages resume 0) [ none ↦ 0 | some i ↦ i ]

-- `lane is not None and ctx.lane is not None and lane != ctx.lane`
unfoldable pub other_lane : Option String → Option String → Option String
other_lane none mine = none
other_lane (some lane) none = none
other_lane (some lane) (some mine) = if lane == mine then none else some lane

abbrev pub result_of : Task → Value
result_of task = elim (lookup "result" task.context) [ none ↦ null | some v ↦ v ]

abbrev pub as_text : Option Value → Option String
as_text (some (str s)) = some s
as_text _ = none

-- A stage ends the loop only by a `Done`.
abbrev pub unless_done : (TaskContext → M Outcome) → Option Outcome × TaskContext → M Outcome
unless_done continue (some (done r u m), ctx) = pure (done r u m)
unless_done continue (some (handoff l s m), ctx) = continue ctx
unless_done continue (none, ctx) = continue ctx

-- One round of the loop, by the lane that the stage has instead of the worker's.
unfoldable pub run_stage :
    (TaskContext → M Outcome) → ℕ → ℕ → Stage → TaskContext → Option String → M Outcome
unfolding checkpoint enter_stage
run_stage continue total i s ctx (some lane) = pure (handoff lane s.name (text "已移交"))
run_stage continue total i s ctx none = checkpoint ctx >>= λ ctx'.
    enter_stage ctx' s.name (some (record { num = i; den = total })) ""
    >> (s.fn ctx' >>= unless_done continue)

-- The loop of `StagePipeline.__call__`
unfoldable pub run_stages : ℕ → ℕ → List Stage → TaskContext → M Outcome
unfolding snapshot run_stage other_lane
run_stages total i [] ctx = do
  task ← snapshot ctx
  pure (done (result_of task) (as_text (lookup "result_uri" task.context)) (text "已完成"))
run_stages total i (s ∷ rest) ctx =
    run_stage (run_stages total (suc i) rest) total i s ctx (other_lane s.lane ctx.lane)

-- `StagePipeline.__call__`
unfoldable pub run_pipeline : List Stage → Runner
unfolding snapshot start_of
run_pipeline stages ctx = do
  task ← snapshot ctx
  let start = start_of stages task.resume_stage
  run_stages (length stages) start (drop start stages) ctx
