-- ===== src/Tasks/Store.antt =====
-- The template methods of `TaskStore` in comet_rag/tasks/store.py, over `_cas`.
pub mod Legal
pub mod Primitives
pub mod Loop
pub mod Changes
pub mod Methods
pub mod Versions
pub mod Quiet
pub mod Returns
pub mod Settled
pub mod Closing
use comet_rag.Prelude.{
  ℕ, String, Bool, true, false, ◌&&◌, not, Option, none, some, List, [], ◌∷◌, ◌++◌, if◌then◌else◌,
  any,
}
use comet_rag.Tasks.Status.{
  TaskStatus, pending, running, cancelling, succeeded, failed, cancelled, value, is_active,
}
use comet_rag.Tasks.States.{can_transition}
use comet_rag.Tasks.Value.{Value}
use comet_rag.Tasks.Error.{task_busy, invalid_transition, type_error}
use comet_rag.Tasks.Models.{
  Task, TaskError, Message, Fraction, created_note, transition_note, stage_note, new_task,
}
use comet_rag.Tasks.Models.Fields
use comet_rag.Tasks.Models.Fields.{Field, is_immutable, is_unknown, set_fields}
use comet_rag.Tasks.Effect.{Result, ok, err, M, pure, raise, lift, now, ◌>>=◌, ◌>>◌}
use comet_rag.Tasks.Memory.{insert_task, load, remove, query, append_event}
use comet_rag.Tasks.Cas.{check_fields, close_stage, anchor_if_missing, cas}

-- Python refuses a keyword that stands twice in the call of `Task`, or that no field has.
abbrev pub clashes : Field → Bool
clashes (Fields.task_id _) = true
clashes (Fields.kind _) = true
clashes (Fields.request _) = true
clashes (Fields.owner_id _) = true
clashes (Fields.idempotency_key _) = true
clashes (Fields.max_attempts _) = true
clashes (Fields.other _) = true
clashes _ = false

abbrev pub announce : Task × Bool → M Task
announce (task, true) = append_event task.task_id "created" (created_note task.kind) [] >> pure task
announce (task, false) = pure task

-- `create`. `task_id` is what `new_task_id()` gives.
unfoldable pub create :
    String → String → Value → Option String → Option String → ℕ → List Field → M Task
unfolding new_task set_fields
create task_id kind request owner_id idempotency_key max_attempts fields =
    if any clashes fields then raise (type_error "create") else do
      at ← now
      persisted ← insert_task (
          set_fields fields
            (new_task task_id kind request owner_id idempotency_key max_attempts at))
      announce persisted

-- `list_tasks`
unfoldable pub list_tasks :
    Option String → Option TaskStatus → Option String → ℕ → ℕ → M (List Task)
list_tasks kind status owner_id limit offset = query (record {
  kind = kind;
  status = status;
  owner_id = owner_id;
  idempotency_key = none;
  limit = limit;
  offset = offset;
})

abbrev first : {A B : Type 0} → A × B → M A
first p = pure p.0

unfoldable pub updated : List Field → ℕ → Task → Task
unfolding set_fields
updated fields at t = record (set_fields fields t) { updated_at = at }

-- `update`
unfoldable pub update : String → Option ℕ → List Field → M Task
unfolding check_fields updated
update task_id expected fields = do
  lift (check_fields fields)
  saved ← cas task_id expected (λ at t. ok (updated fields at t, tt)) true
  pure saved.0

-- A time that is kept if it is there: `x or now`.
abbrev or_now : Option ℕ → ℕ → Option ℕ
or_now none at = some at
or_now (some t) at = some t

abbrev pub finish_with : ℕ → String → Task → Task
finish_with at status t =
    close_stage at status (record t { finished_at = some at; heartbeat_at = none })

abbrev pub close_failed : Option TaskError → ℕ → Task → Task
close_failed none at t = t
close_failed (some e) at t = close_stage at "failed" t

abbrev whole : Fraction
whole = record { num = 1; den = 1 }

-- What `transition` writes besides the status, by the status that is entered.
unfoldable pub settle : List Field → ℕ → TaskStatus → Task → Task
unfolding close_stage anchor_if_missing
settle fields at running t = record t {
  started_at = or_now t.started_at at;
  finished_at = none;
  heartbeat_at = some at;
}
settle fields at pending t = anchor_if_missing fields (
    close_failed t.error at
      (record t { finished_at = none; heartbeat_at = none; worker_id = none }))
settle fields at cancelling t = t
settle fields at succeeded t = record (finish_with at "succeeded" t) { progress = whole }
settle fields at failed t = anchor_if_missing fields (finish_with at "failed" t)
settle fields at cancelled t = finish_with at "cancelled" t

unfoldable pub moved : List Field → TaskStatus → ℕ → Task → Task
unfolding set_fields settle
moved fields to at t =
    settle fields at to (record (set_fields fields t) { status = to; updated_at = at })

-- The `mutate` of `transition`: the guard, then the change; it hands the old status back.
unfoldable pub guarded_move : List Field → TaskStatus → ℕ → Task → Result (Task × TaskStatus)
unfolding can_transition moved
guarded_move fields to at t =
    if can_transition t.status to
    then ok (moved fields to at t, t.status)
    else err (invalid_transition t.status to)

-- `transition`
unfoldable pub transition : String → TaskStatus → Option ℕ → Option Message → List Field → M Task
unfolding check_fields guarded_move
transition task_id to expected note fields = do
  lift (check_fields fields)
  saved ← cas task_id expected (guarded_move fields to) true
  append_event task_id "transition" (elim note [ none ↦ transition_note saved.1 to | some n ↦ n ])
      (("from", some (value saved.1)) ∷ ("to", some (value to)) ∷ ("stage", saved.0.stage) ∷ [])
  pure saved.0

-- `heartbeat`
unfoldable pub heartbeat : String → M (Unit {0})
heartbeat task_id = do
  cas task_id none (λ at t. ok (record t { heartbeat_at = some at }, tt)) false
  pure tt

unfoldable pub entered : String → List Field → ℕ → Task → Task
unfolding close_stage set_fields
entered stage fields at t =
    let closed = close_stage at "succeeded" t in
    let opened = record closed {
      stage = some stage;
      stage_history =
          closed.stage_history
          ++ record {
            stage = stage;
            started_at = at;
            finished_at = none;
            status = "running";
            note = none;
          }
            ∷ [];
    } in
    record (set_fields fields opened) { updated_at = at }

-- `enter_stage`
unfoldable pub enter_stage : String → String → List Field → M Task
unfolding check_fields entered
enter_stage task_id stage fields = do
  lift (check_fields fields)
  saved ← cas task_id none (λ at t. ok (entered stage fields at t, tt)) true
  append_event task_id "stage" (stage_note stage) (("stage", some stage) ∷ [])
  pure saved.0

delete_found : String → Bool → Option Task → M Bool
unfolding is_active
delete_found task_id force none = pure false
delete_found task_id force (some task) =
    if is_active task.status && not force
    then raise (task_busy task_id task.status)
    else remove task_id

-- `delete`
unfoldable pub delete : String → Bool → M Bool
unfolding delete_found
delete task_id force = load task_id >>= delete_found task_id force
