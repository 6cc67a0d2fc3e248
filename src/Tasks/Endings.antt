-- ===== src/Tasks/Endings.antt =====
-- How a run ends: `_to_task_error`, `_still_mine`, `_finish`, `_hand_off`, `_mark_cancelled` and
-- `_mark_failed` of `StoreDrivenExecutor` in comet_rag/tasks/executor.py. The subclass's ways to
-- queue a task again are the fields of `Executor`.
use comet_rag.Prelude.{
  ℕ, ◌-◌, ◌*◌, ◌/◌, ◌^◌, String, Bool, true, false, ◌&&◌, not, Option, none, some, List, [], ◌∷◌,
  ltb, eqb, if◌then◌else◌, ◌==◌,
}
use comet_rag.Tasks.Status.{pending, running, succeeded, failed, cancelled, same, is_terminal}
use comet_rag.Tasks.Value.{Value}
use comet_rag.Tasks.Error.{
  Error, task_cancelled, retriable_error, timeout_error, cancelled_error, raised, type_name,
}
use comet_rag.Tasks.Models.{Task, TaskError, Message, text, text_of, retry_note, handoff_note}
use comet_rag.Tasks.Models.Fields
use comet_rag.Tasks.Models.Fields.{Field}
use comet_rag.Tasks.Effect.{M, pure, raise, now, attempt, ◌>>=◌, ◌>>◌}
use comet_rag.Tasks.Memory.{load, is_text}
use comet_rag.Tasks.Store.{transition}
use comet_rag.Tasks.Runner.{Outcome, done, handoff}

pub record Executor : Type 0 where
  pub worker_id : String
  pub lane : Option String
  pub backoff : ℕ
  pub schedule_retry : String → ℕ → M (Unit {0})
  pub schedule_handoff : String → String → M (Unit {0})

-- `_to_task_error`, at the time that the record is made
unfoldable pub to_task_error : Error → ℕ → TaskError
unfolding type_name
to_task_error (retriable_error message code) at = record {
  code = code;
  message = text message;
  retriable = true;
  detail = some (retriable_error message code);
  at = at;
}
to_task_error timeout_error at = record {
  code = "timeout";
  message = text "执行超时";
  retriable = true;
  detail = some timeout_error;
  at = at;
}
to_task_error (raised name message) at = record {
  code = name;
  message = text (if message == "" then name else message);
  retriable = false;
  detail = some (raised name message);
  at = at;
}
to_task_error e at = record {
  code = type_name e;
  message = text_of e;
  retriable = false;
  detail = some e;
  at = at;
}

abbrev pub discard : {A : Type 0} → M A → M (Unit {0})
discard m = m >> pure tt

-- The test of `_still_mine` on the task that was read.
unfoldable pub owned : Executor → Bool → Option Task → Option Task
owned ex claimed none = none
owned ex claimed (some task) =
    if claimed && not (is_text task.worker_id ex.worker_id) then none else some task

-- `_still_mine`
unfoldable pub still_mine : Executor → Bool → String → M (Option Task)
unfolding owned
still_mine ex claimed task_id = load task_id >>= λ found. pure (owned ex claimed found)

abbrev pub cancelled_by : String → ℕ → TaskError
cancelled_by why at = record {
  code = "cancelled";
  message = text why;
  retriable = false;
  detail = none;
  at = at;
}

abbrev pub handoff_fields : Task → String → Message → List Field
handoff_fields task stage message =
    Fields.attempts (task.attempts - 1)
    ∷ Fields.resume_stage (some stage)
    ∷ Fields.message message
    ∷ []

unfoldable pub hand_off_owned :
    Executor → String → String → String → Message → Option Task → M (Unit {0})
hand_off_owned ex task_id lane stage message none = pure tt
hand_off_owned ex task_id lane stage message (some task) =
    if same task.status running
    then (transition task_id pending none (some (handoff_note ex.lane lane))
          (handoff_fields task stage message)
        >> ex.schedule_handoff task_id lane)
    else pure tt

-- `_hand_off`
unfoldable pub hand_off : Executor → String → String → String → Message → M (Unit {0})
unfolding still_mine hand_off_owned
hand_off ex task_id lane stage message =
    still_mine ex true task_id >>= hand_off_owned ex task_id lane stage message

abbrev pub success_fields : Value → Option String → Message → List Field
success_fields result uri message =
    Fields.result result
    ∷ Fields.result_uri uri
    ∷ Fields.resume_stage none
    ∷ Fields.message message
    ∷ []

unfoldable pub succeed_owned : String → Value → Option String → Message → Option Task → M (Unit {0})
succeed_owned task_id result uri message none = pure tt
succeed_owned task_id result uri message (some task) =
    discard (transition task_id succeeded none none (success_fields result uri message))

-- `_finish`
unfoldable pub finish : Executor → String → Outcome → M (Unit {0})
unfolding still_mine hand_off succeed_owned
finish ex task_id (handoff lane stage message) = hand_off ex task_id lane stage message
finish ex task_id (done result uri message) =
    still_mine ex true task_id >>= succeed_owned task_id result uri message

unfoldable pub cancel_owned : String → Option Task → M (Unit {0})
unfolding is_terminal
cancel_owned task_id none = pure tt
cancel_owned task_id (some task) =
    if is_terminal task.status
    then pure tt
    else (now >>= λ at. discard (
        transition task_id cancelled none none
          (Fields.error (some (cancelled_by "任务被取消" at)) ∷ Fields.message (text "已取消") ∷ [])))

-- `_mark_cancelled`
unfoldable pub mark_cancelled : Executor → Bool → String → M (Unit {0})
unfolding still_mine cancel_owned
mark_cancelled ex claimed task_id = still_mine ex claimed task_id >>= cancel_owned task_id

-- `backoff * (2 ** (attempts - 1))`; Python's `2 ** -1` is a half
unfoldable pub retry_delay : Executor → ℕ → ℕ
retry_delay ex attempts = if eqb attempts 0 then ex.backoff / 2 else ex.backoff * 2 ^ (attempts - 1)

-- `err.retriable and task.attempts < task.max_attempts`
unfoldable pub may_retry : TaskError → Task → Bool
may_retry e task = e.retriable && ltb task.attempts task.max_attempts

abbrev pub retry_fields : TaskError → Task → ℕ → List Field
retry_fields e task delay =
    Fields.error (some e)
    ∷ Fields.resume_stage task.stage
    ∷ Fields.message (retry_note task.attempts delay)
    ∷ []

abbrev pub dead_fields : TaskError → Task → List Field
dead_fields e task =
    Fields.error (some e) ∷ Fields.resume_stage task.stage ∷ Fields.message (text "执行失败") ∷ []

unfoldable pub fail_owned : Executor → String → TaskError → Option Task → M (Unit {0})
unfolding is_terminal retry_delay may_retry
fail_owned ex task_id e none = pure tt
fail_owned ex task_id e (some task) =
    if is_terminal task.status
    then pure tt
    else if may_retry e task
    then (transition task_id pending none (some (text "可重试失败，重排队"))
          (retry_fields e task (retry_delay ex task.attempts))
        >> ex.schedule_retry task_id (retry_delay ex task.attempts))
    else discard (transition task_id failed none none (dead_fields e task))

-- `_mark_failed`
unfoldable pub mark_failed : Executor → Bool → String → Error → M (Unit {0})
unfolding to_task_error still_mine fail_owned
mark_failed ex claimed task_id exc =
    now >>= λ at. still_mine ex claimed task_id >>= fail_owned ex task_id (to_task_error exc at)

-- The handlers of `execute`: CancelledError, TaskCancelled, and every other exception.
unfoldable pub on_error : Executor → Bool → String → Error → M (Unit {0})
unfolding mark_cancelled mark_failed
on_error ex claimed task_id cancelled_error =
    attempt (mark_cancelled ex claimed task_id) (λ _. raise cancelled_error)
      (λ _. raise cancelled_error)
on_error ex claimed task_id (task_cancelled id) = mark_cancelled ex claimed task_id
on_error ex claimed task_id e = mark_failed ex claimed task_id e
