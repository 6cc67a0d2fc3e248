-- ===== src/Tasks/Models.antt =====
-- comet_rag/tasks/models.py: the task record and what it holds. A time is a number of ticks. A
-- progress between 0.0 and 1.0 is a fraction. A text that the code builds with an f-string is a
-- `Message`: its template with the values that are put in.
pub mod Fields
use comet_rag.Prelude.{ℕ, Bool, String, Option, none, List, []}
use comet_rag.Dict.{Dict}
use comet_rag.Tasks.Status.{TaskStatus, pending}
use comet_rag.Tasks.Value.{Value, null}
use comet_rag.Tasks.Error.{Error}

pub data Message : Type 0 where
  text : String → Message
  -- `str(exc)`
  text_of : Error → Message
  created_note : String → Message
  transition_note : TaskStatus → TaskStatus → Message
  stage_note : String → Message
  retry_note : ℕ → ℕ → Message
  handoff_note : Option String → String → Message

pub record Fraction : Type 0 where
  pub num : ℕ
  pub den : ℕ

pub record TaskError : Type 0 where
  pub code : String
  pub message : Message
  pub retriable : Bool
  -- the traceback, by the exception that it is of
  pub detail : Option Error
  pub at : ℕ

pub record StageRecord : Type 0 where
  pub stage : String
  pub started_at : ℕ
  pub finished_at : Option ℕ
  pub status : String
  pub note : Option String

pub record TaskEvent : Type 0 where
  pub task_id : String
  pub seq : ℕ
  pub at : ℕ
  pub type : String
  pub message : Message
  pub payload : Dict (Option String)

pub record Task : Type 0 where
  pub task_id : String
  pub kind : String
  pub owner_id : Option String
  pub idempotency_key : Option String
  pub request : Value
  pub status : TaskStatus
  pub stage : Option String
  pub stage_history : List StageRecord
  pub context : Dict Value
  pub result : Value
  pub result_uri : Option String
  pub resume_stage : Option String
  pub error : Option TaskError
  pub attempts : ℕ
  pub max_attempts : ℕ
  pub progress : Fraction
  pub message : Message
  pub version : ℕ
  pub worker_id : Option String
  pub created_at : ℕ
  pub updated_at : ℕ
  pub started_at : Option ℕ
  pub finished_at : Option ℕ
  pub heartbeat_at : Option ℕ

-- `Task(task_id, kind, request=…, owner_id=…, idempotency_key=…, max_attempts=…)`, the other
-- fields at their defaults
unfoldable pub new_task : String → String → Value → Option String → Option String → ℕ → ℕ → Task
new_task task_id kind request owner_id idempotency_key max_attempts now = record {
  task_id = task_id;
  kind = kind;
  owner_id = owner_id;
  idempotency_key = idempotency_key;
  request = request;
  status = pending;
  stage = none;
  stage_history = [];
  context = [];
  result = null;
  result_uri = none;
  resume_stage = none;
  error = none;
  attempts = 0;
  max_attempts = max_attempts;
  progress = record { num = 0; den = 1 };
  message = text "";
  version = 0;
  worker_id = none;
  created_at = now;
  updated_at = now;
  started_at = none;
  finished_at = none;
  heartbeat_at = none;
}
