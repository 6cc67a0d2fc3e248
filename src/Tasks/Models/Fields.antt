-- ===== src/Tasks/Models/Fields.antt =====
-- Keyword arguments that set fields of a task (`**fields` in comet_rag/tasks/store.py), with
-- the checks `_check_fields` of names that may not be set and of names that no field has.
use comet_rag.Prelude.{
  ℕ, String, ◌≡◌, refl, Bool, true, false, ◌&&◌, Option, List, [], ◌∷◌, arith, any, not,
}
use comet_rag.Dict.{Dict}
use comet_rag.Tasks.Status.{TaskStatus}
use comet_rag.Tasks.Value.{Value}
use comet_rag.Tasks.Models.{Task, TaskError, StageRecord, Message, Fraction}

pub data Field : Type 0 where
  task_id kind : String → Field
  owner_id idempotency_key stage result_uri resume_stage worker_id : Option String → Field
  request result : Value → Field
  status : TaskStatus → Field
  stage_history : List StageRecord → Field
  context : Dict Value → Field
  error : Option TaskError → Field
  attempts max_attempts version created_at updated_at : ℕ → Field
  progress : Fraction → Field
  message : Message → Field
  started_at finished_at heartbeat_at : Option ℕ → Field
  -- a name that is no field of a task
  other : String → Field

-- the names in `_IMMUTABLE`
unfoldable pub is_immutable : Field → Bool
is_immutable (task_id _) = true
is_immutable (kind _) = true
is_immutable (created_at _) = true
is_immutable (version _) = true
is_immutable (status _) = true
is_immutable _ = false

-- the names not in `FIELD_NAMES`
unfoldable pub is_unknown : Field → Bool
is_unknown (other _) = true
is_unknown _ = false

-- `"resume_stage" in fields`
unfoldable pub is_resume_stage : Field → Bool
is_resume_stage (resume_stage _) = true
is_resume_stage _ = false

-- `setattr(task, k, v)`. Slots refuse a name that is no field; `_check_fields` has stopped it
-- before.
unfoldable pub setattr : Field → Task → Task
setattr (task_id v) t = record t { task_id = v }
setattr (kind v) t = record t { kind = v }
setattr (owner_id v) t = record t { owner_id = v }
setattr (idempotency_key v) t = record t { idempotency_key = v }
setattr (stage v) t = record t { stage = v }
setattr (result_uri v) t = record t { result_uri = v }
setattr (resume_stage v) t = record t { resume_stage = v }
setattr (worker_id v) t = record t { worker_id = v }
setattr (request v) t = record t { request = v }
setattr (result v) t = record t { result = v }
setattr (status v) t = record t { status = v }
setattr (stage_history v) t = record t { stage_history = v }
setattr (context v) t = record t { context = v }
setattr (error v) t = record t { error = v }
setattr (attempts v) t = record t { attempts = v }
setattr (max_attempts v) t = record t { max_attempts = v }
setattr (version v) t = record t { version = v }
setattr (created_at v) t = record t { created_at = v }
setattr (updated_at v) t = record t { updated_at = v }
setattr (progress v) t = record t { progress = v }
setattr (message v) t = record t { message = v }
setattr (started_at v) t = record t { started_at = v }
setattr (finished_at v) t = record t { finished_at = v }
setattr (heartbeat_at v) t = record t { heartbeat_at = v }
setattr (other _) t = t

unfoldable pub set_fields : List Field → Task → Task
set_fields [] t = t
set_fields (f ∷ fs) t = set_fields fs (setattr f t)

abbrev pub fields_allowed : List Field → Bool
fields_allowed fs = not (any is_immutable fs) && not (any is_unknown fs)

-- What `status` and the identity of a task are: no keyword argument that passes the check sets it.
pub record Fixed (t u : Task) : Type 0 where
  pub task_id : u.task_id ≡ t.task_id
  pub kind : u.kind ≡ t.kind
  pub status : u.status ≡ t.status
  pub version : u.version ≡ t.version
  pub created_at : u.created_at ≡ t.created_at

setattr-Fixed : (f : Field) (t : Task) → is_immutable f ≡ false → Fixed t (setattr f t)
unfolding setattr is_immutable
setattr-Fixed (task_id v) t h = cc
setattr-Fixed (kind v) t h = cc
setattr-Fixed (status v) t h = cc
setattr-Fixed (version v) t h = cc
setattr-Fixed (created_at v) t h = cc
setattr-Fixed _ t h = record {
  task_id = refl;
  kind = refl;
  status = refl;
  version = refl;
  created_at = refl;
}

pub set_fields-Fixed :
    (fs : List Field) (t : Task) → any is_immutable fs ≡ false → Fixed t (set_fields fs t)
unfolding set_fields
set_fields-Fixed [] t h = record {
  task_id = refl;
  kind = refl;
  status = refl;
  version = refl;
  created_at = refl;
}
set_fields-Fixed (f ∷ fs) t h = ground (arith, setattr-Fixed f t, set_fields-Fixed fs (setattr f t))
