-- ===== src/Tasks/Memory.antt =====
-- `InMemoryTaskStore` of comet_rag/tasks/store_memory.py. Each method waits for the lock and then
-- works on the tables alone. Records are values here, so the copies of `_clone` are the records.
use comet_rag.Prelude.{
  ℕ, ◌+◌, String, Bool, true, false, ◌&&◌, Option, none, some, List, [], ◌∷◌, ◌++◌, ltb, eqb, ◌==◌,
  if◌then◌else◌, length, take, drop, keep, find,
}
use comet_rag.Dict.{Dict, lookup, insert, erase, values}
use comet_rag.Tasks.Status.{TaskStatus, same}
use comet_rag.Tasks.Error.{task_not_found, version_conflict}
use comet_rag.Tasks.Models.{Task, TaskEvent, Message}
use comet_rag.Tasks.Effect.{Db, Result, ok, err, M, atomic, pause, ◌>>◌}

-- `a == b` between an optional text and a text
abbrev pub is_text : Option String → String → Bool
is_text none s = false
is_text (some r) s = r == s

-- `x is None or y == x`
abbrev pub allows : Option String → Option String → Bool
allows none y = true
allows (some x) y = is_text y x

abbrev allows_status : Option TaskStatus → TaskStatus → Bool
allows_status none s = true
allows_status (some x) s = same s x

-- The first task of this kind under this key, if the key is no empty text.
abbrev pub twin : String → Option String → List Task → Option Task
twin kind none ts = none
twin kind (some key) ts =
    if key == ""
    then none
    else find (λ (t : Task). t.kind == kind && is_text t.idempotency_key key) ts

abbrev pub insert_locked : Task → Db → Result (Task × Bool) × Db
insert_locked task d = elim (twin task.kind task.idempotency_key (values d.tasks)) [
  | some existing ↦ (ok (existing, false), d)
  | none ↦ (ok (task, true), record d { tasks = insert task.task_id task d.tasks })
]

-- `_insert`
unfoldable pub insert_task : Task → M (Task × Bool)
insert_task task = pause >> atomic (insert_locked task)

-- `_load`
unfoldable pub load : String → M (Option Task)
load task_id = pause >> atomic (λ d. (ok (lookup task_id d.tasks), d))

abbrev pub next_version : Task → ℕ → Bool → Task
next_version task expected bump = record task { version = if bump then expected + 1 else expected }

abbrev pub save_locked : Task → ℕ → Bool → Db → Result Task × Db
save_locked task expected bump d = elim (lookup task.task_id d.tasks) [
  | none ↦ (err (task_not_found task.task_id), d)
  | some current ↦
      if eqb current.version expected
      then (
        ok (next_version task expected bump),
        record d { tasks = insert task.task_id (next_version task expected bump) d.tasks },
      )
      else (err (version_conflict current.version expected), d)
]

-- `_save`
unfoldable pub save : Task → ℕ → Bool → M Task
save task expected bump = pause >> atomic (save_locked task expected bump)

abbrev found {ℓ} : {A : Type ℓ} → Option A → Bool
found none = false
found (some a) = true

abbrev pub remove_locked : String → Db → Result Bool × Db
remove_locked task_id d = (
  ok (found (lookup task_id d.tasks)),
  record d { tasks = erase task_id d.tasks; events = erase task_id d.events },
)

-- `_remove`
unfoldable pub remove : String → M Bool
remove task_id = pause >> atomic (remove_locked task_id)

pub record Query : Type 0 where
  pub kind : Option String
  pub status : Option TaskStatus
  pub owner_id : Option String
  pub idempotency_key : Option String
  pub limit : ℕ
  pub offset : ℕ

unfoldable pub matches : Query → Task → Bool
matches q t =
    allows q.kind (some t.kind)
    && allows_status q.status t.status
    && allows q.owner_id t.owner_id
    && allows q.idempotency_key t.idempotency_key

-- `rows.sort(key=lambda t: t.created_at, reverse=True)`: newest first, and stable.
unfoldable pub place : Task → List Task → List Task
place t [] = t ∷ []
place t (u ∷ us) =
    let rest = place t us in if ltb t.created_at u.created_at then u ∷ rest else t ∷ u ∷ us

unfoldable pub newest_first : List Task → List Task
unfolding place
newest_first [] = []
newest_first (t ∷ ts) = place t (newest_first ts)

unfoldable pub select : Query → Dict Task → List Task
unfolding matches newest_first
select q tasks = take q.limit (drop q.offset (newest_first (keep (matches q) (values tasks))))

-- `_query`
unfoldable pub query : Query → M (List Task)
query q = pause >> atomic (λ d. (ok (select q d.tasks), d))

abbrev pub bucket : String → Dict (List TaskEvent) → List TaskEvent
bucket task_id events = elim (lookup task_id events) [ none ↦ [] | some es ↦ es ]

abbrev pub next_event :
    String → String → Message → Dict (Option String) → ℕ → List TaskEvent → TaskEvent
next_event task_id type message payload at es = record {
  task_id = task_id;
  seq = length es + 1;
  at = at;
  type = type;
  message = message;
  payload = payload;
}

abbrev pub append_locked :
    String → String → Message → Dict (Option String) → Db → Result TaskEvent × Db
append_locked task_id type message payload d =
    let es = bucket task_id d.events in
    let event = next_event task_id type message payload d.clock es in
    (ok event, record d { events = insert task_id (es ++ event ∷ []) d.events })

-- `_append_event`
unfoldable pub append_event : String → String → Message → Dict (Option String) → M TaskEvent
append_event task_id type message payload =
    pause >> atomic (append_locked task_id type message payload)

-- `events`
unfoldable pub events : String → ℕ → M (List TaskEvent)
events task_id after_seq =
    pause
    >> atomic
        (λ d. (ok (keep (λ (e : TaskEvent). ltb after_seq e.seq) (bucket task_id d.events)), d))
