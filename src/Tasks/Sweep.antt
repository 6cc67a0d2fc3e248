-- ===== src/Tasks/Sweep.antt =====
-- The recovery of tasks whose worker has gone: `sweep_stale`, `_stale_candidates` and `_reclaim`
-- of comet_rag/tasks/store.py. A lease is a number of ticks.
pub mod Legal
use comet_rag.Prelude.{
  ℕ, ◌+◌, String, Bool, true, false, Option, none, some, List, [], ◌∷◌, ◌++◌, ltb, if◌then◌else◌,
  keep,
}
use comet_rag.Tasks.Status.{TaskStatus, pending, running, cancelling, failed, cancelled, same}
use comet_rag.Tasks.Error.{Error, task_not_found, version_conflict, invalid_transition}
use comet_rag.Tasks.Models.{Task, TaskError, text}
use comet_rag.Tasks.Models.Fields
use comet_rag.Tasks.Effect.{M, pure, raise, now, attempt, ◌>>=◌}
use comet_rag.Tasks.Memory.{Query, query}
use comet_rag.Tasks.Store.{transition}

abbrev either : Option ℕ → Option ℕ → ℕ → ℕ
either (some a) b c = a
either none (some b) c = b
either none none c = c

-- `task.heartbeat_at or task.started_at or task.updated_at`
unfoldable pub last_beat : Task → ℕ
last_beat t = either t.heartbeat_at t.started_at t.updated_at

-- `now - beat > lease`
unfoldable pub is_stale : ℕ → ℕ → Task → Bool
unfolding last_beat
is_stale lease at t = ltb (last_beat t + lease) at

abbrev with_status : TaskStatus → Query
with_status s = record {
  kind = none;
  status = some s;
  owner_id = none;
  idempotency_key = none;
  limit = 1000;
  offset = 0;
}

-- `_stale_candidates`
unfoldable pub stale_candidates : ℕ → ℕ → M (List Task)
unfolding is_stale
stale_candidates lease at = do
  runs ← query (with_status running)
  stops ← query (with_status cancelling)
  pure (keep (is_stale lease at) runs ++ keep (is_stale lease at) stops)

abbrev lost_while_cancelling : ℕ → TaskError
lost_while_cancelling at = record {
  code = "cancelled_lease_expired";
  message = text "worker 在处理取消的过程中失联";
  retriable = false;
  detail = none;
  at = at;
}

abbrev lease_expired : ℕ → TaskError
lease_expired at = record {
  code = "lease_expired";
  message = text "worker 心跳超时";
  retriable = true;
  detail = none;
  at = at;
}

abbrev reclaim_at : Task → ℕ → M Task
reclaim_at task at =
    if same task.status cancelling
    then transition task.task_id cancelled none (some (text "租约过期（取消中）"))
        (Fields.error (some (lost_while_cancelling at)) ∷ [])
    else transition task.task_id (if ltb task.attempts task.max_attempts then pending else failed)
        none (some (text "租约过期")) (Fields.error (some (lease_expired at)) ∷ [])

-- `_reclaim`, by the snapshot of the candidate
unfoldable pub reclaim : Task → M Task
reclaim task = now >>= reclaim_at task

-- The races that a sweep passes over.
unfoldable pub is_race : Error → Bool
is_race (invalid_transition a b) = true
is_race (task_not_found id) = true
is_race (version_conflict v e) = true
is_race e = false

-- The loop of `sweep_stale`; `revived` is in the order of the candidates.
unfoldable pub sweep : List Task → List String → M (List String)
unfolding is_race
sweep [] revived = pure revived
sweep (task ∷ rest) revived =
    attempt (reclaim task) (λ _. sweep rest (revived ++ task.task_id ∷ []))
      (λ e. elim (is_race e) [ true ↦ sweep rest revived | false ↦ raise e ])

-- `sweep_stale`
unfoldable pub sweep_stale : ℕ → M (List String)
sweep_stale lease = do at ← now; candidates ← stale_candidates lease at; sweep candidates []
