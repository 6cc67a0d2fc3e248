-- ===== src/Tasks/Cas.antt =====
-- What the methods of `TaskStore` in comet_rag/tasks/store.py share: the checks of arguments, the
-- stage records, and the compare-and-set loop `_cas`. The texts of `ValueError` are
-- shortened to the test that failed.
use comet_rag.Prelude.{
  ℕ, zero, suc, String, Bool, Option, none, some, List, [], ◌∷◌, eqb, if◌then◌else◌, any,
}
use comet_rag.Tasks.Error.{Error, task_not_found, version_conflict, value_error, runtime_error}
use comet_rag.Tasks.Models.{Task, StageRecord}
use comet_rag.Tasks.Models.Fields.{Field, is_immutable, is_unknown, is_resume_stage}
use comet_rag.Tasks.Effect.{Result, ok, err, M, pure, raise, lift, now, attempt, ◌>>=◌, ◌>>◌}
use comet_rag.Tasks.Memory.{load, save}

-- `_check_fields`
unfoldable pub check_fields : List Field → Result (Unit {0})
unfolding is_immutable is_unknown
check_fields fs =
    if any is_immutable fs
    then err (value_error "immutable")
    else if any is_unknown fs
    then err (value_error "unknown")
    else ok tt

-- `_check_version`
unfoldable pub check_version : Task → Option ℕ → Result (Unit {0})
check_version task none = ok tt
check_version task (some expected) =
    if eqb expected task.version then ok tt else err (version_conflict task.version expected)

unfoldable pub close_record : ℕ → String → StageRecord → StageRecord
close_record at status r = elim r.finished_at [
  | none ↦ record r { finished_at = some at; status = status }
  | some _ ↦ r
]

unfoldable pub close_last : ℕ → String → List StageRecord → List StageRecord
unfolding close_record
close_last at status [] = []
close_last at status (r ∷ []) = close_record at status r ∷ []
close_last at status (r ∷ s ∷ rs) = r ∷ close_last at status (s ∷ rs)

-- `_close_stage`
unfoldable pub close_stage : ℕ → String → Task → Task
unfolding close_last
close_stage at status t = record t { stage_history = close_last at status t.stage_history }

abbrev pub fill : Option String → Option String → Option String
fill none s = s
fill (some r) s = some r

-- `_anchor_if_missing`
unfoldable pub anchor_if_missing : List Field → Task → Task
unfolding is_resume_stage
anchor_if_missing fields t =
    if any is_resume_stage fields
    then t
    else record t { resume_stage = fill t.resume_stage t.stage }

unfoldable pub require : String → M Task
require task_id = do
  found ← load task_id
  elim found [ none ↦ raise (task_not_found task_id) | some task ↦ pure task ]

-- A conflict goes back to the caller that named a version, and is tried again for one that did not.
abbrev pub on_conflict : {A : Type 0} → Option ℕ → M A → Error → M A
on_conflict expected again (version_conflict v e) = elim expected [
  | some _ ↦ raise (version_conflict v e)
  | none ↦ again
]
on_conflict expected again e = raise e

-- The loop of `_cas`, on the rounds that are left. `last` is `conflict`.
unfoldable pub cas_rounds :
    {E : Type 0}
    → ℕ
    → Error
    → String
    → Option ℕ
    → (ℕ → Task → Result (Task × E))
    → Bool
    → M (Task × E)
unfolding check_version require
cas_rounds zero last task_id expected mutate bump = raise last
cas_rounds (suc n) last task_id expected mutate bump = do
  task ← require task_id
  lift (check_version task expected)
  at ← now
  changed ← lift (mutate at task)
  attempt (save changed.0 changed.0.version bump) (λ saved. pure (saved, changed.1))
      (λ e. on_conflict expected (cas_rounds n e task_id expected mutate bump) e)

abbrev pub cas_retries : ℕ
cas_retries = 5

-- `_cas`
unfoldable pub cas :
    {E : Type 0} → String → Option ℕ → (ℕ → Task → Result (Task × E)) → Bool → M (Task × E)
cas = cas_rounds cas_retries (runtime_error "no conflict")
