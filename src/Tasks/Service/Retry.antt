-- ===== src/Tasks/Service/Retry.antt =====
-- A manual retry, when nobody interrupts.
use comet_rag.Prelude.{
  ℕ, ◌+◌, String, ◌≡◌, ◌≢◌, refl, ap, ◌∙◌, Bool, true, false, none, some, ◌⊎◌, inl, inr, arith,
  if◌then◌else◌, Bool-cases, if-true, if-false,
}
use comet_rag.Dict.{lookup}
use comet_rag.Tasks.Status.{pending, failed, same, same_iff, value}
use comet_rag.Tasks.States.{can_transition}
use comet_rag.Tasks.Error.{value_error}
use comet_rag.Tasks.Models.{Task, text}
use comet_rag.Tasks.Models.Fields.{set_fields, setattr, is_immutable, is_unknown, is_resume_stage}
use comet_rag.Tasks.Effect.{Db, ok, err, M, raise, ◌>>◌}
use comet_rag.Tasks.Effect.Runs.{quiet, bind_returns}
use comet_rag.Tasks.Cas.{anchor_if_missing, check_fields, check_version, fill, require}
use comet_rag.Tasks.Store.{transition, moved, settle}
use comet_rag.Tasks.Store.Quiet.{
  require-quiet, transition-quiet, entering, logged, logged-lookup, entering-id,
}
use comet_rag.Tasks.Service.{TaskExecutor, retry_fields, retry_found, retry}

-- What a retry makes of a failed task.
pub record Reopened (reset_attempts from_scratch : Bool) (t u : Task) : Type 0 where
  pub status : u.status ≡ pending
  pub attempts : u.attempts ≡ (if reset_attempts then 0 else t.attempts)
  pub resume_stage : u.resume_stage ≡ (if from_scratch then none else fill t.resume_stage t.stage)
  pub error : u.error ≡ none
  pub worker_id : u.worker_id ≡ none
  pub finished_at : u.finished_at ≡ none
  pub history : u.stage_history ≡ t.stage_history
  pub context : u.context ≡ t.context
  pub version : u.version ≡ t.version + 1

entering-Reopened :
    (a b : Bool) (at : ℕ) (t : Task) → Reopened a b t (entering (retry_fields a b) pending at t)
unfolding moved settle set_fields setattr anchor_if_missing is_resume_stage
entering-Reopened true true at t = ground arith
entering-Reopened true false at t = ground arith
entering-Reopened false true at t = ground arith
entering-Reopened false false at t = ground arith

allowed : (a b : Bool) → check_fields (retry_fields a b) ≡ ok tt
unfolding check_fields is_immutable is_unknown
allowed true true = refl
allowed true false = refl
allowed false true = refl
allowed false false = refl

module _ (ex : TaskExecutor) (id : String) (d : Db) (t : Task) (found : lookup id d.tasks ≡ some t)
    (filed : t.task_id ≡ id) (reset_attempts from_scratch : Bool) where
  abbrev reopened : Task
  reopened = entering (retry_fields reset_attempts from_scratch) pending d.clock t

  abbrev reopened_db : Db
  reopened_db = logged id pending (some (text "人工重试")) t reopened d

  abbrev reopen : M Task
  reopen =
      transition id pending none (some (text "人工重试")) (retry_fields reset_attempts from_scratch)
      >> (ex.submit id >> require id)

  reopen-quiet :
      (e : Db)
      → t.status ≡ failed
      → ex.submit id (quiet reopened_db) ≡ (ok tt, quiet e)
      → lookup id e.tasks ≡ some reopened
      → reopen (quiet d) ≡ (ok reopened, quiet e)
  unfolding check_version can_transition
  reopen-quiet e lost submits there =
      let fields = retry_fields reset_attempts from_scratch in
      let label = some (text "人工重试") in
      bind_returns (transition id pending none label fields) (λ _. ex.submit id >> require id)
        (quiet d) (quiet reopened_db) reopened
        (transition-quiet id pending none label fields d t found
          (allowed reset_attempts from_scratch) filed refl
          (ap (λ s. can_transition s pending) lost))
      ∙ bind_returns (ex.submit id) (λ _. require id) (quiet reopened_db) (quiet e) tt submits
      ∙ require-quiet id e reopened there

  reopened-lookup : lookup id reopened_db.tasks ≡ some reopened
  reopened-lookup = logged-lookup id pending (some (text "人工重试")) t reopened d (
      entering-id (retry_fields reset_attempts from_scratch) pending d.clock t
        (allowed reset_attempts from_scratch)
      ∙ filed)

  retry-found :
      retry ex id reset_attempts from_scratch (quiet d)
      ≡ (if same t.status failed then reopen else raise (value_error (value t.status))) (quiet d)
  unfolding retry retry_found
  retry-found =
      bind_returns (require id) (retry_found ex id reset_attempts from_scratch) (quiet d) (quiet d)
        t (require-quiet id d t found)

  -- Nobody interrupts, and the executor's `submit` returns and does not touch the task. A retry of
  -- a FAILED task returns it reopened: PENDING, with no error, worker or finish, no attempts or as
  -- many as before, no stage to go on from or the one that it failed in, its stage records and
  -- context as they were, and one version on; it is stored so, and then submitted. A retry of a
  -- task in any other status raises a ValueError that names it, and changes and submits nothing.
  pub retry-Reopened :
      (effect : Db → Db)
      → ((e : Db) → ex.submit id (quiet e) ≡ (ok tt, quiet (effect e)))
      → ((e : Db) → lookup id (effect e).tasks ≡ lookup id e.tasks)
      → ((t.status ≡ failed)
          × (u : Task) × (e : Db) × (lookup id e.tasks ≡ some u)
          × Reopened reset_attempts from_scratch t u
          × (retry ex id reset_attempts from_scratch (quiet d) ≡ (ok u, quiet (effect e))))
        ⊎ ((t.status ≢ failed)
            × (retry ex id reset_attempts from_scratch (quiet d)
                ≡ (err (value_error (value t.status)), quiet d)))
  unfolding raise
  retry-Reopened effect submits keeps = elim (Bool-cases (same t.status failed)) [
    | inl y ↦
        let lost = (same_iff t.status failed).0 y in
        inl (
          lost,
          reopened,
          reopened_db,
          reopened-lookup,
          entering-Reopened reset_attempts from_scratch d.clock t,
          retry-found
              ∙ ap (λ m. m (quiet d)) (if-true (same t.status failed) reopen _ y)
              ∙ reopen-quiet (effect reopened_db) lost (submits reopened_db)
                  (keeps reopened_db ∙ reopened-lookup),
        )
    | inr n ↦ inr (
      λ lost. let y = (same_iff t.status failed).1 lost in absurd (cc),
      retry-found ∙ ap (λ m. m (quiet d)) (if-false (same t.status failed) reopen _ n),
    )
  ]
