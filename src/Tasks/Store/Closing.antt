-- ===== src/Tasks/Store/Closing.antt =====
-- The stage records of a task whose status changes.
use comet_rag.Prelude.{
  ℕ, String, ◌≡◌, ◌≢◌, refl, sym, ap, subst, ◌∙◌, true, Option, none, some, List, [], ◌∷◌, ◌++◌,
  ◌⊎◌, inl, inr, arith,
}
use comet_rag.Dict.{lookup}
use comet_rag.Tasks.Status.{TaskStatus, pending, running, cancelling, succeeded, failed, cancelled}
use comet_rag.Tasks.States.{can_transition}
use comet_rag.Tasks.Models.{Task, TaskError, StageRecord, Message}
use comet_rag.Tasks.Models.Fields.{Field, set_fields}
use comet_rag.Tasks.Effect.{Db, ok}
use comet_rag.Tasks.Effect.Runs.{quiet}
use comet_rag.Tasks.Cas.{
  check_fields, check_version, close_record, close_last, close_stage, anchor_if_missing,
}
use comet_rag.Tasks.Store.{transition, moved, settle, finish_with, close_failed}
use comet_rag.Tasks.Store.Quiet.{transition-quiet, entering, logged-lookup, entering-id}

-- The word with which a task that enters a status ends its open stage, by the error that it has
-- then; none where the stage goes on.
abbrev pub last_word : TaskStatus → Option TaskError → Option String
last_word pending none = none
last_word pending (some e) = some "failed"
last_word running e = none
last_word cancelling e = none
last_word succeeded e = some "succeeded"
last_word failed e = some "failed"
last_word cancelled e = some "cancelled"

-- The record is as it was if it was closed, and else it is closed now with the word.
abbrev pub Ends : ℕ → String → StageRecord → StageRecord → Type 0
Ends at word r s =
    ((r.finished_at ≢ none) × (s ≡ r))
    ⊎ ((r.finished_at ≡ none) × (s ≡ record r { finished_at = some at; status = word }))

-- All but the last record are as they were, and the last one has ended, if there is a word for it.
abbrev pub Closes : Option String → ℕ → List StageRecord → List StageRecord → Type 0
Closes none at old new = new ≡ old
Closes (some word) at old new =
    ((old ≡ []) × (new ≡ []))
    ⊎ ((front : List StageRecord) × (r : StageRecord) × (s : StageRecord) × (old ≡ front ++ r ∷ [])
        × (new ≡ front ++ s ∷ [])
        × Ends at word r s)

close_record-Ends :
    (at : ℕ) (word : String) (r : StageRecord) → Ends at word r (close_record at word r)
unfolding close_record
close_record-Ends at word r = go r.finished_at refl
  where
    go : (o : Option ℕ) → r.finished_at ≡ o → Ends at word r (close_record at word r)
    go none e = inr (e, rw e)
    go (some n) e = inl (λ h. absurd (cc), rw e)

close_last-Closes :
    (at : ℕ) (word : String) (rs : List StageRecord)
    → Closes (some word) at rs (close_last at word rs)
unfolding close_last
close_last-Closes at word [] = inl (refl, refl)
close_last-Closes at word (r ∷ []) =
    inr ([], r, close_record at word r, refl, refl, close_record-Ends at word r)
close_last-Closes at word (r ∷ s ∷ rs) = elim (close_last-Closes at word (s ∷ rs)) [
  | inl (e, f) ↦ absurd (cc)
  | inr (front, x, y, old, new, ends) ↦ inr (r ∷ front, x, y, ap (◌∷◌ r) old, ap (◌∷◌ r) new, ends)
]

anchor-history :
    (fs : List Field) (t : Task) → (anchor_if_missing fs t).stage_history ≡ t.stage_history
unfolding anchor_if_missing
anchor-history fs t = ground arith

close_failed-Closes :
    (e : Option TaskError) (at : ℕ) (t : Task)
    → Closes (last_word pending e) at t.stage_history (close_failed e at t).stage_history
unfolding close_stage
close_failed-Closes none at t = refl
close_failed-Closes (some e) at t = close_last-Closes at "failed" t.stage_history

moved-Closes :
    (fs : List Field) (to : TaskStatus) (at : ℕ) (t : Task)
    → let u = set_fields fs t in
      Closes (last_word to u.error) at u.stage_history (moved fs to at t).stage_history
unfolding moved settle close_stage
moved-Closes fs pending at t =
    let u = set_fields fs t in
    let v : Task = record u {
      status = pending;
      updated_at = at;
      finished_at = none;
      heartbeat_at = none;
      worker_id = none;
    } in
    subst (Closes (last_word pending u.error) at u.stage_history)
      (sym (anchor-history fs (close_failed u.error at v))) (close_failed-Closes u.error at v)
moved-Closes fs running at t = refl
moved-Closes fs cancelling at t = refl
moved-Closes fs succeeded at t = close_last-Closes at "succeeded" (set_fields fs t).stage_history
moved-Closes fs failed at t =
    let u = set_fields fs t in
    subst (Closes (some "failed") at u.stage_history)
      (sym (
        anchor-history fs
          (finish_with at "failed" (record u { status = failed; updated_at = at }))))
      (close_last-Closes at "failed" u.stage_history)
moved-Closes fs cancelled at t = close_last-Closes at "cancelled" (set_fields fs t).stage_history

-- Nobody interrupts. A change of status by the table, of a stored task, of the version asked for,
-- with fields that may be set, returns and stores a record in which the stage records are those
-- that the fields leave, but for the last one. That is closed at this time, if it was open: as
-- "succeeded", "failed" or "cancelled" for these statuses, and as "failed" for PENDING if the task
-- has an error then. For PENDING without an error, RUNNING and CANCELLING it is as it was.
pub transition-Closes :
    (id : String) (to : TaskStatus) (expected : Option ℕ) (label : Option Message) (fs : List Field)
    (d : Db) (t : Task)
    → lookup id d.tasks ≡ some t
    → t.task_id ≡ id
    → check_fields fs ≡ ok tt
    → check_version t expected ≡ ok tt
    → can_transition t.status to ≡ true
    → let v = set_fields fs t in
      let r = transition id to expected label fs (quiet d) in
      (u : Task) × (r.0 ≡ ok u)
      × (lookup id r.1.db.tasks ≡ some u)
      × Closes (last_word to v.error) d.clock v.stage_history u.stage_history
transition-Closes id to expected label fs d t found filed allowed checked legal =
    let r = transition-quiet id to expected label fs d t found allowed filed checked legal in
    let u = entering fs to d.clock t in
    (
      u,
      ap (λ x. x.0) r,
      ap (λ x. lookup id x.1.db.tasks) r
          ∙ logged-lookup id to label t u d (entering-id fs to d.clock t allowed ∙ filed),
      moved-Closes fs to d.clock t,
    )
