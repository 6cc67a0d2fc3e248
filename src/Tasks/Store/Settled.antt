-- ===== src/Tasks/Store/Settled.antt =====
-- What a record looks like once its status has been changed.
use comet_rag.Prelude.{
  ℕ, String, ◌≡◌, ◌≢◌, refl, sym, subst, true, false, Option, none, some, List, [], ◌∷◌, arith,
  if◌then◌else◌, any,
}
use comet_rag.Tasks.Status.{
  TaskStatus, pending, running, cancelling, succeeded, failed, cancelled, is_terminal,
}
use comet_rag.Tasks.Models.{Task, TaskError, StageRecord, Message}
use comet_rag.Tasks.Models.Fields.{Field, is_resume_stage, set_fields}
use comet_rag.Tasks.Effect.{World, ok}
use comet_rag.Tasks.Cas.{close_stage, close_last, anchor_if_missing, fill}
use comet_rag.Tasks.Store.{finish_with, transition, moved, settle, close_failed}
use comet_rag.Tasks.Store.Returns.{transition-eq-ok}

-- A list of stage records whose last one is not open any more.
abbrev pub IsClosed : List StageRecord → Type 0
IsClosed [] = Unit {0}
IsClosed (r ∷ []) = r.finished_at ≢ none
IsClosed (r ∷ s ∷ rs) = IsClosed (s ∷ rs)

close_last-IsClosed :
    (at : ℕ) (status : String) (rs : List StageRecord) → IsClosed (close_last at status rs)
unfolding close_last
close_last-IsClosed at status [] = tt
close_last-IsClosed at status (r ∷ []) = ground arith
close_last-IsClosed at status (r ∷ s ∷ []) = close_last-IsClosed at status (s ∷ [])
close_last-IsClosed at status (r ∷ s ∷ s' ∷ rs) = close_last-IsClosed at status (s ∷ s' ∷ rs)

-- What `transition` writes besides the status asked for.
pub record Settled (to : TaskStatus) (u : Task) : Type 0 where
  pub status : u.status ≡ to
  pub ended : is_terminal to ≡ true → (u.finished_at ≡ some u.updated_at) × (u.heartbeat_at ≡ none)
  pub closed : is_terminal to ≡ true → IsClosed u.stage_history
  pub started :
      to ≡ running
      → (u.heartbeat_at ≡ some u.updated_at) × (u.finished_at ≡ none) × (u.started_at ≢ none)
  pub queued :
      to ≡ pending → (u.finished_at ≡ none) × (u.heartbeat_at ≡ none) × (u.worker_id ≡ none)
  pub progress : to ≡ succeeded → u.progress ≡ record { num = 1; den = 1 }

anchor-Settled :
    (fs : List Field) (to : TaskStatus) (t : Task)
    → Settled to t
    → Settled to (anchor_if_missing fs t)
unfolding anchor_if_missing
anchor-Settled fs to t s =
    elim (any is_resume_stage fs)
      as (λ b.
        Settled to (if b then t else record t { resume_stage = fill t.resume_stage t.stage })) [
          | true ↦ s
          | false ↦ record {
            status = s.status;
            ended = s.ended;
            closed = s.closed;
            started = s.started;
            queued = s.queued;
            progress = s.progress;
          }
        ]

close_failed-Settled :
    (e : Option TaskError) (at : ℕ) (t : Task)
    → Settled pending t
    → Settled pending (close_failed e at t)
unfolding is_terminal close_stage
close_failed-Settled none at t s = s
close_failed-Settled (some e) at t s = record {
  status = s.status;
  ended = λ h. cc;
  closed = λ h. absurd (cc);
  started = λ h. absurd (cc);
  queued = s.queued;
  progress = λ h. cc;
}

pub moved-Settled :
    (fs : List Field) (to : TaskStatus) (at : ℕ) (t : Task) → Settled to (moved fs to at t)
unfolding moved settle close_stage is_terminal
moved-Settled fs pending at t =
    let v : Task = record (set_fields fs t) { status = pending; updated_at = at } in
    let u : Task = record v { finished_at = none; heartbeat_at = none; worker_id = none } in
    let s : Settled pending u = record {
      status = refl;
      ended = λ h. absurd (cc);
      closed = λ h. absurd (cc);
      started = λ h. absurd (cc);
      queued = λ h. (refl, refl, refl);
      progress = λ h. absurd (cc);
    } in
    anchor-Settled fs pending (close_failed v.error at u) (close_failed-Settled v.error at u s)
moved-Settled fs running at t = record {
  status = refl;
  ended = λ h. absurd (cc);
  closed = λ h. absurd (cc);
  started = λ h. (refl, refl, ground arith);
  queued = λ h. absurd (cc);
  progress = λ h. cc;
}
moved-Settled fs cancelling at t = record {
  status = refl;
  ended = λ h. absurd (cc);
  closed = λ h. absurd (cc);
  started = λ h. absurd (cc);
  queued = λ h. absurd (cc);
  progress = λ h. cc;
}
moved-Settled fs succeeded at t = record {
  status = refl;
  ended = λ h. (refl, refl);
  closed = λ h. close_last-IsClosed at "succeeded" (set_fields fs t).stage_history;
  started = λ h. absurd (cc);
  queued = λ h. absurd (cc);
  progress = λ h. refl;
}
moved-Settled fs failed at t =
    let u : Task =
      finish_with at "failed" (record (set_fields fs t) { status = failed; updated_at = at }) in
    let s : Settled failed u = record {
      status = refl;
      ended = λ h. (refl, refl);
      closed = λ h. close_last-IsClosed at "failed" (set_fields fs t).stage_history;
      started = λ h. absurd (cc);
      queued = λ h. absurd (cc);
      progress = λ h. absurd (cc);
    } in
    anchor-Settled fs failed u s
moved-Settled fs cancelled at t = record {
  status = refl;
  ended = λ h. (refl, refl);
  closed = λ h. close_last-IsClosed at "cancelled" (set_fields fs t).stage_history;
  started = λ h. absurd (cc);
  queued = λ h. absurd (cc);
  progress = λ h. cc;
}

-- Whatever the others did meanwhile, a change of status that returns hands back a record with the
-- status asked for; if that is terminal, it is finished at the time of the update, has no
-- heartbeat, and its last stage is not open; if it is RUNNING, it has a heartbeat and a start and
-- no finish; if it is PENDING, it has no finish, no heartbeat and no worker; and if it is
-- SUCCEEDED, its progress is whole.
pub transition-Settled :
    (id : String) (to : TaskStatus) (expected : Option ℕ) (label : Option Message) (fs : List Field)
    (w : World) (r : Task)
    → (transition id to expected label fs w).0 ≡ ok r
    → Settled to r
transition-Settled id to expected label fs w r h =
    let (t, at, allowed, legal, e) = transition-eq-ok id to expected label fs w r h in
    let s = moved-Settled fs to at t in
    subst (Settled to) (sym e) (record {
      status = s.status;
      ended = s.ended;
      closed = s.closed;
      started = s.started;
      queued = s.queued;
      progress = s.progress;
    })
