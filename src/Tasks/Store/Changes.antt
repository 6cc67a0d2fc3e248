-- ===== src/Tasks/Store/Changes.antt =====
-- The changes that the methods of `TaskStore` hand to `_cas` keep identity and version, and change
-- the status by the table only.
use comet_rag.Prelude.{
  ℕ, String, ◌≡◌, refl, ◌∙◌, Bool, true, false, Option, none, some, List, arith, any,
}
use comet_rag.Tasks.Status.{TaskStatus, pending, failed}
use comet_rag.Tasks.States.{can_transition}
use comet_rag.Tasks.States.Reach.{here, next, Reach-eq}
use comet_rag.Tasks.Models.{Task, TaskError}
use comet_rag.Tasks.Models.Fields.{Field, set_fields-Fixed, is_immutable, set_fields}
use comet_rag.Tasks.Effect.{Result, ok}
use comet_rag.Tasks.Cas.{check_fields, anchor_if_missing, close_stage}
use comet_rag.Tasks.Store.{updated, guarded_move, moved, settle, entered, close_failed}
use comet_rag.Tasks.Store.Primitives.{Follows}
use comet_rag.Tasks.Store.Loop.{Lawful}

-- Two records with one identity, status and version.
pub record Alike (t u : Task) : Type 0 where
  pub task_id : u.task_id ≡ t.task_id
  pub status : u.status ≡ t.status
  pub version : u.version ≡ t.version

pub check_fields-eq-ok :
    (fs : List Field) (x : Unit {0}) → check_fields fs ≡ ok x → any is_immutable fs ≡ false
unfolding check_fields
check_fields-eq-ok fs x h = ground arith

anchor-Alike : (fs : List Field) (t : Task) → Alike t (anchor_if_missing fs t)
unfolding anchor_if_missing
anchor-Alike fs t = ground arith

close_failed-Alike : (e : Option TaskError) (at : ℕ) (t : Task) → Alike t (close_failed e at t)
unfolding close_stage
close_failed-Alike none at t = record { task_id = refl; status = refl; version = refl }
close_failed-Alike (some e) at t = record { task_id = refl; status = refl; version = refl }

settle-Alike : (fs : List Field) (at : ℕ) (s : TaskStatus) (t : Task) → Alike t (settle fs at s t)
unfolding settle close_stage
settle-Alike fs at pending t =
    let u : Task = record t { finished_at = none; heartbeat_at = none; worker_id = none } in
    let a = close_failed-Alike t.error at u in
    let b = anchor-Alike fs (close_failed t.error at u) in
    record {
      task_id = b.task_id ∙ a.task_id;
      status = b.status ∙ a.status;
      version = b.version ∙ a.version;
    }
settle-Alike fs at failed t =
    let b = anchor-Alike fs _ in
    record { task_id = b.task_id; status = b.status; version = b.version }
settle-Alike fs at s t = record { task_id = refl; status = refl; version = refl }

Alike-Follows : (bump : Bool) {t u : Task} → Alike t u → Follows bump t u
Alike-Follows bump a = record {
  version = a.version;
  path = Reach-eq a.status;
  at_rest = λ k. a.status;
}

-- A change that never raises and leaves identity, status and version alone.
pub Alike-Lawful :
    (bump : Bool) (change : ℕ → Task → Task)
    → ((at : ℕ) (t : Task) → Alike t (change at t))
    → Lawful bump (λ at t. ok (change at t, tt))
Alike-Lawful bump change a = record {
  follows = λ at t u e made. Alike-Follows bump (same_change at t u e made);
  task_id = λ at t u e made. (same_change at t u e made).task_id;
}
  where
    same_change :
        (at : ℕ) (t u : Task) (e : Unit {0})
        → ◌≡◌ {A = Result (Task × Unit {0})} (ok (change at t, tt)) (ok (u, e))
        → Alike t u
    same_change at t u e made = let x : change at t ≡ u = cc in rw x at (a at t)

pub updated-Alike :
    (fs : List Field)
    → any is_immutable fs ≡ false
    → (at : ℕ) (t : Task) → Alike t (updated fs at t)
unfolding updated
updated-Alike fs h at t =
    let x = set_fields-Fixed fs t h in
    record { task_id = x.task_id; status = x.status; version = x.version }

pub entered-Alike :
    (stage : String) (fs : List Field)
    → any is_immutable fs ≡ false
    → (at : ℕ) (t : Task) → Alike t (entered stage fs at t)
unfolding entered close_stage
entered-Alike stage fs h at t =
    let x = set_fields-Fixed fs _ h in
    record { task_id = x.task_id; status = x.status; version = x.version }

pub moved-id :
    (fs : List Field) (to : TaskStatus) (at : ℕ) (t : Task)
    → any is_immutable fs ≡ false
    → ((moved fs to at t).task_id ≡ t.task_id)
      × ((moved fs to at t).version ≡ t.version)
      × ((moved fs to at t).status ≡ to)
unfolding moved
moved-id fs to at t h =
    let x = set_fields-Fixed fs t h in
    let a = settle-Alike fs at to (record (set_fields fs t) { status = to; updated_at = at }) in
    (a.task_id ∙ x.task_id, a.version ∙ x.version, a.status)

pub guarded_move-eq-ok :
    (fs : List Field) (to : TaskStatus) (at : ℕ) (t u : Task) (frm : TaskStatus)
    → guarded_move fs to at t ≡ ok (u, frm)
    → (can_transition t.status to ≡ true) × (moved fs to at t ≡ u)
unfolding guarded_move
guarded_move-eq-ok fs to at t u frm h = ground arith

pub guarded_move-Lawful :
    (fs : List Field) (to : TaskStatus)
    → any is_immutable fs ≡ false
    → Lawful true (guarded_move fs to)
guarded_move-Lawful fs to h = record {
  follows = λ at t u e made.
      let (legal, same_task) = guarded_move-eq-ok fs to at t u e made in
      let x = moved-id fs to at t h in
      record {
        version = rw (← same_task) x.1;
        path = rw (← same_task, x.2) (next here legal);
        at_rest = λ k. cc;
      };
  task_id = λ at t u e made.
      let (legal, same_task) = guarded_move-eq-ok fs to at t u e made in
      rw (← same_task) (moved-id fs to at t h).0;
}
