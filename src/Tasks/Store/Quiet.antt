-- ===== src/Tasks/Store/Quiet.antt =====
-- The methods of `TaskStore` when nobody interrupts them: what they return and write, on every
-- branch.
use comet_rag.Prelude.{
  ℕ, String, ◌≡◌, sym, ap, ◌∙◌, Bool, true, false, Option, none, some, List, [], ◌∷◌, arith, eqb,
  eq_refl,
}
use comet_rag.Dict.{Dict, lookup, insert, lookup-insert}
use comet_rag.Tasks.Status.{TaskStatus, value}
use comet_rag.Tasks.States.{can_transition}
use comet_rag.Tasks.Error.{Error, task_not_found, invalid_transition}
use comet_rag.Tasks.Models.{Task, Message, transition_note}
use comet_rag.Tasks.Models.Fields.{Field}
use comet_rag.Tasks.Effect.{Db, Result, ok, err, pure, raise, lift, now}
use comet_rag.Tasks.Effect.Runs.{
  quiet, bind_returns, bind_raises, attempt_returns, lift_lem, atomic-quiet, now_lem,
}
use comet_rag.Tasks.Memory.{load, save, save_locked, next_version, append_event, append_locked}
use comet_rag.Tasks.Cas.{check_fields, check_version, require, cas_rounds, cas}
use comet_rag.Tasks.Store.{transition, guarded_move, moved}
use comet_rag.Tasks.Store.Changes.{moved-id, check_fields-eq-ok}

pub load-quiet : (id : String) (d : Db) → load id (quiet d) ≡ (ok (lookup id d.tasks), quiet d)
unfolding load
load-quiet id d = atomic-quiet _ d

pub require-quiet :
    (id : String) (d : Db) (t : Task)
    → lookup id d.tasks ≡ some t
    → require id (quiet d) ≡ (ok t, quiet d)
unfolding require pure
require-quiet id d t found =
    bind_returns (load id) _ (quiet d) (quiet d) (some t)
      (load-quiet id d ∙ ap (λ o. (ok o, quiet d)) found)

pub require-missing :
    (id : String) (d : Db)
    → lookup id d.tasks ≡ none
    → require id (quiet d) ≡ (err (task_not_found id), quiet d)
unfolding require raise
require-missing id d found =
    bind_returns (load id) _ (quiet d) (quiet d) none
      (load-quiet id d ∙ ap (λ o. (ok o, quiet d)) found)

abbrev pub with_task : Db → Task → Db
with_task d u = record d { tasks = insert u.task_id u d.tasks }

save_locked-quiet :
    (u c : Task) (bump : Bool) (d : Db)
    → lookup u.task_id d.tasks ≡ some c
    → c.version ≡ u.version
    → save_locked u u.version bump d
      ≡ (ok (next_version u u.version bump), with_task d (next_version u u.version bump))
save_locked-quiet u c bump d found e =
    let hit : eqb c.version u.version ≡ true = ground arith in rw (found, save_locked, hit)

pub save-quiet :
    (u c : Task) (bump : Bool) (d : Db)
    → lookup u.task_id d.tasks ≡ some c
    → c.version ≡ u.version
    → save u u.version bump (quiet d)
      ≡ (ok (next_version u u.version bump), quiet (with_task d (next_version u u.version bump)))
unfolding save
save-quiet u c bump d found e =
    atomic-quiet _ d ∙ ap (λ r. (r.0, quiet r.1)) (save_locked-quiet u c bump d found e)

pub append-quiet :
    (id type : String) (m : Message) (payload : Dict (Option String)) (d : Db)
    → append_event id type m payload (quiet d)
      ≡ ((append_locked id type m payload d).0, quiet (append_locked id type m payload d).1)
unfolding append_event
append-quiet id type m payload d = atomic-quiet _ d

guarded_move-legal :
    (fs : List Field) (to : TaskStatus) (at : ℕ) (t : Task)
    → can_transition t.status to ≡ true
    → guarded_move fs to at t ≡ ok (moved fs to at t, t.status)
unfolding guarded_move
guarded_move-legal fs to at t h = rw h

guarded_move-illegal :
    (fs : List Field) (to : TaskStatus) (at : ℕ) (t : Task)
    → can_transition t.status to ≡ false
    → guarded_move fs to at t ≡ err (invalid_transition t.status to)
unfolding guarded_move
guarded_move-illegal fs to at t h = rw h

module _ (E : Type 0) (id : String) (expected : Option ℕ) (mutate : ℕ → Task → Result (Task × E))
    (bump : Bool) (d : Db) (t : Task) (found : lookup id d.tasks ≡ some t) where
  pub cas-quiet :
      (u : Task) (e : E)
      → check_version t expected ≡ ok tt
      → mutate d.clock t ≡ ok (u, e)
      → lookup u.task_id d.tasks ≡ some t
      → t.version ≡ u.version
      → cas id expected mutate bump (quiet d) ≡ (
        ok (next_version u u.version bump, e),
        quiet (with_task d (next_version u u.version bump)),
      )
  unfolding cas cas_rounds pure
  cas-quiet u e checked made under version =
      bind_returns (require id) _ (quiet d) (quiet d) t (require-quiet id d t found)
      ∙ bind_returns (lift (check_version t expected)) _ (quiet d) (quiet d) tt
          (lift_lem _ _ ∙ ap (λ r. (r, quiet d)) checked)
      ∙ bind_returns now _ (quiet d) (quiet d) d.clock (now_lem _)
      ∙ bind_returns (lift (mutate d.clock t)) _ (quiet d) (quiet d) (u, e)
          (lift_lem _ _ ∙ ap (λ r. (r, quiet d)) made)
      ∙ attempt_returns (save u u.version bump) (λ saved. pure (saved, e)) _ (quiet d)
          (quiet (with_task d (next_version u u.version bump))) (next_version u u.version bump)
          (save-quiet u t bump d under version)

  pub cas_refused :
      (x : Error)
      → check_version t expected ≡ ok tt
      → mutate d.clock t ≡ err x
      → cas id expected mutate bump (quiet d) ≡ (err x, quiet d)
  unfolding cas cas_rounds
  cas_refused x checked made =
      bind_returns (require id) _ (quiet d) (quiet d) t (require-quiet id d t found)
      ∙ bind_returns (lift (check_version t expected)) _ (quiet d) (quiet d) tt
          (lift_lem _ _ ∙ ap (λ r. (r, quiet d)) checked)
      ∙ bind_returns now _ (quiet d) (quiet d) d.clock (now_lem _)
      ∙ bind_raises (lift (mutate d.clock t)) _ (quiet d) (quiet d) x
          (lift_lem _ _ ∙ ap (λ r. (r, quiet d)) made)

  pub cas_conflict :
      (x : Error)
      → check_version t expected ≡ err x
      → cas id expected mutate bump (quiet d) ≡ (err x, quiet d)
  unfolding cas cas_rounds
  cas_conflict x checked =
      bind_returns (require id) _ (quiet d) (quiet d) t (require-quiet id d t found)
      ∙ bind_raises (lift (check_version t expected)) _ (quiet d) (quiet d) x
          (lift_lem _ _ ∙ ap (λ r. (r, quiet d)) checked)

abbrev pub label_or : Option Message → TaskStatus → TaskStatus → Message
label_or label frm to = elim label [ none ↦ transition_note frm to | some n ↦ n ]

-- The record that a change of status leaves, and the tables after it.
abbrev pub entering : List Field → TaskStatus → ℕ → Task → Task
entering fs to at t = let u = moved fs to at t in next_version u u.version true

abbrev pub logged : String → TaskStatus → Option Message → Task → Task → Db → Db
logged id to label t u d =
    (append_locked id "transition" (label_or label t.status to)
      (("from", some (value t.status)) ∷ ("to", some (value to)) ∷ ("stage", u.stage) ∷ [])
      (with_task d u)).1

pub logged-lookup :
    (id : String) (to : TaskStatus) (label : Option Message) (t u : Task) (d : Db)
    → u.task_id ≡ id
    → lookup id (logged id to label t u d).tasks ≡ some u
logged-lookup id to label t u d e = rw (e, lookup-insert, eq_refl)

pub entering-id :
    (fs : List Field) (to : TaskStatus) (at : ℕ) (t : Task)
    → check_fields fs ≡ ok tt
    → (entering fs to at t).task_id ≡ t.task_id
unfolding check_fields
entering-id fs to at t h = (moved-id fs to at t (ground arith)).0

module _ (id : String) (to : TaskStatus) (expected : Option ℕ) (label : Option Message)
    (fs : List Field) (d : Db) (t : Task) (found : lookup id d.tasks ≡ some t)
    (allowed : check_fields fs ≡ ok tt) where
  pub transition-quiet :
      t.task_id ≡ id
      → check_version t expected ≡ ok tt
      → can_transition t.status to ≡ true
      → transition id to expected label fs (quiet d)
        ≡ (ok (entering fs to d.clock t), quiet (logged id to label t (entering fs to d.clock t) d))
  unfolding transition pure
  transition-quiet filed checked legal =
      let u = moved fs to d.clock t in
      let x = moved-id fs to d.clock t (check_fields-eq-ok fs tt allowed) in
      bind_returns (lift (check_fields fs)) _ (quiet d) (quiet d) tt
        (lift_lem _ _ ∙ ap (λ r. (r, quiet d)) allowed)
      ∙ bind_returns (cas id expected (guarded_move fs to) true) _ (quiet d)
          (quiet (with_task d (entering fs to d.clock t))) (entering fs to d.clock t, t.status)
          (cas-quiet TaskStatus id expected (guarded_move fs to) true d t found u t.status checked
            (guarded_move-legal fs to d.clock t legal) (rw (x.0 ∙ filed) found) (sym x.1))
      ∙ bind_returns (append_event id "transition" _ _) _
          (quiet (with_task d (entering fs to d.clock t))) _ _ (append-quiet id "transition" _ _ _)

  -- The record that it leaves unchanged, and why.
  pub transition_refused :
      check_version t expected ≡ ok tt
      → can_transition t.status to ≡ false
      → transition id to expected label fs (quiet d)
        ≡ (err (invalid_transition t.status to), quiet d)
  unfolding transition
  transition_refused checked illegal =
      bind_returns (lift (check_fields fs)) _ (quiet d) (quiet d) tt
        (lift_lem _ _ ∙ ap (λ r. (r, quiet d)) allowed)
      ∙ bind_raises (cas id expected (guarded_move fs to) true) _ (quiet d) (quiet d) _ (
          cas_refused TaskStatus id expected (guarded_move fs to) true d t found _ checked
            (guarded_move-illegal fs to d.clock t illegal))
