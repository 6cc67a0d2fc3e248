-- ===== src/Tasks/Store/Methods.antt =====
-- Each method of `TaskStore` keeps every task legal, under any interleaving.
use comet_rag.Prelude.{
  ℕ, String, ◌≡◌, refl, Bool, true, false, Option, none, some, List, any, not, ◌&&◌,
}
use comet_rag.Tasks.Status.{TaskStatus, is_active}
use comet_rag.Tasks.Models.{Task, Message}
use comet_rag.Tasks.Models.Fields.{Field, is_immutable}
use comet_rag.Tasks.Effect.{World, M, lift, ◌>>◌}
use comet_rag.Tasks.Effect.Keeps.{
  Friendly, Keeps, Keeps-raise, Keeps-pure, Keeps-bind, Keeps-if, lift_step,
}
use comet_rag.Tasks.Cas.{check_fields}
use comet_rag.Tasks.Store.{
  update, updated, transition, heartbeat, enter_stage, entered, delete, delete_found,
}
use comet_rag.Tasks.Store.Changes.{
  check_fields-eq-ok, Alike-Lawful, updated-Alike, entered-Alike, guarded_move-Lawful,
}
use comet_rag.Tasks.Store.Legal.{Legal, Legal-preorder}
use comet_rag.Tasks.Store.Primitives.{load-Legal, remove-Legal, append_event-Legal}
use comet_rag.Tasks.Store.Loop.{cas-Safe}

module _ (j : String) where
  abbrev Safe : {A : Type 0} → M A → Type 0
  Safe m = Keeps (Legal-preorder j) m

  checked :
      (B : Type 0) (fs : List Field) (m : M B)
      → (any is_immutable fs ≡ false → Safe m)
      → Safe (lift (check_fields fs) >> m)
  checked B fs m k = record {
    run = λ w h.
        lift_step (Legal-preorder j) (check_fields fs) _ w h
          (λ x ok_fields. (k (check_fields-eq-ok fs x ok_fields)).run w h);
  }

  pub update-Safe :
      (id : String) (expected : Option ℕ) (fs : List Field) → Safe (update id expected fs)
  unfolding update
  update-Safe id expected fs = checked Task fs _ λ h.
      Keeps-bind (Legal-preorder j) _ _
        (cas-Safe j (Unit {0}) true _ (Alike-Lawful true (updated fs) (updated-Alike fs h)) id
          expected)
        (λ saved. Keeps-pure (Legal-preorder j) _)

  pub transition-Safe :
      (id : String) (to : TaskStatus) (expected : Option ℕ) (label : Option Message)
      (fs : List Field)
      → Safe (transition id to expected label fs)
  unfolding transition
  transition-Safe id to expected label fs = checked Task fs _ λ h.
      Keeps-bind (Legal-preorder j) _ _
        (cas-Safe j TaskStatus true _ (guarded_move-Lawful fs to h) id expected)
        λ saved.
          Keeps-bind (Legal-preorder j) _ _ (append_event-Legal j _ _ _ _)
            (λ _. Keeps-pure (Legal-preorder j) _)

  pub heartbeat-Safe : (id : String) → Safe (heartbeat id)
  unfolding heartbeat
  heartbeat-Safe id =
      Keeps-bind (Legal-preorder j) _ _
        (cas-Safe j (Unit {0}) false _
          (Alike-Lawful false _ (λ at t. record { task_id = refl; status = refl; version = refl }))
          id none)
        (λ _. Keeps-pure (Legal-preorder j) _)

  pub enter_stage-Safe : (id stage : String) (fs : List Field) → Safe (enter_stage id stage fs)
  unfolding enter_stage
  enter_stage-Safe id stage fs = checked Task fs _ λ h.
      Keeps-bind (Legal-preorder j) _ _
        (cas-Safe j (Unit {0}) true _
          (Alike-Lawful true (entered stage fs) (entered-Alike stage fs h)) id none)
        λ saved.
          Keeps-bind (Legal-preorder j) _ _ (append_event-Legal j _ _ _ _)
            (λ _. Keeps-pure (Legal-preorder j) _)

  delete_found-Safe :
      (id : String) (force : Bool) (o : Option Task) → Safe (delete_found id force o)
  unfolding delete_found
  delete_found-Safe id force none = Keeps-pure (Legal-preorder j) false
  delete_found-Safe id force (some t) =
      Keeps-if (Legal-preorder j) (is_active t.status && not force) _ _
        (Keeps-raise (Legal-preorder j) _) (remove-Legal j id)

  pub delete-Safe : (id : String) (force : Bool) → Safe (delete id force)
  unfolding delete
  delete-Safe id force =
      Keeps-bind (Legal-preorder j) _ _ (load-Legal j id) (delete_found-Safe id force)

-- Each method of the store that changes a task it is given, `update`, `transition`, `heartbeat`,
-- `enter_stage` and `delete`, with any arguments and any result, under any interleaving with others
-- that keep the tasks legal, leaves each task j (if every record stood under its own id) gone, or
-- with a version that is no smaller, with its old status if the version is the old one, and with a
-- status that a chain of legal changes reaches.
pub methods-Legal :
    (id j stage : String) (to : TaskStatus) (expected : Option ℕ) (label : Option Message)
    (fs : List Field) (force : Bool) (w : World)
    → Friendly (Legal-preorder j) w.others
    → Legal j w.db (update id expected fs w).1.db
      × Legal j w.db (transition id to expected label fs w).1.db
      × Legal j w.db (heartbeat id w).1.db
      × Legal j w.db (enter_stage id stage fs w).1.db
      × Legal j w.db (delete id force w).1.db
methods-Legal id j stage to expected label fs force w friendly = (
  ((update-Safe j id expected fs).run w friendly).moved,
  ((transition-Safe j id to expected label fs).run w friendly).moved,
  ((heartbeat-Safe j id).run w friendly).moved,
  ((enter_stage-Safe j id stage fs).run w friendly).moved,
  ((delete-Safe j id force).run w friendly).moved,
)
