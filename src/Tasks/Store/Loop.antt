-- ===== src/Tasks/Store/Loop.antt =====
-- The compare-and-set loop keeps every task legal, whatever the others do between a read and the
-- write that follows it.
use comet_rag.Prelude.{ℕ, zero, suc, String, ◌≡◌, refl, sym, ◌∙◌, subst, Bool, Option, none, some}
use comet_rag.Dict.{lookup}
use comet_rag.Tasks.Error.{Error, task_not_found, version_conflict}
use comet_rag.Tasks.Models.{Task}
use comet_rag.Tasks.Effect.{
  World, Result, ok, M, pure, raise, lift, now, attempt, ◌>>=◌, pause, atomic, wake,
}
use comet_rag.Tasks.Effect.Keeps.{
  Keeps, Step, Step-trans, Friendly, Keeps-raise, Keeps-pure, Keeps-pause, Keeps-bind, attempt_step,
  lift_step,
}
use comet_rag.Tasks.Memory.{save, load}
use comet_rag.Tasks.Cas.{require, check_version, on_conflict, cas_rounds, cas, cas_retries}
use comet_rag.Tasks.Store.Legal.{Legal-preorder}
use comet_rag.Tasks.Store.Primitives.{Follows, save_step, load-Legal}

-- What a change handed to `_cas` has to keep.
pub record Lawful {E : Type 0} (bump : Bool) (mutate : ℕ → Task → Result (Task × E)) : Type 0 where
  pub follows : (at : ℕ) (t u : Task) (e : E) → mutate at t ≡ ok (u, e) → Follows bump t u
  pub task_id : (at : ℕ) (t u : Task) (e : E) → mutate at t ≡ ok (u, e) → u.task_id ≡ t.task_id

module _ (j : String) where
  abbrev Safe : {A : Type 0} → M A → Type 0
  Safe m = Keeps (Legal-preorder j) m

  abbrev SafeStep : World → World → Type 0
  SafeStep = Step (Legal-preorder j)

  found_step :
      (B : Type 0) (id : String) (f : Task → M B) (w v : World) (o : Option Task)
      → lookup id v.db.tasks ≡ o
      → SafeStep w v
      → ((t : Task) → lookup id v.db.tasks ≡ some t → SafeStep w (f t v).1)
      → SafeStep w ((elim o [ none ↦ raise (task_not_found id) | some t ↦ pure t ] >>= f) v).1
  unfolding ◌>>=◌ raise pure
  found_step B id f w v none e s k = s
  found_step B id f w v (some t) e s k = k t e

  pub require_step :
      (B : Type 0) (id : String) (f : Task → M B) (w : World)
      → Friendly (Legal-preorder j) w.others
      → ((t : Task) (v : World)
          → lookup id v.db.tasks ≡ some t
          → SafeStep w v
          → SafeStep w (f t v).1)
      → SafeStep w ((require id >>= f) w).1
  unfolding require load ◌>>=◌ atomic pause
  require_step B id f w h k =
      let s = (Keeps-pause (Legal-preorder j) {E = Error}).run w h in
      let v : World = wake w.others w.db in
      found_step B id f w v (lookup id v.db.tasks) refl s (λ t e. k t v e s)

  on_conflict-Safe :
      (A : Type 0) (expected : Option ℕ) (again : M A) (e : Error)
      → Safe again
      → Safe (on_conflict expected again e)
  on_conflict-Safe A none again (version_conflict v x) k = k
  on_conflict-Safe A (some _) again (version_conflict v x) k = Keeps-raise (Legal-preorder j) _
  on_conflict-Safe A expected again _ k = Keeps-raise (Legal-preorder j) _

  module _ (E : Type 0) (bump : Bool) (mutate : ℕ → Task → Result (Task × E))
      (lawful : Lawful bump mutate) where
    write_step :
        (id : String) (t u : Task) (e : E) (at : ℕ) (w : World) (again : Error → M (Task × E))
        → mutate at t ≡ ok (u, e)
        → lookup id w.db.tasks ≡ some t
        → Friendly (Legal-preorder j) w.others
        → ((x : Error) → Safe (again x))
        → SafeStep w (attempt (save u u.version bump) (λ saved. pure (saved, e)) again w).1
    write_step id t u e at w again made read h k =
        attempt_step (Legal-preorder j) (save u u.version bump) (λ saved. pure (saved, e)) again w
          (save_step j t u bump w (lawful.follows at t u e made)
            (λ f.
              subst (λ i. lookup i w.db.tasks ≡ some t)
                (sym (lawful.task_id at t u e made ∙ f id t read)) read)
            h)
          (λ saved. Keeps-pure (Legal-preorder j) _) k

    cas_rounds-Safe :
        (n : ℕ) (last : Error) (id : String) (expected : Option ℕ)
        → Safe (cas_rounds n last id expected mutate bump)
    unfolding cas_rounds now lift ◌>>=◌ attempt
    cas_rounds-Safe zero last id expected = Keeps-raise (Legal-preorder j) last
    cas_rounds-Safe (suc n) last id expected = record {
      run = λ w h. require_step (Task × E) id _ w h λ t v read s. Step-trans (Legal-preorder j) s (
          lift_step (Legal-preorder j) (check_version t expected) _ v s.friendly λ _ _.
            lift_step (Legal-preorder j) (mutate v.db.clock t)
              (λ changed.
                attempt (save changed.0 changed.0.version bump) (λ saved. pure (saved, changed.1))
                  (λ e. on_conflict expected (cas_rounds n e id expected mutate bump) e))
              v s.friendly
              λ changed made.
                write_step id t changed.0 changed.1 v.db.clock v _ made read s.friendly (λ e.
                  on_conflict-Safe (Task × E) expected _ e (cas_rounds-Safe n e id expected)));
    }

    pub cas-Safe : (id : String) (expected : Option ℕ) → Safe (cas id expected mutate bump)
    unfolding cas
    cas-Safe id expected = cas_rounds-Safe cas_retries _ id expected

  or_missing-Safe :
      (id : String) (o : Option Task)
      → Safe {A = Task} (elim o [ none ↦ raise (task_not_found id) | some t ↦ pure t ])
  or_missing-Safe id none = Keeps-raise (Legal-preorder j) _
  or_missing-Safe id (some t) = Keeps-pure (Legal-preorder j) t

  pub require-Safe : (id : String) → Safe (require id)
  unfolding require
  require-Safe id = Keeps-bind (Legal-preorder j) _ _ (load-Legal j id) (or_missing-Safe id)
