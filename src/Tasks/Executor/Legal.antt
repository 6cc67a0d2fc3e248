-- ===== src/Tasks/Executor/Legal.antt =====
-- What a run of `execute` does to the statuses of tasks, with any runner that works on the store
-- through its methods, under any interleaving.
use comet_rag.Prelude.{ℕ, String, ◌≡◌, refl, Bool, true, false, Option, none, some, if◌then◌else◌}
use comet_rag.Tasks.Status.{is_terminal, same, running, pending, cancelling}
use comet_rag.Tasks.Value.{Value}
use comet_rag.Tasks.Error.{Error, cancelled_error, task_cancelled, version_conflict}
use comet_rag.Tasks.Models.{Task, TaskError, Message}
use comet_rag.Tasks.Effect.{World, proceed, Result, ok, err, M, lift, pure, raise, attempt, ◌>>=◌}
use comet_rag.Tasks.Effect.Keeps.{
  Keeps, Step, Step-trans, Friendly, Keeps-raise, Keeps-pure, Keeps-now, Keeps-bind, Keeps-attempt,
  Keeps-if,
}
use comet_rag.Tasks.Store.Legal.{Legal, Legal-preorder}
use comet_rag.Tasks.Store.Primitives.{load-Legal}
use comet_rag.Tasks.Store.Methods.{transition-Safe}
use comet_rag.Tasks.Runner.{Outcome, done, handoff, TaskContext, Runner, Registry, get_runner}
use comet_rag.Tasks.Executor.{
  unless_conflict, claim, run_claimed, go_on, execute, execute_found, accept_found, accept_cancel,
}
use comet_rag.Tasks.Endings.{
  Executor, discard, still_mine, hand_off, hand_off_owned, finish, succeed_owned, cancel_owned,
  mark_cancelled, may_retry, fail_owned, mark_failed, on_error,
}

module _ (j : String) where
  abbrev Safe : {A : Type 0} → M A → Type 0
  Safe m = Keeps (Legal-preorder j) m

  abbrev then_Safe :
      {A B : Type 0} (m : M A) (f : A → M B) → Safe m → ((a : A) → Safe (f a)) → Safe (m >>= f)
  then_Safe m f = Keeps-bind (Legal-preorder j) m f

  discard-Safe : {A : Type 0} (m : M A) → Safe m → Safe (discard m)
  discard-Safe m k = then_Safe m _ k (λ _. Keeps-pure (Legal-preorder j) tt)

  pub record SafeExecutor (ex : Executor) : Type 0 where
    pub retries : (id : String) (delay : ℕ) → Safe (ex.schedule_retry id delay)
    pub handoffs : (id lane : String) → Safe (ex.schedule_handoff id lane)

  abbrev pub SafeRegistry : Registry → Type 0
  SafeRegistry registry =
      (kind : String) (runner : Runner) (ctx : TaskContext)
      → get_runner kind registry ≡ ok runner
      → Safe (runner ctx)

  unless_conflict-Safe : (e : Error) → Safe (unless_conflict e)
  unless_conflict-Safe (version_conflict v x) = Keeps-pure (Legal-preorder j) false
  unless_conflict-Safe e = Keeps-raise (Legal-preorder j) e

  pub claim-Safe : (ex : Executor) (t : Task) (id : String) → Safe (claim ex t id)
  unfolding claim
  claim-Safe ex t id =
      Keeps-attempt (Legal-preorder j) _ _ _ (transition-Safe j _ _ _ _ _)
        (λ _. Keeps-pure (Legal-preorder j) true) unless_conflict-Safe

  module _ (ex : Executor) (safe : SafeExecutor ex) where
    still_mine-Safe : (claimed : Bool) (id : String) → Safe (still_mine ex claimed id)
    unfolding still_mine
    still_mine-Safe claimed id =
        then_Safe _ _ (load-Legal j id) (λ _. Keeps-pure (Legal-preorder j) _)

    hand_off_owned-Safe :
        (id lane stage : String) (m : Message) (o : Option Task)
        → Safe (hand_off_owned ex id lane stage m o)
    unfolding hand_off_owned
    hand_off_owned-Safe id lane stage m none = Keeps-pure (Legal-preorder j) tt
    hand_off_owned-Safe id lane stage m (some t) =
        Keeps-if (Legal-preorder j) (same t.status running) _ _
          (then_Safe _ _ (transition-Safe j _ _ _ _ _) (λ _. safe.handoffs id lane))
          (Keeps-pure (Legal-preorder j) tt)

    succeed_owned-Safe :
        (id : String) (r : Value) (u : Option String) (m : Message) (o : Option Task)
        → Safe (succeed_owned id r u m o)
    unfolding succeed_owned
    succeed_owned-Safe id r u m none = Keeps-pure (Legal-preorder j) tt
    succeed_owned-Safe id r u m (some t) = discard-Safe _ (transition-Safe j _ _ _ _ _)

    finish-Safe : (id : String) (o : Outcome) → Safe (finish ex id o)
    unfolding finish hand_off
    finish-Safe id (done r u m) =
        then_Safe _ _ (still_mine-Safe true id) (succeed_owned-Safe id r u m)
    finish-Safe id (handoff lane stage m) =
        then_Safe _ _ (still_mine-Safe true id) (hand_off_owned-Safe id lane stage m)

    cancel_owned-Safe : (id : String) (o : Option Task) → Safe (cancel_owned id o)
    unfolding cancel_owned
    cancel_owned-Safe id none = Keeps-pure (Legal-preorder j) tt
    cancel_owned-Safe id (some t) =
        Keeps-if (Legal-preorder j) (is_terminal t.status) _ _ (Keeps-pure (Legal-preorder j) tt) (
          then_Safe _ _ (Keeps-now (Legal-preorder j))
            (λ at. discard-Safe _ (transition-Safe j _ _ _ _ _)))

    mark_cancelled-Safe : (claimed : Bool) (id : String) → Safe (mark_cancelled ex claimed id)
    unfolding mark_cancelled
    mark_cancelled-Safe claimed id =
        then_Safe _ _ (still_mine-Safe claimed id) (cancel_owned-Safe id)

    fail_owned-Safe : (id : String) (e : TaskError) (o : Option Task) → Safe (fail_owned ex id e o)
    unfolding fail_owned
    fail_owned-Safe id e none = Keeps-pure (Legal-preorder j) tt
    fail_owned-Safe id e (some t) =
        Keeps-if (Legal-preorder j) (is_terminal t.status) _ _ (Keeps-pure (Legal-preorder j) tt) (
          Keeps-if (Legal-preorder j) (may_retry e t) _ _
            (then_Safe _ _ (transition-Safe j _ _ _ _ _) (λ _. safe.retries id _))
            (discard-Safe _ (transition-Safe j _ _ _ _ _)))

    mark_failed-Safe :
        (claimed : Bool) (id : String) (e : Error) → Safe (mark_failed ex claimed id e)
    unfolding mark_failed
    mark_failed-Safe claimed id e =
        then_Safe _ _ (Keeps-now (Legal-preorder j))
          (λ at. then_Safe _ _ (still_mine-Safe claimed id) (fail_owned-Safe id _))

    on_error-Safe : (claimed : Bool) (id : String) (e : Error) → Safe (on_error ex claimed id e)
    unfolding on_error
    on_error-Safe claimed id cancelled_error =
        Keeps-attempt (Legal-preorder j) _ _ _ (mark_cancelled-Safe claimed id)
          (λ _. Keeps-raise (Legal-preorder j) _) (λ _. Keeps-raise (Legal-preorder j) _)
    on_error-Safe claimed id (task_cancelled i) = mark_cancelled-Safe claimed id
    on_error-Safe claimed id e = mark_failed-Safe claimed id e

    run_claimed-Safe :
        (id : String) (runner : Runner)
        → ((ctx : TaskContext) → Safe (runner ctx))
        → Safe (run_claimed ex id runner)
    unfolding run_claimed
    run_claimed-Safe id runner k =
        Keeps-attempt (Legal-preorder j) _ _ _
          (then_Safe _ _ (Keeps-now (Legal-preorder j))
            (λ at. then_Safe _ _ (k _) (finish-Safe id)))
          (λ _. Keeps-pure (Legal-preorder j) tt) (on_error-Safe true id)

    after_claim :
        (id : String) (runner : Runner) (w v : World) (r : Result Bool)
        → ((ctx : TaskContext) → Safe (runner ctx))
        → Step (Legal-preorder j) w v
        → Step
            (Legal-preorder j)
            w
            (proceed
              (go_on ex id)
              (on_error ex false id)
              (proceed (λ mine. pure (if mine then some runner else none)) raise r v).0
              (proceed (λ mine. pure (if mine then some runner else none)) raise r v).1).1
    unfolding pure raise
    after_claim id runner w v (ok true) k s =
        Step-trans (Legal-preorder j) s ((run_claimed-Safe id runner k).run v s.friendly)
    after_claim id runner w v (ok false) k s = s
    after_claim id runner w v (err e) k s =
        Step-trans (Legal-preorder j) s ((on_error-Safe false id e).run v s.friendly)

    take_up_then :
        (id : String) (t : Task) (r : Result Runner)
        → ((runner : Runner) (ctx : TaskContext) → r ≡ ok runner → Safe (runner ctx))
        → Safe (
            attempt
              (lift r >>= λ runner.
                claim ex t id >>= λ mine. pure (if mine then some runner else none))
              (go_on ex id)
              (on_error ex false id))
    unfolding attempt ◌>>=◌ lift
    take_up_then id t (ok runner) k = record {
      run = λ w h.
          after_claim id runner w (claim ex t id w).1 (claim ex t id w).0 (λ ctx. k runner ctx refl)
            ((claim-Safe ex t id).run w h);
    }
    take_up_then id t (err e) k = record { run = λ w h. (on_error-Safe false id e).run w h }

    module _ (registry : Registry) (runners : SafeRegistry registry) where
      execute_found-Safe : (id : String) (o : Option Task) → Safe (execute_found ex registry id o)
      unfolding execute_found
      execute_found-Safe id none = Keeps-pure (Legal-preorder j) tt
      execute_found-Safe id (some t) =
          Keeps-if (Legal-preorder j) (same t.status pending) _ _
            (take_up_then id t (get_runner t.kind registry)
              (λ runner ctx e. runners t.kind runner ctx e))
            (Keeps-pure (Legal-preorder j) tt)

      pub execute-Safe : (id : String) → Safe (execute ex registry id)
      unfolding execute
      execute-Safe id = then_Safe _ _ (load-Legal j id) (execute_found-Safe id)

  accept_found-Safe : (id : String) (o : Option Task) → Safe (accept_found id o)
  unfolding accept_found
  accept_found-Safe id none = Keeps-pure (Legal-preorder j) false
  accept_found-Safe id (some t) =
      Keeps-if (Legal-preorder j) (is_terminal t.status) _ _ (Keeps-pure (Legal-preorder j) false) (
        Keeps-if (Legal-preorder j) (same t.status running) _ _
          (then_Safe _ _ (transition-Safe j _ _ _ _ _) (λ _. Keeps-pure (Legal-preorder j) true))
          (Keeps-if (Legal-preorder j) (same t.status cancelling) _ _
            (Keeps-pure (Legal-preorder j) true)
            (then_Safe _ _ (Keeps-now (Legal-preorder j)) (λ at.
              then_Safe _ _ (transition-Safe j _ _ _ _ _)
                (λ _. Keeps-pure (Legal-preorder j) true)))))

  pub accept_cancel-Safe : (id : String) → Safe (accept_cancel id)
  unfolding accept_cancel
  accept_cancel-Safe id = then_Safe _ _ (load-Legal j id) (accept_found-Safe id)

-- Under any interleaving with others that keep the tasks legal, one run of `execute`, whatever the
-- registered runners do through legal methods and however it ends, leaves each task j, if every
-- record stood under its own id, either gone or with a version that is no smaller, with its old
-- status if the version is the old one, and with a status that a chain of legal changes reaches;
-- and every record still stands under its own id.
pub execute-Legal :
    (ex : Executor) (registry : Registry) (id j : String) (w : World)
    → SafeExecutor j ex
    → SafeRegistry j registry
    → Friendly (Legal-preorder j) w.others
    → Legal j w.db (execute ex registry id w).1.db
execute-Legal ex registry id j w safe runners friendly =
    ((execute-Safe j ex safe registry runners id).run w friendly).moved
