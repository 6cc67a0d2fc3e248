-- ===== src/Tasks/Executor/Claim.antt =====
-- The claim of a task: of all workers that read it at one version, one gets it.
use comet_rag.Prelude.{ℕ, String, ◌≡◌, ◌≢◌, true, Option, none, some, List, arith, inr}
use comet_rag.Dict.{lookup}
use comet_rag.Tasks.Status.{TaskStatus, running}
use comet_rag.Tasks.Error.{Error, version_conflict}
use comet_rag.Tasks.Models.{Task, Message}
use comet_rag.Tasks.Models.Fields.{Field}
use comet_rag.Tasks.Effect.{World, ok, pure, raise}
use comet_rag.Tasks.Effect.Keeps.{Friendly, Keeps-pure, Keeps-bind}
use comet_rag.Tasks.Effect.Runs.{bind_inv, attempt_inv, lift_inv}
use comet_rag.Tasks.Memory.{append_event}
use comet_rag.Tasks.Cas.{check_fields, cas}
use comet_rag.Tasks.Store.{transition, guarded_move}
use comet_rag.Tasks.Store.Legal.{Legal, Legal-preorder, IsFiled}
use comet_rag.Tasks.Store.Primitives.{append_event-Legal}
use comet_rag.Tasks.Store.Loop.{cas-Safe}
use comet_rag.Tasks.Store.Changes.{check_fields-eq-ok, guarded_move-Lawful}
use comet_rag.Tasks.Store.Versions.{run-Past, Past, Past-Legal, cas_named-eq-ok, cas-Past-ne-ok}
use comet_rag.Tasks.Executor.Legal.{claim-Safe}
use comet_rag.Tasks.Executor.{claim, unless_conflict}
use comet_rag.Tasks.Endings.{Executor}

module _ (id : String) (to : TaskStatus) (v : ℕ) (label : Option Message) (fs : List Field)
    (w : World) (friendly : Friendly (Legal-preorder id) w.others) (filed : IsFiled w.db) where
  -- After a change of status under the version `v` that returns, the record has passed `v`.
  pub transition-Past :
      (u : Task)
      → (transition id to (some v) label fs w).0 ≡ ok u
      → Past v (lookup id (transition id to (some v) label fs w).1.db.tasks)
  unfolding transition
  transition-Past u h =
      lift_inv (λ r. Past v (lookup id r.1.db.tasks)) (check_fields fs) _ w h
        λ x checked h1.
          let lawful = guarded_move-Lawful fs to (check_fields-eq-ok fs x checked) in
          bind_inv (λ r. Past v (lookup id r.1.db.tasks))
            (cas id (some v) (guarded_move fs to) true) _ w h1
            λ p saved h2.
              let s = (cas-Safe id TaskStatus true _ lawful id (some v)).run w friendly in
              let (entry, next) =
                cas_named-eq-ok TaskStatus _ lawful id v w p friendly filed saved in
              run-Past Task id v _ _
                (Keeps-bind (Legal-preorder id) (append_event id "transition" _ _) (λ _. pure p.0)
                  (append_event-Legal id id _ _ _) (λ _. Keeps-pure (Legal-preorder id) _))
                s.friendly (s.moved filed).0 (inr (p.0, entry, omega (arith, next)))

  pub transition-Past-ne-ok :
      (u : Task) → Past v (lookup id w.db.tasks) → (transition id to (some v) label fs w).0 ≢ ok u
  unfolding transition
  transition-Past-ne-ok u past h =
      lift_inv (λ _. ⊥) (check_fields fs) _ w h
        λ x checked h1.
          bind_inv (λ _. ⊥) (cas id (some v) (guarded_move fs to) true) _ w h1
            λ p saved h2. cas-Past-ne-ok TaskStatus _ id v w p friendly filed past saved

unless_conflict-ne-true : (e : Error) (w : World) → (unless_conflict e w).0 ≢ ok true
unfolding pure raise
unless_conflict-ne-true (version_conflict a b) w h = cc
unless_conflict-ne-true _ w h = cc

module _ (ex : Executor) (snapshot : Task) (id : String) (w : World)
    (friendly : Friendly (Legal-preorder id) w.others) (filed : IsFiled w.db) where
  pub claim-Past :
      (claim ex snapshot id w).0 ≡ ok true
      → Past snapshot.version (lookup id (claim ex snapshot id w).1.db.tasks)
  unfolding claim pure
  claim-Past h =
      attempt_inv (λ r. Past snapshot.version (lookup id r.1.db.tasks))
        (transition id running (some snapshot.version) none _) _ unless_conflict w
        (λ e. unless_conflict-ne-true e _) h
        λ u moved returned.
          transition-Past id running snapshot.version none _ w friendly filed u moved

  pub claim-Past-ne-true :
      Past snapshot.version (lookup id w.db.tasks) → (claim ex snapshot id w).0 ≢ ok true
  unfolding claim pure
  claim-Past-ne-true past h =
      attempt_inv (λ _. ⊥) (transition id running (some snapshot.version) none _) _ unless_conflict
        w (λ e. unless_conflict-ne-true e _) h
        λ u moved returned.
          transition-Past-ne-ok id running snapshot.version none _ w friendly filed u past moved

-- A task is claimed once for each version: if a worker's claim under the version of its snapshot
-- succeeds, among others that keep the task legal, then whatever legal happens next, no claim
-- under a snapshot of the same version succeeds any more, whoever makes it and whoever interrupts
-- it. (Each record is taken to stand under its own id at the start.)
pub claim_once :
    (first second : Executor) (snapshot snapshot' : Task) (id : String) (w v : World)
    → snapshot'.version ≡ snapshot.version
    → Friendly (Legal-preorder id) w.others
    → Friendly (Legal-preorder id) v.others
    → IsFiled w.db
    → (claim first snapshot id w).0 ≡ ok true
    → Legal id (claim first snapshot id w).1.db v.db
    → (claim second snapshot' id v).0 ≢ ok true
claim_once first second snapshot snapshot' id w v e fw fv filed won legal =
    let filed' : IsFiled (claim first snapshot id w).1.db =
      (((claim-Safe id first snapshot id).run w fw).moved filed).0 in
    claim-Past-ne-true second snapshot' id v fv (legal filed').0 (
      rw e (
        Past-Legal id snapshot.version (claim first snapshot id w).1.db v.db filed'
          (claim-Past first snapshot id w fw filed won) legal))
