-- ===== src/Tasks/Store/Returns.antt =====
-- Which record a change of status returns, under any interleaving.
use comet_rag.Prelude.{ℕ, zero, suc, String, ◌≡◌, true, Option, none, some, List, inl, inr}
use comet_rag.Tasks.Status.{TaskStatus}
use comet_rag.Tasks.States.{can_transition}
use comet_rag.Tasks.Error.{Error, version_conflict}
use comet_rag.Tasks.Models.{Task, Message}
use comet_rag.Tasks.Models.Fields.{Field}
use comet_rag.Tasks.Effect.{World, Result, ok, M, pure, raise, now}
use comet_rag.Tasks.Effect.Runs.{bind_inv, lift_inv, attempt_cases}
use comet_rag.Tasks.Memory.{save, append_event, next_version}
use comet_rag.Tasks.Cas.{check_fields, check_version, require, cas_rounds, cas, on_conflict}
use comet_rag.Tasks.Store.{transition, guarded_move}
use comet_rag.Tasks.Store.Quiet.{entering}
use comet_rag.Tasks.Store.Changes.{guarded_move-eq-ok}
use comet_rag.Tasks.Store.Versions.{save-eq-next}

-- A return after a conflict is the next round's.
on_conflict-again :
    (A : Type 0) (expected : Option ℕ) (again : M A) (e : Error) (w : World) (a : A)
    → (on_conflict expected again e w).0 ≡ ok a
    → (again w).0 ≡ ok a
unfolding raise
on_conflict-again A none again (version_conflict v x) w a h = h
on_conflict-again A (some _) again (version_conflict v x) w a h = cc
on_conflict-again A expected again e w a h = cc

module _ (E : Type 0) (mutate : ℕ → Task → Result (Task × E)) where
  -- The pair is what some call of the change made, one version on.
  abbrev Made : Task × E → Type 0
  Made p =
      (at : ℕ) × (t : Task) × (u : Task) × (mutate at t ≡ ok (u, p.1))
      × (p.0 ≡ next_version u u.version true)

  rounds_Made :
      (n : ℕ) (last : Error) (id : String) (expected : Option ℕ) (w : World) (p : Task × E)
      → (cas_rounds n last id expected mutate true w).0 ≡ ok p
      → Made p
  unfolding cas_rounds raise pure
  rounds_Made zero last id expected w p h = cc
  rounds_Made (suc n) last id expected w p h =
      bind_inv (λ _. Made p) (require id) _ w h
        λ t required h1.
          lift_inv (λ _. Made p) (check_version t expected) _ _ h1
            λ x checked h2.
              bind_inv (λ _. Made p) now _ _ h2
                λ at clock h3.
                  lift_inv (λ _. Made p) (mutate at t) _ _ h3
                    λ changed made h4.
                      elim (attempt_cases (save changed.0 changed.0.version true)
                        (λ saved. pure (saved, changed.1))
                        (λ e. on_conflict expected (cas_rounds n e id expected mutate true) e) _ p
                        h4) [
                          | inl (s, saved, returned) ↦
                              let e : s ≡ p.0 = cc in
                              let x' : changed.1 ≡ p.1 = cc in
                              (
                                at,
                                t,
                                changed.0,
                                rw (← x') made,
                                rw (← e) (save-eq-next changed.0 s _ saved),
                              )
                          | inr (e, raised, returned) ↦
                              rounds_Made n e id expected _ p
                                (on_conflict-again _ expected _ e _ p returned)
                        ]

-- A change of status that returns, whatever the others did meanwhile, has moved a task by the
-- table to the status asked for, and returns the record that `entering` describes.
pub transition-eq-ok :
    (id : String) (to : TaskStatus) (expected : Option ℕ) (label : Option Message) (fs : List Field)
    (w : World) (r : Task)
    → (transition id to expected label fs w).0 ≡ ok r
    → (t : Task) × (at : ℕ) × (check_fields fs ≡ ok tt)
      × (can_transition t.status to ≡ true)
      × (r ≡ entering fs to at t)
unfolding transition cas pure
transition-eq-ok id to expected label fs w r h =
    lift_inv (λ _. Goal) (check_fields fs) _ w h
      λ x checked h1.
        bind_inv (λ _. Goal) (cas id expected (guarded_move fs to) true) _ w h1
          λ p saved h2.
            let (at, t, u, made, next) =
              rounds_Made TaskStatus (guarded_move fs to) _ _ id expected w p saved in
            let (legal, same_task) = guarded_move-eq-ok fs to at t u p.1 made in
            bind_inv (λ _. Goal) (append_event id "transition" _ _) _ _ h2
              λ event appended returned.
                let e : p.0 ≡ r = cc in (t, at, checked, legal, rw (← e, same_task) next)
  where
    Goal : Type 0
    Goal =
        (t : Task) × (at : ℕ) × (check_fields fs ≡ ok tt)
        × (can_transition t.status to ≡ true)
        × (r ≡ entering fs to at t)
