-- ===== src/Tasks/Store/Versions.antt =====
-- Versions under compare-and-set: a write under a named version is the only one for that version.
use comet_rag.Prelude.{
  ℕ, suc, ◌+◌, ◌<◌, String, ◌≡◌, ◌≢◌, refl, ◌∙◌, true, Option, none, some, arith, eq_refl, inl, inr,
  Option-cases, ◌⊎◌,
}
use comet_rag.Dict.{lookup, insert, lookup-insert}
use comet_rag.Tasks.Error.{Error, version_conflict}
use comet_rag.Tasks.Models.{Task}
use comet_rag.Tasks.Effect.{
  Db, World, Result, ok, M, pure, raise, now, attempt, ◌>>=◌, pause, atomic, wake,
}
use comet_rag.Tasks.Effect.Keeps.{Keeps, Friendly}
use comet_rag.Tasks.Effect.Runs.{bind_inv, attempt_inv, lift_inv}
use comet_rag.Tasks.Memory.{save, save_locked, next_version, load}
use comet_rag.Tasks.Cas.{require, check_version, on_conflict, cas_rounds, cas}
use comet_rag.Tasks.Store.Legal.{Legal, Legal-preorder, IsFiled, Moves}
use comet_rag.Tasks.Store.Loop.{Lawful, require-Safe}

put_entry : (u : Task) (d : Db) → lookup u.task_id (insert u.task_id u d.tasks) ≡ some u
put_entry u d = rw (lookup-insert, eq_refl)

save_locked-eq-ok :
    (u s : Task) (d : Db)
    → (save_locked u u.version true d).0 ≡ ok s
    → (lookup u.task_id (save_locked u u.version true d).1.tasks ≡ some s)
      × (s.version ≡ u.version + 1)
save_locked-eq-ok u s d h = elim (Option-cases (lookup u.task_id d.tasks)) [
  | inl missing ↦ ground arith
  | inr (c, found) ↦ ground (arith, put_entry (next_version u u.version true) d)
]

pub save-eq-ok :
    (u s : Task) (w : World)
    → (save u u.version true w).0 ≡ ok s
    → (lookup u.task_id (save u u.version true w).1.db.tasks ≡ some s) × (s.version ≡ u.version + 1)
unfolding save atomic pause ◌>>=◌
save-eq-ok u s w h = save_locked-eq-ok u s (wake w.others w.db).db h

save_locked-eq-next :
    (u s : Task) (d : Db)
    → (save_locked u u.version true d).0 ≡ ok s
    → s ≡ next_version u u.version true
save_locked-eq-next u s d h = elim (Option-cases (lookup u.task_id d.tasks)) [
  | inl missing ↦ ground arith
  | inr (c, found) ↦ ground arith
]

pub save-eq-next :
    (u s : Task) (w : World)
    → (save u u.version true w).0 ≡ ok s
    → s ≡ next_version u u.version true
unfolding save atomic pause ◌>>=◌
save-eq-next u s w h = save_locked-eq-next u s (wake w.others w.db).db h

-- What `require` returns is what stands there when it returns.
pub require-eq-ok :
    (id : String) (t : Task) (w : World)
    → (require id w).0 ≡ ok t
    → lookup id (require id w).1.db.tasks ≡ some t
unfolding require load pause atomic ◌>>=◌ pure raise
require-eq-ok id t w h = elim (Option-cases (lookup id (wake w.others w.db).db.tasks)) [
  | inl missing ↦ ground arith
  | inr (c, found) ↦ ground arith
]

check_version-eq-ok :
    (t : Task) (v : ℕ) (x : Unit {0}) → check_version t (some v) ≡ ok x → t.version ≡ v
unfolding check_version
check_version-eq-ok t v x h = ground arith

on_conflict-ne-ok :
    (A : Type 0) (v : ℕ) (again : M A) (e : Error) (w : World) (a : A)
    → (on_conflict (some v) again e w).0 ≢ ok a
unfolding raise
on_conflict-ne-ok A v again (version_conflict x y) w a h = cc
on_conflict-ne-ok A v again _ w a h = cc

-- At the end of a run that returned `p` the record `p.0` stands under `id`, one version after `v`.
abbrev Written : (E : Type 0) → String → ℕ → Task × E → Result (Task × E) × World → Type 0
Written E id v p r = (lookup id r.1.db.tasks ≡ some p.0) × (p.0.version ≡ v + 1)

module _ (E : Type 0) (mutate : ℕ → Task → Result (Task × E)) (lawful : Lawful true mutate) where
  write_inv :
      (id : String) (v at : ℕ) (t : Task) (changed : Task × E) (again : Error → M (Task × E))
      (w : World) (p : Task × E)
      → mutate at t ≡ ok changed
      → t.task_id ≡ id
      → t.version ≡ v
      → (attempt
          (save changed.0 changed.0.version true)
          (λ saved. pure (saved, changed.1))
          (λ e. on_conflict (some v) (again e) e)
          w).0
        ≡ ok p
      → Written E id v p (
          attempt
            (save changed.0 changed.0.version true)
            (λ saved. pure (saved, changed.1))
            (λ e. on_conflict (some v) (again e) e)
            w)
  unfolding pure
  write_inv id v at t changed again w p made at_id at_version h =
      attempt_inv (Written E id v p) (save changed.0 changed.0.version true)
        (λ saved. pure (saved, changed.1)) (λ e. on_conflict (some v) (again e) e) w
        (λ e. on_conflict-ne-ok _ v (again e) e _ p) h
        λ s saved returned.
          let same_id : changed.0.task_id ≡ id =
            lawful.task_id at t changed.0 changed.1 made ∙ at_id in
          let same_version : changed.0.version ≡ v =
            (lawful.follows at t changed.0 changed.1 made).version ∙ at_version in
          let (entry, next) = save-eq-ok changed.0 s w saved in
          let e : s ≡ p.0 = cc in (rw (← e, ← same_id) entry, rw (← e, ← same_version) next)

  round_inv :
      (n : ℕ) (last : Error) (id : String) (v : ℕ) (w : World) (p : Task × E)
      → Friendly (Legal-preorder id) w.others
      → IsFiled w.db
      → (cas_rounds (suc n) last id (some v) mutate true w).0 ≡ ok p
      → Written E id v p (cas_rounds (suc n) last id (some v) mutate true w)
  unfolding cas_rounds
  round_inv n last id v w p friendly filed h =
      bind_inv (Written E id v p) (require id) _ w h λ t required h1.
        lift_inv (Written E id v p) (check_version t (some v)) _ _ h1 λ x checked h2.
          bind_inv (Written E id v p) now _ _ h2 λ at clock h3.
            lift_inv (Written E id v p) (mutate at t) _ _ h3 λ changed made h4.
              write_inv id v at t changed (λ e. cas_rounds n e id (some v) mutate true) _ p made
                ((((require-Safe id id).run w friendly).moved filed).0 id t
                  (require-eq-ok id t w required))
                (check_version-eq-ok t v x checked) h4

  -- A compare-and-set under the version `v` that returns has left its record there, one version on.
  pub cas_named-eq-ok :
      (id : String) (v : ℕ) (w : World) (p : Task × E)
      → Friendly (Legal-preorder id) w.others
      → IsFiled w.db
      → (cas id (some v) mutate true w).0 ≡ ok p
      → Written E id v p (cas id (some v) mutate true w)
  unfolding cas
  cas_named-eq-ok id v w p friendly filed h = round_inv _ _ id v w p friendly filed h

-- The record under the id has passed the version, or is gone.
abbrev pub Past : ℕ → Option Task → Type 0
Past v o = (o ≡ none) ⊎ ((u : Task) × (o ≡ some u) × (v < u.version))

Past-Moves : (v : ℕ) (o o' : Option Task) → Past v o → Moves o o' → Past v o'
Past-Moves v none o' p m = inl m
Past-Moves v (some u) none p m = inl refl
Past-Moves v (some u) (some u') p m = inr (u', refl, ground arith)

pub Past-Legal :
    (id : String) (v : ℕ) (d e : Db)
    → IsFiled d
    → Past v (lookup id d.tasks)
    → Legal id d e
    → Past v (lookup id e.tasks)
Past-Legal id v d e filed p legal = Past-Moves v _ _ p (legal filed).1

-- A run that keeps the task legal starts past the version and ends past it.
pub run-Past :
    (A : Type 0) (id : String) (v : ℕ) (m : M A) (w : World)
    → Keeps (Legal-preorder id) m
    → Friendly (Legal-preorder id) w.others
    → IsFiled w.db
    → Past v (lookup id w.db.tasks)
    → Past v (lookup id (m w).1.db.tasks)
run-Past A id v m w k friendly filed past =
    Past-Legal id v w.db (m w).1.db filed past (k.run w friendly).moved

not-Past : (v : ℕ) (t : Task) → Past v (some t) → t.version ≡ v → ⊥
not-Past v t (inl e) h = cc
not-Past v t (inr (u, e, lt)) h = ground arith

module _ (E : Type 0) (mutate : ℕ → Task → Result (Task × E)) where
  -- A compare-and-set under a version that the record has passed never returns.
  pub cas-Past-ne-ok :
      (id : String) (v : ℕ) (w : World) (p : Task × E)
      → Friendly (Legal-preorder id) w.others
      → IsFiled w.db
      → Past v (lookup id w.db.tasks)
      → (cas id (some v) mutate true w).0 ≢ ok p
  unfolding cas cas_rounds
  cas-Past-ne-ok id v w p friendly filed past h =
      bind_inv (λ _. ⊥) (require id) _ w h
        λ t required h1.
          lift_inv (λ _. ⊥) (check_version t (some v)) _ _ h1
            λ x checked h2.
              not-Past v t
                (rw (require-eq-ok id t w required) at (
                  Past-Legal id v w.db (require id w).1.db filed past
                    ((require-Safe id id).run w friendly).moved))
                (check_version-eq-ok t v x checked)
