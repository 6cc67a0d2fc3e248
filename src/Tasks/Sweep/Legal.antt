-- ===== src/Tasks/Sweep/Legal.antt =====
-- What the sweep of lost tasks does to their statuses under any interleaving.
use comet_rag.Prelude.{ℕ, String, Bool, true, false, List, [], ◌∷◌}
use comet_rag.Tasks.Status.{cancelling, same}
use comet_rag.Tasks.Error.{Error}
use comet_rag.Tasks.Models.{Task}
use comet_rag.Tasks.Effect.{M, raise}
use comet_rag.Tasks.Effect.Keeps.{
  Keeps, Keeps-raise, Keeps-pure, Keeps-now, Keeps-bind, Keeps-attempt, Keeps-if,
}
use comet_rag.Tasks.Store.Legal.{Legal-preorder}
use comet_rag.Tasks.Store.Primitives.{query-Legal}
use comet_rag.Tasks.Store.Methods.{transition-Safe}
use comet_rag.Tasks.Sweep.{stale_candidates, reclaim, is_race, sweep, sweep_stale}

module _ (j : String) where
  abbrev Safe : {A : Type 0} → M A → Type 0
  Safe m = Keeps (Legal-preorder j) m

  reclaim-Safe : (task : Task) → Safe (reclaim task)
  unfolding reclaim
  reclaim-Safe task = Keeps-bind (Legal-preorder j) _ _ (Keeps-now (Legal-preorder j)) λ at.
      Keeps-if (Legal-preorder j) (same task.status cancelling) _ _ (transition-Safe j _ _ _ _ _)
        (transition-Safe j _ _ _ _ _)

  if_race-Safe :
      (b : Bool) (m : M (List String)) (e : Error)
      → Safe m
      → Safe {A = List String} (elim b as (λ x. M (List String)) [ true ↦ m | false ↦ raise e ])
  if_race-Safe true m e k = k
  if_race-Safe false m e k = Keeps-raise (Legal-preorder j) e

  sweep-Safe : (tasks : List Task) (revived : List String) → Safe (sweep tasks revived)
  unfolding sweep
  sweep-Safe [] revived = Keeps-pure (Legal-preorder j) revived
  sweep-Safe (task ∷ rest) revived =
      Keeps-attempt (Legal-preorder j) _ _ _ (reclaim-Safe task) (λ _. sweep-Safe rest _)
        (λ e. if_race-Safe (is_race e) _ e (sweep-Safe rest revived))

  stale_candidates-Safe : (lease at : ℕ) → Safe (stale_candidates lease at)
  unfolding stale_candidates
  stale_candidates-Safe lease at = Keeps-bind (Legal-preorder j) _ _ (query-Legal j _) (λ runs.
      Keeps-bind (Legal-preorder j) _ _ (query-Legal j _)
        (λ stops. Keeps-pure (Legal-preorder j) _))

  pub sweep_stale-Safe : (lease : ℕ) → Safe (sweep_stale lease)
  unfolding sweep_stale
  sweep_stale-Safe lease = Keeps-bind (Legal-preorder j) _ _ (Keeps-now (Legal-preorder j)) (λ at.
      Keeps-bind (Legal-preorder j) _ _ (stale_candidates-Safe lease at)
        (λ candidates. sweep-Safe candidates []))
