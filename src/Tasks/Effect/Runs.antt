-- ===== src/Tasks/Effect/Runs.antt =====
-- What a run reads from the clock.
pub use comet_rag.Effect.Runs.{
  bind_inv, attempt_inv, lift_inv, quiet, bind_returns, bind_raises, attempt_returns,
  attempt_raises, lift_lem, pure_lem, raise_lem, atomic-quiet, attempt_cases,
}
use comet_rag.Prelude.{◌≡◌, refl}
use comet_rag.Tasks.Effect.{World, ok, now}

pub now_lem : (w : World) → now w ≡ (ok w.db.clock, w)
unfolding now
now_lem w = refl
