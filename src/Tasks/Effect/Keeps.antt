-- ===== src/Tasks/Effect/Keeps.antt =====
-- Reading the clock keeps any relation on the tables.
pub use comet_rag.Effect.Keeps.{
  Preorder, Friendly, Step, Keeps, Step-trans, Keeps-pure, Keeps-raise, Keeps-lift, Keeps-gets,
  Keeps-atomic, Keeps-if, Keeps-pause, attempt_step, bind_step, lift_step, Keeps-attempt,
  Keeps-bind, paused_step,
}
use comet_rag.Tasks.Effect.{Db, now}

pub Keeps-now : {R : Db → Db → Type 0} (p : Preorder R) → Keeps p now
unfolding now
Keeps-now p = record { run = λ w h. record { moved = p.same w.db; friendly = h } }
