-- ===== src/Tasks/States.antt =====
-- comet_rag/tasks/states.py: the one table of legal status changes.
pub mod Reach
use comet_rag.Prelude.{◌≡◌, refl, Bool, true, false, ◌||◌, List, [], ◌∷◌, any, ◌⊎◌, inl, inr, arith}
use comet_rag.Tasks.Status.{
  TaskStatus, pending, running, cancelling, succeeded, failed, cancelled, same, is_terminal,
}

-- `_ALLOWED`
unfoldable pub allowed : TaskStatus → List TaskStatus
allowed pending = running ∷ cancelled ∷ failed ∷ []
allowed running = succeeded ∷ failed ∷ cancelling ∷ pending ∷ []
allowed cancelling = cancelled ∷ succeeded ∷ failed ∷ []
allowed failed = pending ∷ []
allowed succeeded = []
allowed cancelled = []

unfoldable pub can_transition : TaskStatus → TaskStatus → Bool
unfolding allowed
can_transition frm to = same frm to || any (same to) (allowed frm)
