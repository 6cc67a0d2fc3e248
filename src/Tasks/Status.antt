-- ===== src/Tasks/Status.antt =====
-- `TaskStatus` of comet_rag/tasks/models.py.
use comet_rag.Prelude.{ℕ, String, ◌≡◌, ◌↔◌, Bool, true, ◌||◌, arith, eqb}

pub data TaskStatus : Type 0 where
  pending running cancelling succeeded failed cancelled : TaskStatus

-- The text that an enum member is stored as.
unfoldable pub value : TaskStatus → String
value pending = "pending"
value running = "running"
value cancelling = "cancelling"
value succeeded = "succeeded"
value failed = "failed"
value cancelled = "cancelled"

abbrev rank : TaskStatus → ℕ
rank pending = 0
rank running = 1
rank cancelling = 2
rank succeeded = 3
rank failed = 4
rank cancelled = 5

-- `a is b`
abbrev pub same : TaskStatus → TaskStatus → Bool
same a b = eqb (rank a) (rank b)

unfoldable pub is_terminal : TaskStatus → Bool
is_terminal s = same s succeeded || same s failed || same s cancelled

unfoldable pub is_active : TaskStatus → Bool
is_active s = same s running || same s cancelling

pub same_iff : (a b : TaskStatus) → (same a b ≡ true) ↔ (a ≡ b)
same_iff a b = ground arith
