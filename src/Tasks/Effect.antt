-- ===== src/Tasks/Effect.antt =====
-- Coroutines of comet_rag/tasks: their state is the tables of the store, with the clock, which moves
-- only while others run.
pub mod Keeps
pub mod Runs
use comet_rag.Prelude.{ℕ, List}
use comet_rag.Dict.{Dict}
use comet_rag.Effect
pub use comet_rag.Effect.{ok, err}
unfoldable pub use comet_rag.Effect.{
  pure, raise, lift, gets, atomic, proceed, ◌>>=◌, ◌>>◌, attempt, wake, pause,
}
use comet_rag.Tasks.Error.{Error}
use comet_rag.Tasks.Models.{Task, TaskEvent}

-- `InMemoryTaskStore._tasks` and `._events`, and the clock that `Time.now()` reads.
pub record Db : Type 0 where
  pub tasks : Dict Task
  pub events : Dict (List TaskEvent)
  pub clock : ℕ

abbrev pub World : Type 0
World = Effect.World Db

abbrev pub Result : Type 0 → Type 0
Result A = Effect.Result Error A

abbrev pub M : Type 0 → Type 0
M A = Effect.M Db Error A

unfoldable pub now : M ℕ
now w = (ok w.db.clock, w)
