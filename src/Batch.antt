-- ===== src/Batch.antt =====
-- The batches of comet_rag/engines/embedding/batch.py. The model's `embed_batch` is a parameter,
-- which fails or gives vectors; the blocks are sent one by one or at the same time, and their
-- results are joined in the order of the blocks.
pub mod Order
use comet_rag.Prelude.{
  ℕ, zero, suc, Bool, Option, none, some, List, [], ◌∷◌, ◌++◌, eqb, if◌then◌else◌, length, take,
  drop,
}

pub data Error : Type 0 where
  bad_concurrency bad_limit : Error
  misaligned : ℕ → ℕ → Error
  model_failed : Error

pub data Result (A : Type 0) : Type 0 where
  ok : A → Result A
  err : Error → Result A

module _ {D : Type 0} where
  -- `documents[i : i + limit]` for i in steps of the limit: at most one block for each document
  unfoldable pub blocks : ℕ → ℕ → List D → List (List D)
  blocks zero limit documents = []
  blocks (suc fuel) limit [] = []
  blocks (suc fuel) limit (d ∷ documents) =
      take limit (d ∷ documents) ∷ blocks fuel limit (drop limit (d ∷ documents))

  -- `_plan`
  unfoldable pub plan : ℕ → ℕ → List D → Result (List (List D))
  unfolding blocks
  plan batch_limit max_concurrency documents =
      if eqb max_concurrency 0
      then err bad_concurrency
      else if eqb batch_limit 0
      then err bad_limit
      else ok (blocks (length documents) batch_limit documents)

module _ {V : Type 0} where
  unfoldable pub flatten : List (List V) → List V
  flatten [] = []
  flatten (block ∷ rest) = block ++ flatten rest

  -- `_joined`
  unfoldable pub joined : List (List V) → ℕ → Result (List V)
  unfolding flatten
  joined vectors expected =
      if eqb (length (flatten vectors)) expected
      then ok (flatten vectors)
      else err (misaligned (length (flatten vectors)) expected)

  abbrev pub join_results : ℕ → Option (List (List V)) → Result (List V)
  join_results expected none = err model_failed
  join_results expected (some vectors) = joined vectors expected

  abbrev pub both : Option (List V) → Option (List (List V)) → Option (List (List V))
  both none others = none
  both (some vectors) none = none
  both (some vectors) (some others) = some (vectors ∷ others)

module _ {D V : Type 0} where
  -- A block that fails ends it all.
  unfoldable pub embed_all : (List D → Option (List V)) → List (List D) → Option (List (List V))
  embed_all embed_batch [] = some []
  embed_all embed_batch (block ∷ rest) = both (embed_batch block) (embed_all embed_batch rest)

  abbrev pub embed_blocks :
      (List D → Option (List V)) → ℕ → Result (List (List D)) → Result (List V)
  embed_blocks embed_batch expected (err e) = err e
  embed_blocks embed_batch expected (ok []) = ok []
  embed_blocks embed_batch expected (ok (block ∷ rest)) =
      join_results expected (embed_all embed_batch (block ∷ rest))

  -- `embed_documents` and `aembed_documents`
  unfoldable pub embed_documents : (List D → Option (List V)) → ℕ → ℕ → List D → Result (List V)
  unfolding plan joined embed_all
  embed_documents embed_batch batch_limit max_concurrency documents =
      embed_blocks embed_batch (length documents) (plan batch_limit max_concurrency documents)
