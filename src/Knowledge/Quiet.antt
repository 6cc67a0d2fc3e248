-- ===== src/Knowledge/Quiet.antt =====
-- The service when nobody interrupts it: what it returns, and what it leaves.
use comet_rag.Prelude.{
  ℕ, suc, pos, String, ◌≡◌, ◌≢◌, true, false, none, some, arith, eq_iff, length, keep,
}
use comet_rag.Dict.{lookup, erase, values}
use comet_rag.Effect.{pure, raise, lift, gets, atomic, attempt, pause, ◌>>=◌}
use comet_rag.Effect.Runs.{quiet}
use comet_rag.Floats.{Floats}
use comet_rag.VectorStore.{Objects}
use comet_rag.VectorStore.Memory.{
  aensure_collection, adrop_collection, acount, require_collection, passes,
}
use comet_rag.Knowledge.{
  aget, arequire, remove_row, assert_model_matches, KnowledgeBaseSpec, KnowledgeBaseService,
  view_with, view, adopt, create, delete, resolve,
}
use comet_rag.Stores.{Stores, Collection, KnowledgeBase, embedding_model_changed, ok, err}

module _ {F J : Type 0} (fl : Floats F) (objects : Objects J) (service : KnowledgeBaseService)
    (d : Stores F J) where
  -- Nobody interrupts. If the base is there with the service's model, and its collection is there
  -- with its dimension, then `create` returns its view, with the number of records of the
  -- collection, and changes nothing.
  pub create-repeated :
      (spec : KnowledgeBaseSpec) (row : KnowledgeBase) (c : Collection F J) (n : ℕ)
      → lookup spec.kb_id d.rows ≡ some row
      → row.embedding_model ≡ service.model
      → lookup row.kb_id d.collections ≡ some c
      → c.dim ≡ suc n
      → row.embedding_dim ≡ pos (suc n)
      → create fl objects service spec (quiet d) ≡ (
        ok (view_with row (pos (length (keep (passes fl objects none) (values c.records))))),
        quiet d,
      )
  unfolding create adopt view aget assert_model_matches aensure_collection acount require_collection
      pure raise lift gets atomic attempt pause ◌>>=◌
  create-repeated spec row c n there model coll dim edim =
      ground (arith, there, model, coll, dim, edim, eq_iff row.embedding_model service.model)

  -- Nobody interrupts. If the base is there with another model, `create` and both resolvers raise
  -- and change nothing.
  pub create-refused :
      (spec : KnowledgeBaseSpec) (row : KnowledgeBase)
      → lookup spec.kb_id d.rows ≡ some row
      → row.embedding_model ≢ service.model
      → let e = embedding_model_changed row.kb_id row.embedding_model service.model in
        (create fl objects service spec (quiet d) ≡ (err e, quiet d))
        × (resolve service spec.kb_id (quiet d) ≡ (err e, quiet d))
  unfolding create adopt aget arequire resolve assert_model_matches pure raise lift gets atomic
      attempt pause ◌>>=◌
  create-refused spec row there other =
      ground (arith, there, other, eq_iff row.embedding_model service.model)

module _ {F J : Type 0} (d : Stores F J) where
  -- Nobody interrupts. `delete` of a base that is there returns true, and neither the base nor its
  -- collection is there afterwards; of any other it returns false and changes nothing.
  pub delete_lem :
      (kb_id : String)
      → delete kb_id (quiet d) ≡ (elim (lookup kb_id d.rows) [
        | none ↦ (ok false, quiet d)
        | some row ↦ (
          ok true,
          quiet (record d { rows = erase kb_id d.rows; collections = erase kb_id d.collections }),
        )
      ])
  unfolding delete aget remove_row adrop_collection pure atomic pause ◌>>=◌
  delete_lem kb_id = ground arith
