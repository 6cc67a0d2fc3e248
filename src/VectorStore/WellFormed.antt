-- ===== src/VectorStore/WellFormed.antt =====
-- The methods of the vector store in memory beside others, and its invariant.
use comet_rag.Prelude.{zero, suc, ℤ, pos, negsuc, String, Option, none, some, List, arith}
use comet_rag.Dict.{values}
use comet_rag.Dict.Keys.{erase-IsDistinct, All-erase}
use comet_rag.Effect.{atomic, pause, ◌>>◌}
use comet_rag.Effect.Keeps.{Keeps, Keeps-bind, Keeps-pause, Keeps-atomic, Keeps-raise, Keeps-lift}
use comet_rag.Floats.{Floats}
use comet_rag.VectorStore.{Objects, VectorRecord, Filter}
use comet_rag.VectorStore.Memory.{
  with_collection, upsert_into, aensure_collection, aupsert, adrop_collection, asearch,
  asearch_keywords, adelete, acount, ensure_locked, delete_from, delete_locked, doomed_in,
  candidates_in,
}
use comet_rag.VectorStore.Keywords.{Term}
use comet_rag.Stores.{Stores, Collection, Result, ok, M}
use comet_rag.VectorStore.Sound.{
  IsSound, Stays, Stays-preorder, delete-Stays, ensure-Stays, upsert-Stays, with_collection-Stays,
}

module _ {F J : Type 0} where
  abbrev pub Safe : {A : Type 0} → M F J A → Type 0
  Safe m = Keeps Stays-preorder m

  -- A critical section behind its lock.
  locked-Safe :
      {A : Type 0} (f : Stores F J → Result A × Stores F J)
      → ((d : Stores F J) → Stays d (f d).1)
      → Safe (pause >> atomic f)
  locked-Safe f k =
      Keeps-bind Stays-preorder pause (λ _. atomic f) (Keeps-pause Stays-preorder)
        (λ _. Keeps-atomic Stays-preorder f k)

  pub aensure_collection-Safe : (kb_id : String) (dim : ℤ) → Safe (aensure_collection kb_id dim)
  unfolding aensure_collection
  aensure_collection-Safe kb_id (pos zero) = Keeps-raise Stays-preorder _
  aensure_collection-Safe kb_id (pos (suc n)) =
      locked-Safe (ensure_locked kb_id (suc n)) (λ d. ensure-Stays kb_id (suc n) d (omega arith))
  aensure_collection-Safe kb_id (negsuc n) = Keeps-raise Stays-preorder _

  pub aupsert-Safe : (kb_id : String) (rs : List (VectorRecord F J)) → Safe (aupsert kb_id rs)
  unfolding aupsert
  aupsert-Safe kb_id rs =
      locked-Safe (λ d. with_collection kb_id (upsert_into kb_id rs d) d)
        (λ d. with_collection-Stays kb_id (upsert_into kb_id rs d) d (upsert-Stays kb_id rs d))

  pub adrop_collection-Safe : (kb_id : String) → Safe (adrop_collection {F = F} {J = J} kb_id)
  unfolding adrop_collection
  adrop_collection-Safe kb_id = locked-Safe _ (λ d h. record {
    distinct = erase-IsDistinct kb_id d.collections h.distinct;
    sound = All-erase (λ e. IsSound e.1) kb_id d.collections h.sound;
  })

module _ {F J : Type 0} (fl : Floats F) (objects : Objects J) where
  read-Safe :
      {A : Type 0} (kb_id : String) (f : Collection F J → Result A)
      → Safe (pause >> atomic (λ d. with_collection kb_id (λ c. (f c, d)) d))
  read-Safe kb_id f =
      locked-Safe (λ d. with_collection kb_id (λ c. (f c, d)) d)
        (λ d. with_collection-Stays kb_id (λ c. (f c, d)) d (λ c s h. h))

  pub asearch-Safe :
      (kb_id : String) (query : List F) (top_k : ℤ) (filter : Option (Filter J))
      → Safe (asearch fl objects kb_id query top_k filter)
  unfolding asearch
  asearch-Safe kb_id query top_k filter =
      Keeps-bind Stays-preorder _ _ (read-Safe kb_id (candidates_in fl objects kb_id query filter))
        (λ rs. Keeps-lift Stays-preorder _)

  pub acount-Safe :
      (kb_id : String) (filter : Option (Filter J)) → Safe (acount fl objects kb_id filter)
  unfolding acount
  acount-Safe kb_id filter = read-Safe kb_id _

  locked_delete-Safe :
      (kb_id : String) (ids : Option (List String)) (filter : Option (Filter J))
      → Safe (pause >> atomic (delete_locked fl objects kb_id ids filter))
  locked_delete-Safe kb_id ids filter =
      locked-Safe (delete_locked fl objects kb_id ids filter) (λ d.
        with_collection-Stays kb_id (delete_from fl objects kb_id ids filter d) d
          (λ c. delete-Stays (doomed_in fl objects ids filter c.records) kb_id d c))

  pub adelete-Safe :
      (kb_id : String) (ids : Option (List String)) (filter : Option (Filter J))
      → Safe (adelete fl objects kb_id ids filter)
  unfolding adelete
  adelete-Safe kb_id none none = Keeps-raise Stays-preorder _
  adelete-Safe kb_id (some ids) filter = locked_delete-Safe kb_id (some ids) filter
  adelete-Safe kb_id none (some filter) = locked_delete-Safe kb_id none (some filter)

  pub asearch_keywords-Safe :
      (as_set : List Term → List Term) (kb_id query : String) (top_k : ℤ)
      (filter : Option (Filter J))
      → Safe (asearch_keywords fl objects as_set kb_id query top_k filter)
  unfolding asearch_keywords
  asearch_keywords-Safe as_set kb_id query (pos zero) filter = Keeps-raise Stays-preorder _
  asearch_keywords-Safe as_set kb_id query (negsuc n) filter = Keeps-raise Stays-preorder _
  asearch_keywords-Safe as_set kb_id query (pos (suc n)) filter =
      Keeps-bind Stays-preorder _ _ (read-Safe kb_id (λ c. ok (values c.records)))
        (λ rs. Keeps-lift Stays-preorder _)

  -- Every method of the store keeps the invariant, on each of its branches and for whatever the
  -- others do in between, if they keep it too.
  pub methods-WellFormed :
      (as_set : List Term → List Term) (kb_id : String) (dim : ℤ) (rs : List (VectorRecord F J))
      (query : List F) (words : String) (top_k : ℤ) (ids : Option (List String))
      (filter : Option (Filter J))
      → Safe (aensure_collection {F = F} {J = J} kb_id dim)
        × Safe (aupsert kb_id rs)
        × Safe (asearch fl objects kb_id query top_k filter)
        × Safe (asearch_keywords fl objects as_set kb_id words top_k filter)
        × Safe (adelete fl objects kb_id ids filter)
        × Safe (adrop_collection {F = F} {J = J} kb_id)
        × Safe (acount fl objects kb_id filter)
  methods-WellFormed as_set kb_id dim rs query words top_k ids filter = (
    aensure_collection-Safe kb_id dim,
    aupsert-Safe kb_id rs,
    asearch-Safe kb_id query top_k filter,
    asearch_keywords-Safe as_set kb_id words top_k filter,
    adelete-Safe kb_id ids filter,
    adrop_collection-Safe kb_id,
    acount-Safe kb_id filter,
  )
