-- ===== src/Knowledge/Create.antt =====
-- `create` beside other requests that create knowledge bases or write into them.
use comet_rag.Prelude.{String, ◌≡◌, refl, sym, ap, ◌∙◌, subst, Option, none, some, arith, eq_iff}
use comet_rag.Dict.{lookup}
use comet_rag.Effect.{lift, gets, ◌>>=◌, ◌>>◌}
use comet_rag.Effect.Keeps.{Friendly, Keeps, Keeps-bind, Keeps-pause, Keeps-atomic}
use comet_rag.Effect.Gives.{
  Gives, attempt_Gives, bind_Gives, pure_Gives, raise_Gives, lift_Gives, carried_Gives,
  locked_Gives, weaken_Gives,
}
use comet_rag.Floats.{Floats}
use comet_rag.VectorStore.{Objects}
use comet_rag.VectorStore.Memory.{aensure_collection, acount}
use comet_rag.VectorStore.Sound.{with_collection_read}
use comet_rag.Knowledge.{
  row_of, aget, arequire, assert_model_matches, KnowledgeBaseSpec, KnowledgeBaseService, uncounted,
  view, adopt, lost_race, create_with, create_found, create,
}
use comet_rag.Stores.{Stores, KnowledgeBase, Error, knowledge_base_exists, interrupted, ok, World}
use comet_rag.Knowledge.Grows.{
  Grows, Grows-preorder, HasDim, HasRow, Ready, acreate_Gives, ensure_Gives, same_Grows,
}

module _ {F J : Type 0} (fl : Floats F) (objects : Objects J) where
  acount-Keeps : (kb_id : String) → Keeps Grows-preorder (acount fl objects kb_id none)
  unfolding acount
  acount-Keeps kb_id = Keeps-bind Grows-preorder _ _ (Keeps-pause Grows-preorder) (λ _.
      Keeps-atomic Grows-preorder _
        (λ d. subst (Grows d) (sym (with_collection_read kb_id _ d)) (same_Grows d)))

  uncounted_Gives :
      (Q : Stores F J → Type 0) (kb : KnowledgeBase) (e : Error) (w : World F J)
      → Friendly Grows-preorder w.others
      → Q w.db
      → Gives Grows-preorder w
          (uncounted fl objects kb e w)
          (λ v d. (v.kb_id ≡ kb.kb_id) × (v.embedding_model ≡ kb.embedding_model) × Q d)
  uncounted_Gives Q kb (interrupted name) w h q = raise_Gives Grows-preorder _ _ w h
  uncounted_Gives Q kb _ w h q = pure_Gives Grows-preorder _ _ w h (refl, refl, q)

  -- The view of a base, with what the growth of the stores carries along.
  view_Gives :
      (Q : Stores F J → Type 0) (kb : KnowledgeBase) (w : World F J)
      → Friendly Grows-preorder w.others
      → ((d : Stores F J) → Grows w.db d → Q d)
      → Gives Grows-preorder w
          (view fl objects kb w)
          (λ v d. (v.kb_id ≡ kb.kb_id) × (v.embedding_model ≡ kb.embedding_model) × Q d)
  unfolding view
  view_Gives Q kb w h q =
      attempt_Gives Grows-preorder _ _ _ w
        (carried_Gives Grows-preorder Q _ w (acount-Keeps kb.kb_id) h q)
        (λ n f k. pure_Gives Grows-preorder _ _ _ f (refl, refl, k))
        (λ e st. uncounted_Gives Q kb e _ st.friendly (q _ st.moved))

  module _ (service : KnowledgeBaseService) where
    adopt_Gives :
        (row : KnowledgeBase) (kb_id : String) (w : World F J)
        → Friendly Grows-preorder w.others
        → HasRow kb_id row w.db
        → Gives Grows-preorder w (adopt fl objects service row w) (Ready service kb_id)
    unfolding adopt assert_model_matches
    adopt_Gives row kb_id w h there =
        bind_Gives Grows-preorder
          {Q = λ a d.
            HasDim row.kb_id row.embedding_dim d
            × HasRow kb_id row d
            × (row.embedding_model ≡ service.model)}
          (lift (assert_model_matches service.model row)
            >> aensure_collection row.kb_id row.embedding_dim)
          (λ _. view fl objects row) w
          (bind_Gives Grows-preorder
            {Q = λ a d. (row.embedding_model ≡ service.model) × HasRow kb_id row d}
            (lift (assert_model_matches service.model row))
            (λ _. aensure_collection row.kb_id row.embedding_dim) w
            (lift_Gives Grows-preorder _ _ w h
              (λ a e. (ground (arith, e, eq_iff row.embedding_model service.model), there)))
            (λ a f k.
              weaken_Gives Grows-preorder _ _ (ensure_Gives row.kb_id row.embedding_dim _ f)
                (λ b g x. (x, g.rows kb_id row k.1, k.0))))
          (λ a f k.
            weaken_Gives Grows-preorder _ _
              (view_Gives (λ d. HasDim row.kb_id row.embedding_dim d × HasRow kb_id row d) row _ f
                (λ d g. (g.dims row.kb_id row.embedding_dim k.0, g.rows kb_id row k.1)))
              (λ v g x. (row, x.2.1, k.2, x.2.0, x.0, x.1 ∙ k.2)))

    found_row :
        (kb_id : String) (o : Option KnowledgeBase) (row : KnowledgeBase)
        → row_of kb_id o ≡ ok row
        → o ≡ some row
    found_row kb_id none row e = absurd (cc)
    found_row kb_id (some r) row e = cc

    arequire_Gives :
        (kb_id : String) (w : World F J)
        → Friendly Grows-preorder w.others
        → Gives Grows-preorder w (arequire kb_id w) (λ row. HasRow kb_id row)
    unfolding arequire aget
    arequire_Gives kb_id w h =
        bind_Gives Grows-preorder {Q = λ o d. lookup kb_id d.rows ≡ o} _ _ w
          (locked_Gives Grows-preorder _ _ w h (λ d g. (same_Grows d, λ a e. cc)))
          (λ o f k. lift_Gives Grows-preorder _ _ _ f (λ row e. k ∙ found_row kb_id o row e))

    lost_race_Gives :
        (kb_id : String) (e : Error) (w : World F J)
        → Friendly Grows-preorder w.others
        → Gives Grows-preorder w (lost_race fl objects service kb_id e w) (Ready service kb_id)
    lost_race_Gives kb_id (knowledge_base_exists id) w h =
        bind_Gives Grows-preorder _ _ w (arequire_Gives kb_id w h)
          (λ row f k. adopt_Gives row kb_id _ f k)
    lost_race_Gives kb_id _ w h = raise_Gives Grows-preorder _ _ w h

    create_with_Gives :
        (kb : KnowledgeBase) (w : World F J)
        → kb.embedding_model ≡ service.model
        → Friendly Grows-preorder w.others
        → Gives Grows-preorder w (create_with fl objects service kb w) (Ready service kb.kb_id)
    create_with_Gives kb w m h =
        bind_Gives Grows-preorder _ _ w (ensure_Gives kb.kb_id kb.embedding_dim w h) (λ a f dim.
          attempt_Gives Grows-preorder _ _ _ _ (acreate_Gives kb _ f dim)
            (λ created g k.
              weaken_Gives Grows-preorder _ _
                (view_Gives (λ d. HasRow kb.kb_id kb d × HasDim kb.kb_id kb.embedding_dim d) created
                  _ g (λ d r. (r.rows kb.kb_id kb k.1, r.dims kb.kb_id kb.embedding_dim k.2)))
                (λ v r x. (
                  kb,
                  x.2.0,
                  m,
                  x.2.1,
                  x.0 ∙ ap (λ b. b.kb_id) k.0,
                  x.1 ∙ ap (λ b. b.embedding_model) k.0 ∙ m,
                )))
            (λ e st. lost_race_Gives kb.kb_id e _ st.friendly))

    create_found_Gives :
        (spec : KnowledgeBaseSpec) (o : Option KnowledgeBase) (w : World F J)
        → Friendly Grows-preorder w.others
        → lookup spec.kb_id w.db.rows ≡ o
        → Gives Grows-preorder w
            (create_found fl objects service spec o w)
            (Ready service spec.kb_id)
    unfolding gets ◌>>=◌
    create_found_Gives spec none w h e = create_with_Gives _ w refl h
    create_found_Gives spec (some row) w h e = adopt_Gives row spec.kb_id w h e

    -- If the others only create knowledge bases and collections, or add records under new ids, then,
    -- whether `create` returns or raises, every knowledge base that was there is there unchanged,
    -- and every collection still has its dimension and all its records as they were. Where it
    -- returns, a base with the request's id is there, with the service's model; its collection is
    -- there with its dimension; and the view tells of this base and model. This holds for the
    -- request that loses a race too.
    pub create_Gives :
        (spec : KnowledgeBaseSpec) (w : World F J)
        → Friendly Grows-preorder w.others
        → Gives Grows-preorder w (create fl objects service spec w) (Ready service spec.kb_id)
    unfolding create aget
    create_Gives spec w h =
        bind_Gives Grows-preorder {Q = λ o d. lookup spec.kb_id d.rows ≡ o} _ _ w
          (locked_Gives Grows-preorder _ _ w h (λ d g. (same_Grows d, λ a e. cc)))
          (λ o f k. create_found_Gives spec o _ f k)
