-- ===== src/Knowledge/Grows.antt =====
-- Stores that only grow, and the steps of `create` on them.
use comet_rag.Prelude.{
  ℕ, zero, suc, ℤ, pos, negsuc, String, ◌≡◌, refl, ap, none, some, [], arith, eq_iff, eqb, eqb→eq,
  if-elim, option-elim, if◌then◌else◌,
}
use comet_rag.Dict.{lookup, insert, lookup-insert, lookup-insert_own}
use comet_rag.Effect.{atomic, pause, ◌>>◌}
use comet_rag.Effect.Keeps.{Preorder, Friendly, Keeps, Keeps-bind, Keeps-pause, Keeps-atomic}
use comet_rag.Effect.Gives.{Gives, raise_Gives, locked_Gives}
use comet_rag.VectorStore.{VectorRecord}
use comet_rag.VectorStore.Memory.{aensure_collection, ensure_locked}
use comet_rag.Knowledge.{acreate, KnowledgeBaseView, KnowledgeBaseService, create_locked}
use comet_rag.Stores.{
  Stores, Collection, KnowledgeBase, Error, dimension_mismatch, knowledge_base_exists, Result, ok,
  err, World,
}

module _ {F J : Type 0} where
  abbrev pub HasRow : String → KnowledgeBase → Stores F J → Type 0
  HasRow k row d = lookup k d.rows ≡ some row

  abbrev pub HasDim : String → ℤ → Stores F J → Type 0
  HasDim k dim d = (c : Collection F J) × (lookup k d.collections ≡ some c) × (pos c.dim ≡ dim)

  abbrev pub HasRecord : String → String → VectorRecord F J → Stores F J → Type 0
  HasRecord k id r d =
      (c : Collection F J) × (lookup k d.collections ≡ some c) × (lookup id c.records ≡ some r)

  -- Nothing that is there goes away or changes: a knowledge base stays as it is, and a collection
  -- keeps its dimension and its records.
  pub record Grows (d e : Stores F J) : Type 0 where
    pub rows : (k : String) (row : KnowledgeBase) → HasRow k row d → HasRow k row e
    pub dims : (k : String) (dim : ℤ) → HasDim k dim d → HasDim k dim e
    pub records : (k id : String) (r : VectorRecord F J) → HasRecord k id r d → HasRecord k id r e

  pub Grows-preorder : Preorder Grows
  Grows-preorder = record {
    same = λ d. record { rows = λ k row h. h; dims = λ k dim h. h; records = λ k id r h. h };
    trans = λ d e f p q. record {
      rows = λ k row h. q.rows k row (p.rows k row h);
      dims = λ k dim h. q.dims k dim (p.dims k dim h);
      records = λ k id r h. q.records k id r (p.records k id r h);
    };
  }

  -- The base that a request has made sure of.
  abbrev pub Ready : KnowledgeBaseService → String → KnowledgeBaseView → Stores F J → Type 0
  Ready service kb_id v d =
      (row : KnowledgeBase) × HasRow kb_id row d
      × (row.embedding_model ≡ service.model)
      × HasDim row.kb_id row.embedding_dim d
      × (v.kb_id ≡ row.kb_id)
      × (v.embedding_model ≡ service.model)

  pub same_Grows : (d : Stores F J) → Grows d d
  same_Grows d = Grows-preorder.same d

  insert_Grows :
      (kb_id : String) (c : Collection F J) (d : Stores F J)
      → lookup kb_id d.collections ≡ none
      → Grows d (record d { collections = insert kb_id c d.collections })
  insert_Grows kb_id c d e = record {
    rows = λ k row h. h;
    dims = λ k dim h.
        (h.0, ground (arith, e, h.1, eq_iff kb_id k, lookup-insert kb_id k c d.collections), h.2);
    records = λ k id r h.
        (h.0, ground (arith, e, h.1, eq_iff kb_id k, lookup-insert kb_id k c d.collections), h.2);
  }

  ensure_gives :
      (kb_id : String) (n : ℕ) (d : Stores F J)
      → let r = ensure_locked kb_id n d in Grows d r.1 × (r.0 ≡ ok tt → HasDim kb_id (pos n) r.1)
  ensure_gives kb_id n d =
      let c : Collection F J = record { dim = n; records = [] } in
      option-elim
        (λ (r : Result (Unit {0}) × Stores F J).
          Grows d r.1 × (r.0 ≡ ok tt → HasDim kb_id (pos n) r.1))
        (lookup kb_id d.collections)
        (ok tt, record d { collections = insert kb_id c d.collections })
        (λ existing.
          if eqb existing.dim n
          then (ok tt, d)
          else (err (dimension_mismatch kb_id existing.dim (pos n)), d))
        (λ e. (insert_Grows kb_id c d e, λ t. (c, lookup-insert_own kb_id c d.collections, refl)))
        (λ existing e.
          if-elim
            (λ (r : Result (Unit {0}) × Stores F J).
              Grows d r.1 × (r.0 ≡ ok tt → HasDim kb_id (pos n) r.1))
            (eqb existing.dim n) (ok tt, d) (err (dimension_mismatch kb_id existing.dim (pos n)), d)
            (λ t. (same_Grows d, λ u. (existing, e, ap pos (eqb→eq existing.dim n t))))
            (λ t. (same_Grows d, λ u. absurd (cc))))

  -- The base's collection is there with its dimension.
  pub ensure_Gives :
      (kb_id : String) (dim : ℤ) (w : World F J)
      → Friendly Grows-preorder w.others
      → Gives Grows-preorder w (aensure_collection kb_id dim w) (λ a. HasDim kb_id dim)
  unfolding aensure_collection
  ensure_Gives kb_id (pos zero) w h = raise_Gives Grows-preorder _ _ w h
  ensure_Gives kb_id (negsuc n) w h = raise_Gives Grows-preorder _ _ w h
  ensure_Gives kb_id (pos (suc n)) w h =
      locked_Gives Grows-preorder _ (ensure_locked kb_id (suc n)) w h
        (λ d g. let r = ensure_gives kb_id (suc n) d in (r.0, λ a e. r.1 e))

  create_gives :
      (kb : KnowledgeBase) (d : Stores F J)
      → let r = create_locked kb d in
        Grows d r.1 × ((a : KnowledgeBase) → r.0 ≡ ok a → (a ≡ kb) × HasRow kb.kb_id kb r.1)
  create_gives kb d =
      option-elim
        (λ (r : Result KnowledgeBase × Stores F J).
          Grows d r.1 × ((a : KnowledgeBase) → r.0 ≡ ok a → (a ≡ kb) × HasRow kb.kb_id kb r.1))
        (lookup kb.kb_id d.rows) (ok kb, record d { rows = insert kb.kb_id kb d.rows })
        (λ row. (err (knowledge_base_exists kb.kb_id), d))
        (λ e. (
          record {
            rows = λ k row h.
                ground (arith, e, h, eq_iff kb.kb_id k, lookup-insert kb.kb_id k kb d.rows);
            dims = λ k dim h. h;
            records = λ k id r h. h;
          },
          λ a t. (cc, lookup-insert_own kb.kb_id kb d.rows),
        ))
        (λ row e. (same_Grows d, λ a t. absurd (cc)))

  pub acreate_Gives :
      (kb : KnowledgeBase) (w : World F J)
      → Friendly Grows-preorder w.others
      → HasDim kb.kb_id kb.embedding_dim w.db
      → Gives Grows-preorder w
          (acreate kb w)
          (λ a d. (a ≡ kb) × HasRow kb.kb_id kb d × HasDim kb.kb_id kb.embedding_dim d)
  unfolding acreate
  acreate_Gives kb w h dim = locked_Gives Grows-preorder _ (create_locked kb) w h (λ d g.
      let r = create_gives kb d in
      (
        r.0,
        λ a e. (
          (r.1 a e).0,
          (r.1 a e).1,
          r.0.dims kb.kb_id kb.embedding_dim (g.dims kb.kb_id kb.embedding_dim dim),
        ),
      ))

  read_Keeps :
      {A : Type 0} (f : Stores F J → A)
      → Keeps Grows-preorder {E = Error} (pause >> atomic (λ d. (ok (f d), d)))
  read_Keeps f =
      Keeps-bind Grows-preorder _ _ (Keeps-pause Grows-preorder)
        (λ _. Keeps-atomic Grows-preorder _ (λ d. same_Grows d))
