-- ===== src/Knowledge.antt =====
-- Knowledge bases: the repository in memory of
-- comet_rag/infrastructure/persistence/knowledge_base/memory.py, `arequire` and
-- `assert_model_matches` of comet_rag/ports/knowledge_base.py, and the service of
-- comet_rag/services/knowledge_base.py over the repository and the vector store.
pub mod Grows
pub mod Create
pub mod Quiet
use comet_rag.Prelude.{
  ℕ, ◌+◌, ℤ, pos, negsuc, String, Bool, true, false, Option, none, some, List, [], ◌∷◌, ◌==◌, ltb,
  if◌then◌else◌, take, drop, sort,
}
use comet_rag.Dict.{Dict, lookup, insert, erase, values}
use comet_rag.Effect.{pure, raise, lift, gets, atomic, attempt, pause, ◌>>=◌, ◌>>◌}
use comet_rag.Floats.{Floats}
use comet_rag.VectorStore.{Objects}
use comet_rag.VectorStore.Memory.{aensure_collection, adrop_collection, acount}
use comet_rag.Stores.{
  Stores, KnowledgeBase, Error, knowledge_base_not_found, knowledge_base_exists,
  embedding_model_changed, interrupted, Result, ok, err, M,
}

abbrev pub newer : KnowledgeBase → KnowledgeBase → Bool
newer x y = ltb y.created_at x.created_at

abbrev pub is_some : Option KnowledgeBase → Bool
is_some none = false
is_some (some row) = true

abbrev pub row_of : String → Option KnowledgeBase → Result KnowledgeBase
row_of kb_id none = err (knowledge_base_not_found kb_id)
row_of kb_id (some row) = ok row

module _ {F J : Type 0} where
  abbrev pub create_locked : KnowledgeBase → Stores F J → Result KnowledgeBase × Stores F J
  create_locked kb d = elim (lookup kb.kb_id d.rows) [
    | some row ↦ (err (knowledge_base_exists kb.kb_id), d)
    | none ↦ (ok kb, record d { rows = insert kb.kb_id kb d.rows })
  ]

  -- `acreate`
  unfoldable pub acreate : KnowledgeBase → M F J KnowledgeBase
  acreate kb = pause >> atomic (create_locked kb)

  -- `aget`
  unfoldable pub aget : String → M F J (Option KnowledgeBase)
  aget kb_id = pause >> atomic (λ d. (ok (lookup kb_id d.rows), d))

  -- `alist`: `sorted(…, reverse=True)` leaves equal times in their order
  unfoldable pub alist : ℕ → ℕ → M F J (List KnowledgeBase)
  alist limit offset =
      pause >> atomic (λ d. (ok (take limit (drop offset (sort newer (values d.rows)))), d))

  -- `adelete`
  unfoldable pub remove_row : String → M F J Bool
  remove_row kb_id =
      pause
      >> atomic (λ d. (ok (is_some (lookup kb_id d.rows)), record d { rows = erase kb_id d.rows }))

  -- `arequire`
  unfoldable pub arequire : String → M F J KnowledgeBase
  unfolding aget
  arequire kb_id = aget kb_id >>= λ o. lift (row_of kb_id o)

-- `assert_model_matches`
unfoldable pub assert_model_matches : String → KnowledgeBase → Result (Unit {0})
assert_model_matches model kb =
    if kb.embedding_model == model
    then ok tt
    else err (embedding_model_changed kb.kb_id kb.embedding_model model)

pub record KnowledgeBaseSpec : Type 0 where
  pub kb_id : String
  pub name : Option String
  pub description : Option String

-- The times are those that `isoformat` prints.
pub record KnowledgeBaseView : Type 0 where
  pub kb_id : String
  pub name : String
  pub embedding_model : String
  pub embedding_dim : ℤ
  pub chunk_count : ℤ
  pub description : Option String
  pub created_at : ℕ
  pub updated_at : ℕ

-- What the service is made with.
pub record KnowledgeBaseService : Type 0 where
  pub model : String
  pub dim : ℤ

-- `spec.name or spec.kb_id`
abbrev pub name_or : Option String → String → String
name_or none kb_id = kb_id
name_or (some name) kb_id = if name == "" then kb_id else name

abbrev pub new_base : KnowledgeBaseService → KnowledgeBaseSpec → ℕ → ℕ → KnowledgeBase
new_base service spec created updated = record {
  kb_id = spec.kb_id;
  name = name_or spec.name spec.kb_id;
  embedding_model = service.model;
  embedding_dim = service.dim;
  description = spec.description;
  created_at = created;
  updated_at = updated;
}

abbrev pub view_with : KnowledgeBase → ℤ → KnowledgeBaseView
view_with kb count = record {
  kb_id = kb.kb_id;
  name = kb.name;
  embedding_model = kb.embedding_model;
  embedding_dim = kb.embedding_dim;
  chunk_count = count;
  description = kb.description;
  created_at = kb.created_at;
  updated_at = kb.updated_at;
}

module _ {F J : Type 0} (fl : Floats F) (objects : Objects J) where
  -- `except Exception`: a count that fails is -1
  abbrev pub uncounted : KnowledgeBase → Error → M F J KnowledgeBaseView
  uncounted kb (interrupted name) = raise (interrupted name)
  uncounted kb e = pure (view_with kb (negsuc 0))

  -- `_view`
  unfoldable pub view : KnowledgeBase → M F J KnowledgeBaseView
  view kb =
      attempt (acount fl objects kb.kb_id none) (λ n. pure (view_with kb (pos n))) (uncounted kb)

  -- `get`
  unfoldable pub get : String → M F J KnowledgeBaseView
  unfolding arequire view
  get kb_id = arequire kb_id >>= view

  abbrev pub views : List KnowledgeBase → M F J (List KnowledgeBaseView)
  views [] = pure []
  views (row ∷ rows) = let rest = views rows in view row >>= λ v. rest >>= λ vs. pure (v ∷ vs)

  -- `list`
  unfoldable pub list_bases : ℕ → ℕ → M F J (List KnowledgeBaseView)
  unfolding alist view
  list_bases limit offset = alist limit offset >>= views

  module _ (service : KnowledgeBaseService) where
    -- The base is there: its model has to be the service's, and its collection is made sure of.
    unfoldable pub adopt : KnowledgeBase → M F J KnowledgeBaseView
    unfolding assert_model_matches view
    adopt kb =
        lift (assert_model_matches service.model kb)
        >> aensure_collection kb.kb_id kb.embedding_dim
        >> view kb

    -- `except KnowledgeBaseExists`
    abbrev pub lost_race : String → Error → M F J KnowledgeBaseView
    lost_race kb_id (knowledge_base_exists id) = arequire kb_id >>= adopt
    lost_race kb_id e = raise e

    abbrev pub create_with : KnowledgeBase → M F J KnowledgeBaseView
    create_with kb =
        aensure_collection kb.kb_id kb.embedding_dim
        >> attempt (acreate kb) view (lost_race kb.kb_id)

    abbrev pub create_found : KnowledgeBaseSpec → Option KnowledgeBase → M F J KnowledgeBaseView
    create_found spec (some existing) = adopt existing
    create_found spec none = gets (λ d. d.clock) >>= λ created.
        gets (λ d. d.clock) >>= λ updated. create_with (new_base service spec created updated)

    -- `create`
    unfoldable pub create : KnowledgeBaseSpec → M F J KnowledgeBaseView
    unfolding aget acreate arequire adopt view
    create spec = aget spec.kb_id >>= create_found spec

module _ {F J : Type 0} where
  abbrev pub delete_found : String → Option KnowledgeBase → M F J Bool
  delete_found kb_id none = pure false
  delete_found kb_id (some kb) = adrop_collection kb_id >> remove_row kb_id

  -- `delete`
  unfoldable pub delete : String → M F J Bool
  unfolding aget remove_row
  delete kb_id = aget kb_id >>= delete_found kb_id

  module _ (service : KnowledgeBaseService) where
    -- `resolve_for_ingest` and `resolve_for_search`
    unfoldable pub resolve : String → M F J KnowledgeBase
    unfolding arequire assert_model_matches
    resolve kb_id = arequire kb_id >>= λ kb. lift (assert_model_matches service.model kb) >> pure kb
