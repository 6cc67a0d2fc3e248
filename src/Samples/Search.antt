-- ===== src/Samples/Search.antt =====
-- Runs of comet_rag/engines/retrieval/fusion.py, of the vector store in memory and of the knowledge
-- bases, on a store of three records.
use mathlib.Core.List.{Perm}
use comet_rag.Prelude.{
  ℕ, min, ℤ, pos, String, ◌≡◌, refl, Option, none, some, List, [], ◌∷◌, ◌++◌, arith, eqb, length,
  map, keep, is_blank, is_space, sort, put_in,
}
use comet_rag.Dict.{Dict, lookup, insert, values}
use comet_rag.Keyed.{find_key, IsDistinctBy}
use comet_rag.Effect.{World}
use comet_rag.Effect.Keeps.{Keeps, Friendly}
use comet_rag.Effect.Gives.{Gives}
use comet_rag.Effect.Runs.{quiet}
use comet_rag.Floats.Ranking.{IsRanked, ranks_before}
use comet_rag.Fusion
use comet_rag.Fusion.{FusedHit, reciprocal_rank_fusion, default_rrf_k}
use comet_rag.Fusion.Loop.{expected_hit}
use comet_rag.Fusion.Outcome.{reciprocal_rank_fusion_lem}
use comet_rag.VectorStore.{Objects, VectorRecord, SearchHit, Filter, exactly}
use comet_rag.VectorStore.Memory.{
  aensure_collection, asearch, asearch_keywords, adelete, aupsert, adrop_collection, acount, passes,
}
use comet_rag.VectorStore.Keywords.{Term}
use comet_rag.VectorStore.WellFormed.{methods-WellFormed}
use comet_rag.VectorStore.Sound.{WellFormed, Stays-preorder}
use comet_rag.VectorStore.Search.{scored_hit, asearch_lem}
use comet_rag.VectorStore.Refines.{Agrees, view, write, aupsert-Agrees}
use comet_rag.VectorStore.Deletes.{Deleted, adelete-Deleted}
use comet_rag.Knowledge.{KnowledgeBaseSpec, KnowledgeBaseService, create}
use comet_rag.Knowledge.Create.{create_Gives}
use comet_rag.Knowledge.Grows.{Grows-preorder, Ready}
use comet_rag.Stores.{Stores, Collection, KnowledgeBase, ok}
use comet_rag.Samples.Numbers.{numbers, numbers-IsOrdered}

abbrev pub objects : Objects ℕ
objects = record { null = 0; equal = eqb }

abbrev hit : String → ℕ → SearchHit ℤ ℕ
hit id score = record { id = id; text = "text"; score = pos score; metadata = [] }

abbrev by_vector : List (SearchHit ℤ ℕ)
by_vector = hit "a" 900 ∷ hit "b" 800 ∷ hit "a" 100 ∷ []

abbrev pub by_keyword : List (SearchHit ℤ ℕ)
by_keyword = hit "b" 5000 ∷ hit "c" 4000 ∷ []

abbrev channels : Dict (List (SearchHit ℤ ℕ))
channels = ("dense", by_vector) ∷ ("keyword", by_keyword) ∷ []

abbrev id_of : FusedHit ℤ ℕ → String
id_of h = h.id

abbrev fused_score : FusedHit ℤ ℕ → ℤ
fused_score h = h.score

-- Both channels have b, so it comes first.
abbrev ids : Fusion.Result (List (FusedHit ℤ ℕ)) → List String
ids (Fusion.ok hits) = map id_of hits
ids (Fusion.err e) = []

fused_order : ids (reciprocal_rank_fusion numbers channels default_rrf_k) ≡ "b" ∷ "a" ∷ "c" ∷ []
unfolding reciprocal_rank_fusion Fusion.fuse_channels Fusion.fuse_hits Fusion.count_hit
    Fusion.setdefault Fusion.fused_hits lookup insert is_blank is_space sort put_in ranks_before
fused_order = refl

reciprocal_rank_fusion_lem_example :
    (hits : List (FusedHit ℤ ℕ)) × (reciprocal_rank_fusion numbers channels (pos 60)
      ≡ Fusion.ok hits)
    × IsRanked numbers fused_score id_of hits
    × IsDistinctBy id_of hits
    × ((id : String) → find_key id_of id hits ≡ expected_hit numbers 60 id channels none)
unfolding is_blank is_space
reciprocal_rank_fusion_lem_example =
    reciprocal_rank_fusion_lem numbers numbers-IsOrdered channels 59 (refl, (refl, tt))

abbrev entry : String → ℕ → ℕ → ℕ → VectorRecord ℤ ℕ
entry id x y kind = record {
  id = id;
  text = "text";
  embedding = pos x ∷ pos y ∷ [];
  metadata = ("kind", kind) ∷ [];
}

abbrev pub notes : Collection ℤ ℕ
notes = record {
  dim = 2;
  records =
      ("a", entry "a" 1000 0 1) ∷ ("b", entry "b" 0 1000 1) ∷ ("c", entry "c" 1000 1000 2) ∷ [];
}

abbrev pub row : KnowledgeBase
row = record {
  kb_id = "notes";
  name = "Notes";
  embedding_model = "m";
  embedding_dim = pos 2;
  description = none;
  created_at = 1;
  updated_at = 1;
}

abbrev pub stores : Stores ℤ ℕ
stores = record { collections = ("notes", notes) ∷ []; rows = ("notes", row) ∷ []; clock = 7 }

pub stores-WellFormed : WellFormed stores
unfolding lookup
stores-WellFormed = record {
  distinct = (refl, tt);
  sound = (
    record {
      positive_dim = omega arith;
      distinct = (refl, (refl, (refl, tt)));
      fits = ((refl, refl), ((refl, refl), ((refl, refl), tt)));
    },
    tt,
  );
}

abbrev pub as_is : List Term → List Term
as_is terms = terms

abbrev pub kind_one : Option (Filter ℕ)
kind_one = some (("kind", exactly 1) ∷ [])

abbrev pub hit_id : SearchHit ℤ ℕ → String
hit_id h = h.id

abbrev pub hit_score : SearchHit ℤ ℕ → ℤ
hit_score h = h.score

abbrev pub question : List ℤ
question = pos 1000 ∷ pos 0 ∷ []

asearch_lem_example :
    (hits : List (SearchHit ℤ ℕ)) × (rest : List (SearchHit ℤ ℕ)) × ((asearch numbers objects
        "notes" question
        (pos 1)
        kind_one
        (quiet stores)).0
      ≡ ok hits)
    × Perm (hits ++ rest) (
        map
          (scored_hit numbers objects question)
          (keep (passes numbers objects kind_one) (values notes.records)))
    × IsRanked numbers hit_score hit_id (hits ++ rest)
    × (length hits ≡ min 1 (length (keep (passes numbers objects kind_one) (values notes.records))))
unfolding lookup
asearch_lem_example =
    asearch_lem numbers objects numbers-IsOrdered (quiet stores) "notes" question 1 kind_one notes
      stores-WellFormed refl refl

adelete-Deleted_example :
    let r = adelete numbers objects "notes" (some ("a" ∷ "c" ∷ "a" ∷ [])) kind_one (quiet stores) in
    Deleted numbers objects "notes" (some ("a" ∷ "c" ∷ "a" ∷ [])) kind_one notes stores r.1.db r.0
unfolding lookup
adelete-Deleted_example =
    adelete-Deleted numbers objects (quiet stores) "notes" (some ("a" ∷ "c" ∷ "a" ∷ [])) kind_one
      notes stores-WellFormed refl (λ a b. cc)

aupsert-Agrees_example :
    let v = view stores in
    let r = aupsert "notes" (entry "d" 1 1 1 ∷ []) (quiet stores) in
    Agrees (r.0, r.1.db) (write "notes" (entry "d" 1 1 1 ∷ []) v (v "notes"))
aupsert-Agrees_example = aupsert-Agrees (quiet stores) "notes" (entry "d" 1 1 1 ∷ [])

abbrev pub base : KnowledgeBaseService
base = record { model = "m"; dim = pos 2 }

abbrev spec : KnowledgeBaseSpec
spec = record { kb_id = "notes"; name = none; description = none }

-- Another request that changes nothing has its turn at each await.
abbrev busy : World (Stores ℤ ℕ)
busy = record { db = stores; others = (λ d. d) ∷ (λ d. d) ∷ [] }

busy-Friendly : Friendly Grows-preorder busy.others
busy-Friendly = (Grows-preorder.same, (Grows-preorder.same, tt))

create_Gives_example :
    Gives Grows-preorder busy (create numbers objects base spec busy) (Ready base "notes")
create_Gives_example = create_Gives numbers objects base spec busy busy-Friendly

methods-WellFormed_example :
    Keeps Stays-preorder (aensure_collection {F = ℤ} {J = ℕ} "notes" (pos 2))
    × Keeps Stays-preorder (aupsert "notes" (entry "d" 1 1 1 ∷ []))
    × Keeps Stays-preorder (asearch numbers objects "notes" question (pos 1) kind_one)
    × Keeps Stays-preorder (asearch_keywords numbers objects as_is "notes" "text" (pos 1) kind_one)
    × Keeps Stays-preorder (adelete numbers objects "notes" none kind_one)
    × Keeps Stays-preorder (adrop_collection {F = ℤ} {J = ℕ} "notes")
    × Keeps Stays-preorder (acount numbers objects "notes" kind_one)
methods-WellFormed_example =
    methods-WellFormed numbers objects as_is "notes" (pos 2) (entry "d" 1 1 1 ∷ []) question "text"
      (pos 1) none kind_one
