-- ===== src/Samples/Batch.antt =====
-- Five documents in blocks of two: a run of comet_rag/engines/embedding/batch.py.
use comet_rag.Prelude.{ℕ, ◌+◌, ◌≡◌, refl, Option, some, List, [], ◌∷◌, arith, map}
use comet_rag.Batch.{ok, embed_documents}
use comet_rag.Batch.Order.{embed_documents-map}

twice : ℕ → ℕ
twice n = n + n

embed_two : List ℕ → Option (List ℕ)
embed_two block = some (map twice block)

abbrev five : List ℕ
five = 1 ∷ 2 ∷ 3 ∷ 4 ∷ 5 ∷ []

embed_documents-map_example : embed_documents embed_two 2 3 five ≡ ok (map twice five)
unfolding embed_two
embed_documents-map_example =
    embed_documents-map twice embed_two 2 3 five (λ block. refl) (omega arith) (omega arith)
