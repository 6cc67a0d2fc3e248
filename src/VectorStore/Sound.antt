-- ===== src/VectorStore/Sound.antt =====
-- What a well-formed vector store is, and the steps on one collection.
use comet_rag.Prelude.{
  ℕ, ◌<◌, pos, String, ◌≡◌, refl, ap, Option, none, some, List, [], ◌∷◌, arith, eqb, if◌then◌else◌,
  length, map, All, if-elim, option-elim,
}
use comet_rag.Dict.{Dict, lookup, insert, erase}
use comet_rag.Dict.Keys.{IsDistinct, insert-IsDistinct, All-insert, All-erase, All-lookup}
use comet_rag.Effect.Keeps.{Preorder}
use comet_rag.VectorStore.{VectorRecord}
use comet_rag.VectorStore.Memory.{
  misfit, write_all, erase_all, require_collection, with_collection, put_collection, upsert_into,
  ensure_locked,
}
use comet_rag.VectorStore.Entries.{erase_all-IsDistinct}
use comet_rag.Stores.{Stores, Collection, collection_not_found, dimension_mismatch, Result, ok, err}

module _ {F J : Type 0} where
  abbrev pub Fits : ℕ → String × VectorRecord F J → Type 0
  Fits dim e = (e.1.id ≡ e.0) × (length e.1.embedding ≡ dim)

  pub record IsSound (c : Collection F J) : Type 0 where
    pub positive_dim : 0 < c.dim
    pub distinct : IsDistinct c.records
    pub fits : All (Fits c.dim) c.records

  pub record WellFormed (d : Stores F J) : Type 0 where
    pub distinct : IsDistinct d.collections
    pub sound : All (λ e. IsSound e.1) d.collections

  abbrev pub Stays : Stores F J → Stores F J → Type 0
  Stays d e = WellFormed d → WellFormed e

  pub Stays-preorder : Preorder Stays
  Stays-preorder = record { same = λ d h. h; trans = λ d e f p q h. q (p h) }

  put-WellFormed :
      (kb_id : String) (c : Collection F J) (d : Stores F J)
      → IsSound c
      → Stays d (put_collection kb_id c d)
  put-WellFormed kb_id c d s h = record {
    distinct = insert-IsDistinct kb_id c d.collections h.distinct;
    sound = All-insert (λ e. IsSound e.1) kb_id c d.collections s h.sound;
  }

  pub with_collection_found :
      {A : Type 0} (kb_id : String) (f : Collection F J → Result A × Stores F J) (d : Stores F J)
      (c : Collection F J)
      → lookup kb_id d.collections ≡ some c
      → with_collection kb_id f d ≡ f c
  unfolding require_collection
  with_collection_found {A} kb_id f d c e =
      ap
        (λ (o : Option (Collection F J)).
          elim (elim o as (λ _. Result (Collection F J)) [
            | none ↦ err (collection_not_found kb_id)
            | some x ↦ ok x
          ])
            as (λ _. Result A × Stores F J) [ ok x ↦ f x | err x ↦ (err x, d) ])
        e

  pub with_collection_read :
      {A : Type 0} (kb_id : String) (f : Collection F J → Result A) (d : Stores F J)
      → (with_collection kb_id (λ c. (f c, d)) d).1 ≡ d
  unfolding require_collection
  with_collection_read {A} kb_id f d =
      option-elim
        (λ (r : Result (Collection F J)).
          (elim r as (λ _. Result A × Stores F J) [ ok c ↦ (f c, d) | err e ↦ (err e, d) ]).1 ≡ d)
        (lookup kb_id d.collections) (err (collection_not_found kb_id)) (λ c. ok c) (λ e. refl)
        (λ c e. refl)

  -- A step on a collection that is there keeps the rest.
  pub with_collection-Stays :
      {A : Type 0} (kb_id : String) (f : Collection F J → Result A × Stores F J) (d : Stores F J)
      → ((c : Collection F J) → IsSound c → Stays d (f c).1)
      → Stays d (with_collection kb_id f d).1
  unfolding require_collection
  with_collection-Stays {A} kb_id f d k h =
      option-elim
        (λ (r : Result (Collection F J)).
          WellFormed (elim r as (λ _. Result A × Stores F J) [ ok c ↦ f c | err e ↦ (err e, d) ]).1)
        (lookup kb_id d.collections) (err (collection_not_found kb_id)) (λ c. ok c) (λ e. h)
        (λ c e. k c (All-lookup (λ x. IsSound x.1) kb_id c d.collections e h.sound) h)

  write_all-IsDistinct :
      (rs : List (VectorRecord F J)) (records : Dict (VectorRecord F J))
      → IsDistinct records
      → IsDistinct (write_all rs records)
  write_all-IsDistinct [] records h = h
  write_all-IsDistinct (r ∷ rs) records h =
      write_all-IsDistinct rs (insert r.id r records) (insert-IsDistinct r.id r records h)

  write_all-Fits :
      (dim : ℕ) (rs : List (VectorRecord F J)) (records : Dict (VectorRecord F J))
      → misfit dim rs ≡ none
      → All (Fits dim) records
      → All (Fits dim) (write_all rs records)
  write_all-Fits dim [] records m h = h
  write_all-Fits dim (r ∷ rs) records m h =
      write_all-Fits dim rs (insert r.id r records) (ground (arith, m))
        (All-insert (Fits dim) r.id r records (refl, ground (arith, m)) h)

  erase_all-Fits :
      (dim : ℕ) (ks : List String) (records : Dict (VectorRecord F J))
      → All (Fits dim) records
      → All (Fits dim) (erase_all ks records)
  erase_all-Fits dim [] records h = h
  erase_all-Fits dim (k ∷ ks) records h =
      erase_all-Fits dim ks (erase k records) (All-erase (Fits dim) k records h)

  pub ensure-Stays :
      (kb_id : String) (dim : ℕ) (d : Stores F J) → 0 < dim → Stays d (ensure_locked kb_id dim d).1
  ensure-Stays kb_id dim d p h =
      option-elim (λ (r : Result (Unit {0}) × Stores F J). WellFormed r.1)
        (lookup kb_id d.collections)
        (ok tt, put_collection kb_id (record { dim = dim; records = [] }) d)
        (λ existing.
          if eqb existing.dim dim
          then (ok tt, d)
          else (err (dimension_mismatch kb_id existing.dim (pos dim)), d))
        (λ e.
          put-WellFormed kb_id (record { dim = dim; records = [] }) d
            (record { positive_dim = p; distinct = tt; fits = tt }) h)
        (λ existing e.
          if-elim (λ (r : Result (Unit {0}) × Stores F J). WellFormed r.1) (eqb existing.dim dim)
            (ok tt, d) (err _, d) (λ t. h) (λ t. h))

  pub upsert-Stays :
      (kb_id : String) (rs : List (VectorRecord F J)) (d : Stores F J) (c : Collection F J)
      → IsSound c
      → Stays d (upsert_into kb_id rs d c).1
  upsert-Stays kb_id rs d c s h =
      option-elim (λ (r : Result (List String) × Stores F J). WellFormed r.1) (misfit c.dim rs)
        (
          ok (map (λ r. r.id) rs),
          put_collection kb_id (record c { records = write_all rs c.records }) d,
        )
        (λ actual. (err (dimension_mismatch kb_id c.dim (pos actual)), d))
        (λ e.
          put-WellFormed kb_id (record c { records = write_all rs c.records }) d
            (record {
              positive_dim = s.positive_dim;
              distinct = write_all-IsDistinct rs c.records s.distinct;
              fits = write_all-Fits c.dim rs c.records e s.fits;
            })
            h)
        (λ n e. h)

  pub delete-Stays :
      (ks : List String) (kb_id : String) (d : Stores F J) (c : Collection F J)
      → IsSound c
      → Stays d (put_collection kb_id (record c { records = erase_all ks c.records }) d)
  delete-Stays ks kb_id d c s h =
      put-WellFormed kb_id (record c { records = erase_all ks c.records }) d
        (record {
          positive_dim = s.positive_dim;
          distinct = erase_all-IsDistinct ks c.records s.distinct;
          fits = erase_all-Fits c.dim ks c.records s.fits;
        })
        h
