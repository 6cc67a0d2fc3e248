-- ===== src/VectorStore/Refines.antt =====
-- The store as what callers see of it: for each knowledge base its dimension and a function from ids
-- to records, without an order.
use comet_rag.Prelude.{
  ℕ, pos, String, ◌≡◌, refl, ap, ◌∙◌, fun_ext, Option, none, some, List, arith, ◌==◌, if◌then◌else◌,
  map,
}
use comet_rag.Dict.{lookup, lookup-insert}
use comet_rag.Effect.{pause, atomic, ◌>>=◌}
use comet_rag.VectorStore.{VectorRecord}
use comet_rag.VectorStore.Memory.{
  misfit, write_all, require_collection, put_collection, upsert_into, aupsert,
}
use comet_rag.VectorStore.Entries.{latest, or_else, lookup-write_all}
use comet_rag.Stores.{
  Stores, Collection, collection_not_found, dimension_mismatch, Result, ok, err, World, turn,
}

-- What a knowledge base holds.
abbrev pub Held : Type 0 → Type 0 → Type 0
Held F J = ℕ × (String → Option (VectorRecord F J))

abbrev pub View : Type 0 → Type 0 → Type 0
View F J = String → Option (Held F J)

module _ {F J : Type 0} where
  abbrev pub held : Option (Collection F J) → Option (Held F J)
  held none = none
  held (some c) = some (c.dim, λ id. lookup id c.records)

  abbrev pub view : Stores F J → View F J
  view d kb_id = held (lookup kb_id d.collections)

  abbrev pub set : String → Held F J → View F J → View F J
  set kb_id h v k = if kb_id == k then some h else v k

  view-put :
      (kb_id : String) (c : Collection F J) (d : Stores F J) (k : String)
      → view (put_collection kb_id c d) k ≡ set kb_id (c.dim, λ id. lookup id c.records) (view d) k
  view-put kb_id c d k = ground (arith, lookup-insert kb_id k c d.collections)

  -- A write: all the records, or none if one has another dimension.
  abbrev pub write_fitting :
      String
      → List (VectorRecord F J)
      → View F J
      → Held F J
      → Option ℕ
      → Result (List String) × View F J
  write_fitting kb_id rs v (dim, records) (some actual) =
      (err (dimension_mismatch kb_id dim (pos actual)), v)
  write_fitting kb_id rs v (dim, records) none =
      (ok (map (λ r. r.id) rs), set kb_id (dim, λ id. or_else (latest id rs) (records id)) v)

  abbrev pub write :
      String
      → List (VectorRecord F J)
      → View F J
      → Option (Held F J)
      → Result (List String) × View F J
  write kb_id rs v none = (err (collection_not_found kb_id), v)
  write kb_id rs v (some h) = write_fitting kb_id rs v h (misfit h.0 rs)

  -- Two results of one value and views that agree.
  abbrev pub Agrees : {A : Type 0} → Result A × Stores F J → Result A × View F J → Type 0
  Agrees r s = (r.0 ≡ s.0) × ((k : String) → view r.1 k ≡ s.1 k)

  upsert_into-Agrees :
      (kb_id : String) (rs : List (VectorRecord F J)) (d : Stores F J) (c : Collection F J)
      → Agrees
          (upsert_into kb_id rs d c)
          (write_fitting kb_id rs (view d) (c.dim, λ id. lookup id c.records) (misfit c.dim rs))
  upsert_into-Agrees kb_id rs d c = split (misfit c.dim rs)
    where
      split :
          (o : Option ℕ)
          → Agrees
              (elim o [
                | some actual ↦ (err (dimension_mismatch kb_id c.dim (pos actual)), d)
                | none ↦ (
                  ok (map (λ r. r.id) rs),
                  put_collection kb_id (record c { records = write_all rs c.records }) d,
                )
              ])
              (write_fitting kb_id rs (view d) (c.dim, λ id. lookup id c.records) o)
      split (some n) = (refl, λ k. refl)
      split none = (
        refl,
        λ k.
            view-put kb_id (record c { records = write_all rs c.records }) d k
            ∙ ap (λ (f : String → Option (VectorRecord F J)). set kb_id (c.dim, f) (view d) k)
                (fun_ext (λ id. lookup-write_all id rs c.records)),
      )

  -- When the lock is `aupsert`'s, the answer and the view of the store are those of `write` on the
  -- view that it finds: every record, the last of an id, or none at all.
  pub aupsert-Agrees :
      (w : World F J) (kb_id : String) (rs : List (VectorRecord F J))
      → let v = view (turn w) in
        let r = aupsert kb_id rs w in Agrees (r.0, r.1.db) (write kb_id rs v (v kb_id))
  unfolding aupsert ◌>>=◌ pause atomic require_collection
  aupsert-Agrees w kb_id rs = split (lookup kb_id (turn w).collections)
    where
      split :
          (o : Option (Collection F J))
          → Agrees
              (elim (elim o as (λ _. Result (Collection F J)) [
                | none ↦ err (collection_not_found kb_id)
                | some c ↦ ok c
              ]) [ ok c ↦ upsert_into kb_id rs (turn w) c | err e ↦ (err e, turn w) ])
              (write kb_id rs (view (turn w)) (held o))
      split none = (refl, λ k. refl)
      split (some c) = upsert_into-Agrees kb_id rs (turn w) c
