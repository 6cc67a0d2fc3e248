-- ===== src/Ingestion/Numbers.antt =====
-- The records that chunks get, by their numbers, and what the deletion of a stale tail leaves.
use comet_rag.Prelude.{
  ℕ, zero, suc, ◌+◌, ◌-◌, ◌<◌, String, ◌≡◌, ◌≢◌, refl, ap, false, Option, none, some, List, [], ◌∷◌,
  arith, eq_iff, leb, ltb, if◌then◌else◌, get_elem?, Bool-cases, inl, inr,
}
use comet_rag.Dict.{Dict, lookup, lookup-insert_own}
use comet_rag.Effect.{pure, atomic, pause, ◌>>=◌}
use comet_rag.Effect.Runs.{quiet}
use comet_rag.Floats.{Floats}
use comet_rag.VectorStore.{matches_filter, Objects, VectorRecord}
use comet_rag.VectorStore.Memory.{adelete, require_collection, put_collection, doomed_in, erase_all}
use comet_rag.VectorStore.Entries.{latest, is_in}
use comet_rag.VectorStore.Deletes.{lookup-left}
use comet_rag.Ingestion.{Values, chunk_record, ids_from, drop_stale_tail}
use comet_rag.Ingestion.Index.{chunk_records}
use comet_rag.Stores.{Stores, Collection, ok}

module _ {F J : Type 0} (fl : Floats F) (objects : Objects J) (values_of : Values J)
    (chunk_id : String → ℕ → String) (vector : String → List F) where
  -- The record of a chunk that may not be there.
  abbrev pub record_at : String → Dict J → ℕ → Option String → Option (VectorRecord F J)
  record_at source_id base i none = none
  record_at source_id base i (some t) =
      some (chunk_record fl objects values_of chunk_id source_id base i t (vector t))

  module _ (source_id : String) (base : Dict J)
      (distinct : (i j : ℕ) → chunk_id source_id i ≡ chunk_id source_id j → i ≡ j) where
    latest-before :
        (i start : ℕ) (ts : List String)
        → i < start
        → latest
            (chunk_id source_id i)
            (chunk_records fl objects values_of chunk_id vector source_id base start ts)
          ≡ none
    latest-before i start [] b = refl
    latest-before i start (t ∷ ts) b = ground (
      arith,
      latest-before i (start + 1) ts (omega (arith, b)),
      eq_iff (chunk_id source_id start) (chunk_id source_id i),
      distinct start i,
      b,
    )

    pub latest-chunk_records :
        (i start j : ℕ) (ts : List String)
        → j ≡ start + i
        → latest
            (chunk_id source_id j)
            (chunk_records fl objects values_of chunk_id vector source_id base start ts)
          ≡ record_at source_id base j (get_elem? ts i)
    latest-chunk_records i start j [] e = refl
    latest-chunk_records zero start j (t ∷ ts) e =
        let same : start ≡ j = omega (arith, e) in
        ground (
          arith,
          same,
          latest-before j (start + 1) ts (omega (arith, e)),
          eq_iff (chunk_id source_id start) (chunk_id source_id j),
          ap (chunk_id source_id) same,
          ap (λ n. record_at source_id base n (some t)) same,
        )
    latest-chunk_records (suc i) start j (t ∷ ts) e =
        let other : start ≢ j = λ same. omega (arith, e, same) in
        ground (
          arith,
          other,
          latest-chunk_records i (start + 1) j ts (omega (arith, e)),
          eq_iff (chunk_id source_id start) (chunk_id source_id j),
          distinct start j,
        )

    pub latest-elsewhere :
        (k : String) (start : ℕ) (ts : List String)
        → ((i : ℕ) → chunk_id source_id i ≢ k)
        → latest k (chunk_records fl objects values_of chunk_id vector source_id base start ts)
          ≡ none
    latest-elsewhere k start [] h = refl
    latest-elsewhere k start (t ∷ ts) h =
        ground
          (arith, latest-elsewhere k (start + 1) ts h, eq_iff (chunk_id source_id start) k, h start)

    pub ids_from-inside :
        (i start n : ℕ)
        → is_in (chunk_id source_id i) (ids_from fl objects values_of chunk_id source_id start n)
          ≡ (if leb start i then ltb i (start + n) else false)
    ids_from-inside i start zero = ground arith
    ids_from-inside i start (suc n) = ground (
      arith,
      ids_from-inside i (suc start) n,
      eq_iff (chunk_id source_id start) (chunk_id source_id i),
      distinct start i,
      λ (e : start ≡ i). ap (chunk_id source_id) e,
    )

    pub ids_from-elsewhere :
        (k : String) (start n : ℕ)
        → ((i : ℕ) → chunk_id source_id i ≢ k)
        → is_in k (ids_from fl objects values_of chunk_id source_id start n) ≡ false
    ids_from-elsewhere k start zero h = refl
    ids_from-elsewhere k start (suc n) h =
        ground (
          arith,
          ids_from-elsewhere k (suc start) n h,
          eq_iff (chunk_id source_id start) k,
          h start,
        )

    -- A collection that has lost the records under the numbers from one on, so many.
    pub record Trimmed (kb_id : String) (start n : ℕ) (c : Collection F J) (e : Stores F J)
        : Type 0 where
      pub after : Collection F J
      pub there : lookup kb_id e.collections ≡ some after
      pub records :
          (k : String)
          → lookup k after.records ≡ (
              if is_in k (ids_from fl objects values_of chunk_id source_id start n)
              then none
              else lookup k c.records)

    pub trim-quiet :
        (kb_id : String) (count previous : ℕ) (d : Stores F J) (c : Collection F J)
        → lookup kb_id d.collections ≡ some c
        → (e : Stores F J) × (drop_stale_tail fl objects values_of chunk_id kb_id source_id count
              previous
              (quiet d)
            ≡ (ok tt, quiet e))
          × Trimmed kb_id count (previous - count) c e
    unfolding matches_filter drop_stale_tail adelete require_collection pure pause atomic ◌>>=◌
    trim-quiet kb_id count previous d c there = elim (Bool-cases (leb previous count)) [
      | inl t ↦
          let zero_left : 0 ≡ previous - count = ground (arith, t) in
          (
            d,
            ground (arith, t),
            record {
              after = c;
              there = there;
              records = λ k.
                  ap
                    (λ n.
                      if is_in k (ids_from fl objects values_of chunk_id source_id count n)
                      then none
                      else lookup k c.records)
                    zero_left;
            },
          )
      | inr f ↦
          let ids = ids_from fl objects values_of chunk_id source_id count (previous - count) in
          let left_over : Collection F J = record c {
            records = erase_all (doomed_in fl objects (some ids) none c.records) c.records;
          } in
          (
            put_collection kb_id left_over d,
            ground (arith, f, there),
            record {
              after = left_over;
              there = lookup-insert_own kb_id left_over d.collections;
              records = λ k. ground (arith, lookup-left fl objects (some ids) none c.records k);
            },
          )
    ]
