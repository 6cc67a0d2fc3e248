-- ===== src/VectorStore/Deletes.antt =====
-- What a deletion removes, and what it counts.
use comet_rag.Prelude.{
  ℕ, ◌+◌, String, ◌≡◌, ◌≢◌, refl, sym, subst, Bool, true, false, ◌&&◌, Option, none, some, List, [],
  ◌∷◌, arith, ◌==◌, if◌then◌else◌, length, keep, All, if-elim,
}
use comet_rag.Dict.{Dict, lookup, keys, lookup-insert_own, lookup-insert_other}
use comet_rag.Dict.Keys.{IsDistinct, All-lookup}
use comet_rag.Effect.{pause, atomic, ◌>>=◌, ◌>>◌}
use comet_rag.Floats.{Floats}
use comet_rag.VectorStore.{Objects, VectorRecord, Filter}
use comet_rag.VectorStore.Memory.{
  erase_all, dedupe, require_collection, passes, targets_in, is_doomed, doomed_in, delete_from,
  delete_locked, adelete,
}
use comet_rag.VectorStore.Entries.{
  is_in, is_in-keep, is_in-dedupe, is_in-keys, keep-IsUnique, dedupe-IsUnique, keys-IsUnique,
  IsUnique, lookup-erase_all, length-erase_all, Has,
}
use comet_rag.VectorStore.Sound.{WellFormed, IsSound, with_collection_found}
use comet_rag.Stores.{Stores, Collection, Result, ok, World, turn}

-- No ids given, or the id among them.
abbrev pub is_named : Option (List String) → String → Bool
is_named none id = true
is_named (some ids) id = is_in id ids

module _ {F J : Type 0} (fl : Floats F) (objects : Objects J) where
  -- What is left of a record.
  abbrev pub left :
      Option (List String)
      → Option (Filter J)
      → String
      → Option (VectorRecord F J)
      → Option (VectorRecord F J)
  left ids filter id none = none
  left ids filter id (some r) =
      if is_named ids id && passes fl objects filter r then none else some r

  module _ (ids : Option (List String)) (filter : Option (Filter J))
      (records : Dict (VectorRecord F J)) where
    is_in-doomed :
        (id : String)
        → is_in id (doomed_in fl objects ids filter records)
          ≡ is_named ids id && is_doomed fl objects filter records id
    is_in-doomed id = split ids
      where
        split :
            (ids : Option (List String))
            → is_in id (doomed_in fl objects ids filter records)
              ≡ is_named ids id && is_doomed fl objects filter records id
        split none = ground (
          arith,
          is_in-keep id (is_doomed fl objects filter records) (keys records),
          is_in-keys id records,
        )
        split (some l) = ground (
          arith,
          is_in-keep id (is_doomed fl objects filter records) (dedupe l),
          is_in-dedupe id l,
        )

    pub lookup-left :
        (id : String)
        → lookup id (erase_all (doomed_in fl objects ids filter records) records)
          ≡ left ids filter id (lookup id records)
    lookup-left id = ground (
      arith,
      lookup-erase_all id (doomed_in fl objects ids filter records) records,
      is_in-doomed id,
    )

    doomed-IsUnique : IsDistinct records → IsUnique (doomed_in fl objects ids filter records)
    doomed-IsUnique h = split ids
      where
        split : (ids : Option (List String)) → IsUnique (doomed_in fl objects ids filter records)
        split none =
            keep-IsUnique (is_doomed fl objects filter records) (keys records)
              (keys-IsUnique records h)
        split (some l) =
            keep-IsUnique (is_doomed fl objects filter records) (dedupe l) (dedupe-IsUnique l)

    doomed_Has : (k : String) → is_doomed fl objects filter records k ≡ true → Has records k
    doomed_Has k e = split (lookup k records) e
      where
        split :
            (o : Option (VectorRecord F J))
            → elim o as (λ _. Bool) [ none ↦ false | some r ↦ passes fl objects filter r ] ≡ true
            → (r : VectorRecord F J) × (o ≡ some r)
        split none e = absurd (cc)
        split (some r) e = (r, refl)

    kept_Has :
        (ks : List String) → All (Has records) (keep (is_doomed fl objects filter records) ks)
    kept_Has [] = tt
    kept_Has (k ∷ ks) =
        if-elim (All (Has records)) (is_doomed fl objects filter records k)
          (k ∷ keep (is_doomed fl objects filter records) ks)
          (keep (is_doomed fl objects filter records) ks) (λ e. (doomed_Has k e, kept_Has ks))
          (λ e. kept_Has ks)

    counted :
        IsDistinct records
        → length records
          ≡ length (doomed_in fl objects ids filter records)
            + length (erase_all (doomed_in fl objects ids filter records) records)
    counted h =
        length-erase_all (doomed_in fl objects ids filter records) records (doomed-IsUnique h) h
          (kept_Has (targets_in fl objects ids records))

  -- The effect of a deletion on the collections: one of them has lost the records that are named and
  -- pass, as many as the answer says, and the others are as they were.
  pub record Deleted (kb_id : String) (ids : Option (List String)) (filter : Option (Filter J))
      (c : Collection F J) (d e : Stores F J) (r : Result ℕ) : Type 0 where
    pub count : ℕ
    pub answer : r ≡ ok count
    pub after : Collection F J
    pub there : lookup kb_id e.collections ≡ some after
    pub dim : after.dim ≡ c.dim
    pub records : (id : String) → lookup id after.records ≡ left ids filter id (lookup id c.records)
    pub removed : length c.records ≡ count + length after.records
    pub others :
        (k : String) → (kb_id == k) ≡ false → lookup k e.collections ≡ lookup k d.collections

  delete_from-Deleted :
      (kb_id : String) (ids : Option (List String)) (filter : Option (Filter J)) (d : Stores F J)
      (c : Collection F J)
      → IsSound c
      → let r = delete_from fl objects kb_id ids filter d c in Deleted kb_id ids filter c d r.1 r.0
  delete_from-Deleted kb_id ids filter d c s = record {
    count = length (doomed_in fl objects ids filter c.records);
    answer = refl;
    after = record c { records = erase_all (doomed_in fl objects ids filter c.records) c.records };
    there = lookup-insert_own kb_id _ d.collections;
    dim = refl;
    records = lookup-left ids filter c.records;
    removed = counted ids filter c.records s.distinct;
    others = lookup-insert_other kb_id _ d.collections;
  }

  locked_delete-Deleted :
      (w : World F J) (kb_id : String) (ids : Option (List String)) (filter : Option (Filter J))
      (c : Collection F J)
      → WellFormed (turn w)
      → lookup kb_id (turn w).collections ≡ some c
      → let r = (pause >> atomic (delete_locked fl objects kb_id ids filter)) w in
        Deleted kb_id ids filter c (turn w) r.1.db r.0
  unfolding ◌>>=◌ pause atomic require_collection
  locked_delete-Deleted w kb_id ids filter c wf there =
      let sound = All-lookup (λ e. IsSound e.1) kb_id c (turn w).collections there wf.sound in
      subst (λ (r : Result ℕ × Stores F J). Deleted kb_id ids filter c (turn w) r.1 r.0)
        (sym (
          with_collection_found kb_id (delete_from fl objects kb_id ids filter (turn w)) (turn w) c
            there))
        (delete_from-Deleted kb_id ids filter (turn w) c sound)

  -- If the store is well formed when `adelete` has the lock, the collection is there, and ids or a
  -- filter are given, then `adelete` returns a number. The collection keeps its dimension; exactly
  -- the records that pass the filter and whose ids are among those given, where ids are given, are
  -- gone from it; the number is how many these were, an id that is given twice counting once; and
  -- the other collections are as they were.
  pub adelete-Deleted :
      (w : World F J) (kb_id : String) (ids : Option (List String)) (filter : Option (Filter J))
      (c : Collection F J)
      → WellFormed (turn w)
      → lookup kb_id (turn w).collections ≡ some c
      → (ids ≡ none → filter ≢ none)
      → let r = adelete fl objects kb_id ids filter w in
        Deleted kb_id ids filter c (turn w) r.1.db r.0
  unfolding adelete
  adelete-Deleted w kb_id none none c wf there given = absurd (given refl refl)
  adelete-Deleted w kb_id (some ids) filter c wf there given =
      locked_delete-Deleted w kb_id (some ids) filter c wf there
  adelete-Deleted w kb_id none (some filter) c wf there given =
      locked_delete-Deleted w kb_id none (some filter) c wf there
