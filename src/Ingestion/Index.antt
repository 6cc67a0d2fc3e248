-- ===== src/Ingestion/Index.antt =====
-- What the loop of `_index` writes into a collection.
use comet_rag.Prelude.{
  ℕ, zero, suc, ◌+◌, ◌≤◌, ◌<◌, String, ◌≡◌, refl, sym, ap, ◌∙◌, subst, Option, none, some, List, [],
  ◌∷◌, ◌++◌, arith, length, length-append, length-drop, take, drop, map, take-append-drop,
}
use comet_rag.Dict.{Dict, lookup, lookup-insert_own}
use comet_rag.Effect.{pure, lift, atomic, pause, ◌>>=◌}
use comet_rag.Effect.Runs.{quiet, bind_returns}
use comet_rag.Floats.{Floats}
use comet_rag.VectorStore.{Objects, VectorRecord}
use comet_rag.VectorStore.Memory.{aupsert, misfit, write_all, require_collection, put_collection}
use comet_rag.VectorStore.Entries.{latest, or_else, lookup-write_all}
use comet_rag.Ingestion.{
  Handle, Values, chunk_record, cons_record, records_of, write_window, index_windows,
}
use comet_rag.Stores.{Stores, Collection, ok, M}

module _ {F J : Type 0} where
  latest-append :
      (k : String) (xs ys : List (VectorRecord F J))
      → latest k (xs ++ ys) ≡ or_else (latest k ys) (latest k xs)
  latest-append k [] ys = ground arith
  latest-append k (x ∷ xs) ys = ground (arith, latest-append k xs ys)

  aupsert-quiet :
      (kb_id : String) (rs : List (VectorRecord F J)) (d : Stores F J) (c : Collection F J)
      → lookup kb_id d.collections ≡ some c
      → misfit c.dim rs ≡ none
      → aupsert kb_id rs (quiet d) ≡ (
        ok (map (λ r. r.id) rs),
        quiet (put_collection kb_id (record c { records = write_all rs c.records }) d),
      )
  unfolding aupsert require_collection ◌>>=◌ pause atomic
  aupsert-quiet kb_id rs d c there fits = ground (arith, there, fits)

  -- A collection that got the records of a list, and nothing else of the stores that changed.
  pub record Got (kb_id : String) (rs : List (VectorRecord F J)) (d : Stores F J)
      (c : Collection F J) (e : Stores F J) : Type 0 where
    pub after : Collection F J
    pub there : lookup kb_id e.collections ≡ some after
    pub dim : after.dim ≡ c.dim
    pub records : (k : String) → lookup k after.records ≡ or_else (latest k rs) (lookup k c.records)

  abbrev pub with_records : Collection F J → List (VectorRecord F J) → Collection F J
  with_records c rs = record c { records = write_all rs c.records }

  or_else_assoc :
      (a b c : Option (VectorRecord F J)) → or_else a (or_else b c) ≡ or_else (or_else a b) c
  or_else_assoc none b c = refl
  or_else_assoc (some r) b c = refl

  Got-append :
      (kb_id : String) (xs ys : List (VectorRecord F J)) (d e : Stores F J) (c : Collection F J)
      → Got kb_id ys (put_collection kb_id (with_records c xs) d) (with_records c xs) e
      → Got kb_id (xs ++ ys) d c e
  Got-append kb_id xs ys d e c g = record {
    after = g.after;
    there = g.there;
    dim = g.dim;
    records = λ k.
        g.records k
        ∙ ap (or_else (latest k ys)) (lookup-write_all k xs c.records)
        ∙ or_else_assoc (latest k ys) (latest k xs) (lookup k c.records)
        ∙ ap (λ o. or_else o (lookup k c.records)) (sym (latest-append k xs ys));
  }

-- A task that nobody cancels, whose records are kept elsewhere.
abbrev pub idle : {F J : Type 0} → Handle F J
idle = record { checkpoint = pure tt; report = λ written total. pure tt; forget = pure tt }

module _ {F J : Type 0} (fl : Floats F) (objects : Objects J) (values : Values J)
    (chunk_id : String → ℕ → String) (vector : String → List F) (source_id : String)
    (base : Dict J) where
  -- The records of the chunks from a number on.
  abbrev pub chunk_records : ℕ → List String → List (VectorRecord F J)
  chunk_records start [] = []
  chunk_records start (t ∷ ts) =
      chunk_record fl objects values chunk_id source_id base start t (vector t)
      ∷ chunk_records (start + 1) ts

  length-chunk_records :
      (start : ℕ) (ts : List String) → length (chunk_records start ts) ≡ length ts
  length-chunk_records start [] = refl
  length-chunk_records start (t ∷ ts) = ap suc (length-chunk_records (start + 1) ts)

  records_of_lem :
      (start : ℕ) (ts : List String)
      → records_of fl objects values chunk_id source_id base start ts (map vector ts)
        ≡ ok (chunk_records start ts)
  unfolding records_of
  records_of_lem start [] = refl
  records_of_lem start (t ∷ ts) =
      ap
        (cons_record fl objects values chunk_id
          (chunk_record fl objects values chunk_id source_id base start t (vector t)))
        (records_of_lem (start + 1) ts)

  chunk_records-append :
      (start : ℕ) (xs ys : List String)
      → chunk_records start (xs ++ ys)
        ≡ chunk_records start xs ++ chunk_records (start + length xs) ys
  chunk_records-append start [] ys = ap (λ n. chunk_records n ys) (omega arith)
  chunk_records-append start (x ∷ xs) ys =
      ap (◌∷◌ (chunk_record fl objects values chunk_id source_id base start x (vector x))) (
        chunk_records-append (start + 1) xs ys
        ∙ ap (λ n. chunk_records (start + 1) xs ++ chunk_records n ys) (omega arith))

  misfit-chunk_records :
      (dim start : ℕ) (ts : List String)
      → ((t : String) → length (vector t) ≡ dim)
      → misfit dim (chunk_records start ts) ≡ none
  misfit-chunk_records dim start [] h = refl
  misfit-chunk_records dim start (t ∷ ts) h =
      ground (arith, h t, misfit-chunk_records dim (start + 1) ts h)

  module _ (kb_id : String) (total : ℕ) where
    abbrev pub embed_texts : List String → M F J (List (List F))
    embed_texts batch = pure (map vector batch)

    write_window-quiet :
        (start : ℕ) (ts : List String) (d : Stores F J) (c : Collection F J)
        → lookup kb_id d.collections ≡ some c
        → ((t : String) → length (vector t) ≡ c.dim)
        → write_window fl objects values chunk_id idle embed_texts kb_id source_id base start total
            ts
            (map vector ts)
            (quiet d)
          ≡ (
            ok (start + length ts),
            quiet (put_collection kb_id (with_records c (chunk_records start ts)) d),
          )
    unfolding lift pure ◌>>=◌
    write_window-quiet start ts d c there h =
        let rs = chunk_records start ts in
        let written = aupsert-quiet kb_id rs d c there (misfit-chunk_records c.dim start ts h) in
        bind_returns
          (lift (records_of fl objects values chunk_id source_id base start ts (map vector ts))) _
          (quiet d) (quiet d) rs (ap (λ r. (r, quiet d)) (records_of_lem start ts))
        ∙ bind_returns (aupsert kb_id rs) _ (quiet d) _ _ written
        ∙ ap (λ n. (ok (start + n), quiet (put_collection kb_id (with_records c rs) d)))
            (length-chunk_records start ts)

    -- The loop writes every chunk that is left.
    pub windows-Got :
        (fuel window start : ℕ) (chunks : List String) (d : Stores F J) (c : Collection F J)
        → length chunks ≤ fuel
        → 0 < window
        → lookup kb_id d.collections ≡ some c
        → ((t : String) → length (vector t) ≡ c.dim)
        → (e : Stores F J) × (index_windows fl objects values chunk_id idle embed_texts fuel window
              kb_id source_id base total start chunks
              (quiet d)
            ≡ (ok (start + length chunks), quiet e))
          × Got kb_id (chunk_records start chunks) d c e
    unfolding index_windows pure
    windows-Got zero window start [] d c b w there h = (
      d,
      ap (λ n. (ok n, quiet d)) (omega arith),
      record { after = c; there = there; dim = refl; records = λ k. refl },
    )
    windows-Got zero window start (t ∷ ts) d c b w there h = absurd (omega (arith, b))
    windows-Got (suc fuel) window start [] d c b w there h = (
      d,
      ap (λ n. (ok n, quiet d)) (omega arith),
      record { after = c; there = there; dim = refl; records = λ k. refl },
    )
    windows-Got (suc fuel) window start (t ∷ ts) d c b w there h =
        let batch = take window (t ∷ ts) in
        let tail = drop window (t ∷ ts) in
        let rs = chunk_records start batch in
        let d' = put_collection kb_id (with_records c rs) d in
        let whole = take-append-drop window (t ∷ ts) in
        let rest =
          windows-Got fuel window (start + length batch) tail d' (with_records c rs)
            (omega (arith, b, w, length-drop window (t ∷ ts))) w
            (lookup-insert_own kb_id (with_records c rs) d.collections) h in
        let all : rs ++ chunk_records (start + length batch) tail ≡ chunk_records start (t ∷ ts) =
          sym (chunk_records-append start batch tail) ∙ ap (chunk_records start) whole in
        let size : start + length batch + length tail ≡ start + length (t ∷ ts) =
          omega (arith, length-append batch tail, ap length whole) in
        (
          rest.0,
          bind_returns (idle.checkpoint) _ (quiet d) (quiet d) tt refl
              ∙ bind_returns (embed_texts batch) _ (quiet d) (quiet d) (map vector batch) refl
              ∙ bind_returns
                  (write_window fl objects values chunk_id idle embed_texts kb_id source_id base
                    start total batch (map vector batch))
                  _ (quiet d) (quiet d') (start + length batch)
                  (write_window-quiet start batch d c there h)
              ∙ rest.1
              ∙ ap (λ n. (ok n, quiet rest.0)) size,
          subst (λ l. Got kb_id l d c rest.0) all
              (Got-append kb_id rs (chunk_records (start + length batch) tail) d rest.0 c rest.2),
        )
