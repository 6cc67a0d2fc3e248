-- ===== src/Sources/Http/Stream.antt =====
-- What `_stream_response` leaves on the disk, when nobody else works with the files.
use comet_rag.Prelude.{
  ℕ, ◌≤◌, ◌<◌, String, ◌≡◌, ◌⊎◌, inl, inr, refl, sym, subst, Option, none, some, List, [], ◌∷◌,
  ◌++◌,
}
use comet_rag.Dict.{lookup, insert}
use comet_rag.Effect.{ok, err, pure, raise, lift, atomic, attempt, ◌>>=◌, ◌>>◌}
use comet_rag.Effect.Runs.{quiet, attempt_returns, attempt_raises}
use comet_rag.Sources.{LoadError, Result}
use comet_rag.Sources.TempFiles.{Files, FileSystem, create, discard}
use comet_rag.Sources.Http.{
  Response, Internet, Client, M, on_files, check_content_length, fill, stream_response,
}
use comet_rag.Sources.TempFiles.Holding.{
  Holding, Restored, IsFresh, create-Holding, dropped-Restored, discard_lem,
}
use comet_rag.Sources.Http.Fill.{Run, fill-Filled}

module _ (net : Internet) (fs : FileSystem) (d : Files) where
  -- A download has raised and left the files as they were, or it has returned the path of a file that
  -- is not empty and within the limit, is known to the registry, and is the only one that is new.
  pub record Streamed (limit : ℕ) (o : Run String) : Type 0 where
    pub client : Client
    pub state : o.1 ≡ quiet client
    pub ends :
        ((e : LoadError) × (o.0 ≡ err e) × Restored d client.files)
        ⊎ ((path : String) × (size : ℕ) × (o.0 ≡ ok path)
            × (0 < size)
            × (size ≤ limit)
            × (lookup path d.disk ≡ none)
            × Holding d path size client.files)

  raises :
      (limit : ℕ) (e : LoadError) (c : Client)
      → Restored d c.files
      → Streamed limit (err e, quiet c)
  raises limit e c r = record { client = c; state = refl; ends = inl (e, refl, r) }

  module _ (limit : ℕ) (r : Response) (sent : List String) where
    abbrev start : Client
    start = record { sent = sent; files = d }

    -- The body of `try`, with the handler
    abbrev guarded : String → M String
    guarded name =
        attempt (fill net fs name limit r) pure (λ e. on_files (discard fs name) >> raise e)

    guarded-Streamed :
        (name : String)
        → IsFresh fs d name
        → (c : Client) → Holding d name 0 c.files
        → Streamed limit (guarded name (quiet c))
    unfolding pure raise ◌>>=◌ atomic
    guarded-Streamed name fresh c h =
        let k = fill-Filled net fs d name fresh limit r c h in
        elim k.ends [
          | inl s ↦
              let run : fill net fs name limit r (quiet c) ≡ (err s.0, quiet k.client) =
                λ i. (s.2 i, k.state i) in
              subst (Streamed limit)
                (sym (
                  attempt_raises (fill net fs name limit r) _ _ (quiet c) (quiet k.client) s.0 run))
                (subst
                  (λ (x : Result (Unit {0}) × Files). Streamed limit (
                    ((atomic (λ y. (x.0, record y { files = x.1 }))) >> raise s.0)
                      (quiet k.client)))
                  (sym (discard_lem fs d name fresh k.client.files))
                  (raises limit s.0 _ (dropped-Restored fs d name fresh s.1 k.client.files s.3)))
          | inr s ↦
              let run : fill net fs name limit r (quiet c) ≡ (ok s.0, quiet k.client) =
                λ i. (s.2 i, k.state i) in
              subst (Streamed limit)
                (sym (
                  attempt_returns (fill net fs name limit r) _ _ (quiet c) (quiet k.client) s.0
                    run))
                (record {
                  client = k.client;
                  state = refl;
                  ends = inr (s.0, s.1, refl, s.3, s.4, s.5, s.6);
                })
        ]

    created-Streamed :
        ((name : String) → fs.fresh d ≡ some name → IsFresh fs d name)
        → Streamed limit ((on_files (create fs) >>= guarded) (quiet start))
    unfolding create ◌>>=◌ atomic raise
    created-Streamed fresh = split (fs.fresh d) fresh
      where
        split :
            (o : Option String)
            → ((name : String) → o ≡ some name → IsFresh fs d name)
            → Streamed limit (
                (atomic {A = String} (λ (y : Client).
                      let x : Result String × Files = elim o as (λ _. Result String × Files) [
                        | none ↦ (err LoadError.os_error, d)
                        | some name ↦ (
                          ok name,
                          record { tracked = d.tracked ++ name ∷ []; disk = insert name 0 d.disk },
                        )
                      ] in
                      (x.0, record y { files = x.1 }))
                    >>= guarded)
                  (quiet start))
        split none k =
            raises limit LoadError.os_error start (record { tracked = refl; disk = λ q. refl })
        split (some name) k =
            guarded-Streamed name (k name refl) _ (create-Holding fs d name (k name refl) _ refl)

    -- Nobody else works with the files, and a new file gets a name that no file and no entry of the
    -- registry has, for which the file system does its work, and that no file has with a suffix
    -- either. Then whatever the server says of its body, and however the body, the disk and the
    -- detection of the content behave, `_stream_response` either raises and leaves the registry and
    -- the files as they were, or returns the path of a file that is new, is not empty, has at most as
    -- many bytes as the limit, is in the registry, and is the only change of the files.
    pub stream_response-Streamed :
        ((name : String) → fs.fresh d ≡ some name → IsFresh fs d name)
        → Streamed limit (stream_response net fs limit r (quiet start))
    unfolding stream_response lift ◌>>=◌ raise
    stream_response-Streamed fresh = split (check_content_length net r.content_length limit)
      where
        split :
            (x : Result (Unit {0}))
            → Streamed limit ((lift x >> on_files (create fs) >>= guarded) (quiet start))
        split (err e) = raises limit e start (record { tracked = refl; disk = λ q. refl })
        split (ok u) = created-Streamed fresh
