-- ===== src/Sources/Http/Fill.antt =====
-- What the copy of a body into a new file leaves, when nobody else works with the files.
use comet_rag.Prelude.{
  ℕ, ◌+◌, ◌≤◌, ◌<◌, String, ◌≡◌, ◌⊎◌, inl, inr, refl, sym, subst, none, List, [], ◌∷◌, arith,
  if◌then◌else◌, if-elim, ltb, eqb,
}
use comet_rag.Dict.{lookup}
use comet_rag.Effect.{World, ok, err, pure, raise, lift, atomic, ◌>>=◌}
use comet_rag.Effect.Runs.{quiet, bind_returns, bind_raises}
use comet_rag.Sources.{LoadError, value_error, Result}
use comet_rag.Sources.TempFiles.{Files, FileSystem, replace_suffix, write}
use comet_rag.Sources.Http.{
  Event, chunk, broken, Response, Internet, Client, M, on_files, resolve_downloaded_extension,
  finalize_temp, copy, fill,
}
use comet_rag.Sources.TempFiles.Holding.{
  Holding, IsFresh, write-Holding, moved_files, moved_files-Holding, replace_suffix_lem,
}

abbrev pub Run : Type 0 → Type 0
Run A = Result A × World Client

module _ (net : Internet) (fs : FileSystem) (d : Files) where
  module _ (name : String) (fresh : IsFresh fs d name) where
    -- The copy ends with some size, within the limit if it returns it.
    pub record Copied (limit : ℕ) (o : Run ℕ) : Type 0 where
      pub client : Client
      pub state : o.1 ≡ quiet client
      pub size : ℕ
      pub holding : Holding d name size client.files
      pub within : (n : ℕ) → o.0 ≡ ok n → (n ≡ size) × (size ≤ limit)

    copied :
        (limit size : ℕ) (r : Result ℕ) (c : Client)
        → Holding d name size c.files
        → ((n : ℕ) → r ≡ ok n → (n ≡ size) × (size ≤ limit))
        → Copied limit (r, quiet c)
    copied limit size r c h w = record {
      client = c;
      state = refl;
      size = size;
      holding = h;
      within = w;
    }

    copy-Copied :
        (limit total : ℕ) (es : List Event) (c : Client)
        → total ≤ limit
        → Holding d name total c.files
        → Copied limit (copy net fs name limit total es (quiet c))
    unfolding copy pure raise ◌>>=◌ atomic
    copy-Copied limit total [] c b h = copied limit total _ c h (λ n e. (cc, b))
    copy-Copied limit total (broken x ∷ es) c b h = copied limit total _ c h (λ n e. absurd (cc))
    copy-Copied limit total (chunk n ∷ es) c b h =
        if-elim (λ (m : M ℕ). Copied limit (m (quiet c))) (ltb limit (total + n)) _ _
          (λ t. copied limit total _ c h (λ n e. absurd (cc)))
          (λ f.
            copy-Copied limit (total + n) es (record c { files = write name n c.files })
              (ground (arith, f)) (write-Holding fs d name fresh total n c.files h))

    abbrev pub Stays : Client → Run String → Type 0
    Stays client o = (e : LoadError) × (size : ℕ) × (o.0 ≡ err e) × Holding d name size client.files

    abbrev pub Saves : ℕ → Client → Run String → Type 0
    Saves limit client o =
        (path : String) × (size : ℕ) × (o.0 ≡ ok path)
        × (0 < size)
        × (size ≤ limit)
        × (lookup path d.disk ≡ none)
        × Holding d path size client.files

    pub record Filled (limit : ℕ) (o : Run String) : Type 0 where
      pub client : Client
      pub state : o.1 ≡ quiet client
      pub ends : Stays client o ⊎ Saves limit client o

    stays :
        (limit size : ℕ) (e : LoadError) (c : Client)
        → Holding d name size c.files
        → Filled limit (err e, quiet c)
    stays limit size e c h = record { client = c; state = refl; ends = inl (e, size, refl, h) }

    finalize-Filled :
        (limit size : ℕ) (url : String) (c : Client)
        → Holding d name size c.files
        → 0 < size
        → size ≤ limit
        → Filled limit (finalize_temp net fs name url (quiet c))
    unfolding finalize_temp lift ◌>>=◌ atomic raise
    finalize-Filled limit size url c h p b =
        split (resolve_downloaded_extension net name (net.name_of url))
      where
        split :
            (r : Result String)
            → Filled limit ((lift r >>= λ x. on_files (replace_suffix fs name x)) (quiet c))
        split (err e) = stays limit size e c h
        split (ok x) =
            let ran = replace_suffix_lem fs d name fresh x size c.files h in
            let t = fs.with_suffix name x in
            subst
              (λ (r : Result String × Files). Filled limit (r.0, quiet (record c { files = r.1 })))
              (sym ran)
              (record {
                client = record c { files = moved_files fs d name fresh t size c.files };
                state = refl;
                ends = inr (
                  t,
                  size,
                  refl,
                  p,
                  b,
                  fresh.targets x,
                  moved_files-Holding fs d name fresh x size c.files h,
                );
              })

    pub fill-Filled :
        (limit : ℕ) (r : Response) (c : Client)
        → Holding d name 0 c.files
        → Filled limit (fill net fs name limit r (quiet c))
    unfolding raise
    fill-Filled limit r c h = split (copy-Copied limit 0 r.body c (omega arith) h)
      where
        filled :
            (x : Client) (size : ℕ)
            → Holding d name size x.files
            → size ≤ limit
            → Filled limit (
                (if eqb size 0
                    then raise (value_error "empty")
                    else finalize_temp net fs name r.url)
                  (quiet x))
        filled x size h b =
            if-elim (λ (m : M String). Filled limit (m (quiet x))) (eqb size 0) _ _
              (λ t. stays limit size _ x h)
              (λ f. finalize-Filled limit size r.url x h (ground (arith, f)) b)

        copy_ended :
            (k : Copied limit (copy net fs name limit 0 r.body (quiet c))) (o : Result ℕ)
            → (copy net fs name limit 0 r.body (quiet c)).0 ≡ o
            → Filled limit (fill net fs name limit r (quiet c))
        copy_ended k (err e) q =
            let run : copy net fs name limit 0 r.body (quiet c) ≡ (err e, quiet k.client) =
              λ i. (q i, k.state i) in
            subst (Filled limit)
              (sym
                (bind_raises (copy net fs name limit 0 r.body) _ (quiet c) (quiet k.client) e run))
              (stays limit k.size e k.client k.holding)
        copy_ended k (ok n) q =
            let run : copy net fs name limit 0 r.body (quiet c) ≡ (ok n, quiet k.client) =
              λ i. (q i, k.state i) in
            let w = k.within n q in
            subst (Filled limit)
              (sym
                (bind_returns (copy net fs name limit 0 r.body) _ (quiet c) (quiet k.client) n run))
              (filled k.client n (subst (λ m. Holding d name m k.client.files) (sym w.0) k.holding)
                (subst (λ m. m ≤ limit) (sym w.0) w.1))

        split :
            Copied limit (copy net fs name limit 0 r.body (quiet c))
            → Filled limit (fill net fs name limit r (quiet c))
        split k = copy_ended k (copy net fs name limit 0 r.body (quiet c)).0 refl
