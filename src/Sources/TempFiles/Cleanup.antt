-- ===== src/Sources/TempFiles/Cleanup.antt =====
-- What a cleanup of the registry leaves.
use comet_rag.Prelude.{
  String, ◌≡◌, refl, sym, ap, ◌∙◌, Bool, true, false, ◌||◌, not, ◌&&◌, none, List, [], ◌∷◌, ◌++◌,
  arith, ◌==◌, eq_iff, any, keep, All, All-append, if◌then◌else◌, append_assoc, Bool-cases, inl,
  inr,
}
use comet_rag.Dict.{lookup, lookup-erase}
use comet_rag.Effect.{ok, err}
use comet_rag.Sources.{os_error}
use comet_rag.Sources.TempFiles.{
  Files, FileSystem, is_tracked, remove, release, unlink, clean_paths, cleanup,
}

module _ (fs : FileSystem) where
  abbrev Refused : List String → Type 0
  Refused = All (λ p. fs.refuses p ≡ true)

  remove-middle :
      (front : List String) (p : String) (ps : List String)
      → Refused front
      → fs.refuses p ≡ false
      → remove p (front ++ p ∷ ps) ≡ front ++ ps
  remove-middle [] p ps a e = ground (arith, eq_iff p p)
  remove-middle (x ∷ front) p ps a e = elim (Bool-cases (x == p)) [
    | inl t ↦
        let same : true ≡ false = sym a.0 ∙ ap fs.refuses ((eq_iff x p).0 t) ∙ e in absurd (cc)
    | inr t ↦ ground (arith, t, remove-middle front p ps a.1 e)
  ]

  clean_paths-tracked :
      (ps : List String) (b : Bool) (f : Files) (front : List String)
      → Refused front
      → f.tracked ≡ front ++ ps
      → (clean_paths fs ps b f).1.tracked ≡ front ++ keep fs.refuses ps
  clean_paths-tracked [] true f front a e = e
  clean_paths-tracked [] false f front a e = e
  clean_paths-tracked (p ∷ ps) b f front a e = elim (Bool-cases (fs.refuses p)) [
    | inl t ↦
        let next =
          clean_paths-tracked ps true f (front ++ p ∷ [])
            (All-append (λ p. fs.refuses p ≡ true) front (p ∷ []) a (t, tt))
            (e ∙ sym (append_assoc front (p ∷ []) ps)) in
        ground (arith, t, next, append_assoc front (p ∷ []) (keep fs.refuses ps))
    | inr t ↦
        let g = release fs p (unlink fs p f) in
        let next =
          clean_paths-tracked ps b g front a (ap (remove p) e ∙ remove-middle front p ps a t) in
        ground (arith, t, next)
  ]

  clean_paths-disk :
      (ps : List String) (b : Bool) (f : Files) (q : String)
      → lookup q (clean_paths fs ps b f).1.disk
        ≡ (if is_tracked q ps && not (fs.refuses q) then none else lookup q f.disk)
  clean_paths-disk [] true f q = refl
  clean_paths-disk [] false f q = refl
  clean_paths-disk (p ∷ ps) b f q =
      let g = if fs.refuses p then f else release fs p (unlink fs p f) in
      ground (
        arith,
        clean_paths-disk ps (b || fs.refuses p) g q,
        lookup-erase p q f.disk,
        eq_iff p q,
        λ (e : p ≡ q). ap fs.refuses e,
      )

  clean_paths-answer :
      (ps : List String) (b : Bool) (f : Files)
      → (clean_paths fs ps b f).0 ≡ (if b || any fs.refuses ps then err os_error else ok tt)
  clean_paths-answer [] true f = refl
  clean_paths-answer [] false f = refl
  clean_paths-answer (p ∷ ps) b f =
      let g = if fs.refuses p then f else release fs p (unlink fs p f) in
      let tests : (b || fs.refuses p) || any fs.refuses ps ≡ b || any fs.refuses (p ∷ ps) =
        ground arith in
      clean_paths-answer ps (b || fs.refuses p) g
      ∙ ap (λ t. if t then err os_error else ok tt) tests

  -- A cleanup goes on after an error. The paths that the registry keeps are those on which the file
  -- system refuses to work, in their order; the files of all other paths that it had are gone; no
  -- other file is; and the cleanup raises exactly if there was such a path.
  pub cleanup_lem :
      (f : Files)
      → ((cleanup fs f).1.tracked ≡ keep fs.refuses f.tracked)
        × ((q : String)
            → lookup q (cleanup fs f).1.disk
              ≡ (if is_tracked q f.tracked && not (fs.refuses q) then none else lookup q f.disk))
        × ((cleanup fs f).0 ≡ (if any fs.refuses f.tracked then err os_error else ok tt))
  unfolding cleanup
  cleanup_lem f = (
    clean_paths-tracked f.tracked false f [] tt refl,
    clean_paths-disk f.tracked false f,
    clean_paths-answer f.tracked false f,
  )
