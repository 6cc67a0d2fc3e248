-- ===== src/Sources/TempFiles/Holding.antt =====
-- The files with one more than there were, which is written to, renamed or discarded.
use comet_rag.Prelude.{
  ℕ, ◌+◌, String, ◌≡◌, inl, inr, ap, ◌∙◌, true, false, none, some, List, [], ◌∷◌, ◌++◌, arith, ◌==◌,
  eq_iff, Bool-cases, if-true, if-false,
}
use comet_rag.Dict.{lookup, insert, erase, lookup-insert, lookup-erase}
use comet_rag.Effect.{ok}
use comet_rag.Sources.TempFiles.{
  Files, FileSystem, is_tracked, remove, renamed, move, replace_suffix, release, unlink, discard,
  write,
}
use comet_rag.Sources.TempFiles.Orphans.{is_tracked-append}

remove-last :
    (p : String) (ps : List String) → is_tracked p ps ≡ false → remove p (ps ++ p ∷ []) ≡ ps
remove-last p [] h = ground (arith, eq_iff p p)
remove-last p (x ∷ ps) h = ground (arith, h, remove-last p ps)

renamed-last :
    (p t : String) (ps : List String)
    → is_tracked p ps ≡ false
    → renamed p t (ps ++ p ∷ []) ≡ ps ++ t ∷ []
renamed-last p t [] h = ground (arith, eq_iff p p)
renamed-last p t (x ∷ ps) h = ground (arith, h, renamed-last p t ps)

-- The files with one more, known to the registry, than there were.
pub record Holding (d : Files) (name : String) (size : ℕ) (f : Files) : Type 0 where
  pub tracked : f.tracked ≡ d.tracked ++ name ∷ []
  pub there : lookup name f.disk ≡ some size
  pub others : (q : String) → (name == q) ≡ false → lookup q f.disk ≡ lookup q d.disk

-- The files as they were.
pub record Restored (d f : Files) : Type 0 where
  pub tracked : f.tracked ≡ d.tracked
  pub disk : (q : String) → lookup q f.disk ≡ lookup q d.disk

module _ (fs : FileSystem) (d : Files) where
  -- A name that no file has, with a suffix or without.
  pub record IsFresh (name : String) : Type 0 where
    pub absent : lookup name d.disk ≡ none
    pub unknown : is_tracked name d.tracked ≡ false
    pub willing : fs.refuses name ≡ false
    pub targets : (x : String) → lookup (fs.with_suffix name x) d.disk ≡ none

  module _ (name : String) (fresh : IsFresh name) where
    pub create-Holding :
        (f : Files)
        → f ≡ record { tracked = d.tracked ++ name ∷ []; disk = insert name 0 d.disk }
        → Holding d name 0 f
    create-Holding f e = record {
      tracked = ap (λ f. f.tracked) e;
      there = ground (arith, e, lookup-insert name name 0 d.disk, eq_iff name name);
      others = λ q h. ground (arith, e, h, lookup-insert name q 0 d.disk);
    }

    pub write-Holding :
        (size n : ℕ) (f : Files)
        → Holding d name size f
        → Holding d name (size + n) (write name n f)
    unfolding write
    write-Holding size n f h = record {
      tracked = ground (arith, h.there, h.tracked);
      there = ground (arith, h.there, lookup-insert name name (size + n) f.disk, eq_iff name name);
      others =
          λ q e. ground (arith, h.there, e, lookup-insert name q (size + n) f.disk, h.others q e);
    }

    pub dropped-Restored :
        (size : ℕ) (f : Files)
        → Holding d name size f
        → Restored d (release fs name (unlink fs name f))
    dropped-Restored size f h = record {
      tracked = ap (remove name) h.tracked ∙ remove-last name d.tracked fresh.unknown;
      disk = λ q. elim (Bool-cases (name == q)) [
        | inl t ↦ ground (arith, t, lookup-erase name q f.disk, eq_iff name q, fresh.absent)
        | inr e ↦ ground (arith, e, lookup-erase name q f.disk, h.others q e)
      ];
    }

    pub discard_lem : (f : Files) → discard fs name f ≡ (ok tt, release fs name (unlink fs name f))
    unfolding discard
    discard_lem f = if-false (fs.refuses name) _ _ fresh.willing

    abbrev pub moved_files : String → ℕ → Files → Files
    moved_files t size f = record {
      tracked = renamed name t f.tracked;
      disk = insert t size (erase name f.disk);
    }

    pub moved_files-Holding :
        (x : String) (size : ℕ) (f : Files)
        → Holding d name size f
        → let t = fs.with_suffix name x in Holding d t size (moved_files t size f)
    moved_files-Holding x size f h =
        let t = fs.with_suffix name x in
        record {
          tracked = ap (renamed name t) h.tracked ∙ renamed-last name t d.tracked fresh.unknown;
          there = ground (arith, lookup-insert t t size (erase name f.disk), eq_iff t t);
          others = λ q e.
              let put = lookup-insert t q size (erase name f.disk) in
              let left = lookup-erase name q f.disk in
              elim (Bool-cases (name == q)) [
                | inl y ↦ ground (arith, e, y, put, left, eq_iff name q, fresh.absent)
                | inr n ↦ ground (arith, e, n, put, left, h.others q n)
              ];
        }

    pub replace_suffix_lem :
        (x : String) (size : ℕ) (f : Files)
        → Holding d name size f
        → let t = fs.with_suffix name x in replace_suffix fs name x f ≡ (ok t, moved_files t size f)
    unfolding replace_suffix
    replace_suffix_lem x size f h =
        let t = fs.with_suffix name x in
        let known : is_tracked name f.tracked ≡ true =
          ap (is_tracked name) h.tracked
          ∙ ground (arith, is_tracked-append name d.tracked (name ∷ []), eq_iff name name) in
        if-true (is_tracked name f.tracked) _ _ known
        ∙ if-false (fs.refuses name) _ _ fresh.willing
        ∙ ap (move fs name t f) h.there
