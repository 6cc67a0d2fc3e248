-- ===== src/Sources/TempFiles.antt =====
-- `TemporaryFileRegistry` of comet_rag/infrastructure/sources/file_info.py, and `cleanup` of a
-- `LoadedResource` of comet_rag/ports/source.py. Parameters are the names that are given to new
-- files, the change of a path's suffix, and the paths on which the file system refuses to work.
pub mod Orphans
pub mod Cleanup
pub mod Holding
use comet_rag.Prelude.{
  ℕ, ◌+◌, String, Bool, true, false, ◌||◌, Option, none, some, List, [], ◌∷◌, ◌++◌, ◌==◌, any,
  if◌then◌else◌,
}
use comet_rag.Dict.{Dict, lookup, insert, erase}
use comet_rag.Effect.{ok, err}
use comet_rag.Sources.{LoadError, os_error, runtime_error, Result}

-- `_paths`, and the files on the disk with their sizes
pub record Files : Type 0 where
  pub tracked : List String
  pub disk : Dict ℕ

abbrev pub Step : Type 0 → Type 0
Step A = Files → Result A × Files

pub record FileSystem : Type 0 where
  -- the name of a new file; none for an OSError
  pub fresh : Files → Option String
  -- `path.with_suffix(f".{extension}")`
  pub with_suffix : String → String → String
  -- whether `unlink` and `replace` of a path raise an OSError
  pub refuses : String → Bool

abbrev pub is_tracked : String → List String → Bool
is_tracked path paths = any (λ p. p == path) paths

-- `paths.remove(path)`, and nothing where the path is not there
abbrev pub remove : String → List String → List String
remove path [] = []
remove path (p ∷ ps) = let rest = remove path ps in if p == path then ps else p ∷ rest

-- `paths[paths.index(current)] = target`
abbrev pub renamed : String → String → List String → List String
renamed current target [] = []
renamed current target (p ∷ ps) =
    let rest = renamed current target ps in if p == current then target ∷ ps else p ∷ rest

module _ (fs : FileSystem) where
  -- `create`
  unfoldable pub create : Step String
  unfolding insert
  create files = elim (fs.fresh files) [
    | none ↦ (err os_error, files)
    | some name ↦
        (ok name, record { tracked = files.tracked ++ name ∷ []; disk = insert name 0 files.disk })
  ]

  -- `track`
  abbrev pub track : String → Files → Files
  track path files = record files { tracked = files.tracked ++ path ∷ [] }

  abbrev pub move : String → String → Files → Option ℕ → Result String × Files
  move current target files none = (err os_error, files)
  move current target files (some size) = (
    ok target,
    record {
      tracked = renamed current target files.tracked;
      disk = insert target size (erase current files.disk);
    },
  )

  -- `replace_suffix`
  unfoldable pub replace_suffix : String → String → Step String
  unfolding lookup
  replace_suffix path extension files =
      if is_tracked path files.tracked
      then if fs.refuses path
        then (err os_error, files)
        else move path (fs.with_suffix path extension) files (lookup path files.disk)
      else (err runtime_error, files)

  -- `release`
  abbrev pub release : String → Files → Files
  release path files = record files { tracked = remove path files.tracked }

  abbrev pub unlink : String → Files → Files
  unlink path files = record files { disk = erase path files.disk }

  -- `discard`, and `LoadedResource.cleanup` of a temporary file
  unfoldable pub discard : String → Step (Unit {0})
  unfolding erase
  discard path files =
      if fs.refuses path then (err os_error, files) else (ok tt, release path (unlink path files))

  -- The loop of `cleanup`, with whether there was an error before
  abbrev pub clean_paths : List String → Bool → Step (Unit {0})
  clean_paths [] failed files = if failed then (err os_error, files) else (ok tt, files)
  clean_paths (p ∷ ps) failed files =
      clean_paths ps (failed || fs.refuses p)
        (if fs.refuses p then files else release p (unlink p files))

  -- `cleanup`
  unfoldable pub cleanup : Step (Unit {0})
  cleanup files = clean_paths files.tracked false files

-- A write to a file that is open
unfoldable pub write : String → ℕ → Files → Files
write path n files = elim (lookup path files.disk) [
  | none ↦ files
  | some size ↦ record files { disk = insert path (size + n) files.disk }
]
