-- ===== src/VectorStore/Entries.antt =====
-- What the writes and deletions of one collection do to each record, and to how many there are.
use comet_rag.Prelude.{
  ◌+◌, String, ◌≡◌, refl, Bool, true, false, Option, none, some, List, [], ◌∷◌, arith, ◌==◌, eq_iff,
  if◌then◌else◌, length, any, keep, All, if-elim,
}
use comet_rag.Dict.{Dict, lookup, insert, erase, keys, lookup-insert, lookup-erase}
use comet_rag.Dict.Keys.{IsDistinct, erase-IsDistinct, length-erase}
use comet_rag.VectorStore.{VectorRecord}
use comet_rag.VectorStore.Memory.{write_all, erase_all, dedupe}

module _ {F J : Type 0} where
  -- The last of the records with an id.
  abbrev pub latest : String → List (VectorRecord F J) → Option (VectorRecord F J)
  latest k [] = none
  latest k (r ∷ rs) = elim (latest k rs) [
    | some s ↦ some s
    | none ↦ if r.id == k then some r else none
  ]

  abbrev pub or_else :
      Option (VectorRecord F J) → Option (VectorRecord F J) → Option (VectorRecord F J)
  or_else (some r) o = some r
  or_else none o = o

  pub lookup-write_all :
      (k : String) (rs : List (VectorRecord F J)) (records : Dict (VectorRecord F J))
      → lookup k (write_all rs records) ≡ or_else (latest k rs) (lookup k records)
  lookup-write_all k [] records = refl
  lookup-write_all k (r ∷ rs) records =
      ground (arith, lookup-write_all k rs (insert r.id r records), lookup-insert r.id k r records)

abbrev pub is_in : String → List String → Bool
is_in k ks = any (λ j. j == k) ks

abbrev pub IsUnique : List String → Type 0
IsUnique [] = Unit
IsUnique (k ∷ ks) = (is_in k ks ≡ false) × IsUnique ks

pub is_in-keep :
    (k : String) (p : String → Bool) (ks : List String)
    → is_in k (keep p ks) ≡ (if is_in k ks then p k else false)
is_in-keep k p [] = refl
is_in-keep k p (j ∷ ks) = ground (arith, eq_iff j k, is_in-keep k p ks)

pub keep-IsUnique : (p : String → Bool) (ks : List String) → IsUnique ks → IsUnique (keep p ks)
keep-IsUnique p [] u = tt
keep-IsUnique p (k ∷ ks) u =
    if-elim IsUnique (p k) (k ∷ keep p ks) (keep p ks)
      (λ e. (ground (arith, is_in-keep k p ks, u.0), keep-IsUnique p ks u.1))
      (λ e. keep-IsUnique p ks u.1)

pub is_in-dedupe : (k : String) (ks : List String) → is_in k (dedupe ks) ≡ is_in k ks
is_in-dedupe k [] = refl
is_in-dedupe k (j ∷ ks) = ground (
  arith,
  eq_iff j k,
  eq_iff k j,
  is_in-keep k (λ i. if i == j then false else true) (dedupe ks),
  is_in-dedupe k ks,
)

pub dedupe-IsUnique : (ks : List String) → IsUnique (dedupe ks)
dedupe-IsUnique [] = tt
dedupe-IsUnique (k ∷ ks) = (
  ground (arith, eq_iff k k, is_in-keep k (λ i. if i == k then false else true) (dedupe ks)),
  keep-IsUnique (λ i. if i == k then false else true) (dedupe ks) (dedupe-IsUnique ks),
)

module _ {ℓ} {V : Type ℓ} where
  pub is_in-keys :
      (k : String) (d : Dict V)
      → is_in k (keys d) ≡ elim (lookup k d) [ none ↦ false | some v ↦ true ]
  unfolding lookup
  is_in-keys k [] = refl
  is_in-keys k ((j, w) ∷ d) = ground (arith, is_in-keys k d)

  pub keys-IsUnique : (d : Dict V) → IsDistinct d → IsUnique (keys d)
  keys-IsUnique [] h = tt
  keys-IsUnique ((k, v) ∷ d) h = (ground (arith, is_in-keys k d, h.0), keys-IsUnique d h.1)

  pub lookup-erase_all :
      (k : String) (ks : List String) (d : Dict V)
      → lookup k (erase_all ks d) ≡ (if is_in k ks then none else lookup k d)
  lookup-erase_all k [] d = refl
  lookup-erase_all k (j ∷ ks) d =
      ground (arith, lookup-erase_all k ks (erase j d), lookup-erase j k d)

  pub erase_all-IsDistinct :
      (ks : List String) (d : Dict V) → IsDistinct d → IsDistinct (erase_all ks d)
  erase_all-IsDistinct [] d h = h
  erase_all-IsDistinct (k ∷ ks) d h = erase_all-IsDistinct ks (erase k d) (erase-IsDistinct k d h)

  abbrev pub Has : Dict V → String → Type ℓ
  Has d k = (v : V) × (lookup k d ≡ some v)

  still_there :
      (k : String) (ks : List String) (d : Dict V)
      → is_in k ks ≡ false
      → All (Has d) ks
      → All (Has (erase k d)) ks
  still_there k [] d u h = tt
  still_there k (j ∷ ks) d u h = (
    (h.0.0, ground (arith, u, h.0.1, eq_iff j k, eq_iff k j, lookup-erase k j d)),
    still_there k ks d (ground (arith, u)) h.1,
  )

  -- Every key of a list without repeats takes one entry.
  pub length-erase_all :
      (ks : List String) (d : Dict V)
      → IsUnique ks
      → IsDistinct d
      → All (Has d) ks
      → length d ≡ length ks + length (erase_all ks d)
  length-erase_all [] d u h a = omega arith
  length-erase_all (k ∷ ks) d u h a = omega (
    arith,
    length-erase k d a.0.0 h a.0.1,
    length-erase_all ks (erase k d) u.1 (erase-IsDistinct k d h) (still_there k ks d u.0 a.1),
  )
