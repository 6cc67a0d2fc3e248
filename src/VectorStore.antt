-- ===== src/VectorStore.antt =====
-- The values of comet_rag/ports/vector_store.py. A metadata value is any Python object: its type,
-- `None` and the objects' `==` are parameters.
pub mod Cosine
pub mod Memory
pub mod Keywords
pub mod Entries
pub mod Sound
pub mod WellFormed
pub mod Search
pub mod Refines
pub mod Deletes
use comet_rag.Prelude.{
  String, Bool, true, false, Option, none, some, List, [], ◌∷◌, any, if◌then◌else◌,
}
use comet_rag.Dict.{Dict, lookup}

-- What the code asks of a metadata value.
pub record Objects (J : Type 0) : Type 0 where
  -- `None`, which `metadata.get` gives for a missing key
  pub null : J
  -- `a == b`
  pub equal : J → J → Bool

pub record VectorRecord (F J : Type 0) : Type 0 where
  pub id : String
  pub text : String
  pub embedding : List F
  pub metadata : Dict J

pub record SearchHit (F J : Type 0) : Type 0 where
  pub id : String
  pub text : String
  pub score : F
  pub metadata : Dict J

-- A filter's value: a list, a tuple or a set, or any other object.
pub data Expected (J : Type 0) : Type 0 where
  one_of : List J → Expected J
  exactly : J → Expected J

abbrev pub Filter : Type 0 → Type 0
Filter J = Dict (Expected J)

module _ {J : Type 0} (objects : Objects J) where
  -- `metadata.get(key)`
  abbrev pub get : String → Dict J → J
  get key metadata = elim (lookup key metadata) [ none ↦ objects.null | some v ↦ v ]

  unfoldable pub meets : J → Expected J → Bool
  meets actual (one_of expected) = any (λ v. objects.equal actual v) expected
  meets actual (exactly expected) = objects.equal actual expected

  unfoldable pub matches_all : Dict J → Filter J → Bool
  unfolding meets
  matches_all metadata [] = true
  matches_all metadata ((key, expected) ∷ rest) =
      let others = matches_all metadata rest in
      if meets (get key metadata) expected then others else false

  -- `matches_filter`: no filter and the empty one let everything pass
  unfoldable pub matches_filter : Dict J → Option (Filter J) → Bool
  unfolding matches_all
  matches_filter metadata none = true
  matches_filter metadata (some filter) = matches_all metadata filter
