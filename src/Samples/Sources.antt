-- ===== src/Samples/Sources.antt =====
-- Runs of comet_rag/services/source_policy.py, of comet_rag/engines/documents/common/archive.py and
-- of `_index` of comet_rag/services/ingestion.py.
use Prim.Native.String.{[] as end, ◌∷◌ as ◌then◌}
use Prim.Native.Char.{nul}
use comet_rag.Prelude.{
  ℕ, zero, suc, ◌≤◌, ℤ, pos, String, ◌≡◌, ◌↔◌, refl, sym, ap, ◌∙◌, true, false, none, some, List,
  [], ◌∷◌, arith, ◌==◌, eq_iff, eqb, map,
}
use comet_rag.Dict.{lookup}
use comet_rag.Effect.{pure}
use comet_rag.Effect.Runs.{quiet}
use comet_rag.VectorStore
use comet_rag.VectorStore.{Objects, VectorRecord, matches_filter}
use comet_rag.Knowledge.{KnowledgeBaseService}
use comet_rag.SourcePolicy.{
  Library, ParseResult, no_port, SourcePolicy, refused, private_address, check_url, check_redirect,
}
use comet_rag.Archive.{
  ArchiveLimits, Member, Element, End, finished, ok, validate_zip_archive, validate_zip_metadata,
  validate_members, validate_xml_members, scan_elements,
}
use comet_rag.Archive.Within.{IsWithin, validate_zip_archive_iff}
use comet_rag.Ingestion.{Values, IngestRequest, Context, index}
use comet_rag.Ingestion.Index.{idle}
use comet_rag.Ingestion.Whole.{Indexed, outcome, index-Indexed}
use comet_rag.Stores
use comet_rag.Stores.{Stores, Collection, KnowledgeBase}
use comet_rag.Samples.Numbers.{numbers}

-- Every text is this URL; one address is public.
abbrev pub page : ParseResult
page = record {
  scheme = "https";
  netloc = "example.org";
  path = "/a";
  query = "";
  fragment = "";
  hostname = some "example.org";
  username = none;
  password = none;
  port = no_port;
}

abbrev pub library : Library
library = record {
  lower = λ s. s;
  urlparse = λ s. some page;
  is_global = λ ip. some (ip == "93.184.215.14");
  resolve_path = λ s. s ∷ [];
  getaddrinfo = λ host. some (host ∷ []);
}

abbrev policy_with : List String → SourcePolicy
policy_with addresses = record {
  allow_local = false;
  local_roots = [];
  allow_url = true;
  allow_private_network = false;
  allowed_url_hosts = "example.org" ∷ [];
  max_download_bytes = 1000;
  allow_s3 = false;
  allowed_s3_buckets = [];
  resolve = λ host. addresses;
}

abbrev pub public_policy : SourcePolicy
public_policy = policy_with ("93.184.215.14" ∷ [])

-- One private address among several is enough for a refusal.
private_refused :
    check_redirect library (policy_with ("93.184.215.14" ∷ "10.0.0.1" ∷ [])) "https://example.org/a"
    ≡ refused private_address
unfolding check_redirect check_url
private_refused = refl

abbrev limits : ArchiveLimits ℤ
limits = record {
  max_members = 2;
  max_member_uncompressed_bytes = 100;
  max_total_uncompressed_bytes = 150;
  max_compression_ratio = pos 10000;
  max_xml_elements = 3;
  max_xml_text_chars = 5;
}

abbrev members : List Member
members =
    record { filename = "a.xml"; flag_bits = 2; file_size = 80; compress_size = 20 }
    ∷ record { filename = "b.png"; flag_bits = 0; file_size = 60; compress_size = 60 }
    ∷ []

abbrev parse : Member → List Element × End
parse m = (record { text = 5; tail = 0 } ∷ record { text = 0; tail = 2 } ∷ [], finished)

abbrev as_lower : String → String
as_lower s = s

passes_all : validate_zip_archive numbers limits as_lower parse (some members) ≡ ok tt
unfolding validate_zip_archive validate_zip_metadata validate_members validate_xml_members
    scan_elements
passes_all = refl

validate_zip_archive_iff_example :
    validate_zip_archive numbers limits as_lower parse (some members) ≡ ok tt
    ↔ IsWithin numbers limits as_lower parse members
validate_zip_archive_iff_example = validate_zip_archive_iff numbers limits as_lower parse members

-- Chunk ids of as many characters as the number of the chunk says.
abbrev ticks : ℕ → String
ticks zero = end
ticks (suc n) = nul then ticks n

abbrev size_of : String → ℕ
size_of end = 0
size_of (c then s) = suc (size_of s)

size_of-ticks : (n : ℕ) → size_of (ticks n) ≡ n
size_of-ticks zero = refl
size_of-ticks (suc n) = ap suc (size_of-ticks n)

ticks-distinct : (i j : ℕ) → ticks i ≡ ticks j → i ≡ j
ticks-distinct i j e = sym (size_of-ticks i) ∙ ap size_of e ∙ size_of-ticks j

abbrev old : ℕ → VectorRecord ℤ ℕ
old i = record {
  id = ticks i;
  text = "old";
  embedding = pos 1 ∷ pos 0 ∷ [];
  metadata = ("source_id", 3) ∷ [];
}

-- Four chunks of an earlier version.
abbrev shelf : Collection ℤ ℕ
shelf = record {
  dim = 2;
  records = (ticks 0, old 0) ∷ (ticks 1, old 1) ∷ (ticks 2, old 2) ∷ (ticks 3, old 3) ∷ [];
}

abbrev library_base : KnowledgeBase
library_base = record {
  kb_id = "kb";
  name = "Library";
  embedding_model = "m";
  embedding_dim = pos 2;
  description = none;
  created_at = 1;
  updated_at = 1;
}

abbrev before : Stores ℤ ℕ
before = record { collections = ("kb", shelf) ∷ []; rows = ("kb", library_base) ∷ []; clock = 7 }

abbrev objects : Objects ℕ
objects = record { null = 0; equal = eqb }

abbrev metadata_values : Values ℕ
metadata_values = record { text = size_of; number = λ n. n }

abbrev vector : String → List ℤ
vector t = pos (size_of t) ∷ pos 1 ∷ []

abbrev request : IngestRequest ℕ
request = record { kb_id = "kb"; source = "a.md"; metadata = ("kind", 1) ∷ [] }

abbrev context : Context ℕ
context = record {
  chunks = "one" ∷ "three" ∷ "five" ∷ [];
  source_id = "src";
  source = 9;
  file_type = "md";
  document_metadata = [];
}

abbrev knowledge : KnowledgeBaseService
knowledge = record { model = "m"; dim = pos 2 }

ticks-shelf : (i : ℕ) → 4 ≤ i → lookup (ticks i) shelf.records ≡ none
unfolding lookup
ticks-shelf i b = ground (
  arith,
  b,
  eq_iff (ticks 0) (ticks i),
  eq_iff (ticks 1) (ticks i),
  eq_iff (ticks 2) (ticks i),
  eq_iff (ticks 3) (ticks i),
  ticks-distinct 0 i,
  ticks-distinct 1 i,
  ticks-distinct 2 i,
  ticks-distinct 3 i,
)

index-Indexed_example :
    (e : Stores ℤ ℕ) × (index numbers objects metadata_values
        (λ source_id i. ticks i)
        idle
        (λ batch. pure (map vector batch))
        knowledge
        2
        request
        context
        (quiet before)
      ≡ (
        Stores.ok (
            outcome numbers objects metadata_values
              (λ source_id i. ticks i)
              vector
              1
              2
              knowledge
              request
              context
              before
              library_base
              shelf),
        quiet e,
      ))
    × Indexed numbers objects metadata_values
        (λ source_id i. ticks i)
        vector
        1
        2
        knowledge
        request
        context
        before
        library_base
        shelf
        e
unfolding lookup matches_filter VectorStore.matches_all VectorStore.meets
index-Indexed_example =
    index-Indexed numbers objects metadata_values (λ source_id i. ticks i) vector 1 2 knowledge
      request context before library_base shelf refl refl refl refl refl (λ t. refl) (omega arith)
      ticks-distinct ticks-shelf
