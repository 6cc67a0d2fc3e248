-- ===== src/Samples/Downloads.antt =====
-- Runs of comet_rag/infrastructure/sources/http.py, of the registry of temporary files of
-- comet_rag/infrastructure/sources/file_info.py and of comet_rag/engines/documents/formats.py.
use comet_rag.Prelude.{
  ◌⊎◌, ◌≢◌, ◌≤◌, String, ◌≡◌, refl, subst, true, ◌&&◌, not, none, some, List, [], ◌∷◌, ◌++◌, arith,
  ◌==◌, any, keep, All, length, strip, lstrip, rstrip, is_space, is_blank, if◌then◌else◌,
}
use comet_rag.Dict.{lookup}
use comet_rag.Effect
use comet_rag.Effect.{ok, err, pure, raise, lift, atomic, attempt, ◌>>=◌}
use comet_rag.Effect.Runs.{quiet}
use comet_rag.SourcePolicy.{ParseResult, check_redirect}
use comet_rag.SourcePolicy.Admission.{UrlAdmitted}
use comet_rag.Sources.{os_error}
use comet_rag.Sources.TempFiles.{
  Files, FileSystem, is_tracked, create, track, release, write, replace_suffix, discard, cleanup,
}
use comet_rag.Sources.TempFiles.Orphans.{NoOrphan, registry-NoOrphan}
use comet_rag.Sources.TempFiles.Cleanup.{cleanup_lem}
use comet_rag.Sources.TempFiles.Holding.{IsFresh}
use comet_rag.Sources.Http.{
  Internet, Response, chunk, no_redirect, to, UrlLoader, DownloadRequestConfig, Client, download,
  stream_response,
}
use comet_rag.Sources.Http.Redirects.{download-Admitted}
use comet_rag.Sources.Http.Stream.{Streamed, stream_response-Streamed}
use comet_rag.Formats.{
  from_extension, config_from_extension, unknown_extension, AllowExt, value, allow_ext,
  normalize_extension, resolve_detected_extension,
}
use comet_rag.Formats.Registry.{Registered, from_extension-Registered}
use comet_rag.Formats.Detection.{Resolved, resolve_detected_extension-Resolved}
use comet_rag.Samples.Sources.{library, public_policy}

abbrev as_lower : String → String
as_lower s = s

abbrev text_file : Response
text_file = record {
  redirection = no_redirect;
  bad_status = none;
  url = "https://example.org/b.md";
  content_length = some "many";
  body = chunk 3 ∷ chunk 4 ∷ [];
}

-- The first request is redirected.
abbrev answers : List String → Effect.Result String Response
answers (u ∷ []) = ok (record text_file { redirection = to "https://example.org/b.md" })
answers sent = ok text_file

abbrev net : Internet
net = record {
  respond = answers;
  int = λ s. none;
  name_of = λ url. "b.md";
  suffix_of = λ name. ".md";
  lower = as_lower;
  detect = λ path. some "txt";
}

abbrev disk_system : FileSystem
disk_system = record {
  fresh = λ f. some "tmp";
  with_suffix = λ path extension. "tmp.md";
  refuses = λ path. path == "b";
}

abbrev files : Files
files = record { tracked = "a" ∷ []; disk = ("a", 9) ∷ [] }

abbrev loader : UrlLoader
loader = record {
  max_download_bytes = 10;
  redirect_validator = some (check_redirect library public_policy);
  max_redirects = 2;
}

abbrev config : DownloadRequestConfig
config = record { follow_redirects = true; max_bytes = some 8 }

abbrev client : Client
client = record { sent = []; files = files }

download-Admitted_example :
    (hops : List String) × ((download net disk_system loader config "https://example.org/a"
        (quiet client)).1.db.sent
      ≡ hops ++ "https://example.org/a" ∷ [])
    × (length hops ≤ 2)
    × All
        (λ u.
          (p : ParseResult) × (library.urlparse u ≡ some p)
          × UrlAdmitted library public_policy p.scheme p.hostname)
        hops
download-Admitted_example =
    download-Admitted net disk_system loader config library public_policy "https://example.org/a"
      client refl

tmp-IsFresh : IsFresh disk_system files "tmp"
unfolding lookup
tmp-IsFresh = record { absent = refl; unknown = refl; willing = refl; targets = λ x. refl }

stream_response-Streamed_example :
    Streamed net disk_system files 8 (stream_response net disk_system 8 text_file (quiet client))
stream_response-Streamed_example =
    stream_response-Streamed net disk_system files 8 text_file []
      (λ name e. subst (IsFresh disk_system files) (cc) tmp-IsFresh)

-- The second file cannot be removed.
abbrev some_stuck : Files
some_stuck = record {
  tracked = "a" ∷ "b" ∷ "c" ∷ [];
  disk = ("a", 1) ∷ ("b", 2) ∷ ("c", 3) ∷ ("d", 4) ∷ [];
}

cleanup_lem_example :
    ((cleanup disk_system some_stuck).1.tracked ≡ keep disk_system.refuses some_stuck.tracked)
    × ((q : String)
        → lookup q (cleanup disk_system some_stuck).1.disk ≡ (
            if is_tracked q some_stuck.tracked && not (q == "b")
            then none
            else lookup q some_stuck.disk))
    × ((cleanup disk_system some_stuck).0
        ≡ (if any disk_system.refuses some_stuck.tracked then err os_error else ok tt))
cleanup_lem_example = cleanup_lem disk_system some_stuck

files-NoOrphan : NoOrphan files
unfolding lookup
files-NoOrphan = record { known = λ p h. ground (arith, h) }

registry-NoOrphan_example :
    NoOrphan (create disk_system files).1
    × NoOrphan (track disk_system "a" files)
    × NoOrphan (write "a" 5 files)
    × NoOrphan (replace_suffix disk_system "a" "md" files).1
    × NoOrphan (discard disk_system "a" files).1
    × NoOrphan (cleanup disk_system files).1
    × ((p : String)
        → lookup p files.disk ≢ none
        → "a" ≢ p
        → is_tracked p (release disk_system "a" files).tracked ≡ true)
registry-NoOrphan_example = registry-NoOrphan disk_system files "a" "md" 5 files-NoOrphan

from_extension-Registered_example :
    ((e : AllowExt) × (allow_ext (normalize_extension as_lower " .pdf") ≡ some e)
      × Registered as_lower " .pdf" e)
    ⊎ ((allow_ext (normalize_extension as_lower " .pdf") ≡ none)
        × (from_extension as_lower " .pdf"
            ≡ err (unknown_extension (normalize_extension as_lower " .pdf")))
        × (config_from_extension as_lower " .pdf"
            ≡ err (unknown_extension (normalize_extension as_lower " .pdf"))))
from_extension-Registered_example = from_extension-Registered as_lower " .pdf"

resolve_detected_extension-Resolved_example : Resolved as_lower "md" "txt" "md"
unfolding resolve_detected_extension allow_ext value normalize_extension strip lstrip rstrip
    is_space is_blank
resolve_detected_extension-Resolved_example =
    resolve_detected_extension-Resolved as_lower "md" "txt" "md" refl
