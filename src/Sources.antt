-- ===== src/Sources.antt =====
-- comet_rag/infrastructure/sources: what its loaders share, the exceptions that they raise.
pub mod TempFiles
pub mod Http
use comet_rag.Prelude.{ℕ, ℤ, String, Option, List, [], ◌∷◌}
use comet_rag.Formats.{FormatError}
use comet_rag.SourcePolicy.{Refusal}
use comet_rag.Effect

-- `raised` is any other exception, by its type's name.
pub data LoadError : Type 0 where
  os_error runtime_error : LoadError
  value_error : String → LoadError
  download_too_large too_many_redirects remote_protocol_error : LoadError
  http_status_error : ℕ → LoadError
  source_not_allowed : Refusal → LoadError
  format_error : FormatError → LoadError
  raised : String → LoadError

abbrev pub Result : Type 0 → Type 0
Result A = Effect.Result LoadError A
