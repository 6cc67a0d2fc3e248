-- ===== src/Sources/Http.antt =====
-- The downloads of `URLLoader` of comet_rag/infrastructure/sources/http.py, with
-- `resolve_downloaded_extension` of comet_rag/infrastructure/sources/file_info.py. Parameters are
-- the servers, which may answer each request in the light of all before it, the parts of a URL's
-- path, `int`, and the detection of a file's content.
pub mod Silent
pub mod Redirects
pub mod Fill
pub mod Stream
use comet_rag.Prelude.{
  ℕ, zero, suc, ◌+◌, ℤ, pos, negsuc, String, Bool, true, false, ◌&&◌, Option, none, some, List, [],
  ◌∷◌, ltb, leb, eqb, min, if◌then◌else◌,
}
use comet_rag.Effect
use comet_rag.Effect.{ok, err, pure, raise, lift, atomic, attempt, ◌>>=◌, ◌>>◌}
use comet_rag.Formats.{FormatError, strip_dots, is_allowed_extension, resolve_detected_extension}
use comet_rag.SourcePolicy.{Verdict, accepted, refused}
use comet_rag.Sources.{
  LoadError, value_error, download_too_large, too_many_redirects, remote_protocol_error,
  http_status_error, source_not_allowed, format_error, raised, Result,
}
use comet_rag.Sources.TempFiles.{Files, FileSystem, Step, create, replace_suffix, discard, write}

-- What reading the body brings: a chunk of so many bytes, or an exception of the read or the write
pub data Event : Type 0 where
  chunk : ℕ → Event
  broken : String → Event

-- `is_redirect` with the URL of `next_request`
pub data Redirection : Type 0 where
  no_redirect no_location : Redirection
  to : String → Redirection

pub record Response : Type 0 where
  pub redirection : Redirection
  -- the status for which `raise_for_status` raises
  pub bad_status : Option ℕ
  pub url : String
  pub content_length : Option String
  pub body : List Event

pub record DownloadRequestConfig : Type 0 where
  pub follow_redirects : Bool
  pub max_bytes : Option ℕ

pub record UrlLoader : Type 0 where
  pub max_download_bytes : ℕ
  pub redirect_validator : Option (String → Verdict)
  pub max_redirects : ℕ

-- The servers and the libraries. `respond` has the URL of the request that is sent and of those
-- before it, the latest first; it gives the name of an exception where `send` raises.
pub record Internet : Type 0 where
  pub respond : List String → Effect.Result String Response
  -- `int(text)`
  pub int : String → Option ℤ
  -- `Path(unquote(urlparse(url).path)).name`
  pub name_of : String → String
  -- `Path(name).suffix`
  pub suffix_of : String → String
  pub lower : String → String
  -- `detect_content_type_from_path`; none where it raises
  pub detect : String → Option String

-- The requests that were sent, the latest first, and the temporary files
pub record Client : Type 0 where
  pub sent : List String
  pub files : Files

abbrev pub M : Type 0 → Type 0
M A = Effect.M Client LoadError A

abbrev pub on_files : {A : Type 0} → Step A → M A
on_files step = atomic (λ c. let (r, f) = step c.files in (r, record c { files = f }))

-- `_effective_max_bytes`
abbrev pub least : Option ℕ → ℕ → ℕ
least none limit = limit
least (some n) limit = min n limit

abbrev pub exceeds : ℤ → ℕ → Bool
exceeds (pos n) limit = ltb limit n
exceeds (negsuc n) limit = false

abbrev pub as_result : Effect.Result FormatError String → Result String
as_result (ok x) = ok x
as_result (err e) = err (format_error e)

abbrev pub allowed : Verdict → M (Unit {0})
allowed accepted = pure tt
allowed (refused r) = raise (source_not_allowed r)

abbrev pub validate : Option (String → Verdict) → String → M (Unit {0})
validate none url = pure tt
validate (some validator) url = allowed (validator url)

module _ (net : Internet) where
  abbrev pub declares_more : Option String → ℕ → Bool
  declares_more none limit = false
  declares_more (some raw) limit = elim (net.int raw) [ none ↦ false | some n ↦ exceeds n limit ]

  -- `_check_content_length`
  unfoldable pub check_content_length : Option String → ℕ → Result (Unit {0})
  check_content_length header limit =
      if declares_more header limit then err download_too_large else ok tt

  abbrev pub bare : String → String
  bare suffix = strip_dots (net.lower suffix)

  abbrev pub by_detection : String → Option String → Result String
  by_detection declared none =
      if is_allowed_extension net.lower declared then ok declared else err (value_error "type")
  by_detection declared (some detected) =
      as_result (resolve_detected_extension net.lower declared (bare detected))

  -- `resolve_downloaded_extension`
  unfoldable pub resolve_downloaded_extension : String → String → Result String
  unfolding is_allowed_extension resolve_detected_extension
  resolve_downloaded_extension path declared_name =
      by_detection (bare (net.suffix_of declared_name)) (net.detect path)

  module _ (fs : FileSystem) where
    -- `_finalize_temp`
    unfoldable pub finalize_temp : String → String → M String
    unfolding resolve_downloaded_extension replace_suffix
    finalize_temp path url = lift (resolve_downloaded_extension path (net.name_of url)) >>= λ label.
        on_files (replace_suffix fs path label)

    -- The loop over the chunks, with the number of bytes so far
    unfoldable pub copy : String → ℕ → ℕ → List Event → M ℕ
    unfolding write
    copy name limit total [] = pure total
    copy name limit total (broken x ∷ es) = raise (raised x)
    copy name limit total (chunk n ∷ es) =
        let rest = copy name limit (total + n) es in
        if ltb limit (total + n)
        then raise download_too_large
        else on_files (λ f. (ok tt, write name n f)) >> rest

    abbrev pub fill : String → ℕ → Response → M String
    fill name limit response = copy name limit 0 response.body >>= λ total.
        if eqb total 0 then raise (value_error "empty") else finalize_temp name response.url

    -- `_stream_response`
    unfoldable pub stream_response : ℕ → Response → M String
    unfolding check_content_length create copy finalize_temp discard
    stream_response limit response =
        lift (check_content_length response.content_length limit)
        >> on_files (create fs)
        >>= λ name.
            attempt (fill name limit response) pure (λ e. on_files (discard fs name) >> raise e)

    module _ (loader : UrlLoader) (config : DownloadRequestConfig) where
      abbrev pub limit_of : ℕ
      limit_of = least config.max_bytes loader.max_download_bytes

      -- `raise_for_status`, and the path with the URL
      abbrev pub finish : Response → Option ℕ → M (String × String)
      finish response (some status) = raise (http_status_error status)
      finish response none = stream_response limit_of response >>= λ path. pure (path, response.url)

      abbrev pub replied : Effect.Result String Response → M Response
      replied (err name) = raise (raised name)
      replied (ok response) = pure response

      -- `c.send(request, …)`
      abbrev pub send : String → M Response
      send url =
          atomic (λ c. (ok (net.respond (url ∷ c.sent)), record c { sent = url ∷ c.sent }))
          >>= replied

      abbrev pub act : (String → M (String × String)) → Response → Redirection → M (String × String)
      act next response no_redirect = finish response response.bad_status
      act next response no_location =
          if config.follow_redirects
          then raise remote_protocol_error
          else finish response response.bad_status
      act next response (to url) =
          if config.follow_redirects then next url else finish response response.bad_status

      -- The rounds of `_do_request`, with how many redirections may still be followed
      unfoldable pub do_request : ℕ → String → M (String × String)
      unfolding stream_response
      do_request zero url = send url >>= λ response.
          act (λ next. raise too_many_redirects) response response.redirection
      do_request (suc left) url = send url >>= λ response.
          act (λ next. validate loader.redirect_validator next >> do_request left next) response
            response.redirection

      -- `_download`
      unfoldable pub download : String → M (String × String)
      unfolding do_request
      download url = do_request loader.max_redirects url
