-- ===== src/SourcePolicy.antt =====
-- `SourcePolicy` of comet_rag/services/source_policy.py. Parameters are what the standard library
-- does with texts and addresses outside of the source: `str.lower`, `urlparse`, `ipaddress`, and
-- the file system's resolution of a path.
pub mod Admission
use Prim.Native.String.{[] as end, ◌∷◌ as ◌then◌, count}
use Prim.Native.Char.{code}
use comet_rag.Prelude.{
  ℕ, String, Bool, true, false, ◌&&◌, ◌||◌, not, Option, none, some, List, [], ◌∷◌, ◌==◌, eqb, ltb,
  if◌then◌else◌, any, map, strip, is_empty, keep,
}

-- `parsed.port`: none, a number, or a ValueError
pub data Port : Type 0 where
  no_port bad_port : Port
  port : ℕ → Port

-- `ParseResult`
pub record ParseResult : Type 0 where
  pub scheme : String
  pub netloc : String
  pub path : String
  pub query : String
  pub fragment : String
  pub hostname : Option String
  pub username : Option String
  pub password : Option String
  pub port : Port

-- An absolute path as its parts
abbrev pub FilePath : Type 0
FilePath = List String

pub record Library : Type 0 where
  -- `str.lower`
  pub lower : String → String
  -- none where `urlparse` raises a ValueError
  pub urlparse : String → Option ParseResult
  -- `ipaddress.ip_address(raw).is_global`; none where it raises a ValueError
  pub is_global : String → Option Bool
  -- `Path(raw).expanduser().resolve()`
  pub resolve_path : String → FilePath
  -- the addresses that `socket.getaddrinfo` gives; none where it raises an OSError
  pub getaddrinfo : String → Option (List String)

pub record SourcePolicy : Type 0 where
  pub allow_local : Bool
  pub local_roots : List String
  pub allow_url : Bool
  pub allow_private_network : Bool
  pub allowed_url_hosts : List String
  pub max_download_bytes : ℕ
  pub allow_s3 : Bool
  pub allowed_s3_buckets : List String
  pub resolve : String → List String

-- Why a source is not allowed; `value_error` is the one that `urlparse` raises.
pub data Refusal : Type 0 where
  empty_source url_closed bad_protocol no_host host_not_listed unresolved private_address : Refusal
  local_closed outside_roots s3_closed has_credentials has_port bad_bucket no_bucket : Refusal
  no_object_key has_query bucket_not_listed value_error : Refusal

pub data Verdict : Type 0 where
  accepted : Verdict
  refused : Refusal → Verdict

module _ (lib : Library) where
  -- `_is_public_ip`
  abbrev pub is_public_ip : String → Bool
  is_public_ip raw = elim (lib.is_global raw) [ none ↦ false | some b ↦ b ]

  -- `_resolve`
  abbrev pub resolve_host : String → List String
  resolve_host host = elim (lib.getaddrinfo host) [ none ↦ [] | some addresses ↦ addresses ]

  -- `a.lower() in {b.lower() for b in names}`
  abbrev pub is_listed : String → List String → Bool
  is_listed name names = any (λ n. lib.lower n == lib.lower name) names

  module _ (policy : SourcePolicy) where
    -- `private`
    abbrev pub private_in : List String → List String
    private_in = keep (λ ip. not (is_public_ip ip))

    abbrev pub judge_private : List String → Verdict
    judge_private [] = accepted
    judge_private (ip ∷ ips) = refused private_address

    abbrev pub judge_addresses : List String → Verdict
    judge_addresses [] = refused unresolved
    judge_addresses (ip ∷ ips) = judge_private (private_in (ip ∷ ips))

    abbrev pub has_any : List String → Bool
    has_any [] = false
    has_any (x ∷ xs) = true

    abbrev pub judge_host : String → Verdict
    judge_host host =
        if has_any policy.allowed_url_hosts && not (is_listed host policy.allowed_url_hosts)
        then refused host_not_listed
        else if policy.allow_private_network
        then accepted
        else judge_addresses (policy.resolve host)

    abbrev pub judge_hostname : Option String → Verdict
    judge_hostname none = refused no_host
    judge_hostname (some host) = if is_empty host then refused no_host else judge_host host

    -- `_check_url`
    unfoldable pub check_url : String → Option String → Verdict
    check_url scheme host =
        if not policy.allow_url
        then refused url_closed
        else if lib.lower scheme == "http" || lib.lower scheme == "https"
        then judge_hostname host
        else refused bad_protocol

    -- `target == base or base in target.parents`
    abbrev pub is_within : FilePath → FilePath → Bool
    is_within [] target = true
    is_within (b ∷ bs) [] = false
    is_within (b ∷ bs) (t ∷ ts) = let rest = is_within bs ts in (b == t) && rest

    -- `_check_local`
    unfoldable pub check_local : String → Verdict
    check_local raw =
        if not policy.allow_local
        then refused local_closed
        else if has_any policy.local_roots
        then if any (λ root. is_within (lib.resolve_path root) (lib.resolve_path raw))
            policy.local_roots
          then accepted
          else refused outside_roots
        else accepted

    -- `not path.lstrip("/")`
    abbrev pub only_slashes : String → Bool
    only_slashes end = true
    only_slashes (c then s) = let rest = only_slashes s in eqb (code c) 47 && rest

    abbrev pub is_given : Option String → Bool
    is_given none = false
    is_given (some s) = true

    abbrev pub bucket_of : Option String → String
    bucket_of none = ""
    bucket_of (some host) = host

    abbrev pub judge_bucket : ParseResult → String → Verdict
    judge_bucket parsed bucket =
        if is_empty bucket
        then refused no_bucket
        else if only_slashes parsed.path
        then refused no_object_key
        else if not (is_empty parsed.query) || not (is_empty parsed.fragment)
        then refused has_query
        else if has_any policy.allowed_s3_buckets
            && not (is_listed bucket policy.allowed_s3_buckets)
        then refused bucket_not_listed
        else accepted

    abbrev pub judge_port : ParseResult → Port → Verdict
    judge_port parsed bad_port = refused bad_bucket
    judge_port parsed (port n) = refused has_port
    judge_port parsed no_port = judge_bucket parsed (bucket_of parsed.hostname)

    -- `_check_s3`
    unfoldable pub check_s3 : ParseResult → Verdict
    check_s3 parsed =
        if not policy.allow_s3
        then refused s3_closed
        else if is_given parsed.username || is_given parsed.password
        then refused has_credentials
        else judge_port parsed parsed.port

    abbrev pub check_parsed : String → Option ParseResult → Verdict
    check_parsed raw none = refused value_error
    check_parsed raw (some p) =
        if lib.lower p.scheme == "s3" || lib.lower p.scheme == "minio"
        then check_s3 p
        else if not (is_empty p.scheme) && not (is_empty p.netloc)
        then check_url p.scheme p.hostname
        else if not (is_empty p.scheme) && ltb 1 (count p.scheme)
        then refused bad_protocol
        else check_local raw

    -- `check`
    unfoldable pub check : String → Verdict
    unfolding strip check_s3 check_url check_local
    check source =
        if is_empty (strip source)
        then refused empty_source
        else check_parsed (strip source) (lib.urlparse (strip source))

    abbrev pub check_target : Option ParseResult → Verdict
    check_target none = refused value_error
    check_target (some p) = check_url p.scheme p.hostname

    -- `check_redirect`
    unfoldable pub check_redirect : String → Verdict
    unfolding check_url
    check_redirect url = check_target (lib.urlparse url)
