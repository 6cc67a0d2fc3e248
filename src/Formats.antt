-- ===== src/Formats.antt =====
-- comet_rag/engines/documents/formats.py: the kinds of files, and what a downloaded file counts as.
-- `str.lower` is a parameter.
pub mod Registry
pub mod Detection
use Prim.Native.String.{[] as end, ◌∷◌ as ◌then◌}
use Prim.Native.Char.{code}
use comet_rag.Prelude.{
  ◌&&◌, String, Bool, true, false, not, Option, none, some, List, [], ◌∷◌, ◌++◌, ◌==◌, eqb, any,
  find, strip, if◌then◌else◌,
}
use comet_rag.Dict.{Dict, lookup, insert}
use comet_rag.Effect.{Result, ok, err}

pub data AllowExt : Type 0 where
  txt doc docx pdf md ppt pptx csv xlsx xls json yaml xml : AllowExt
  py ts js java c cpp go php r rs html : AllowExt

unfoldable pub value : AllowExt → String
value txt = "txt"
value doc = "doc"
value docx = "docx"
value pdf = "pdf"
value md = "md"
value ppt = "ppt"
value pptx = "pptx"
value csv = "csv"
value xlsx = "xlsx"
value xls = "xls"
value json = "json"
value yaml = "yaml"
value xml = "xml"
value py = "py"
value ts = "ts"
value js = "js"
value java = "java"
value c = "c"
value cpp = "cpp"
value go = "go"
value php = "php"
value r = "r"
value rs = "rs"
value html = "html"

-- The members, in the order of their declaration; `RUST` is another name of `RS`
abbrev pub members : List AllowExt
members =
    txt ∷ doc ∷ docx ∷ pdf ∷ md ∷ ppt ∷ pptx ∷ csv ∷ xlsx ∷ xls ∷ json ∷ yaml ∷ xml ∷ py ∷ ts ∷ js
    ∷ java ∷ c ∷ cpp ∷ go ∷ php ∷ r ∷ rs ∷ html ∷ []

-- `AllowExt(text)`
unfoldable pub allow_ext : String → Option AllowExt
unfolding value
allow_ext text = find (λ e. value e == text) members

-- `a is b`
abbrev pub same : AllowExt → AllowExt → Bool
same a b = value a == value b

abbrev pub code_extensions : List AllowExt
code_extensions = py ∷ ts ∷ js ∷ java ∷ c ∷ cpp ∷ go ∷ php ∷ r ∷ rs ∷ html ∷ []

-- `_GENERIC_TEXT_DECLARATIONS`
abbrev pub generic_text_declarations : List AllowExt
generic_text_declarations = txt ∷ md ∷ code_extensions

abbrev pub is_among : AllowExt → List AllowExt → Bool
is_among e es = any (same e) es

pub data FormatError : Type 0 where
  unsupported_content_type : String → FormatError
  content_type_mismatch : AllowExt → AllowExt → FormatError
  unknown_extension duplicate_extension : String → FormatError
  unregistered : List AllowExt → FormatError
  unsupported_granularity : FormatError

-- `s.lstrip(".")`
abbrev pub strip_dots : String → String
strip_dots end = end
strip_dots (x then s) = let rest = strip_dots s in if eqb (code x) 46 then rest else (x then s)

pub data GranularityStrategy : Type 0 where
  whole by_page by_chunk by_row by_node : GranularityStrategy

abbrev pub is_granularity : GranularityStrategy → GranularityStrategy → Bool
is_granularity whole whole = true
is_granularity by_page by_page = true
is_granularity by_chunk by_chunk = true
is_granularity by_row by_row = true
is_granularity by_node by_node = true
is_granularity _ _ = false

-- The subclasses of `BaseFileFormat`
pub data FileFormat : Type 0 where
  prose mixed slide tabular structured code_format : FileFormat

unfoldable pub extensions : FileFormat → List AllowExt
extensions prose = txt ∷ []
extensions mixed = doc ∷ docx ∷ pdf ∷ md ∷ []
extensions slide = ppt ∷ pptx ∷ []
extensions tabular = csv ∷ xlsx ∷ xls ∷ []
extensions structured = json ∷ yaml ∷ xml ∷ []
extensions code_format = code_extensions

unfoldable pub default_granularity : FileFormat → GranularityStrategy
default_granularity prose = whole
default_granularity mixed = by_chunk
default_granularity slide = by_page
default_granularity tabular = by_row
default_granularity structured = by_node
default_granularity code_format = whole

unfoldable pub supported_granularities : FileFormat → List GranularityStrategy
supported_granularities tabular = by_row ∷ []
supported_granularities structured = whole ∷ by_node ∷ []
supported_granularities code_format = whole ∷ by_chunk ∷ []
supported_granularities _ = whole ∷ by_page ∷ by_chunk ∷ []

unfoldable pub supports : FileFormat → GranularityStrategy → Bool
unfolding supported_granularities
supports format granularity = any (is_granularity granularity) (supported_granularities format)

-- `_FORMAT_TYPES`
abbrev pub format_types : List FileFormat
format_types = prose ∷ mixed ∷ slide ∷ tabular ∷ structured ∷ code_format ∷ []

abbrev pub is_key : Dict FileFormat → String → Bool
is_key registry key = elim (lookup key registry) [ none ↦ false | some f ↦ true ]

abbrev pub register :
    FileFormat → List AllowExt → Dict FileFormat → Result FormatError (Dict FileFormat)
register format [] registry = ok registry
register format (e ∷ es) registry =
    let rest = register format es (insert (value e) format registry) in
    if is_key registry (value e) then err (duplicate_extension (value e)) else rest

abbrev pub register_all : List FileFormat → Dict FileFormat → Result FormatError (Dict FileFormat)
register_all [] registry = ok registry
register_all (format ∷ formats) registry = elim (register format (extensions format) registry) [
  | err x ↦ err x
  | ok registry' ↦ register_all formats registry'
]

abbrev pub missing : List AllowExt → Dict FileFormat → List AllowExt
missing [] registry = []
missing (e ∷ es) registry =
    let rest = missing es registry in if is_key registry (value e) then rest else e ∷ rest

abbrev pub all_registered : Dict FileFormat → List AllowExt → Result FormatError (Dict FileFormat)
all_registered registry [] = ok registry
all_registered registry (e ∷ es) = err (unregistered (e ∷ es))

-- `_build_format_registry`
unfoldable pub build_format_registry : Result FormatError (Dict FileFormat)
unfolding value extensions lookup insert
build_format_registry = elim (register_all format_types []) [
  | err x ↦ err x
  | ok registry ↦ all_registered registry (missing members registry)
]

-- `ParseConfig`
pub record ParseConfig : Type 0 where
  pub format_cls : FileFormat
  pub granularity : GranularityStrategy

-- `ParseConfig(…)` with `_validate_granularity`
unfoldable pub parse_config : FileFormat → GranularityStrategy → Result FormatError ParseConfig
unfolding supports
parse_config format granularity =
    if supports format granularity
    then ok (record { format_cls = format; granularity = granularity })
    else err unsupported_granularity

abbrev pub found_in : String → Dict FileFormat → Result FormatError FileFormat
found_in key registry = elim (lookup key registry) [
  | none ↦ err (unknown_extension key)
  | some format ↦ ok format
]

module _ (lower : String → String) where
  -- `normalize_extension`
  unfoldable pub normalize_extension : String → String
  unfolding strip
  normalize_extension extension = strip_dots (lower (strip extension))

  -- `is_allowed_extension`
  unfoldable pub is_allowed_extension : String → Bool
  unfolding normalize_extension allow_ext
  is_allowed_extension extension = elim (allow_ext (normalize_extension extension)) [
    | none ↦ false
    | some e ↦ true
  ]

  abbrev pub resolve_members : AllowExt → Option AllowExt → Result FormatError String
  resolve_members detected none = ok (value detected)
  resolve_members detected (some declared) =
      if same declared detected
      then ok (value detected)
      else if same detected txt && is_among declared generic_text_declarations
      then ok (value declared)
      else err (content_type_mismatch declared detected)

  -- `resolve_detected_extension`
  unfoldable pub resolve_detected_extension : String → String → Result FormatError String
  unfolding normalize_extension allow_ext value
  resolve_detected_extension declared detected = elim (allow_ext (normalize_extension detected)) [
    | none ↦ err (unsupported_content_type (normalize_extension detected))
    | some e ↦ resolve_members e (allow_ext (normalize_extension declared))
  ]

  -- `BaseFileFormat.from_extension`
  unfoldable pub from_extension : String → Result FormatError FileFormat
  unfolding build_format_registry normalize_extension lookup
  from_extension extension = elim build_format_registry [
    | err x ↦ err x
    | ok registry ↦ found_in (normalize_extension extension) registry
  ]

  -- `ParseConfig.from_extension`
  unfoldable pub config_from_extension : String → Result FormatError ParseConfig
  unfolding from_extension parse_config default_granularity
  config_from_extension extension = elim (from_extension extension) [
    | err x ↦ err x
    | ok format ↦ parse_config format (default_granularity format)
  ]
