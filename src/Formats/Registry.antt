-- ===== src/Formats/Registry.antt =====
-- The registry of formats beside the extensions that are allowed.
use comet_rag.Prelude.{
  ◌⊎◌, Option-cases, inl, inr, String, ◌≡◌, refl, ap, ◌∙◌, Bool, true, Option, none, some, List, [],
  ◌∷◌, arith, ◌==◌, find,
}
use comet_rag.Dict.{Dict, lookup, insert}
use comet_rag.Effect.{Result, ok, err}
use comet_rag.Formats.{
  AllowExt, value, members, allow_ext, is_among, FileFormat, prose, mixed, slide, tabular,
  structured, code_format, extensions, default_granularity, supports, supported_granularities,
  FormatError, unknown_extension, build_format_registry, normalize_extension, from_extension,
  found_in, config_from_extension, parse_config, ParseConfig,
}

-- The format of an extension.
abbrev format_of : AllowExt → FileFormat
format_of AllowExt.txt = prose
format_of AllowExt.doc = mixed
format_of AllowExt.docx = mixed
format_of AllowExt.pdf = mixed
format_of AllowExt.md = mixed
format_of AllowExt.ppt = slide
format_of AllowExt.pptx = slide
format_of AllowExt.csv = tabular
format_of AllowExt.xlsx = tabular
format_of AllowExt.xls = tabular
format_of AllowExt.json = structured
format_of AllowExt.yaml = structured
format_of AllowExt.xml = structured
format_of _ = code_format

abbrev entries : List AllowExt → Dict FileFormat
entries [] = []
entries (e ∷ es) = (value e, format_of e) ∷ entries es

registry_lem : build_format_registry ≡ ok (entries members)
unfolding build_format_registry extensions value lookup insert
registry_lem = refl

lookup-entries :
    (key : String) (es : List AllowExt)
    → lookup key (entries es)
      ≡ (elim (find (λ e. value e == key) es) [ none ↦ none | some e ↦ some (format_of e) ])
unfolding lookup
lookup-entries key [] = refl
lookup-entries key (e ∷ es) = ground (arith, lookup-entries key es)

find-some :
    (p : AllowExt → Bool) (es : List AllowExt) (e : AllowExt) → find p es ≡ some e → p e ≡ true
find-some p [] e h = absurd (cc)
find-some p (x ∷ es) e h = ground (arith, h, find-some p es e)

abbrev answer : String → Option AllowExt → Result FormatError FileFormat
answer key o = elim o [ none ↦ err (unknown_extension key) | some e ↦ ok (format_of e) ]

found_lem :
    (key : String) (o : Option AllowExt) (l : Option FileFormat)
    → l ≡ (elim o [ none ↦ none | some e ↦ some (format_of e) ])
    → (elim l as (λ _. Result FormatError FileFormat) [
      | none ↦ err (unknown_extension key)
      | some f ↦ ok f
    ])
      ≡ answer key o
found_lem key none l h = rw h refl
found_lem key (some e) l h = rw h refl

abbrev configured : Result FormatError FileFormat → Result FormatError ParseConfig
configured r = elim r [ err x ↦ err x | ok f ↦ parse_config f (default_granularity f) ]

module _ (lower : String → String) where
  from_extension_lem :
      (extension : String)
      → from_extension lower extension
        ≡ answer
            (normalize_extension lower extension)
            (allow_ext (normalize_extension lower extension))
  unfolding from_extension allow_ext
  from_extension_lem extension =
      let key = normalize_extension lower extension in
      ap
        (λ (r : Result FormatError (Dict FileFormat)).
          elim r as (λ _. Result FormatError FileFormat) [
            | err x ↦ err x
            | ok registry ↦ found_in key registry
          ])
        registry_lem
      ∙ found_lem key (find (λ e. value e == key) members) (lookup key (entries members))
          (lookup-entries key members)

  -- What `from_extension` and `ParseConfig.from_extension` answer to a text.
  pub record Registered (extension : String) (e : AllowExt) : Type 0 where
    pub format : FileFormat
    pub found : from_extension lower extension ≡ ok format
    pub listed : is_among e (extensions format) ≡ true
    pub alone : (other : FileFormat) → is_among e (extensions other) ≡ true → other ≡ format
    pub config :
        config_from_extension lower extension
        ≡ ok (record { format_cls = format; granularity = default_granularity format })

  listed_lem : (e : AllowExt) → is_among e (extensions (format_of e)) ≡ true
  unfolding extensions value
  listed_lem AllowExt.txt = refl
  listed_lem _ = refl

  alone_lem :
      (e : AllowExt) (other : FileFormat)
      → is_among e (extensions other) ≡ true
      → other ≡ format_of e
  unfolding extensions value
  alone_lem e prose = elim e as (λ e. is_among e (extensions prose) ≡ true → prose ≡ format_of e) [
    | AllowExt.txt ↦ λ h. cc
    | _ ↦ λ h. cc
  ]
  alone_lem e other = elim e as (λ e. is_among e (extensions other) ≡ true → other ≡ format_of e) [
    | AllowExt.txt ↦ λ h. cc
    | _ ↦ λ h. cc
  ]

  supported_lem :
      (f : FileFormat)
      → parse_config f (default_granularity f)
        ≡ ok (record { format_cls = f; granularity = default_granularity f })
  unfolding parse_config supports default_granularity supported_granularities
  supported_lem prose = refl
  supported_lem _ = refl

  -- The table of formats and the list of the extensions that are allowed agree. For every text, if
  -- it names an extension that is allowed, in whatever case and with a dot or without, it has one
  -- format, the only one that lists the extension, and the configuration that is made for it has
  -- the default granularity of that format, which is one that the format supports; and otherwise
  -- both lookups refuse it, as an extension that is not known.
  pub from_extension-Registered :
      (extension : String)
      → ((e : AllowExt) × (allow_ext (normalize_extension lower extension) ≡ some e)
          × Registered extension e)
        ⊎ ((allow_ext (normalize_extension lower extension) ≡ none)
            × (from_extension lower extension
                ≡ err (unknown_extension (normalize_extension lower extension)))
            × (config_from_extension lower extension
                ≡ err (unknown_extension (normalize_extension lower extension))))
  unfolding config_from_extension
  from_extension-Registered extension =
      let key = normalize_extension lower extension in
      let whole = from_extension_lem extension in
      elim (Option-cases (allow_ext key)) [
        | inl n ↦ let h = whole ∙ ap (answer key) n in inr (n, h, ap configured h)
        | inr s ↦
            let h = whole ∙ ap (answer key) s.1 in
            inl (
              s.0,
              s.1,
              record {
                format = format_of s.0;
                found = h;
                listed = listed_lem s.0;
                alone = alone_lem s.0;
                config = ap configured h ∙ supported_lem (format_of s.0);
              },
            )
      ]
