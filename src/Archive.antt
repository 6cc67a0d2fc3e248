-- ===== src/Archive.antt =====
-- The limits on archives of comet_rag/engines/documents/common/archive.py. The list of an archive's
-- members and the events of the XML parser are parameters, and so is `str.lower`.
pub mod Members
pub mod Within
use Prim.Native.String.{[] as end, ◌∷◌ as ◌then◌}
use comet_rag.Prelude.{
  ℕ, ◌+◌, ◌%◌, max, ℤ, pos, positive, String, Bool, true, false, ◌&&◌, ◌||◌, Option, none, some,
  List, [], ◌∷◌, ◌==◌, ltb, eqb, if◌then◌else◌, length,
}
use comet_rag.Floats.{Floats}

pub record ArchiveLimits (F : Type 0) : Type 0 where
  pub max_members : ℕ
  pub max_member_uncompressed_bytes : ℕ
  pub max_total_uncompressed_bytes : ℕ
  pub max_compression_ratio : F
  pub max_xml_elements : ℕ
  pub max_xml_text_chars : ℕ

-- `ZipInfo`
pub record Member : Type 0 where
  pub filename : String
  pub flag_bits : ℕ
  pub file_size : ℕ
  pub compress_size : ℕ

-- An element that the parser ends: the lengths that its text and tail have then, 0 for none.
pub record Element : Type 0 where
  pub text : ℕ
  pub tail : ℕ

-- How the reading of a member ends: at its end, at an XMLSyntaxError, or at a BadZipFile or OSError.
pub data End : Type 0 where
  finished syntax_error unreadable : End

pub data Refusal : Type 0 where
  bad_limit too_many_members member_too_large archive_too_large member_ratio archive_ratio : Refusal
  encrypted_member too_many_elements text_too_long xml_syntax bad_zip : Refusal

pub data Result (A : Type 0) : Type 0 where
  ok : A → Result A
  err : Refusal → Result A

-- The limits as they are given, before `__post_init__`
pub record GivenLimits (F : Type 0) : Type 0 where
  pub members : ℤ
  pub member_bytes : ℤ
  pub total_bytes : ℤ
  pub ratio : F
  pub elements : ℤ
  pub text_chars : ℤ

module _ {F : Type 0} (fl : Floats F) where
  abbrev pub limits_from :
      F → Option ℕ → Option ℕ → Option ℕ → Option ℕ → Option ℕ → Result (ArchiveLimits F)
  limits_from ratio (some a) (some b) (some c) (some d) (some e) =
      if fl.below fl.zero ratio
      then ok (record {
        max_members = a;
        max_member_uncompressed_bytes = b;
        max_total_uncompressed_bytes = c;
        max_compression_ratio = ratio;
        max_xml_elements = d;
        max_xml_text_chars = e;
      })
      else err bad_limit
  limits_from ratio _ _ _ _ _ = err bad_limit

  -- `ArchiveLimits.__post_init__`
  unfoldable pub new_limits : GivenLimits F → Result (ArchiveLimits F)
  new_limits g =
      limits_from g.ratio (positive g.members) (positive g.member_bytes) (positive g.total_bytes)
        (positive g.elements) (positive g.text_chars)

  -- `size / max(compressed, 1) > limit`
  abbrev pub exceeds : ℕ → ℕ → F → Bool
  exceeds size compressed limit = fl.below limit (fl.quotient size (max compressed 1))

  -- `size and size / max(compressed, 1) > limit`
  abbrev pub too_dense : ℕ → ℕ → F → Bool
  too_dense size compressed limit = if eqb size 0 then false else exceeds size compressed limit

  module _ (limits : ArchiveLimits F) where
    -- The loop over the members, with the totals so far, and the test after it
    unfoldable pub validate_members : List Member → ℕ → ℕ → Result (Unit {0})
    validate_members [] uncompressed compressed =
        if too_dense uncompressed compressed limits.max_compression_ratio
        then err archive_ratio
        else ok tt
    validate_members (m ∷ ms) uncompressed compressed =
        let rest =
          validate_members ms (uncompressed + m.file_size) (compressed + m.compress_size) in
        if eqb (m.flag_bits % 2) 1
        then err encrypted_member
        else if ltb limits.max_member_uncompressed_bytes m.file_size
        then err member_too_large
        else if ltb limits.max_total_uncompressed_bytes (uncompressed + m.file_size)
        then err archive_too_large
        else if too_dense m.file_size m.compress_size limits.max_compression_ratio
        then err member_ratio
        else rest

    -- `_validate_zip_metadata`
    unfoldable pub validate_zip_metadata : List Member → Result (Unit {0})
    unfolding validate_members
    validate_zip_metadata members =
        if ltb limits.max_members (length members)
        then err too_many_members
        else validate_members members 0 0

    abbrev pub ended : End → ℕ → Result ℕ
    ended finished count = ok count
    ended syntax_error count = err xml_syntax
    ended unreadable count = err bad_zip

    -- The loop over the elements of one member, with the number of those before
    unfoldable pub scan_elements : List Element → End → ℕ → Result ℕ
    scan_elements [] end_of count = ended end_of count
    scan_elements (e ∷ es) end_of count =
        let rest = scan_elements es end_of (count + 1) in
        if ltb limits.max_xml_elements (count + 1)
        then err too_many_elements
        else if ltb limits.max_xml_text_chars (max e.text e.tail)
        then err text_too_long
        else rest

    -- `s.endswith(suffix)`
    abbrev pub ends_with : String → String → Bool
    ends_with suffix end = suffix == ""
    ends_with suffix (c then s) =
        let rest = ends_with suffix s in if suffix == (c then s) then true else rest

    module _ (lower : String → String) (parse : Member → List Element × End) where
      abbrev pub is_xml : Member → Bool
      is_xml m = ends_with ".xml" (lower m.filename) || ends_with ".rels" (lower m.filename)

      abbrev pub with_count : Result ℕ → (ℕ → Result (Unit {0})) → Result (Unit {0})
      with_count (err e) f = err e
      with_count (ok n) f = f n

      -- `_validate_xml_members`, with the number of elements so far
      unfoldable pub validate_xml_members : List Member → ℕ → Result (Unit {0})
      unfolding scan_elements
      validate_xml_members [] count = ok tt
      validate_xml_members (m ∷ ms) count =
          with_count (if is_xml m then scan_elements (parse m).0 (parse m).1 count else ok count)
            (λ n. validate_xml_members ms n)

      abbrev pub then_xml : Result (Unit {0}) → List Member → Result (Unit {0})
      then_xml (err e) members = err e
      then_xml (ok u) members = validate_xml_members members 0

      abbrev pub validate_opened : Option (List Member) → Result (Unit {0})
      validate_opened none = err bad_zip
      validate_opened (some members) = then_xml (validate_zip_metadata members) members

      -- `validate_zip_archive`: none where `ZipFile` or `infolist` fails
      unfoldable pub validate_zip_archive : Option (List Member) → Result (Unit {0})
      unfolding validate_zip_metadata validate_xml_members
      validate_zip_archive opened = validate_opened opened
