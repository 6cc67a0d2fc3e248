-- ===== src/Archive/Within.antt =====
-- When an archive passes `validate_zip_archive`.
use comet_rag.Prelude.{
  ℕ, suc, ◌+◌, ◌≤◌, max, String, ◌≡◌, ◌↔◌, refl, sym, ap, ◌∙◌, subst, true, false, some, List, [],
  ◌∷◌, ◌++◌, arith, if◌then◌else◌, length, length-append, All, All-append, All-parts, Bool-cases,
  inl, inr, if-true, if-false,
}
use comet_rag.Floats.{Floats}
use comet_rag.Archive.{
  End, finished, syntax_error, unreadable, ArchiveLimits, Member, Element, Result, ok, err,
  too_dense, validate_members, validate_zip_metadata, scan_elements, is_xml, with_count,
  validate_xml_members, validate_zip_archive,
}
use comet_rag.Archive.Members.{
  MemberWithin, dense-eq, total_compressed, total_size, validate_members_from, validate_members_to,
}

module _ {F : Type 0} (fl : Floats F) (limits : ArchiveLimits F) where
  -- The elements of the members that are XML.
  module _ (lower : String → String) (parse : Member → List Element × End) where
    unfoldable pub elements : List Member → List Element
    elements [] = []
    elements (m ∷ ms) =
        let rest = elements ms in
        if is_xml fl limits lower parse m then (parse m).0 ++ rest else rest

    abbrev pub ElementWithin : Element → Type 0
    ElementWithin e = max e.text e.tail ≤ limits.max_xml_text_chars

    abbrev pub Parsed : Member → Type 0
    Parsed m = is_xml fl limits lower parse m ≡ true → (parse m).1 ≡ finished

    scan_to :
        (es : List Element) (q : End) (n k : ℕ)
        → n ≤ limits.max_xml_elements
        → scan_elements fl limits es q n ≡ ok k
        → (k ≡ n + length es)
          × (k ≤ limits.max_xml_elements)
          × All ElementWithin es
          × (q ≡ finished)
    unfolding scan_elements
    scan_to [] syntax_error n k b h = absurd (cc)
    scan_to [] unreadable n k b h = absurd (cc)
    scan_to [] finished n k b h =
        let e : n ≡ k = cc in (omega (arith, e), omega (arith, e, b), tt, refl)
    scan_to (e ∷ es) q n k b h =
        let r = scan_to es q (n + 1) k (ground (arith, h)) (ground (arith, h)) in
        (omega (arith, r.0), r.1, (ground (arith, h), r.2), r.3)

    scan_from :
        (es : List Element) (n : ℕ)
        → n + length es ≤ limits.max_xml_elements
        → All ElementWithin es
        → scan_elements fl limits es finished n ≡ ok (n + length es)
    unfolding scan_elements
    scan_from [] n b a = ap ok (omega arith)
    scan_from (e ∷ es) n b a =
        let rest = scan_from es (n + 1) (omega (arith, b)) a.1 in
        let same : n + 1 + length es ≡ n + suc (length es) = omega arith in
        ground (arith, a.0, b, rest, same)

    counted :
        (r : Result ℕ) (f : ℕ → Result (Unit {0}))
        → with_count fl limits lower parse r f ≡ ok tt
        → (k : ℕ) × (r ≡ ok k) × (f k ≡ ok tt)
    counted (ok k) f h = (k, refl, h)
    counted (err e) f h = absurd (cc)

    abbrev pub XmlWithin : List Member → ℕ → Type 0
    XmlWithin ms n =
        (n + length (elements ms) ≤ limits.max_xml_elements)
        × All ElementWithin (elements ms)
        × All Parsed ms

    xml_to :
        (ms : List Member) (n : ℕ)
        → n ≤ limits.max_xml_elements
        → validate_xml_members fl limits lower parse ms n ≡ ok tt
        → XmlWithin ms n
    unfolding validate_xml_members elements
    xml_to [] n b h = (omega (arith, b), tt, tt)
    xml_to (m ∷ ms) n b h = elim (Bool-cases (is_xml fl limits lower parse m)) [
      | inl t ↦
          let c =
            counted (scan_elements fl limits (parse m).0 (parse m).1 n)
              (λ k. validate_xml_members fl limits lower parse ms k) (ground (arith, t, h)) in
          let s = scan_to (parse m).0 (parse m).1 n c.0 b c.1 in
          let r = xml_to ms c.0 s.1 c.2 in
          let all : elements (m ∷ ms) ≡ (parse m).0 ++ elements ms =
            if-true (is_xml fl limits lower parse m) _ _ t in
          (
            subst (λ l. n + length l ≤ limits.max_xml_elements) (sym all)
                (omega (arith, r.0, s.0, length-append (parse m).0 (elements ms))),
            subst (All ElementWithin) (sym all)
                (All-append ElementWithin (parse m).0 (elements ms) s.2 r.1),
            ((λ e. s.3), r.2),
          )
      | inr f ↦
          let r = xml_to ms n b (ground (arith, f, h)) in
          let all : elements (m ∷ ms) ≡ elements ms =
            if-false (is_xml fl limits lower parse m) _ _ f in
          (
            subst (λ l. n + length l ≤ limits.max_xml_elements) (sym all) r.0,
            subst (All ElementWithin) (sym all) r.1,
            ((λ e. absurd (cc)), r.2),
          )
    ]

    xml_from :
        (ms : List Member) (n : ℕ)
        → XmlWithin ms n
        → validate_xml_members fl limits lower parse ms n ≡ ok tt
    unfolding validate_xml_members elements
    xml_from [] n x = refl
    xml_from (m ∷ ms) n x = elim (Bool-cases (is_xml fl limits lower parse m)) [
      | inl t ↦
          let all : elements (m ∷ ms) ≡ (parse m).0 ++ elements ms =
            if-true (is_xml fl limits lower parse m) _ _ t in
          let parts =
            All-parts ElementWithin (parse m).0 (elements ms) (subst (All ElementWithin) all x.1) in
          let size : n + length ((parse m).0 ++ elements ms) ≤ limits.max_xml_elements =
            subst (λ l. n + length l ≤ limits.max_xml_elements) all x.0 in
          let here : n + length (parse m).0 ≤ limits.max_xml_elements =
            omega (arith, size, length-append (parse m).0 (elements ms)) in
          let s = scan_from (parse m).0 n here parts.0 in
          let rest =
            xml_from ms (n + length (parse m).0)
              (omega (arith, size, length-append (parse m).0 (elements ms)), parts.1, x.2.1) in
          let fine : (parse m).1 ≡ finished = x.2.0 t in ground (arith, t, fine, s, rest)
      | inr f ↦
          let all : elements (m ∷ ms) ≡ elements ms =
            if-false (is_xml fl limits lower parse m) _ _ f in
          let rest = xml_from ms n (
            subst (λ l. n + length l ≤ limits.max_xml_elements) all x.0,
            subst (All ElementWithin) all x.1,
            x.2.1,
          ) in
          ground (arith, f, rest)
    ]

    -- What the limits ask of the members of an archive.
    pub record IsWithin (ms : List Member) : Type 0 where
      pub count : length ms ≤ limits.max_members
      pub members : All (MemberWithin fl limits) ms
      pub total : total_size ms ≤ limits.max_total_uncompressed_bytes
      pub density :
          too_dense fl (total_size ms) (total_compressed ms) limits.max_compression_ratio ≡ false
      pub xml : XmlWithin ms 0

    -- An archive that can be opened passes exactly if it is within the limits: it has no more
    -- members than allowed, none of them encrypted, too large or too dense; together they are
    -- neither too large nor too dense; and the members that are XML are read to their end without
    -- an error and have together no more elements than allowed, none with a text or tail that is
    -- too long.
    pub validate_zip_archive_iff :
        (ms : List Member)
        → validate_zip_archive fl limits lower parse (some ms) ≡ ok tt ↔ IsWithin ms
    unfolding validate_zip_archive validate_zip_metadata
    validate_zip_archive_iff ms = (to, from)
      where
        to : validate_zip_archive fl limits lower parse (some ms) ≡ ok tt → IsWithin ms
        to h =
            let meta : validate_members fl limits ms 0 0 ≡ ok tt = ground (arith, h) in
            let m = validate_members_to fl limits ms 0 0 (omega arith) meta in
            record {
              count = ground (arith, h);
              members = m.0;
              total = omega (arith, m.1);
              density =
                  dense-eq fl limits (total_size ms) (0 + total_size ms) (total_compressed ms)
                    (0 + total_compressed ms) (omega arith) (omega arith)
                  ∙ m.2;
              xml = xml_to ms 0 (omega arith) (ground (arith, h));
            }

        from : IsWithin ms → validate_zip_archive fl limits lower parse (some ms) ≡ ok tt
        from w =
            let meta = validate_members_from fl limits ms 0 0 w.members (omega (arith, w.total)) (
              dense-eq fl limits (0 + total_size ms) (total_size ms) (0 + total_compressed ms)
                (total_compressed ms) (omega arith) (omega arith)
              ∙ w.density) in
            ground (arith, meta, w.count, xml_from ms 0 w.xml)
