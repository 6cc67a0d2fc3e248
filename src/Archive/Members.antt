-- ===== src/Archive/Members.antt =====
-- What the loop over the members of an archive asks of them.
use comet_rag.Prelude.{ℕ, ◌+◌, ◌%◌, ◌≤◌, ◌≡◌, sym, ◌∙◌, false, List, [], ◌∷◌, arith, eqb, All}
use comet_rag.Floats.{Floats}
use comet_rag.Archive.{ArchiveLimits, Member, ok, too_dense, validate_members}

unfoldable pub total_size : List Member → ℕ
total_size [] = 0
total_size (m ∷ ms) = m.file_size + total_size ms

unfoldable pub total_compressed : List Member → ℕ
total_compressed [] = 0
total_compressed (m ∷ ms) = m.compress_size + total_compressed ms

module _ {F : Type 0} (fl : Floats F) (limits : ArchiveLimits F) where
  abbrev pub MemberWithin : Member → Type 0
  MemberWithin m =
      (eqb (m.flag_bits % 2) 1 ≡ false)
      × (m.file_size ≤ limits.max_member_uncompressed_bytes)
      × (too_dense fl m.file_size m.compress_size limits.max_compression_ratio ≡ false)

  pub dense-eq :
      (a b c d : ℕ)
      → a ≡ b
      → c ≡ d
      → too_dense fl a c limits.max_compression_ratio
        ≡ too_dense fl b d limits.max_compression_ratio
  dense-eq a b c d p q = λ i. too_dense fl (p i) (q i) limits.max_compression_ratio

  pub validate_members_to :
      (ms : List Member) (u c : ℕ)
      → u ≤ limits.max_total_uncompressed_bytes
      → validate_members fl limits ms u c ≡ ok tt
      → All MemberWithin ms
        × (u + total_size ms ≤ limits.max_total_uncompressed_bytes)
        × (too_dense fl (u + total_size ms) (c + total_compressed ms) limits.max_compression_ratio
            ≡ false)
  unfolding validate_members total_size total_compressed
  validate_members_to [] u c b h = (
    tt,
    ground (arith, b),
    dense-eq (u + 0) u (c + 0) c (omega arith) (omega arith) ∙ ground (arith, h),
  )
  validate_members_to (m ∷ ms) u c b h =
      let r =
        validate_members_to ms (u + m.file_size) (c + m.compress_size) (ground (arith, h))
          (ground (arith, h)) in
      (
        ((ground (arith, h), ground (arith, h), ground (arith, h)), r.0),
        omega (arith, r.1),
        dense-eq (u + (m.file_size + total_size ms)) (u + m.file_size + total_size ms)
              (c + (m.compress_size + total_compressed ms))
              (c + m.compress_size + total_compressed ms) (omega arith) (omega arith)
            ∙ r.2,
      )

  pub validate_members_from :
      (ms : List Member) (u c : ℕ)
      → All MemberWithin ms
      → u + total_size ms ≤ limits.max_total_uncompressed_bytes
      → too_dense fl (u + total_size ms) (c + total_compressed ms) limits.max_compression_ratio
        ≡ false
      → validate_members fl limits ms u c ≡ ok tt
  unfolding validate_members total_size total_compressed
  validate_members_from [] u c a b d =
      let e = dense-eq (u + 0) u (c + 0) c (omega arith) (omega arith) in ground (arith, e, d)
  validate_members_from (m ∷ ms) u c a b d =
      let e =
        dense-eq (u + (m.file_size + total_size ms)) (u + m.file_size + total_size ms)
          (c + (m.compress_size + total_compressed ms)) (c + m.compress_size + total_compressed ms)
          (omega arith) (omega arith) in
      let rest =
        validate_members_from ms (u + m.file_size) (c + m.compress_size) a.1 (omega (arith, b))
          (sym e ∙ d) in
      ground (arith, a.0.0, a.0.1, a.0.2, b, rest)
