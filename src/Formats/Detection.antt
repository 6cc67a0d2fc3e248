-- ===== src/Formats/Detection.antt =====
-- What a downloaded file counts as, by its name and by its content.
use comet_rag.Prelude.{
  String, ◌≡◌, refl, sym, ap, ◌∙◌, ◌⊎◌, inl, inr, Bool, true, false, ◌&&◌, Option, none, some,
  eq_iff, if◌then◌else◌,
}
use comet_rag.Effect.{Result, ok, err}
use comet_rag.Formats.{
  AllowExt, txt, value, allow_ext, same, is_among, generic_text_declarations, FormatError,
  normalize_extension, resolve_members, resolve_detected_extension,
}

allow_ext-value : (e : AllowExt) → allow_ext (value e) ≡ some e
unfolding allow_ext value
allow_ext-value AllowExt.doc = refl
allow_ext-value _ = refl

pub same-eq : (d e : AllowExt) → same d e ≡ true → d ≡ e
same-eq d e h =
    let v = (eq_iff (value d) (value e)).0 h in
    let o : some d ≡ some e = sym (allow_ext-value d) ∙ ap allow_ext v ∙ allow_ext-value e in cc

chosen :
    (p q r : Bool) (x y a : String) (z : FormatError)
    → (if p then ok x else if q && r then ok y else err z) ≡ ok a
    → ((p ≡ true) × (a ≡ x)) ⊎ ((q ≡ true) × (r ≡ true) × (a ≡ y))
chosen true q r x y a z h = inl (refl, cc)
chosen false true true x y a z h = inr (refl, refl, cc)
chosen false true false x y a z h = absurd (cc)
chosen false false r x y a z h = absurd (cc)

module _ (lower : String → String) (declared detected : String) where
  -- The content is of a kind that is allowed; what the file counts as is this kind, and the name
  -- has no extension that is allowed, or this one; or the content is plain text, and the file counts
  -- as what its name says, which is plain text, Markdown or source code.
  abbrev pub Resolved : String → Type 0
  Resolved answer =
      (e : AllowExt) × (allow_ext (normalize_extension lower detected) ≡ some e)
      × (((answer ≡ value e)
            × ((allow_ext (normalize_extension lower declared) ≡ none)
                ⊎ (allow_ext (normalize_extension lower declared) ≡ some e)))
          ⊎ ((e ≡ txt)
              × (d : AllowExt) × (allow_ext (normalize_extension lower declared) ≡ some d)
              × (is_among d generic_text_declarations ≡ true)
              × (answer ≡ value d)))

  -- Where `resolve_detected_extension` answers, the content is of a kind that is allowed. Either the
  -- answer is that kind, and the name has no extension that is allowed, or the same one; or the
  -- content is plain text, and the answer is the extension of the name, one for plain text, Markdown
  -- or source code. So a file never counts as another kind than its content, text apart.
  pub resolve_detected_extension-Resolved :
      (answer : String)
      → resolve_detected_extension lower declared detected ≡ ok answer
      → Resolved answer
  unfolding resolve_detected_extension
  resolve_detected_extension-Resolved answer h =
      split (allow_ext (normalize_extension lower detected))
        (allow_ext (normalize_extension lower declared)) refl refl h
    where
      named :
          (e d : AllowExt)
          → allow_ext (normalize_extension lower detected) ≡ some e
          → allow_ext (normalize_extension lower declared) ≡ some d
          → resolve_members lower e (some d) ≡ ok answer
          → Resolved answer
      named e d a b h =
          elim (chosen (same d e) (same e txt) (is_among d generic_text_declarations) (value e)
            (value d) answer _ h) [
              | inl c ↦ (e, a, inl (c.1, inr (b ∙ ap (λ x. some x) (same-eq d e c.0))))
              | inr c ↦ (e, a, inr (same-eq e txt c.0, d, b, c.1, c.2))
            ]

      split :
          (x y : Option AllowExt)
          → allow_ext (normalize_extension lower detected) ≡ x
          → allow_ext (normalize_extension lower declared) ≡ y
          → (elim x as (λ _. Result FormatError String) [
            | none ↦ err (FormatError.unsupported_content_type (normalize_extension lower detected))
            | some e ↦ resolve_members lower e y
          ])
            ≡ ok answer
          → Resolved answer
      split none y a b h = absurd (cc)
      split (some e) none a b h = (e, a, inl (cc, inl b))
      split (some e) (some d) a b h = named e d a b h
