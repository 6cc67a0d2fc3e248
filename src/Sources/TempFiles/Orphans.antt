-- ===== src/Sources/TempFiles/Orphans.antt =====
-- The files on the disk and those that the registry knows.
use comet_rag.Prelude.{
  ℕ, ◌+◌, String, ◌≡◌, ◌≢◌, refl, ◌∙◌, subst, Bool, true, false, ◌||◌, Option, none, some, List, [],
  ◌∷◌, ◌++◌, arith, ◌==◌, eq_iff, Bool-cases, if-elim, option-elim, inl, inr,
}
use comet_rag.Dict.{lookup, insert, erase, lookup-insert, lookup-erase}
use comet_rag.Effect.{ok, err}
use comet_rag.Sources.{os_error, Result}
use comet_rag.Sources.TempFiles.{
  Files, FileSystem, is_tracked, remove, renamed, create, move, replace_suffix, release, unlink,
  track, discard, clean_paths, cleanup, write,
}

pub is_tracked-append :
    (q : String) (xs ys : List String)
    → is_tracked q (xs ++ ys) ≡ is_tracked q xs || is_tracked q ys
is_tracked-append q [] ys = refl
is_tracked-append q (x ∷ xs) ys = ground (arith, is_tracked-append q xs ys)

is_tracked-remove :
    (p q : String) (ps : List String)
    → (p == q) ≡ false
    → is_tracked q (remove p ps) ≡ is_tracked q ps
is_tracked-remove p q [] h = refl
is_tracked-remove p q (x ∷ ps) h =
    ground (arith, h, eq_iff x p, eq_iff x q, eq_iff p q, is_tracked-remove p q ps h)

is_tracked-renamed_own :
    (p t : String) (ps : List String)
    → is_tracked p ps ≡ true
    → is_tracked t (renamed p t ps) ≡ true
is_tracked-renamed_own p t [] h = absurd (cc)
is_tracked-renamed_own p t (x ∷ ps) h = elim (Bool-cases (x == p)) [
  | inl e ↦ ground (arith, e, eq_iff t t)
  | inr e ↦ ground (arith, e, h, is_tracked-renamed_own p t ps (ground (arith, e, h)))
]

is_tracked-renamed_other :
    (p t q : String) (ps : List String)
    → (p == q) ≡ false
    → is_tracked q ps ≡ true
    → is_tracked q (renamed p t ps) ≡ true
is_tracked-renamed_other p t q [] h e = e
is_tracked-renamed_other p t q (x ∷ ps) h e = elim (Bool-cases (x == q)) [
  | inl a ↦ ground (arith, a, h, eq_iff x p, eq_iff x q, eq_iff p q)
  | inr a ↦
      let rest = is_tracked-renamed_other p t q ps h (ground (arith, a, e)) in
      ground (arith, a, e, rest)
]

-- Every file on the disk is one that the registry knows.
pub record NoOrphan (f : Files) : Type 0 where
  pub known : (p : String) → lookup p f.disk ≢ none → is_tracked p f.tracked ≡ true

module _ (fs : FileSystem) where
  create-NoOrphan : (f : Files) → NoOrphan f → NoOrphan (create fs f).1
  unfolding create
  create-NoOrphan f o =
      option-elim (λ (r : Result String × Files). NoOrphan r.1) (fs.fresh f) (err os_error, f)
        (λ name.
          (ok name, record { tracked = f.tracked ++ name ∷ []; disk = insert name 0 f.disk }))
        (λ e. o)
        (λ name e. record {
          known = λ p h. ground (
            arith,
            is_tracked-append p f.tracked (name ∷ []),
            lookup-insert name p 0 f.disk,
            eq_iff name p,
            o.known p,
            h,
          );
        })

  move-NoOrphan :
      (path target : String) (f : Files) (size : ℕ)
      → is_tracked path f.tracked ≡ true
      → NoOrphan f
      → NoOrphan (move fs path target f (some size)).1
  move-NoOrphan path target f size e o = record {
    known = λ p h.
        let there = lookup-insert target p size (erase path f.disk) in
        let left = lookup-erase path p f.disk in
        elim (Bool-cases (target == p)) [
          | inl b ↦
              subst (λ q. is_tracked q (renamed path target f.tracked) ≡ true)
                ((eq_iff target p).0 b) (is_tracked-renamed_own path target f.tracked e)
          | inr b ↦ elim (Bool-cases (path == p)) [
            | inl a ↦ absurd (h (ground (arith, a, b, there, left)))
            | inr a ↦
                is_tracked-renamed_other path target p f.tracked a
                  (o.known p (λ n. h (ground (arith, a, b, there, left, n))))
          ]
        ];
  }

  replace_suffix-NoOrphan :
      (path extension : String) (f : Files)
      → NoOrphan f
      → NoOrphan (replace_suffix fs path extension f).1
  unfolding replace_suffix
  replace_suffix-NoOrphan path extension f o =
      let Kept : Result String × Files → Type 0 = λ r. NoOrphan r.1 in
      let target = fs.with_suffix path extension in
      if-elim Kept (is_tracked path f.tracked) _ _
        (λ e. if-elim Kept (fs.refuses path) _ _ (λ _. o) (λ _. split (lookup path f.disk) e))
        (λ e. o)
    where
      split :
          (n : Option ℕ)
          → is_tracked path f.tracked ≡ true
          → NoOrphan (move fs path (fs.with_suffix path extension) f n).1
      split none e = o
      split (some size) e = move-NoOrphan path (fs.with_suffix path extension) f size e o

  drop-NoOrphan :
      (path : String) (f : Files) → NoOrphan f → NoOrphan (release fs path (unlink fs path f))
  drop-NoOrphan path f o = record {
    known = λ p h. elim (Bool-cases (path == p)) [
      | inl a ↦ absurd (h (ground (arith, a, eq_iff path p, lookup-erase path p f.disk)))
      | inr a ↦
          ground (
            arith,
            a,
            is_tracked-remove path p f.tracked a,
            lookup-erase path p f.disk,
            o.known p,
            h,
          )
    ];
  }

  discard-NoOrphan : (path : String) (f : Files) → NoOrphan f → NoOrphan (discard fs path f).1
  unfolding discard
  discard-NoOrphan path f o =
      if-elim (λ (r : Result (Unit {0}) × Files). NoOrphan r.1) (fs.refuses path) _ _ (λ _. o)
        (λ _. drop-NoOrphan path f o)

  clean_paths-NoOrphan :
      (ps : List String) (b : Bool) (f : Files) → NoOrphan f → NoOrphan (clean_paths fs ps b f).1
  clean_paths-NoOrphan [] true f o = o
  clean_paths-NoOrphan [] false f o = o
  clean_paths-NoOrphan (p ∷ ps) b f o =
      clean_paths-NoOrphan ps (b || fs.refuses p) _
        (if-elim NoOrphan (fs.refuses p) _ _ (λ _. o) (λ _. drop-NoOrphan p f o))

  write-NoOrphan : (path : String) (n : ℕ) (f : Files) → NoOrphan f → NoOrphan (write path n f)
  unfolding write
  write-NoOrphan path n f o =
      option-elim NoOrphan (lookup path f.disk) f
        (λ size. record f { disk = insert path (size + n) f.disk }) (λ e. o)
        (λ size e. record {
          known = λ p h. elim (Bool-cases (path == p)) [
            | inl a ↦
                subst (λ q. is_tracked q f.tracked ≡ true) ((eq_iff path p).0 a)
                  (o.known path (λ x. ground (arith, e, x)))
            | inr a ↦
                o.known p (λ x. h (ground (arith, a, x, lookup-insert path p (size + n) f.disk)))
          ];
        })

  track-NoOrphan : (path : String) (f : Files) → NoOrphan f → NoOrphan (track fs path f)
  track-NoOrphan path f o = record {
    known = λ p h. ground (arith, is_tracked-append p f.tracked (path ∷ []), o.known p h);
  }

  -- The registry loses no file. If it knows every file on the disk, it still does after a file was
  -- made, tracked, written to, renamed or discarded, and after a cleanup, whether the file system
  -- did what was asked or refused it; and after a file was handed over by `release`, it knows every
  -- file on the disk but that one.
  pub registry-NoOrphan :
      (f : Files) (path extension : String) (n : ℕ)
      → NoOrphan f
      → NoOrphan (create fs f).1
        × NoOrphan (track fs path f)
        × NoOrphan (write path n f)
        × NoOrphan (replace_suffix fs path extension f).1
        × NoOrphan (discard fs path f).1
        × NoOrphan (cleanup fs f).1
        × ((p : String)
            → lookup p f.disk ≢ none
            → path ≢ p
            → is_tracked p (release fs path f).tracked ≡ true)
  unfolding cleanup
  registry-NoOrphan f path extension n o = (
    create-NoOrphan f o,
    track-NoOrphan path f o,
    write-NoOrphan path n f o,
    replace_suffix-NoOrphan path extension f o,
    discard-NoOrphan path f o,
    clean_paths-NoOrphan f.tracked false f o,
    λ p h other. elim (Bool-cases (path == p)) [
      | inl a ↦ absurd (other ((eq_iff path p).0 a))
      | inr a ↦ is_tracked-remove path p f.tracked a ∙ o.known p h
    ],
  )
