-- ===== src/Sources/Http/Silent.antt =====
-- What a download does besides its requests.
use comet_rag.Prelude.{ℕ, ◌+◌, String, ◌≡◌, refl, ◌∙◌, List, [], ◌∷◌, ltb, eqb}
use comet_rag.Effect.Keeps.{
  Preorder, Keeps, Keeps-pure, Keeps-raise, Keeps-lift, Keeps-atomic, Keeps-if, Keeps-attempt,
  Keeps-bind,
}
use comet_rag.Sources.TempFiles.{FileSystem}
use comet_rag.Sources.Http.{
  Event, chunk, broken, Response, Internet, Client, M, on_files, Step, finalize_temp, copy,
  stream_response,
}

-- The requests are as they were.
abbrev pub Silent : Client → Client → Type 0
Silent d e = e.sent ≡ d.sent

pub Silent-preorder : Preorder Silent
Silent-preorder = record { same = λ d. refl; trans = λ d e f p q. q ∙ p }

abbrev pub Mute : {A : Type 0} → M A → Type 0
Mute m = Keeps Silent-preorder m

on_files-Mute : {A : Type 0} (step : Step A) → Mute (on_files step)
on_files-Mute step = Keeps-atomic Silent-preorder _ (λ d. refl)

module _ (net : Internet) (fs : FileSystem) where
  finalize_temp-Mute : (path url : String) → Mute (finalize_temp net fs path url)
  unfolding finalize_temp
  finalize_temp-Mute path url =
      Keeps-bind Silent-preorder _ _ (Keeps-lift Silent-preorder _) (λ label. on_files-Mute _)

  copy-Mute :
      (name : String) (limit total : ℕ) (es : List Event) → Mute (copy net fs name limit total es)
  unfolding copy
  copy-Mute name limit total [] = Keeps-pure Silent-preorder _
  copy-Mute name limit total (broken x ∷ es) = Keeps-raise Silent-preorder _
  copy-Mute name limit total (chunk n ∷ es) =
      Keeps-if Silent-preorder (ltb limit (total + n)) _ _ (Keeps-raise Silent-preorder _) (
        Keeps-bind Silent-preorder _ _ (on_files-Mute _) (λ _. copy-Mute name limit (total + n) es))

  pub stream_response-Mute : (limit : ℕ) (r : Response) → Mute (stream_response net fs limit r)
  unfolding stream_response
  stream_response-Mute limit r =
      Keeps-bind Silent-preorder _ _
        (Keeps-bind Silent-preorder _ _ (Keeps-lift Silent-preorder _) (λ _. on_files-Mute _))
        (λ name.
          Keeps-attempt Silent-preorder _ _ _
            (Keeps-bind Silent-preorder _ _ (copy-Mute name limit 0 r.body) (λ total.
              Keeps-if Silent-preorder (eqb total 0) _ _ (Keeps-raise Silent-preorder _)
                (finalize_temp-Mute name r.url)))
            (λ path. Keeps-pure Silent-preorder path)
            (λ e.
              Keeps-bind Silent-preorder _ _ (on_files-Mute _)
                (λ _. Keeps-raise Silent-preorder e)))
