-- ===== src/Sources/Http/Redirects.antt =====
-- Which requests a download sends.
use comet_rag.Prelude.{
  ℕ, zero, suc, ◌≤◌, String, ◌≡◌, refl, sym, ◌∙◌, subst, true, false, Option, none, some, List, [],
  ◌∷◌, ◌++◌, arith, length, length-append, All, All-append, All-map, append_assoc, if-elim,
}
use comet_rag.Effect.{World, Result, ok, err, pure, raise, atomic, ◌>>=◌, ◌>>◌}
use comet_rag.Effect.Runs.{quiet}
use comet_rag.Effect.Keeps.{Friendly, Keeps-pure, Keeps-raise, Keeps-bind}
use comet_rag.SourcePolicy.{
  ParseResult, Library, SourcePolicy, Verdict, accepted, refused, check_redirect,
}
use comet_rag.SourcePolicy.Admission.{UrlAdmitted, check_redirect-Admitted}
use comet_rag.Sources.TempFiles.{FileSystem}
use comet_rag.Sources.Http.{
  Redirection, no_redirect, no_location, to, Response, DownloadRequestConfig, UrlLoader, Internet,
  Client, M, validate, allowed, finish, replied, send, act, do_request, download,
}
use comet_rag.Sources.Http.Silent.{Silent-preorder, Mute, stream_response-Mute}

module _ (net : Internet) (fs : FileSystem) where
  module _ (loader : UrlLoader) (config : DownloadRequestConfig) where
    finish-Mute : (r : Response) (status : Option ℕ) → Mute (finish net fs loader config r status)
    finish-Mute r (some status) = Keeps-raise Silent-preorder _
    finish-Mute r none =
        Keeps-bind Silent-preorder _ _ (stream_response-Mute net fs _ r)
          (λ path. Keeps-pure Silent-preorder _)

    abbrev pub Validated : Option (String → Verdict) → String → Type 0
    Validated none url = Unit
    Validated (some validator) url = validator url ≡ accepted

    -- The requests that were sent between two states: one for a URL, and before it in the list, so
    -- after it in time, those to which servers have redirected.
    pub record Requests (left : ℕ) (url : String) (d e : Client) : Type 0 where
      pub hops : List String
      pub sent : e.sent ≡ hops ++ url ∷ d.sent
      pub few : length hops ≤ left
      pub validated : All (Validated loader.redirect_validator) hops
      pub followed : config.follow_redirects ≡ false → hops ≡ []

    abbrev after : String → World Client → World Client
    after url w = record w { db = record w.db { sent = url ∷ w.db.sent } }

    single :
        (left : ℕ) (url : String) (w : World Client) (e : Client)
        → e.sent ≡ url ∷ w.db.sent
        → Requests left url w.db e
    single left url w e h = record {
      hops = [];
      sent = h;
      few = omega arith;
      validated = tt;
      followed = λ _. refl;
    }

    sent_then :
        (left : ℕ) (url : String) (f : Response → M (String × String)) (w : World Client)
        → ((r : Response) → Requests left url w.db (f r (after url w)).1.db)
        → Requests left url w.db ((send net fs loader config url >>= f) w).1.db
    unfolding ◌>>=◌ atomic raise pure
    sent_then left url f w k = split (net.respond (url ∷ w.db.sent))
      where
        split :
            (o : Result String Response)
            → Requests left url w.db ((replied net fs loader config o >>= f) (after url w)).1.db
        split (err name) = single left url w _ refl
        split (ok r) = k r

    finished :
        (left : ℕ) (url : String) (r : Response) (w : World Client)
        → Friendly Silent-preorder w.others
        → Requests left url w.db (finish net fs loader config r r.bad_status (after url w)).1.db
    finished left url r w h =
        single left url w _ ((finish-Mute r r.bad_status).run (after url w) h).moved

    acted :
        (left : ℕ) (url : String) (next : String → M (String × String)) (r : Response)
        (red : Redirection) (w : World Client)
        → Friendly Silent-preorder w.others
        → ((u : String)
            → config.follow_redirects ≡ true
            → Requests left url w.db (next u (after url w)).1.db)
        → Requests left url w.db (act net fs loader config next r red (after url w)).1.db
    unfolding raise
    acted left url next r no_redirect w h k = finished left url r w h
    acted left url next r no_location w h k =
        if-elim (λ (m : M (String × String)). Requests left url w.db (m (after url w)).1.db)
          config.follow_redirects _ _ (λ t. single left url w _ refl) (λ f. finished left url r w h)
    acted left url next r (to u) w h k =
        if-elim (λ (m : M (String × String)). Requests left url w.db (m (after url w)).1.db)
          config.follow_redirects (next u) _ (k u) (λ f. finished left url r w h)

    more :
        (left : ℕ) (url u : String) (w : World Client) (e : Client)
        → config.follow_redirects ≡ true
        → Validated loader.redirect_validator u
        → Requests left u (after url w).db e
        → Requests (suc left) url w.db e
    more left url u w e t v r = record {
      hops = r.hops ++ u ∷ [];
      sent = r.sent ∙ sym (append_assoc r.hops (u ∷ []) (url ∷ w.db.sent));
      few = omega (arith, r.few, length-append r.hops (u ∷ []));
      validated =
          All-append (Validated loader.redirect_validator) r.hops (u ∷ []) r.validated (v, tt);
      followed = λ f. absurd (cc);
    }

    validated_then :
        (left : ℕ) (url u : String) (m : M (String × String)) (w : World Client)
        → config.follow_redirects ≡ true
        → Requests left u (after url w).db (m (after url w)).1.db
        → Requests
            (suc left)
            url
            w.db
            ((validate loader.redirect_validator u >> m) (after url w)).1.db
    unfolding ◌>>=◌ raise pure
    validated_then left url u m w t r = ask loader.redirect_validator (more left url u w _ t)
      where
        judge :
            (v : Verdict)
            → (v ≡ accepted → Requests (suc left) url w.db (m (after url w)).1.db)
            → Requests (suc left) url w.db ((allowed v >> m) (after url w)).1.db
        judge accepted k = k refl
        judge (refused x) k = single (suc left) url w _ refl

        ask :
            (v : Option (String → Verdict))
            → (Validated v u
                → Requests left u (after url w).db (m (after url w)).1.db
                → Requests (suc left) url w.db (m (after url w)).1.db)
            → Requests (suc left) url w.db ((validate v u >> m) (after url w)).1.db
        ask none k = k tt r
        ask (some validator) k = judge (validator u) (λ e. k e r)

    do_request-Requests :
        (left : ℕ) (url : String) (w : World Client)
        → Friendly Silent-preorder w.others
        → Requests left url w.db (do_request net fs loader config left url w).1.db
    unfolding do_request raise
    do_request-Requests zero url w h =
        sent_then zero url _ w
          (λ r. acted zero url _ r r.redirection w h (λ u t. single zero url w _ refl))
    do_request-Requests (suc left) url w h = sent_then (suc left) url _ w (λ r.
        acted (suc left) url _ r r.redirection w h (λ u t.
          validated_then left url u (do_request net fs loader config left u) w t
            (do_request-Requests left u (after url w) h)))

    -- Whatever the servers answer, and whether the download returns or raises: it sends one request
    -- for its URL and after it at most `max_redirects` more, each for a URL to which a server has
    -- redirected and which the validator, if there is one, has let through before; and none if
    -- redirections are not to be followed.
    pub download-Requests :
        (url : String) (d : Client)
        → Requests loader.max_redirects url d (download net fs loader config url (quiet d)).1.db
    unfolding download
    download-Requests url d = do_request-Requests loader.max_redirects url (quiet d) tt

    module _ (lib : Library) (policy : SourcePolicy) where
      -- If the validator is `check_redirect` of a policy, then no request but the first of a download
      -- goes to a URL that the policy does not let in: each is parsed to a URL by http or https, whose
      -- host is listed, if there is a list, and has addresses, all of them public, unless private
      -- networks are allowed. At most `max_redirects` requests follow the first, and the requests
      -- before are as they were.
      pub download-Admitted :
          (url : String) (d : Client)
          → loader.redirect_validator ≡ some (check_redirect lib policy)
          → (hops : List String) × ((download net fs loader config url (quiet d)).1.db.sent
              ≡ hops ++ url ∷ d.sent)
            × (length hops ≤ loader.max_redirects)
            × All
                (λ u.
                  (p : ParseResult) × (lib.urlparse u ≡ some p)
                  × UrlAdmitted lib policy p.scheme p.hostname)
                hops
      download-Admitted url d e =
          let r = download-Requests url d in
          (
            r.hops,
            r.sent,
            r.few,
            All-map
                (λ u (v : Validated loader.redirect_validator u).
                  check_redirect-Admitted lib policy u (subst (λ o. Validated o u) e v))
                r.hops r.validated,
          )
