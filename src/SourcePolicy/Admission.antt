-- ===== src/SourcePolicy/Admission.antt =====
-- What `check` and `check_redirect` ask of a source that they let in.
use comet_rag.Prelude.{
  String, ◌≡◌, ◌≢◌, refl, ◌⊎◌, inl, inr, Bool, true, false, ◌&&◌, not, Option, none, some, List, [],
  ◌∷◌, arith, ◌==◌, eq_iff, any, All, is_empty, Bool-cases,
}
use comet_rag.SourcePolicy.{
  ParseResult, no_port, port, Library, SourcePolicy, accepted, is_listed, private_in, judge_private,
  judge_addresses, has_any, judge_host, judge_hostname, check_url, is_within, only_slashes,
  bucket_of, check_redirect, check_target,
}

module _ (lib : Library) (policy : SourcePolicy) where
  -- The host may be spoken to: it is listed if there is a list, and unless private networks are
  -- allowed, it has addresses, all of which are public.
  pub record HostAdmitted (host : String) : Type 0 where
    pub listed :
        (policy.allowed_url_hosts ≡ []) ⊎ (is_listed lib host policy.allowed_url_hosts ≡ true)
    pub public :
        (policy.allow_private_network ≡ true)
        ⊎ ((policy.resolve host ≢ [])
            × All (λ ip. lib.is_global ip ≡ some true) (policy.resolve host))

  pub record UrlAdmitted (scheme : String) (hostname : Option String) : Type 0 where
    pub opened : policy.allow_url ≡ true
    pub web : (lib.lower scheme ≡ "http") ⊎ (lib.lower scheme ≡ "https")
    pub host : String
    pub named : hostname ≡ some host
    pub admitted : HostAdmitted host

  pub record PathAdmitted (raw : String) : Type 0 where
    pub opened : policy.allow_local ≡ true
    pub inside :
        (policy.local_roots ≡ [])
        ⊎ (any
              (λ root. is_within lib policy (lib.resolve_path root) (lib.resolve_path raw))
              policy.local_roots
            ≡ true)

  pub record ObjectAdmitted (p : ParseResult) : Type 0 where
    pub opened : policy.allow_s3 ≡ true
    pub username : p.username ≡ none
    pub password : p.password ≡ none
    pub no_port : p.port ≡ no_port
    pub bucket : is_empty (bucket_of lib policy p.hostname) ≡ false
    pub key : only_slashes lib policy p.path ≡ false
    pub query : is_empty p.query ≡ true
    pub fragment : is_empty p.fragment ≡ true
    pub listed :
        (policy.allowed_s3_buckets ≡ [])
        ⊎ (is_listed lib (bucket_of lib policy p.hostname) policy.allowed_s3_buckets ≡ true)

  listed_lem :
      (names : List String) (b : Bool)
      → has_any lib policy names && not b ≡ false
      → (names ≡ []) ⊎ (b ≡ true)
  listed_lem [] b h = inl refl
  listed_lem (n ∷ ns) true h = inr refl
  listed_lem (n ∷ ns) false h = absurd (cc)

  public_all :
      (ips : List String)
      → private_in lib policy ips ≡ []
      → All (λ ip. lib.is_global ip ≡ some true) ips
  public_all [] h = tt
  public_all (ip ∷ ips) h = (ground (arith, h), public_all ips (ground (arith, h)))

  judge_addresses_lem :
      (ips : List String)
      → judge_addresses lib policy ips ≡ accepted
      → (ips ≢ []) × All (λ ip. lib.is_global ip ≡ some true) ips
  judge_addresses_lem [] h = absurd (cc)
  judge_addresses_lem (ip ∷ ips) h =
      (λ e. cc, public_all (ip ∷ ips) (none_private (private_in lib policy (ip ∷ ips)) h))
    where
      none_private : (l : List String) → judge_private lib policy l ≡ accepted → l ≡ []
      none_private [] e = refl
      none_private (x ∷ l) e = absurd (cc)

  judge_host_lem : (host : String) → judge_host lib policy host ≡ accepted → HostAdmitted host
  judge_host_lem host h = record {
    listed =
        listed_lem policy.allowed_url_hosts (is_listed lib host policy.allowed_url_hosts)
          (ground (arith, h));
    public = elim (Bool-cases policy.allow_private_network) [
      | inl t ↦ inl t
      | inr f ↦ inr (judge_addresses_lem (policy.resolve host) (ground (arith, h, f)))
    ];
  }

  judge_hostname_lem :
      (hostname : Option String)
      → judge_hostname lib policy hostname ≡ accepted
      → (host : String) × (hostname ≡ some host) × HostAdmitted host
  judge_hostname_lem none h = absurd (cc)
  judge_hostname_lem (some host) h = (host, refl, judge_host_lem host (ground (arith, h)))

  check_url_lem :
      (scheme : String) (hostname : Option String)
      → check_url lib policy scheme hostname ≡ accepted
      → UrlAdmitted scheme hostname
  unfolding check_url
  check_url_lem scheme hostname h =
      let r = judge_hostname_lem hostname (ground (arith, h)) in
      record {
        opened = ground (arith, h);
        web = elim (Bool-cases (lib.lower scheme == "http")) [
          | inl t ↦ inl ((eq_iff (lib.lower scheme) "http").0 t)
          | inr f ↦ inr ((eq_iff (lib.lower scheme) "https").0 (ground (arith, h, f)))
        ];
        host = r.0;
        named = r.1;
        admitted = r.2;
      }

  -- How a parsed source may be let in.
  abbrev pub Admitted : String → ParseResult → Type 0
  Admitted raw p = ObjectAdmitted p ⊎ (UrlAdmitted p.scheme p.hostname ⊎ PathAdmitted raw)

  -- Every hop of a redirection that is let in is a URL as `check` lets one in.
  pub check_redirect-Admitted :
      (url : String)
      → check_redirect lib policy url ≡ accepted
      → (p : ParseResult) × (lib.urlparse url ≡ some p) × UrlAdmitted p.scheme p.hostname
  unfolding check_redirect
  check_redirect-Admitted url h = split (lib.urlparse url) h
    where
      split :
          (o : Option ParseResult)
          → check_target lib policy o ≡ accepted
          → (p : ParseResult) × (o ≡ some p) × UrlAdmitted p.scheme p.hostname
      split none h = absurd (cc)
      split (some p) h = (p, refl, check_url_lem p.scheme p.hostname h)
