-- ===== src/Auth/Jwks/Shared/Laws.antt =====
-- The shared caches stay few and apart, and only configured URLs are requested.
use agentic_identity_lab.Prelude.{
  ℕ, zero, suc, ◌≡◌, ◌≢◌, refl, subst, ◌∙◌, ◌≤◌, String, Option, none, some, List, [], ◌∷◌, ◌++◌,
  All, arith, take, length, eq_iff,
}
use agentic_identity_lab.Result.{Result, ok, raise, value_error, Exception}
use agentic_identity_lab.Value.{Dict}
use agentic_identity_lab.Auth.Jwks.Cache.{JwksCache, Network, CacheState}
use agentic_identity_lab.Auth.Jwks.Cache.Laws.{Fetches}
use agentic_identity_lab.Auth.Jwks.Strict.{Jwt, validate_strict}
use agentic_identity_lab.Auth.Jwks.Strict.Laws.{validate_strict-Fetches}
use agentic_identity_lab.Auth.Settings.{extract_bearer_token}
use agentic_identity_lab.Auth.Jwks.Shared.{
  Caches, SharedState, maxsize, find_cache, drop_cache, or_new, strict_jwks_cache, wrap, write_back,
  with_token, load_strict_claims_from_authorization,
}

-- No two caches of one URL, and at most eight.
abbrev pub IsApart : Caches → Type 0
IsApart [] = Unit
IsApart (c ∷ rest) = All (λ d. d.jwks_url ≢ c.jwks_url) rest × IsApart rest

pub record IsValid (s : SharedState) : Type 0 where
  pub apart : IsApart s.caches
  pub few : length s.caches ≤ maxsize

find_cache-url :
    (url : String) (caches : Caches) → (or_new url (find_cache url caches)).jwks_url ≡ url
unfolding find_cache
find_cache-url url [] = refl
find_cache-url url (c ∷ rest) = ground (arith, eq_iff c.jwks_url url, find_cache-url url rest)

drop_cache-other :
    (url : String) (caches : Caches) → All (λ d. d.jwks_url ≢ url) (drop_cache url caches)
unfolding drop_cache
drop_cache-other url [] = tt
drop_cache-other url (c ∷ rest) = ground (arith, eq_iff c.jwks_url url, drop_cache-other url rest)

drop_cache-All :
    (P : JwksCache → Type 0) (url : String) (caches : Caches)
    → All P caches
    → All P (drop_cache url caches)
unfolding drop_cache
drop_cache-All P url [] h = tt
drop_cache-All P url (c ∷ rest) (p, h) = ground (arith, drop_cache-All P url rest h)

drop_cache-IsApart :
    (url : String) (caches : Caches) → IsApart caches → IsApart (drop_cache url caches)
unfolding drop_cache
drop_cache-IsApart url [] h = tt
drop_cache-IsApart url (c ∷ rest) (p, h) =
    ground (arith, drop_cache-IsApart url rest h, drop_cache-All _ url rest p)

take-All {ℓ κ} : {A : Type ℓ} (P : A → Type κ) (n : ℕ) (xs : List A) → All P xs → All P (take n xs)
take-All P zero xs h = tt
take-All P (suc n) [] h = tt
take-All P (suc n) (x ∷ xs) (p, h) = (p, take-All P n xs h)

take-IsApart : (n : ℕ) (caches : Caches) → IsApart caches → IsApart (take n caches)
take-IsApart zero caches h = tt
take-IsApart (suc n) [] h = tt
take-IsApart (suc n) (c ∷ rest) (p, h) = (take-All _ n rest p, take-IsApart n rest h)

length-take : {A : Type 0} (n : ℕ) (xs : List A) → length (take n xs) ≤ n
length-take zero xs = omega arith
length-take (suc n) [] = omega arith
length-take (suc n) (x ∷ xs) = omega (arith, length-take n xs)

module _ {Key : Type 0} (net : Network) (jwt : Jwt Key) where
  -- The state after one more run: the URLs that it requested, and the caches.
  pub record OneMore (jwks_url : String) (s t : SharedState) : Type 0 where
    pub valid : IsValid t
    pub urls : List String
    pub logged : t.fetched ≡ urls ++ s.fetched
    pub own : All (λ u. u ≡ jwks_url) urls
    pub few : length urls ≤ 2

  front_IsApart :
      (url : String) (caches : Caches) (d : JwksCache)
      → d.jwks_url ≡ url
      → IsApart caches
      → IsApart (d ∷ take 7 (drop_cache url caches))
  front_IsApart url caches d e h = (
    take-All _ 7 _ (rw e (drop_cache-other url caches)),
    take-IsApart 7 _ (drop_cache-IsApart url caches h),
  )

  write_back-OneMore :
      (url : String) (s : SharedState) (r : Result Dict × CacheState)
      → IsValid s
      → Fetches 2
          (record {
            cache = (strict_jwks_cache url s.caches).0;
            fetched = s.fetched;
            readings = s.readings;
          })
          r.1
      → OneMore url s (write_back net jwt s (strict_jwks_cache url s.caches).1 r).1
  unfolding strict_jwks_cache
  write_back-OneMore url s (r, t) v f =
      let same = find_cache-url url s.caches in
      record {
        valid = record {
          apart = front_IsApart url s.caches t.cache (f.same_url ∙ same) v.apart;
          few = omega (arith, length-take 7 (drop_cache url s.caches));
        };
        urls = f.urls;
        logged = f.logged;
        own = subst (λ u. All (λ w. w ≡ u) f.urls) same f.own;
        few = f.few;
      }

  -- Whatever the header and the token, a run keeps at most eight caches, one for each URL, and
  -- requests the configured URL at most twice and nothing else.
  pub load_strict_claims-OneMore :
      (authorization : Option String) (jwks_url : String) (allowed_audiences : List String)
      (issuer : Option String) (allowed_issuers : Option (List String)) (s : SharedState)
      → IsValid s
      → OneMore jwks_url s
          (load_strict_claims_from_authorization net jwt authorization jwks_url allowed_audiences
            issuer allowed_issuers s).1
  unfolding load_strict_claims_from_authorization
  load_strict_claims-OneMore authorization jwks_url allowed_audiences issuer allowed_issuers s v =
      by_token (extract_bearer_token authorization)
    where
      by_token :
          (o : Option String)
          → OneMore jwks_url s
              (with_token net jwt o jwks_url allowed_audiences issuer allowed_issuers s).1
      by_token none = record { valid = v; urls = []; logged = refl; own = tt; few = omega arith }
      by_token (some token) =
          write_back-OneMore jwks_url s
            (validate_strict net jwt token allowed_audiences issuer allowed_issuers (record {
              cache = (strict_jwks_cache jwks_url s.caches).0;
              fetched = s.fetched;
              readings = s.readings;
            }))
            v
            (validate_strict-Fetches net jwt token allowed_audiences issuer allowed_issuers
              (record {
                cache = (strict_jwks_cache jwks_url s.caches).0;
                fetched = s.fetched;
                readings = s.readings;
              }))

  -- No exception but the one ValueError comes out, so no detail of a failure leaks.
  pub load_strict_claims_error :
      (authorization : Option String) (jwks_url : String) (allowed_audiences : List String)
      (issuer : Option String) (allowed_issuers : Option (List String)) (s : SharedState)
      (e : Exception)
      → (load_strict_claims_from_authorization net jwt authorization jwks_url allowed_audiences
          issuer allowed_issuers s).0
        ≡ raise e
      → e ≡ value_error "strict_token_validation_failed"
  unfolding load_strict_claims_from_authorization
  load_strict_claims_error authorization jwks_url allowed_audiences issuer allowed_issuers s e =
      by_token (extract_bearer_token authorization)
    where
      wrapped :
          (r : Result Dict) → wrap r ≡ raise e → e ≡ value_error "strict_token_validation_failed"
      wrapped (ok claims) h = cc
      wrapped (raise x) h = cc

      by_token :
          (o : Option String)
          → (with_token net jwt o jwks_url allowed_audiences issuer allowed_issuers s).0 ≡ raise e
          → e ≡ value_error "strict_token_validation_failed"
      by_token none h = cc
      by_token (some token) h =
          wrapped
            (validate_strict net jwt token allowed_audiences issuer allowed_issuers (record {
              cache = (strict_jwks_cache jwks_url s.caches).0;
              fetched = s.fetched;
              readings = s.readings;
            })).0
            h
