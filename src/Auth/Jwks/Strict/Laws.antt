-- ===== src/Auth/Jwks/Strict/Laws.antt =====
-- What a validated token has gone through.
use agentic_identity_lab.Prelude.{
  ◌≡◌, refl, ap, ◌∙◌, ◌⊎◌, inl, String, true, Option, none, some, List, [], ◌∷◌, arith, contains,
  is_nil, or_default, lower, strip, if◌then◌else◌,
}
use agentic_identity_lab.Result.{Result, ok, raise, >>=-eq-ok, ok_injective, Exception}
use agentic_identity_lab.Value.{Value, str, Dict, lookup, get}
use agentic_identity_lab.Auth.Jwks.Algorithm.{
  validate_algorithm, validate_algorithm_iff, allowed_algorithms,
}
use agentic_identity_lab.Auth.Jwks.Cache.{Network, CacheState, get_key}
use agentic_identity_lab.Auth.Jwks.Cache.Laws.{
  Fetches, get_key-cached, get_key-Fetches, Fetches-none,
}
use agentic_identity_lab.Auth.Jwks.Strict.{
  Jwt, required_claims, kid_of, listed_issuers, has_issuer, issuer_of, check_issuer, verify,
  read_header, with_key, after_header, validate_strict,
}

check_issuer_sound :
    (issuers : List String) (decoded claims : Dict)
    → check_issuer issuers decoded ≡ ok claims
    → (decoded ≡ claims) × ((issuers ≡ []) ⊎ (has_issuer issuers (issuer_of claims) ≡ true))
unfolding check_issuer
check_issuer_sound [] decoded claims h = (cc, inl refl)
check_issuer_sound (i ∷ is) decoded claims h = ground arith

module _ {Key : Type 0} (net : Network) (jwt : Jwt Key) where
  -- The evidence behind a validated token: an allowed algorithm in the header, a key that the cache
  -- holds under the header's kid, a verification by PyJWT with that key and that algorithm alone,
  -- and a listed issuer where issuers are listed.
  pub record Validated (token : String) (allowed_audiences : List String) (issuer : Option String)
      (issuers : List String) (s : CacheState) (claims : Dict) : Type 0 where
    pub header : Dict
    pub unverified : jwt.get_unverified_header token ≡ ok header
    pub alg : String
    pub alg_text : String
    pub alg_header : or_default (lookup "alg" header) (str "") ≡ str alg_text
    pub alg_spelling : lower (strip alg_text) ≡ lower alg
    pub alg_allowed : contains alg allowed_algorithms ≡ true
    pub kid : String
    pub kid_header : kid_of (get "kid" header) ≡ ok kid
    pub jwk : Value
    pub jwk_cached : lookup kid (get_key net kid s).1.cache.keys ≡ some jwk
    pub key : Key
    pub key_of_jwk : jwt.from_jwk jwk ≡ ok key
    pub verified :
        jwt.decode token key
          (alg ∷ [])
          allowed_audiences
          (if is_nil issuers then issuer else none)
          required_claims
        ≡ ok claims
    pub issuer_listed : (issuers ≡ []) ⊎ (has_issuer issuers (issuer_of claims) ≡ true)

  -- A failure before the key lookup leaves the cache and the network alone.
  pub validate_strict_early :
      (token : String) (allowed_audiences : List String) (issuer : Option String)
      (allowed_issuers : Option (List String)) (s : CacheState) (e : Exception)
      → read_header net jwt token ≡ raise e
      → validate_strict net jwt token allowed_audiences issuer allowed_issuers s ≡ (raise e, s)
  unfolding validate_strict
  validate_strict_early token allowed_audiences issuer allowed_issuers s e h = rw h

  with_key-ok :
      (r : Result Value × CacheState) (k : Value → Result Dict) (claims : Dict)
      → (with_key net jwt r k).0 ≡ ok claims
      → (v : Value) × (r.0 ≡ ok v) × (k v ≡ ok claims)
  with_key-ok (ok v, t) k claims h = (v, refl, h)
  with_key-ok (raise e, t) k claims h = cc

  after_header-ok :
      (r : Result (String × String)) (token : String) (allowed_audiences issuers : List String)
      (issuer : Option String) (s : CacheState) (claims : Dict)
      → (after_header net jwt r token allowed_audiences issuers issuer s).0 ≡ ok claims
      → (alg : String) × (kid : String) × (r ≡ ok (alg, kid))
        × (jwk : Value) × ((get_key net kid s).0 ≡ ok jwk)
        × (verify net jwt token alg jwk allowed_audiences issuers issuer ≡ ok claims)
  after_header-ok (raise e) token allowed_audiences issuers issuer s claims h = cc
  after_header-ok (ok (alg, kid)) token allowed_audiences issuers issuer s claims h =
      let (v, p, q) = with_key-ok (get_key net kid s) _ claims h in (alg, kid, refl, v, p, q)

  read_header-ok :
      (token alg kid : String)
      → read_header net jwt token ≡ ok (alg, kid)
      → (header : Dict) × (jwt.get_unverified_header token ≡ ok header)
        × (validate_algorithm (or_default (lookup "alg" header) (str "")) ≡ ok alg)
        × (kid_of (get "kid" header) ≡ ok kid)
  unfolding read_header
  read_header-ok token alg kid h =
      let (header, p, h₁) = >>=-eq-ok _ _ h in
      let (a, q, h₂) = >>=-eq-ok _ _ h₁ in
      let (k, r, h₃) = >>=-eq-ok _ _ h₂ in
      let same = ok_injective h₃ in
      (
        header,
        p,
        q ∙ ap ok (ap (λ (x : String × String). x.0) same),
        r ∙ ap ok (ap (λ (x : String × String). x.1) same),
      )

  -- Whatever token is validated has all of that evidence.
  pub validate_strict_sound :
      (token : String) (allowed_audiences : List String) (issuer : Option String)
      (allowed_issuers : Option (List String)) (s : CacheState) (claims : Dict)
      → (validate_strict net jwt token allowed_audiences issuer allowed_issuers s).0 ≡ ok claims
      → Validated token allowed_audiences issuer (listed_issuers allowed_issuers) s claims
  unfolding validate_strict verify
  validate_strict_sound token allowed_audiences issuer allowed_issuers s claims h =
      let (alg, kid, read, jwk, got, verified) =
        after_header-ok (read_header net jwt token) token allowed_audiences
          (listed_issuers allowed_issuers) issuer s claims h in
      let (header, unverified, a, k) = read_header-ok token alg kid read in
      let (allowed, (alg_text, e, b, spelling)) = (validate_algorithm_iff _ alg).0 a in
      let (key, from, v₁) = >>=-eq-ok _ _ verified in
      let (decoded, d, v₂) = >>=-eq-ok _ _ v₁ in
      let (same, listed) = check_issuer_sound (listed_issuers allowed_issuers) decoded claims v₂ in
      record {
        header = header;
        unverified = unverified;
        alg = alg;
        alg_text = alg_text;
        alg_header = e;
        alg_spelling = spelling;
        alg_allowed = allowed;
        kid = kid;
        kid_header = k;
        jwk = jwk;
        jwk_cached = get_key-cached net kid s jwk got;
        key = key;
        key_of_jwk = from;
        verified = d ∙ ap ok same;
        issuer_listed = listed;
      }

  -- Validation requests at most twice, and only the cache's own URL, whatever the token holds.
  pub validate_strict-Fetches :
      (token : String) (allowed_audiences : List String) (issuer : Option String)
      (allowed_issuers : Option (List String)) (s : CacheState)
      → Fetches 2 s (validate_strict net jwt token allowed_audiences issuer allowed_issuers s).1
  unfolding validate_strict
  validate_strict-Fetches token allowed_audiences issuer allowed_issuers s =
      by_header (read_header net jwt token)
    where
      by_key :
          (r : Result Value × CacheState) (k : Value → Result Dict)
          → Fetches 2 s r.1
          → Fetches 2 s (with_key net jwt r k).1
      by_key (ok v, t) k f = f
      by_key (raise e, t) k f = f

      by_header :
          (r : Result (String × String))
          → Fetches 2 s
              (after_header net jwt r token allowed_audiences
                (listed_issuers allowed_issuers)
                issuer
                s).1
      by_header (ok (alg, kid)) = by_key (get_key net kid s) _ (get_key-Fetches net kid s)
      by_header (raise e) = Fetches-none 2 s s refl refl
