-- ===== src/Auth/Jwks/Shared/Sound.antt =====
-- Strict claims come from a validated token.
use agentic_identity_lab.Prelude.{◌≡◌, refl, String, Option, none, some, List}
use agentic_identity_lab.Result.{Result, ok, raise}
use agentic_identity_lab.Value.{Dict}
use agentic_identity_lab.Auth.Settings.{extract_bearer_token}
use agentic_identity_lab.Auth.Jwks.Cache.{Network, CacheState}
use agentic_identity_lab.Auth.Jwks.Strict.{Jwt, listed_issuers, validate_strict}
use agentic_identity_lab.Auth.Jwks.Strict.Laws.{Validated, validate_strict_sound}
use agentic_identity_lab.Auth.Jwks.Shared.{
  SharedState, strict_jwks_cache, wrap, with_token, load_strict_claims_from_authorization,
}

-- The state of the cache that a run finds for a URL.
abbrev pub cache_state : String → SharedState → CacheState
cache_state url s = record {
  cache = (strict_jwks_cache url s.caches).0;
  fetched = s.fetched;
  readings = s.readings;
}

wrap_ok : (r : Result Dict) (claims : Dict) → wrap r ≡ ok (some claims) → r ≡ ok claims
wrap_ok (ok c) claims h = cc
wrap_ok (raise e) claims h = cc

module _ {Key : Type 0} (net : Network) (jwt : Jwt Key) where
  -- Where claims come out, the header carried a bearer token, and it was validated with the cache of
  -- the configured URL.
  pub load_strict_claims-Validated :
      (authorization : Option String) (jwks_url : String) (allowed_audiences : List String)
      (issuer : Option String) (allowed_issuers : Option (List String)) (s : SharedState)
      (claims : Dict)
      → (load_strict_claims_from_authorization net jwt authorization jwks_url allowed_audiences
          issuer allowed_issuers s).0
        ≡ ok (some claims)
      → (token : String) × (extract_bearer_token authorization ≡ some token)
        × Validated net jwt token allowed_audiences issuer
            (listed_issuers allowed_issuers)
            (cache_state jwks_url s)
            claims
  unfolding load_strict_claims_from_authorization
  load_strict_claims-Validated authorization jwks_url allowed_audiences issuer allowed_issuers s
        claims h =
      by_token (extract_bearer_token authorization) refl h
    where
      by_token :
          (o : Option String)
          → extract_bearer_token authorization ≡ o
          → (with_token net jwt o jwks_url allowed_audiences issuer allowed_issuers s).0
            ≡ ok (some claims)
          → (token : String) × (extract_bearer_token authorization ≡ some token)
            × Validated net jwt token allowed_audiences issuer
                (listed_issuers allowed_issuers)
                (cache_state jwks_url s)
                claims
      by_token none e p = cc
      by_token (some token) e p = (
        token,
        e,
        validate_strict_sound net jwt token allowed_audiences issuer allowed_issuers
            (cache_state jwks_url s) claims
            (wrap_ok
              (validate_strict net jwt token allowed_audiences issuer allowed_issuers
                (cache_state jwks_url s)).0
              claims p),
      )
