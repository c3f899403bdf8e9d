-- ===== src/Auth/Jwks/Shared.antt =====
-- `_strict_jwks_cache` and `load_strict_claims_from_authorization` of auth_settings.py: the caches of
-- the last eight URLs, the latest first, as functools.lru_cache keeps them.
pub mod Laws
pub mod Sound
use agentic_identity_lab.Prelude.{
  ℕ, String, Bool, true, false, Option, none, some, List, [], ◌∷◌, take, ◌==◌, if◌then◌else◌,
}
use agentic_identity_lab.Result.{Result, ok, raise, value_error}
use agentic_identity_lab.Value.{Dict, empty}
use agentic_identity_lab.Auth.Settings.{extract_bearer_token}
use agentic_identity_lab.Auth.Jwks.Cache.{JwksCache, Network, CacheState}
use agentic_identity_lab.Auth.Jwks.Strict.{Jwt, validate_strict}

abbrev pub Caches : Type 0
Caches = List JwksCache

-- What the process holds between requests.
pub record SharedState : Type 0 where
  pub caches : Caches
  pub fetched : List String
  pub readings : ℕ

abbrev pub maxsize : ℕ
maxsize = 8

-- JwksCache(jwks_url=jwks_url)
abbrev pub new_cache : String → JwksCache
new_cache url = record { jwks_url = url; ttl_seconds = 300; keys = empty; fetched_at = 0 }

unfoldable pub find_cache : String → Caches → Option JwksCache
find_cache url [] = none
find_cache url (c ∷ rest) = if c.jwks_url == url then some c else find_cache url rest

unfoldable pub drop_cache : String → Caches → Caches
drop_cache url [] = []
drop_cache url (c ∷ rest) =
    let others = drop_cache url rest in if c.jwks_url == url then others else c ∷ others

abbrev or_new : String → Option JwksCache → JwksCache
or_new url none = new_cache url
or_new url (some c) = c

-- The cache of a URL, and the caches with it in front and the ninth dropped.
unfoldable pub strict_jwks_cache : String → Caches → JwksCache × Caches
unfolding find_cache drop_cache
strict_jwks_cache url caches =
    let c = or_new url (find_cache url caches) in (c, take maxsize (c ∷ drop_cache url caches))

-- The object in front is shared: what a validation does to it stays.
abbrev put_back : Caches → JwksCache → Caches
put_back [] c = []
put_back (old ∷ rest) c = c ∷ rest

-- `except Exception: raise ValueError("strict_token_validation_failed")`
abbrev pub wrap : Result Dict → Result (Option Dict)
wrap (ok claims) = ok (some claims)
wrap (raise e) = raise (value_error "strict_token_validation_failed")

module _ {Key : Type 0} (net : Network) (jwt : Jwt Key) where
  abbrev write_back :
      SharedState → Caches → Result Dict × CacheState → Result (Option Dict) × SharedState
  write_back s caches (r, t) = (
    wrap r,
    record { caches = put_back caches t.cache; fetched = t.fetched; readings = t.readings },
  )

  abbrev pub with_token :
      Option String
      → (jwks_url : String) → (allowed_audiences : List String) → (issuer : Option String)
      → (allowed_issuers : Option (List String)) → SharedState
      → Result (Option Dict) × SharedState
  with_token none jwks_url allowed_audiences issuer allowed_issuers s = (ok none, s)
  with_token (some token) jwks_url allowed_audiences issuer allowed_issuers s =
      let (c, caches) = strict_jwks_cache jwks_url s.caches in
      write_back s caches (
        validate_strict net jwt token allowed_audiences issuer allowed_issuers
          (record { cache = c; fetched = s.fetched; readings = s.readings }))

  unfoldable pub load_strict_claims_from_authorization :
      (authorization : Option String)
      → (jwks_url : String) → (allowed_audiences : List String) → (issuer : Option String)
      → (allowed_issuers : Option (List String)) → SharedState
      → Result (Option Dict) × SharedState
  load_strict_claims_from_authorization authorization =
      with_token (extract_bearer_token authorization)
