-- ===== src/Tests/Keys.antt =====
-- The theorems on the key cache and the strict validation at concrete inputs.
use agentic_identity_lab.Prelude.{
  ◌≡◌, refl, ◌*◌, String, false, none, some, [], ◌∷◌, arith, strip, lower, partition, keep,
}
use agentic_identity_lab.Result.{value_error, ok, raise}
use agentic_identity_lab.Value.{str, list, dict, nil, cons, Dict, empty, entry, lookup, set_item}
use agentic_identity_lab.Auth.Guards.{micro}
use agentic_identity_lab.Auth.Settings.{extract_bearer_token}
use agentic_identity_lab.Auth.Jwks.Algorithm.{validate_algorithm}
use agentic_identity_lab.Auth.Jwks.Cache.{Network, CacheState, add_key, keys_of, is_stale, get_key}
use agentic_identity_lab.Auth.Jwks.Cache.Laws.{Fetches, get_key-Fetches}
use agentic_identity_lab.Auth.Jwks.Strict.{
  Jwt, kid_of, listed_issuers, verify, read_header, validate_strict,
}
use agentic_identity_lab.Auth.Jwks.Strict.Laws.{Validated, validate_strict_sound}
use agentic_identity_lab.Auth.Jwks.Shared.{
  SharedState, strict_jwks_cache, load_strict_claims_from_authorization,
}
use agentic_identity_lab.Auth.Jwks.Shared.Laws.{IsValid, OneMore, load_strict_claims-OneMore}
use agentic_identity_lab.Tests.Data

abbrev jwk : Dict
jwk = entry "kid" (str "k1") empty

abbrev pub net : Network
net = record {
  fetch = λ n url. ok (dict (entry "keys" (list (cons (dict jwk) nil)) empty));
  monotonic = λ n. 1000 * micro;
}

-- The token's header says which algorithm it is: one whose text is "bad" is refused.
abbrev pub header : (alg : String) → Dict
header alg = entry "alg" (str alg) (entry "kid" (str "k1") empty)

abbrev pub jwt : (alg : String) → Jwt String
jwt alg = record {
  get_unverified_header = λ token. ok (header alg);
  from_jwk = λ v. ok "key";
  decode = λ token key algorithms audience issuer required. ok Data.claims;
}

abbrev cold : CacheState
cold = record {
  cache = record { jwks_url = "u"; ttl_seconds = 300; keys = empty; fetched_at = 0 };
  fetched = [];
  readings = 0;
}

abbrev warm : CacheState
warm = record {
  cache = record {
    jwks_url = "u";
    ttl_seconds = 300;
    keys = entry "k1" (dict jwk) empty;
    fetched_at = 900 * micro;
  };
  fetched = "u" ∷ [];
  readings = 2;
}

get_key-Fetches_example : Fetches 2 cold (get_key net "k1" cold).1
get_key-Fetches_example = get_key-Fetches net "k1" cold

found_after_refresh : (get_key net "k1" cold).0 ≡ ok (dict jwk)
unfolding get_key keys_of add_key set_item lookup
found_after_refresh = refl

warm_fresh : is_stale net warm ≡ false
unfolding is_stale
warm_fresh = refl

warm_held : lookup "k1" warm.cache.keys ≡ some (dict jwk)
unfolding lookup
warm_held = refl

none_refused : read_header net (jwt "none") "t" ≡ raise (value_error "Rejected algorithm")
unfolding read_header validate_algorithm lookup lower strip
none_refused = refl

token_validated :
    (validate_strict net (jwt "rs256") "t" ("api://lab" ∷ []) (some "https://issuer") none cold).0
    ≡ ok Data.claims
unfolding validate_strict read_header validate_algorithm lookup lower strip kid_of get_key keys_of
    add_key set_item verify listed_issuers keep
token_validated = refl

validate_strict_sound_example :
    Validated net
      (jwt "rs256")
      "t"
      ("api://lab" ∷ [])
      (some "https://issuer")
      (listed_issuers none)
      cold
      Data.claims
validate_strict_sound_example =
    validate_strict_sound net (jwt "rs256") "t" ("api://lab" ∷ []) (some "https://issuer") none cold
      Data.claims token_validated

abbrev pub start : SharedState
start = record { caches = []; fetched = []; readings = 0 }

start-IsValid : IsValid start
start-IsValid = record { apart = tt; few = omega arith }

load_strict_claims-OneMore_example :
    OneMore net
      (jwt "rs256")
      "u"
      start
      (load_strict_claims_from_authorization net
        (jwt "rs256")
        (some "Bearer t")
        "u"
        ("api://lab" ∷ [])
        (some "https://issuer")
        none
        start).1
load_strict_claims-OneMore_example =
    load_strict_claims-OneMore net (jwt "rs256") (some "Bearer t") "u" ("api://lab" ∷ [])
      (some "https://issuer") none start start-IsValid

failure_wrapped :
    (load_strict_claims_from_authorization net
      (jwt "none")
      (some "Bearer t")
      "u"
      ("api://lab" ∷ [])
      (some "https://issuer")
      none
      start).0
    ≡ raise (value_error "strict_token_validation_failed")
unfolding load_strict_claims_from_authorization extract_bearer_token partition strict_jwks_cache
    validate_strict read_header validate_algorithm lookup lower strip
failure_wrapped = refl
