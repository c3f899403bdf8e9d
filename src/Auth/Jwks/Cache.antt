-- ===== src/Auth/Jwks/Cache.antt =====
-- `JwksCache` of jwks.py: a dict of keys by kid, refreshed when it is stale and once more on a miss.
-- Times are in microseconds of the monotonic clock.
pub mod Laws
use agentic_identity_lab.Prelude.{
  ℕ, suc, ◌+◌, ◌*◌, String, Bool, true, false, Option, none, some, List, [], ◌∷◌, any, is_in, ltb,
  length, or_default, ◌||◌, ◌==◌, ◌<+>◌, if◌then◌else◌,
}
use agentic_identity_lab.Result.{
  Exception, value_error, type_error, attribute_error, Result, ok, raise, ◌>>=◌,
}
use agentic_identity_lab.Value.{
  Value, null, bool, int, float, str, list, dict, Items, nil, cons, Dict, empty, entry, to_list,
  lookup, set_item, has_key, get,
}
use agentic_identity_lab.Auth.Guards.{micro}

pub record JwksCache : Type 0 where
  pub jwks_url : String
  pub ttl_seconds : ℕ
  pub keys : Dict
  pub fetched_at : ℕ

-- The HTTP client and the clock: the answer to the n-th request, parsed, or what the client raises;
-- and the n-th reading of time.monotonic().
pub record Network : Type 0 where
  pub fetch : (n : ℕ) (url : String) → Result Value
  pub monotonic : (n : ℕ) → ℕ

-- The cache, the URLs fetched so far, the latest first, and the number of readings of the clock.
pub record CacheState : Type 0 where
  pub cache : JwksCache
  pub fetched : List String
  pub readings : ℕ

abbrev pub Action : Type 0 → Type 0
Action A = CacheState → Result A × CacheState

-- `"kid" in s` holds for a text that contains it, and `s["kid"]` then raises; so for a list.
abbrev raise_if : Bool → Dict → Result Dict
raise_if found keys = if found then raise type_error else ok keys

is_kid : Value → Bool
is_kid (str s) = s == "kid"
is_kid v = false

-- A kid that is a number or None is a key that no token's kid meets; a list or a dict is no key.
abbrev put_key : Value → Dict → Dict → Result Dict
put_key (str kid) key keys = ok (set_item kid (dict key) keys)
put_key (list items) key keys = raise type_error
put_key (dict d) key keys = raise type_error
put_key v key keys = ok keys

abbrev put_named_key : Option Value → Dict → Dict → Result Dict
put_named_key none key keys = ok keys
put_named_key (some kid) key keys = put_key kid key keys

-- One round of the comprehension {k["kid"]: k for k in keys if "kid" in k}.
unfoldable pub add_key : Value → Dict → Result Dict
unfolding is_kid
add_key (dict key) keys = put_named_key (lookup "kid" key) key keys
add_key (str s) keys = raise_if (is_in "kid" s) keys
add_key (list items) keys = raise_if (any is_kid (to_list items)) keys
add_key v keys = raise type_error

unfoldable pub keys_from : Items → Dict → Result Dict
keys_from nil keys = ok keys
keys_from (cons v vs) keys = do added ← add_key v keys; keys_from vs added

has_kid_name : Dict → Bool
has_kid_name empty = false
has_kid_name (entry k v d) = is_in "kid" k || has_kid_name d

-- The comprehension over `payload["keys"]`: over a text its characters, over a dict its keys.
abbrev keys_of_field : Option Value → Result Dict
keys_of_field none = ok empty
keys_of_field (some (list items)) = keys_from items empty
keys_of_field (some (str s)) = ok empty
keys_of_field (some (dict d)) = raise_if (has_kid_name d) empty
keys_of_field (some v) = raise type_error

unfoldable pub keys_of : Value → Result Dict
unfolding keys_from has_kid_name
keys_of (dict payload) = keys_of_field (lookup "keys" payload)
keys_of v = raise attribute_error

module _ (net : Network) where
  abbrev stored : Result Dict → Action (Unit {0})
  stored (raise e) s = (raise e, s)
  stored (ok keys) s = (
    ok tt,
    record s {
      cache = record s.cache { keys = keys; fetched_at = net.monotonic s.readings };
      readings = suc s.readings;
    },
  )

  -- The request is made whatever comes of it; a failure leaves the cache as it was.
  unfoldable pub refresh : Action (Unit {0})
  refresh s =
      let url = s.cache.jwks_url in
      stored (net.fetch (length s.fetched) url >>= keys_of) (record s { fetched = url ∷ s.fetched })

  -- `_is_stale`
  unfoldable pub is_stale : CacheState → Bool
  is_stale s = ltb (s.cache.fetched_at + s.cache.ttl_seconds * micro) (net.monotonic s.readings)

  abbrev pub read_clock : CacheState → CacheState
  read_clock s = record s { readings = suc s.readings }

  abbrev then_ok : {A : Type 0} → Result (Unit {0}) × CacheState → Action A → Result A × CacheState
  then_ok (raise e, s) k = (raise e, s)
  then_ok (ok _, s) k = k s

  abbrev found_or : Option Value → Action Value → Action Value
  found_or (some key) miss s = (ok key, s)
  found_or none miss s = miss s

  -- the last lookup
  abbrev found_or_raise : String → Action Value
  found_or_raise kid = λ s.
      found_or (lookup kid s.cache.keys)
        (λ t. (raise (value_error ("kid " <+> kid <+> " not found in JWKS after refresh")), t)) s

  -- the lookup, with one retry on a miss
  unfoldable pub lookup_or_retry : String → Action Value
  unfolding refresh
  lookup_or_retry kid s =
      found_or (lookup kid s.cache.keys) (λ t. then_ok (refresh t) (found_or_raise kid)) s

  unfoldable pub get_key : String → Action Value
  unfolding is_stale refresh lookup_or_retry
  get_key kid s =
      if is_stale s
      then then_ok (refresh (read_clock s)) (lookup_or_retry kid)
      else lookup_or_retry kid (read_clock s)
