-- ===== src/Auth/Jwks/Cache/Laws.antt =====
-- The cache fetches its own URL and nothing else, at most twice for a lookup.
use agentic_identity_lab.Prelude.{
  ℕ, ◌≡◌, refl, sym, ap, subst, ◌∙◌, ◌++◌, All, inl, inr, String, false, Option, none, some, List,
  [], ◌∷◌, arith, Bool-cases, length, ◌≤◌, ◌+◌,
}
use mathlib.Core.List.{append_assoc}
use agentic_identity_lab.Result.{Result, ok, raise, ◌>>=◌}
use agentic_identity_lab.Value.{Value, Dict, lookup}
use agentic_identity_lab.Auth.Jwks.Cache.{
  JwksCache, Network, CacheState, Action, keys_of, refresh, is_stale, lookup_or_retry, get_key,
  stored, then_ok, found_or, found_or_raise, read_clock,
}

-- `t` comes from `s` by at most `n` requests, each of the cache's URL, which stays.
pub record Fetches (n : ℕ) (s t : CacheState) : Type 0 where
  pub same_url : t.cache.jwks_url ≡ s.cache.jwks_url
  pub urls : List String
  pub logged : t.fetched ≡ urls ++ s.fetched
  pub own : All (λ u. u ≡ s.cache.jwks_url) urls
  pub few : length urls ≤ n

pub Fetches-none :
    (n : ℕ) (s t : CacheState) → t.cache ≡ s.cache → t.fetched ≡ s.fetched → Fetches n s t
Fetches-none n s t c f = record {
  same_url = ap (λ (x : JwksCache). x.jwks_url) c;
  urls = [];
  logged = f;
  own = tt;
  few = omega arith;
}

All-append {ℓ κ} :
    {A : Type ℓ} (P : A → Type κ) (xs ys : List A) → All P xs → All P ys → All P (xs ++ ys)
All-append P [] ys h k = k
All-append P (x ∷ xs) ys (p, h) k = (p, All-append P xs ys h k)

length-append {ℓ} : {A : Type ℓ} (xs ys : List A) → length (xs ++ ys) ≡ length xs + length ys
length-append [] ys = omega arith
length-append (x ∷ xs) ys = omega (arith, length-append xs ys)

Fetches-trans : (m n : ℕ) (s t u : CacheState) → Fetches m s t → Fetches n t u → Fetches (m + n) s u
Fetches-trans m n s t u f g = record {
  same_url = g.same_url ∙ f.same_url;
  urls = g.urls ++ f.urls;
  logged = g.logged ∙ ap (λ l. g.urls ++ l) f.logged ∙ sym (append_assoc g.urls f.urls s.fetched);
  own =
      All-append _ g.urls f.urls (subst (λ url. All (λ v. v ≡ url) g.urls) f.same_url g.own) f.own;
  few = let a = f.few in let b = g.few in omega (arith, length-append g.urls f.urls);
}

module _ (net : Network) where
  stored-Fetches :
      (r : Result Dict) (s : CacheState)
      → Fetches 1 s (stored net r (record s { fetched = s.cache.jwks_url ∷ s.fetched })).1
  stored-Fetches (ok keys) s = record {
    same_url = refl;
    urls = s.cache.jwks_url ∷ [];
    logged = refl;
    own = (refl, tt);
    few = omega arith;
  }
  stored-Fetches (raise e) s = record {
    same_url = refl;
    urls = s.cache.jwks_url ∷ [];
    logged = refl;
    own = (refl, tt);
    few = omega arith;
  }

  refresh-Fetches : (s : CacheState) → Fetches 1 s (refresh net s).1
  unfolding refresh
  refresh-Fetches s = stored-Fetches (net.fetch (length s.fetched) s.cache.jwks_url >>= keys_of) s

  then_ok-state :
      {A : Type 0} (m n : ℕ) (s : CacheState) (r : Result (Unit {0}) × CacheState) (k : Action A)
      → Fetches m s r.1
      → ((t : CacheState) → Fetches n t (k t).1)
      → Fetches (m + n) s (then_ok net r k).1
  then_ok-state m n s (ok x, t) k f g = Fetches-trans m n s t (k t).1 f (g t)
  then_ok-state m n s (raise e, t) k f g = Fetches-trans m n s t t f (Fetches-none n t t refl refl)

  found_or-state :
      (n : ℕ) (o : Option Value) (miss : Action Value) (s : CacheState)
      → Fetches n s (miss s).1
      → Fetches n s (found_or net o miss s).1
  found_or-state n (some key) miss s f = Fetches-none n s s refl refl
  found_or-state n none miss s f = f

  found_or_raise-Fetches :
      (kid : String) (s : CacheState) → Fetches 0 s (found_or_raise net kid s).1
  found_or_raise-Fetches kid s =
      found_or-state 0 (lookup kid s.cache.keys) _ s (Fetches-none 0 s s refl refl)

  lookup_or_retry-Fetches :
      (kid : String) (s : CacheState) → Fetches 1 s (lookup_or_retry net kid s).1
  unfolding lookup_or_retry
  lookup_or_retry-Fetches kid s = found_or-state 1 (lookup kid s.cache.keys) _ s (
      then_ok-state 1 0 s (refresh net s) (found_or_raise net kid) (refresh-Fetches s)
        (found_or_raise-Fetches kid))

  read_clock-Fetches : (s : CacheState) → Fetches 0 s (read_clock net s)
  read_clock-Fetches s = Fetches-none 0 s (read_clock net s) refl refl

  -- A lookup requests the configured URL at most twice, and nothing else; the URL stays.
  pub get_key-Fetches : (kid : String) (s : CacheState) → Fetches 2 s (get_key net kid s).1
  unfolding get_key
  get_key-Fetches kid s =
      let u = read_clock net s in
      elim (Bool-cases (is_stale net s)) [
        | inl stale ↦ rw stale (
            then_ok-state 1 1 s (refresh net u) (lookup_or_retry net kid)
              (Fetches-trans 0 1 s u _ (read_clock-Fetches s) (refresh-Fetches u))
              (lookup_or_retry-Fetches kid))
        | inr fresh ↦
            rw fresh (
              Fetches-trans 1 1 s u _ (Fetches-none 1 s u refl refl)
                (lookup_or_retry-Fetches kid u))
      ]

  -- What an action returns is in the cache that it leaves, under the kid.
  abbrev Serves : String → Action Value → Type 0
  Serves kid act =
      (s : CacheState) (v : Value) → (act s).0 ≡ ok v → lookup kid (act s).1.cache.keys ≡ some v

  found_or-Serves :
      (kid : String) (miss : Action Value)
      → Serves kid miss
      → Serves kid (λ s. found_or net (lookup kid s.cache.keys) miss s)
  found_or-Serves kid miss k s v h = by_found (lookup kid s.cache.keys) refl h
    where
      by_found :
          (o : Option Value)
          → lookup kid s.cache.keys ≡ o
          → (found_or net o miss s).0 ≡ ok v
          → lookup kid (found_or net o miss s).1.cache.keys ≡ some v
      by_found (some key) e p = e ∙ cc
      by_found none e p = k s v p

  then_ok-Serves :
      (kid : String) (r : Result (Unit {0}) × CacheState) (k : Action Value) (v : Value)
      → Serves kid k
      → (then_ok net r k).0 ≡ ok v
      → lookup kid (then_ok net r k).1.cache.keys ≡ some v
  then_ok-Serves kid (ok x, t) k v serves h = serves t v h
  then_ok-Serves kid (raise e, t) k v serves h = cc

  lookup_or_retry-Serves : (kid : String) → Serves kid (lookup_or_retry net kid)
  unfolding lookup_or_retry
  lookup_or_retry-Serves kid = found_or-Serves kid _ (λ s v.
      then_ok-Serves kid (refresh net s) (found_or_raise net kid) v
        (found_or-Serves kid _ (λ t w h. cc)))

  -- A key that is returned is the one that the cache then holds under the kid.
  pub get_key-cached :
      (kid : String) (s : CacheState) (v : Value)
      → (get_key net kid s).0 ≡ ok v
      → lookup kid (get_key net kid s).1.cache.keys ≡ some v
  unfolding get_key
  get_key-cached kid s v h =
      let u = read_clock net s in
      elim (Bool-cases (is_stale net s)) [
        | inl stale ↦ rw stale (
            then_ok-Serves kid (refresh net u) (lookup_or_retry net kid) v
              (lookup_or_retry-Serves kid) (rw stale at h))
        | inr fresh ↦ rw fresh (lookup_or_retry-Serves kid u v (rw fresh at h))
      ]

  -- A fresh cache that has the kid answers without a request.
  pub get_key_hit :
      (kid : String) (s : CacheState) (v : Value)
      → is_stale net s ≡ false
      → lookup kid s.cache.keys ≡ some v
      → get_key net kid s ≡ (ok v, read_clock net s)
  unfolding get_key
  get_key_hit kid s v fresh hit = rw (fresh, hit)
