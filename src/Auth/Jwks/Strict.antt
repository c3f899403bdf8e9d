-- ===== src/Auth/Jwks/Strict.antt =====
-- `validate_strict` of jwks.py. PyJWT is a parameter.
pub mod Laws
use agentic_identity_lab.Prelude.{
  ℕ, ◌≡◌, refl, ◌∙◌, ap, String, Bool, true, false, not, Option, none, some, List, [], ◌∷◌, map,
  arith, contains, keep, is_nil, is_blank, strip, or_default, Bool-cases, inl, inr, if◌then◌else◌,
  ◌<+>◌,
}
use agentic_identity_lab.Result.{Result, ok, raise, value_error, library_error, ◌>>=◌, Exception}
use agentic_identity_lab.Value.{Value, str, Dict, lookup, get, truthy}
use agentic_identity_lab.Auth.Guards.{has_text}
use agentic_identity_lab.Auth.Jwks.Algorithm.{validate_algorithm, allowed_algorithms}
use agentic_identity_lab.Auth.Jwks.Cache.{Network, CacheState, Action, get_key}

-- PyJWT: the unverified header, the key from its JWK, and the verification of signature and claims.
pub record Jwt (Key : Type 0) : Type 0 where
  pub get_unverified_header : (token : String) → Result Dict
  pub from_jwk : Value → Result Key
  pub decode :
      (token : String) (key : Key) (algorithms audience : List String) (issuer : Option String)
      (required : List String)
      → Result Dict

abbrev pub required_claims : List String
required_claims = "exp" ∷ "nbf" ∷ "aud" ∷ "iss" ∷ []

-- PyJWT refuses a header whose kid is no text, so the last case does not arise.
unfoldable pub kid_of : Value → Result String
kid_of (str s) = if is_blank s then raise (value_error "Missing kid in token header") else ok s
kid_of v =
    if truthy v
    then raise (library_error "Key ID header parameter must be a string")
    else raise (value_error "Missing kid in token header")

unfoldable pub listed_issuers : Option (List String) → List String
listed_issuers allowed_issuers = map strip (keep has_text (or_default allowed_issuers []))

abbrev pub has_issuer : List String → Value → Bool
has_issuer issuers (str s) = contains (strip s) issuers
has_issuer issuers v = false

abbrev pub issuer_of : Dict → Value
issuer_of claims = or_default (lookup "iss" claims) (str "")

-- With several issuers PyJWT's check of one is skipped and `iss` is compared here.
unfoldable pub check_issuer : List String → Dict → Result Dict
check_issuer issuers claims =
    if is_nil issuers
    then ok claims
    else if has_issuer issuers (issuer_of claims)
    then ok claims
    else raise (value_error "Issuer not in allowed issuers")

module _ {Key : Type 0} (net : Network) (jwt : Jwt Key) where
  -- The steps behind the key lookup.
  unfoldable pub verify :
      (token alg : String)
      → Value
      → (allowed_audiences issuers : List String) → (issuer : Option String) → Result Dict
  unfolding check_issuer
  verify token alg jwk_data allowed_audiences issuers issuer = do
    public_key ← jwt.from_jwk jwk_data
    claims ←
        jwt.decode token public_key (alg ∷ []) allowed_audiences
          (if is_nil issuers then issuer else none) required_claims
    check_issuer issuers claims

  -- The steps before the key lookup: the canonical algorithm and the kid.
  unfoldable pub read_header : (token : String) → Result (String × String)
  read_header token = do
    header ← jwt.get_unverified_header token
    alg ← validate_algorithm (or_default (lookup "alg" header) (str ""))
    kid ← kid_of (get "kid" header)
    ok (alg, kid)

  abbrev with_key : Result Value × CacheState → (Value → Result Dict) → Result Dict × CacheState
  with_key (raise e, s) k = (raise e, s)
  with_key (ok key, s) k = (k key, s)

  abbrev after_header :
      Result (String × String)
      → (token : String) → (allowed_audiences issuers : List String) → (issuer : Option String)
      → Action Dict
  after_header (raise e) token allowed_audiences issuers issuer s = (raise e, s)
  after_header (ok (alg, kid)) token allowed_audiences issuers issuer s =
      with_key (get_key net kid s) (λ key. verify token alg key allowed_audiences issuers issuer)

  unfoldable pub validate_strict :
      (token : String)
      → (allowed_audiences : List String) → (issuer : Option String)
      → (allowed_issuers : Option (List String)) → Action Dict
  validate_strict token allowed_audiences issuer allowed_issuers =
      after_header (read_header token) token allowed_audiences (listed_issuers allowed_issuers)
        issuer
