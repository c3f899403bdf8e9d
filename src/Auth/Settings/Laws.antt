-- ===== src/Auth/Settings/Laws.antt =====
-- Bearer tokens, header names in any case, and what strict mode demands.
use agentic_identity_lab.Prelude.{
  ◌≡◌, ◌≢◌, refl, ◌↔◌, ◌⊎◌, inl, inr, String, Bool, true, false, not, ◌&&◌, Option, none, some,
  List, [], ◌∷◌, arith, eq_iff, any, is_nil, is_blank, strip, lower, partition, ◌==◌, ◌<+>◌,
  if◌then◌else◌, Bool-cases, All, contains, join,
}
use agentic_identity_lab.Result.{Result, ok, raise, value_error}
use agentic_identity_lab.Auth.Settings.{
  Headers, extract_bearer_token, normalize, find_header, get_header_value, looks_like_placeholder,
  has_non_placeholder, missing_strict_fields, validate_strict_config, unless, header_or_search,
  token_after, bearer_token,
}

-- A configured list: one of its texts is no placeholder.
abbrev pub IsReal : List String → Type 0
IsReal xs = (x : String) × (contains x xs ≡ true) × (looks_like_placeholder (some x) ≡ false)

has_non_placeholder_iff : (xs : List String) → (has_non_placeholder xs ≡ true) ↔ IsReal xs
unfolding has_non_placeholder any contains
has_non_placeholder_iff [] = (λ h. cc, λ (x, h, p). cc)
has_non_placeholder_iff (x ∷ xs) =
    let (to, from) = has_non_placeholder_iff xs in
    elim (Bool-cases (looks_like_placeholder (some x))) [
      | inl fake ↦ (
        λ h. let (y, held, p) = to (rw fake at h) in (y, ground arith, p),
        λ (y, held, p). elim (Bool-cases (x == y)) [
          | inl same ↦ cc ((eq_iff x y).0 same)
          | inr other ↦ rw fake (from (y, ground arith, p))
        ],
      )
      | inr real ↦ (λ h. (x, ground (arith, eq_iff x x), real), λ h. rw real)
    ]

pub record IsStrictConfig (issuer jwks_url : Option String)
    (allowed_audiences required_scopes trusted_tenants : List String) : Type 0 where
  pub issuer_real : looks_like_placeholder issuer ≡ false
  pub jwks_url_real : looks_like_placeholder jwks_url ≡ false
  pub audiences_real : IsReal allowed_audiences
  pub scopes_given : required_scopes ≢ []
  pub tenants_real : IsReal trusted_tenants

unless_iff :
    (b : Bool) (name : String) (rest : List String)
    → (unless b name rest ≡ []) ↔ ((b ≡ true) × (rest ≡ []))
unless_iff true name rest = ground arith
unless_iff false name rest = ground arith

given-IsReal : (xs : List String) → ((not (is_nil xs) && has_non_placeholder xs) ≡ true) ↔ IsReal xs
unfolding has_non_placeholder any
given-IsReal [] = (λ h. cc, λ h. (has_non_placeholder_iff []).1 h)
given-IsReal (x ∷ xs) = has_non_placeholder_iff (x ∷ xs)

missing_strict_fields_iff :
    (issuer jwks_url : Option String) (aud scp tid : List String)
    → (missing_strict_fields issuer jwks_url aud scp tid ≡ [])
      ↔ IsStrictConfig issuer jwks_url aud scp tid
unfolding missing_strict_fields
missing_strict_fields_iff issuer jwks_url aud scp tid = (
  λ h.
      let (i, h₁) = (unless_iff _ "issuer" _).0 h in
      let (j, h₂) = (unless_iff _ "jwks_url" _).0 h₁ in
      let (a, h₃) = (unless_iff _ "allowed_audiences" _).0 h₂ in
      let (s, h₄) = (unless_iff _ "required_scopes" _).0 h₃ in
      let (t, h₅) = (unless_iff _ "trusted_tenants" _).0 h₄ in
      record {
        issuer_real = ground arith;
        jwks_url_real = ground arith;
        audiences_real = (given-IsReal aud).0 a;
        scopes_given = ground arith;
        tenants_real = (given-IsReal tid).0 t;
      },
  λ c.
      let given : not (is_nil scp) ≡ true = not_nil scp c.scopes_given in
      rw (
        c.issuer_real,
        c.jwks_url_real,
        (given-IsReal aud).1 c.audiences_real,
        given,
        (given-IsReal tid).1 c.tenants_real,
      ),
)
  where
    not_nil : (xs : List String) → xs ≢ [] → not (is_nil xs) ≡ true
    not_nil [] h = absurd (h refl)
    not_nil (x ∷ xs) h = refl

-- Strict mode starts exactly with a real issuer and JWKS URL, an audience and a tenant that are no
-- placeholders, and a required scope.
pub validate_strict_config_iff :
    (issuer jwks_url : Option String)
    (allowed_audiences required_scopes trusted_tenants : List String)
    → (validate_strict_config issuer jwks_url allowed_audiences required_scopes trusted_tenants
        ≡ ok tt)
      ↔ IsStrictConfig issuer jwks_url allowed_audiences required_scopes trusted_tenants
unfolding validate_strict_config
validate_strict_config_iff issuer jwks_url aud scp tid =
    let (to, from) = missing_strict_fields_iff issuer jwks_url aud scp tid in
    (λ h. to (no_fields _ h), λ c. rw (from c))
  where
    no_fields :
        (missing : List String)
        → ◌≡◌ {A = Result (Unit {0})}
            (if is_nil missing
              then ok tt
              else raise (
                  value_error
                    ("Strict auth mode requires configured " <+> join ", " missing <+> ".")))
            (ok tt)
        → missing ≡ []
    no_fields [] h = refl
    no_fields (x ∷ xs) h = cc

find_header-none :
    (lowered : String) (items : List (String × String))
    → (find_header lowered items ≡ none) ↔ All (λ (h : String × String). lower h.0 ≢ lowered) items
unfolding find_header
find_header-none lowered [] = (λ _. tt, λ _. refl)
find_header-none lowered ((key, value) ∷ rest) =
    let (to, from) = find_header-none lowered rest in
    elim (Bool-cases (lower key == lowered)) [
      | inl same ↦ rw same (λ h. cc, λ (differ, _). absurd (differ ((eq_iff _ _).0 same)))
      | inr other ↦
          rw other
            (λ h. (λ e. cc (other, (eq_iff (lower key) lowered).1 e), to h), λ (_, h). from h)
    ]

header_or_search-none :
    (direct : Option String) (name : String) (items : List (String × String))
    → (header_or_search direct name items ≡ none)
      ↔ ((direct ≡ none) × All (λ (h : String × String). lower h.0 ≢ lower name) items)
header_or_search-none (some d) name items = (λ h. cc, λ (e, _). cc)
header_or_search-none none name items =
    let (to, from) = find_header-none (lower name) items in (λ h. (refl, to h), λ (_, h). from h)

-- A header is found by its name in any case, and only so: by the mapping's own lookup, or else as an
-- item whose name has the same lower case.
pub get_header_value-none :
    (headers : Headers) (name : String)
    → headers.items ≢ []
    → (get_header_value (some headers) name ≡ none) ↔ (
        (headers.find name ≡ none)
        × All (λ (h : String × String). lower h.0 ≢ lower name) headers.items)
unfolding get_header_value
get_header_value-none headers name given = elim (nil_cases headers.items) [
  | inl none_at_all ↦ absurd (given none_at_all)
  | inr some_item ↦ rw some_item (header_or_search-none (headers.find name) name headers.items)
]
  where
    nil_cases : (xs : List (String × String)) → (xs ≡ []) ⊎ (is_nil xs ≡ false)
    nil_cases [] = inl refl
    nil_cases (x ∷ xs) = inr refl

-- A bearer token is what follows the scheme `bearer`, in any case, and the first space; it is never
-- blank at an end.
pub extract_bearer_token_sound :
    (authorization : Option String) (token : String)
    → extract_bearer_token authorization ≡ some token
    → (value : String) × (normalize authorization ≡ some value)
      × (lower (partition b' ' value).0 ≡ "bearer")
      × ((partition b' ' value).1 ≡ true)
      × (token ≡ strip (partition b' ' value).2)
      × (is_blank token ≡ false)
unfolding extract_bearer_token
extract_bearer_token_sound authorization token h = by_value (normalize authorization) refl h
  where
    by_parts :
        (parts : String × Bool × String)
        → token_after parts ≡ some token
        → (lower parts.0 ≡ "bearer")
          × (parts.1 ≡ true)
          × (token ≡ strip parts.2)
          × (is_blank token ≡ false)
    by_parts (scheme, true, rest) e = ground (arith, eq_iff (lower scheme) "bearer")
    by_parts (scheme, false, rest) e = cc

    by_value :
        (o : Option String)
        → normalize authorization ≡ o
        → bearer_token o ≡ some token
        → (value : String) × (normalize authorization ≡ some value)
          × (lower (partition b' ' value).0 ≡ "bearer")
          × ((partition b' ' value).1 ≡ true)
          × (token ≡ strip (partition b' ' value).2)
          × (is_blank token ≡ false)
    by_value none e p = cc
    by_value (some value) e p =
        let (a, b, c, d) = by_parts (partition b' ' value) p in (value, e, a, b, c, d)
