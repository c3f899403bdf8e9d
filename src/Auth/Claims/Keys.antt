-- ===== src/Auth/Claims/Keys.antt =====
-- What a sanitized dict holds at a key.
use agentic_identity_lab.Prelude.{
  String, ◌≡◌, refl, true, false, Option, none, some, arith, eq_iff, contains, if◌then◌else◌,
  Bool-cases, inl, inr,
}
use agentic_identity_lab.Value.{Value, Dict, empty, entry, lookup, IsDict}
use agentic_identity_lab.Host.{Host}
use agentic_identity_lab.Auth.Claims.{is_null, sanitize_value, sanitize_claims}

-- None for a missing claim and for one that sanitizes to None.
abbrev pub non_null : Option Value → Option Value
non_null none = none
non_null (some v) = if is_null v then none else some v

abbrev pub sanitized : Host → Option Value → Option Value
sanitized host none = none
sanitized host (some v) = non_null (some (sanitize_value host v))

module _ (host : Host) (k : String) where
  -- Whatever the claims, the sanitized dict has no key outside the allowlist.
  pub lookup-sanitize_claims_unlisted :
      (claims : Dict)
      → contains k host.safe_claim_keys ≡ false
      → lookup k (sanitize_claims host (some claims)) ≡ none
  unfolding lookup sanitize_claims
  lookup-sanitize_claims_unlisted empty h = refl
  lookup-sanitize_claims_unlisted (entry j v d) h =
      ground (arith, eq_iff j k, lookup-sanitize_claims_unlisted d h)

  -- An allowlisted key has its sanitized value.
  pub lookup-sanitize_claims_listed :
      (claims : Dict)
      → IsDict claims
      → contains k host.safe_claim_keys ≡ true
      → lookup k (sanitize_claims host (some claims)) ≡ sanitized host (lookup k claims)
  unfolding lookup sanitize_claims
  lookup-sanitize_claims_listed empty u h = refl
  lookup-sanitize_claims_listed (entry j v d) (fresh, u) h =
      ground (arith, eq_iff j k, lookup-sanitize_claims_listed d u h)

-- Sanitized claims hold exactly the allowlisted claims, each with its sanitized value.
pub lookup-sanitize_claims :
    (host : Host) (claims : Dict) (k : String)
    → IsDict claims
    → lookup k (sanitize_claims host (some claims))
      ≡ (if contains k host.safe_claim_keys then sanitized host (lookup k claims) else none)
lookup-sanitize_claims host claims k u = elim (Bool-cases (contains k host.safe_claim_keys)) [
  | inl listed ↦ rw listed (lookup-sanitize_claims_listed host k claims u listed)
  | inr unlisted ↦ rw unlisted (lookup-sanitize_claims_unlisted host k claims unlisted)
]
