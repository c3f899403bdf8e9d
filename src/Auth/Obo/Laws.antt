-- ===== src/Auth/Obo/Laws.antt =====
-- When an exchange succeeds, and what its result holds.
use agentic_identity_lab.Prelude.{
  ℕ, ◌<◌, ◌≡◌, refl, ap, ◌∙◌, ◌↔◌, String, true, not, ◌&&◌, Option, none, some, List, [], ◌∷◌,
  arith, eq_iff, contains, is_nil, strip, join, ◌==◌, ◌<+>◌, if◌then◌else◌,
}
use agentic_identity_lab.Result.{Result, ok, raise, value_error, >>=-eq-ok}
use agentic_identity_lab.Value.{
  Value, str, dict, Dict, lookup, set_item, get, lookup-set_item, set_item-IsDict, IsDict,
}
use agentic_identity_lab.Host.{Host}
use agentic_identity_lab.Http.{HttpReply, http_error, reply}
use agentic_identity_lab.Auth.Claims.{sanitize_claims}
use agentic_identity_lab.Auth.Claims.Keys.{sanitized, lookup-sanitize_claims}
use agentic_identity_lab.Auth.Guards.{Required, AuthContext, has_text}
use agentic_identity_lab.Auth.Obo.{
  normalize_scopes, with_scopes, exchange_on_behalf_of, EntraOboConfig, missing_obo_fields,
  validate_entra_obo_config, extract_bearer_assertion, TokenRequest, token_request,
  read_token_reply, exchange_entra_on_behalf_of, field_of, scheme_of, header_of,
}

-- Who may exchange, and for what.
pub record MayExchange (context : AuthContext) (downstream_audience : String) : Type 0 where
  pub authenticated : context.authenticated ≡ true
  pub authorized : context.authorized ≡ true
  pub delegated : context.token_type ≡ "delegated"
  pub for_audience : has_text downstream_audience ≡ true

-- The claim of the exchanged token at a key, before it is sanitized.
abbrev pub exchanged :
    AuthContext → (downstream_audience : String) → List String → String → Option Value
exchanged context downstream_audience scopes k =
    if not (is_nil scopes) && "scp" == k
    then some (str (join " " scopes))
    else if "aud" == k
    then some (str (strip downstream_audience))
    else lookup k context.claims

lookup-with_scopes :
    (scopes : List String) (k : String) (claims : Dict)
    → lookup k (with_scopes scopes claims) ≡ (
        if not (is_nil scopes) && "scp" == k then some (str (join " " scopes)) else lookup k claims)
lookup-with_scopes [] k claims = refl
lookup-with_scopes (s ∷ scopes) k claims = lookup-set_item k "scp" _ claims

with_scopes-IsDict :
    (scopes : List String) (claims : Dict) → IsDict claims → IsDict (with_scopes scopes claims)
with_scopes-IsDict [] claims u = u
with_scopes-IsDict (s ∷ scopes) claims u = set_item-IsDict "scp" _ claims u

module _ (host : Host) (context : AuthContext) (downstream_audience : String)
    (scopes : Required) where
  abbrev result : Dict
  result = sanitize_claims host (
      some (
        with_scopes (normalize_scopes scopes)
          (set_item "aud" (str (strip downstream_audience)) context.claims)))

  exchange_ok :
      (claims : Dict)
      → exchange_on_behalf_of host context downstream_audience scopes ≡ ok claims
      → MayExchange context downstream_audience × (claims ≡ result)
  unfolding exchange_on_behalf_of
  exchange_ok claims h = ground (arith, eq_iff context.token_type "delegated")

  -- An exchange succeeds exactly for an authenticated, authorized, delegated context and a named
  -- audience.
  pub exchange_on_behalf_of_iff :
      ((claims : Dict) × (exchange_on_behalf_of host context downstream_audience scopes
          ≡ ok claims))
      ↔ MayExchange context downstream_audience
  unfolding exchange_on_behalf_of
  exchange_on_behalf_of_iff = (
    λ (claims, h). (exchange_ok claims h).0,
    λ m. (result, rw (m.authenticated, m.authorized, m.delegated, m.for_audience)),
  )

  -- The exchanged claims are the caller's, with the downstream audience and scopes in their place,
  -- kept to the allowlist and sanitized.
  pub lookup-exchange_on_behalf_of :
      (claims : Dict) (k : String)
      → IsDict context.claims
      → exchange_on_behalf_of host context downstream_audience scopes ≡ ok claims
      → lookup k claims ≡ (
          if contains k host.safe_claim_keys
          then sanitized host (exchanged context downstream_audience (normalize_scopes scopes) k)
          else none)
  lookup-exchange_on_behalf_of claims k u h = rw (exchange_ok claims h).1 (
      lookup-sanitize_claims host _ k
        (with_scopes-IsDict (normalize_scopes scopes) _ (set_item-IsDict "aud" _ context.claims u))
      ∙ rw (
        lookup-with_scopes (normalize_scopes scopes) k,
        lookup-set_item k "aud" (str (strip downstream_audience)) context.claims,
      ))

-- A complete exchange with the token endpoint.
pub record IsExchanged (post : TokenRequest → HttpReply) (authorization : Option String)
    (config : EntraOboConfig) (header : String) : Type 0 where
  pub configured : missing_obo_fields config ≡ []
  pub assertion : String
  pub inbound : extract_bearer_assertion authorization ≡ ok assertion
  pub status_code : ℕ
  pub payload : Dict
  pub answered : post (token_request config assertion) ≡ reply status_code (some (dict payload))
  pub accepted : status_code < 400
  pub access_token : String
  pub issued : get "access_token" payload ≡ str access_token
  pub given : has_text access_token ≡ true
  pub header_text : header ≡ scheme_of (get "token_type" payload) <+> " " <+> strip access_token

pub configured_ok :
    (config : EntraOboConfig) (context : String) (u : Unit {0})
    → validate_entra_obo_config config context ≡ ok u
    → missing_obo_fields config ≡ []
unfolding validate_entra_obo_config
configured_ok config context u h = by_missing (missing_obo_fields config) refl h
  where
    by_missing :
        (m : List String)
        → missing_obo_fields config ≡ m
        → ◌≡◌ {A = Result (Unit {0})}
            (if is_nil m
              then ok tt
              else raise (
                  value_error (
                    context
                    <+> " requires Entra OBO configuration: "
                    <+> join ", " m
                    <+> ". Wire protected values in the deployment environment; do not commit them.")))
            (ok u)
        → missing_obo_fields config ≡ []
    by_missing [] e p = e
    by_missing (x ∷ xs) e p = cc

header_of_ok :
    (token token_type : Value) (header : String)
    → header_of token token_type ≡ ok header
    → (t : String) × (token ≡ str t)
      × (has_text t ≡ true)
      × (header ≡ scheme_of token_type <+> " " <+> strip t)
header_of_ok (str t) token_type header h = (t, refl, ground arith, ground arith)
header_of_ok v token_type header h = cc

abbrev IsBody : String → Value → Type 0
IsBody header v =
    (payload : Dict) × (v ≡ dict payload)
    × (t : String) × (get "access_token" payload ≡ str t)
    × (has_text t ≡ true)
    × (header ≡ scheme_of (get "token_type" payload) <+> " " <+> strip t)

read-IsBody_ok :
    (v : Value) (header : String)
    → header_of (field_of "access_token" v) (field_of "token_type" v) ≡ ok header
    → IsBody header v
read-IsBody_ok (dict payload) header h =
    let (t, a, b, c) =
      header_of_ok (get "access_token" payload) (get "token_type" payload) header h in
    (payload, refl, t, a, b, c)
read-IsBody_ok v header h = cc

read_token_reply_ok :
    (r : HttpReply) (header : String)
    → read_token_reply r ≡ ok header
    → (status : ℕ) × (v : Value) × (r ≡ reply status (some v)) × (status < 400) × IsBody header v
unfolding read_token_reply
read_token_reply_ok http_error header h = cc
read_token_reply_ok (reply status none) header h = ground arith
read_token_reply_ok (reply status (some v)) header h =
    (status, v, refl, ground arith, read-IsBody_ok v header (ground arith))

-- A header is returned only after a complete exchange: the configuration is complete, the caller sent
-- a bearer token, which was the posted assertion, and the endpoint answered below 400 with an access
-- token, which the header carries.
pub exchange_entra_on_behalf_of_sound :
    (post : TokenRequest → HttpReply) (authorization : Option String) (config : EntraOboConfig)
    (context header : String)
    → exchange_entra_on_behalf_of post authorization config context ≡ ok header
    → IsExchanged post authorization config header
unfolding exchange_entra_on_behalf_of
exchange_entra_on_behalf_of_sound post authorization config context header h =
    let (u, checked, h₁) = >>=-eq-ok _ _ h in
    let (assertion, inbound, h₂) = >>=-eq-ok _ _ h₁ in
    let (status, v, answered, below, body) = read_token_reply_ok _ header h₂ in
    let (payload, is_dict, t, issued, given, text) = body in
    record {
      configured = configured_ok config context u checked;
      assertion = assertion;
      inbound = inbound;
      status_code = status;
      payload = payload;
      answered = answered ∙ ap (λ w. reply status (some w)) is_dict;
      accepted = below;
      access_token = t;
      issued = issued;
      given = given;
      header_text = text;
    }
