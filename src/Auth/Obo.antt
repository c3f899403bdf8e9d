-- ===== src/Auth/Obo.antt =====
-- obo.py: the simulated exchange of claims, and the exchange at Entra's token endpoint.
pub mod Laws
use agentic_identity_lab.Prelude.{
  ℕ, String, Bool, true, false, not, ◌&&◌, ◌||◌, Option, none, some, List, [], ◌∷◌, keep, is_nil,
  is_blank, strip, lower, split, join, partition, replace_char, leb, ◌==◌, ◌<+>◌, if◌then◌else◌,
}
use agentic_identity_lab.Result.{Result, ok, raise, value_error, ◌>>=◌}
use agentic_identity_lab.Value.{Float, Value, null, str, dict, Dict, lookup, set_item, get}
use agentic_identity_lab.Host.{Host}
use agentic_identity_lab.Http.{HttpReply, http_error, reply}
use agentic_identity_lab.Auth.Claims.{sanitize_claims}
use agentic_identity_lab.Auth.Guards.{Required, absent, one, many, AuthContext, has_text}
use agentic_identity_lab.Auth.Settings.{unless}

unfoldable pub normalize_scopes : Required → List String
normalize_scopes absent = []
normalize_scopes (one scopes) =
    keep (λ item. not (is_blank item)) (split (replace_char b',' " " scopes))
normalize_scopes (many scopes) = keep has_text scopes

-- The claims of the exchange, before they are sanitized.
abbrev pub with_scopes : List String → Dict → Dict
with_scopes scopes claims =
    if is_nil scopes then claims else set_item "scp" (str (join " " scopes)) claims

unfoldable pub exchange_on_behalf_of :
    Host
    → AuthContext
    → (downstream_audience : String) → (downstream_scopes : Required) → Result Dict
unfolding normalize_scopes
exchange_on_behalf_of host context downstream_audience downstream_scopes =
    if not context.authenticated || not context.authorized
    then raise (value_error "OBO exchange requires an authenticated, authorized context.")
    else if not (context.token_type == "delegated")
    then raise (value_error "OBO exchange requires a delegated user token.")
    else if not (has_text downstream_audience)
    then raise (value_error "Downstream audience is required for OBO exchange.")
    else ok (
        sanitize_claims host (
          some (
            with_scopes (normalize_scopes downstream_scopes)
              (set_item "aud" (str (strip downstream_audience)) context.claims))))

pub record EntraOboConfig : Type 0 where
  pub token_url : String
  pub client_id : String
  pub client_secret : String
  pub scopes : List String
  pub timeout_seconds : Float

unfoldable pub missing_obo_fields : EntraOboConfig → List String
missing_obo_fields config = unless (has_text config.token_url) "OBO_TOKEN_URL" (
    unless (has_text config.client_id) "OBO_CLIENT_ID" (
      unless (has_text config.client_secret) "OBO_CLIENT_SECRET"
        (unless (not (is_nil config.scopes)) "OBO_REQUIRED_SCOPES" [])))

unfoldable pub validate_entra_obo_config : EntraOboConfig → (context : String) → Result (Unit {0})
validate_entra_obo_config config context =
    let missing = missing_obo_fields config in
    if is_nil missing
    then ok tt
    else raise (
        value_error (
          context
          <+> " requires Entra OBO configuration: "
          <+> join ", " missing
          <+> ". Wire protected values in the deployment environment; do not commit them."))

abbrev pub no_bearer {ℓ} : {A : Type ℓ} → Result A
no_bearer = raise (value_error "OBO exchange requires an inbound delegated bearer token.")

abbrev assertion_of : String × Bool × String → Result String
assertion_of (scheme, found, value) =
    if not (lower scheme == "bearer") || not (has_text value) then no_bearer else ok (strip value)

unfoldable pub extract_bearer_assertion : Option String → Result String
extract_bearer_assertion none = no_bearer
extract_bearer_assertion (some authorization) =
    if is_blank authorization then no_bearer else assertion_of (partition b' ' authorization)

-- The form that is posted to the token endpoint.
pub record TokenRequest : Type 0 where
  pub url : String
  pub client_id : String
  pub client_secret : String
  pub grant_type : String
  pub assertion : String
  pub requested_token_use : String
  pub scope : String
  pub timeout : Float

unfoldable pub token_request : EntraOboConfig → (assertion : String) → TokenRequest
token_request config assertion = record {
  url = config.token_url;
  client_id = config.client_id;
  client_secret = config.client_secret;
  grant_type = "urn:ietf:params:oauth:grant-type:jwt-bearer";
  assertion = assertion;
  requested_token_use = "on_behalf_of";
  scope = join " " config.scopes;
  timeout = config.timeout_seconds;
}

abbrev field_of : String → Value → Value
field_of name (dict payload) = get name payload
field_of name v = null

abbrev scheme_of : Value → String
scheme_of (str token_type) = if has_text token_type then strip token_type else "Bearer"
scheme_of v = "Bearer"

abbrev header_of : Value → Value → Result String
header_of (str access_token) token_type =
    if has_text access_token
    then ok (scheme_of token_type <+> " " <+> strip access_token)
    else raise (value_error "OBO token endpoint response did not include an access token.")
header_of v token_type =
    raise (value_error "OBO token endpoint response did not include an access token.")

abbrev read_body : Option Value → Result String
read_body none = raise (value_error "OBO token endpoint returned an invalid payload.")
read_body (some payload) =
    header_of (field_of "access_token" payload) (field_of "token_type" payload)

unfoldable pub read_token_reply : HttpReply → Result String
read_token_reply http_error =
    raise (value_error "OBO token endpoint is unreachable. Verify protected OBO configuration.")
read_token_reply (reply status_code body) =
    if leb 400 status_code
    then raise (
        value_error
          "OBO token endpoint rejected the exchange. Verify protected OBO client configuration and downstream scopes.")
    else read_body body

unfoldable pub exchange_entra_on_behalf_of :
    (post : TokenRequest → HttpReply)
    → (authorization : Option String) → EntraOboConfig
    → (context : String) → Result String
exchange_entra_on_behalf_of post authorization config context = do
  checked ← validate_entra_obo_config config context
  assertion ← extract_bearer_assertion authorization
  read_token_reply (post (token_request config assertion))
