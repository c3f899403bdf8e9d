-- ===== src/Service/Granted.antt =====
-- The decision on a token's claims, stated once for the three services.
use agentic_identity_lab.Prelude.{ℕ, ◌≡◌, true, List, String}
use agentic_identity_lab.Value.{Dict}
use agentic_identity_lab.Host.{Host}
use agentic_identity_lab.Auth.Guards.{
  many, require_audience, require_delegated_token, require_scope,
}
use agentic_identity_lab.Auth.Guards.Laws.{IsAcceptable}
use agentic_identity_lab.Service.{TokenPolicy, claim_policy}

-- Claims that a service lets through: acceptable, for one of its audiences, delegated, in scope.
pub record IsGranted (host : Host) (policy : TokenPolicy) (now : ℕ) (required_scopes : List String)
    (claims : Dict) : Type 0 where
  pub acceptable : IsAcceptable host (claim_policy policy now) claims
  pub audience : require_audience host claims (many policy.allowed_audiences) ≡ true
  pub delegated : require_delegated_token claims ≡ true
  pub scope : require_scope host claims (many required_scopes) ≡ true
