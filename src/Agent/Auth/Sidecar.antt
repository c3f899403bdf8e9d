-- ===== src/Agent/Auth/Sidecar.antt =====
-- The agent's exchange over a sidecar client that keeps to the allowlist, as the offline one does.
use agentic_identity_lab.Prelude.{
  ℕ, ◌≡◌, sym, ap, ◌∙◌, String, false, Option, none, List, [], contains, or_default,
}
use agentic_identity_lab.Result.{value_error, Result, ok, raise, >>=-eq-ok, ok_injective}
use agentic_identity_lab.Value.{Dict, lookup}
use agentic_identity_lab.Host.{Host}
use agentic_identity_lab.Auth.AgentObo.{AgentSidecarClient, MockAgentSidecarClient, mock_client}
use agentic_identity_lab.Auth.AgentObo.Laws.{IsSanitizing, mock_client-IsSanitizing}
use agentic_identity_lab.Agent.Auth.{
  OboExchange, refuse_with, validate_agent_blueprint, exchange_agent_obo,
}

refuse_with_ok {ℓ} :
    {A : Type ℓ} (prefix : String) (m : Result A) (a : A) → refuse_with prefix m ≡ ok a → m ≡ ok a
refuse_with_ok prefix (ok b) a h = h
refuse_with_ok prefix (raise (value_error message)) a h = cc
refuse_with_ok prefix (raise e) a h = cc

exchange_agent_obo-IsSanitizing :
    (host : Host) (client : AgentSidecarClient) (bearer_token api_name k : String)
    (scopes : Option (List String)) (claims : Dict) (exchange : OboExchange)
    → IsSanitizing host client
    → contains k host.safe_claim_keys ≡ false
    → validate_agent_blueprint bearer_token client ≡ ok claims
    → exchange_agent_obo bearer_token client api_name scopes ≡ ok exchange
    → (lookup k claims ≡ none) × (lookup k exchange.claims ≡ none)
unfolding validate_agent_blueprint exchange_agent_obo
exchange_agent_obo-IsSanitizing host client bearer_token api_name k scopes claims exchange clean
      unlisted v h =
    let (downstream, sent, h₁) = >>=-eq-ok _ _ h in
    (
      clean.validate_clean k bearer_token claims unlisted (refuse_with_ok _ _ claims v),
      ap (λ (x : OboExchange). lookup k x.claims) (sym (ok_injective h₁))
          ∙ clean.downstream_clean k api_name bearer_token (or_default scopes []) downstream
              unlisted (refuse_with_ok _ _ downstream sent),
    )

-- With the offline client behind the boundary, neither the validated claims nor those of the exchange
-- have a claim outside the allowlist, whatever claims the client's fixtures hold.
pub exchange_agent_obo-mock_client :
    (host : Host) (now : ℕ) (client : MockAgentSidecarClient) (bearer_token api_name k : String)
    (scopes : Option (List String)) (claims : Dict) (exchange : OboExchange)
    → contains k host.safe_claim_keys ≡ false
    → validate_agent_blueprint bearer_token (mock_client host now client) ≡ ok claims
    → exchange_agent_obo bearer_token (mock_client host now client) api_name scopes ≡ ok exchange
    → (lookup k claims ≡ none) × (lookup k exchange.claims ≡ none)
exchange_agent_obo-mock_client host now client bearer_token api_name k scopes claims exchange
      unlisted v h =
    exchange_agent_obo-IsSanitizing host (mock_client host now client) bearer_token api_name k
      scopes claims exchange (mock_client-IsSanitizing host now client) unlisted v h
