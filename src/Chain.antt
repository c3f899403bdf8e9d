-- ===== src/Chain.antt =====
-- The BFF and the agent together, in strict mode: what a chat session went through on both sides.
-- That a service's framework answers below 400 only where the handler returned, and that it reads the
-- headers of the request, are hypotheses.
use agentic_identity_lab.Prelude.{
  ℕ, ◌≡◌, ◌<◌, refl, String, true, false, Option, none, some, List, lower, ◌==◌, ◌<+>◌,
}
use agentic_identity_lab.Result.{Result, ok, >>=-eq-ok}
use agentic_identity_lab.Value.{Value, Dict}
use agentic_identity_lab.Http.{HttpReply, reply}
use agentic_identity_lab.Auth.Guards.{AuthContext}
use agentic_identity_lab.Auth.Settings.{
  Headers, strict, is_strict, load_auth_mode, extract_bearer_token,
}
use agentic_identity_lab.Auth.Jwks.Cache.{Network}
use agentic_identity_lab.Auth.Jwks.Strict.{Jwt}
use agentic_identity_lab.Auth.Jwks.Shared.{SharedState}
use agentic_identity_lab.Service.{Env, OutRequest, header_value}
use agentic_identity_lab.Service.Lookup.{find_header}
use agentic_identity_lab.Bff.Config as BffConfig
use agentic_identity_lab.Bff.Auth.Strict.{with_strict, IsTrusted, get_auth_context-IsTrusted}
use agentic_identity_lab.Bff.Main.{build_forward_headers, agent_request, create_chat_session}
use agentic_identity_lab.Bff.Main.Laws.{
  IsFor, build_forward_headers_strict, invoke_agent_execution_ok,
}
use agentic_identity_lab.Agent.Config as AgentConfig
use agentic_identity_lab.Agent.Auth.Strict.{IsVerified, resolve_auth_context-IsVerified}
use agentic_identity_lab.Agent.Main.{agent_invoke}

-- A reply below 400 at the address comes from a handler that returned.
abbrev pub Serves {ℓ} :
    {Val : Type ℓ} → (OutRequest → HttpReply) → (url : String) → (OutRequest → Result Val) → Type ℓ
Serves {Val} call url handler =
    (request : OutRequest) (status : ℕ) (body : Option Value)
    → request.url ≡ url
    → call request ≡ reply status body
    → status < 400
    → (value : Val) × (handler request ≡ ok value)

-- What the receiving framework reads as the authorization stands in the request under that name, in
-- some spelling: names of headers are compared in lower case.
abbrev pub Delivers : (OutRequest → Headers) → Type 0
Delivers headers_of =
    (request : OutRequest) (value : String)
    → header_value (headers_of request) "authorization" ≡ some value
    → (name : String) × (lower name ≡ "authorization")
      × (find_header name request.headers ≡ some value)

given_token :
    (authorization : Option String) (token : String)
    → extract_bearer_token authorization ≡ some token
    → (value : String) × (authorization ≡ some value)
unfolding extract_bearer_token
given_token none token h = absurd cc
given_token (some value) token h = (value, refl)

-- The two services, each with its own surroundings, network, keys and caches.
module _ {BffKey AgentKey : Type 0} (bff_net : Network) (bff_jwt : Jwt BffKey)
    (bff_shared : SharedState) (bff_env : Env) (agent_net : Network) (agent_jwt : Jwt AgentKey)
    (agent_shared : SharedState) (agent_env : Env) (bff_settings : BffConfig.Settings)
    (agent_settings : AgentConfig.Settings) (payload_of : OutRequest → Option Dict)
    (headers_of : OutRequest → Headers) where
  -- What both services saw.
  pub record IsPassed (headers : Headers) : Type 0 where
    pub context : AuthContext
    pub trusted :
        IsTrusted bff_net bff_jwt bff_shared bff_env headers (headers.find "authorization") context
    pub forwarded : List (String × String)
    pub built :
        build_forward_headers
          (with_strict bff_net bff_jwt bff_shared bff_env)
          bff_settings
          headers
          context
        ≡ ok forwarded
    pub agent_context : AuthContext
    pub verified :
        IsVerified agent_net agent_jwt agent_shared agent_env
          (headers_of (agent_request bff_settings forwarded))
          agent_context
    pub received : String
    pub read :
        header_value (headers_of (agent_request bff_settings forwarded)) "authorization"
        ≡ some received
    pub exchanged :
        IsFor
          (with_strict bff_net bff_jwt bff_shared bff_env)
          bff_settings
          headers
          context
          (headers.find "authorization")
          received

  -- With both services in strict mode, the BFF's chain enabled, and its correlation header not called
  -- Authorization in any spelling: if the agent's framework answers below 400 only where the agent's
  -- handler returned, and reads as the authorization what the request has under that name, then a
  -- chat session that is handed out went through both services. The BFF validated the caller's token
  -- under its own settings; the agent validated, under the agent's, the bearer token of the request
  -- that the BFF built; and that authorization came from a complete exchange of the caller's.
  pub create_chat_session-IsPassed :
      (mode : String) (headers : Headers) (response : Dict)
      → load_auth_mode none bff_env.environ ≡ strict
      → load_auth_mode none agent_env.environ ≡ strict
      → is_strict bff_settings.auth_mode ≡ true
      → bff_settings.chat_session_chain_enabled ≡ true
      → (lower bff_settings.correlation_header == "authorization") ≡ false
      → Delivers headers_of
      → Serves bff_env.call
          (bff_settings.agent_execution_base_url <+> bff_settings.agent_invoke_path)
          (λ request.
            agent_invoke
              (with_strict agent_net agent_jwt agent_shared agent_env)
              agent_settings
              mode
              (payload_of request)
              (headers_of request))
      → create_chat_session (with_strict bff_net bff_jwt bff_shared bff_env) bff_settings headers
        ≡ ok response
      → IsPassed headers
  unfolding create_chat_session with_strict agent_request agent_invoke
  create_chat_session-IsPassed mode headers response bff_on agent_on is_on enabled other delivers
        serves h =
      let env = with_strict bff_net bff_jwt bff_shared bff_env in
      let (context, authenticated, h₁) = >>=-eq-ok _ _ h in
      let (u, invoked, h₂) = >>=-eq-ok _ _ h₁ in
      let (forwarded, built, status, body, answered, below) =
        invoke_agent_execution_ok env bff_settings headers context u enabled invoked in
      let (served, returned) =
        serves (agent_request bff_settings forwarded) status body refl answered below in
      let (agent_context, resolved, rest) = >>=-eq-ok _ _ returned in
      let verified =
        resolve_auth_context-IsVerified agent_net agent_jwt agent_shared agent_env
          (headers_of (agent_request bff_settings forwarded)) agent_context agent_on resolved in
      let (received, read) = given_token _ verified.token verified.inbound in
      let (name, reads, found) = delivers (agent_request bff_settings forwarded) received read in
      record {
        context = context;
        trusted =
            get_auth_context-IsTrusted bff_net bff_jwt bff_shared bff_env headers
              (headers.find "authorization") context bff_on authenticated;
        forwarded = forwarded;
        built = built;
        agent_context = agent_context;
        verified = verified;
        received = received;
        read = read;
        exchanged =
            build_forward_headers_strict env bff_settings headers context forwarded name received
              is_on other reads built found;
      }
