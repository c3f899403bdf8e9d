-- ===== src/Agent/Main/Laws.antt =====
-- When the agent goes on to the MCP service, and what its answer then carries.
use agentic_identity_lab.Prelude.{
  ℕ, ◌≡◌, ◌<◌, refl, sym, ap, subst, ◌∙◌, String, Bool, true, false, Option, none, some, arith,
  eq_iff, join, or_default, [], ◌∷◌, ◌==◌, ◌<+>◌, if◌then◌else◌,
}
use agentic_identity_lab.Result.{value_error, Result, ok, raise, ◌>>=◌, >>=-eq-ok, ok_injective}
use agentic_identity_lab.Value.{str, dict, Dict, empty, entry, get, truthy}
use agentic_identity_lab.Http.{HttpReply, http_error, reply}
use agentic_identity_lab.Auth.Guards.{AuthContext}
use agentic_identity_lab.Auth.Settings.{Headers, is_strict}
use agentic_identity_lab.Auth.Obo.{exchange_entra_on_behalf_of}
use agentic_identity_lab.Auth.Obo.Laws.{IsExchanged, exchange_entra_on_behalf_of_sound}
use agentic_identity_lab.Service.{Env, OutRequest, or_http}
use agentic_identity_lab.Service.Lookup.{find_header, find_header-put_header, find_header-put_given}
use agentic_identity_lab.Agent.Config.{Settings, obo_config}
use agentic_identity_lab.Agent.Auth.{OboExchange, exchange_for_mcp, exchange_strict_for_mcp}
use agentic_identity_lab.Agent.Main.{
  AgentInvokeResponse, should_exchange_obo, mcp_request, mcp_answer, invoke_mcp_authorization_check,
  obtain_exchange, call_mcp, response_of, sorted_keys, invoke_response, is_called,
}

or_http_ok {ℓ} :
    {A : Type ℓ} (m : Result A) (status_code : ℕ) (detail : String) (a : A)
    → or_http m status_code detail ≡ ok a
    → m ≡ ok a
or_http_ok (ok b) status_code detail a h = h
or_http_ok (raise (value_error m)) status_code detail a h = cc
or_http_ok (raise e) status_code detail a h = cc

mcp_answer_ok :
    (r : HttpReply) (answer : Dict)
    → mcp_answer r ≡ ok answer
    → (status : ℕ) × (r ≡ reply status (some (dict answer))) × (status < 400)
unfolding mcp_answer
mcp_answer_ok http_error answer h = cc
mcp_answer_ok (reply status none) answer h = ground arith
mcp_answer_ok (reply status (some (dict payload))) answer h = (status, ground arith, ground arith)
mcp_answer_ok (reply status (some v)) answer h = ground arith

module _ (env : Env) (settings : Settings) (headers : Headers) (context : AuthContext) where
  obtain_exchange-some :
      (exchange : OboExchange)
      → obtain_exchange env settings headers context ≡ ok (some exchange)
      → (should_exchange_obo settings context ≡ true)
        × (exchange_for_mcp env context settings (headers.find "authorization") ≡ ok exchange)
  unfolding obtain_exchange
  obtain_exchange-some exchange h = by_test (should_exchange_obo settings context) refl h
    where
      by_test :
          (b : Bool)
          → should_exchange_obo settings context ≡ b
          → (if b
              then (do
                e ←
                    or_http
                      (exchange_for_mcp env context settings (headers.find "authorization"))
                      502
                      "obo_exchange_failed"
                ok (some e))
              else ok none)
            ≡ ok (some exchange)
          → (should_exchange_obo settings context ≡ true)
            × (exchange_for_mcp env context settings (headers.find "authorization") ≡ ok exchange)
      by_test false same e = cc
      by_test true same e =
          let (x, obtained, e₁) =
            >>=-eq-ok
              (or_http (exchange_for_mcp env context settings (headers.find "authorization")) 502
                "obo_exchange_failed")
              (λ x. ok (some x)) e in
          (same, or_http_ok _ 502 "obo_exchange_failed" exchange (ground arith))

  -- The exchange of strict mode.
  abbrev strict_exchange : Result OboExchange
  strict_exchange = do
    header ←
        exchange_entra_on_behalf_of env.token_endpoint (headers.find "authorization")
          (obo_config settings) "Strict Agent to MCP chain"
    ok (record {
      authorization = header;
      claims =
          entry "aud" (str settings.obo_downstream_audience)
            (entry "scp" (str (join " " settings.obo_required_scopes)) empty);
    })

  exchange_for_mcp-strict_exchange :
      is_strict settings.auth_mode ≡ true
      → exchange_for_mcp env context settings (headers.find "authorization") ≡ strict_exchange
  unfolding exchange_for_mcp exchange_strict_for_mcp
  exchange_for_mcp-strict_exchange strict = rw strict refl

  exchange_for_mcp_strict :
      (exchange : OboExchange)
      → is_strict settings.auth_mode ≡ true
      → exchange_for_mcp env context settings (headers.find "authorization") ≡ ok exchange
      → IsExchanged env.token_endpoint
          (headers.find "authorization")
          (obo_config settings)
          exchange.authorization
  exchange_for_mcp_strict exchange strict h =
      let (header, exchanged, h₁) =
        >>=-eq-ok _ _ (sym (exchange_for_mcp-strict_exchange strict) ∙ h) in
      subst (IsExchanged env.token_endpoint (headers.find "authorization") (obo_config settings))
        (ap (λ x. x.authorization) (ok_injective h₁))
        (exchange_entra_on_behalf_of_sound env.token_endpoint (headers.find "authorization")
          (obo_config settings) "Strict Agent to MCP chain" header exchanged)

  should_exchange_obo_lem :
      should_exchange_obo settings context ≡ true
      → (context.authorized ≡ true) × (context.token_type ≡ "delegated")
  unfolding should_exchange_obo
  should_exchange_obo_lem h =
      (ground arith, (eq_iff context.token_type "delegated").0 (ground arith))

  mcp_request_lem :
      (authorization : String)
      → (settings.correlation_header == "Authorization") ≡ false
      → find_header "Authorization" (mcp_request settings headers context authorization).headers
        ≡ some authorization
  unfolding mcp_request find_header
  mcp_request_lem authorization other =
      find_header-put_given "Authorization" "traceparent" (headers.find "traceparent") _ refl
      ∙ (find_header-put_header "Authorization" settings.correlation_header
            (or_default context.correlation_id "") (("Authorization", authorization) ∷ [])
          ∙ rw other refl)

  -- What an exercised chain went through.
  pub record IsChained (response : AgentInvokeResponse) : Type 0 where
    pub authorized : context.authorized ≡ true
    pub delegated : context.token_type ≡ "delegated"
    pub enabled : settings.mcp_chain_enabled ≡ true
    pub exchange : OboExchange
    pub obtained :
        exchange_for_mcp env context settings (headers.find "authorization") ≡ ok exchange
    pub request : OutRequest
    pub address :
        request.url ≡ settings.mcp_protected_api_base_url <+> settings.mcp_authorization_check_path
    pub sent : find_header "Authorization" request.headers ≡ some exchange.authorization
    pub status_code : ℕ
    pub answer : Dict
    pub answered : env.call request ≡ reply status_code (some (dict answer))
    pub accepted : status_code < 400
    pub reported : response.mcp_authorized ≡ some (truthy (get "authorized" answer))

  call_mcp-some :
      (exchange : OboExchange) (answer : Dict)
      → call_mcp env settings headers context (some exchange) ≡ ok (some answer)
      → (settings.mcp_chain_enabled ≡ true)
        × (invoke_mcp_authorization_check env settings headers context exchange.authorization
            ≡ ok answer)
  unfolding call_mcp
  call_mcp-some exchange answer h = by_test settings.mcp_chain_enabled refl h
    where
      by_test :
          (b : Bool)
          → settings.mcp_chain_enabled ≡ b
          → (if b
              then (do
                r ←
                    invoke_mcp_authorization_check env settings headers context
                      exchange.authorization
                ok (some r))
              else ok none)
            ≡ ok (some answer)
          → (settings.mcp_chain_enabled ≡ true)
            × (invoke_mcp_authorization_check env settings headers context exchange.authorization
                ≡ ok answer)
      by_test false same e = absurd cc
      by_test true same e =
          let (r, called, e₁) =
            >>=-eq-ok
              (invoke_mcp_authorization_check env settings headers context exchange.authorization)
              (λ r. ok (some r)) e in
          (same, ground arith)

  -- Unless the correlation header is called Authorization, an invocation that reports the chain as
  -- exercised did go through it: the context is authorized and of a delegated token, the chain is
  -- enabled, the exchange gave an authorization, a request with it under Authorization went to the
  -- MCP service's address and was answered below 400, and the answer's `authorized` is what the
  -- response says.
  pub invoke_response-IsChained :
      (mode : String) (payload : Option Dict) (response : AgentInvokeResponse)
      → (settings.correlation_header == "Authorization") ≡ false
      → invoke_response env settings mode payload context headers ≡ ok response
      → response.chain_exercised ≡ true
      → IsChained response
  unfolding invoke_response response_of call_mcp mcp_request
  invoke_response-IsChained mode payload response other h exercised =
      let (exchange, obtained, h₁) = >>=-eq-ok _ _ h in
      let (result, called, h₂) = >>=-eq-ok _ _ h₁ in
      by_result exchange result obtained called (ok_injective h₂)
        (ap (λ r. r.chain_exercised) (ok_injective h₂) ∙ exercised)
    where
      by_result :
          (exchange : Option OboExchange) (result : Option Dict)
          → obtain_exchange env settings headers context ≡ ok exchange
          → call_mcp env settings headers context exchange ≡ ok result
          → response_of env.host mode context (sorted_keys payload) exchange result ≡ response
          → is_called result ≡ true
          → IsChained response
      by_result exchange none obtained called same on = cc
      by_result none (some answer) obtained called same on = cc
      by_result (some exchange) (some answer) obtained called same on =
          let (wanted, got) = obtain_exchange-some exchange obtained in
          let (authorized, delegated) = should_exchange_obo_lem wanted in
          let (enabled, invoked) = call_mcp-some exchange answer called in
          let (status, replied, below) = mcp_answer_ok _ answer invoked in
          record {
            authorized = authorized;
            delegated = delegated;
            enabled = enabled;
            exchange = exchange;
            obtained = got;
            request = mcp_request settings headers context exchange.authorization;
            address = refl;
            sent = mcp_request_lem exchange.authorization other;
            status_code = status;
            answer = answer;
            answered = replied;
            accepted = below;
            reported = sym (ap (λ r. r.mcp_authorized) same);
          }

  -- In strict mode, and unless the correlation header is called Authorization, an invocation that
  -- reports the chain as exercised went through it as above, and what it sent to the MCP service under
  -- Authorization is what a complete exchange of the caller's own token gave, with the agent's
  -- on-behalf-of settings.
  pub invoke_response_strict :
      (mode : String) (payload : Option Dict) (response : AgentInvokeResponse)
      → is_strict settings.auth_mode ≡ true
      → (settings.correlation_header == "Authorization") ≡ false
      → invoke_response env settings mode payload context headers ≡ ok response
      → response.chain_exercised ≡ true
      → (chained : IsChained response) × IsExchanged env.token_endpoint
          (headers.find "authorization")
          (obo_config settings)
          chained.exchange.authorization
  invoke_response_strict mode payload response strict other h exercised =
      let chained = invoke_response-IsChained mode payload response other h exercised in
      (chained, exchange_for_mcp_strict chained.exchange strict chained.obtained)
