-- ===== src/Bff/Main/Laws.antt =====
-- What a chat session and the call of the agent stand on.
use agentic_identity_lab.Prelude.{
  ℕ, ◌≡◌, ◌≢◌, ◌<◌, refl, sym, ap, ◌∙◌, String, Bool, true, false, Option, none, some, List, arith,
  inl, inr, eq_iff, lower, Bool-cases, is_blank, contains, ◌==◌, if◌then◌else◌,
}
use agentic_identity_lab.Result.{value_error, Result, ok, raise, ◌>>=◌, >>=-eq-ok, ok_injective}
use agentic_identity_lab.Value.{Value, Dict}
use agentic_identity_lab.Http.{HttpReply, http_error, reply}
use agentic_identity_lab.Auth.Guards.{AuthContext}
use agentic_identity_lab.Auth.Settings.{Headers, is_strict, load_auth_mode, disabled}
use agentic_identity_lab.Auth.Obo.Laws.{IsExchanged, exchange_entra_on_behalf_of_sound}
use agentic_identity_lab.Service.{Env, or_http, put_header}
use agentic_identity_lab.Service.Lookup.{find_header, find_header-put_header, find_header-put_given}
use agentic_identity_lab.Bff.Config.{Settings, obo_config}
use agentic_identity_lab.Bff.Auth.Laws.{IsAdmitted, get_auth_context-IsAdmitted}
use agentic_identity_lab.Bff.Main.{
  CorsPolicy, cors_policy, forward_authorization, put_authorization, build_forward_headers,
  agent_request, agent_answer, invoke_agent_execution, create_chat_session,
}

-- Credentials are never allowed for the wildcard origin.
pub cors_policy_explicit :
    (settings : Settings) (policy : CorsPolicy)
    → cors_policy settings ≡ ok (some policy)
    → (policy.allow_credentials ≡ true)
      × (contains "*" policy.allow_origins ≡ false)
      × (policy.allow_origins ≡ settings.cors_allowed_origins)
unfolding cors_policy
cors_policy_explicit settings policy h = ground arith

or_http_ok {ℓ} :
    {A : Type ℓ} (m : Result A) (status_code : ℕ) (detail : String) (a : A)
    → or_http m status_code detail ≡ ok a
    → m ≡ ok a
or_http_ok (ok b) status_code detail a h = h
or_http_ok (raise (value_error m)) status_code detail a h = cc
or_http_ok (raise e) status_code detail a h = cc

-- Names that differ in lower case differ.
differ :
    (k name : String)
    → lower name ≡ "authorization"
    → (lower k == "authorization") ≡ false
    → (k == name) ≡ false
differ k name reads other = elim (Bool-cases (k == name)) [
  | inl same ↦
      let read : lower k ≡ "authorization" = ap lower ((eq_iff k name).0 same) ∙ reads in
      absurd (cc (sym ((eq_iff (lower k) "authorization").1 read) ∙ other))
  | inr apart ↦ apart
]

traceparent_other : (lower "traceparent" == "authorization") ≡ false
unfolding lower
traceparent_other = refl

authorization_lower : lower "Authorization" ≡ "authorization"
unfolding lower
authorization_lower = refl

module _ (env : Env) (settings : Settings) (headers : Headers) (auth_context : AuthContext) where
  -- The value of an outgoing Authorization header in strict mode.
  abbrev pub IsFor : Option String → String → Type 0
  IsFor authorization value =
      (a : String) × (authorization ≡ some a)
      × IsExchanged env.token_endpoint (some a) (obo_config settings) value

  forward_authorization_strict :
      (a value : String)
      → is_strict settings.auth_mode ≡ true
      → forward_authorization env settings a ≡ ok value
      → IsExchanged env.token_endpoint (some a) (obo_config settings) value
  unfolding forward_authorization
  forward_authorization_strict a value strict h =
      exchange_entra_on_behalf_of_sound env.token_endpoint (some a) (obo_config settings)
        "Strict BFF to Agent chain" value
        (or_http_ok _ 502 "obo_exchange_failed" value (ground arith))

  put_header_value :
      (v : String) (base out : List (String × String)) (value : String)
      → ok (put_header "Authorization" v base) ≡ ok out
      → find_header "Authorization" out ≡ some value
      → v ≡ value
  put_header_value v base out value h found =
      let put = find_header-put_header "Authorization" "Authorization" v base in
      let same = ap (find_header "Authorization") (ok_injective h) in ground arith

  put_authorization_ok :
      (authorization : Option String) (base out : List (String × String)) (value : String)
      → is_strict settings.auth_mode ≡ true
      → find_header "Authorization" base ≡ none
      → put_authorization env settings authorization base ≡ ok out
      → find_header "Authorization" out ≡ some value
      → IsFor authorization value
  put_authorization_ok none base out value strict clean h found = ground arith
  put_authorization_ok (some a) base out value strict clean h found = by_blank (is_blank a) h
    where
      by_blank :
          (blank : Bool)
          → (if blank then ok base else (do
            v ← forward_authorization env settings a
            ok (put_header "Authorization" v base)))
            ≡ ok out
          → IsFor (some a) value
      by_blank true e = ground arith
      by_blank false e =
          let (v, forwarded, e₁) = >>=-eq-ok _ _ e in
          (
            a,
            refl,
            forward_authorization_strict a value strict
                (forwarded ∙ ap ok (put_header_value v base out value e₁ found)),
          )

  authorization_strict :
      (forwarded : List (String × String)) (value : String)
      → is_strict settings.auth_mode ≡ true
      → (settings.correlation_header == "Authorization") ≡ false
      → build_forward_headers env settings headers auth_context ≡ ok forwarded
      → find_header "Authorization" forwarded ≡ some value
      → IsFor (headers.find "authorization") value
  unfolding build_forward_headers find_header
  authorization_strict forwarded value strict other h found =
      let (out, put, h₁) = >>=-eq-ok _ _ h in
      put_authorization_ok (headers.find "authorization") _ out value strict (ground arith) put (
        sym (
          find_header-put_given "Authorization" "traceparent" (headers.find "traceparent") out refl)
        ∙ ap (find_header "Authorization") (ok_injective h₁)
        ∙ found)

  put_authorization_other :
      (name : String) (authorization : Option String) (base out : List (String × String))
      → ("Authorization" == name) ≡ false
      → put_authorization env settings authorization base ≡ ok out
      → find_header name out ≡ find_header name base
  put_authorization_other name none base out other h = ap (find_header name) (sym (ok_injective h))
  put_authorization_other name (some a) base out other h = by_blank (is_blank a) h
    where
      by_blank :
          (blank : Bool)
          → (if blank then ok base else (do
            v ← forward_authorization env settings a
            ok (put_header "Authorization" v base)))
            ≡ ok out
          → find_header name out ≡ find_header name base
      by_blank true e = ap (find_header name) (sym (ok_injective e))
      by_blank false e =
          let (v, forwarded, e₁) =
            >>=-eq-ok (forward_authorization env settings a)
              (λ x. ok (put_header "Authorization" x base)) e in
          ap (find_header name) (sym (ok_injective e₁))
          ∙ (find_header-put_header name "Authorization" v base ∙ rw other refl)

  -- No other header is built under a name that reads as Authorization.
  authorization_alone :
      (forwarded : List (String × String)) (name : String)
      → lower name ≡ "authorization"
      → (lower settings.correlation_header == "authorization") ≡ false
      → ("Authorization" == name) ≡ false
      → build_forward_headers env settings headers auth_context ≡ ok forwarded
      → find_header name forwarded ≡ none
  unfolding build_forward_headers find_header
  authorization_alone forwarded name reads correlation other h =
      let (out, put, h₁) = >>=-eq-ok _ _ h in
      let own : (settings.correlation_header == name) ≡ false =
        differ settings.correlation_header name reads correlation in
      ap (find_header name) (sym (ok_injective h₁))
      ∙ (find_header-put_given name "traceparent" (headers.find "traceparent") out
            (differ "traceparent" name reads traceparent_other)
          ∙ (put_authorization_other name (headers.find "authorization") _ out other put
              ∙ rw own refl))

  -- In strict mode, and unless the correlation header is called Authorization in some spelling: any
  -- value that the built headers have under Authorization, however spelt, was returned by a complete
  -- exchange of the caller's authorization with the BFF's on-behalf-of settings.
  pub build_forward_headers_strict :
      (forwarded : List (String × String)) (name value : String)
      → is_strict settings.auth_mode ≡ true
      → (lower settings.correlation_header == "authorization") ≡ false
      → lower name ≡ "authorization"
      → build_forward_headers env settings headers auth_context ≡ ok forwarded
      → find_header name forwarded ≡ some value
      → IsFor (headers.find "authorization") value
  build_forward_headers_strict forwarded name value strict correlation reads h found =
      elim (Bool-cases ("Authorization" == name)) [
        | inl same ↦
            authorization_strict forwarded value strict
              (differ settings.correlation_header "Authorization" authorization_lower correlation) h
              (ap (λ n. find_header n forwarded) ((eq_iff "Authorization" name).0 same) ∙ found)
        | inr other ↦
            absurd (cc (sym (authorization_alone forwarded name reads correlation other h) ∙ found))
      ]

agent_answer_ok :
    (r : HttpReply) (u : Unit {0})
    → agent_answer r ≡ ok u
    → (status : ℕ) × (body : Option Value) × (r ≡ reply status body) × (status < 400)
unfolding agent_answer
agent_answer_ok http_error u h = cc
agent_answer_ok (reply status body) u h = (status, body, refl, ground arith)

-- The agent was called with the forwarded headers and answered below 400.
abbrev pub IsCalled : Env → Settings → Headers → AuthContext → Type 0
IsCalled env settings headers context =
    (forwarded : List (String × String)) × (build_forward_headers env settings headers context
      ≡ ok forwarded)
    × (status : ℕ) × (body : Option Value) × (env.call (agent_request settings forwarded)
        ≡ reply status body)
    × (status < 400)

pub invoke_agent_execution_ok :
    (env : Env) (settings : Settings) (headers : Headers) (context : AuthContext) (u : Unit {0})
    → settings.chat_session_chain_enabled ≡ true
    → invoke_agent_execution env settings headers context ≡ ok u
    → IsCalled env settings headers context
unfolding invoke_agent_execution
invoke_agent_execution_ok env settings headers context u on h =
    let (forwarded, built, h₁) =
      >>=-eq-ok (build_forward_headers env settings headers context)
        (λ forwarded. agent_answer (env.call (agent_request settings forwarded))) (ground arith) in
    let (status, body, answered, below) = agent_answer_ok _ u h₁ in
    (forwarded, built, status, body, answered, below)

-- Unless the authentication mode is disabled, and with the chain enabled, a session is handed out only
-- to an admitted caller, and only after the agent was called with the forwarded headers and answered
-- below 400.
pub create_chat_session-IsAdmitted :
    (env : Env) (settings : Settings) (headers : Headers) (response : Dict)
    → load_auth_mode none env.environ ≢ disabled
    → settings.chat_session_chain_enabled ≡ true
    → create_chat_session env settings headers ≡ ok response
    → (context : AuthContext) × IsAdmitted env headers (headers.find "authorization") context
      × IsCalled env settings headers context
unfolding create_chat_session
create_chat_session-IsAdmitted env settings headers response on enabled h =
    let (context, authenticated, h₁) = >>=-eq-ok _ _ h in
    let (u, invoked, h₂) = >>=-eq-ok _ _ h₁ in
    (
      context,
      get_auth_context-IsAdmitted env headers (headers.find "authorization") context on
          authenticated,
      invoke_agent_execution_ok env settings headers context u enabled invoked,
    )
