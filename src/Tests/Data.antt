-- ===== src/Tests/Data.antt =====
-- The inputs of the tests: claims that every service lets through, and their surroundings.
use agentic_identity_lab.Prelude.{
  ℕ, ◌*◌, String, true, false, none, some, [], ◌∷◌, pos, ◌==◌, if◌then◌else◌,
}
use agentic_identity_lab.Result.{ok}
use agentic_identity_lab.Value.{finite, int, str, dict, Dict, empty, entry}
use agentic_identity_lab.Host.{Host}
use agentic_identity_lab.Http.{HttpReply, reply}
use agentic_identity_lab.Auth.Claims.{default_safe_claim_keys}
use agentic_identity_lab.Auth.Guards.{micro, AuthContext, from_claims}
use agentic_identity_lab.Auth.Settings.{Headers, Environ, getenv}
use agentic_identity_lab.Auth.Obo.{TokenRequest, EntraOboConfig}
use agentic_identity_lab.Service.{Env, OutRequest, TokenPolicy}

abbrev pub now : ℕ
now = 1000 * micro

abbrev pub host : Host
host = record {
  safe_claim_keys = default_safe_claim_keys;
  float_of = λ s. if s == "10" then some (finite (pos 10) false) else none;
  int_of = λ s. if s == "8000" then some (pos 8000) else none;
  repr = λ v. "value";
  dumps = λ d. "{}";
}

abbrev pub claims : Dict
claims = entry "aud" (str "api://lab") (
    entry "exp" (int (pos 2000)) (
      entry "iss" (str "https://issuer") (
        entry "nbf" (int (pos 900)) (
          entry "scp" (str "mcp.access mcp.write")
            (entry "tid" (str "tenant-1") (entry "name" (str "Ada") empty))))))

abbrev pub policy : TokenPolicy
policy = record {
  auth_issuer = "https://issuer";
  auth_jwks_url = "https://issuer/keys";
  allowed_audiences = "api://lab" ∷ [];
  required_scopes = "mcp.access" ∷ "mcp.write" ∷ [];
  trusted_tenants = "tenant-1" ∷ [];
}

abbrev pub context : AuthContext
context = from_claims host (some claims) "delegated" true true [] (some "c-1")

abbrev pub environ : (mode : String) → Environ
environ mode =
    ("AUTH_MODE", mode)
    ∷ ("AUTH_ISSUER", "https://issuer")
    ∷ ("AUTH_JWKS_URL", "https://issuer/keys")
    ∷ ("ALLOWED_AUDIENCES", "api://lab")
    ∷ ("REQUIRED_SCOPES", "mcp.access, mcp.write")
    ∷ ("TRUSTED_TENANTS", "tenant-1")
    ∷ ("BLUEPRINT_AUDIENCE", "api://blueprint")
    ∷ ("CHAT_SESSION_CHAIN_ENABLED", "true")
    ∷ ("AGENT_EXECUTION_BASE_URL", "http://agent")
    ∷ ("MCP_CHAIN_ENABLED", "true")
    ∷ ("MCP_PROTECTED_API_BASE_URL", "http://mcp")
    ∷ ("OBO_TOKEN_URL", "https://issuer/token")
    ∷ ("OBO_CLIENT_ID", "client")
    ∷ ("OBO_CLIENT_SECRET", "example")
    ∷ ("OBO_REQUIRED_SCOPES", "mcp.access")
    ∷ []

abbrev pub headers : Headers
headers = record {
  find = λ name. getenv name (("authorization", "Bearer a.b.c") ∷ []);
  items = ("authorization", "Bearer a.b.c") ∷ [];
}

abbrev pub token_endpoint : TokenRequest → HttpReply
token_endpoint request =
    reply 200
      (some (dict (entry "access_token" (str "d.e.f") (entry "token_type" (str "Bearer") empty))))

-- The other services accept.
abbrev pub call : OutRequest → HttpReply
call request = reply 200 (some (dict (entry "authorized" (str "yes") empty)))

abbrev pub env : (mode : String) → Env
env mode = record {
  host = host;
  environ = environ mode;
  now = now;
  fresh_id = "fresh";
  fresh_uuid = "uuid";
  isoformat = λ n. "later";
  read_fixture = λ name. ok (some (dict claims));
  strict_claims = λ authorization jwks_url allowed_audiences issuer. ok (some claims);
  token_endpoint = token_endpoint;
  call = call;
}

abbrev pub obo_config : EntraOboConfig
obo_config = record {
  token_url = "https://issuer/token";
  client_id = "client";
  client_secret = "example";
  scopes = "mcp.access" ∷ [];
  timeout_seconds = finite (pos 10) false;
}
